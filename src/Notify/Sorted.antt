-- ===== src/Notify/Sorted.antt =====
-- What the accepted notifications are: the given ones, valid, by rising offset.
use mathlib.Core.List.{Perm}
use mathlib.Core.List.Perm
use dsoal.Prelude.{
  ℕ, ◌≤◌, ◌<◌, ◌≡◌, ◌⊎◌, refl, arith, true, none, some, List, [], ◌∷◌, leb, Bool-cases, inl, inr,
  All,
}
use dsoal.Win.{PositionNotify, offset_stop}
use dsoal.Notify.{valid_notify, all_valid, insert_notify, sort_notifies, accept_notifies}

abbrev pub IsValid : ℕ → PositionNotify → Type 0
IsValid size n = (n.offset < size) ⊎ (n.offset ≡ offset_stop)

-- Every offset is at least `low`, and the offsets rise.
abbrev pub RisesFrom : ℕ → List PositionNotify → Type 0
RisesFrom low [] = Unit
RisesFrom low (n ∷ ns) = (low ≤ n.offset) × RisesFrom n.offset ns

insert_notify-RisesFrom :
    (low : ℕ) (n : PositionNotify) (ns : List PositionNotify)
    → low ≤ n.offset
    → RisesFrom low ns
    → RisesFrom low (insert_notify n ns)
unfolding insert_notify
insert_notify-RisesFrom low n [] h r = (h, tt)
insert_notify-RisesFrom low n (m ∷ ms) h r = ground (arith, insert_notify-RisesFrom m.offset n ms)

sort_notifies-RisesFrom : (ns : List PositionNotify) → RisesFrom 0 (sort_notifies ns)
unfolding sort_notifies
sort_notifies-RisesFrom [] = tt
sort_notifies-RisesFrom (n ∷ ns) =
    insert_notify-RisesFrom 0 n (sort_notifies ns) (omega arith) (sort_notifies-RisesFrom ns)

insert_notify-perm :
    (n : PositionNotify) (ns : List PositionNotify) → Perm (insert_notify n ns) (n ∷ ns)
unfolding insert_notify
insert_notify-perm n [] = Perm.refl (n ∷ [])
insert_notify-perm n (m ∷ ms) = elim (Bool-cases (leb n.offset m.offset)) [
  | inl e ↦ rw e (Perm.refl (n ∷ m ∷ ms))
  | inr e ↦ rw e (Perm.trans (Perm.cons m (insert_notify-perm n ms)) (Perm.swap n m ms))
]

sort_notifies-perm : (ns : List PositionNotify) → Perm (sort_notifies ns) ns
unfolding sort_notifies
sort_notifies-perm [] = Perm.refl []
sort_notifies-perm (n ∷ ns) =
    Perm.trans (insert_notify-perm n (sort_notifies ns)) (Perm.cons n (sort_notifies-perm ns))

insert_notify-All :
    (size : ℕ) (n : PositionNotify) (ns : List PositionNotify)
    → IsValid size n
    → All (IsValid size) ns
    → All (IsValid size) (insert_notify n ns)
unfolding insert_notify
insert_notify-All size n [] h a = (h, tt)
insert_notify-All size n (m ∷ ms) h a = ground (arith, insert_notify-All size n ms)

sort_notifies-All :
    (size : ℕ) (ns : List PositionNotify)
    → all_valid size ns ≡ true
    → All (IsValid size) (sort_notifies ns)
unfolding sort_notifies all_valid valid_notify
sort_notifies-All size [] h = tt
sort_notifies-All size (n ∷ ns) h =
    insert_notify-All size n (sort_notifies ns) (ground arith)
      (sort_notifies-All size ns (ground arith))

all_valid-All :
    (size : ℕ) (ns : List PositionNotify) → all_valid size ns ≡ true → All (IsValid size) ns
unfolding all_valid valid_notify
all_valid-All size [] h = tt
all_valid-All size (n ∷ ns) h = (ground arith, all_valid-All size ns (ground arith))

All-all_valid :
    (size : ℕ) (ns : List PositionNotify) → All (IsValid size) ns → all_valid size ns ≡ true
unfolding all_valid valid_notify
All-all_valid size [] a = refl
All-all_valid size (n ∷ ns) a = ground (arith, a.0, All-all_valid size ns a.1)

pub accept_notifies-All :
    (size : ℕ) (ns : List PositionNotify) {ms : List PositionNotify}
    → accept_notifies size ns ≡ some ms
    → All (IsValid size) ns
unfolding accept_notifies
accept_notifies-All size ns h = all_valid-All size ns (ground arith)

pub accept_notifies_refused :
    (size : ℕ) (ns : List PositionNotify) → accept_notifies size ns ≡ none → ¬ All (IsValid size) ns
unfolding accept_notifies
accept_notifies_refused size ns h a = let good = All-all_valid size ns a in cc (rw good at h)

-- The invariant of a notification list.
pub record IsOrdered (size : ℕ) (ns : List PositionNotify) : Type 0 where
  pub valid : All (IsValid size) ns
  pub rises : RisesFrom 0 ns

-- Accepted notifications are the given ones, each inside the buffer or the stop marker, by rising
-- offset.
pub accept_notifies-IsOrdered :
    (size : ℕ) (ns : List PositionNotify) {ms : List PositionNotify}
    → accept_notifies size ns ≡ some ms
    → IsOrdered size ms × Perm ms ns
unfolding accept_notifies
accept_notifies-IsOrdered size ns {ms} h = elim (Bool-cases (all_valid size ns)) [
  | inl e ↦
      let same : sort_notifies ns ≡ ms = ground arith in
      rw (← same) (
        record { valid = sort_notifies-All size ns e; rises = sort_notifies-RisesFrom ns },
        sort_notifies-perm ns,
      )
  | inr e ↦ cc (rw e at h)
]
