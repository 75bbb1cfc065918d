-- ===== src/DSound8/Waiting.antt =====
-- The list of buffers that await notifications: who is in it after an addition and a removal.
use dsoal.Prelude.{
  ◌≡◌, refl, arith, Bool, true, false, not, List, [], ◌∷◌, ◌++◌, keep, All, Bool-cases, inl, inr,
  if_both,
}
use dsoal.DSound8.{
  Pointer, same_pointer, DSound8, contains, remove, add_notify_buffer, remove_notify_buffer,
  is_pending_notify,
}
use dsoal.DSound8.Pending.{IsLive, IsSound}

pub All-append :
    (P : Pointer → Type 0) (p : Pointer) (ps : List Pointer) → All P ps → P p → All P (ps ++ p ∷ [])
All-append P p [] a h = (h, tt)
All-append P p (q ∷ qs) a h = (a.0, All-append P p qs a.1 h)

contains-append : (p : Pointer) (ps : List Pointer) → contains p (ps ++ p ∷ []) ≡ true
unfolding contains
contains-append p [] = ground arith
contains-append p (q ∷ qs) = ground (arith, contains-append p qs)

pub All-keep :
    (P : Pointer → Type 0) (t : Pointer → Bool) (ps : List Pointer) → All P ps → All P (keep t ps)
All-keep P t [] a = tt
All-keep P t (q ∷ qs) a = if_both (All P) (t q) _ _ (a.0, All-keep P t qs a.1) (All-keep P t qs a.1)

contains-remove : (p : Pointer) (ps : List Pointer) → contains p (remove p ps) ≡ false
unfolding contains remove
contains-remove p [] = refl
contains-remove p (q ∷ qs) = elim (Bool-cases (same_pointer q p)) [
  | inl same ↦ rw (same, contains) (contains-remove p qs)
  | inr other ↦ rw (other, contains) (rw other (contains-remove p qs))
]

module _ {F : Type 0} where
  -- A live buffer that is added is then pending, one that is removed is not, and no pointer in the list
  -- dangles after either.
  pub add-remove :
      (p : Pointer) (s : DSound8 F)
      → IsSound s
      → IsLive s.secondary_buffers p
      → (IsSound (add_notify_buffer p s) × (is_pending_notify p (add_notify_buffer p s) ≡ true))
        × (IsSound (remove_notify_buffer p s)
            × (is_pending_notify p (remove_notify_buffer p s) ≡ false))
  unfolding add_notify_buffer remove_notify_buffer is_pending_notify remove
  add-remove p s v l = (
    elim (Bool-cases (contains p s.notify_buffers)) [
      | inl there ↦ rw there (v, there)
      | inr away ↦ rw away (
        record {
          pool = v.pool;
          live = All-append (IsLive s.secondary_buffers) p s.notify_buffers v.live l;
        },
        contains-append p s.notify_buffers,
      )
    ],
    (
      record {
        pool = v.pool;
        live =
            All-keep (IsLive s.secondary_buffers) (λ q. not (same_pointer q p)) s.notify_buffers
              v.live;
      },
      contains-remove p s.notify_buffers,
    ),
  )
