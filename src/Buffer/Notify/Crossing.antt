-- ===== src/Buffer/Notify/Crossing.antt =====
-- `updateNotify` against the positions that the play cursor visits.
use native.Mathlib.Nat.{mod-eq_of_lt, mod-eq-sub-mod}
use native.Mathlib.Decide.{dec_lt, dec_le}
use dsoal.Prelude.{
  ℕ, ◌+◌, ◌-◌, ◌%◌, ◌≤◌, ◌<◌, ◌≡◌, ◌↔◌, refl, arith, Bool, true, false, List, leb, if◌then◌else◌,
  ◌==◌, ==_iff, ap, sym, [], ◌∷◌, ◌++◌, All,
}
use dsoal.Win.{PositionNotify, offset_stop}
use dsoal.Al.{al_playing, al_stopped}
use dsoal.Notify.{signalled}
use dsoal.Notify.Sorted.{IsValid}
use dsoal.SharedBuffer.Created.{IsWhole}
use dsoal.Buffer.{Buffer}
use dsoal.Buffer.Cursor.{SourceView}
use dsoal.Buffer.Notify.{passed, at_stop, reached, update_notify}

-- How far the cursor goes forward from one position to another, round the end of the buffer.
abbrev pub distance : ℕ → ℕ → ℕ → ℕ
distance size from to = if leb from to then to - from else to + size - from

-- `p` is a position that the cursor leaves behind on its way.
abbrev pub Crossed : ℕ → ℕ → ℕ → ℕ → Type 0
Crossed size from to p = (k : ℕ) × (k < distance size from to) × ((from + k) % size ≡ p)

round_once : {size p : ℕ} → p < size → (p + size) % size ≡ p
round_once {size} {p} h = omega (
  arith,
  mod-eq-sub-mod {n = p + size} {m = size} (omega arith),
  mod-eq_of_lt {n = p + size - size} {m = size} (omega arith),
)

reached_lem :
    {F : Type 0} (v : SourceView) (b : Buffer F)
    → IsWhole b.shared
    → v.offset ≤ b.shared.size
    → reached v b ≡ (if v.state == al_stopped then b.shared.size else v.offset)
unfolding reached
reached_lem v b w h = ground (arith, w)

passed-inside :
    (size from to : ℕ) (n : PositionNotify)
    → from < size
    → to ≤ size
    → IsValid size n
    → passed from to n ≡ true
    → n.offset < size
unfolding passed
passed-inside size from to n hf ht hv h = ground arith

passed-Crossed :
    (size from to : ℕ) (n : PositionNotify)
    → from < size
    → to ≤ size
    → IsValid size n
    → passed from to n ≡ true
    → Crossed size from to n.offset
unfolding passed
passed-Crossed size from to n hf ht hv h =
    let inside = passed-inside size from to n hf ht hv h in
    elim (dec_le from n.offset) [
      | yes p ↦
          let e : from + (n.offset - from) ≡ n.offset = omega arith in
          (n.offset - from, ground arith, rw e (mod-eq_of_lt inside))
      | no p ↦
          let e : from + (n.offset + size - from) ≡ n.offset + size = omega arith in
          (n.offset + size - from, ground arith, rw e (round_once inside))
    ]

Crossed-passed :
    (size from to : ℕ) (n : PositionNotify)
    → size ≤ offset_stop
    → from < size
    → to ≤ size
    → Crossed size from to n.offset
    → passed from to n ≡ true
unfolding passed
Crossed-passed size from to n hs hf ht (k, hk, e) = elim (dec_lt (from + k) size) [
  | yes p ↦ let same : from + k ≡ n.offset = omega (arith, mod-eq_of_lt p) in ground arith
  | no p ↦
      let far : k < size = ground arith in
      let same : from + k - size ≡ n.offset = omega (
        arith,
        mod-eq-sub-mod {n = from + k} {m = size} (omega arith),
        mod-eq_of_lt {n = from + k - size} {m = size} (omega arith),
      ) in
      ground arith
]

pub passed_iff :
    (size from to : ℕ) (n : PositionNotify)
    → size ≤ offset_stop
    → from < size
    → to ≤ size
    → IsValid size n
    → (passed from to n ≡ true) ↔ Crossed size from to n.offset
passed_iff size from to n hs hf ht hv =
    (passed-Crossed size from to n hf ht hv, Crossed-passed size from to n hs hf ht)

pub same_test : (a b : Bool) {P : Type 0} → (a ≡ true) ↔ P → (b ≡ true) ↔ P → a ≡ b
same_test true true f g = refl
same_test true false f g = sym (g.1 (f.0 refl))
same_test false true f g = f.1 (g.0 refl)
same_test false false f g = refl

pub signalled_ext :
    (hit test : PositionNotify → Bool) (V : PositionNotify → Type 0) (ns : List PositionNotify)
    → ((n : PositionNotify) → V n → hit n ≡ test n)
    → All V ns
    → signalled hit ns ≡ signalled test ns
unfolding signalled
signalled_ext hit test V [] e a = refl
signalled_ext hit test V (n ∷ ns) e a = ground (arith, e n a.0, signalled_ext hit test V ns e a.1)

-- The position that an update reaches: the end of the buffer, for a source that ended.
abbrev pub reached_pos : {F : Type 0} → SourceView → Buffer F → ℕ
reached_pos v b = if v.state == al_stopped then b.shared.size else v.offset

-- The events that `updateNotify` signals are those of the notifications that the play cursor left
-- behind on its way forward, round the end of the buffer, from the last update to the position that
-- OpenAL reports, in the order of the list, and then, if the source is not playing, those at the stop
-- marker. `hit` is any test that decides the first. The position is remembered, and the result says
-- whether the source is playing.
pub update_notify-events :
    {F : Type 0} (v : SourceView) (b : Buffer F) (hit : PositionNotify → Bool)
    → IsWhole b.shared
    → b.last_pos < b.shared.size
    → v.offset ≤ b.shared.size
    → All (IsValid b.shared.size) b.notifies
    → ((n : PositionNotify)
        → IsValid b.shared.size n
        → (hit n ≡ true) ↔ Crossed b.shared.size b.last_pos (reached_pos v b) n.offset)
    → ((update_notify v b).events
        ≡ signalled hit b.notifies
          ++ (if v.state == al_playing
              then []
              else signalled (λ n. n.offset == offset_stop) b.notifies))
      × ((update_notify v b).buffer ≡ record b { last_pos = reached_pos v b })
      × (((update_notify v b).pending ≡ true) ↔ (v.state ≡ al_playing))
unfolding update_notify at_stop
update_notify-events v b hit w hl ho hv hh =
    let same : reached v b ≡ reached_pos v b = reached_lem v b w ho in
    let stays : reached_pos v b ≤ b.shared.size = ground arith in
    rw same (
      ap
          (λ es.
            es
            ++ (if v.state == al_playing
                then []
                else signalled (λ n. n.offset == offset_stop) b.notifies))
          (signalled_ext (passed b.last_pos (reached_pos v b)) hit (IsValid b.shared.size)
            b.notifies
            (λ n vn.
              same_test _ _
                (passed_iff b.shared.size b.last_pos (reached_pos v b) n
                  (omega (arith, w.size_high)) hl stays vn)
                (hh n vn))
            hv),
      refl,
      ==_iff v.state al_playing,
    )
