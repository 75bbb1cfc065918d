-- ===== src/Capture/Events.antt =====
-- The events of a round against the positions that it goes through.
use native.Mathlib.Nat.{mod-eq_of_lt, mod-eq-sub-mod, add-mul, mul-lt-mul_of_pos_right}
use native.Mathlib.Decide.{dec_lt}
use dsoal.Prelude.{
  ℕ, ◌+◌, ◌-◌, ◌*◌, ◌%◌, ◌≤◌, ◌<◌, ◌≡◌, ◌↔◌, sym, ap, ◌∙◌, arith, Bool, true, some, All, pos,
}
use dsoal.Win.{PositionNotify, offset_stop}
use dsoal.Notify.{signalled}
use dsoal.Notify.Sorted.{IsValid}
use dsoal.Buffer.Notify.{passed}
use dsoal.Buffer.Notify.Crossing.{distance, passed_iff, same_test, signalled_ext}
use dsoal.Capture.{Capture, Round, captured, round}
use dsoal.Capture.Ring.{IsRing, ahead, round-Advances}

-- The thread's test is that of a playing buffer, at positions before the stop marker.
captured-passed :
    (from to : ℕ) (n : PositionNotify) → to ≤ offset_stop → captured from to n ≡ passed from to n
unfolding captured passed
captured-passed from to n h = ground arith

-- Less than a whole storage on, the cursor went as far as the frames that were read.
distance-ahead :
    (k : ℕ) (c : Capture) (v : IsRing c)
    → k < v.frames
    → (distance c.size c.write_pos (ahead c v k) ≡ k * c.block_align) × (ahead c v k < c.size)
distance-ahead k c v h = elim (dec_lt (v.at + k) v.frames) [
  | yes low ↦
      let to : ahead c v k ≡ (v.at + k) * c.block_align =
        ap (λ n. n * c.block_align) (mod-eq_of_lt low) in
      let scaled = mul-lt-mul_of_pos_right low v.align_pos in
      let split = add-mul v.at k c.block_align in ground (arith, v.pos_at, v.size_frames)
  | no high ↦
      let rest : ℕ = v.at + k - v.frames in
      let to : ahead c v k ≡ rest * c.block_align =
        ap (λ n. n * c.block_align)
          (omega (
            arith,
            v.at_in,
            mod-eq-sub-mod {n = v.at + k} {m = v.frames} (omega arith),
            mod-eq_of_lt {n = rest} {m = v.frames} (omega (arith, v.at_in)),
          )) in
      let scaled = mul-lt-mul_of_pos_right h v.align_pos in
      let inside = mul-lt-mul_of_pos_right v.at_in v.align_pos in
      let whole : rest + v.frames ≡ v.at + k = omega (arith, v.at_in) in
      let sum : rest * c.block_align + v.frames * c.block_align
          ≡ v.at * c.block_align + k * c.block_align =
        sym (add-mul rest v.frames c.block_align)
        ∙ ap (λ n. n * c.block_align) whole
        ∙ add-mul v.at k c.block_align in
      ground (arith, v.pos_at, v.size_frames)
]

-- A round that reads fewer frames than the storage holds signals exactly the events of the
-- notifications at the positions that it goes through, in the order of the list. `hit` is any test
-- that decides which these are.
pub round_events :
    (k : ℕ) (c : Capture) (v : IsRing c) (hit : PositionNotify → Bool)
    → k < v.frames
    → All (IsValid c.size) c.notifies
    → ((n : PositionNotify)
        → IsValid c.size n
        → (hit n ≡ true)
          ↔ ((j : ℕ) × (j < k * c.block_align) × ((c.write_pos + j) % c.size ≡ n.offset)))
    → (r : Round) × (round (pos k) c ≡ some r) × (r.events ≡ signalled hit c.notifies)
round_events k c v hit h hv hh =
    let a = round-Advances (pos k) c v in
    let (far, inside) = distance-ahead k c v h in
    let started : c.write_pos < c.size =
      let scaled = mul-lt-mul_of_pos_right v.at_in v.align_pos in
      omega (arith, v.pos_at, v.size_frames) in
    let to : ℕ = ahead c v k in
    (
      a.result,
      a.done,
      a.events
          ∙ signalled_ext (captured c.write_pos to) hit (IsValid c.size) c.notifies
              (λ n vn.
                captured-passed c.write_pos to n (omega (arith, v.small))
                ∙ same_test _ _
                    (passed_iff c.size c.write_pos to n (omega (arith, v.small)) started
                      (omega arith) vn)
                    (rw far (hh n vn)))
              hv,
    )
