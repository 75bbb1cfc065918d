-- ===== src/Capture/Control.antt =====
-- `Start`, `Stop` and the notifications of a capture buffer.
use dsoal.Prelude.{ℕ, ◌≡◌, inl, inr, arith, true, false, not, [], ◌==◌, Bool-cases}
use dsoal.Win.{ds_ok, has, offset_stop}
use dsoal.Notify.{signalled}
use dsoal.Capture.{Capture, start, stop, at_stop}

-- A looping `Start` succeeds, and it starts the thread exactly if there is none. The `Stop` after it
-- succeeds, ends the thread, signals the events at the stop marker and leaves a buffer that does not
-- capture and is otherwise the same; another `Stop` does nothing.
pub start-stop :
    (flags : ℕ) (c : Capture)
    → has flags 1 ≡ true
    → let (hr, on, begun) = start flags c in
      (hr ≡ ds_ok)
      × (begun ≡ not c.capturing)
      × (on.capturing ≡ true)
      × (stop on ≡ (
        ds_ok,
        record c { capturing = false },
        signalled (λ n. n.offset == offset_stop) c.notifies,
        true,
      ))
      × (stop (record c { capturing = false }) ≡ (ds_ok, record c { capturing = false }, [], false))
unfolding start stop at_stop
start-stop flags c h = elim (Bool-cases (c.capturing)) [
  | inl on ↦ ground arith
  | inr off ↦ ground arith
]
