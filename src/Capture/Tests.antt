-- ===== src/Capture/Tests.antt =====
-- A capture buffer of 100 frames, and the results of the modules below `Capture` on it.
use dsoal.Prelude.{
  All, ◌-◌, ℕ, ◌+◌, ◌*◌, ◌%◌, ◌<◌, ◌≡◌, ◌↔◌, refl, arith, true, false, some, [], ◌∷◌, pos, Bool,
  leb, ltb, ◌&&◌,
}
use dsoal.Win.{PositionNotify}
use dsoal.Notify.{signalled}
use dsoal.Notify.Sorted.{IsValid}
use dsoal.Capture.{Capture, Round, round}
use dsoal.Capture.Ring.{IsRing, Advances, round-Advances, round_misses}
use dsoal.Win.{ds_ok}
use dsoal.Buffer.Cursor.{OutPointers, Locked}
use dsoal.Capture.Locking.{lock, unlock, window}
use dsoal.Capture.Locking.Window.{IsGranted, capture_lock-unlock}
use dsoal.Capture.Reads.{total}
use dsoal.Capture.Events.{round_events}

abbrev recording : Capture
recording = record {
  size = 400;
  block_align = 4;
  samples_per_sec = 44100;
  write_pos = 360;
  capturing = true;
  locked = false;
  notifies = record { offset = 20; event = 1 } ∷ record { offset = 380; event = 2 } ∷ [];
}

abbrev recording-IsRing : IsRing recording
recording-IsRing = record {
  frames = 100;
  at = 90;
  align_pos = omega arith;
  size_frames = refl;
  pos_at = refl;
  at_in = omega arith;
  small = omega arith;
}

round-Advances_example : Advances (pos 250) recording recording-IsRing
round-Advances_example = round-Advances (pos 250) recording recording-IsRing

round_misses_example :
    (r : Round) × (round (pos 100) recording ≡ some r)
    × (total r.reads ≡ 100)
    × (r.capture ≡ recording)
    × (r.events ≡ [])
round_misses_example = round_misses recording recording-IsRing

-- Ten frames on from 360 is 0: the cursor goes through 360 to 399.
abbrev hits_end : PositionNotify → Bool
hits_end n = leb 360 n.offset && ltb n.offset 400

hits_40 :
    (n : PositionNotify)
    → IsValid recording.size n
    → (hits_end n ≡ true) ↔ (
        (j : ℕ) × (j < 10 * recording.block_align)
        × ((recording.write_pos + j) % recording.size ≡ n.offset))
hits_40 n v = (
  (λ h. (n.offset - 360, ground arith, ground arith)),
  (λ c. let near = c.2 in let far = c.1 in ground arith),
)

recording-IsValid : All (IsValid recording.size) recording.notifies
recording-IsValid = ground arith

round_events_example :
    (r : Round) × (round (pos 10) recording ≡ some r)
    × (r.events ≡ signalled hits_end recording.notifies)
round_events_example =
    round_events 10 recording recording-IsRing hits_end (omega arith) recording-IsValid hits_40

abbrev pointers : OutPointers
pointers = record { audio_ptr1 = true; audio_bytes1 = true; audio_ptr2 = true; audio_bytes2 = true }

-- A window that goes round the end of the storage
abbrev split : Locked
split = record { ptr1 = some 300; bytes1 = 100; ptr2 = some 0; bytes2 = 100 }

locked_300 : lock pointers 300 200 0 recording ≡ (ds_ok, split, record recording { locked = true })
unfolding lock window
locked_300 = refl

capture_lock-unlock_example :
    (v : IsGranted pointers 300 200 0 recording split (record recording { locked = true }))
    × (unlock v.start 100 (some 0) 100 (record recording { locked = true }) ≡ (ds_ok, recording))
capture_lock-unlock_example =
    capture_lock-unlock pointers 300 200 0 recording (omega arith) locked_300
