-- ===== src/Capture.antt =====
-- capture.cpp: `DSCBuffer`, the capture buffer: one round of its thread, its cursors, `Start`, `Stop`
-- and its notifications. An address inside the sample storage is its offset.
pub mod Reads
pub mod Ring
pub mod Events
pub mod Control
pub mod Locking
pub mod Setup
pub mod Queries
pub mod Object
pub mod Tests
use dsoal.Prelude.{
  ℕ, zero, suc, ◌+◌, ◌-◌, ◌*◌, ◌/◌, ◌%◌, min, Bool, true, false, not, ◌&&◌, ◌||◌, Option, none,
  some, List, [], ◌∷◌, ltb, leb, ◌==◌, if◌then◌else◌, ℤ, pos, negsuc,
}
use dsoal.Win.{
  has, Hresult, ds_ok, invalid_param, invalid_call, PositionNotify, offset_stop, dword_add,
}
use dsoal.Notify.{signalled, accept_notifies}

-- `DSCBuffer`, initialized: of `mBuffer` the size, of `mWaveFmt` the fields that are read.
pub record Capture : Type 0 where
  pub size : ℕ
  pub block_align : ℕ
  pub samples_per_sec : ℕ
  pub write_pos : ℕ
  pub capturing : Bool
  pub locked : Bool
  pub notifies : List PositionNotify

-- A call of `alcCaptureSamples`: where it writes, and how many frames
pub record Read : Type 0 where
  pub offset : ℕ
  pub frames : ℕ

-- The position behind a read, with the step back at the end
next_pos : ℕ → ℕ → ℕ
next_pos size at = if at == size then 0 else at

abbrev then_read : Read → Option (ℕ × List Read) → Option (ℕ × List Read)
then_read r none = none
then_read r (some (at, rs)) = some (at, r ∷ rs)

-- The loop over the available frames, on fuel
pub read_frames : ℕ → ℕ → ℕ → ℕ → ℕ → Option (ℕ × List Read)
unfolding next_pos
read_frames zero size align avail at = none
read_frames (suc fuel) size align avail at =
    let to_read = min avail ((size - at) / align) in
    let rest =
      read_frames fuel size align (avail - to_read)
        (next_pos size (dword_add at (to_read * align))) in
    if avail == 0 then some (at, []) else then_read (record { offset = at; frames = to_read }) rest

-- Whether a round that went from `old` to `new` signals a notification
pub captured : ℕ → ℕ → PositionNotify → Bool
captured old new n =
    if ltb new old
    then not (n.offset == offset_stop) && (leb old n.offset || ltb n.offset new)
    else leb old n.offset && ltb n.offset new

-- What a round leaves, reads and signals
pub record Round : Type 0 where
  pub capture : Capture
  pub reads : List Read
  pub events : List ℕ

idle : Capture → Round
idle c = record { capture = c; reads = []; events = [] }

-- The end of a round
finish_round : Capture → Option (ℕ × List Read) → Option Round
finish_round c none = none
finish_round c (some (at, rs)) = some (record {
  capture = record c { write_pos = at };
  reads = rs;
  events = signalled (captured c.write_pos at) c.notifies;
})

-- One round of `captureThread`, with what ALC_CAPTURE_SAMPLES answers
pub round : ℤ → Capture → Option Round
unfolding idle finish_round read_frames
round (negsuc n) c = some (idle c)
round (pos zero) c = some (idle c)
round (pos (suc n)) c =
    finish_round c (read_frames (suc (suc n)) c.size c.block_align (suc n) c.write_pos)

-- `SetNotificationPositions`; no list is a null pointer with a count.
pub set_notification_positions : Option (List PositionNotify) → Capture → Hresult × Capture
set_notification_positions none c = (invalid_param, c)
set_notification_positions (some ns) c =
    if c.capturing then (invalid_call, c) else elim (accept_notifies c.size ns) [
      | none ↦ (invalid_param, c)
      | some ms ↦ (ds_ok, record c { notifies = ms })
    ]

-- `Start`, with whether it starts the thread and the device; the flag is DSCBSTART_LOOPING.
pub start : ℕ → Capture → Hresult × Capture × Bool
start flags c =
    if not (has flags 1)
    then (invalid_param, c, false)
    else if c.capturing
    then (ds_ok, c, false)
    else (ds_ok, record c { capturing = true }, true)

at_stop : PositionNotify → Bool
at_stop n = n.offset == offset_stop

-- `Stop`, with the events that it signals and whether it ends the thread and stops the device. Rounds
-- that the thread does before it ends come before this step.
pub stop : Capture → Hresult × Capture × List ℕ × Bool
stop c =
    if c.capturing
    then (ds_ok, record c { capturing = false }, signalled at_stop c.notifies, true)
    else (ds_ok, c, [], false)
