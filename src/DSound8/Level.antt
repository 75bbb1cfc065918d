-- ===== src/DSound8/Level.antt =====
-- dsoundoal.cpp: `SetCooperativeLevel`, with what it does to the secondary buffers and to the emulation
-- of the primary one, and the operations that look at the level.
pub mod Change
pub mod Exclusive
pub mod Entry
use dsoal.Prelude.{
  ℕ, Bool, true, false, not, ◌&&◌, ◌||◌, Option, none, some, List, [], ◌∷◌, ◌++◌, ltb, ◌==◌,
  if◌then◌else◌,
}
use dsoal.Win.{
  Hresult, ds_ok, invalid_param, invalid_call, prio_level_needed, failed, has, level_normal,
  level_priority, level_writeprimary,
}
use dsoal.Al.{Floats, AlCall}
use dsoal.SharedBuffer.{Storage}
use dsoal.Buffer.{Buffer}
use dsoal.Buffer.Location.{Given}
use dsoal.Buffer.Cursor.{SourceView}
use dsoal.Buffer.Playback.{get_status}
use dsoal.Pool.{BufferSubList}
use dsoal.Primary.{PrimaryBuffer}
use dsoal.Primary.Emulation.{PrimaryOutcome, destroy_write_emu, create_write_emu}
use dsoal.DSound8.{DSound8}

-- What a walk over buffers leaves: whether it met one that plays, where it stopped.
pub record Walked (A : Type 0) : Type 0 where
  pub met : Bool
  pub left : A

module _ {F : Type 0} where
  -- `state&DSBSTATUS_PLAYING`
  unfoldable pub plays : (ℕ → SourceView) → Buffer F → Bool
  plays answers b = has (get_status (answers b.source) b) 1

  -- `setLost`
  unfoldable pub set_lost : Buffer F → Buffer F
  set_lost b = record b { buffer_lost = true }

  -- The walk over a group: the slots whose bit is not set, lowest first, up to a buffer that plays
  unfoldable pub lose_slots :
      (ℕ → SourceView) → List Bool → List (Option (Buffer F)) → Walked (List (Option (Buffer F)))
  lose_slots answers [] ss = record { met = false; left = ss }
  lose_slots answers (free ∷ bits) [] = record { met = false; left = [] }
  lose_slots answers (true ∷ bits) (s ∷ ss) =
      let w = lose_slots answers bits ss in record w { left = s ∷ w.left }
  lose_slots answers (false ∷ bits) (none ∷ ss) =
      let w = lose_slots answers bits ss in record w { left = none ∷ w.left }
  lose_slots answers (false ∷ bits) (some b ∷ ss) =
      let w = lose_slots answers bits ss in
      if plays answers b
      then record { met = true; left = some b ∷ ss }
      else record w { left = some (set_lost b) ∷ w.left }

  -- The walk over the groups
  unfoldable pub lose_groups :
      (ℕ → SourceView) → List (BufferSubList (Buffer F)) → Walked (List (BufferSubList (Buffer F)))
  unfolding lose_slots plays set_lost
  lose_groups answers [] = record { met = false; left = [] }
  lose_groups answers (g ∷ gs) =
      let w = lose_slots answers g.free_mask g.buffers in
      let v = lose_groups answers gs in
      if w.met
      then record { met = true; left = record g { buffers = w.left } ∷ gs }
      else record v { left = record g { buffers = w.left } ∷ v.left }

module _ (fl : Floats) where
  open fl use {D3dValue}

  -- What `SetCooperativeLevel` leaves, and its calls
  abbrev pub LevelStep : Type 0
  LevelStep = Hresult × DSound8 D3dValue × List (AlCall D3dValue)

  -- The object with what an operation of the primary buffer leaves
  unfoldable pub with_primary : PrimaryOutcome D3dValue → DSound8 D3dValue → DSound8 D3dValue
  with_primary o s = record s { primary_buffer = o.primary; shared = o.device }

  -- The end of the change to DSSCL_WRITEPRIMARY, if no buffer plays
  unfoldable pub emulate :
      Given D3dValue
      → Storage
      → DSound8 D3dValue
      → Hresult × DSound8 D3dValue × List (AlCall D3dValue)
  unfolding with_primary
  emulate g st s =
      let o = create_write_emu fl g st s.primary_buffer.flags s.primary_buffer s.shared in
      if s.primary_buffer.flags == 0 then (ds_ok, s, []) else (o.hr, with_primary o s, o.calls)

  -- The change to DSSCL_WRITEPRIMARY from another level, up to the storing of the level
  unfoldable pub enter_writeprimary :
      Given D3dValue → Storage → (ℕ → SourceView) → DSound8 D3dValue → LevelStep
  unfolding with_primary lose_groups emulate
  enter_writeprimary g st answers s =
      let o = destroy_write_emu fl s.primary_buffer s.shared in
      let w = lose_groups answers s.secondary_buffers in
      let s' = record (with_primary o s) { secondary_buffers = w.left } in
      let (hr, s'', calls) = emulate g st s' in
      if w.met then (invalid_call, s', o.calls) else (hr, s'', o.calls ++ calls)

  -- The change from DSSCL_WRITEPRIMARY to another level
  unfoldable pub leave_writeprimary : DSound8 D3dValue → LevelStep
  unfolding with_primary
  leave_writeprimary s =
      let o = destroy_write_emu fl s.primary_buffer s.shared in (ds_ok, with_primary o s, o.calls)

  -- `if(SUCCEEDED(hr)) mPrioLevel = level`
  unfoldable pub store_level : ℕ → LevelStep → LevelStep
  store_level level (hr, s, calls) =
      (hr, (if failed hr then s else record s { prio_level = level }), calls)

  -- `SetCooperativeLevel`, of an initialized object
  unfoldable pub set_cooperative_level :
      Given D3dValue → Storage → (ℕ → SourceView) → ℕ → DSound8 D3dValue → LevelStep
  unfolding enter_writeprimary leave_writeprimary store_level
  set_cooperative_level g st answers level s =
      if ltb level_writeprimary level || ltb level level_normal
      then (invalid_param, s, [])
      else store_level level (
          if (level == level_writeprimary) && not (s.prio_level == level_writeprimary)
          then enter_writeprimary g st answers s
          else if ltb level level_writeprimary && (s.prio_level == level_writeprimary)
          then leave_writeprimary s
          else (ds_ok, s, []))

  -- `Compact`
  pub compact : DSound8 D3dValue → Hresult
  compact s = if ltb s.prio_level level_priority then prio_level_needed else ds_ok
