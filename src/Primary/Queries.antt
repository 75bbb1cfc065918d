-- ===== src/Primary/Queries.antt =====
-- primarybuffer.cpp: the operations of `PrimaryBuffer` that leave the device alone: what it answers,
-- its volume, and the calls that it passes to the emulation. Without one, these are refused.
use dsoal.Prelude.{
  ℕ, Bool, true, false, not, ◌&&◌, ◌||◌, Option, none, some, List, [], ◌∷◌, ltb, ◌==◌,
  if◌then◌else◌, ℤ, ltb_ℤ,
}
use dsoal.Win.{
  Hresult, ds_ok, invalid_param, invalid_call, control_unavail, prio_level_needed, has,
  caps_locdefer, caps_ctrlpan, caps_ctrlvolume, caps_ctrlfrequency, level_writeprimary, volume_min,
  volume_max, Expected, value, unexpected,
}
use dsoal.Al.{Floats, AlCall, listener_f, listener_gain, mb_to_gain, al_playing}
use dsoal.Buffer.{Buffer}
use dsoal.Buffer.Cursor
use dsoal.Buffer.Cursor.{SourceView, OutPointers, Locked, nothing_locked}
use dsoal.Buffer.Playback
use dsoal.Pool.{BufferSubList, destroyed}
use dsoal.Primary.{PrimaryBuffer}

abbrev pub primary_buf_size : ℕ
primary_buf_size = 32768

module _ {F : Type 0} where
  -- The sources among a group's buffers, asked for their state up to one that plays
  source_plays : (ℕ → SourceView) → List (Option (Buffer F)) → Bool
  source_plays answers [] = false
  source_plays answers (none ∷ bs) = source_plays answers bs
  source_plays answers (some b ∷ bs) =
      (not (b.source == 0) && ((answers b.source).state == al_playing)) || source_plays answers bs

  -- The loop of `GetStatus` over the groups
  unfoldable pub any_playing : (ℕ → SourceView) → List (BufferSubList (Buffer F)) → Bool
  unfolding source_plays
  any_playing answers [] = false
  any_playing answers (g ∷ gs) =
      source_plays answers (destroyed g.free_mask g.buffers) || any_playing answers gs

  -- `GetStatus`: the DSBSTATUS_* bits, with the level and the secondary buffers of the parent
  pub get_status : ℕ → (ℕ → SourceView) → List (BufferSubList (Buffer F)) → PrimaryBuffer F → ℕ
  get_status level answers gs p =
      let plays = p.playing || (ltb level level_writeprimary && any_playing answers gs) in
      if plays then (if has p.flags caps_locdefer then 13 else 5) else 0

  -- `GetCaps`: the flags and the size that it reports
  pub get_caps : PrimaryBuffer F → ℕ × ℕ
  get_caps p = (p.flags, primary_buf_size)

  -- `GetVolume`, `GetPan` and `GetFrequency`, with a pointer for the answer
  pub get_volume : PrimaryBuffer F → Expected ℤ
  get_volume p = if has p.flags caps_ctrlvolume then value p.volume else unexpected control_unavail

  pub get_pan : PrimaryBuffer F → Expected ℤ
  get_pan p = if has p.flags caps_ctrlpan then value p.pan else unexpected control_unavail

  pub get_frequency : PrimaryBuffer F → Expected ℕ
  get_frequency p =
      if has p.flags caps_ctrlfrequency
      then value p.format.format.samples_per_sec
      else unexpected control_unavail

  -- `GetCurrentPosition`
  unfoldable pub get_current_position : ℕ → SourceView → PrimaryBuffer F → Expected (ℕ × ℕ)
  get_current_position refresh answer p = elim (p.write_emu) [
    | none ↦ unexpected prio_level_needed
    | some e ↦ value (Cursor.get_current_position refresh answer e)
  ]

  -- `SetCurrentPosition` and `SetFrequency`
  pub set_current_position : ℕ → PrimaryBuffer F → Hresult
  set_current_position new_position p = invalid_call

  pub set_frequency : ℕ → PrimaryBuffer F → Hresult
  set_frequency frequency p = control_unavail

  -- `Lock`, `Unlock` and `Restore`
  unfoldable pub lock :
      ℕ
      → SourceView
      → OutPointers
      → ℕ
      → ℕ
      → ℕ
      → PrimaryBuffer F
      → Hresult × Locked × PrimaryBuffer F
  lock refresh answer out offset bytes flags p = elim (p.write_emu) [
    | none ↦ (prio_level_needed, nothing_locked, p)
    | some e ↦
        (let (hr, l, e') = Cursor.lock refresh answer out offset bytes flags e in
          (hr, l, record p { write_emu = some e' }))
  ]

  unfoldable pub unlock : ℕ → ℕ → Option ℕ → ℕ → PrimaryBuffer F → Hresult × PrimaryBuffer F
  unlock ofs1 bytes1 ptr2 bytes2 p = elim (p.write_emu) [
    | none ↦ (invalid_call, p)
    | some e ↦
        (let (hr, e') = Cursor.unlock ofs1 bytes1 ptr2 bytes2 e in
          (hr, record p { write_emu = some e' }))
  ]

  unfoldable pub restore : ℕ → PrimaryBuffer F → Hresult × PrimaryBuffer F
  restore level p = elim (p.write_emu) [
    | none ↦ (ds_ok, p)
    | some e ↦
        (let (hr, e') = Playback.restore level true e in (hr, record p { write_emu = some e' }))
  ]

module _ (fl : Floats) where
  open fl use {D3dValue}

  -- `SetVolume`
  unfoldable pub set_volume :
      ℤ → PrimaryBuffer D3dValue → Hresult × PrimaryBuffer D3dValue × List (AlCall D3dValue)
  set_volume volume p =
      if ltb_ℤ volume_max volume || ltb_ℤ volume volume_min
      then (invalid_param, p, [])
      else if not (has p.flags caps_ctrlvolume)
      then (control_unavail, p, [])
      else (
        ds_ok,
        record p { volume = volume },
        listener_f listener_gain (mb_to_gain fl volume) ∷ [],
      )
