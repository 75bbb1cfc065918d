-- ===== src/Primary/Emulation.antt =====
-- primarybuffer.cpp: the secondary buffer that emulates the primary one, and the operations of
-- `PrimaryBuffer` that use it.
pub mod Held
pub mod Sessions
pub mod Absent
pub mod Loss
pub mod Accepts
use dsoal.Prelude.{
  ℕ, ◌-◌, ◌%◌, Bool, true, false, not, ◌&&◌, ◌||◌, Option, none, some, List, [], ◌∷◌, ◌++◌, ltb,
  ◌==◌, if◌then◌else◌, ℤ, ltb_ℤ, bit_and, bit_or,
}
use dsoal.Win.{
  Hresult, ds_ok, invalid_param, invalid_call, control_unavail, already_initialized,
  prio_level_needed, failed, has, caps_lochardware, caps_locdefer, caps_ctrlpan, caps_ctrlvolume,
  caps_ctrlfrequency, play_looping, level_priority, level_writeprimary, volume_min, volume_max,
  pan_left, pan_right, wave_format_extensible, ext_extra_size, WaveFormatExtensible, Expected,
  value, unexpected,
}
use dsoal.Al.{Floats, AlCall, listener_f, listener_gain, mb_to_gain, al_playing}
use dsoal.Device.{SharedDevice}
use dsoal.SharedBuffer.{BufferDesc, Storage}
use dsoal.Buffer
use dsoal.Buffer.{Buffer, Vector, Outcome}
use dsoal.Buffer.Location.{Given, destroy}
use dsoal.Buffer.Cursor
use dsoal.Buffer.Cursor.{SourceView, OutPointers, Locked, nothing_locked}
use dsoal.Buffer.Playback
use dsoal.Buffer.Playback.{PlayAnswers}
use dsoal.Buffer.Control
use dsoal.Buffer.Setup
use dsoal.Buffer.Setup.{Initialized}
use dsoal.Pool.{BufferSubList, destroyed}
use dsoal.Primary.{PrimaryBuffer, ListenerParams, zero_vector, listener_clean, listener_all}
use dsoal.Primary.Listener3d.{set_params}
use dsoal.Primary.Formats.{copy_format}
use dsoal.Primary.Queries.{primary_buf_size}

-- A pointer as a condition
unfoldable pub is_there {ℓ} : {A : Type ℓ} → Option A → Bool
is_there none = false
is_there (some _) = true

-- What an operation that can use the device leaves
pub record PrimaryOutcome (F : Type 0) : Type 0 where
  pub hr : Hresult
  pub primary : PrimaryBuffer F
  pub device : SharedDevice
  pub calls : List (AlCall F)

-- The description of the emulation in `createWriteEmu`
unfoldable pub emu_desc : ℕ → WaveFormatExtensible → BufferDesc
emu_desc flags f = record {
  flags = bit_or caps_lochardware (bit_and flags caps_ctrlpan);
  buffer_bytes = primary_buf_size - primary_buf_size % f.format.block_align;
  format = some f;
}

module _ {F : Type 0} where
  -- An operation that only asks
  unfoldable pub unchanged : Hresult → PrimaryBuffer F → SharedDevice → PrimaryOutcome F
  unchanged hr p d = record { hr = hr; primary = p; device = d; calls = [] }

  -- What an operation of the emulation leaves of the primary buffer, which then plays or does not
  unfoldable pub emulated : PrimaryBuffer F → Bool → Outcome F → PrimaryOutcome F
  emulated p plays o = record {
    hr = o.hr;
    primary = record p {
      write_emu = some o.buffer;
      playing = if failed o.hr then p.playing else plays;
    };
    device = o.device;
    calls = o.calls;
  }

  -- `Stop`, which also resets the position
  unfoldable pub stop : SourceView → PrimaryBuffer F → SharedDevice → PrimaryOutcome F
  unfolding unchanged emulated
  stop answer p d = elim (p.write_emu) [
    | none ↦ unchanged ds_ok (record p { playing = false }) d
    | some e ↦
        (let o = Playback.stop answer e d in
          let (hr, e', calls) = Cursor.set_current_position 0 o.buffer in
          emulated p false
            (if failed o.hr then o else record o { buffer = e'; calls = o.calls ++ calls }))
  ]

module _ (fl : Floats) where
  open fl use {D3dValue, zero_f, one_f}

  -- The end of a buffer that an owning pointer held
  unfoldable pub drop :
      Option (Buffer D3dValue) → SharedDevice → SharedDevice × List (AlCall D3dValue)
  drop none d = (d, [])
  drop (some e) d = destroy fl e d

  -- `destroyWriteEmu`
  unfoldable pub destroy_write_emu : PrimaryBuffer D3dValue → SharedDevice → PrimaryOutcome D3dValue
  unfolding drop
  destroy_write_emu p d =
      let (d', calls) = drop p.write_emu d in
      record { hr = ds_ok; primary = record p { write_emu = none }; device = d'; calls = calls }

  -- `createWriteEmu`, after `Initialize` of the new buffer: of the new buffer and the one before, the
  -- one that the primary buffer does not keep is destroyed.
  unfoldable pub with_emu : Initialized D3dValue → PrimaryBuffer D3dValue → PrimaryOutcome D3dValue
  unfolding drop
  with_emu r p =
      let (gone, calls) = drop r.buffer r.device in
      let (kept, calls') = drop p.write_emu r.device in
      if failed r.hr
      then record { hr = r.hr; primary = p; device = gone; calls = r.calls ++ calls }
      else record {
        hr = ds_ok;
        primary = record p { write_emu = r.buffer };
        device = kept;
        calls = r.calls ++ calls';
      }

  -- `createWriteEmu`
  unfoldable pub create_write_emu :
      Given D3dValue → Storage → ℕ → PrimaryBuffer D3dValue → SharedDevice → PrimaryOutcome D3dValue
  unfolding with_emu emu_desc
  create_write_emu g st flags p d =
      with_emu
        (Setup.initialize fl g st (some (emu_desc flags p.format)) (Setup.construct fl false none)
          d)
        p

  -- `mWriteEmu = nullptr` and `createWriteEmu`
  unfoldable pub recreate_write_emu :
      Given D3dValue → Storage → ℕ → PrimaryBuffer D3dValue → SharedDevice → PrimaryOutcome D3dValue
  unfolding destroy_write_emu create_write_emu
  recreate_write_emu g st flags p d =
      let o = destroy_write_emu p d in
      let o' = create_write_emu g st flags o.primary o.device in
      record o' { calls = o.calls ++ o'.calls }

  -- The listener that `Initialize` sets
  default_listener : ListenerParams D3dValue
  unfolding zero_vector
  default_listener = record {
    position = zero_vector fl;
    velocity = zero_vector fl;
    orient_front = record { x = zero_f; y = zero_f; z = one_f };
    orient_top = record { x = zero_f; y = one_f; z = zero_f };
    distance_factor = one_f;
    rolloff_factor = one_f;
    doppler_factor = one_f;
  }

  -- The end of `Initialize`: `flags & ~DSBCAPS_LOCSOFTWARE`, and the parameters
  unfoldable pub set_up :
      List (Buffer D3dValue) → ℕ → PrimaryOutcome D3dValue → PrimaryOutcome D3dValue
  unfolding default_listener
  set_up bs flags o =
      let (p, calls) =
        set_params fl o.device.extensions bs (default_listener) listener_all (record (o.primary) {
          flags = bit_or (bit_and flags 0xFFFFFFF7) caps_lochardware;
          immediate = default_listener;
          deferred = default_listener;
          dirty = listener_clean;
        }) in
      record o { primary = p; calls = o.calls ++ calls }

  -- DSBCAPS_CTRLFX | DSBCAPS_CTRLPOSITIONNOTIFY
  abbrev bad_flags : ℕ
  bad_flags = 0x300

  -- What is wrong with a description of the primary buffer
  unfoldable pub bad_desc : BufferDesc → Bool
  bad_desc desc = is_there desc.format || not (desc.buffer_bytes == 0) || has desc.flags bad_flags

  -- `Initialize`, with the level and the 3D buffers of the parent
  unfoldable pub initialize :
      Given D3dValue
      → Storage
      → ℕ
      → List (Buffer D3dValue)
      → Option BufferDesc
      → PrimaryBuffer D3dValue
      → SharedDevice
      → PrimaryOutcome D3dValue
  unfolding unchanged set_up bad_desc recreate_write_emu
  initialize g st level bs none p d = unchanged invalid_param p d
  initialize g st level bs (some desc) p d =
      let o = recreate_write_emu g st desc.flags p d in
      if bad_desc desc
      then unchanged invalid_param p d
      else if not (p.flags == 0)
      then unchanged already_initialized p d
      else if level == level_writeprimary
      then if failed o.hr then o else set_up bs desc.flags o
      else set_up bs desc.flags (unchanged ds_ok p d)

  -- `Play`
  unfoldable pub play :
      Given D3dValue
      → PlayAnswers
      → ℕ
      → ℕ
      → PrimaryBuffer D3dValue
      → SharedDevice
      → PrimaryOutcome D3dValue
  unfolding unchanged emulated
  play g a reserved2 flags p d =
      let started : PrimaryOutcome D3dValue = elim (p.write_emu) [
        | none ↦ unchanged ds_ok (record p { playing = true }) d
        | some e ↦ emulated p true (Playback.play fl g a reserved2 flags e d)
      ] in
      if not (has flags play_looping) then unchanged invalid_param p d else started

  -- `SetPan`
  pub set_pan : ℤ → PrimaryBuffer D3dValue → SharedDevice → PrimaryOutcome D3dValue
  unfolding unchanged
  set_pan pan p d =
      let done : PrimaryOutcome D3dValue = elim (p.write_emu) [
        | none ↦ unchanged ds_ok (record p { pan = pan }) d
        | some e ↦
            (let (hr, e', calls) = Control.set_pan fl d.extensions pan e in
              record {
                hr = hr;
                primary = record p { write_emu = some e'; pan = if failed hr then p.pan else pan };
                device = d;
                calls = calls;
              })
      ] in
      if ltb_ℤ pan_right pan || ltb_ℤ pan pan_left
      then unchanged invalid_param p d
      else if not (has p.flags caps_ctrlpan)
      then unchanged control_unavail p d
      else done

  -- The end of `SetFormat`, after `copy_format`
  unfoldable pub with_copy :
      Given D3dValue
      → Storage
      → Hresult × WaveFormatExtensible
      → PrimaryBuffer D3dValue
      → SharedDevice
      → PrimaryOutcome D3dValue
  unfolding unchanged recreate_write_emu
  with_copy g st (hr, f) p d =
      let p' = record p { format = f } in
      if not (failed hr) && is_there p.write_emu
      then recreate_write_emu g st p.flags p' d
      else unchanged hr p' d

  -- `SetFormat`, with the level of the parent
  unfoldable pub set_format :
      Given D3dValue
      → Storage
      → ℕ
      → Option WaveFormatExtensible
      → PrimaryBuffer D3dValue
      → SharedDevice
      → PrimaryOutcome D3dValue
  unfolding unchanged with_copy
  set_format g st level none p d = unchanged invalid_param p d
  set_format g st level (some f) p d =
      if ltb level level_priority
      then unchanged prio_level_needed p d
      else if (f.format.format_tag == wave_format_extensible) && ltb f.format.cb_size ext_extra_size
      then unchanged ds_ok p d
      else with_copy g st (copy_format f p.format) p d
