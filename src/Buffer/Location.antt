-- ===== src/Buffer/Location.antt =====
-- buffer.cpp: `setLocation`, which gives a buffer a source of the wanted kind, and the destructor,
-- which returns it.
pub mod Accounting
use dsoal.Prelude.{
  ℕ, zero, suc, Bool, true, false, not, ◌&&◌, ◌≡◌, List, [], ◌∷◌, ◌++◌, ◌==◌, if◌then◌else◌, ℤ, pos,
  negsuc, ltb_ℤ,
}
use dsoal.Win.{Hresult, ds_ok, allocated, has, caps_ctrl3d}
use dsoal.Al
use dsoal.Al.{
  Floats, AlCall, Extensions, gen_sources, delete_sources, source_f, source_3f, source_i,
  eax_null_slots, al_bool, mb_to_gain,
}
use dsoal.Device.{SharedDevice, inc_hw_sources, inc_sw_sources, dec_hw_sources, dec_sw_sources}
use dsoal.SharedBuffer.{SharedBuffer}
use dsoal.Buffer.{
  Buffer, Outcome, LocStatus, none_any, hardware, software, Params3d, Vector, mode_normal,
  mode_disable,
}

-- What a call gets from outside: the id that `alGenSources` would return, and the rolloff factor of
-- the primary buffer.
pub record Given (F : Type 0) : Type 0 where
  pub new_source : ℕ
  pub rolloff : F

-- `locStatus == mLocStatus`
unfoldable pub same_loc : LocStatus → LocStatus → Bool
same_loc none_any none_any = true
same_loc hardware hardware = true
same_loc software software = true
same_loc _ _ = false

-- The decrement that goes with a location
unfoldable pub release_loc : LocStatus → SharedDevice → SharedDevice
unfolding dec_hw_sources dec_sw_sources
release_loc hardware d = dec_hw_sources d
release_loc software d = dec_sw_sources d
release_loc none_any d = d

-- The device and the location after the two increments, or `none_any` if no source is left
take_sw : SharedDevice → SharedDevice × LocStatus
unfolding inc_sw_sources
take_sw d = let (d', ok) = inc_sw_sources d in if ok then (d', software) else (d', none_any)

unfoldable pub take_loc : LocStatus → SharedDevice → SharedDevice × LocStatus
unfolding take_sw inc_hw_sources
take_loc software d = take_sw d
take_loc hardware d =
    let (d', ok) = inc_hw_sources d in if ok then (d', hardware) else (d', none_any)
take_loc none_any d = let (d', ok) = inc_hw_sources d in if ok then (d', hardware) else take_sw d'

module _ (fl : Floats) where
  open fl use {D3dValue, zero_f, one_f, neg, minus, divided, of_long}

  delete_calls : ℕ → List (AlCall D3dValue)
  delete_calls source = if source == 0 then [] else delete_sources source ∷ []

  spatialize_calls : Extensions → ℕ → Bool → List (AlCall D3dValue)
  spatialize_calls exts source on =
      if exts.soft_source_spatialize then source_i source Al.spatialize (al_bool on) ∷ [] else []

  -- AL_POSITION, AL_VELOCITY, AL_DIRECTION and AL_ROLLOFF_FACTOR, with AL_SOURCE_SPATIALIZE_SOFT
  unfoldable pub mode_calls :
      Extensions → D3dValue → ℕ → Params3d D3dValue → ℕ → List (AlCall D3dValue)
  unfolding spatialize_calls
  mode_calls exts rolloff source p mode =
      if mode == mode_disable
      then source_3f source Al.position zero_f zero_f (neg one_f)
        ∷ source_3f source Al.velocity zero_f zero_f zero_f
        ∷ source_3f source Al.direction zero_f zero_f zero_f
        ∷ source_f source Al.rolloff_factor zero_f
        ∷ spatialize_calls exts source false
      else source_3f source Al.position p.position.x p.position.y (neg p.position.z)
        ∷ source_3f source Al.velocity p.velocity.x p.velocity.y (neg p.velocity.z)
        ∷ source_3f source Al.direction p.cone_orientation.x p.cone_orientation.y
            (neg p.cone_orientation.z)
        ∷ source_f source Al.rolloff_factor rolloff
        ∷ spatialize_calls exts source true

  -- The set-up of a source for a 3D buffer
  setup_3d : Extensions → D3dValue → ℕ → Params3d D3dValue → List (AlCall D3dValue)
  unfolding mode_calls
  setup_3d exts rolloff source p =
      mode_calls exts rolloff source p p.mode
      ++ (source_i source Al.relative (al_bool (not (p.mode == mode_normal)))
          ∷ source_f source Al.cone_inner_angle (of_long (pos p.inside_cone_angle))
          ∷ source_f source Al.cone_outer_angle (of_long (pos p.outside_cone_angle))
          ∷ source_f source Al.cone_outer_gain (mb_to_gain fl p.cone_outside_volume)
          ∷ source_f source Al.reference_distance p.min_distance
          ∷ source_f source Al.max_distance p.max_distance
          ∷ [])

  -- `(pan <= 0) ? (mB_to_gain(pan)-1.0f) : (1.0f-mB_to_gain(-pan))`
  unfoldable pub pan_value : ℤ → D3dValue
  unfolding mb_to_gain
  pan_value (pos zero) = minus (mb_to_gain fl (pos 0)) one_f
  pan_value (pos (suc n)) = minus one_f (mb_to_gain fl (negsuc n))
  pan_value (negsuc n) = minus (mb_to_gain fl (negsuc n)) one_f

  -- The set-up of a source for a buffer without 3D controls
  setup_flat : Extensions → ℕ → ℤ → List (AlCall D3dValue)
  unfolding pan_value
  setup_flat exts source pan =
      source_f source Al.rolloff_factor zero_f
      ∷ source_i source Al.relative 1
      ∷ ((if exts.soft_source_panning
            then source_i source Al.panning_enabled 1 ∷ source_f source Al.pan (pan_value pan) ∷ []
            else [])
          ++ (if exts.ext_eax then eax_null_slots source ∷ [] else []))

  -- `(mFrequency == 0) ? 1.0f : mFrequency/nSamplesPerSec`
  unfoldable pub pitch_value : ℕ → SharedBuffer → D3dValue
  pitch_value frequency shared =
      if frequency == 0
      then one_f
      else divided (of_long (pos frequency))
          (of_long (pos shared.wfx_format.format.samples_per_sec))

  setup_source : Extensions → D3dValue → ℕ → Buffer D3dValue → List (AlCall D3dValue)
  unfolding setup_3d setup_flat pitch_value
  setup_source exts rolloff source b =
      source_f source Al.gain (mb_to_gain fl b.volume)
      ∷ source_f source Al.pitch (pitch_value b.frequency b.shared)
      ∷ (if has b.shared.flags caps_ctrl3d
          then setup_3d exts rolloff source b.immediate
          else setup_flat exts source b.pan)

  -- The end of `setLocation`, once a source of kind `got` is counted; `none_any` means that none is.
  pub acquire :
      Given D3dValue
      → Buffer D3dValue
      → List (AlCall D3dValue)
      → SharedDevice × LocStatus
      → Outcome D3dValue
  unfolding setup_source
  acquire g b calls (d, none_any) = record {
    hr = allocated;
    buffer = b;
    device = d;
    calls = calls;
    parent_calls = [];
  }
  acquire g b calls (d, got) =
      let fresh = b.source == 0 in
      let source = if fresh then g.new_source else b.source in
      record {
        hr = ds_ok;
        buffer = record b { source = source; loc_status = got };
        device = d;
        calls =
            calls
            ++ ((if fresh then gen_sources source ∷ [] else [])
                ++ setup_source d.extensions g.rolloff source b);
        parent_calls = [];
      }

  -- What `setLocation` does first with a buffer that has a location: the source goes back.
  unfoldable pub give_back :
      Buffer D3dValue → SharedDevice → Buffer D3dValue × SharedDevice × List (AlCall D3dValue)
  unfolding delete_calls release_loc
  give_back b d = if same_loc b.loc_status none_any then (b, d, []) else (
    record b { source = 0; loc_status = none_any },
    release_loc b.loc_status d,
    delete_calls b.source,
  )

  -- `setLocation`
  unfoldable pub set_location :
      Given D3dValue → LocStatus → Buffer D3dValue → SharedDevice → Outcome D3dValue
  set_location g wanted b d =
      let there =
        if same_loc wanted none_any
        then not (same_loc b.loc_status none_any)
        else same_loc b.loc_status wanted in
      let (b', d', calls) = give_back b d in
      if there
      then record { hr = ds_ok; buffer = b; device = d; calls = []; parent_calls = [] }
      else acquire g b' calls (take_loc wanted d')

  -- `~Buffer`: what it leaves of the device, and its calls
  unfoldable pub destroy : Buffer D3dValue → SharedDevice → SharedDevice × List (AlCall D3dValue)
  unfolding delete_calls
  destroy b d = (release_loc b.loc_status d, delete_calls b.source)
