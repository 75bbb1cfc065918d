-- ===== src/Buffer/Setters.antt =====
-- buffer.cpp: `Buffer3D`, the setters of the 3D parameters. The getters hand out a field of
-- `immediate`.
pub mod Deferral
pub mod Validity
pub mod Storage
pub mod Tests
use dsoal.Prelude.{
  ℕ, Bool, true, not, ◌&&◌, ◌||◌, List, [], ◌∷◌, ◌++◌, ltb, ◌==◌, if◌then◌else◌, ℤ, ltb_ℤ,
}
use dsoal.Win.{Hresult, ds_ok, invalid_param, volume_min, volume_max}
use dsoal.Al
use dsoal.Al.{Floats, AlCall, Extensions, source_f, source_3f, source_i, al_bool, mb_to_gain}
use dsoal.Buffer.{Buffer, Params3d, Vector, all_dirty, mode_normal, mode_headrelative, mode_disable}
use dsoal.Buffer.Location.{mode_calls}
use dsoal.Buffer.Spatial.{on_source, set_params}

-- `DS3D_DEFERRED` and `DS3D_MAXCONEANGLE`
abbrev pub apply_deferred : ℕ
apply_deferred = 1

abbrev pub max_cone_angle : ℕ
max_cone_angle = 360

bad_angles : ℕ → ℕ → Bool
bad_angles inside outside = ltb max_cone_angle inside || ltb max_cone_angle outside

bad_cone_volume : ℤ → Bool
bad_cone_volume v = ltb_ℤ volume_max v || ltb_ℤ v volume_min

bad_mode : ℕ → Bool
bad_mode mode =
    not (mode == mode_normal) && not (mode == mode_headrelative) && not (mode == mode_disable)

module _ (fl : Floats) where
  open fl use {D3dValue, neg, nonneg}

  -- What a setter leaves, and its calls
  abbrev pub Step : Type 0
  Step = Hresult × Buffer D3dValue × List (AlCall D3dValue)

  -- The calls on a source that is spatialized
  on_spatial : Buffer D3dValue → List (AlCall D3dValue) → List (AlCall D3dValue)
  on_spatial b calls =
      if not (b.immediate.mode == mode_disable) && not (b.source == 0) then calls else []

  -- `SetAllParameters`
  set_all_parameters : Extensions → D3dValue → Params3d D3dValue → ℕ → Buffer D3dValue → Step
  set_all_parameters exts rolloff p apply b =
      let (b', calls) = set_params fl exts rolloff p all_dirty b in
      if bad_angles p.inside_cone_angle p.outside_cone_angle
        || bad_cone_volume p.cone_outside_volume
        || not (nonneg p.min_distance)
        || not (nonneg p.max_distance)
        || bad_mode p.mode
      then (invalid_param, b, [])
      else if apply == apply_deferred
      then (ds_ok, record b { deferred = p; dirty = all_dirty }, [])
      else (ds_ok, b', calls)

  -- `SetConeAngles`
  set_cone_angles : ℕ → ℕ → ℕ → Buffer D3dValue → Step
  set_cone_angles inside outside apply b =
      if bad_angles inside outside
      then (invalid_param, b, [])
      else if apply == apply_deferred
      then (
        ds_ok,
        record b {
          deferred = record (b.deferred) {
            inside_cone_angle = inside;
            outside_cone_angle = outside;
          };
          dirty = record (b.dirty) { cone_angles = true };
        },
        [],
      )
      else (
        ds_ok,
        record b {
          immediate = record (b.immediate) {
            inside_cone_angle = inside;
            outside_cone_angle = outside;
          };
        },
        on_source fl b (
            source_i b.source Al.cone_inner_angle inside
            ∷ source_i b.source Al.cone_outer_angle outside
            ∷ []),
      )

  -- `SetConeOrientation`
  set_cone_orientation : Vector D3dValue → ℕ → Buffer D3dValue → Step
  set_cone_orientation v apply b =
      if apply == apply_deferred
      then (
        ds_ok,
        record b {
          deferred = record (b.deferred) { cone_orientation = v };
          dirty = record (b.dirty) { cone_orientation = true };
        },
        [],
      )
      else (
        ds_ok,
        record b { immediate = record (b.immediate) { cone_orientation = v } },
        on_spatial b (source_3f b.source Al.direction v.x v.y (neg v.z) ∷ []),
      )

  -- `SetConeOutsideVolume`
  set_cone_outside_volume : ℤ → ℕ → Buffer D3dValue → Step
  set_cone_outside_volume volume apply b =
      if bad_cone_volume volume
      then (invalid_param, b, [])
      else if apply == apply_deferred
      then (
        ds_ok,
        record b {
          deferred = record (b.deferred) { cone_outside_volume = volume };
          dirty = record (b.dirty) { cone_volume = true };
        },
        [],
      )
      else (
        ds_ok,
        record b { immediate = record (b.immediate) { cone_outside_volume = volume } },
        on_source fl b (source_f b.source Al.cone_outer_gain (mb_to_gain fl volume) ∷ []),
      )

  -- `SetMaxDistance`
  set_max_distance : D3dValue → ℕ → Buffer D3dValue → Step
  set_max_distance distance apply b =
      if not (nonneg distance)
      then (invalid_param, b, [])
      else if apply == apply_deferred
      then (
        ds_ok,
        record b {
          deferred = record (b.deferred) { max_distance = distance };
          dirty = record (b.dirty) { max_distance = true };
        },
        [],
      )
      else (
        ds_ok,
        record b { immediate = record (b.immediate) { max_distance = distance } },
        on_source fl b (source_f b.source Al.max_distance distance ∷ []),
      )

  -- `SetMinDistance`
  set_min_distance : D3dValue → ℕ → Buffer D3dValue → Step
  set_min_distance distance apply b =
      if not (nonneg distance)
      then (invalid_param, b, [])
      else if apply == apply_deferred
      then (
        ds_ok,
        record b {
          deferred = record (b.deferred) { min_distance = distance };
          dirty = record (b.dirty) { min_distance = true };
        },
        [],
      )
      else (
        ds_ok,
        record b { immediate = record (b.immediate) { min_distance = distance } },
        on_source fl b (source_f b.source Al.reference_distance distance ∷ []),
      )

  -- `SetMode`
  set_mode : Extensions → D3dValue → ℕ → ℕ → Buffer D3dValue → Step
  set_mode exts rolloff mode apply b =
      if bad_mode mode
      then (invalid_param, b, [])
      else if apply == apply_deferred
      then (
        ds_ok,
        record b {
          deferred = record (b.deferred) { mode = mode };
          dirty = record (b.dirty) { mode = true };
        },
        [],
      )
      else (
        ds_ok,
        record b { immediate = record (b.immediate) { mode = mode } },
        on_source fl b (
            mode_calls fl exts rolloff b.source b.immediate mode
            ++ source_i b.source Al.relative (al_bool (not (mode == mode_normal))) ∷ []),
      )

  -- `SetPosition`
  set_position : Vector D3dValue → ℕ → Buffer D3dValue → Step
  set_position v apply b =
      if apply == apply_deferred
      then (
        ds_ok,
        record b {
          deferred = record (b.deferred) { position = v };
          dirty = record (b.dirty) { position = true };
        },
        [],
      )
      else (
        ds_ok,
        record b { immediate = record (b.immediate) { position = v } },
        on_spatial b (source_3f b.source Al.position v.x v.y (neg v.z) ∷ []),
      )

  -- `SetVelocity`
  set_velocity : Vector D3dValue → ℕ → Buffer D3dValue → Step
  set_velocity v apply b =
      if apply == apply_deferred
      then (
        ds_ok,
        record b {
          deferred = record (b.deferred) { velocity = v };
          dirty = record (b.dirty) { velocity = true };
        },
        [],
      )
      else (
        ds_ok,
        record b { immediate = record (b.immediate) { velocity = v } },
        on_spatial b (source_3f b.source Al.velocity v.x v.y (neg v.z) ∷ []),
      )

  -- A call on a setter, with its arguments but for `apply`
  pub data Setter : Type 0 where
    all_parameters : Params3d D3dValue → Setter
    cone_angles : ℕ → ℕ → Setter
    orientation : Vector D3dValue → Setter
    cone_volume : ℤ → Setter
    max_distance min_distance : D3dValue → Setter
    mode : ℕ → Setter
    position velocity : Vector D3dValue → Setter

  pub call : Extensions → D3dValue → Setter → ℕ → Buffer D3dValue → Step
  call exts rolloff (all_parameters p) = set_all_parameters exts rolloff p
  call exts rolloff (cone_angles inside outside) = set_cone_angles inside outside
  call exts rolloff (orientation v) = set_cone_orientation v
  call exts rolloff (cone_volume v) = set_cone_outside_volume v
  call exts rolloff (max_distance d) = set_max_distance d
  call exts rolloff (min_distance d) = set_min_distance d
  call exts rolloff (mode m) = set_mode exts rolloff m
  call exts rolloff (position v) = set_position v
  call exts rolloff (velocity v) = set_velocity v
