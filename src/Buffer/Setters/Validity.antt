-- ===== src/Buffer/Setters/Validity.antt =====
-- The 3D parameters stay within DirectSound's limits.
use dsoal.Prelude.{ℕ, ◌≤◌, ◌≡◌, arith, true, List, [], ◌≤ℤ◌, ◌⊎◌, if_both}
use dsoal.Win.{ds_ok, invalid_param, volume_min, volume_max}
use dsoal.Al.{Floats, AlCall, Extensions}
use dsoal.Buffer.{Buffer, Params3d, Dirty, clean, all_dirty}
use dsoal.Buffer.Spatial.{merge, any_dirty, set_params, commit}
use dsoal.Buffer.Setters.{
  Step, Setter, call, max_cone_angle, bad_angles, bad_cone_volume, bad_mode, set_all_parameters,
  set_position, set_velocity, set_cone_orientation, set_cone_angles, set_cone_outside_volume,
  set_max_distance, set_min_distance, set_mode, all_parameters, cone_angles, orientation,
  cone_volume, max_distance, min_distance, mode, position, velocity,
}

module _ (fl : Floats) where
  open fl use {D3dValue, nonneg}

  -- Parameters within the limits.
  pub record IsParams (p : Params3d D3dValue) : Type 0 where
    pub inside : p.inside_cone_angle ≤ max_cone_angle
    pub outside : p.outside_cone_angle ≤ max_cone_angle
    pub volume_high : p.cone_outside_volume ≤ℤ volume_max
    pub volume_low : volume_min ≤ℤ p.cone_outside_volume
    pub min_nonneg : nonneg p.min_distance ≡ true
    pub max_nonneg : nonneg p.max_distance ≡ true
    pub mode_known : p.mode ≤ 2

  -- Both the current and the deferred parameters are.
  pub record IsSpatial (b : Buffer D3dValue) : Type 0 where
    pub immediate : IsParams b.immediate
    pub deferred : IsParams b.deferred

  -- A setter keeps the limits; when it is refused, it changes nothing.
  pub record Sets (b : Buffer D3dValue) (r : Step fl) : Type 0 where
    pub valid : IsSpatial r.1
    pub result : (r.0 ≡ ds_ok) ⊎ ((r.0 ≡ invalid_param) × (r.1 ≡ b) × (r.2 ≡ []))

  merge-IsParams :
      (flags : Dirty) (p old : Params3d D3dValue)
      → IsParams p
      → IsParams old
      → IsParams (merge flags p old)
  unfolding merge
  merge-IsParams flags p old v w = record {
    inside = if_both (λ n. n ≤ max_cone_angle) flags.cone_angles _ _ v.inside w.inside;
    outside = if_both (λ n. n ≤ max_cone_angle) flags.cone_angles _ _ v.outside w.outside;
    volume_high = if_both (λ n. n ≤ℤ volume_max) flags.cone_volume _ _ v.volume_high w.volume_high;
    volume_low = if_both (λ n. volume_min ≤ℤ n) flags.cone_volume _ _ v.volume_low w.volume_low;
    min_nonneg = if_both (λ n. nonneg n ≡ true) flags.min_distance _ _ v.min_nonneg w.min_nonneg;
    max_nonneg = if_both (λ n. nonneg n ≡ true) flags.max_distance _ _ v.max_nonneg w.max_nonneg;
    mode_known = if_both (λ n. n ≤ 2) flags.mode _ _ v.mode_known w.mode_known;
  }

  set_params-IsSpatial :
      (exts : Extensions) (rolloff : D3dValue) (p : Params3d D3dValue) (flags : Dirty)
      (b : Buffer D3dValue)
      → IsParams p
      → IsSpatial b
      → IsSpatial (set_params fl exts rolloff p flags b).0
  unfolding set_params
  set_params-IsSpatial exts rolloff p flags b v w = record {
    immediate = merge-IsParams flags p b.immediate v w.immediate;
    deferred = w.deferred;
  }

  -- `commit` keeps the 3D parameters, current and deferred, within DirectSound's limits.
  pub commit-IsSpatial :
      (exts : Extensions) (rolloff : D3dValue) (b : Buffer D3dValue)
      → IsSpatial b
      → IsSpatial (commit fl exts rolloff b).0
  unfolding commit
  commit-IsSpatial exts rolloff b w =
      let cleaned : IsSpatial (record b { dirty = clean }) = record {
        immediate = w.immediate;
        deferred = w.deferred;
      } in
      if_both (λ (r : Buffer D3dValue × List (AlCall D3dValue)). IsSpatial r.0) (any_dirty b.dirty)
        _ _
        (set_params-IsSpatial exts rolloff b.deferred b.dirty (record b { dirty = clean })
          w.deferred cleaned)
        cleaned

  all-Sets :
      (exts : Extensions) (rolloff : D3dValue) (p : Params3d D3dValue) (apply : ℕ)
      (b : Buffer D3dValue)
      → IsSpatial b
      → Sets b (set_all_parameters fl exts rolloff p apply b)
  unfolding set_all_parameters bad_angles bad_cone_volume bad_mode
  all-Sets exts rolloff p apply b w =
      ground (arith, w, set_params-IsSpatial exts rolloff p all_dirty b)

  -- Whatever setter is called, with whatever arguments, the 3D parameters, current and deferred, stay
  -- within DirectSound's limits: cone angles up to 360 degrees, an outside volume between -10000 and 0,
  -- distances that are not negative, one of the three modes. The setter returns DS_OK, or it returns
  -- DSERR_INVALIDPARAM, changes nothing and makes no call.
  pub call-Sets :
      (exts : Extensions) (rolloff : D3dValue) (c : Setter fl) (apply : ℕ) (b : Buffer D3dValue)
      → IsSpatial b
      → Sets b (call fl exts rolloff c apply b)
  unfolding call set_position set_velocity set_cone_orientation set_cone_angles
      set_cone_outside_volume set_max_distance set_min_distance set_mode bad_angles bad_cone_volume
      bad_mode
  call-Sets exts rolloff (all_parameters p) apply b w = all-Sets exts rolloff p apply b w
  call-Sets exts rolloff (cone_angles i o) apply b w = ground (arith, w)
  call-Sets exts rolloff (orientation v) apply b w = ground (arith, w)
  call-Sets exts rolloff (cone_volume v) apply b w = ground (arith, w)
  call-Sets exts rolloff (max_distance x) apply b w = ground (arith, w)
  call-Sets exts rolloff (min_distance x) apply b w = ground (arith, w)
  call-Sets exts rolloff (mode m) apply b w = ground (arith, w)
  call-Sets exts rolloff (position v) apply b w = ground (arith, w)
  call-Sets exts rolloff (velocity v) apply b w = ground (arith, w)
