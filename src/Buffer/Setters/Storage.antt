-- ===== src/Buffer/Setters/Storage.antt =====
-- The setters of the 3D parameters leave the sample storage, the source and the location of a buffer.
use dsoal.Prelude.{ℕ, ◌≡◌, arith}
use dsoal.Al.{Floats, Extensions}
use dsoal.Buffer.{Buffer}
use dsoal.Buffer.Spatial.{set_params, commit}
use dsoal.Buffer.Setters.{
  Setter, call, set_all_parameters, set_position, set_velocity, set_cone_orientation,
  set_cone_angles, set_cone_outside_volume, set_max_distance, set_min_distance, set_mode,
  all_parameters, cone_angles, orientation, cone_volume, max_distance, min_distance, mode, position,
  velocity,
}

-- The storage, the source and the location are left alone.
pub record Stays {F : Type 0} (b c : Buffer F) : Type 0 where
  pub same_shared : c.shared ≡ b.shared
  pub same_source : c.source ≡ b.source
  pub same_loc : c.loc_status ≡ b.loc_status

module _ (fl : Floats) where
  open fl use {D3dValue}

  pub call-Stays :
      (exts : Extensions) (rolloff : D3dValue) (c : Setter fl) (apply : ℕ) (b : Buffer D3dValue)
      → Stays b (call fl exts rolloff c apply b).1
  unfolding call set_all_parameters set_cone_angles set_cone_orientation set_cone_outside_volume
      set_max_distance set_min_distance set_mode set_position set_velocity set_params
  call-Stays exts rolloff (all_parameters p) apply b = ground arith
  call-Stays exts rolloff (cone_angles i o) apply b = ground arith
  call-Stays exts rolloff (orientation v) apply b = ground arith
  call-Stays exts rolloff (cone_volume v) apply b = ground arith
  call-Stays exts rolloff (max_distance d) apply b = ground arith
  call-Stays exts rolloff (min_distance d) apply b = ground arith
  call-Stays exts rolloff (mode m) apply b = ground arith
  call-Stays exts rolloff (position v) apply b = ground arith
  call-Stays exts rolloff (velocity v) apply b = ground arith

  pub commit-Stays :
      (exts : Extensions) (rolloff : D3dValue) (b : Buffer D3dValue)
      → Stays b (commit fl exts rolloff b).0
  unfolding commit set_params
  commit-Stays exts rolloff b = ground arith
