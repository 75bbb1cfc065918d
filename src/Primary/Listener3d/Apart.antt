-- ===== src/Primary/Listener3d/Apart.antt =====
-- The listener is apart from the emulation and the format of the primary buffer.
use dsoal.Prelude.{ℕ, ◌≡◌, arith, List}
use dsoal.Al.{Floats, Extensions}
use dsoal.Buffer.{Buffer}
use dsoal.Primary.{PrimaryBuffer}
use dsoal.Primary.Listener3d.{
  Setter, call, set_params, commit_listener, set_all_parameters, set_distance_factor,
  set_doppler_factor, set_orientation, set_position, set_rolloff_factor, set_velocity,
  all_parameters, distance, doppler, rolloff, orientation, position, velocity,
}

pub record Apart {F : Type 0} (b c : PrimaryBuffer F) : Type 0 where
  pub same_emu : c.write_emu ≡ b.write_emu
  pub same_format : c.format ≡ b.format

module _ (fl : Floats) where
  open fl use {D3dValue}

  pub listener_call-Apart :
      (exts : Extensions) (bs : List (Buffer D3dValue)) (c : Setter fl) (apply : ℕ)
      (b : PrimaryBuffer D3dValue)
      → Apart b (call fl exts bs c apply b).1
  unfolding call set_all_parameters set_params set_distance_factor set_doppler_factor
      set_orientation set_position set_rolloff_factor set_velocity
  listener_call-Apart exts bs (all_parameters p) apply b = ground arith
  listener_call-Apart exts bs (distance x) apply b = ground arith
  listener_call-Apart exts bs (doppler x) apply b = ground arith
  listener_call-Apart exts bs (rolloff x) apply b = ground arith
  listener_call-Apart exts bs (orientation front top) apply b = ground arith
  listener_call-Apart exts bs (position v) apply b = ground arith
  listener_call-Apart exts bs (velocity v) apply b = ground arith

  pub commit_listener-Apart :
      (exts : Extensions) (bs : List (Buffer D3dValue)) (b : PrimaryBuffer D3dValue)
      → Apart b (commit_listener fl exts bs b).0
  unfolding commit_listener set_params
  commit_listener-Apart exts bs b = ground arith
