-- ===== src/Primary/Listener3d/Limits.antt =====
-- The listener parameters stay within DirectSound's limits.
use dsoal.Prelude.{ℕ, ◌≡◌, arith, false, List, [], ◌⊎◌, if_both}
use dsoal.Win.{ds_ok, invalid_param}
use dsoal.Al.{Floats, AlCall, Extensions}
use dsoal.Buffer.{Buffer}
use dsoal.Primary.{PrimaryBuffer, ListenerParams, ListenerDirty, listener_clean, listener_all}
use dsoal.Primary.Listener3d.{
  Step, Setter, call, commit, commit_listener, set_params, merge, any_dirty, bad_distance,
  bad_factor, set_all_parameters, set_distance_factor, set_doppler_factor, set_orientation,
  set_position, set_rolloff_factor, set_velocity, all_parameters, distance, doppler, rolloff,
  orientation, position, velocity,
}

module _ (fl : Floats) where
  open fl use {D3dValue}

  -- Listener parameters within the limits.
  pub record IsListener (p : ListenerParams D3dValue) : Type 0 where
    pub distance_good : bad_distance fl p.distance_factor ≡ false
    pub rolloff_good : bad_factor fl p.rolloff_factor ≡ false
    pub doppler_good : bad_factor fl p.doppler_factor ≡ false

  -- Both the current and the deferred parameters are.
  pub record IsLimited (b : PrimaryBuffer D3dValue) : Type 0 where
    pub immediate : IsListener b.immediate
    pub deferred : IsListener b.deferred

  -- A setter keeps the limits; when it is refused, it changes nothing.
  pub record Sets (b : PrimaryBuffer D3dValue) (r : Step fl) : Type 0 where
    pub valid : IsLimited r.1
    pub result : (r.0 ≡ ds_ok) ⊎ ((r.0 ≡ invalid_param) × (r.1 ≡ b) × (r.2 ≡ []))

  merge-IsListener :
      (flags : ListenerDirty) (p old : ListenerParams D3dValue)
      → IsListener p
      → IsListener old
      → IsListener (merge flags p old)
  unfolding merge
  merge-IsListener flags p old v w = record {
    distance_good =
        if_both (λ x. bad_distance fl x ≡ false) flags.distance_factor _ _ v.distance_good
          w.distance_good;
    rolloff_good =
        if_both (λ x. bad_factor fl x ≡ false) flags.rolloff_factor _ _ v.rolloff_good
          w.rolloff_good;
    doppler_good =
        if_both (λ x. bad_factor fl x ≡ false) flags.doppler_factor _ _ v.doppler_good
          w.doppler_good;
  }

  set_params-IsLimited :
      (exts : Extensions) (bs : List (Buffer D3dValue)) (p : ListenerParams D3dValue)
      (flags : ListenerDirty) (b : PrimaryBuffer D3dValue)
      → IsListener p
      → IsLimited b
      → IsLimited (set_params fl exts bs p flags b).0
  unfolding set_params
  set_params-IsLimited exts bs p flags b v w = record {
    immediate = merge-IsListener flags p b.immediate v w.immediate;
    deferred = w.deferred;
  }

  -- `commit` keeps the listener's parameters, current and deferred, within the limits.
  pub listener_commit-IsLimited :
      (exts : Extensions) (bs : List (Buffer D3dValue)) (b : PrimaryBuffer D3dValue)
      → IsLimited b
      → IsLimited (commit fl exts bs b).0
  unfolding commit commit_listener
  listener_commit-IsLimited exts bs b w =
      let cleaned : IsLimited (record b { dirty = listener_clean }) = record {
        immediate = w.immediate;
        deferred = w.deferred;
      } in
      if_both (λ (r : PrimaryBuffer D3dValue × List (AlCall D3dValue)). IsLimited r.0)
        (any_dirty b.dirty) _ _
        (set_params-IsLimited exts bs b.deferred b.dirty (record b { dirty = listener_clean })
          w.deferred cleaned)
        cleaned

  all-Sets :
      (exts : Extensions) (bs : List (Buffer D3dValue)) (p : ListenerParams D3dValue) (apply : ℕ)
      (b : PrimaryBuffer D3dValue)
      → IsLimited b
      → Sets b (set_all_parameters fl exts bs p apply b)
  unfolding set_all_parameters
  all-Sets exts bs p apply b w = ground (arith, w, set_params-IsLimited exts bs p listener_all b)

  -- Whatever setter of the listener is called, with whatever arguments, the listener's parameters,
  -- current and deferred, keep the limits that the code tests: the distance factor those of FLT_MIN and
  -- FLT_MAX, the rolloff and the Doppler factor those of 0 and 10. The setter returns DS_OK, or it
  -- returns DSERR_INVALIDPARAM, changes nothing and makes no call.
  pub listener_call-Sets :
      (exts : Extensions) (bs : List (Buffer D3dValue)) (c : Setter fl) (apply : ℕ)
      (b : PrimaryBuffer D3dValue)
      → IsLimited b
      → Sets b (call fl exts bs c apply b)
  unfolding call set_distance_factor set_doppler_factor set_orientation set_position
      set_rolloff_factor set_velocity
  listener_call-Sets exts bs (all_parameters p) apply b w = all-Sets exts bs p apply b w
  listener_call-Sets exts bs (distance x) apply b w = ground (arith, w)
  listener_call-Sets exts bs (doppler x) apply b w = ground (arith, w)
  listener_call-Sets exts bs (rolloff x) apply b w = ground (arith, w)
  listener_call-Sets exts bs (orientation front top) apply b w = ground (arith, w)
  listener_call-Sets exts bs (position v) apply b w = ground (arith, w)
  listener_call-Sets exts bs (velocity v) apply b w = ground (arith, w)
