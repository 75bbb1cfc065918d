-- ===== src/Primary/Listener3d.antt =====
-- primarybuffer.cpp: `setParams`, which makes listener parameters current, `commit`, which does so with
-- the deferred ones, and `Listener3D`, the setters and
-- `CommitDeferredSettings`. The getters hand out a field of `immediate`.
pub mod Pauses
pub mod Deferral
pub mod Limits
pub mod Apart
use dsoal.Prelude.{
  ℕ, Bool, true, not, ◌&&◌, ◌||◌, List, [], ◌∷◌, ◌++◌, ◌==◌, if◌then◌else◌, pos, none,
}
use dsoal.Win.{Hresult, ds_ok, invalid_param}
use dsoal.Al
use dsoal.Al.{
  Floats, AlCall, Extensions, source_f, listener_f, listener_3f, listener_orientation,
  listener_position, listener_velocity, meters_per_unit, speed_of_sound, doppler_factor,
  suspend_context, process_context,
}
use dsoal.Buffer.{Buffer, Vector, mode_disable}
use dsoal.Buffer.Spatial
use dsoal.Buffer.Setters.{apply_deferred}
use dsoal.Primary.{PrimaryBuffer, ListenerParams, ListenerDirty, listener_clean, listener_all}

-- `flags.any()`
unfoldable pub any_dirty : ListenerDirty → Bool
any_dirty d =
    d.position || d.velocity || d.orientation || d.distance_factor || d.rolloff_factor
    || d.doppler_factor

-- What `setParams` copies into `mImmediate`
unfoldable pub merge :
    {F : Type 0} → ListenerDirty → ListenerParams F → ListenerParams F → ListenerParams F
merge flags p old = record {
  position = if flags.position then p.position else old.position;
  velocity = if flags.velocity then p.velocity else old.velocity;
  orient_front = if flags.orientation then p.orient_front else old.orient_front;
  orient_top = if flags.orientation then p.orient_top else old.orient_top;
  distance_factor = if flags.distance_factor then p.distance_factor else old.distance_factor;
  rolloff_factor = if flags.rolloff_factor then p.rolloff_factor else old.rolloff_factor;
  doppler_factor = if flags.doppler_factor then p.doppler_factor else old.doppler_factor;
}

module _ (fl : Floats) where
  open fl use {D3dValue, zero_f, neg, divided, of_long, below, flt_min, flt_max}

  -- What a setter of the listener leaves, and its calls
  abbrev pub Step : Type 0
  Step = Hresult × PrimaryBuffer D3dValue × List (AlCall D3dValue)

  -- The rolloff factor goes to the source of every 3D buffer that is not disabled.
  unfoldable pub rolloff_calls : D3dValue → List (Buffer D3dValue) → List (AlCall D3dValue)
  rolloff_calls rolloff [] = []
  rolloff_calls rolloff (b ∷ bs) =
      let rest = rolloff_calls rolloff bs in
      if not (b.immediate.mode == mode_disable) && not (b.source == 0)
      then source_f b.source Al.rolloff_factor rolloff ∷ rest
      else rest

  -- AL_ORIENTATION and the distance factor; the speed is 343.3f.
  unfoldable pub orientation_call : Vector D3dValue → Vector D3dValue → AlCall D3dValue
  orientation_call front top =
      listener_orientation front.x front.y (neg front.z) top.x top.y (neg top.z)

  unfoldable pub distance_calls : Extensions → D3dValue → List (AlCall D3dValue)
  distance_calls exts factor =
      speed_of_sound (divided (divided (of_long (pos 3433)) (of_long (pos 10))) factor)
      ∷ (if exts.ext_efx then listener_f meters_per_unit factor ∷ [] else [])

  -- The calls of `setParams`; the buffers are those of `get3dBuffers`.
  unfoldable pub param_calls :
      Extensions
      → List (Buffer D3dValue)
      → ListenerParams D3dValue
      → ListenerDirty
      → List (AlCall D3dValue)
  unfolding rolloff_calls orientation_call distance_calls
  param_calls exts bs p flags =
      (if flags.position
        then listener_3f listener_position p.position.x p.position.y (neg p.position.z) ∷ []
        else [])
      ++ ((if flags.velocity
            then listener_3f listener_velocity p.velocity.x p.velocity.y (neg p.velocity.z) ∷ []
            else [])
          ++ ((if flags.orientation then orientation_call p.orient_front p.orient_top ∷ [] else [])
              ++ ((if flags.distance_factor then distance_calls exts p.distance_factor else [])
                  ++ ((if flags.rolloff_factor then rolloff_calls p.rolloff_factor bs else [])
                      ++ (if flags.doppler_factor
                          then doppler_factor p.doppler_factor ∷ []
                          else [])))))

  -- `setParams`
  unfoldable pub set_params :
      Extensions
      → List (Buffer D3dValue)
      → ListenerParams D3dValue
      → ListenerDirty
      → PrimaryBuffer D3dValue
      → PrimaryBuffer D3dValue × List (AlCall D3dValue)
  unfolding merge param_calls
  set_params exts bs p flags b =
      (record b { immediate = merge flags p b.immediate }, param_calls exts bs p flags)

  -- Calls between `alcSuspendContext` and `alcProcessContext`
  abbrev pub suspended : List (AlCall D3dValue) → List (AlCall D3dValue)
  suspended calls = suspend_context ∷ (calls ++ process_context ∷ [])

  -- The first part of `commit`, on the listener
  unfoldable pub commit_listener :
      Extensions
      → List (Buffer D3dValue)
      → PrimaryBuffer D3dValue
      → PrimaryBuffer D3dValue × List (AlCall D3dValue)
  unfolding any_dirty
  commit_listener exts bs b =
      if any_dirty b.dirty
      then set_params exts bs b.deferred b.dirty (record b { dirty = listener_clean })
      else (record b { dirty = listener_clean }, [])

  -- The second part of `commit`, on the 3D buffers
  unfoldable pub commit_buffers :
      Extensions
      → D3dValue
      → List (Buffer D3dValue)
      → List (Buffer D3dValue) × List (AlCall D3dValue)
  commit_buffers exts rolloff [] = ([], [])
  commit_buffers exts rolloff (b ∷ bs) =
      let (b', calls) = Spatial.commit fl exts rolloff b in
      let (bs', calls') = commit_buffers exts rolloff bs in (b' ∷ bs', calls ++ calls')

  -- `commit`: the primary buffer and the 3D buffers after it, and its calls
  unfoldable pub commit :
      Extensions
      → List (Buffer D3dValue)
      → PrimaryBuffer D3dValue
      → PrimaryBuffer D3dValue × List (Buffer D3dValue) × List (AlCall D3dValue)
  unfolding commit_listener commit_buffers
  commit exts bs b =
      let (b', calls) = commit_listener exts bs b in
      let (bs', calls') = commit_buffers exts b'.immediate.rolloff_factor bs in
      (b', bs', calls ++ calls')

  -- `CommitDeferredSettings`
  unfoldable pub commit_deferred :
      Extensions
      → List (Buffer D3dValue)
      → PrimaryBuffer D3dValue
      → PrimaryBuffer D3dValue × List (Buffer D3dValue) × List (AlCall D3dValue)
  unfolding commit
  commit_deferred exts bs b = let (b', bs', calls) = commit exts bs b in (b', bs', suspended calls)

  -- DS3D_MINDISTANCEFACTOR and DS3D_MAXDISTANCEFACTOR are FLT_MIN and FLT_MAX; the limits of the other
  -- two factors are 0 and 10.
  unfoldable pub bad_distance : D3dValue → Bool
  bad_distance x = below flt_max x || below x flt_min

  unfoldable pub bad_factor : D3dValue → Bool
  bad_factor x = below (of_long (pos 10)) x || below x zero_f

  -- `SetAllParameters`
  set_all_parameters :
      Extensions
      → List (Buffer D3dValue)
      → ListenerParams D3dValue
      → ℕ
      → PrimaryBuffer D3dValue
      → Step
  set_all_parameters exts bs p apply b =
      let (b', calls) = set_params exts bs p listener_all b in
      if bad_distance p.distance_factor
      then (invalid_param, b, [])
      else if bad_factor p.doppler_factor
      then (invalid_param, b, [])
      else if bad_factor p.rolloff_factor
      then (invalid_param, b, [])
      else if apply == apply_deferred
      then (ds_ok, record b { deferred = p; dirty = listener_all }, [])
      else (ds_ok, b', suspended calls)

  -- `SetDistanceFactor`
  set_distance_factor : Extensions → D3dValue → ℕ → PrimaryBuffer D3dValue → Step
  set_distance_factor exts factor apply b =
      if bad_distance factor
      then (invalid_param, b, [])
      else if apply == apply_deferred
      then (
        ds_ok,
        record b {
          deferred = record (b.deferred) { distance_factor = factor };
          dirty = record (b.dirty) { distance_factor = true };
        },
        [],
      )
      else (
        ds_ok,
        record b { immediate = record (b.immediate) { distance_factor = factor } },
        suspended (distance_calls exts factor),
      )

  -- `SetDopplerFactor`
  set_doppler_factor : D3dValue → ℕ → PrimaryBuffer D3dValue → Step
  set_doppler_factor factor apply b =
      if bad_factor factor
      then (invalid_param, b, [])
      else if apply == apply_deferred
      then (
        ds_ok,
        record b {
          deferred = record (b.deferred) { doppler_factor = factor };
          dirty = record (b.dirty) { doppler_factor = true };
        },
        [],
      )
      else (
        ds_ok,
        record b { immediate = record (b.immediate) { doppler_factor = factor } },
        doppler_factor factor ∷ [],
      )

  -- `SetOrientation`
  set_orientation : Vector D3dValue → Vector D3dValue → ℕ → PrimaryBuffer D3dValue → Step
  set_orientation front top apply b =
      if apply == apply_deferred
      then (
        ds_ok,
        record b {
          deferred = record (b.deferred) { orient_front = front; orient_top = top };
          dirty = record (b.dirty) { orientation = true };
        },
        [],
      )
      else (
        ds_ok,
        record b { immediate = record (b.immediate) { orient_front = front; orient_top = top } },
        orientation_call front top ∷ [],
      )

  -- `SetPosition`
  set_position : Vector D3dValue → ℕ → PrimaryBuffer D3dValue → Step
  set_position v apply b =
      if apply == apply_deferred
      then (
        ds_ok,
        record b {
          deferred = record (b.deferred) { position = v };
          dirty = record (b.dirty) { position = true };
        },
        [],
      )
      else (
        ds_ok,
        record b { immediate = record (b.immediate) { position = v } },
        listener_3f listener_position v.x v.y (neg v.z) ∷ [],
      )

  -- `SetRolloffFactor`
  set_rolloff_factor : List (Buffer D3dValue) → D3dValue → ℕ → PrimaryBuffer D3dValue → Step
  set_rolloff_factor bs factor apply b =
      if bad_factor factor
      then (invalid_param, b, [])
      else if apply == apply_deferred
      then (
        ds_ok,
        record b {
          deferred = record (b.deferred) { rolloff_factor = factor };
          dirty = record (b.dirty) { rolloff_factor = true };
        },
        [],
      )
      else (
        ds_ok,
        record b { immediate = record (b.immediate) { rolloff_factor = factor } },
        suspended (rolloff_calls factor bs),
      )

  -- `SetVelocity`
  set_velocity : Vector D3dValue → ℕ → PrimaryBuffer D3dValue → Step
  set_velocity v apply b =
      if apply == apply_deferred
      then (
        ds_ok,
        record b {
          deferred = record (b.deferred) { velocity = v };
          dirty = record (b.dirty) { velocity = true };
        },
        [],
      )
      else (
        ds_ok,
        record b { immediate = record (b.immediate) { velocity = v } },
        listener_3f listener_velocity v.x v.y (neg v.z) ∷ [],
      )

  -- A call on a setter of the listener, with its arguments but for `apply`
  pub data Setter : Type 0 where
    all_parameters : ListenerParams D3dValue → Setter
    distance doppler rolloff : D3dValue → Setter
    orientation : Vector D3dValue → Vector D3dValue → Setter
    position velocity : Vector D3dValue → Setter

  pub call : Extensions → List (Buffer D3dValue) → Setter → ℕ → PrimaryBuffer D3dValue → Step
  call exts bs (all_parameters p) = set_all_parameters exts bs p
  call exts bs (distance x) = set_distance_factor exts x
  call exts bs (doppler x) = set_doppler_factor x
  call exts bs (rolloff x) = set_rolloff_factor bs x
  call exts bs (orientation front top) = set_orientation front top
  call exts bs (position v) = set_position v
  call exts bs (velocity v) = set_velocity v
