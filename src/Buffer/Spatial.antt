-- ===== src/Buffer/Spatial.antt =====
-- buffer.cpp and buffer.h: `setParams`, which makes 3D parameters those of a buffer and its source, and
-- `commit`, which does so with the deferred ones.
use dsoal.Prelude.{ℕ, Bool, not, ◌||◌, List, [], ◌∷◌, ◌++◌, ◌==◌, if◌then◌else◌}
use dsoal.Al
use dsoal.Al.{Floats, AlCall, Extensions, source_f, source_3f, source_i, al_bool, mb_to_gain}
use dsoal.Buffer.{Buffer, Params3d, Dirty, clean, mode_normal, mode_disable}
use dsoal.Buffer.Location.{mode_calls}

-- `std::bitset::any`
unfoldable pub any_dirty : Dirty → Bool
any_dirty d =
    d.position || d.velocity || d.cone_angles || d.cone_orientation || d.cone_volume
    || d.min_distance || d.max_distance || d.mode

-- What `setParams` copies into `mImmediate`
unfoldable pub merge : {F : Type 0} → Dirty → Params3d F → Params3d F → Params3d F
merge flags p old = record {
  position = if flags.position then p.position else old.position;
  velocity = if flags.velocity then p.velocity else old.velocity;
  inside_cone_angle = if flags.cone_angles then p.inside_cone_angle else old.inside_cone_angle;
  outside_cone_angle = if flags.cone_angles then p.outside_cone_angle else old.outside_cone_angle;
  cone_orientation = if flags.cone_orientation then p.cone_orientation else old.cone_orientation;
  cone_outside_volume =
      if flags.cone_volume then p.cone_outside_volume else old.cone_outside_volume;
  min_distance = if flags.min_distance then p.min_distance else old.min_distance;
  max_distance = if flags.max_distance then p.max_distance else old.max_distance;
  mode = if flags.mode then p.mode else old.mode;
}

module _ (fl : Floats) where
  open fl use {D3dValue, neg, nonneg}

  -- The calls on a source, if there is one
  unfoldable pub on_source : Buffer D3dValue → List (AlCall D3dValue) → List (AlCall D3dValue)
  on_source b calls = if b.source == 0 then [] else calls

  -- The calls of `setParams` on the source `s`, once `now` is copied
  unfoldable pub param_calls :
      Extensions
      → D3dValue
      → ℕ
      → Params3d D3dValue
      → Dirty
      → Params3d D3dValue
      → List (AlCall D3dValue)
  param_calls exts rolloff s p flags now =
      (if not (now.mode == mode_disable)
        then (if flags.position
            then source_3f s Al.position p.position.x p.position.y (neg p.position.z) ∷ []
            else [])
          ++ ((if flags.velocity
                then source_3f s Al.velocity p.velocity.x p.velocity.y (neg p.velocity.z) ∷ []
                else [])
              ++ (if flags.cone_orientation
                  then source_3f s Al.direction p.cone_orientation.x p.cone_orientation.y
                      (neg p.cone_orientation.z)
                    ∷ []
                  else []))
        else [])
      ++ ((if flags.cone_angles
            then source_i s Al.cone_inner_angle p.inside_cone_angle
              ∷ source_i s Al.cone_outer_angle p.outside_cone_angle
              ∷ []
            else [])
          ++ ((if flags.cone_volume
                then source_f s Al.cone_outer_gain (mb_to_gain fl p.cone_outside_volume) ∷ []
                else [])
              ++ ((if flags.min_distance
                    then source_f s Al.reference_distance p.min_distance ∷ []
                    else [])
                  ++ ((if flags.max_distance
                        then source_f s Al.max_distance p.max_distance ∷ []
                        else [])
                      ++ (if flags.mode
                          then mode_calls fl exts rolloff s now p.mode
                            ++ source_i s Al.relative (al_bool (not (p.mode == mode_normal))) ∷ []
                          else [])))))

  -- `setParams`
  unfoldable pub set_params :
      Extensions
      → D3dValue
      → Params3d D3dValue
      → Dirty
      → Buffer D3dValue
      → Buffer D3dValue × List (AlCall D3dValue)
  unfolding merge on_source param_calls
  set_params exts rolloff p flags b =
      let now = merge flags p b.immediate in
      (record b { immediate = now }, on_source b (param_calls exts rolloff b.source p flags now))

  -- `commit`
  unfoldable pub commit :
      Extensions → D3dValue → Buffer D3dValue → Buffer D3dValue × List (AlCall D3dValue)
  unfolding any_dirty
  commit exts rolloff b =
      if any_dirty b.dirty
      then set_params exts rolloff b.deferred b.dirty (record b { dirty = clean })
      else (record b { dirty = clean }, [])
