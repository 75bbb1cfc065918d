-- ===== src/Primary/Listener3d/Pauses.antt =====
-- Which listener calls suspend and process the context, and what the others are.
use dsoal.Prelude.{◌≡◌, refl, ◌∙◌, append-nil, arith, Bool, true, false, List, [], ◌∷◌, ◌++◌}
use dsoal.Al.{Floats, Extensions, AlCall, doppler_factor, suspend_context, process_context}
use dsoal.Buffer.{Buffer}
use dsoal.Primary.{ListenerParams, listener_all}
use dsoal.Primary.Listener3d.{
  Setter, suspended, distance_calls, param_calls, rolloff_calls, all_parameters, distance, rolloff,
}

-- The calls but for those of `alcSuspendContext` and `alcProcessContext`
unfoldable pub unpaused : {F : Type 0} → List (AlCall F) → List (AlCall F)
unpaused [] = []
unpaused (suspend_context ∷ cs) = unpaused cs
unpaused (process_context ∷ cs) = unpaused cs
unpaused (c ∷ cs) = c ∷ unpaused cs

pub unpaused-nil : {F : Type 0} → unpaused {F = F} [] ≡ []
unfolding unpaused
unpaused-nil = refl

unpaused-append :
    {F : Type 0} (cs ds : List (AlCall F)) → unpaused (cs ++ ds) ≡ unpaused cs ++ unpaused ds
unfolding unpaused
unpaused-append [] ds = refl
unpaused-append (c ∷ cs) ds = ground (arith, unpaused-append cs ds)

-- No call of the list suspends or processes the context.
abbrev IsPlain : {F : Type 0} → List (AlCall F) → Type 0
IsPlain cs = unpaused cs ≡ cs

append-IsPlain :
    {F : Type 0} (cs ds : List (AlCall F)) → IsPlain cs → IsPlain ds → IsPlain (cs ++ ds)
append-IsPlain cs ds p q = rw (unpaused-append cs ds, p, q) refl

module _ (fl : Floats) where
  open fl use {D3dValue}

  pub unpaused-suspended :
      (cs : List (AlCall D3dValue)) → IsPlain cs → unpaused (suspended fl cs) ≡ cs
  unfolding unpaused
  unpaused-suspended cs p = unpaused-append cs (process_context ∷ []) ∙ rw p (append-nil cs)

  pub rolloff_calls-IsPlain :
      (x : D3dValue) (bs : List (Buffer D3dValue)) → IsPlain (rolloff_calls fl x bs)
  unfolding rolloff_calls unpaused
  rolloff_calls-IsPlain x [] = refl
  rolloff_calls-IsPlain x (b ∷ bs) = ground (arith, rolloff_calls-IsPlain x bs)

  pub distance_calls-IsPlain :
      (exts : Extensions) (x : D3dValue) → IsPlain (distance_calls fl exts x)
  unfolding distance_calls unpaused
  distance_calls-IsPlain exts x = ground arith

  pub param_calls-IsPlain :
      (exts : Extensions) (bs : List (Buffer D3dValue)) (p : ListenerParams D3dValue)
      → IsPlain (param_calls fl exts bs p listener_all)
  unfolding param_calls unpaused
  param_calls-IsPlain exts bs p =
      let doppler : IsPlain (doppler_factor p.doppler_factor ∷ []) = refl in
      let rolls =
        append-IsPlain (rolloff_calls fl p.rolloff_factor bs) _
          (rolloff_calls-IsPlain p.rolloff_factor bs) doppler in
      let far =
        append-IsPlain (distance_calls fl exts p.distance_factor) _
          (distance_calls-IsPlain exts p.distance_factor) rolls in
      cc

  -- The setters that suspend the context while they make their calls at once
  abbrev pub pauses : Setter fl → Bool
  pauses (all_parameters p) = true
  pauses (distance x) = true
  pauses (rolloff x) = true
  pauses _ = false
