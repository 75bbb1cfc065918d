-- ===== src/Primary/Listener3d/Deferral.antt =====
-- A deferred setter of the listener and `CommitDeferredSettings` do together what the setter does at once.
use dsoal.Prelude.{◌≡◌, ◌≢◌, List, [], ◌++◌, if◌then◌else◌}
use dsoal.Win.{ds_ok}
use dsoal.Al.{Floats, Extensions}
use dsoal.Buffer.{Buffer}
use dsoal.Primary.{PrimaryBuffer, listener_clean}
use dsoal.Primary.Listener3d.Pauses.{unpaused, pauses}
use dsoal.Primary.Listener3d.{
  Step, Setter, commit, commit_deferred, suspended, commit_listener, commit_buffers,
}

module _ (fl : Floats) where
  open fl use {D3dValue}

  -- What a deferred call and the first part of `commit` have in common with an immediate call.
  record Waits (exts : Extensions) (bs : List (Buffer D3dValue)) (b : PrimaryBuffer D3dValue)
      (later now : Step fl) : Type 0 where
    same_result : later.0 ≡ now.0
    waits : later.1.immediate ≡ b.immediate
    no_calls : later.2 ≡ []
    same_params : (commit_listener fl exts bs later.1).0.immediate ≡ now.1.immediate
    same_calls : (commit_listener fl exts bs later.1).1 ≡ unpaused now.2
    clean_after : (commit_listener fl exts bs later.1).0.dirty ≡ listener_clean

  -- What a deferred call and `CommitDeferredSettings` have in common with an immediate call and the
  -- commits of the 3D buffers.
  pub record Defers (exts : Extensions) (bs : List (Buffer D3dValue)) (b : PrimaryBuffer D3dValue)
      (later now : Step fl) : Type 0 where
    pub same_result : later.0 ≡ now.0
    pub waits : later.1.immediate ≡ b.immediate
    pub no_calls : later.2 ≡ []
    pub same_params : (commit fl exts bs later.1).0.immediate ≡ now.1.immediate
    pub clean_after : (commit fl exts bs later.1).0.dirty ≡ listener_clean
    pub same_buffers :
        (commit fl exts bs later.1).1 ≡ (commit_buffers fl exts now.1.immediate.rolloff_factor bs).0
    pub same_calls :
        (commit_deferred fl exts bs later.1).2
        ≡ suspended fl
            (unpaused now.2 ++ (commit_buffers fl exts now.1.immediate.rolloff_factor bs).1)

  -- The calls that a setter makes at once
  pub record Paused (c : Setter fl) (now : Step fl) : Type 0 where
    pub refused : now.0 ≢ ds_ok → now.2 ≡ []
    pub between :
        now.0 ≡ ds_ok
        → now.2 ≡ (if pauses fl c then suspended fl (unpaused now.2) else unpaused now.2)
