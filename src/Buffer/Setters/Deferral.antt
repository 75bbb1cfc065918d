-- ===== src/Buffer/Setters/Deferral.antt =====
-- A deferred setter and `commit` do together what the setter does at once.
use dsoal.Prelude.{◌≡◌, []}
use dsoal.Al.{Floats, Extensions}
use dsoal.Buffer.{Buffer, clean}
use dsoal.Buffer.Spatial.{commit}
use dsoal.Buffer.Setters.{Step}

module _ (fl : Floats) where
  open fl use {D3dValue}

  -- What a deferred call and its commit have in common with an immediate call.
  pub record Defers (exts : Extensions) (rolloff : D3dValue) (b : Buffer D3dValue)
      (later now : Step fl) : Type 0 where
    pub same_result : later.0 ≡ now.0
    pub waits : later.1.immediate ≡ b.immediate
    pub no_calls : later.2 ≡ []
    pub same_params : (commit fl exts rolloff later.1).0.immediate ≡ now.1.immediate
    pub same_calls : (commit fl exts rolloff later.1).1 ≡ now.2
    pub clean_after : (commit fl exts rolloff later.1).0.dirty ≡ clean
