-- ===== src/Primary/Emulation/Loss.antt =====
-- A format that the emulation cannot play costs the primary buffer its emulation.
use dsoal.Prelude.{◌≡◌, ◌≢◌, none}
use dsoal.Win.{ds_ok, WaveFormatExtensible}
use dsoal.Al.{Floats}
use dsoal.Buffer.{Buffer}
use dsoal.Buffer.Setup
use dsoal.Primary.Emulation.{PrimaryOutcome}

module _ (fl : Floats) where
  open fl use {D3dValue}

  -- What a refused emulation leaves.
  pub record Lost (f : WaveFormatExtensible) (o : PrimaryOutcome D3dValue) : Type 0 where
    pub fails : o.hr ≢ ds_ok
    pub gone : o.primary.write_emu ≡ none
    pub stored : o.primary.format ≡ f
