-- ===== src/Primary/Emulation/Accepts.antt =====
-- What `SetFormat` leaves on each of its branches.
use dsoal.Prelude.{◌≡◌, ◌≢◌, none}
use dsoal.Win.{ds_ok, WaveFormatExtensible}
use dsoal.Al.{Floats}
use dsoal.Device.{SharedDevice}
use dsoal.Primary.{PrimaryBuffer}
use dsoal.Primary.Formats.Accepted.{IsStored, Same}
use dsoal.Primary.Emulation.{PrimaryOutcome}

module _ (fl : Floats) where
  open fl use {D3dValue}

  -- What is left where the format is accepted
  pub record Accepted (f : WaveFormatExtensible) (p : PrimaryBuffer D3dValue) (d : SharedDevice)
      (o : PrimaryOutcome D3dValue) : Type 0 where
    pub stored : IsStored o.primary.format
    pub same : Same f o.primary.format
    pub alone :
        p.write_emu ≡ none
        → (o.hr ≡ ds_ok) × (o.device ≡ d) × (o.primary ≡ record p { format = o.primary.format })
    pub lost : o.hr ≢ ds_ok → o.primary.write_emu ≡ none
