-- ===== src/Buffer/Setup/Refusal.antt =====
-- `Initialize` fails where no sample storage can be made.
use dsoal.Prelude.{◌≡◌, ◌≢◌, refl, ◌∙◌, ap, Bool, Option, none, some, if_both, not, ◌&&◌, ◌==◌}
use dsoal.Win.{ds_ok, value, unexpected, Expected, WaveFormatExtensible, has, caps_ctrl3d}
use dsoal.Al.{Floats}
use dsoal.Device.{SharedDevice}
use dsoal.SharedBuffer.{SharedBuffer, BufferDesc, Storage, create}
use dsoal.SharedBuffer.Created.{create_fails}
use dsoal.Buffer.Location.{Given}
use dsoal.Buffer.Setup.{Blank, Initialized, construct, initialize, describe, store, failed_init}

module _ (fl : Floats) where
  open fl use {D3dValue}

  record Refuses (r : Initialized D3dValue) : Type 0 where
    refused : r.hr ≢ ds_ok

  store-Refuses :
      (g : Given D3dValue) (n : Blank D3dValue) (st : Storage) (ds : BufferDesc)
      (f : WaveFormatExtensible) (d : SharedDevice) (e : Expected SharedBuffer)
      → create st d.extensions ds f ≡ e
      → ((b : SharedBuffer) → create st d.extensions ds f ≢ value b)
      → Refuses (store fl g n d e)
  unfolding store failed_init
  store-Refuses g n st ds f d (unexpected hr) h ne = record {
    refused = λ ok. create_fails st d.extensions ds f (h ∙ ap unexpected ok);
  }
  store-Refuses g n st ds f d (value b) h ne = absurd (ne b h)

  describe-Refuses :
      (g : Given D3dValue) (st : Storage) (ds : BufferDesc) (o : Option WaveFormatExtensible)
      (n : Blank D3dValue) (d : SharedDevice)
      → ((f : WaveFormatExtensible) (b : SharedBuffer)
          → o ≡ some f
          → create st d.extensions ds f ≢ value b)
      → Refuses (describe fl g st ds o n d)
  unfolding describe failed_init
  describe-Refuses g st ds none n d ne = record { refused = λ e. cc }
  describe-Refuses g st ds (some f) n d ne =
      if_both Refuses (has ds.flags caps_ctrl3d && not (f.format.channels == 1) && n.is_8) _ _
        (record { refused = λ e. cc }) (store-Refuses g n st ds f d _ refl (λ b. ne f b refl))

  pub initialize_refused :
      (g : Given D3dValue) (st : Storage) (ds : BufferDesc) (is_8 : Bool) (d : SharedDevice)
      → ((f : WaveFormatExtensible) (b : SharedBuffer)
          → ds.format ≡ some f
          → create st d.extensions ds f ≢ value b)
      → (initialize fl g st (some ds) (construct fl is_8 none) d).hr ≢ ds_ok
  unfolding initialize construct
  initialize_refused g st ds is_8 d ne =
      (describe-Refuses g st ds ds.format (construct fl is_8 none) d ne).refused
