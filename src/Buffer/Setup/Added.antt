-- ===== src/Buffer/Setup/Added.antt =====
-- `Initialize` adds a buffer to the list of 3D buffers only where the buffer is one.
use dsoal.Prelude.{
  ◌≡◌, refl, ap, Bool, true, not, ◌&&◌, ◌==◌, Option, none, some, List, [], if_both,
}
use dsoal.Win.{Hresult, WaveFormatExtensible, invalid_param, has, caps_ctrl3d, caps_locdefer}
use dsoal.Win.{Expected, value, unexpected}
use dsoal.Al.{Floats, AlCall}
use dsoal.Device.{SharedDevice}
use dsoal.SharedBuffer.{SharedBuffer, BufferDesc, Storage, create}
use dsoal.Buffer.{Buffer, Outcome}
use dsoal.Buffer.Location.{Given}
use dsoal.Buffer.Location.Accounting.{set_location-OnlyMoved}
use dsoal.Buffer.Setup.{
  Blank, Initialized, caps_loc, construct, with_storage, first_location, finish, failed_init, store,
  describe, initialize,
}

module _ (fl : Floats) where
  open fl use {D3dValue}

  pub record Added (r : Initialized D3dValue) : Type 0 where
    pub there :
        r.added_3d ≡ true
        → (b : Buffer D3dValue) × (r.buffer ≡ some b) × (has b.shared.flags caps_ctrl3d ≡ true)

  first_location-shared :
      (g : Given D3dValue) (b : Buffer D3dValue) (d : SharedDevice)
      → (first_location fl g b d).buffer.shared ≡ b.shared
  unfolding first_location
  first_location-shared g b d =
      if_both (λ (o : Outcome D3dValue). o.buffer.shared ≡ b.shared)
        (has b.shared.flags caps_locdefer) _ _ refl
        (ap (λ c. c.shared) (set_location-OnlyMoved fl g (caps_loc b.shared.flags) b d))

  finish-Added :
      (g : Given D3dValue) (made : List (AlCall D3dValue)) (b : Buffer D3dValue) (d : SharedDevice)
      → Added (finish fl g made b d)
  unfolding finish
  finish-Added g made b d = record {
    there = λ e. ((first_location fl g b d).buffer, refl, rw (first_location-shared g b d) e);
  }

  failed_init-Added : (hr : Hresult) (d : SharedDevice) → Added (failed_init fl hr d)
  unfolding failed_init
  failed_init-Added hr d = record { there = λ e. cc }

  store-Added :
      (g : Given D3dValue) (n : Blank D3dValue) (d : SharedDevice) (e : Expected SharedBuffer)
      → Added (store fl g n d e)
  unfolding store
  store-Added g n d (unexpected hr) = failed_init-Added hr d
  store-Added g n d (value s) = finish-Added g _ (with_storage fl n s) d

  describe-Added :
      (g : Given D3dValue) (st : Storage) (ds : BufferDesc) (o : Option WaveFormatExtensible)
      (n : Blank D3dValue) (d : SharedDevice)
      → Added (describe fl g st ds o n d)
  unfolding describe
  describe-Added g st ds none n d = failed_init-Added invalid_param d
  describe-Added g st ds (some f) n d =
      if_both Added (has ds.flags caps_ctrl3d && not (f.format.channels == 1) && n.is_8) _ _
        (failed_init-Added invalid_param d) (store-Added g n d (create st d.extensions ds f))

  -- A buffer that is added to the list of 3D buffers is there, and is a 3D buffer.
  pub initialize-Added :
      (g : Given D3dValue) (st : Storage) (desc : Option BufferDesc) (is_8 : Bool)
      (original : Option (Buffer D3dValue)) (d : SharedDevice)
      → Added (initialize fl g st desc (construct fl is_8 original) d)
  unfolding initialize construct
  initialize-Added g st desc is_8 (some o) d =
      finish-Added g [] (with_storage fl (construct fl is_8 (some o)) o.shared) d
  initialize-Added g st none is_8 none d = failed_init-Added invalid_param d
  initialize-Added g st (some ds) is_8 none d =
      describe-Added g st ds ds.format (construct fl is_8 none) d
