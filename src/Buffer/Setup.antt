-- ===== src/Buffer/Setup.antt =====
-- buffer.cpp: the constructor of `Buffer` and `Initialize`.
pub mod Ready
pub mod Added
pub mod Refusal
use dsoal.Prelude.{
  ℕ, Bool, true, false, not, ◌&&◌, Option, none, some, List, [], ◌∷◌, ◌++◌, ◌==◌, if◌then◌else◌, ℤ,
  pos,
}
use dsoal.Win.{
  Hresult, ds_ok, invalid_param, Expected, value, unexpected, WaveFormatExtensible, has,
  caps_ctrl3d, caps_ctrlpan, caps_ctrlfrequency, caps_locdefer, caps_lochardware, caps_locsoftware,
}
use dsoal.Al.{Floats, AlCall}
use dsoal.Device.{SharedDevice}
use dsoal.SharedBuffer.{SharedBuffer, BufferDesc, Storage, create, create_calls}
use dsoal.Buffer.{
  Buffer, Outcome, Params3d, Vector, LocStatus, none_any, hardware, software, clean, mode_normal,
}
use dsoal.Buffer.Location.{Given, set_location}

-- What differs between buffers that the constructor returns. The original of a duplicate is an
-- initialized buffer.
pub record Blank (F : Type 0) : Type 0 where
  pub shared : Option SharedBuffer
  pub pan : ℤ
  pub frequency : ℕ
  pub immediate : Params3d F
  pub is_8 : Bool

-- What `Initialize` leaves: no buffer while there is no sample storage. A buffer that is added to the
-- sound object's list of 3D buffers is so before its location is set.
pub record Initialized (F : Type 0) : Type 0 where
  pub hr : Hresult
  pub buffer : Option (Buffer F)
  pub device : SharedDevice
  pub calls : List (AlCall F)
  pub added_3d : Bool

-- The location that the flags of a buffer which is not deferred ask for
caps_loc : ℕ → LocStatus
caps_loc flags =
    if has flags caps_lochardware
    then hardware
    else if has flags caps_locsoftware
    then software
    else none_any

module _ (fl : Floats) where
  open fl use {D3dValue, zero_f, one_f, of_long}

  -- The 3D parameters of a new buffer; DS3D_DEFAULTMAXDISTANCE is 1e9.
  unfoldable pub default_params : Params3d D3dValue
  default_params = record {
    position = record { x = zero_f; y = zero_f; z = zero_f };
    velocity = record { x = zero_f; y = zero_f; z = zero_f };
    inside_cone_angle = 360;
    outside_cone_angle = 360;
    cone_orientation = record { x = zero_f; y = zero_f; z = one_f };
    cone_outside_volume = pos 0;
    min_distance = one_f;
    max_distance = of_long (pos 1000000000);
    mode = mode_normal;
  }

  -- `Buffer::Buffer`
  unfoldable pub construct : Bool → Option (Buffer D3dValue) → Blank D3dValue
  unfolding default_params
  construct is_8 none = record {
    shared = none;
    pan = pos 0;
    frequency = 0;
    immediate = default_params;
    is_8 = is_8;
  }
  construct is_8 (some original) =
      let flags = original.shared.flags in
      record {
        shared = some original.shared;
        pan = if has flags caps_ctrlpan then original.pan else pos 0;
        frequency = if has flags caps_ctrlfrequency then original.frequency else 0;
        immediate = if has flags caps_ctrl3d then original.immediate else default_params;
        is_8 = is_8;
      }

  -- The buffer with its storage, before its location is set
  unfoldable pub with_storage : Blank D3dValue → SharedBuffer → Buffer D3dValue
  with_storage n s = record {
    shared = s;
    source = 0;
    last_pos = 0;
    vm_priority = 0;
    locked = false;
    buffer_lost = false;
    volume = pos 0;
    pan = n.pan;
    frequency = if n.frequency == 0 then s.wfx_format.format.samples_per_sec else n.frequency;
    immediate = n.immediate;
    deferred = n.immediate;
    dirty = clean;
    loc_status = none_any;
    notifies = [];
    is_8 = n.is_8;
  }

  -- What `Initialize` does first with the location
  unfoldable pub first_location : Given D3dValue → Buffer D3dValue → SharedDevice → Outcome D3dValue
  unfolding caps_loc
  first_location g b d =
      if has b.shared.flags caps_locdefer
      then record { hr = ds_ok; buffer = b; device = d; calls = []; parent_calls = [] }
      else set_location fl g (caps_loc b.shared.flags) b d

  unfoldable pub finish :
      Given D3dValue
      → List (AlCall D3dValue)
      → Buffer D3dValue
      → SharedDevice
      → Initialized D3dValue
  unfolding first_location
  finish g made b d =
      let o = first_location g b d in
      record {
        hr = o.hr;
        buffer = some o.buffer;
        device = o.device;
        calls = made ++ o.calls;
        added_3d = has b.shared.flags caps_ctrl3d;
      }

  unfoldable pub failed_init : Hresult → SharedDevice → Initialized D3dValue
  failed_init hr d = record { hr = hr; buffer = none; device = d; calls = []; added_3d = false }

  unfoldable pub store :
      Given D3dValue → Blank D3dValue → SharedDevice → Expected SharedBuffer → Initialized D3dValue
  unfolding finish with_storage failed_init
  store g n d (unexpected hr) = failed_init hr d
  store g n d (value s) = finish g (create_calls fl s) (with_storage n s) d

  -- The description of a buffer that is no duplicate
  unfoldable pub describe :
      Given D3dValue
      → Storage
      → BufferDesc
      → Option WaveFormatExtensible
      → Blank D3dValue
      → SharedDevice
      → Initialized D3dValue
  unfolding store failed_init
  describe g st desc none n d = failed_init invalid_param d
  describe g st desc (some f) n d =
      if has desc.flags caps_ctrl3d && not (f.format.channels == 1) && n.is_8
      then failed_init invalid_param d
      else store g n d (create st d.extensions desc f)

  -- `Initialize`, of a buffer that is not initialized; no description is a null pointer.
  unfoldable pub initialize :
      Given D3dValue
      → Storage
      → Option BufferDesc
      → Blank D3dValue
      → SharedDevice
      → Initialized D3dValue
  unfolding finish with_storage failed_init describe
  initialize g st desc n d = elim (n.shared) [
    | some s ↦ finish g [] (with_storage n s) d
    | none ↦ elim desc [
      | none ↦ failed_init invalid_param d
      | some ds ↦ describe g st ds ds.format n d
    ]
  ]
