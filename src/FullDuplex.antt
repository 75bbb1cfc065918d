-- ===== src/FullDuplex.antt =====
-- fullduplex.cpp: `DSFullDuplex`, which makes a sound object and a capture object, with one buffer of
-- each.
pub mod Sessions
pub mod Failures
pub mod Tests
use dsoal.Prelude.{ℕ, Bool, true, false, not, ◌&&◌, ◌||◌, Option, none, some, if◌then◌else◌}
use dsoal.Win.{
  Hresult, ds_ok, invalid_param, already_initialized, failed, Expected, value, unexpected,
}
use dsoal.Al.{Floats}
use dsoal.Device.{SharedDevice}
use dsoal.SharedBuffer.{BufferDesc, Storage}
use dsoal.Buffer.Location.{Given}
use dsoal.Buffer.Cursor.{SourceView}
use dsoal.Buffer.References.{new_counts, direct_sound_buffer8, query_interface}
use dsoal.Primary.References as PrimaryReferences
use dsoal.Capture.Setup.{CaptureDesc, DscBuffer}
use dsoal.Capture.Object.{CaptureId, name_device, create_capture_buffer}
use dsoal.DSound8.{Pointer, DSound8, deref, dispose}
use dsoal.DSound8.Level.{set_cooperative_level}
use dsoal.DSound8.Creation.{Made, Outside, BufferPointer, primary, secondary, create_sound_buffer}
use dsoal.DSound8.Opening.{open_object}

-- `mDS8Handle` and `mDSCHandle`: the sound object that the first leads to, and whether there is a
-- capture object
pub record FullDuplex (F : Type 0) : Type 0 where
  pub ds8 : Option (DSound8 F)
  pub dsc : Bool

-- The two buffers that are handed out
abbrev pub Buffers : Type 0
Buffers = BufferPointer × DscBuffer

-- The result, the object, and the buffers
abbrev pub Step : Type 0 → Type 0
Step F = Hresult × FullDuplex F × Option Buffers

-- What is asked for
pub record Asked : Type 0 where
  pub level : ℕ
  pub desc : Option BufferDesc
  pub capture_id : CaptureId
  pub capture_desc : Option CaptureDesc
  -- Whether there are places for the two buffers
  pub capture_place : Bool
  pub place : Bool

-- What comes from outside: the shared device that the sound object gets, what its calls meet, and what
-- the capture side does
pub record Answers (F : Type 0) : Type 0 where
  pub share : Expected SharedDevice
  pub allocates : ℕ → Bool
  pub level_given : Given F
  pub level_storage : Storage
  pub views : ℕ → SourceView
  pub outside : Outside F
  pub found : Hresult
  pub text : Bool
  pub capture_allocates : Bool
  pub capture_opens : Bool

abbrev pub is_null {ℓ} : {A : Type ℓ} → Option A → Bool
is_null none = true
is_null (some a) = false

module _ {F : Type 0} where
  -- No handle
  abbrev pub empty : FullDuplex F
  empty = record { ds8 = none; dsc = false }

  -- A return with a result and no buffers
  abbrev pub returned : Hresult → Option (FullDuplex F) → Option (Step F)
  returned hr none = none
  returned hr (some fd) = some (hr, fd, none)

module _ (fl : Floats) where
  open fl use {D3dValue}

  -- The `Release` of the one reference to a buffer
  unfoldable pub release_buffer : BufferPointer → DSound8 D3dValue → Option (DSound8 D3dValue)
  release_buffer primary s = some (record s {
    primary_buffer = (PrimaryReferences.release PrimaryReferences.ds s.primary_buffer).1;
  })
  release_buffer (secondary p) s = elim (dispose fl p s) [
    | none ↦ none
    | some (s', calls) ↦ some s'
  ]

  -- The end of the local `dsbuf` at a return. `none` is a fault: the use of a buffer whose sound object
  -- is destroyed.
  unfoldable pub drop_local :
      Option BufferPointer → FullDuplex D3dValue → Option (FullDuplex D3dValue)
  drop_local none fd = some fd
  drop_local (some p) fd = elim fd.ds8 [
    | none ↦ none
    | some s ↦ elim (release_buffer p s) [
      | none ↦ none
      | some s' ↦ some (record fd { ds8 = some s' })
    ]
  ]

  -- `QueryInterface` of the sound buffer for IDirectSoundBuffer8, whose IID is none that the primary
  -- buffer knows; `none` is a fault.
  unfoldable pub query_8 : BufferPointer → DSound8 D3dValue → Option Hresult
  query_8 primary s =
      some (PrimaryReferences.query_interface (PrimaryReferences.other 8) true s.primary_buffer).0
  query_8 (secondary p) s = elim (deref p s.secondary_buffers) [
    | none ↦ none
    | some b ↦ some (query_interface b.shared.flags b.is_8 direct_sound_buffer8 true new_counts).0
  ]

  -- Both buffers are there: they are asked for their newer interfaces, which the capture buffer of this
  -- capture object has.
  unfoldable pub hand_out :
      Option BufferPointer → Option DscBuffer → DSound8 D3dValue → Option (Step D3dValue)
  hand_out none c s = none
  hand_out (some p) none s = none
  hand_out (some p) (some c) s =
      let fd : FullDuplex D3dValue = record { ds8 = some s; dsc = true } in
      elim (query_8 p s) [
        | none ↦ none
        | some hr ↦
            if failed hr
            then returned hr (drop_local (some p) fd)
            else some (ds_ok, fd, some (p, c))
      ]

  -- `Initialize` from the capture object on: where it fails, both handles are reset before the local
  -- `dsbuf` ends.
  unfoldable pub with_made : Asked → Answers D3dValue → Made D3dValue → Option (Step D3dValue)
  with_made asked a m =
      let named = name_device asked.capture_id a.found a.text false in
      let created =
        create_capture_buffer a.capture_allocates a.capture_opens true false asked.capture_desc in
      if failed m.hr
      then some (m.hr, empty, none)
      else if failed named.0
      then returned named.0 (drop_local m.made empty)
      else if failed created.0
      then returned created.0 (drop_local m.made empty)
      else hand_out m.made created.1 m.object

  -- `Initialize` with a sound object that has its device
  unfoldable pub with_object : Asked → Answers D3dValue → DSound8 D3dValue → Option (Step D3dValue)
  with_object asked a s =
      let levelled = set_cooperative_level fl a.level_given a.level_storage a.views asked.level s in
      if failed levelled.0
      then some (levelled.0, empty, none)
      else elim (create_sound_buffer fl a.outside true false asked.desc levelled.1) [
        | none ↦ none
        | some m ↦ with_made asked a m
      ]

  -- `Initialize`; `none` is a fault.
  unfoldable pub initialize :
      Asked → Answers D3dValue → FullDuplex D3dValue → Option (Step D3dValue)
  initialize asked a fd =
      if not (asked.capture_place && asked.place)
      then some (invalid_param, fd, none)
      else if fd.dsc || not (is_null fd.ds8)
      then some (already_initialized, fd, none)
      else elim (open_object fl a.allocates true a.share) [
        | unexpected hr ↦ some (hr, empty, none)
        | value s ↦ with_object asked a s
      ]
