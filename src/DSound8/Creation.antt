-- ===== src/DSound8/Creation.antt =====
-- dsoundoal.cpp: `CreateSoundBuffer` and `DuplicateSoundBuffer`, of an initialized object.
pub mod Counted
pub mod Calls
pub mod Faults
use dsoal.Prelude.{
  ℕ, Bool, true, false, not, ◌&&◌, ◌||◌, Option, none, some, List, [], ◌∷◌, ◌++◌, bit_and, ◌==◌,
  if◌then◌else◌,
}
use dsoal.Win.{
  Hresult, ds_ok, invalid_param, no_aggregation, failed, has, caps_primarybuffer, caps_ctrlfx,
}
use dsoal.Al.{Floats, AlCall}
use dsoal.Device.{SharedDevice}
use dsoal.SharedBuffer.{BufferDesc, Storage}
use dsoal.Buffer.{Buffer}
use dsoal.Buffer.Location.{Given, destroy}
use dsoal.Buffer.Playback
use dsoal.Buffer.Setup
use dsoal.Buffer.Setup.{Initialized}
use dsoal.Pool.{BufferSubList, create_secondary_buffer, create_and_dispose}
use dsoal.Primary.{PrimaryBuffer}
use dsoal.Primary.References
use dsoal.Primary.Emulation
use dsoal.Primary.Emulation.{PrimaryOutcome}
use dsoal.Primary.Queries
use dsoal.DSound8.{Pointer, DSound8, deref, remove}

-- An `IDirectSoundBuffer*` of the object
pub data BufferPointer : Type 0 where
  primary : BufferPointer
  secondary : Pointer → BufferPointer

-- What a creation leaves
pub record Made (F : Type 0) : Type 0 where
  pub hr : Hresult
  pub object : DSound8 F
  pub calls : List (AlCall F)
  pub made : Option BufferPointer

-- What a creation gets from outside: whether an allocation of another group returns, the storage, and
-- what the location of a new buffer needs. `SubListAllocator` is `std::allocator`: an allocation that
-- does not return throws `std::bad_alloc`, which ends the program, since the methods are `noexcept`.
pub record Outside (F : Type 0) : Type 0 where
  pub allocates : Bool
  pub storage : Storage
  pub given : Given F

module _ {F : Type 0} where
  unfoldable pub refused : Hresult → DSound8 F → Made F
  refused hr s = record { hr = hr; object = s; calls = []; made = none }

  -- The buffers of `get3dBuffers`; `none` is a fault, of a pointer that leads to no object.
  unfoldable pub buffers_of :
      List Pointer → List (BufferSubList (Buffer F)) → Option (List (Buffer F))
  buffers_of [] gs = some []
  buffers_of (p ∷ ps) gs = elim (deref p gs) [
    | none ↦ none
    | some b ↦ elim (buffers_of ps gs) [ none ↦ none | some bs ↦ some (b ∷ bs) ]
  ]

module _ (fl : Floats) where
  open fl use {D3dValue}

  -- The end of a buffer that may have got no storage
  unfoldable pub dropped :
      Option (Buffer D3dValue) → SharedDevice → SharedDevice × List (AlCall D3dValue)
  dropped none d = (d, [])
  dropped (some b) d = destroy fl b d

  -- A buffer whose `Initialize` fails is disposed of.
  unfoldable pub discard :
      Outside D3dValue → Initialized D3dValue → DSound8 D3dValue → Option (Made D3dValue)
  unfolding dropped
  discard w r s =
      let (device, calls) = dropped r.buffer r.device in
      elim (create_and_dispose w.allocates s.secondary_buffers) [
        | none ↦ none
        | some gs ↦ some (record {
          hr = r.hr;
          object = record s { shared = device; secondary_buffers = gs };
          calls = r.calls ++ calls;
          made = none;
        })
      ]

  -- A buffer that is initialized gets its slot.
  unfoldable pub keep_buffer :
      Outside D3dValue
      → Initialized D3dValue
      → Buffer D3dValue
      → DSound8 D3dValue
      → Option (Made D3dValue)
  keep_buffer w r b s = elim (create_secondary_buffer w.allocates b s.secondary_buffers) [
    | none ↦ none
    | some (k, i, gs) ↦
        (let p : Pointer = record { group = k; slot = i } in
          some (record {
            hr = ds_ok;
            object = record s {
              shared = r.device;
              secondary_buffers = gs;
              buffers_3d = if r.added_3d then s.buffers_3d ++ p ∷ [] else s.buffers_3d;
            };
            calls = r.calls;
            made = some (secondary p);
          }))
  ]

  unfoldable pub settle :
      Outside D3dValue
      → Initialized D3dValue
      → Option (Buffer D3dValue)
      → DSound8 D3dValue
      → Option (Made D3dValue)
  unfolding discard keep_buffer
  settle w r none s = discard w r s
  settle w r (some b) s = keep_buffer w r b s

  -- A new secondary buffer, once it is initialized or not; `none` is where the allocation of its group
  -- throws.
  unfoldable pub create_buffer :
      Outside D3dValue → Initialized D3dValue → DSound8 D3dValue → Option (Made D3dValue)
  unfolding discard settle
  create_buffer w r s = if failed r.hr then discard w r s else settle w r r.buffer s

  -- The primary buffer, whose first reference initializes it
  unfoldable pub create_primary :
      Outside D3dValue → BufferDesc → List (Buffer D3dValue) → DSound8 D3dValue → Made D3dValue
  create_primary w desc bs s =
      let (ret, p) = References.add_ref References.ds s.primary_buffer in
      let o = Emulation.initialize fl w.given w.storage s.prio_level bs (some desc) p s.shared in
      let released = (References.release References.ds o.primary).1 in
      if not ((ret == 1) && (p.flags == 0))
      then record {
        hr = ds_ok;
        object = record s { primary_buffer = p };
        calls = [];
        made = some primary;
      }
      else if failed o.hr
      then record {
        hr = o.hr;
        object = record s { primary_buffer = released; shared = o.device };
        calls = o.calls;
        made = none;
      }
      else record {
        hr = o.hr;
        object = record s { primary_buffer = o.primary; shared = o.device };
        calls = o.calls;
        made = some primary;
      }

  -- `CreateSoundBuffer`. The first two flags say whether there is a place for the result and whether
  -- aggregation is asked for; no description is one that is null or too small. `none` is a fault:
  -- the allocation of a group throws, or a pointer that leads to no object is used.
  unfoldable pub create_sound_buffer :
      Outside D3dValue → Bool → Bool → Option BufferDesc → DSound8 D3dValue → Option (Made D3dValue)
  create_sound_buffer w place outer none s = some (
      refused (if not place then invalid_param else if outer then no_aggregation else invalid_param)
        s)
  create_sound_buffer w place outer (some desc) s =
      let r =
        Setup.initialize fl w.given w.storage (some desc) (Setup.construct fl s.is_8 none)
          s.shared in
      let primary_made : Option (Made D3dValue) =
        elim (buffers_of s.buffers_3d s.secondary_buffers) [
          | none ↦ none
          | some bs ↦ some (create_primary w desc bs s)
        ] in
      if not place
      then some (refused invalid_param s)
      else if outer
      then some (refused no_aggregation s)
      else if has desc.flags caps_primarybuffer
      then primary_made
      else if (bit_and desc.flags 0x50 == 0x50) && s.is_8
      then some (refused invalid_param s)
      else create_buffer w r s

  -- `DuplicateSoundBuffer` of a secondary buffer, once the slot is known to be there. The pointer that
  -- `createSecondaryBuffer` returns is never null, so that the test for a null one is left out.
  unfoldable pub duplicate :
      Outside D3dValue → Buffer D3dValue → DSound8 D3dValue → Option (Made D3dValue)
  duplicate w original s =
      let (flags, size) = Playback.get_caps original in
      let r =
        Setup.initialize fl w.given w.storage none (Setup.construct fl s.is_8 (some original))
          s.shared in
      if has flags caps_primarybuffer || has flags caps_ctrlfx
      then some (refused invalid_param s)
      else create_buffer w r s

  -- `DuplicateSoundBuffer`; the flag says whether there is a place for the result, and no original is a
  -- null pointer. `none` is a fault: the allocation of a group throws, or a pointer that leads to no
  -- secondary buffer is used.
  unfoldable pub duplicate_sound_buffer :
      Outside D3dValue → Option BufferPointer → Bool → DSound8 D3dValue → Option (Made D3dValue)
  duplicate_sound_buffer w none place s = some (refused invalid_param s)
  duplicate_sound_buffer w (some p) false s = some (refused invalid_param s)
  duplicate_sound_buffer w (some primary) true s =
      let (flags, size) = Queries.get_caps s.primary_buffer in
      if has flags caps_primarybuffer then some (refused invalid_param s) else none
  duplicate_sound_buffer w (some (secondary p)) true s = elim (deref p s.secondary_buffers) [
    | none ↦ none
    | some original ↦ duplicate w original s
  ]
