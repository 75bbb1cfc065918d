-- ===== src/FullDuplex/Failures.antt =====
-- What `Initialize` of a full duplex object does where the capture side fails, and of a primary buffer.
use dsoal.Prelude.{◌≡◌, ◌⊎◌, refl, ◌∙◌, arith, true, false, none, some, Bool-cases, inl, inr}
use dsoal.Win.{Hresult, e_nointerface, already_initialized, failed, value}
use dsoal.Al.{Floats}
use dsoal.Primary.References as PrimaryReferences
use dsoal.Capture.Setup.{DscBuffer}
use dsoal.Capture.Object.{name_device, create_capture_buffer}
use dsoal.DSound8.{DSound8}
use dsoal.DSound8.Level.{set_cooperative_level}
use dsoal.DSound8.Creation.{Made, BufferPointer, primary, create_sound_buffer}
use dsoal.DSound8.Opening.{open_object}
use dsoal.FullDuplex.{
  FullDuplex, Asked, Answers, empty, returned, drop_local, release_buffer, query_8, hand_out,
  with_made, with_object, initialize,
}

module _ (fl : Floats) where
  open fl use {D3dValue}

  -- The sound side succeeds: it makes the buffer `made`.
  pub record Sounds (asked : Asked) (a : Answers D3dValue) (p : BufferPointer) : Type 0 where
    pub capture_placed : asked.capture_place ≡ true
    pub placed : asked.place ≡ true
    pub start : DSound8 D3dValue
    pub opens : open_object fl a.allocates true a.share ≡ value start
    pub levels :
        failed (set_cooperative_level fl a.level_given a.level_storage a.views asked.level start).0
        ≡ false
    pub made : Made D3dValue
    pub creates :
        create_sound_buffer fl a.outside true false asked.desc
          (set_cooperative_level fl a.level_given a.level_storage a.views asked.level start).1
        ≡ some made
    pub succeeds : failed made.hr ≡ false
    pub buffer : made.made ≡ some p

  -- Then what is left is up to the capture side.
  initialize-made :
      (asked : Asked) (a : Answers D3dValue) (p : BufferPointer) (v : Sounds asked a p)
      → initialize fl asked a empty ≡ with_made fl asked a v.made
  unfolding initialize with_object with_made
  initialize-made asked a p v =
      rw (v.capture_placed, initialize)
        (rw (v.placed, initialize)
          (rw (v.opens, initialize)
            (rw (v.levels, with_object) (rw (v.creates, with_object) refl))))

  dangling : (p : BufferPointer) (hr : Hresult) → returned hr (drop_local fl (some p) empty) ≡ none
  unfolding drop_local
  dangling p hr = refl

  -- The sound device opens, the level is accepted and the sound buffer, secondary or primary, is made;
  -- then the capture device cannot be named, or the capture buffer cannot be made. Then `Initialize`
  -- does not return the error: it is a fault, since its pointer to the sound buffer is released after
  -- the sound object that holds the buffer is destroyed.
  pub initialize_dangles :
      (asked : Asked) (a : Answers D3dValue) (p : BufferPointer)
      → Sounds asked a p
      → (failed (name_device asked.capture_id a.found a.text false).0 ≡ true)
        ⊎ (failed
              (create_capture_buffer a.capture_allocates a.capture_opens true false
                asked.capture_desc).0
            ≡ true)
      → initialize fl asked a empty ≡ none
  unfolding with_made
  initialize_dangles asked a p v h =
      let named = name_device asked.capture_id a.found a.text false in
      initialize-made asked a p v
      ∙ rw (v.succeeds, with_made)
          (rw (v.buffer, with_made)
            (elim (Bool-cases (failed named.0)) [
              | inl bad ↦ rw (bad, with_made) (dangling p named.0)
              | inr known ↦ elim h [
                | inl bad ↦ absurd (ground arith)
                | inr bad ↦ rw (known, bad, with_made) (dangling p _)
              ]
            ]))

  -- An object whose handles are there is not initialized again.
  again :
      (asked : Asked) (a : Answers D3dValue) (s : DSound8 D3dValue)
      → asked.capture_place ≡ true
      → asked.place ≡ true
      → let fd : FullDuplex D3dValue = record { ds8 = some s; dsc = true } in
        initialize fl asked a fd ≡ some (already_initialized, fd, none)
  unfolding initialize
  again asked a s h k = ground arith

  -- A primary buffer is asked for, and both sides succeed. Then `Initialize` fails with E_NOINTERFACE
  -- and hands out no buffer, but the object keeps both handles: every later `Initialize` with places
  -- for the buffers fails with DSERR_ALREADYINITIALIZED and changes nothing.
  pub primary_stays :
      (asked : Asked) (a : Answers D3dValue) (c : DscBuffer)
      → Sounds asked a primary
      → failed (name_device asked.capture_id a.found a.text false).0 ≡ false
      → let created =
          create_capture_buffer a.capture_allocates a.capture_opens true false asked.capture_desc in
        failed created.0 ≡ false
        → created.1 ≡ some c
        → (s : DSound8 D3dValue) × (initialize fl asked a empty
            ≡ some (e_nointerface, record { ds8 = some s; dsc = true }, none))
          × ((asked' : Asked) (a' : Answers D3dValue)
              → asked'.capture_place ≡ true
              → asked'.place ≡ true
              → initialize fl asked' a' (record { ds8 = some s; dsc = true })
                ≡ some (already_initialized, record { ds8 = some s; dsc = true }, none))
  unfolding with_made hand_out drop_local release_buffer query_8 PrimaryReferences.query_interface
      PrimaryReferences.interface_of
  primary_stays asked a c v named good made =
      let s = record (v.made.object) {
        primary_buffer =
            (PrimaryReferences.release PrimaryReferences.ds v.made.object.primary_buffer).1;
      } in
      (
        s,
        initialize-made asked a primary v
            ∙ rw (v.succeeds, with_made)
                (rw (v.buffer, with_made)
                  (rw (named, with_made) (rw (good, with_made) (rw (made, with_made) refl)))),
        λ asked' a' h k. again asked' a' s h k,
      )
