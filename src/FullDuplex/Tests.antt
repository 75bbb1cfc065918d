-- ===== src/FullDuplex/Tests.antt =====
-- A full duplex object on the device of `Device.Tests`.
use dsoal.Prelude.{ℕ, ◌≡◌, inl, refl, sym, arith, true, false, Option, none, some, []}
use dsoal.Win.{Hresult, ds_ok, e_fail, no_driver, e_nointerface, already_initialized, value}
use dsoal.Format.{get_al_format, convert_plain}
use dsoal.Pool.{create_secondary_buffer, countr_zero, buffer_at, slot_of}
use dsoal.Buffer.Setters.Tests.{naturals-IsFloat}
use dsoal.SharedBuffer
use dsoal.Buffer.Location.{set_location, take_loc}
use dsoal.Device.Tests
use dsoal.Buffer.Setup
use dsoal.Buffer.Tests.{naturals, given, wrapped_view}
use dsoal.SharedBuffer.Tests.{storage}
use dsoal.Capture.Setup.Tests as CaptureTests
use dsoal.DSound8.{DSound8}
use dsoal.DSound8.Trials.{opened, outside, request}
use dsoal.DSound8.Level.{set_cooperative_level}
use dsoal.DSound8.Creation.{
  Made, primary, secondary, create_sound_buffer, create_buffer, buffers_of, create_primary,
}
use dsoal.DSound8.Opening.{open_object}
use dsoal.Buffer.References
use dsoal.Primary
use dsoal.Primary.Emulation
use dsoal.Primary.References as PrimaryReferences
use dsoal.Capture.Setup as CaptureSetup
use dsoal.Capture.Object.{other_device, name_device, create_capture_buffer, initialized}
use dsoal.FullDuplex.{
  FullDuplex, Step, Asked, Answers, empty, initialize, with_object, with_made, hand_out, query_8,
}
use dsoal.FullDuplex.Sessions.{Pairs, initialize-Pairs}
use dsoal.FullDuplex.Failures.{Sounds, initialize_dangles, primary_stays}

-- A request for a primary buffer at DSSCL_PRIORITY, and one for a secondary buffer
abbrev asked_primary : Asked
asked_primary = record {
  level = 2;
  desc = some (record { flags = 1; buffer_bytes = 0; format = none });
  capture_id = other_device;
  capture_desc = some CaptureTests.desc;
  capture_place = true;
  place = true;
}

abbrev asked_secondary : Asked
asked_secondary = record asked_primary { desc = some request }

abbrev answers : Answers ℕ
answers = record {
  share = value Tests.share;
  allocates = λ _. true;
  level_given = given;
  level_storage = storage;
  views = λ _. wrapped_view;
  outside = outside true;
  found = ds_ok;
  text = true;
  capture_allocates = true;
  capture_opens = true;
}

-- A capture side that finds no device
abbrev no_capture : Answers ℕ
no_capture = record answers { found = no_driver }

abbrev levelled : DSound8 ℕ
levelled = (set_cooperative_level naturals given storage (λ _. wrapped_view) 2 opened).1

-- What a creation makes, or the failure that it is not
abbrev made_of : Option (Made ℕ) → Made ℕ
made_of none = record { hr = e_fail; object = opened; calls = []; made = none }
made_of (some m) = m

abbrev primary_made : Made ℕ
primary_made =
    made_of (create_sound_buffer naturals (outside true) true false asked_primary.desc levelled)

primary_Sounds :
    (found : Hresult) → Sounds naturals asked_primary (record answers { found = found }) primary
unfolding set_cooperative_level create_sound_buffer buffers_of open_object create_primary
    PrimaryReferences.add_ref Primary.construct Emulation.initialize Emulation.is_there
primary_Sounds found = record {
  capture_placed = refl;
  placed = refl;
  start = opened;
  opens = refl;
  levels = refl;
  made = primary_made;
  creates = refl;
  succeeds = refl;
  buffer = refl;
}

initialize_dangles_example : initialize naturals asked_primary no_capture empty ≡ none
unfolding name_device
initialize_dangles_example =
    initialize_dangles naturals asked_primary no_capture primary (primary_Sounds no_driver)
      (inl refl)

primary_stays_example :
    (s : DSound8 ℕ) × (initialize naturals asked_primary answers empty
      ≡ some (e_nointerface, record { ds8 = some s; dsc = true }, none))
    × ((asked' : Asked) (a' : Answers ℕ)
        → asked'.capture_place ≡ true
        → asked'.place ≡ true
        → initialize naturals asked' a' (record { ds8 = some s; dsc = true })
          ≡ some (already_initialized, record { ds8 = some s; dsc = true }, none))
unfolding name_device create_capture_buffer initialized CaptureSetup.initialize
    CaptureSetup.construct CaptureSetup.with_request CaptureSetup.with_stored
    CaptureSetup.open_storage CaptureSetup.bad_size CaptureSetup.bad_numbers
    CaptureSetup.capture_format CaptureSetup.stored_as CaptureSetup.stored_extended
    CaptureSetup.al_format_of CaptureSetup.has_mask CaptureSetup.is_pcm
primary_stays_example =
    primary_stays naturals asked_primary answers CaptureTests.ready (primary_Sounds ds_ok) refl refl
      refl

-- The result of `Initialize` for the secondary buffer
abbrev held : Option (Step ℕ) → FullDuplex ℕ
held (some (hr, fd, b)) = fd
held none = empty

abbrev paired : FullDuplex ℕ
paired = held (initialize naturals asked_secondary answers empty)

pairs :
    initialize naturals asked_secondary answers empty
    ≡ some (ds_ok, paired, some (secondary (record { group = 0; slot = 0 }), CaptureTests.ready))
unfolding set_cooperative_level create_sound_buffer create_buffer Setup.initialize Setup.construct
    Setup.describe Setup.store Setup.finish Setup.with_storage Setup.first_location
    SharedBuffer.create SharedBuffer.with_format get_al_format set_location take_loc
    SharedBuffer.bad_format SharedBuffer.bad_location SharedBuffer.rounded_size SharedBuffer.convert
    convert_plain create_secondary_buffer countr_zero initialize open_object name_device
    create_capture_buffer initialized CaptureSetup.initialize CaptureSetup.construct
    CaptureSetup.with_request CaptureSetup.with_stored CaptureSetup.open_storage
    CaptureSetup.bad_size CaptureSetup.bad_numbers CaptureSetup.capture_format
    CaptureSetup.stored_as CaptureSetup.stored_extended CaptureSetup.al_format_of
    CaptureSetup.has_mask CaptureSetup.is_pcm with_object with_made hand_out query_8 buffer_at
    slot_of References.query_interface References.interface_of
pairs = refl

initialize-Pairs_example :
    Pairs naturals asked_secondary answers paired
      (secondary (record { group = 0; slot = 0 }))
      CaptureTests.ready
initialize-Pairs_example =
    initialize-Pairs naturals asked_secondary answers Tests.answers naturals-IsFloat (omega arith)
      (omega arith) (sym Tests.opened) (λ e. cc) (λ e. cc) refl (omega arith, omega arith) pairs
