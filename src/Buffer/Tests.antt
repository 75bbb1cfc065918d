-- ===== src/Buffer/Tests.antt =====
-- A playing buffer on a device with few sources, and the results of the modules below `Buffer` on it.
-- The floating-point operations are those of the naturals.
use dsoal.Prelude.{
  ℕ, ◌-◌, ◌/◌, ◌^◌, ◌<◌, ◌≡◌, ◌↔◌, refl, arith, true, false, Bool, some, [], ◌∷◌, ◌++◌, pos,
  pos_part, ltb, leb, ◌==◌, ◌||◌, ◌&&◌, if◌then◌else◌, All,
}
use dsoal.Win.{ds_ok, PositionNotify, offset_stop}
use dsoal.Al.{Floats, al_playing, al_initial}
use dsoal.Device.{SharedDevice}
use dsoal.SharedBuffer.Tests.{made, made-IsWhole, all_exts}
use dsoal.Buffer.{Buffer, Params3d, Vector, none_any, hardware, clean}
use dsoal.Buffer.Location.{Given, set_location, same_loc, give_back}
use dsoal.Buffer.Location.Accounting.{Accounts, Located, set_location-Located}
use dsoal.Buffer.Cursor.{
  SourceView, OutPointers, Locked, get_current_position, lock, unlock, lock_at, window,
}
use dsoal.Buffer.Cursor.Window.{get_current_position_bounds, IsWindow, lock-IsWindow, lock-unlock}
use dsoal.Buffer.Playback.{PlayAnswers, play, defer_location, wanted_loc, start, start_result}
use dsoal.Notify.{signalled}
use dsoal.Notify.Sorted.{IsValid}
use dsoal.Buffer.Notify.{update_notify, passed}
use dsoal.Buffer.Notify.Crossing.{Crossed, passed_iff, update_notify-events}

abbrev pub naturals : Floats
naturals = record {
  D3dValue = ℕ;
  zero_f = 0;
  one_f = 1;
  neg = λ _. 0;
  minus = λ x y. x - y;
  divided = λ x y. x / y;
  power = λ x y. x ^ y;
  of_long = pos_part;
  nonneg = λ _. true;
  below = ltb;
  flt_min = 1;
  flt_max = 1000000;
}

abbrev pub origin : Vector ℕ
origin = record { x = 0; y = 0; z = 0 }

abbrev pub params : Params3d ℕ
params = record {
  position = origin;
  velocity = origin;
  inside_cone_angle = 360;
  outside_cone_angle = 360;
  cone_orientation = record { x = 0; y = 0; z = 1 };
  cone_outside_volume = pos 0;
  min_distance = 1;
  max_distance = 1000000000;
  mode = 0;
}

abbrev pub device : SharedDevice
device = record {
  max_hw_sources = 2;
  max_sw_sources = 4;
  current_hw_sources = 2;
  current_sw_sources = 1;
  extensions = all_exts;
  refresh = 50;
  speaker_config = 0;
}

abbrev pub notify_at : ℕ → PositionNotify
notify_at n = record { offset = n; event = n }

-- A buffer with a hardware source, which was at 900 of its 1000 bytes
abbrev pub playing : Buffer ℕ
playing = record {
  shared = made;
  source = 5;
  last_pos = 900;
  vm_priority = 0;
  locked = false;
  buffer_lost = false;
  volume = pos 0;
  pan = pos 0;
  frequency = 0;
  immediate = params;
  deferred = params;
  dirty = clean;
  loc_status = hardware;
  notifies = notify_at 100 ∷ notify_at 950 ∷ notify_at offset_stop ∷ [];
  is_8 = true;
}

abbrev pub silent : Buffer ℕ
silent = record playing { source = 0; loc_status = none_any }

abbrev pub given : Given ℕ
given = record { new_source = 9; rolloff = 1 }

abbrev pub answers : PlayAnswers
answers = record { loc_state = al_initial; state = al_initial; play_error = false }

abbrev pub wrapped_view : SourceView
wrapped_view = record { state = al_playing; offset = 120; looping = true }

abbrev all_pointers : OutPointers
all_pointers = record {
  audio_ptr1 = true;
  audio_bytes1 = true;
  audio_ptr2 = true;
  audio_bytes2 = true;
}

-- The hardware source of `playing` is one of two in use, and one software source is in use elsewhere.
pub Accounts-playing : Accounts device 1 1 hardware
Accounts-playing = ground arith

-- Both hardware sources are in use elsewhere.
pub Accounts-silent : Accounts device 2 1 none_any
Accounts-silent = ground arith

set_location-Located_example :
    Located naturals hardware silent device 2 1 (set_location naturals given hardware silent device)
set_location-Located_example =
    set_location-Located naturals given hardware silent device 2 1 (λ e. cc) (λ h. absurd (h refl))
      Accounts-silent

get_current_position_bounds_example :
    ((get_current_position 50 wrapped_view playing).0 < 1000)
    × ((get_current_position 50 wrapped_view playing).1 < 1000)
get_current_position_bounds_example =
    get_current_position_bounds 50 wrapped_view playing made-IsWhole

-- 300 bytes from 800 on
abbrev window_800 : Locked
window_800 = record { ptr1 = some 800; bytes1 = 200; ptr2 = some 0; bytes2 = 100 }

locked_800 :
    lock 50 wrapped_view all_pointers 800 300 0 playing
    ≡ (ds_ok, window_800, record playing { locked = true })
unfolding lock lock_at window
locked_800 = refl

lock-IsWindow_example :
    IsWindow 1000 300 all_pointers window_800
    × (playing.locked ≡ false)
    × (record playing { locked = true } ≡ record playing { locked = true })
lock-IsWindow_example =
    lock-IsWindow 50 wrapped_view all_pointers 800 300 0 playing made-IsWhole locked_800

lock-unlock_example :
    unlock 800 200 (some 0) 100 (record playing { locked = true }) ≡ (ds_ok, playing)
lock-unlock_example =
    lock-unlock 50 wrapped_view all_pointers 800 300 0 playing 800 made-IsWhole locked_800 refl

-- With no location asked for, `playing` starts where it is.
plays : (play naturals given answers 0 1 playing device).hr ≡ ds_ok
unfolding play defer_location wanted_loc set_location same_loc give_back start start_result
plays = refl

-- From 900 round the end to 120, the cursor leaves 100 and 950 behind.
abbrev hits : PositionNotify → Bool
hits n = leb 900 n.offset && ltb n.offset 1000 || ltb n.offset 120

hits_100 : (n : PositionNotify) → IsValid 1000 n → (hits n ≡ true) ↔ Crossed 1000 900 120 n.offset
unfolding passed
hits_100 n v =
    let (there, back) = passed_iff 1000 900 120 n (omega arith) (omega arith) (omega arith) v in
    (λ h. there (ground arith), λ c. let h = back c in ground arith)

IsValid-notifies : All (IsValid 1000) playing.notifies
IsValid-notifies = ground arith

update_notify-events_example :
    ((update_notify wrapped_view playing).events
      ≡ signalled hits playing.notifies
        ++ (if wrapped_view.state == al_playing
            then []
            else signalled (λ n. n.offset == offset_stop) playing.notifies))
    × ((update_notify wrapped_view playing).buffer ≡ record playing { last_pos = 120 })
    × (((update_notify wrapped_view playing).pending ≡ true) ↔ (wrapped_view.state ≡ al_playing))
update_notify-events_example =
    update_notify-events wrapped_view playing hits made-IsWhole (omega arith) (omega arith)
      IsValid-notifies hits_100
