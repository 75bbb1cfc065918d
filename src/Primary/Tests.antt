-- ===== src/Primary/Tests.antt =====
-- A primary buffer with an emulation, and the results of the modules below `Primary` on it.
use dsoal.Prelude.{ℕ, ◌≡◌, ◌⊎◌, refl, arith, true, some, [], ◌∷◌, pos, List}
use dsoal.Win.{ds_ok, invalid_param, level_writeprimary, WaveFormatExtensible}
use dsoal.SharedBuffer.Tests.{all_exts, stereo_16, storage, made-IsWhole}
use dsoal.Buffer.Setters.Tests.{naturals-IsFloat}
use dsoal.Buffer.Tests.{naturals, origin, device, playing, given, answers, Accounts-playing}
use dsoal.Primary.{PrimaryBuffer, ListenerParams, listener_clean}
use dsoal.Primary.Listener3d.{call, rolloff, bad_distance, bad_factor}
use dsoal.Primary.Listener3d.Limits.{IsListener, Sets, listener_call-Sets}
use dsoal.Primary.Formats.{copy_format}
use dsoal.Primary.Formats.Accepted.{IsStored, Same, copy_format_lem}
use dsoal.Primary.Emulation.Accepts.{Accepted}
use dsoal.Primary.Emulation.Held.{IsHeld}
use dsoal.Primary.Emulation.Sessions.{Operation, set_format_op, play_op, run, run-IsHeld}

abbrev listener : ListenerParams ℕ
listener = record {
  position = origin;
  velocity = origin;
  orient_front = record { x = 0; y = 0; z = 1 };
  orient_top = record { x = 0; y = 1; z = 0 };
  distance_factor = 1;
  rolloff_factor = 1;
  doppler_factor = 1;
}

abbrev pub emulated : PrimaryBuffer ℕ
emulated = record {
  total_ref = 2;
  ds_ref = 1;
  ds3d_ref = 1;
  prop_ref = 0;
  flags = 0x11;
  volume = pos 0;
  pan = pos 0;
  immediate = listener;
  deferred = listener;
  dirty = listener_clean;
  write_emu = some playing;
  format = stereo_16;
  playing = true;
}

listener-IsListener : IsListener naturals listener
unfolding bad_distance bad_factor
listener-IsListener = record { distance_good = refl; rolloff_good = refl; doppler_good = refl }

listener_call-Sets_example :
    Sets naturals emulated (call naturals all_exts (playing ∷ []) (rolloff 30) 0 emulated)
listener_call-Sets_example =
    listener_call-Sets naturals all_exts (playing ∷ []) (rolloff 30) 0 emulated
      (record { immediate = listener-IsListener; deferred = listener-IsListener })

-- 16-bit PCM of three channels at 44100 Hz
abbrev three_channels : WaveFormatExtensible
three_channels = record stereo_16 {
  format = record (stereo_16.format) { channels = 3; block_align = 6; avg_bytes_per_sec = 264600 };
}

copy_format_lem_example :
    (((copy_format three_channels stereo_16).0 ≡ ds_ok)
      × IsStored (copy_format three_channels stereo_16).1
      × Same three_channels (copy_format three_channels stereo_16).1)
    ⊎ (((copy_format three_channels stereo_16).0 ≡ invalid_param)
        × ((copy_format three_channels stereo_16).1 ≡ stereo_16))
copy_format_lem_example = copy_format_lem three_channels stereo_16 (omega arith)

stereo_16-IsStored : IsStored stereo_16
stereo_16-IsStored = ground arith

pub emulated-IsHeld : IsHeld naturals 1 1 emulated device
emulated-IsHeld = record {
  accounts = Accounts-playing;
  held = (λ h e. cc, made-IsWhole);
  stored = stereo_16-IsStored;
}

abbrev operations : List (Operation naturals)
operations =
    play_op given answers 0 1
    ∷ set_format_op given storage level_writeprimary (some three_channels)
    ∷ []

run-IsHeld_example :
    IsHeld naturals 1 1
      (run naturals operations emulated device).0
      (run naturals operations emulated device).1
run-IsHeld_example =
    run-IsHeld naturals operations emulated device 1 1 naturals-IsFloat
      (λ e. cc, ((λ e. cc, omega arith), tt)) emulated-IsHeld
