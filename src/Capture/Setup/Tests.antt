-- ===== src/Capture/Setup/Tests.antt =====
-- A capture buffer of 100 frames of 16-bit stereo, and calls on it.
use dsoal.Prelude.{◌≡◌, refl, arith, true, false, some, []}
use dsoal.Win.{WaveFormatExtensible, ds_ok, wave_format_extensible, pcm}
use dsoal.Capture.{start}
use dsoal.Capture.Queries.{get_format}
use dsoal.Capture.Setup.{
  CaptureDesc, DscBuffer, OpenCall, construct, initialize, with_request, with_stored, open_storage,
  bad_size, bad_numbers, capture_format, stored_as, stored_extended, al_format_of, has_mask, is_pcm,
}
use dsoal.Capture.Setup.Ready.{Opens, IsReady, initialize-Opens}
use dsoal.Capture.Setup.Again.{request_of, get_format-initialize}
use dsoal.Capture.Setup.Sessions.{Operation, Reach, start_call, Permitted, perform, Reach-Goes}

-- 16-bit stereo, as an extensible format that leaves the valid bits open
abbrev asked : WaveFormatExtensible
asked = record {
  format = record {
    format_tag = wave_format_extensible;
    channels = 2;
    samples_per_sec = 44100;
    avg_bytes_per_sec = 176400;
    block_align = 4;
    bits_per_sample = 16;
    cb_size = 22;
  };
  valid_bits_per_sample = 0;
  channel_mask = 3;
  sub_format = pcm;
}

abbrev pub desc : CaptureDesc
desc = request_of 400 (some asked)

abbrev pub ready : DscBuffer
ready = record {
  device = true;
  wave_fmt = record asked { valid_bits_per_sample = 16 };
  ring = record {
    size = 400;
    block_align = 4;
    samples_per_sec = 44100;
    write_pos = 0;
    capturing = false;
    locked = false;
    notifies = [];
  };
}

abbrev call : OpenCall
call = record { frequency = 44100; al_format = 0x1103; frames = 100 }

pub initializes : initialize true true desc construct ≡ (ds_ok, ready, some call)
unfolding initialize with_request with_stored open_storage bad_size bad_numbers capture_format
    stored_as stored_extended al_format_of has_mask is_pcm construct
initializes = refl

initialize-Opens_example : Opens 400 ready (some call)
initialize-Opens_example = initialize-Opens true true desc initializes

get_format-initialize_example :
    ((get_format true 40 true ready).hr ≡ ds_ok)
    × (initialize true true (request_of 400 (get_format true 40 true ready).written) construct
        ≡ (ds_ok, ready, some call))
get_format-initialize_example = get_format-initialize true true desc 40 initializes (omega arith)

-- The buffer after a looping `Start`
abbrev capturing : DscBuffer
capturing = record ready { ring = record (ready.ring) { capturing = true } }

starts : perform (start_call 1) ready ≡ some capturing
unfolding perform start
starts = refl

capturing-Reach : Reach capturing
capturing-Reach = Reach.later (start_call 1) (Reach.opened true true desc initializes) tt starts

Reach-Goes_example :
    IsReady capturing
    × ((op : Operation)
        → Permitted op capturing
        → (c : DscBuffer) × (perform op capturing ≡ some c) × Reach c)
Reach-Goes_example = Reach-Goes capturing-Reach
