-- ===== src/SharedBuffer/Tests.antt =====
-- A concrete buffer of 16-bit stereo samples, and the results of `SharedBuffer.Created` on it.
use dsoal.Prelude.{none, ◌+◌, ◌<◌, ◌≤◌, ◌≡◌, ◌≢◌, refl, arith, true, bit_and}
use dsoal.Win.{WaveFormatExtensible, none_set, value}
use dsoal.Al.{Extensions}
use dsoal.Format.{convert_plain, get_al_format}
use dsoal.SharedBuffer.{
  bad_format, bad_location, rounded_size, convert, with_format, SharedBuffer, BufferDesc, Storage,
  create, mode_default,
}
use dsoal.SharedBuffer.Created.{IsWhole, create-IsWhole}

abbrev pub all_exts : Extensions
all_exts = record {
  ext_eax = true;
  ext_efx = true;
  ext_float32 = true;
  ext_mcformats = true;
  ext_static_buffer = true;
  soft_source_panning = true;
  soft_source_spatialize = true;
}

-- 16-bit stereo PCM at 44100 Hz
abbrev pub stereo_16 : WaveFormatExtensible
stereo_16 = record {
  format = record {
    format_tag = 1;
    channels = 2;
    samples_per_sec = 44100;
    avg_bytes_per_sec = 176400;
    block_align = 4;
    bits_per_sample = 16;
    cb_size = 0;
  };
  valid_bits_per_sample = 0;
  channel_mask = 0;
  sub_format = none_set;
}

abbrev pub storage : Storage
storage = record { allocates = true; al_buffer = 7 }

-- A request that is no whole number of blocks, for a buffer with notifications and deferred voices
abbrev pub odd_request : BufferDesc
odd_request = record { flags = 0x40180; buffer_bytes = 997; format = none }

abbrev huge_request : BufferDesc
huge_request = record { flags = 0; buffer_bytes = 4294967295; format = none }

-- The buffer that the request gives, of 250 blocks
abbrev pub made : SharedBuffer
made = record {
  size = 1000;
  silence = 0;
  flags = 0x40180;
  wfx_format = stereo_16;
  al_format = 0x1103;
  al_buffer = 7;
  voice_mode = mode_default;
}

create-made : create storage all_exts odd_request stereo_16 ≡ value made
unfolding create bad_format bad_location rounded_size convert with_format convert_plain
    get_al_format
create-made = refl

pub made-IsWhole : IsWhole made
made-IsWhole =
    (create-IsWhole storage all_exts odd_request stereo_16 (omega arith) (omega arith)
      create-made).0

create-IsWhole_example :
    IsWhole made
    × (997 ≤ 1000)
    × (1000 < 997 + 4)
    × (made.flags ≡ odd_request.flags)
    × (bit_and made.flags 0xC ≢ 0xC)
create-IsWhole_example =
    create-IsWhole storage all_exts odd_request stereo_16 (omega arith) (omega arith) create-made
