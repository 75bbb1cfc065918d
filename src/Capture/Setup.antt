-- ===== src/Capture/Setup.antt =====
-- capture.cpp: the state and the `Initialize` of `DSCBuffer`.
pub mod Ready
pub mod Again
pub mod Sessions
pub mod Tests
use dsoal.Prelude.{
  ℕ, ◌+◌, ◌*◌, ◌/◌, ◌%◌, Bool, true, false, not, ◌&&◌, ◌||◌, Option, none, some, [], ltb, ◌==◌,
  if◌then◌else◌,
}
use dsoal.Win.{
  Hresult, ds_ok, invalid_param, control_unavail, bad_format, out_of_memory, already_initialized,
  Expected, value, unexpected, WaveFormat, WaveFormatExtensible, SubFormat, pcm, other, none_set,
  ieee_float, wave_format_pcm, wave_format_extensible, ext_extra_size, sizeof_format,
  sizeof_extensible, frequency_min, frequency_max, dword_mod,
}
use dsoal.Primary.Formats.{FormatAnswer}
use dsoal.Capture.{Capture}

-- `DSCBUFFERDESC`, where `format` is what `lpwfxFormat` points to
pub record CaptureDesc : Type 0 where
  pub buffer_bytes : ℕ
  pub fx_count : ℕ
  pub format : Option WaveFormatExtensible

-- `DSCBuffer`: whether it has a device (`mDevice`), `mWaveFmt`, and what its thread and its cursors
-- use, with the fields of `mWaveFmt` that they read.
pub record DscBuffer : Type 0 where
  pub device : Bool
  pub wave_fmt : WaveFormatExtensible
  pub ring : Capture

-- The arguments of `alcCaptureOpenDevice`
pub record OpenCall : Type 0 where
  pub frequency : ℕ
  pub al_format : ℕ
  pub frames : ℕ

-- A new buffer
unfoldable pub construct : DscBuffer
construct = record {
  device = false;
  wave_fmt = record {
    format = record {
      format_tag = 0;
      channels = 0;
      samples_per_sec = 0;
      avg_bytes_per_sec = 0;
      block_align = 0;
      bits_per_sample = 0;
      cb_size = 0;
    };
    valid_bits_per_sample = 0;
    channel_mask = 0;
    sub_format = none_set;
  };
  ring = record {
    size = 0;
    block_align = 0;
    samples_per_sec = 0;
    write_pos = 0;
    capturing = false;
    locked = false;
    notifies = [];
  };
}

-- The check of an extensible format's size
unfoldable pub bad_size : WaveFormat → Option Hresult
bad_size f =
    if not (f.format_tag == wave_format_extensible)
    then none
    else if ltb f.cb_size ext_extra_size
    then some invalid_param
    else if ltb ext_extra_size f.cb_size && not (f.cb_size == sizeof_extensible)
    then some control_unavail
    else none

-- The checks of the numbers; the product of two `DWORD`s wraps.
unfoldable pub bad_numbers : WaveFormat → Bool
bad_numbers f =
    ltb f.channels 1
    || ltb 2 f.channels
    || f.bits_per_sample == 0
    || not (f.bits_per_sample % 8 == 0)
    || not (f.block_align == f.channels * f.bits_per_sample / 8)
    || ltb f.samples_per_sec frequency_min
    || ltb frequency_max f.samples_per_sec
    || not (f.avg_bytes_per_sec == f.samples_per_sec * f.block_align % dword_mod)

-- AL_FORMAT_MONO8, AL_FORMAT_MONO16, AL_FORMAT_STEREO8 and AL_FORMAT_STEREO16, by the channels and the
-- width
unfoldable pub al_format_of : ℕ → ℕ → Option ℕ
al_format_of channels bits =
    if channels == 1
    then if bits == 8 then some 0x1100 else if bits == 16 then some 0x1101 else none
    else if channels == 2
    then if bits == 8 then some 0x1102 else if bits == 16 then some 0x1103 else none
    else none

-- SPEAKER_FRONT_CENTER for one channel, SPEAKER_FRONT_LEFT|SPEAKER_FRONT_RIGHT for two
unfoldable pub has_mask : ℕ → ℕ → Bool
has_mask channels mask = (channels == 1 && mask == 4) || (channels == 2 && mask == 3)

unfoldable pub is_pcm : SubFormat → Bool
is_pcm pcm = true
is_pcm none_set = false
is_pcm ieee_float = false
is_pcm (other n) = false

-- What is stored of a format with a plain tag, and of an extensible one
unfoldable pub stored_plain : WaveFormatExtensible → WaveFormatExtensible
stored_plain f = record {
  format = record (f.format) { cb_size = 0 };
  valid_bits_per_sample = 0;
  channel_mask = 0;
  sub_format = none_set;
}

unfoldable pub stored_extended : WaveFormatExtensible → WaveFormatExtensible
stored_extended f = record f {
  format = record (f.format) { cb_size = ext_extra_size };
  valid_bits_per_sample = f.format.bits_per_sample;
}

-- A format that is stored, with its OpenAL format
unfoldable pub stored_as : WaveFormatExtensible → Option ℕ → Expected (WaveFormatExtensible × ℕ)
stored_as g none = unexpected bad_format
stored_as g (some al) = value (g, al)

-- The format to store and the OpenAL format
unfoldable pub capture_format : WaveFormatExtensible → Expected (WaveFormatExtensible × ℕ)
capture_format f =
    let al = al_format_of f.format.channels f.format.bits_per_sample in
    if f.format.format_tag == wave_format_pcm
    then stored_as (stored_plain f) al
    else if f.format.format_tag == wave_format_extensible
    then if not (is_pcm f.sub_format)
      then unexpected bad_format
      else if not (f.valid_bits_per_sample == 0)
          && not (f.valid_bits_per_sample == f.format.bits_per_sample)
      then unexpected bad_format
      else if has_mask f.format.channels f.channel_mask
      then stored_as (stored_extended f) al
      else unexpected bad_format
    else unexpected bad_format

-- `mWaveFmt` is set.
abbrev pub with_format : WaveFormatExtensible → DscBuffer → DscBuffer
with_format f b = record b {
  wave_fmt = f;
  ring = record (b.ring) {
    block_align = f.format.block_align;
    samples_per_sec = f.format.samples_per_sec;
  };
}

-- std::numeric_limits<ALCsizei>::max()
abbrev pub sizei_max : ℕ
sizei_max = 2147483647

abbrev pub with_size : ℕ → DscBuffer → DscBuffer
with_size bytes b = record b { ring = record (b.ring) { size = bytes } }

-- The storage and the device, of a buffer that has its format: whether the storage can be allocated and
-- the device opened is said by the flags.
unfoldable pub open_storage :
    Bool → Bool → ℕ → ℕ → DscBuffer → Hresult × DscBuffer × Option OpenCall
open_storage allocates opens bytes al b =
    let align = b.wave_fmt.format.block_align in
    let call : OpenCall = record {
      frequency = b.wave_fmt.format.samples_per_sec;
      al_format = al;
      frames = bytes / align;
    } in
    if ltb bytes align || ltb sizei_max bytes || not (bytes % align == 0)
    then (invalid_param, b, none)
    else if not allocates
    then (out_of_memory, b, none)
    else if opens
    then (ds_ok, record (with_size bytes b) { device = true }, some call)
    else (invalid_param, with_size bytes b, some call)

-- `Initialize` from the choice of the format on
unfoldable pub with_stored :
    Bool
    → Bool
    → ℕ
    → Expected (WaveFormatExtensible × ℕ)
    → DscBuffer
    → Hresult × DscBuffer × Option OpenCall
with_stored allocates opens bytes (unexpected hr) b = (hr, b, none)
with_stored allocates opens bytes (value (g, al)) b =
    open_storage allocates opens bytes al (with_format g b)

-- `Initialize` with the format of a request
unfoldable pub with_request :
    Bool → Bool → ℕ → WaveFormatExtensible → DscBuffer → Hresult × DscBuffer × Option OpenCall
with_request allocates opens bytes f b = elim (bad_size f.format) [
  | some hr ↦ (hr, b, none)
  | none ↦
      if bad_numbers f.format
      then (invalid_param, b, none)
      else with_stored allocates opens bytes (capture_format f) b
]

-- `Initialize`: the result, the buffer, and the call that opens the device, if one is made
unfoldable pub initialize :
    Bool → Bool → CaptureDesc → DscBuffer → Hresult × DscBuffer × Option OpenCall
initialize allocates opens desc b =
    if b.device
    then (already_initialized, b, none)
    else if not (desc.fx_count == 0)
    then (invalid_param, b, none)
    else elim desc.format [
      | none ↦ (invalid_param, b, none)
      | some f ↦ with_request allocates opens desc.buffer_bytes f b
    ]
