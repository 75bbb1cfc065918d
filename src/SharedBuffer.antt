-- ===== src/SharedBuffer.antt =====
-- buffer.cpp and buffer.h: `SharedBuffer`, the sample storage that duplicated buffers share, and
-- `SharedBuffer::Create`, which validates a buffer description.
pub mod Created
pub mod Tests
use dsoal.Prelude.{
  ℕ, ◌*◌, ◌/◌, ◌%◌, ◌≡◌, Bool, not, ◌&&◌, ◌||◌, Option, none, some, List, [], ◌∷◌, ltb, leb, ◌==◌,
  if◌then◌else◌, bit_and,
}
use dsoal.Win.{
  WaveFormat, WaveFormatExtensible, Expected, value, unexpected, invalid_param, buffer_too_small,
  out_of_memory, dword_add, dword_sub, caps_locsoftware, caps_lochardware, size_min, size_max,
  frequency_min, frequency_max, wave_format_extensible, ext_extra_size,
}
use dsoal.Al.{Extensions, Floats, AlCall, gen_buffers, buffer_data_static}
use dsoal.Format.{
  SampleType, uint8, int16, float32, Converted, convert_plain, convert_extensible, get_al_format,
}

-- `enum VmMode`
pub data VmMode : Type 0 where
  mode_default mode_auto mode_report mode_user : VmMode

-- `SharedBuffer`. The driver never reads the samples, so of `mData` the size and the value that the
-- bytes start with are kept; its reference count is the client's of this record.
pub record SharedBuffer : Type 0 where
  pub size : ℕ
  pub silence : ℕ
  pub flags : ℕ
  pub wfx_format : WaveFormatExtensible
  pub al_format : ℕ
  pub al_buffer : ℕ
  pub voice_mode : VmMode

-- `DSBUFFERDESC`, copied by `CreateSoundBuffer`; no format is a null `lpwfxFormat`.
pub record BufferDesc : Type 0 where
  pub flags : ℕ
  pub buffer_bytes : ℕ
  pub format : Option WaveFormatExtensible

-- What `Create` gets from outside: whether the storage can be allocated, and the new AL buffer.
pub record Storage : Type 0 where
  pub allocates : Bool
  pub al_buffer : ℕ

-- The checks on the format, in their order; `true` if one fails. `nChannels*wBitsPerSample` is
-- computed as an `int`: where it would overflow, the quotient is no `WORD` in any reading, so the
-- comparison fails.
unfoldable pub bad_format : WaveFormat → Bool
bad_format f =
    (f.channels == 0)
    || (ltb f.samples_per_sec frequency_min || ltb frequency_max f.samples_per_sec)
    || (f.block_align == 0)
    || ((f.bits_per_sample == 0) || not (f.bits_per_sample % 8 == 0))
    || not (f.block_align == f.channels * f.bits_per_sample / 8)
    || (f.avg_bytes_per_sec == 0)

-- Both location flags at once
unfoldable pub bad_location : ℕ → Bool
bad_location flags = bit_and flags 0xC == 0xC

-- The buffer size, rounded up to the next block alignment in `DWORD` arithmetic
unfoldable pub rounded_size : ℕ → ℕ → ℕ
rounded_size bytes align =
    let buf_size = dword_sub (dword_add bytes align) 1 in dword_sub buf_size (buf_size % align)

-- The choice between the two overloads of `ConvertFormat`
unfoldable pub convert : WaveFormatExtensible → Option Converted
convert f =
    if f.format.format_tag == wave_format_extensible
    then if ltb f.format.cb_size ext_extra_size then none else convert_extensible f
    else convert_plain f.format

-- `char{-128}` for unsigned bytes, 0 otherwise
unfoldable pub silence_of : SampleType → ℕ
silence_of uint8 = 0x80
silence_of int16 = 0
silence_of float32 = 0

unfoldable pub with_format : ℕ → ℕ → Extensions → ℕ → Option Converted → Expected SharedBuffer
unfolding silence_of
with_format size flags exts al_buffer none = unexpected invalid_param
with_format size flags exts al_buffer (some c) =
    let al_format = get_al_format c.sample_type c.channel_config exts in
    if al_format == 0
    then unexpected invalid_param
    else value (record {
      size = size;
      silence = silence_of c.sample_type;
      flags = flags;
      wfx_format = c.dst;
      al_format = al_format;
      al_buffer = al_buffer;
      voice_mode = mode_default;
    })

-- `SharedBuffer::Create`, for a description with a format
unfoldable pub create :
    Storage → Extensions → BufferDesc → WaveFormatExtensible → Expected SharedBuffer
create st exts desc f =
    let size = rounded_size desc.buffer_bytes f.format.block_align in
    if bad_format f.format
    then unexpected invalid_param
    else if bad_location desc.flags
    then unexpected invalid_param
    else if ltb size size_min
    then unexpected buffer_too_small
    else if ltb size_max size
    then unexpected invalid_param
    else if not st.allocates
    then unexpected out_of_memory
    else with_format size desc.flags exts st.al_buffer (convert f)

-- The calls that `Create` makes for the buffer it returns.
pub create_calls : (fl : Floats) → SharedBuffer → List (AlCall fl.D3dValue)
create_calls fl b =
    gen_buffers b.al_buffer
    ∷ buffer_data_static b.al_buffer b.al_format b.size b.wfx_format.format.samples_per_sec
    ∷ []
