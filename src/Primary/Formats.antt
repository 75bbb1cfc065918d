-- ===== src/Primary/Formats.antt =====
-- primarybuffer.cpp: `GetFormat` and the check of `SetFormat`, which copies a format.
pub mod Accepted
use dsoal.Prelude.{
  ℕ, ◌+◌, ◌*◌, ◌/◌, ◌%◌, Bool, true, not, ◌&&◌, ◌||◌, ltb, ◌==◌, if◌then◌else◌, Option, none, some,
}
use dsoal.Win.{
  Hresult, ds_ok, invalid_param, WaveFormat, WaveFormatExtensible, SubFormat, pcm, ieee_float,
  none_set, other, wave_format_pcm, wave_format_ieee_float, wave_format_extensible, ext_extra_size,
  sizeof_format, frequency_min, frequency_max, dword_mod,
}
use dsoal.Primary.{PrimaryBuffer}

-- The checks of `copy_format` on the numbers, in their order; `true` if one fails. A product of two
-- `WORD`s is computed as an `int`; where it would overflow, its quotient is no `WORD`.
bad_numbers : WaveFormat → Bool
bad_numbers f =
    (f.channels == 0)
    || (ltb f.samples_per_sec frequency_min || ltb frequency_max f.samples_per_sec)
    || (f.block_align == 0)
    || ((f.bits_per_sample == 0) || not (f.bits_per_sample % 8 == 0))
    || not (f.block_align == f.channels * f.bits_per_sample / 8)
    || not (f.avg_bytes_per_sec == f.block_align * f.samples_per_sec % dword_mod)

-- The check on the width of a sample that a subformat asks for; `true` if it fails
bad_width : SubFormat → ℕ → Bool
bad_width pcm bits = ltb 32 bits
bad_width ieee_float bits = not (bits == 32)
bad_width none_set bits = true
bad_width (other g) bits = true

-- The checks on the tag and what goes with it; `true` if one fails
bad_tag : WaveFormatExtensible → Bool
unfolding bad_width
bad_tag f =
    if f.format.format_tag == wave_format_pcm
    then bad_width pcm f.format.bits_per_sample
    else if f.format.format_tag == wave_format_ieee_float
    then bad_width ieee_float f.format.bits_per_sample
    else if f.format.format_tag == wave_format_extensible
    then ltb f.format.bits_per_sample f.valid_bits_per_sample
      || bad_width f.sub_format f.format.bits_per_sample
    else true

-- What `copy_format` writes to `dst` once the checks have passed
copied : WaveFormatExtensible → WaveFormatExtensible
copied f =
    let extended = f.format.format_tag == wave_format_extensible in
    let bits = f.format.bits_per_sample in
    record {
      format = record {
        format_tag = f.format.format_tag;
        channels = f.format.channels;
        samples_per_sec = f.format.samples_per_sec;
        avg_bytes_per_sec = f.format.samples_per_sec * f.format.block_align % dword_mod;
        block_align = bits * f.format.channels / 8 % 65536;
        bits_per_sample = bits;
        cb_size = if extended then ext_extra_size else 0;
      };
      valid_bits_per_sample =
          if extended
          then if f.valid_bits_per_sample == 0 then bits else f.valid_bits_per_sample
          else 0;
      channel_mask = if extended then f.channel_mask else 0;
      sub_format = if extended then f.sub_format else none_set;
    }

-- `copy_format`: its result, and `dst` after it
unfoldable pub copy_format :
    WaveFormatExtensible → WaveFormatExtensible → Hresult × WaveFormatExtensible
unfolding bad_numbers bad_tag copied
copy_format f dst =
    if bad_numbers f.format || bad_tag f then (invalid_param, dst) else (ds_ok, copied f)

-- What `GetFormat` writes: the result, the size if there is a place for it, and the format if there is
-- one.
pub record FormatAnswer : Type 0 where
  pub hr : Hresult
  pub size_written : Option ℕ
  pub written : Option WaveFormatExtensible

-- `GetFormat`, of the stored format; the two flags say which pointers are given.
pub get_format : Bool → ℕ → Bool → WaveFormatExtensible → FormatAnswer
get_format wfx size_allocated size_written f =
    let size = sizeof_format + f.format.cb_size in
    let reported : Option ℕ = if size_written then some size else none in
    if not wfx && not size_written
    then record { hr = invalid_param; size_written = none; written = none }
    else if wfx && ltb size_allocated size
    then record { hr = invalid_param; size_written = reported; written = none }
    else record { hr = ds_ok; size_written = reported; written = if wfx then some f else none }
