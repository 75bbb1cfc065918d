-- ===== src/Primary/Formats/Accepted.antt =====
-- What `SetFormat` accepts and stores.
use dsoal.Prelude.{◌*◌, ◌/◌, ◌%◌, ◌≤◌, ◌<◌, ◌≡◌, ◌≢◌, ◌⊎◌, refl, sym, ap, ◌∙◌, arith, false}
use native.Mathlib.Nat.{mod-eq_of_lt, mul_comm}
use dsoal.Win.{
  ds_ok, invalid_param, WaveFormat, WaveFormatExtensible, wave_format_extensible, ext_extra_size,
  frequency_min, frequency_max, dword_mod,
}
use dsoal.Primary.Formats.{copy_format, copied, bad_numbers, bad_tag, bad_width}

-- A format that the primary buffer stores.
pub record IsStored (f : WaveFormatExtensible) : Type 0 where
  pub some_channels : 0 < f.format.channels
  pub rate_low : frequency_min ≤ f.format.samples_per_sec
  pub rate_high : f.format.samples_per_sec ≤ frequency_max
  pub whole_bytes : f.format.bits_per_sample % 8 ≡ 0
  pub some_bits : 0 < f.format.bits_per_sample
  pub few_bits : f.format.bits_per_sample ≤ 32
  pub frame : f.format.block_align ≡ f.format.channels * f.format.bits_per_sample / 8
  pub some_frame : 0 < f.format.block_align
  pub word : f.format.block_align < 65536
  pub byte_rate :
      f.format.avg_bytes_per_sec ≡ f.format.samples_per_sec * f.format.block_align % dword_mod
  pub size :
      ((f.format.format_tag ≡ wave_format_extensible) × (f.format.cb_size ≡ ext_extra_size))
      ⊎ ((f.format.format_tag ≢ wave_format_extensible) × (f.format.cb_size ≡ 0))

-- What `SetFormat` accepts keeps the numbers of the request.
pub record Same (f g : WaveFormatExtensible) : Type 0 where
  pub tag : g.format.format_tag ≡ f.format.format_tag
  pub channels : g.format.channels ≡ f.format.channels
  pub rate : g.format.samples_per_sec ≡ f.format.samples_per_sec
  pub bits : g.format.bits_per_sample ≡ f.format.bits_per_sample
  pub align : g.format.block_align ≡ f.format.block_align
  pub byte_rate : g.format.avg_bytes_per_sec ≡ f.format.avg_bytes_per_sec

-- What the checks on the numbers leave.
record Passes (f : WaveFormat) : Type 0 where
  some_channels : 0 < f.channels
  rate_low : frequency_min ≤ f.samples_per_sec
  rate_high : f.samples_per_sec ≤ frequency_max
  some_frame : 0 < f.block_align
  whole_bytes : f.bits_per_sample % 8 ≡ 0
  some_bits : 0 < f.bits_per_sample
  frame : f.block_align ≡ f.channels * f.bits_per_sample / 8
  byte_rate : f.avg_bytes_per_sec ≡ f.block_align * f.samples_per_sec % dword_mod

bad_numbers-Passes : (f : WaveFormat) → bad_numbers f ≡ false → Passes f
unfolding bad_numbers
bad_numbers-Passes f h = ground arith

bad_tag-bits : (f : WaveFormatExtensible) → bad_tag f ≡ false → f.format.bits_per_sample ≤ 32
unfolding bad_tag bad_width
bad_tag-bits f h = ground arith

copied-align :
    (f : WaveFormatExtensible)
    → f.format.block_align < 65536
    → Passes f.format
    → (copied f).format.block_align ≡ f.format.block_align
unfolding copied
copied-align f h v =
    rw (mul_comm f.format.bits_per_sample f.format.channels, ← v.frame) (mod-eq_of_lt h)

copied-IsStored :
    (f : WaveFormatExtensible)
    → f.format.block_align < 65536
    → bad_numbers f.format ≡ false
    → bad_tag f ≡ false
    → IsStored (copied f) × Same f (copied f)
unfolding copied
copied-IsStored f h hn ht =
    let v = bad_numbers-Passes f.format hn in
    let e = copied-align f h v in
    let c = mul_comm f.format.samples_per_sec f.format.block_align in
    (
      record {
        some_channels = v.some_channels;
        rate_low = v.rate_low;
        rate_high = v.rate_high;
        whole_bytes = v.whole_bytes;
        some_bits = v.some_bits;
        few_bits = bad_tag-bits f ht;
        frame = e ∙ v.frame;
        some_frame = rw e v.some_frame;
        word = rw e h;
        byte_rate = ap (λ n. f.format.samples_per_sec * n % dword_mod) (sym e);
        size = ground arith;
      },
      record {
        tag = refl;
        channels = refl;
        rate = refl;
        bits = refl;
        align = e;
        byte_rate = ap (λ n. n % dword_mod) c ∙ sym v.byte_rate;
      },
    )

-- `copy_format`, the checked copy inside `SetFormat`, of a format whose block alignment is a WORD: it
-- returns DS_OK and writes the numbers of the request, and they are those of a format with at least one
-- channel, a sample rate within the limits, whole bytes and at most 32 bits to a sample, and a block
-- alignment and byte rate that agree with these; or it returns DSERR_INVALIDPARAM and writes nothing.
pub copy_format_lem :
    (f dst : WaveFormatExtensible)
    → f.format.block_align < 65536
    → (((copy_format f dst).0 ≡ ds_ok)
        × IsStored (copy_format f dst).1
        × Same f (copy_format f dst).1)
      ⊎ (((copy_format f dst).0 ≡ invalid_param) × ((copy_format f dst).1 ≡ dst))
unfolding copy_format
copy_format_lem f dst h = ground (arith, copied-IsStored f h)
