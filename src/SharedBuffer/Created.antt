-- ===== src/SharedBuffer/Created.antt =====
-- What `SharedBuffer::Create` promises of a buffer that it returns.
use dsoal.Prelude.{
  sub-mod-mod, ℕ, ◌+◌, ◌-◌, ◌*◌, ◌/◌, ◌%◌, ◌≤◌, ◌<◌, ◌≡◌, ◌≢◌, ◌⊎◌, inl, inr, refl, Option, none,
  some, arith, bit_and, false,
}
use native.Mathlib.Nat.{mod-le, mod-lt, mod-eq_of_lt}
use native.Mathlib.Decide.{dec_le}
use dsoal.Win.{
  ds_ok, frequency_min, frequency_max, dword_add, dword_sub, value, unexpected, WaveFormat,
  WaveFormatExtensible, dword_mod, invalid_param, size_min, size_max, buffer_too_small,
  wave_format_extensible,
}
use dsoal.Al.{Extensions}
use dsoal.Format.{SampleType, ChannelConfig, Converted, convert_plain}
use dsoal.Format.Frames.{
  sample_bytes, config_channels, al_frame_bytes, get_al_format_frame, IsConverted,
  convert_plain-IsConverted, convert_extensible-IsConverted,
}
use dsoal.SharedBuffer.{
  SharedBuffer, BufferDesc, Storage, rounded_size, create, convert, with_format, bad_format,
  bad_location,
}

-- Below the wrap, the rounding of the source is that of the naturals.
rounded_size_fits :
    (bytes align : ℕ)
    → 0 < align
    → bytes + align ≤ dword_mod
    → rounded_size bytes align ≡ (bytes + align - 1) - (bytes + align - 1) % align
unfolding rounded_size
rounded_size_fits bytes align ha h =
    let x = bytes + align - 1 in
    let e : dword_sub (dword_add bytes align) 1 ≡ x = omega arith in
    rw e (omega (arith, mod-le x align))

-- Past the wrap it is 0.
rounded_size_wraps :
    (bytes align : ℕ)
    → bytes < dword_mod
    → dword_mod < bytes + align
    → align < 65536
    → rounded_size bytes align ≡ 0
unfolding rounded_size
rounded_size_wraps bytes align hb h hw =
    let x = bytes + align - 1 - dword_mod in
    let e : dword_sub (dword_add bytes align) 1 ≡ x = omega arith in
    rw e (omega (arith, mod-eq_of_lt {n = x} {m = align} (omega arith)))

-- Rounding up cannot wrap into a size that passes: it gives the next multiple, or 0.
pub rounded_size_lem :
    (bytes align : ℕ)
    → bytes < dword_mod
    → 0 < align
    → align < 65536
    → (rounded_size bytes align ≡ 0)
      ⊎ ((bytes ≤ rounded_size bytes align)
          × (rounded_size bytes align < bytes + align)
          × (rounded_size bytes align % align ≡ 0))
rounded_size_lem bytes align hb ha hw = elim (dec_le (bytes + align) dword_mod) [
  | yes p ↦ inr (
      rw (rounded_size_fits bytes align ha p) (
        omega (arith, mod-lt (bytes + align - 1) ha),
        omega (arith, mod-lt (bytes + align - 1) ha),
        sub-mod-mod (bytes + align - 1) align,
      ))
  | no p ↦ inl (rounded_size_wraps bytes align hb (omega arith) hw)
]

frame_align :
    (t : SampleType) (c : ChannelConfig) (channels bits : ℕ)
    → bits ≡ 8 * sample_bytes t
    → channels ≡ config_channels c
    → channels * bits / 8 ≡ config_channels c * sample_bytes t
frame_align t c channels bits hb hc = rw (hb, hc) (frames t c)
  where
    frames :
        (t : SampleType) (c : ChannelConfig)
        → config_channels c * (8 * sample_bytes t) / 8 ≡ config_channels c * sample_bytes t
    frames t c = ground arith

-- The invariant of a shared buffer: a whole number of frames of its OpenAL format.
pub record IsWhole (b : SharedBuffer) : Type 0 where
  pub size_low : size_min ≤ b.size
  pub size_high : b.size ≤ size_max
  pub align_pos : 0 < b.wfx_format.format.block_align
  pub frame : al_frame_bytes b.al_format ≡ b.wfx_format.format.block_align
  pub whole : b.size % b.wfx_format.format.block_align ≡ 0
  pub rate_low : frequency_min ≤ b.wfx_format.format.samples_per_sec
  pub rate_high : b.wfx_format.format.samples_per_sec ≤ frequency_max

-- What the checks of `Create` leave of a description.
record Passes (desc : BufferDesc) (f : WaveFormatExtensible) : Type 0 where
  size_low : size_min ≤ rounded_size desc.buffer_bytes f.format.block_align
  size_high : rounded_size desc.buffer_bytes f.format.block_align ≤ size_max
  align_pos : 0 < f.format.block_align
  align : f.format.block_align ≡ f.format.channels * f.format.bits_per_sample / 8
  rate_low : frequency_min ≤ f.format.samples_per_sec
  rate_high : f.format.samples_per_sec ≤ frequency_max
  location : bad_location desc.flags ≡ false

checks-Passes :
    (desc : BufferDesc) (f : WaveFormatExtensible)
    → bad_format f.format ≡ false
    → bad_location desc.flags ≡ false
    → size_min ≤ rounded_size desc.buffer_bytes f.format.block_align
    → rounded_size desc.buffer_bytes f.format.block_align ≤ size_max
    → Passes desc f
unfolding bad_format
checks-Passes desc f hf hl hlow hhigh = ground arith

create-Passes :
    (st : Storage) (exts : Extensions) (desc : BufferDesc) (f : WaveFormatExtensible)
    {b : SharedBuffer}
    → create st exts desc f ≡ value b
    → Passes desc f
      × (with_format
            (rounded_size desc.buffer_bytes f.format.block_align)
            desc.flags
            exts
            st.al_buffer
            (convert f)
          ≡ value b)
unfolding create
create-Passes st exts desc f h = ground (arith, checks-Passes desc f)

convert-IsConverted :
    (f : WaveFormatExtensible) {c : Converted} → convert f ≡ some c → IsConverted f.format c
unfolding convert
convert-IsConverted f {c} h =
    ground
      (arith, convert_plain-IsConverted f.format {c = c}, convert_extensible-IsConverted f {c = c})

-- What `with_format` takes from the conversion.
record Takes (size flags : ℕ) (f : WaveFormat) (b : SharedBuffer) : Type 0 where
  same_size : b.size ≡ size
  same_flags : b.flags ≡ flags
  frame : al_frame_bytes b.al_format ≡ f.channels * f.bits_per_sample / 8
  same_align : b.wfx_format.format.block_align ≡ f.block_align
  same_rate : b.wfx_format.format.samples_per_sec ≡ f.samples_per_sec

converted-Takes :
    (size flags al_buffer : ℕ) (exts : Extensions) (f : WaveFormat) (c : Converted)
    {b : SharedBuffer}
    → IsConverted f c
    → with_format size flags exts al_buffer (some c) ≡ value b
    → Takes size flags f b
unfolding with_format
converted-Takes size flags al_buffer exts f c v h = ground (
  arith,
  get_al_format_frame c.sample_type c.channel_config exts,
  frame_align c.sample_type c.channel_config f.channels f.bits_per_sample,
)

with_format-Takes :
    (size flags al_buffer : ℕ) (exts : Extensions) (f : WaveFormatExtensible) (o : Option Converted)
    {b : SharedBuffer}
    → convert f ≡ o
    → with_format size flags exts al_buffer o ≡ value b
    → Takes size flags f.format b
unfolding with_format
with_format-Takes size flags al_buffer exts f none e h = cc
with_format-Takes size flags al_buffer exts f (some c) e h =
    converted-Takes size flags al_buffer exts f.format c (convert-IsConverted f e) h

-- Whatever description `Create` accepts, the buffer holds at least the requested bytes, rounded up by
-- less than a block, and a whole number of frames of an OpenAL format whose frame is the block
-- alignment; its size and sample rate are within DirectSound's limits, and it never asks for both
-- locations. The description's fields are a `DWORD` and a `WORD`.
pub create-IsWhole :
    (st : Storage) (exts : Extensions) (desc : BufferDesc) (f : WaveFormatExtensible)
    {b : SharedBuffer}
    → desc.buffer_bytes < dword_mod
    → f.format.block_align < 65536
    → create st exts desc f ≡ value b
    → IsWhole b
      × (desc.buffer_bytes ≤ b.size)
      × (b.size < desc.buffer_bytes + f.format.block_align)
      × (b.flags ≡ desc.flags)
      × (bit_and b.flags 0xC ≢ 0xC)
unfolding bad_location
create-IsWhole st exts desc f {b} hb hw h =
    let (ok, made) = create-Passes st exts desc f h in
    let t =
      with_format-Takes (rounded_size desc.buffer_bytes f.format.block_align) desc.flags
        st.al_buffer exts f (convert f) refl made in
    ground (arith, ok, t, rounded_size_lem desc.buffer_bytes f.format.block_align)

-- A request near 2^32 whose rounding wraps is refused: no buffer smaller than the request is made.
pub create_wraps :
    (st : Storage) (exts : Extensions) (desc : BufferDesc) (f : WaveFormatExtensible)
    → desc.buffer_bytes < dword_mod
    → dword_mod < desc.buffer_bytes + f.format.block_align
    → f.format.block_align < 65536
    → (create st exts desc f ≡ unexpected invalid_param)
      ⊎ (create st exts desc f ≡ unexpected buffer_too_small)
unfolding create
create_wraps st exts desc f hb h hw =
    ground (arith, rounded_size_wraps desc.buffer_bytes f.format.block_align hb h hw)

with_format_fails :
    (size flags al_buffer : ℕ) (exts : Extensions) (o : Option Converted)
    → with_format size flags exts al_buffer o ≢ unexpected ds_ok
unfolding with_format
with_format_fails size flags al_buffer exts none e = ground arith
with_format_fails size flags al_buffer exts (some c) e = ground arith

-- `Create` never fails with DS_OK.
pub create_fails :
    (st : Storage) (exts : Extensions) (desc : BufferDesc) (f : WaveFormatExtensible)
    → create st exts desc f ≢ unexpected ds_ok
unfolding create
create_fails st exts desc f e = ground (
  arith,
  with_format_fails (rounded_size desc.buffer_bytes f.format.block_align) desc.flags st.al_buffer
      exts (convert f),
)

-- A format that is no extensible one has at most two channels.
pub plain_channels :
    (st : Storage) (exts : Extensions) (desc : BufferDesc) (f : WaveFormatExtensible)
    {b : SharedBuffer}
    → f.format.format_tag ≢ wave_format_extensible
    → 2 < f.format.channels
    → create st exts desc f ≢ value b
unfolding convert convert_plain with_format
plain_channels st exts desc f ht hc h =
    let (ok, made) = create-Passes st exts desc f h in ground arith
