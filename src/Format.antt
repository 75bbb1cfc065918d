-- ===== src/Format.antt =====
-- buffer.cpp: `ConvertFormat` and `GetALFormat`, from a DirectSound wave format to the sample type,
-- the channel configuration and the OpenAL format.
pub mod Frames
use dsoal.Prelude.{ℕ, ◌||◌, Option, none, some, ◌==◌, if◌then◌else◌}
use dsoal.Win.{
  WaveFormat, WaveFormatExtensible, SubFormat, pcm, ieee_float, other, none_set, wave_format_pcm,
  wave_format_ieee_float, ext_extra_size,
}
use dsoal.Al.{Extensions}

pub data SampleType : Type 0 where
  uint8 int16 float32 : SampleType

pub data ChannelConfig : Type 0 where
  mono stereo rear_stereo quad x51 x71 : ChannelConfig

-- What `ConvertFormat` leaves in `dst` and returns. On `std::nullopt` the caller drops `dst`.
pub record Converted : Type 0 where
  pub dst : WaveFormatExtensible
  pub sample_type : SampleType
  pub channel_config : ChannelConfig

-- The integer sample type of a width
unfoldable pub int_type : ℕ → Option SampleType
int_type bits = if bits == 8 then some uint8 else if bits == 16 then some int16 else none

unfoldable pub float_type : ℕ → Option SampleType
float_type bits = if bits == 32 then some float32 else none

unfoldable pub plain_type : WaveFormat → Option SampleType
unfolding int_type float_type
plain_type f =
    if f.format_tag == wave_format_pcm
    then int_type f.bits_per_sample
    else if f.format_tag == wave_format_ieee_float
    then float_type f.bits_per_sample
    else none

unfoldable pub plain_config : ℕ → Option ChannelConfig
plain_config channels =
    if channels == 1 then some mono else if channels == 2 then some stereo else none

unfoldable pub with_parts :
    WaveFormatExtensible → Option SampleType → Option ChannelConfig → Option Converted
with_parts dst none _ = none
with_parts dst (some t) none = none
with_parts dst (some t) (some c) = some (record { dst = dst; sample_type = t; channel_config = c })

-- `ConvertFormat` from a `WAVEFORMATEX`
unfoldable pub convert_plain : WaveFormat → Option Converted
unfolding plain_type plain_config with_parts
convert_plain src =
    let dst : WaveFormatExtensible = record {
      format = record src { cb_size = 0 };
      valid_bits_per_sample = 0;
      channel_mask = 0;
      sub_format = none_set;
    } in
    with_parts dst (plain_type src) (plain_config src.channels)

-- One case of the channel mask: the configuration, if the channel count is the mask's.
expect : ℕ → ℕ → ChannelConfig → Option ChannelConfig
expect channels n c = if channels == n then some c else none

-- The `switch` over a channel mask of 0
unmasked_config : ℕ → Option ChannelConfig
unmasked_config channels =
    if channels == 1
    then some mono
    else if channels == 2
    then some stereo
    else if channels == 4
    then some quad
    else if channels == 6
    then some x51
    else if channels == 8
    then some x71
    else none

-- KSAUDIO_SPEAKER_MONO, STEREO, SPEAKER_BACK_LEFT | SPEAKER_BACK_RIGHT, QUAD, 5POINT1_BACK,
-- 5POINT1_SURROUND and 7POINT1_SURROUND
masked_config : ℕ → ℕ → Option ChannelConfig
unfolding expect unmasked_config
masked_config mask channels =
    if mask == 0x4
    then expect channels 1 mono
    else if mask == 0x3
    then expect channels 2 stereo
    else if mask == 0x30
    then expect channels 2 rear_stereo
    else if mask == 0x33
    then expect channels 4 quad
    else if mask == 0x3F
    then expect channels 6 x51
    else if mask == 0x60F
    then expect channels 6 x51
    else if mask == 0x63F
    then expect channels 8 x71
    else if mask == 0
    then unmasked_config channels
    else none

extensible_type : SubFormat → ℕ → Option SampleType
unfolding int_type float_type
extensible_type pcm bits = int_type bits
extensible_type ieee_float bits = float_type bits
extensible_type none_set bits = none
extensible_type (other g) bits = none

-- `ConvertFormat` from a `WAVEFORMATEXTENSIBLE`
unfoldable pub convert_extensible : WaveFormatExtensible → Option Converted
unfolding extensible_type masked_config with_parts
convert_extensible src =
    let bits = src.format.bits_per_sample in
    let valid = src.valid_bits_per_sample in
    let dst : WaveFormatExtensible = record src {
      format = record (src.format) { cb_size = ext_extra_size };
      valid_bits_per_sample = bits;
    } in
    if (valid == 0) || (valid == bits)
    then with_parts dst (extensible_type src.sub_format bits)
        (masked_config src.channel_mask src.format.channels)
    else none

-- A multichannel format, if AL_EXT_MCFORMATS is there; AL_NONE is 0.
mc_format : Extensions → ℕ → ℕ
mc_format exts al_format = if exts.ext_mcformats then al_format else 0

float_format : Extensions → ChannelConfig → ℕ
unfolding mc_format
float_format exts mono = 0x10010
float_format exts stereo = 0x10011
float_format exts rear_stereo = mc_format exts 0x1209
float_format exts quad = mc_format exts 0x1206
float_format exts x51 = mc_format exts 0x120C
float_format exts x71 = mc_format exts 0x1212

-- `GetALFormat`: an AL_FORMAT_* value, or AL_NONE
unfoldable pub get_al_format : SampleType → ChannelConfig → Extensions → ℕ
unfolding mc_format float_format
get_al_format uint8 mono exts = 0x1100
get_al_format uint8 stereo exts = 0x1102
get_al_format uint8 rear_stereo exts = mc_format exts 0x1207
get_al_format uint8 quad exts = mc_format exts 0x1204
get_al_format uint8 x51 exts = mc_format exts 0x120A
get_al_format uint8 x71 exts = mc_format exts 0x1210
get_al_format int16 mono exts = 0x1101
get_al_format int16 stereo exts = 0x1103
get_al_format int16 rear_stereo exts = mc_format exts 0x1208
get_al_format int16 quad exts = mc_format exts 0x1205
get_al_format int16 x51 exts = mc_format exts 0x120B
get_al_format int16 x71 exts = mc_format exts 0x1211
get_al_format float32 c exts = if exts.ext_float32 then float_format exts c else 0
