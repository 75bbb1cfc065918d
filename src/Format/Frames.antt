-- ===== src/Format/Frames.antt =====
-- What the accepted formats hold: a frame of the chosen OpenAL format has the bytes that the wave
-- format's channels and sample width make up.
use dsoal.Prelude.{ℕ, ◌*◌, ◌≡◌, ◌≢◌, some, arith, ◌==◌, if◌then◌else◌}
use dsoal.Win.{WaveFormat, WaveFormatExtensible}
use dsoal.Al.{Extensions}
use dsoal.Format.{
  SampleType, uint8, int16, float32, ChannelConfig, mono, stereo, rear_stereo, quad, x51, x71,
  Converted, convert_plain, convert_extensible, get_al_format, masked_config,
}

-- The bytes of a sample and the channels of a configuration.
abbrev pub sample_bytes : SampleType → ℕ
sample_bytes uint8 = 1
sample_bytes int16 = 2
sample_bytes float32 = 4

abbrev pub config_channels : ChannelConfig → ℕ
config_channels mono = 1
config_channels stereo = 2
config_channels rear_stereo = 2
config_channels quad = 4
config_channels x51 = 6
config_channels x71 = 8

-- The bytes of one frame of an AL_FORMAT_* value, as OpenAL defines these formats.
unfoldable pub al_frame_bytes : ℕ → ℕ
al_frame_bytes f =
    if f == 0x1100
    then 1
    else if f == 0x1101
    then 2
    else if f == 0x1102
    then 2
    else if f == 0x1103
    then 4
    else if f == 0x10010
    then 4
    else if f == 0x10011
    then 8
    else if f == 0x1207
    then 2
    else if f == 0x1208
    then 4
    else if f == 0x1209
    then 8
    else if f == 0x1204
    then 4
    else if f == 0x1205
    then 8
    else if f == 0x1206
    then 16
    else if f == 0x120A
    then 6
    else if f == 0x120B
    then 12
    else if f == 0x120C
    then 24
    else if f == 0x1210
    then 8
    else if f == 0x1211
    then 16
    else if f == 0x1212
    then 32
    else 0

-- What a conversion promises of the source format.
pub record IsConverted (src : WaveFormat) (c : Converted) : Type 0 where
  pub sample_bits : src.bits_per_sample ≡ 8 * sample_bytes c.sample_type
  pub channel_count : src.channels ≡ config_channels c.channel_config
  pub same_align : c.dst.format.block_align ≡ src.block_align
  pub same_rate : c.dst.format.samples_per_sec ≡ src.samples_per_sec

pub convert_plain-IsConverted :
    (src : WaveFormat) {c : Converted} → convert_plain src ≡ some c → IsConverted src c
unfolding convert_plain
convert_plain-IsConverted src h = ground arith

masked_config_channels :
    (mask channels : ℕ) (c : ChannelConfig)
    → masked_config mask channels ≡ some c
    → channels ≡ config_channels c
unfolding masked_config
masked_config_channels mask channels c h = ground arith

pub convert_extensible-IsConverted :
    (src : WaveFormatExtensible) {c : Converted}
    → convert_extensible src ≡ some c
    → IsConverted src.format c
unfolding convert_extensible
convert_extensible-IsConverted src h =
    ground (arith, masked_config_channels src.channel_mask src.format.channels)

-- An OpenAL format that `GetALFormat` chooses has frames of one sample for each channel.
pub get_al_format_frame :
    (t : SampleType) (c : ChannelConfig) (exts : Extensions)
    → get_al_format t c exts ≢ 0
    → al_frame_bytes (get_al_format t c exts) ≡ config_channels c * sample_bytes t
unfolding get_al_format al_frame_bytes
get_al_format_frame uint8 c exts h = ground arith
get_al_format_frame _ c exts h = ground arith
