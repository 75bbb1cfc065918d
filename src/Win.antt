-- ===== src/Win.antt =====
-- The Windows types that the driver's interfaces use, with the constants that the Windows SDK
-- documents: results, capability flags, limits and wave formats. Values that OpenAL defines are in
-- `Al`.
use dsoal.Prelude.{ℕ, ◌+◌, ◌-◌, ◌%◌, Bool, true, false, not, bit_and, ◌==◌, ℤ, pos, negsuc}

-- `HRESULT`. E_INVALIDARG is DSERR_INVALIDPARAM, DSERR_GENERIC is E_FAIL and S_OK is DS_OK.
pub data Hresult : Type 0 where
  ds_ok invalid_param invalid_call control_unavail buffer_lost buffer_too_small : Hresult
  out_of_memory allocated already_initialized no_driver uninitialized no_aggregation : Hresult
  prio_level_needed fx_unavailable bad_format prop_id_unsupported : Hresult
  e_fail e_pointer e_nointerface e_notimpl : Hresult

-- `FAILED`
abbrev pub failed : Hresult → Bool
failed ds_ok = false
failed _ = true

-- `ds::expected<T,HRESULT>`
pub data Expected (A : Type 0) : Type 0 where
  value : A → Expected A
  unexpected : Hresult → Expected A

-- `DWORD` wraps at 2^32.
abbrev pub dword_mod : ℕ
dword_mod = 4294967296

abbrev pub dword_add : ℕ → ℕ → ℕ
dword_add a b = (a + b) % dword_mod

abbrev pub dword_sub : ℕ → ℕ → ℕ
dword_sub a b = (a + dword_mod - b) % dword_mod

-- `flags&mask` as a condition
abbrev pub has : ℕ → ℕ → Bool
has flags mask = not (bit_and flags mask == 0)

-- DSBCAPS_*, the values that dsoundoal.cpp lists beside their names
abbrev pub caps_primarybuffer : ℕ
caps_primarybuffer = 0x1

abbrev pub caps_lochardware : ℕ
caps_lochardware = 0x4

abbrev pub caps_locsoftware : ℕ
caps_locsoftware = 0x8

abbrev pub caps_ctrl3d : ℕ
caps_ctrl3d = 0x10

abbrev pub caps_ctrlfrequency : ℕ
caps_ctrlfrequency = 0x20

abbrev pub caps_ctrlpan : ℕ
caps_ctrlpan = 0x40

abbrev pub caps_ctrlvolume : ℕ
caps_ctrlvolume = 0x80

abbrev pub caps_ctrlpositionnotify : ℕ
caps_ctrlpositionnotify = 0x100

abbrev pub caps_ctrlfx : ℕ
caps_ctrlfx = 0x200

abbrev pub caps_locdefer : ℕ
caps_locdefer = 0x40000

-- DSBLOCK_*
abbrev pub lock_fromwritecursor : ℕ
lock_fromwritecursor = 0x1

abbrev pub lock_entirebuffer : ℕ
lock_entirebuffer = 0x2

-- DSBPLAY_*
abbrev pub play_looping : ℕ
play_looping = 0x1

abbrev pub play_lochardware : ℕ
play_lochardware = 0x2

abbrev pub play_locsoftware : ℕ
play_locsoftware = 0x4

-- DSBSIZE_*, DSBFREQUENCY_*, DSBVOLUME_*, DSBPAN_*
abbrev pub size_min : ℕ
size_min = 4

abbrev pub size_max : ℕ
size_max = 0x0FFFFFFF

abbrev pub frequency_min : ℕ
frequency_min = 100

abbrev pub frequency_max : ℕ
frequency_max = 200000

abbrev pub volume_min : ℤ
volume_min = negsuc 9999

abbrev pub volume_max : ℤ
volume_max = pos 0

abbrev pub pan_left : ℤ
pan_left = negsuc 9999

abbrev pub pan_right : ℤ
pan_right = pos 10000

-- DSBPN_OFFSETSTOP and DSCBPN_OFFSET_STOP, cast to DWORD
abbrev pub offset_stop : ℕ
offset_stop = 0xFFFFFFFF

-- DSSCL_*
abbrev pub level_normal : ℕ
level_normal = 1

abbrev pub level_priority : ℕ
level_priority = 2

abbrev pub level_writeprimary : ℕ
level_writeprimary = 4

-- `WAVEFORMATEX`
pub record WaveFormat : Type 0 where
  pub format_tag : ℕ
  pub channels : ℕ
  pub samples_per_sec : ℕ
  pub avg_bytes_per_sec : ℕ
  pub block_align : ℕ
  pub bits_per_sample : ℕ
  pub cb_size : ℕ

-- The GUIDs of an extensible format's `SubFormat` that the code tells apart.
pub data SubFormat : Type 0 where
  none_set pcm ieee_float : SubFormat
  other : ℕ → SubFormat

-- `WAVEFORMATEXTENSIBLE`. It also stands for the memory behind a `WAVEFORMATEX` pointer: what follows
-- `format` is read only where the tag and `cbSize` say that it is there.
pub record WaveFormatExtensible : Type 0 where
  pub format : WaveFormat
  pub valid_bits_per_sample : ℕ
  pub channel_mask : ℕ
  pub sub_format : SubFormat

abbrev pub wave_format_pcm : ℕ
wave_format_pcm = 1

abbrev pub wave_format_ieee_float : ℕ
wave_format_ieee_float = 3

abbrev pub wave_format_extensible : ℕ
wave_format_extensible = 0xFFFE

-- sizeof(WAVEFORMATEXTENSIBLE) - sizeof(WAVEFORMATEX), and the two sizes
abbrev pub ext_extra_size : ℕ
ext_extra_size = 22

abbrev pub sizeof_format : ℕ
sizeof_format = 18

abbrev pub sizeof_extensible : ℕ
sizeof_extensible = 40

-- `DSBPOSITIONNOTIFY`: the event is a handle.
pub record PositionNotify : Type 0 where
  pub offset : ℕ
  pub event : ℕ
