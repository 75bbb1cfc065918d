-- ===== src/Device/Share.antt =====
-- dsoundoal.cpp: `CreateDeviceShare`, which opens a device and splits its sources.
use dsoal.Prelude.{
  ℕ, ◌+◌, ◌-◌, ◌≤◌, ◌<◌, ◌≡◌, arith, Bool, true, not, ltb, if◌then◌else◌, ℤ, pos, ltb_ℤ, pos_part,
}
use dsoal.Win.{Expected, value, unexpected, out_of_memory, no_driver, dword_add, dword_mod}
use dsoal.Al.{Extensions}
use dsoal.Device.{SharedDevice}

abbrev max_hw_sources_limit : ℕ
max_hw_sources_limit = 128

-- What Windows and OpenAL answer: whether the device has a name, whether it and its context open, the
-- extensions, ALC_MONO_SOURCES, ALC_STEREO_SOURCES and ALC_REFRESH, and the speaker configuration.
pub record Opened : Type 0 where
  pub named : Bool
  pub opens : Bool
  pub extensions : Extensions
  pub num_mono : ℤ
  pub num_stereo : ℤ
  pub refresh : ℤ
  pub speaker_config : ℕ

-- `std::clamp(refresh, 20, 100)`
clamp_refresh : ℤ → ℕ
clamp_refresh r = if ltb_ℤ r (pos 20) then 20 else if ltb_ℤ (pos 100) r then 100 else pos_part r

-- `CreateDeviceShare`, with an initial count of 0 for both kinds of sources
unfoldable pub create_device_share : Opened → Expected SharedDevice
unfolding clamp_refresh
create_device_share o =
    let total = dword_add (pos_part o.num_mono) (pos_part o.num_stereo) in
    let max_hw = if ltb 256 total then max_hw_sources_limit else 64 in
    if not o.named
    then unexpected out_of_memory
    else if not o.opens
    then unexpected no_driver
    else if not o.extensions.ext_static_buffer
    then unexpected no_driver
    else if ltb total 128
    then unexpected out_of_memory
    else value (record {
      max_hw_sources = max_hw;
      max_sw_sources = total - max_hw;
      current_hw_sources = 0;
      current_sw_sources = 0;
      extensions = o.extensions;
      refresh = clamp_refresh o.refresh;
      speaker_config = o.speaker_config;
    })

-- What a device that opens is good for.
pub record IsShare (o : Opened) (d : SharedDevice) : Type 0 where
  pub split : d.max_hw_sources + d.max_sw_sources ≡ pos_part o.num_mono + pos_part o.num_stereo
  pub some_hw : 64 ≤ d.max_hw_sources
  pub few_hw : d.max_hw_sources ≤ 128
  pub some_sw : 64 ≤ d.max_sw_sources
  pub sw_word : d.max_sw_sources < dword_mod
  pub no_hw : d.current_hw_sources ≡ 0
  pub no_sw : d.current_sw_sources ≡ 0
  pub refresh_low : 20 ≤ d.refresh
  pub refresh_high : d.refresh ≤ 100
  pub static_buffer : d.extensions.ext_static_buffer ≡ true

-- A device that `CreateDeviceShare` returns has both kinds of sources, at least 64 of each and at most
-- 128 "hardware" ones, as many together as OpenAL has mono and stereo sources, none of them in use; its
-- update rate is between 20 and 100, and static buffers are there. OpenAL's answers are `int`s.
pub create_device_share-IsShare :
    (o : Opened) {d : SharedDevice}
    → pos_part o.num_mono < 2147483648
    → pos_part o.num_stereo < 2147483648
    → create_device_share o ≡ value d
    → IsShare o d
unfolding create_device_share clamp_refresh
create_device_share-IsShare o hm hs h = ground arith
