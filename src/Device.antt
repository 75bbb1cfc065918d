-- ===== src/Device.antt =====
-- dsoundoal.h: `SharedDevice`, the device that the sound objects of one GUID share, with its
-- accounting of "hardware" and "software" sources. The compare-and-exchange loops of the increments
-- are one atomic step each.
pub mod Share
pub mod Sharing
pub mod Tests
use dsoal.Prelude.{ℕ, Bool, true, false, ◌==◌, if◌then◌else◌}
use dsoal.Win.{dword_add, dword_sub}
use dsoal.Al.{Extensions}

pub record SharedDevice : Type 0 where
  pub max_hw_sources : ℕ
  pub max_sw_sources : ℕ
  pub current_hw_sources : ℕ
  pub current_sw_sources : ℕ
  pub extensions : Extensions
  pub refresh : ℕ
  pub speaker_config : ℕ

-- `incHwSources`: the device after it, and the returned success
unfoldable pub inc_hw_sources : SharedDevice → SharedDevice × Bool
inc_hw_sources d =
    if d.current_hw_sources == d.max_hw_sources
    then (d, false)
    else (record d { current_hw_sources = dword_add d.current_hw_sources 1 }, true)

-- `incSwSources`
unfoldable pub inc_sw_sources : SharedDevice → SharedDevice × Bool
inc_sw_sources d =
    if d.current_sw_sources == d.max_sw_sources
    then (d, false)
    else (record d { current_sw_sources = dword_add d.current_sw_sources 1 }, true)

-- `decHwSources`
unfoldable pub dec_hw_sources : SharedDevice → SharedDevice
dec_hw_sources d = record d { current_hw_sources = dword_sub d.current_hw_sources 1 }

-- `decSwSources`
unfoldable pub dec_sw_sources : SharedDevice → SharedDevice
dec_sw_sources d = record d { current_sw_sources = dword_sub d.current_sw_sources 1 }
