-- ===== src/Buffer/Control/Ranges.antt =====
-- The volume, the pan and the frequency stay in range, and what is set is what is read.
use dsoal.Prelude.{ℕ, ◌≤◌, ◌≡◌, ◌⊎◌, arith, List, [], ℤ, ◌≤ℤ◌, ◌==◌, if◌then◌else◌}
use dsoal.Win.{
  Hresult, ds_ok, invalid_param, control_unavail, Expected, value, unexpected, volume_min,
  volume_max, pan_left, pan_right, frequency_min, frequency_max,
}
use dsoal.Al.{Floats, AlCall, Extensions}
use dsoal.SharedBuffer.Created.{IsWhole}
use dsoal.Buffer.{Buffer}
use dsoal.Buffer.Control.{get_volume, get_pan, get_frequency, set_volume, set_pan, set_frequency}

-- The controls are in range.
pub record InRange {F : Type 0} (b : Buffer F) : Type 0 where
  pub volume_low : volume_min ≤ℤ b.volume
  pub volume_high : b.volume ≤ℤ volume_max
  pub pan_low : pan_left ≤ℤ b.pan
  pub pan_high : b.pan ≤ℤ pan_right
  pub frequency_low : frequency_min ≤ b.frequency
  pub frequency_high : b.frequency ≤ frequency_max

module _ (fl : Floats) where
  open fl use {D3dValue}

  -- A call on a control: it keeps the ranges; either it stores what the getter then gives, or it
  -- changes nothing and makes no call, for an argument out of range or a control that the buffer lacks.
  pub record Controls {A : Type 0} (get : Buffer D3dValue → Expected A) (stored : A)
      (b : Buffer D3dValue) (r : Hresult × Buffer D3dValue × List (AlCall D3dValue)) : Type 0 where
    pub range : InRange r.1
    pub same_shared : r.1.shared ≡ b.shared
    pub result :
        ((r.0 ≡ ds_ok) × (get r.1 ≡ value stored))
        ⊎ ((r.0 ≡ invalid_param) × (r.1 ≡ b) × (r.2 ≡ []))
        ⊎ ((r.0 ≡ control_unavail) × (r.1 ≡ b) × (r.2 ≡ []) × (get b ≡ unexpected control_unavail))

  -- `SetVolume` keeps the controls in range, and a volume that it takes is the one that `GetVolume`
  -- gives; otherwise nothing changes.
  pub set_volume-Controls :
      (volume : ℤ) (b : Buffer D3dValue)
      → InRange b
      → Controls get_volume volume b (set_volume fl volume b)
  unfolding set_volume get_volume
  set_volume-Controls volume b v = ground (arith, v)

  -- `SetPan` keeps the controls in range, and a pan that it takes is the one that `GetPan` gives;
  -- otherwise nothing changes.
  pub set_pan-Controls :
      (exts : Extensions) (pan : ℤ) (b : Buffer D3dValue)
      → InRange b
      → Controls get_pan pan b (set_pan fl exts pan b)
  unfolding set_pan get_pan
  set_pan-Controls exts pan b v = ground (arith, v)

  -- `SetFrequency` keeps the controls in range, and a frequency that it takes is the one that
  -- `GetFrequency` gives, with 0 standing for the sample rate; otherwise nothing changes. The sample
  -- storage is one that `Create` made.
  pub set_frequency-Controls :
      (frequency : ℕ) (b : Buffer D3dValue)
      → IsWhole b.shared
      → InRange b
      → Controls get_frequency
          (if frequency == 0 then b.shared.wfx_format.format.samples_per_sec else frequency)
          b
          (set_frequency fl frequency b)
  unfolding set_frequency get_frequency
  set_frequency-Controls frequency b w v = ground (arith, v, w.rate_low, w.rate_high)
