-- ===== src/Buffer/Control.antt =====
-- buffer.cpp: the volume, the pan and the frequency of a buffer.
pub mod Ranges
use dsoal.Prelude.{
  ℕ, Bool, true, false, not, ◌&&◌, ◌||◌, List, [], ◌∷◌, ltb, ◌==◌, if◌then◌else◌, ℤ, ltb_ℤ,
}
use dsoal.Win.{
  Hresult, ds_ok, invalid_param, control_unavail, Expected, value, unexpected, has, caps_ctrl3d,
  caps_ctrlvolume, caps_ctrlpan, caps_ctrlfrequency, volume_min, volume_max, pan_left, pan_right,
  frequency_min, frequency_max,
}
use dsoal.Al
use dsoal.Al.{Floats, AlCall, Extensions, source_f, mb_to_gain}
use dsoal.Buffer.{Buffer}
use dsoal.Buffer.Location.{pan_value, pitch_value}

module _ {F : Type 0} where
  -- `GetVolume`, `GetPan` and `GetFrequency`, with a pointer for the answer
  pub get_volume : Buffer F → Expected ℤ
  get_volume b =
      if has b.shared.flags caps_ctrlvolume then value b.volume else unexpected control_unavail

  pub get_pan : Buffer F → Expected ℤ
  get_pan b = if has b.shared.flags caps_ctrlpan then value b.pan else unexpected control_unavail

  pub get_frequency : Buffer F → Expected ℕ
  get_frequency b =
      if has b.shared.flags caps_ctrlfrequency
      then value b.frequency
      else unexpected control_unavail

module _ (fl : Floats) where
  open fl use {D3dValue}

  -- `SetVolume`
  unfoldable pub set_volume :
      ℤ → Buffer D3dValue → Hresult × Buffer D3dValue × List (AlCall D3dValue)
  set_volume volume b =
      if ltb_ℤ volume_max volume || ltb_ℤ volume volume_min
      then (invalid_param, b, [])
      else if not (has b.shared.flags caps_ctrlvolume)
      then (control_unavail, b, [])
      else (
        ds_ok,
        record b { volume = volume },
        if b.source == 0 then [] else source_f b.source Al.gain (mb_to_gain fl volume) ∷ [],
      )

  -- `SetPan`
  unfoldable pub set_pan :
      Extensions → ℤ → Buffer D3dValue → Hresult × Buffer D3dValue × List (AlCall D3dValue)
  set_pan exts pan b =
      if ltb_ℤ pan_right pan || ltb_ℤ pan pan_left
      then (invalid_param, b, [])
      else if not (has b.shared.flags caps_ctrlpan)
      then (control_unavail, b, [])
      else (
        ds_ok,
        record b { pan = pan },
        if not (has b.shared.flags caps_ctrl3d) && not (b.source == 0) && exts.soft_source_panning
            then source_f b.source Al.pan (pan_value fl pan) ∷ []
            else [],
      )

  -- `SetFrequency`. The frequency that it stores is not 0, so that its pitch is `pitch_value`.
  unfoldable pub set_frequency :
      ℕ → Buffer D3dValue → Hresult × Buffer D3dValue × List (AlCall D3dValue)
  set_frequency frequency b =
      let chosen =
        if frequency == 0 then b.shared.wfx_format.format.samples_per_sec else frequency in
      if not (frequency == 0) && (ltb frequency frequency_min || ltb frequency_max frequency)
      then (invalid_param, b, [])
      else if not (has b.shared.flags caps_ctrlfrequency)
      then (control_unavail, b, [])
      else (
        ds_ok,
        record b { frequency = chosen },
        if b.source == 0
            then []
            else source_f b.source Al.pitch (pitch_value fl chosen b.shared) ∷ [],
      )
