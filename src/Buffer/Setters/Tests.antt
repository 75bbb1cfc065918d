-- ===== src/Buffer/Setters/Tests.antt =====
-- The results of the modules below `Setters`, `Control`, `Setup` and `Playback.Rest` on the buffers of
-- `Buffer.Tests`.
use dsoal.Prelude.{ℕ, refl, arith, true, some, none}
use dsoal.Buffer.{Buffer}
use dsoal.Buffer.Setters.{call, mode}
use dsoal.Buffer.Setters.Validity.{IsParams, IsSpatial, Sets, call-Sets}
use dsoal.Buffer.Control.Ranges.{InRange}
use dsoal.Buffer.Setup.{construct, initialize}
use dsoal.Buffer.Setup.Ready.{IsFloat, Starts, initialize-Starts}
use dsoal.SharedBuffer.Tests.{all_exts, storage, odd_request, stereo_16}
use dsoal.Buffer.Tests.{naturals, params, device, playing, given, Accounts-silent}

params-IsParams : IsParams naturals params
params-IsParams = ground arith

pub playing-IsSpatial : IsSpatial naturals playing
playing-IsSpatial = record { immediate = params-IsParams; deferred = params-IsParams }

call-Sets_example : Sets naturals playing (call naturals all_exts 1 (mode 2) 0 playing)
call-Sets_example = call-Sets naturals all_exts 1 (mode 2) 0 playing playing-IsSpatial

-- `playing` with the frequency that `Initialize` gives it
abbrev tuned : Buffer ℕ
tuned = record playing { frequency = 44100 }

tuned-InRange : InRange tuned
tuned-InRange = ground arith

pub naturals-IsFloat : IsFloat naturals
naturals-IsFloat = record { one_nonneg = refl; far_nonneg = refl }

initialize-Starts_example : Starts naturals 2 1 (
    initialize naturals given storage
      (some (record odd_request { format = some stereo_16 }))
      (construct naturals true none)
      device)
initialize-Starts_example =
    initialize-Starts naturals given storage (some (record odd_request { format = some stereo_16 }))
      true none device 2 1 naturals-IsFloat (λ e. cc) (omega arith, omega arith) tt Accounts-silent
