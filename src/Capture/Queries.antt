-- ===== src/Capture/Queries.antt =====
-- capture.cpp: what a `DSCBuffer` answers about itself, its effects included.
use dsoal.Prelude.{ℕ, ◌+◌, Bool, not, ◌&&◌, Option, none, some, ltb, if◌then◌else◌}
use dsoal.Win.{Hresult, ds_ok, invalid_param, control_unavail, sizeof_format}
use dsoal.Primary.Formats.{FormatAnswer}
use dsoal.Capture.Setup.{DscBuffer}

-- sizeof(DSCBCAPS)
abbrev pub sizeof_caps : ℕ
sizeof_caps = 16

-- `GetCaps`, of a structure with this `dwSize` or of a null pointer: the result and `dwBufferBytes`
pub get_caps : Option ℕ → DscBuffer → Hresult × Option ℕ
get_caps none b = (invalid_param, none)
get_caps (some size) b =
    if ltb size sizeof_caps then (invalid_param, none) else (ds_ok, some b.ring.size)

-- `GetFormat`; the two flags say which pointers are given.
unfoldable pub get_format : Bool → ℕ → Bool → DscBuffer → FormatAnswer
get_format wfx size_allocated size_written b =
    let size = sizeof_format + b.wave_fmt.format.cb_size in
    if not wfx && not size_written
    then record { hr = invalid_param; size_written = none; written = none }
    else if wfx && ltb size_allocated size
    then record { hr = invalid_param; size_written = none; written = none }
    else record {
      hr = ds_ok;
      size_written = if size_written then some size else none;
      written = if wfx then some b.wave_fmt else none;
    }

-- `GetStatus`: DSCBSTATUS_CAPTURING|DSCBSTATUS_LOOPING while it captures
pub get_status : Bool → DscBuffer → Hresult × Option ℕ
get_status place b =
    if not place
    then (invalid_param, none)
    else if not b.ring.capturing
    then (ds_ok, some 0)
    else (ds_ok, some 3)

-- `GetObjectInPath` and `GetFXStatus`: there are no effects.
pub get_object_in_path : Bool → Hresult
get_object_in_path place = if not place then invalid_param else control_unavail

pub get_fx_status : ℕ → Hresult
get_fx_status count = if ltb 0 count then invalid_param else ds_ok
