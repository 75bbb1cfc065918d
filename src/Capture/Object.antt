-- ===== src/Capture/Object.antt =====
-- capture.cpp: `DSCapture`, the capture object, which knows its device by name and makes the capture
-- buffers.
use dsoal.Prelude.{ℕ, Bool, true, false, not, Option, none, some, ltb, if◌then◌else◌}
use dsoal.Win.{
  Hresult, ds_ok, invalid_param, no_aggregation, no_driver, uninitialized, already_initialized,
  out_of_memory, failed,
}
use dsoal.Capture.Setup.{CaptureDesc, DscBuffer, OpenCall, construct, initialize}

-- The device that is asked for: none, a null GUID or the default for capture; the defaults for playback;
-- and the others
pub data CaptureId : Type 0 where
  default_capture default_playback : CaptureId
  other_device : CaptureId

-- `Initialize` of a capture object, by whether it has a name (`mDeviceName`), what `GetDeviceID`
-- returns, and whether the GUID's text can be had: the result, and whether it has a name then
unfoldable pub name_device : CaptureId → Hresult → Bool → Bool → Hresult × Bool
name_device id found text true = (already_initialized, true)
name_device default_playback found text false = (no_driver, false)
name_device id found text false =
    if failed found
    then (found, false)
    else if not text
    then (out_of_memory, false)
    else (ds_ok, true)

-- `GetCaps`, of a structure with this `dwSize` or of a null pointer, which takes 16 bytes
pub get_caps : Option ℕ → Bool → Hresult
get_caps size false = uninitialized
get_caps none true = invalid_param
get_caps (some size) true = if ltb size 16 then invalid_param else ds_ok

-- A new buffer that is initialized; one that fails is dropped.
unfoldable pub initialized :
    Bool → Bool → CaptureDesc → Hresult × Option DscBuffer × Option OpenCall
initialized allocates opens desc =
    let (hr, b, call) = initialize allocates opens desc construct in
    if failed hr then (hr, none, call) else (ds_ok, some b, call)

-- `CreateCaptureBuffer`. The first two flags say whether there is a place for the result and whether
-- aggregation is asked for; no description is one that is null or too small.
unfoldable pub create_capture_buffer :
    Bool → Bool → Bool → Bool → Option CaptureDesc → Hresult × Option DscBuffer × Option OpenCall
create_capture_buffer allocates opens place outer none =
    if not place
    then (invalid_param, none, none)
    else if outer
    then (no_aggregation, none, none)
    else (invalid_param, none, none)
create_capture_buffer allocates opens place outer (some desc) =
    if not place
    then (invalid_param, none, none)
    else if outer
    then (no_aggregation, none, none)
    else initialized allocates opens desc
