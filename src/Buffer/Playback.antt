-- ===== src/Buffer/Playback.antt =====
-- buffer.cpp: `Play`, `Stop`, `AcquireResources`, `Restore`, `GetStatus` and `GetCaps`.
pub mod Progress
pub mod Rest
pub mod Storage
use dsoal.Prelude.{
  ℕ, ◌%◌, Bool, true, false, not, ◌&&◌, ◌||◌, List, [], ◌∷◌, ◌++◌, bit_and, bit_or, ◌==◌,
  if◌then◌else◌,
}
use dsoal.Win.{
  Hresult, ds_ok, invalid_param, e_fail, failed, has, caps_locdefer, caps_lochardware,
  caps_locsoftware, caps_ctrlpositionnotify, play_looping, play_lochardware, play_locsoftware,
  level_writeprimary, dword_mod,
}
use dsoal.Win
use dsoal.Al
use dsoal.Al.{
  Floats, AlCall, source_i, source_play, source_pause, al_bool, al_initial, al_playing, al_stopped,
}
use dsoal.Device.{SharedDevice}
use dsoal.Buffer.{
  Buffer, Outcome, LocStatus, none_any, hardware, software, add_notify, trigger_notifies,
  remove_notify, ParentCall,
}
use dsoal.Buffer.Location.{Given, same_loc, set_location}
use dsoal.Buffer.Cursor.{SourceView, view, saturate_dword}

-- What OpenAL answers during `Play`: the source's state before a change of location, its state when
-- it is about to start, and whether starting it raised an error.
pub record PlayAnswers : Type 0 where
  pub loc_state : ℕ
  pub state : ℕ
  pub play_error : Bool

-- The location that the flags ask for
unfoldable pub wanted_loc : ℕ → LocStatus
wanted_loc flags =
    if has flags play_lochardware
    then hardware
    else if has flags play_locsoftware
    then software
    else none_any

is_empty {ℓ} : {A : Type ℓ} → List A → Bool
is_empty [] = true
is_empty (_ ∷ _) = false

-- `DSBSTATUS_LOCHARDWARE` and `DSBSTATUS_LOCSOFTWARE`
loc_bits : LocStatus → ℕ
loc_bits none_any = 0
loc_bits hardware = 8
loc_bits software = 16

unfoldable pub start_result : PlayAnswers → Hresult
start_result a = if a.play_error then e_fail else ds_ok

module _ {F : Type 0} where
  unfoldable pub refused : Hresult → Buffer F → SharedDevice → Outcome F
  refused hr b d = record { hr = hr; buffer = b; device = d; calls = []; parent_calls = [] }

  -- `Stop`; the view is that of the paused source
  unfoldable pub stop : SourceView → Buffer F → SharedDevice → Outcome F
  unfolding refused
  stop v b d = if b.source == 0 then refused ds_ok b d else record {
    hr = ds_ok;
    buffer = record b {
      last_pos = if v.state == al_stopped then b.shared.size % dword_mod else v.offset % dword_mod;
    };
    device = d;
    calls = source_pause b.source ∷ [];
    parent_calls =
        if has b.shared.flags caps_ctrlpositionnotify
        then trigger_notifies ∷ remove_notify ∷ []
        else [];
  }

  -- `Restore`, with the cooperative level and whether this buffer emulates the primary one
  unfoldable pub restore : ℕ → Bool → Buffer F → Hresult × Buffer F
  restore level is_write_emu b =
      if (level == level_writeprimary) && not is_write_emu
      then (Win.buffer_lost, b)
      else (ds_ok, record b { buffer_lost = false })

  -- `GetStatus`: the DSBSTATUS_* bits
  unfoldable pub get_status : SourceView → Buffer F → ℕ
  unfolding loc_bits
  get_status answer b =
      let v = view b answer in
      if b.buffer_lost
      then 2
      else bit_or (if has b.shared.flags caps_locdefer then loc_bits b.loc_status else 0)
          (if v.state == al_playing then (if v.looping then 5 else 1) else 0)

  -- `GetCaps`: the flags and the size that it reports
  unfoldable pub get_caps : Buffer F → ℕ × ℕ
  get_caps b =
      let bit : ℕ = elim (b.loc_status) [
        | hardware ↦ caps_lochardware
        | software ↦ caps_locsoftware
        | none_any ↦ 0
      ] in
      (
        (if has b.shared.flags caps_locdefer then b.shared.flags else bit_or b.shared.flags bit),
        b.shared.size % dword_mod,
      )

  -- The calls of `Play` that start a source which is not playing
  start_calls : ℕ → ℕ → Buffer F → List (AlCall F)
  start_calls state pos b =
      (if state == al_initial
        then source_i b.source Al.buffer b.shared.al_buffer
          ∷ source_i b.source Al.byte_offset pos
          ∷ []
        else [])
      ++ source_play b.source ∷ []

  -- `Play`, once the location is settled: `o` is what that left.
  unfoldable pub start : PlayAnswers → ℕ → Outcome F → Outcome F
  unfolding start_calls start_result is_empty
  start a flags o =
      let b = o.buffer in
      let loop = source_i b.source Al.looping (al_bool (has flags play_looping)) in
      let pos = b.last_pos % saturate_dword b.shared.size in
      let notified =
        has b.shared.flags caps_ctrlpositionnotify
        && not (is_empty b.notifies)
        && not a.play_error in
      if a.state == al_playing
      then record o { hr = ds_ok; calls = o.calls ++ loop ∷ [] }
      else record o {
        hr = start_result a;
        buffer = record b { last_pos = pos };
        calls = o.calls ++ loop ∷ start_calls a.state pos b;
        parent_calls = if notified then add_notify ∷ [] else [];
      }

module _ (fl : Floats) where
  open fl use {D3dValue}

  -- What `Play` and `AcquireResources` do with the location of a deferred buffer
  unfoldable pub defer_location :
      Given D3dValue → ℕ → ℕ → Buffer D3dValue → SharedDevice → Outcome D3dValue
  unfolding refused wanted_loc
  defer_location g loc_state flags b d =
      let loc = wanted_loc flags in
      let moves =
        not (same_loc loc none_any)
        && not (same_loc b.loc_status none_any)
        && not (same_loc loc b.loc_status) in
      if bit_and flags 6 == 6
      then refused invalid_param b d
      else if moves && (loc_state == al_playing)
      then refused invalid_param b d
      else set_location fl g loc b d

  -- `Play`
  unfoldable pub play :
      Given D3dValue → PlayAnswers → ℕ → ℕ → Buffer D3dValue → SharedDevice → Outcome D3dValue
  play g a priority flags b d =
      let deferred = has b.shared.flags caps_locdefer in
      let settled = defer_location g a.loc_state flags b d in
      if b.buffer_lost
      then refused Win.buffer_lost b d
      else if deferred
      then if failed settled.hr then settled else start a flags settled
      else if not (priority == 0)
      then refused invalid_param b d
      else start a flags (refused ds_ok b d)

  -- `AcquireResources`; the last argument but two says that effects or result codes are named
  unfoldable pub acquire_resources :
      Given D3dValue → ℕ → ℕ → Bool → Buffer D3dValue → SharedDevice → Outcome D3dValue
  acquire_resources g loc_state flags effects b d =
      if b.buffer_lost
      then refused Win.buffer_lost b d
      else if effects
      then refused invalid_param b d
      else if has b.shared.flags caps_locdefer
      then defer_location g loc_state flags b d
      else refused ds_ok b d
