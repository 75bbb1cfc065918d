-- ===== src/Buffer/Playback/Progress.antt =====
-- What `Play`, `Stop` and `AcquireResources` promise.
use dsoal.Prelude.{
  ℕ, ◌<◌, ◌≡◌, ◌≢◌, inl, inr, refl, arith, Bool, true, false, not, Bool-cases, if_both, ◌==◌,
}
use dsoal.Win.{ds_ok, invalid_param, failed, e_fail, has, caps_locdefer, dword_mod, allocated}
use dsoal.Win
use dsoal.Al.{Floats, al_playing}
use dsoal.Device.{SharedDevice}
use dsoal.Buffer.{Buffer, Outcome, none_any}
use dsoal.Buffer.Location.{Given}
use dsoal.Buffer.Location.Accounting.{
  Accounts, SameLimits, HasSource, Serves, Located, set_location-Located,
}
use dsoal.Buffer.Playback.{
  PlayAnswers, wanted_loc, refused, start, defer_location, play, acquire_resources,
}

-- The counters, limits and sources that every operation keeps.
pub record Keeps {F : Type 0} (d : SharedDevice) (hw sw : ℕ) (o : Outcome F) : Type 0 where
  pub accounts : Accounts o.device hw sw o.buffer.loc_status
  pub limits : SameLimits d o.device
  pub source : HasSource o.buffer

pub not_failed : (hr : Win.Hresult) → failed hr ≡ true → hr ≢ ds_ok
not_failed hr h e = cc (rw e at h)

pub succeeded : (hr : Win.Hresult) → failed hr ≡ false → hr ≡ ds_ok
succeeded hr h = ground arith

module _ (fl : Floats) where
  open fl use {D3dValue}

  refused-Keeps :
      (hr : Win.Hresult) (b : Buffer D3dValue) (d : SharedDevice) (hw sw : ℕ)
      → HasSource b
      → Accounts d hw sw b.loc_status
      → Keeps d hw sw (refused hr b d)
  unfolding refused
  refused-Keeps hr b d hw sw hs a = record { accounts = a; limits = (refl, refl); source = hs }

  -- A settled location: nothing is lost, and success serves what the flags ask for.
  record Settled (flags : ℕ) (b : Buffer D3dValue) (d : SharedDevice) (hw sw : ℕ)
      (o : Outcome D3dValue) : Type 0 where
    keeps : Keeps d hw sw o
    served : (o.hr ≡ ds_ok) → Serves (wanted_loc flags) o.buffer.loc_status
    same_shared : o.buffer.shared ≡ b.shared

  refused-Settled :
      (flags : ℕ) (hr : Win.Hresult) (b : Buffer D3dValue) (d : SharedDevice) (hw sw : ℕ)
      → hr ≢ ds_ok
      → HasSource b
      → Accounts d hw sw b.loc_status
      → Settled flags b d hw sw (refused hr b d)
  unfolding refused
  refused-Settled flags hr b d hw sw ne hs a = record {
    keeps = refused-Keeps hr b d hw sw hs a;
    served = λ e. absurd (ne e);
    same_shared = refl;
  }

  Located-Settled :
      (flags : ℕ) (b : Buffer D3dValue) (d : SharedDevice) (hw sw : ℕ) (o : Outcome D3dValue)
      → Located fl (wanted_loc flags) b d hw sw o
      → Settled flags b d hw sw o
  Located-Settled flags b d hw sw o v = record {
    keeps = record { accounts = v.accounts; limits = v.limits; source = v.source };
    served = λ e. elim (v.result) [ inl good ↦ good.1 | inr bad ↦ cc ];
    same_shared = v.same_shared;
  }

  defer_location-Settled :
      (g : Given D3dValue) (loc_state flags : ℕ) (b : Buffer D3dValue) (d : SharedDevice)
      (hw sw : ℕ)
      → g.new_source ≢ 0
      → HasSource b
      → Accounts d hw sw b.loc_status
      → Settled flags b d hw sw (defer_location fl g loc_state flags b d)
  unfolding defer_location
  defer_location-Settled g loc_state flags b d hw sw hg hs a =
      let bad = refused-Settled flags invalid_param b d hw sw (λ e. cc) hs a in
      if_both (Settled flags b d hw sw) _ _ _ bad (
        if_both (Settled flags b d hw sw) _ _ _ bad (
          Located-Settled flags b d hw sw _
            (set_location-Located fl g (wanted_loc flags) b d hw sw hg hs a)))

  start-Keeps :
      (x : PlayAnswers) (flags : ℕ) (d : SharedDevice) (hw sw : ℕ) (o : Outcome D3dValue)
      → Keeps d hw sw o
      → Keeps d hw sw (start x flags o)
  unfolding start
  start-Keeps x flags d hw sw o k = elim (Bool-cases (x.state == al_playing)) [
    | inl e ↦ rw e (record { accounts = k.accounts; limits = k.limits; source = k.source })
    | inr e ↦ rw e (record { accounts = k.accounts; limits = k.limits; source = k.source })
  ]

  -- On every branch of `Play`, errors included, the device's counters go on agreeing with the
  -- locations, within the device's limits, and a buffer with a location has a source.
  pub play-Keeps :
      (g : Given D3dValue) (x : PlayAnswers) (priority flags : ℕ) (b : Buffer D3dValue)
      (d : SharedDevice) (hw sw : ℕ)
      → g.new_source ≢ 0
      → HasSource b
      → Accounts d hw sw b.loc_status
      → Keeps d hw sw (play fl g x priority flags b d)
  unfolding play
  play-Keeps g x priority flags b d hw sw hg hs a =
      let P = Keeps {F = D3dValue} d hw sw in
      let no = λ (hr : Win.Hresult). refused-Keeps hr b d hw sw hs a in
      let settled = (defer_location-Settled g x.loc_state flags b d hw sw hg hs a).keeps in
      if_both P b.buffer_lost _ _ (no Win.buffer_lost) (
        if_both P (has b.shared.flags caps_locdefer) _ _
          (if_both P (failed (defer_location fl g x.loc_state flags b d).hr) _ _ settled
            (start-Keeps x flags d hw sw _ settled))
          (if_both P (not (priority == 0)) _ _ (no invalid_param)
            (start-Keeps x flags d hw sw _ (no ds_ok))))

  -- On every branch of `AcquireResources`, errors included, the device's counters go on agreeing with
  -- the locations, within the device's limits, and a buffer with a location has a source.
  pub acquire_resources-Keeps :
      (g : Given D3dValue) (loc_state flags : ℕ) (effects : Bool) (b : Buffer D3dValue)
      (d : SharedDevice) (hw sw : ℕ)
      → g.new_source ≢ 0
      → HasSource b
      → Accounts d hw sw b.loc_status
      → Keeps d hw sw (acquire_resources fl g loc_state flags effects b d)
  unfolding acquire_resources
  acquire_resources-Keeps g loc_state flags effects b d hw sw hg hs a =
      let P = Keeps {F = D3dValue} d hw sw in
      let no = λ (hr : Win.Hresult). refused-Keeps hr b d hw sw hs a in
      let settled = (defer_location-Settled g loc_state flags b d hw sw hg hs a).keeps in
      if_both P b.buffer_lost _ _ (no Win.buffer_lost) (
        if_both P effects _ _ (no invalid_param)
          (if_both P (has b.shared.flags caps_locdefer) _ _ settled (no ds_ok)))

  -- What a successful `Play` has done.
  pub record Plays (x : PlayAnswers) (flags : ℕ) (b : Buffer D3dValue) (o : Outcome D3dValue)
      : Type 0 where
    pub not_lost : b.buffer_lost ≡ false
    pub located : o.buffer.loc_status ≢ none_any
    pub source : o.buffer.source ≢ 0
    pub served :
        has b.shared.flags caps_locdefer ≡ true → Serves (wanted_loc flags) o.buffer.loc_status
    pub inside : x.state ≢ al_playing → o.buffer.last_pos < b.shared.size
    pub no_error : x.state ≢ al_playing → x.play_error ≡ false

  record Started (x : PlayAnswers) (o o' : Outcome D3dValue) : Type 0 where
    same_loc : o'.buffer.loc_status ≡ o.buffer.loc_status
    same_source : o'.buffer.source ≡ o.buffer.source
    inside : x.state ≢ al_playing → o'.buffer.last_pos < o.buffer.shared.size
    no_error : o'.hr ≡ ds_ok → x.state ≢ al_playing → x.play_error ≡ false
