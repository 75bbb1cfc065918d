-- ===== src/Buffer/Playback/Storage.antt =====
-- `Play`, `Stop` and `AcquireResources` leave the sample storage and the controls of a buffer alone.
use dsoal.Prelude.{ℕ, ◌≡◌, refl, ap, arith, Bool, if_both, not, ◌==◌}
use dsoal.Win
use dsoal.Win.{Hresult, invalid_param, failed, has, caps_locdefer, ds_ok}
use dsoal.Al.{Floats}
use dsoal.Device.{SharedDevice}
use dsoal.Buffer.{Buffer, Outcome}
use dsoal.Buffer.Location.{Given, set_location}
use dsoal.Buffer.Location.Accounting.{OnlyMoved, set_location-OnlyMoved}
use dsoal.Buffer.Cursor.{SourceView}
use dsoal.Buffer.Playback.{
  PlayAnswers, refused, start, defer_location, wanted_loc, play, stop, acquire_resources,
}

module _ {F : Type 0} where
  -- Only the source, the location and the last position change.
  pub record OnlyPlayed (b : Buffer F) (o : Outcome F) : Type 0 where
    pub same_shared : o.buffer.shared ≡ b.shared
    pub same_locked : o.buffer.locked ≡ b.locked
    pub same_lost : o.buffer.buffer_lost ≡ b.buffer_lost
    pub same_volume : o.buffer.volume ≡ b.volume
    pub same_pan : o.buffer.pan ≡ b.pan
    pub same_frequency : o.buffer.frequency ≡ b.frequency
    pub same_immediate : o.buffer.immediate ≡ b.immediate
    pub same_deferred : o.buffer.deferred ≡ b.deferred

  refused-OnlyPlayed :
      (hr : Hresult) (b : Buffer F) (d : SharedDevice) → OnlyPlayed b (refused hr b d)
  unfolding refused
  refused-OnlyPlayed hr b d = record {
    same_shared = refl;
    same_locked = refl;
    same_lost = refl;
    same_volume = refl;
    same_pan = refl;
    same_frequency = refl;
    same_immediate = refl;
    same_deferred = refl;
  }

  start-OnlyPlayed :
      (a : PlayAnswers) (flags : ℕ) (b : Buffer F) (o : Outcome F)
      → OnlyPlayed b o
      → OnlyPlayed b (start a flags o)
  unfolding start
  start-OnlyPlayed a flags b o v = ground (arith, v)

  pub stop-OnlyPlayed :
      (v : SourceView) (b : Buffer F) (d : SharedDevice) → OnlyPlayed b (stop v b d)
  unfolding stop refused
  stop-OnlyPlayed v b d = ground arith

module _ (fl : Floats) where
  open fl use {D3dValue}

  moved-OnlyPlayed :
      (b : Buffer D3dValue) (o : Outcome D3dValue) → OnlyMoved fl b o.buffer → OnlyPlayed b o
  moved-OnlyPlayed b o m = record {
    same_shared = ap (λ c. c.shared) m;
    same_locked = ap (λ c. c.locked) m;
    same_lost = ap (λ c. c.buffer_lost) m;
    same_volume = ap (λ c. c.volume) m;
    same_pan = ap (λ c. c.pan) m;
    same_frequency = ap (λ c. c.frequency) m;
    same_immediate = ap (λ c. c.immediate) m;
    same_deferred = ap (λ c. c.deferred) m;
  }

  defer_location-OnlyPlayed :
      (g : Given D3dValue) (loc_state flags : ℕ) (b : Buffer D3dValue) (d : SharedDevice)
      → OnlyPlayed b (defer_location fl g loc_state flags b d)
  unfolding defer_location refused
  defer_location-OnlyPlayed g loc_state flags b d =
      let P = OnlyPlayed b in
      let no = λ (hr : Hresult). refused-OnlyPlayed hr b d in
      if_both P _ _ _ (no invalid_param) (
        if_both P _ _ _ (no invalid_param) (
          moved-OnlyPlayed b (set_location fl g (wanted_loc flags) b d)
            (set_location-OnlyMoved fl g (wanted_loc flags) b d)))

  pub play-OnlyPlayed :
      (g : Given D3dValue) (a : PlayAnswers) (priority flags : ℕ) (b : Buffer D3dValue)
      (d : SharedDevice)
      → OnlyPlayed b (play fl g a priority flags b d)
  unfolding play refused
  play-OnlyPlayed g a priority flags b d =
      let P = OnlyPlayed b in
      let no = λ (hr : Hresult). refused-OnlyPlayed hr b d in
      let v = defer_location-OnlyPlayed g a.loc_state flags b d in
      if_both P b.buffer_lost _ _ (no Win.buffer_lost) (
        if_both P (has b.shared.flags caps_locdefer) _ _
          (if_both P (failed (defer_location fl g a.loc_state flags b d).hr) _ _ v
            (start-OnlyPlayed a flags b _ v))
          (if_both P (not (priority == 0)) _ _ (no invalid_param)
            (start-OnlyPlayed a flags b (refused ds_ok b d) (no ds_ok))))

  pub acquire_resources-OnlyPlayed :
      (g : Given D3dValue) (loc_state flags : ℕ) (effects : Bool) (b : Buffer D3dValue)
      (d : SharedDevice)
      → OnlyPlayed b (acquire_resources fl g loc_state flags effects b d)
  unfolding acquire_resources refused
  acquire_resources-OnlyPlayed g loc_state flags effects b d =
      let P = OnlyPlayed b in
      let no = λ (hr : Hresult). refused-OnlyPlayed hr b d in
      if_both P b.buffer_lost _ _ (no Win.buffer_lost) (
        if_both P effects _ _ (no invalid_param) (
          if_both P (has b.shared.flags caps_locdefer) _ _
            (defer_location-OnlyPlayed g loc_state flags b d) (no ds_ok)))
