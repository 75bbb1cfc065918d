-- ===== src/DSound8/Clients/Edits.antt =====
-- The operations of a secondary buffer leave it usable.
use dsoal.Prelude.{ℕ, ◌≡◌, ◌≢◌, sym, ◌∙◌, arith, Bool, false, Option, List, ℤ}
use dsoal.Win.{has, caps_locdefer, PositionNotify}
use dsoal.Al.{Floats, Extensions}
use dsoal.Device.{SharedDevice}
use dsoal.Buffer.{Buffer, Outcome}
use dsoal.Buffer.Location.{Given}
use dsoal.Buffer.Location.Accounting.{Accounts}
use dsoal.Buffer.Cursor
use dsoal.Buffer.Cursor.{SourceView, OutPointers}
use dsoal.Buffer.Playback
use dsoal.Buffer.Playback.{PlayAnswers}
use dsoal.Buffer.Playback.Progress.{Keeps, play-Keeps, acquire_resources-Keeps}
use dsoal.Buffer.Playback.Storage.{OnlyPlayed, play-OnlyPlayed, acquire_resources-OnlyPlayed}
use dsoal.Buffer.Control
use dsoal.Buffer.Notify.{update_notify, set_notification_positions}
use dsoal.Buffer.Spatial
use dsoal.Buffer.Setters.Storage.{Stays, call-Stays, commit-Stays}
use dsoal.Buffer.Setters.Validity.{IsSpatial, call-Sets, commit-IsSpatial}
use dsoal.DSound8.{DSound8}
use dsoal.DSound8.Clients.{
  Edit, edit, restore, set_current_position, lock, unlock, set_volume, set_pan, set_frequency,
  set_3d,
}
use dsoal.DSound8.Clients.Usable.{IsUsable}

module _ (fl : Floats) where
  open fl use {D3dValue}

  Stays-IsUsable :
      (b c : Buffer D3dValue) → IsUsable fl b → Stays b c → IsSpatial fl c → IsUsable fl c
  Stays-IsUsable b c u h sp = record {
    whole = rw (h.same_shared) (u.whole);
    source = λ ne e. u.source (λ l. ne (h.same_loc ∙ l)) (sym h.same_source ∙ e);
    located = λ f l. u.located (rw (h.same_shared) at f) (sym h.same_loc ∙ l);
    spatial = sp;
  }

  -- The 3D parameters are left alone too.
  record Flat (b c : Buffer D3dValue) : Type 0 where
    stays : Stays b c
    same_immediate : c.immediate ≡ b.immediate
    same_deferred : c.deferred ≡ b.deferred

  Flat-IsUsable : (b c : Buffer D3dValue) → IsUsable fl b → Flat b c → IsUsable fl c
  Flat-IsUsable b c u h = Stays-IsUsable b c u h.stays (record {
    immediate = rw (h.same_immediate) (u.spatial.immediate);
    deferred = rw (h.same_deferred) (u.spatial.deferred);
  })

  restore-Flat :
      (level : ℕ) (emu : Bool) (b : Buffer D3dValue) → Flat b (Playback.restore level emu b).1
  unfolding Playback.restore
  restore-Flat level emu b = ground arith

  set_current_position-Flat :
      (n : ℕ) (b : Buffer D3dValue) → Flat b (Cursor.set_current_position n b).1
  unfolding Cursor.set_current_position
  set_current_position-Flat n b = ground arith

  lock-Flat :
      (refresh : ℕ) (answer : SourceView) (out : OutPointers) (offset bytes flags : ℕ)
      (b : Buffer D3dValue)
      → Flat b (Cursor.lock refresh answer out offset bytes flags b).2
  unfolding Cursor.lock Cursor.lock_at
  lock-Flat refresh answer out offset bytes flags b = ground arith

  unlock-Flat :
      (ofs1 bytes1 : ℕ) (ptr2 : Option ℕ) (bytes2 : ℕ) (b : Buffer D3dValue)
      → Flat b (Cursor.unlock ofs1 bytes1 ptr2 bytes2 b).1
  unfolding Cursor.unlock
  unlock-Flat ofs1 bytes1 ptr2 bytes2 b = ground arith

  set_volume-Flat : (v : ℤ) (b : Buffer D3dValue) → Flat b (Control.set_volume fl v b).1
  unfolding Control.set_volume
  set_volume-Flat v b = ground arith

  set_pan-Flat :
      (exts : Extensions) (v : ℤ) (b : Buffer D3dValue) → Flat b (Control.set_pan fl exts v b).1
  unfolding Control.set_pan
  set_pan-Flat exts v b = ground arith

  set_frequency-Flat : (n : ℕ) (b : Buffer D3dValue) → Flat b (Control.set_frequency fl n b).1
  unfolding Control.set_frequency
  set_frequency-Flat n b = ground arith

  -- What a change of a buffer that takes no source gives
  pub record Edited (b c : Buffer D3dValue) : Type 0 where
    pub usable : IsUsable fl c
    pub same_loc : c.loc_status ≡ b.loc_status
    pub same_shared : c.shared ≡ b.shared

  Flat-Edited : (b c : Buffer D3dValue) → IsUsable fl b → Flat b c → Edited b c
  Flat-Edited b c u h = record {
    usable = Flat-IsUsable b c u h;
    same_loc = h.stays.same_loc;
    same_shared = h.stays.same_shared;
  }

  pub edit-Edited :
      (e : Edit fl) (s : DSound8 D3dValue) (b : Buffer D3dValue)
      → IsUsable fl b
      → Edited b (edit fl e s b)
  unfolding edit
  edit-Edited restore s b u = Flat-Edited b _ u (restore-Flat s.prio_level false b)
  edit-Edited (set_current_position n) s b u = Flat-Edited b _ u (set_current_position-Flat n b)
  edit-Edited (lock answer out offset bytes flags) s b u =
      Flat-Edited b _ u (lock-Flat s.shared.refresh answer out offset bytes flags b)
  edit-Edited (unlock ofs1 bytes1 ptr2 bytes2) s b u =
      Flat-Edited b _ u (unlock-Flat ofs1 bytes1 ptr2 bytes2 b)
  edit-Edited (set_volume v) s b u = Flat-Edited b _ u (set_volume-Flat v b)
  edit-Edited (set_pan v) s b u = Flat-Edited b _ u (set_pan-Flat s.shared.extensions v b)
  edit-Edited (set_frequency n) s b u = Flat-Edited b _ u (set_frequency-Flat n b)
  edit-Edited (set_3d c apply) s b u =
      let exts = s.shared.extensions in
      let rolloff = s.primary_buffer.immediate.rolloff_factor in
      let h = call-Stays fl exts rolloff c apply b in
      record {
        usable = Stays-IsUsable b _ u h (call-Sets fl exts rolloff c apply b u.spatial).valid;
        same_loc = h.same_loc;
        same_shared = h.same_shared;
      }

  update_notify-Flat : (v : SourceView) (b : Buffer D3dValue) → Flat b (update_notify v b).buffer
  unfolding update_notify
  update_notify-Flat v b = ground arith

  pub update_notify-Edited :
      (v : SourceView) (b : Buffer D3dValue) → IsUsable fl b → Edited b (update_notify v b).buffer
  update_notify-Edited v b u = Flat-Edited b _ u (update_notify-Flat v b)

  stop-Flat :
      (v : SourceView) (b : Buffer D3dValue) (d : SharedDevice)
      → Flat b (Playback.stop v b d).buffer
  unfolding Playback.stop Playback.refused
  stop-Flat v b d = ground arith

  pub stop-Edited :
      (v : SourceView) (b : Buffer D3dValue) (d : SharedDevice)
      → IsUsable fl b
      → Edited b (Playback.stop v b d).buffer
  stop-Edited v b d u = Flat-Edited b _ u (stop-Flat v b d)

  notifications-Flat :
      (state : ℕ) (pending : Bool) (ns : Option (List PositionNotify)) (b : Buffer D3dValue)
      → Flat b (set_notification_positions state pending ns b).1
  unfolding set_notification_positions
  notifications-Flat state pending Option.none b = ground arith
  notifications-Flat state pending (Option.some ns) b = ground arith

  pub notifications-Edited :
      (state : ℕ) (pending : Bool) (ns : Option (List PositionNotify)) (b : Buffer D3dValue)
      → IsUsable fl b
      → Edited b (set_notification_positions state pending ns b).1
  notifications-Edited state pending ns b u =
      Flat-Edited b _ u (notifications-Flat state pending ns b)

  pub commit-Edited :
      (exts : Extensions) (rolloff : D3dValue) (b : Buffer D3dValue)
      → IsUsable fl b
      → Edited b (Spatial.commit fl exts rolloff b).0
  commit-Edited exts rolloff b u =
      let h = commit-Stays fl exts rolloff b in
      record {
        usable = Stays-IsUsable b _ u h (commit-IsSpatial fl exts rolloff b u.spatial);
        same_loc = h.same_loc;
        same_shared = h.same_shared;
      }

  -- What `Play` and `AcquireResources` give: the counters go on agreeing, and the buffer is usable.
  pub record Moved (b : Buffer D3dValue) (hw sw : ℕ) (o : Outcome D3dValue) : Type 0 where
    pub accounts : Accounts o.device hw sw o.buffer.loc_status
    pub usable : IsUsable fl o.buffer
    pub same_shared : o.buffer.shared ≡ b.shared

  moved :
      (b : Buffer D3dValue) (d : SharedDevice) (hw sw : ℕ) (o : Outcome D3dValue)
      → IsUsable fl b
      → Keeps d hw sw o
      → OnlyPlayed b o
      → (has b.shared.flags caps_locdefer ≡ false → o.buffer.loc_status ≡ b.loc_status)
      → Moved b hw sw o
  moved b d hw sw o u k h l = record {
    accounts = k.accounts;
    same_shared = h.same_shared;
    usable = record {
      whole = rw (h.same_shared) (u.whole);
      source = k.source;
      located = λ f e. let f' = rw (h.same_shared) at f in u.located f' (sym (l f') ∙ e);
      spatial = record {
        immediate = rw (h.same_immediate) (u.spatial.immediate);
        deferred = rw (h.same_deferred) (u.spatial.deferred);
      };
    };
  }

  play_loc :
      (g : Given D3dValue) (x : PlayAnswers) (priority flags : ℕ) (b : Buffer D3dValue)
      (d : SharedDevice)
      → has b.shared.flags caps_locdefer ≡ false
      → (Playback.play fl g x priority flags b d).buffer.loc_status ≡ b.loc_status
  unfolding Playback.play Playback.start Playback.refused
  play_loc g x priority flags b d h = ground arith

  pub play-Moved :
      (g : Given D3dValue) (x : PlayAnswers) (priority flags : ℕ) (b : Buffer D3dValue)
      (d : SharedDevice) (hw sw : ℕ)
      → g.new_source ≢ 0
      → IsUsable fl b
      → Accounts d hw sw b.loc_status
      → Moved b hw sw (Playback.play fl g x priority flags b d)
  play-Moved g x priority flags b d hw sw hg u a =
      moved b d hw sw _ u (play-Keeps fl g x priority flags b d hw sw hg u.source a)
        (play-OnlyPlayed fl g x priority flags b d) (play_loc g x priority flags b d)

  acquire_loc :
      (g : Given D3dValue) (loc_state flags : ℕ) (effects : Bool) (b : Buffer D3dValue)
      (d : SharedDevice)
      → has b.shared.flags caps_locdefer ≡ false
      → (Playback.acquire_resources fl g loc_state flags effects b d).buffer.loc_status
        ≡ b.loc_status
  unfolding Playback.acquire_resources Playback.refused
  acquire_loc g loc_state flags effects b d h = ground arith

  pub acquire-Moved :
      (g : Given D3dValue) (loc_state flags : ℕ) (effects : Bool) (b : Buffer D3dValue)
      (d : SharedDevice) (hw sw : ℕ)
      → g.new_source ≢ 0
      → IsUsable fl b
      → Accounts d hw sw b.loc_status
      → Moved b hw sw (Playback.acquire_resources fl g loc_state flags effects b d)
  acquire-Moved g loc_state flags effects b d hw sw hg u a =
      moved b d hw sw _ u
        (acquire_resources-Keeps fl g loc_state flags effects b d hw sw hg u.source a)
        (acquire_resources-OnlyPlayed fl g loc_state flags effects b d)
        (acquire_loc g loc_state flags effects b d)
