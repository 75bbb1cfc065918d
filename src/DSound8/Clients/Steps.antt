-- ===== src/DSound8/Clients/Steps.antt =====
-- Every operation that clients are allowed, with whatever OpenAL answers, is no fault in a session and
-- leaves a session.
use dsoal.Prelude.{
  ℕ, ◌≡◌, ◌≢◌, refl, sym, ◌∙◌, true, false, Option, some, List, [], ◌∷◌, Option-cases, inl, inr,
}
use dsoal.Win.{PositionNotify, level_writeprimary}
use dsoal.Al.{Floats}
use dsoal.Device.{SharedDevice}
use dsoal.Buffer.{Buffer, Outcome}
use dsoal.Buffer.Cursor
use dsoal.Buffer.Cursor.{SourceView}
use dsoal.Buffer.Playback
use dsoal.Buffer.Notify
use dsoal.Buffer.Setup.Ready.{IsFloat, Fits}
use dsoal.Pool.Sums.{pool_sum}
use dsoal.Primary.{PrimaryBuffer}
use dsoal.Primary.Calls.{ClientCall, client_call, client_call-IsHeld, client_call-absent}
use dsoal.Primary.Listener3d
use dsoal.Primary.Listener3d.Apart.{Apart, listener_call-Apart, commit_listener-Apart}
use dsoal.Primary.Emulation.Held.{IsHeld, same-IsHeld}
use dsoal.Primary.Emulation.Sessions
use dsoal.Primary.Emulation.Sessions.{Genuine, perform-IsHeld}
use dsoal.Primary.Emulation.Absent.{OfClient, perform-absent}
use dsoal.DSound8.{Pointer, DSound8, contains, deref, is_pending_notify}
use dsoal.DSound8.Pending.{IsLive}
use dsoal.DSound8.Level.{with_primary, set_cooperative_level}
use dsoal.DSound8.Creation.{buffers_of}
use dsoal.DSound8.Creation.Faults.{buffers_of-live}
use dsoal.DSound8.Creation.Counted.{hw_of, sw_of}
use dsoal.DSound8.Creation.Calls.{with_primary-IsCounted}
use dsoal.DSound8.Clients.{
  Edit, edit, Operation, create, duplicate, set_level, on_buffer, play, acquire, stop,
  set_notifications, notify_round, on_listener, commit, on_primary, call_primary, release, put_at,
  play_at, stop_at, notifications_at, commit_at, listener_at, edit_at, perform,
}
use dsoal.DSound8.Clients.Usable.{IsSession, hw_rest, sw_rest, buffer-Accounts, put_at-IsSession}
use dsoal.DSound8.Clients.Edits.{
  Moved, edit-Edited, stop-Edited, notifications-Edited, play-Moved, acquire-Moved,
}
use dsoal.DSound8.Clients.Rounds.{
  Lands, Edited-Lands, triggered-Lands, parent_calls-Lands, commit_3d-Committed, put-still,
}
use dsoal.DSound8.Clients.Creations.{Goes, create-Goes, duplicate_sound_buffer-Goes}
use dsoal.DSound8.Clients.Releases.{dispose-IsSession}
use dsoal.DSound8.Clients.Levels.{set_cooperative_level-IsSession}

module _ (fl : Floats) where
  open fl use {D3dValue}

  -- What is asked of an operation: its pointer leads to a buffer, one that is released awaits no
  -- notification, OpenAL makes no source 0, the numbers of a request are those of its fields' widths,
  -- and a group of buffers can be allocated.
  abbrev pub Permitted : Operation fl → DSound8 D3dValue → Type 0
  Permitted (create w place outer desc) s =
      (w.given.new_source ≢ 0) × (w.allocates ≡ true) × Fits desc
  Permitted (duplicate w p place) s =
      (w.given.new_source ≢ 0) × (w.allocates ≡ true) × IsLive s.secondary_buffers p
  Permitted (set_level g st answers level) s = g.new_source ≢ 0
  Permitted (on_buffer p e) s = IsLive s.secondary_buffers p
  Permitted (play p view g x priority flags) s = (g.new_source ≢ 0) × IsLive s.secondary_buffers p
  Permitted (acquire p g loc_state flags effects) s =
      (g.new_source ≢ 0) × IsLive s.secondary_buffers p
  Permitted (stop p view) s = IsLive s.secondary_buffers p
  Permitted (set_notifications p view ns) s = IsLive s.secondary_buffers p
  Permitted (notify_round view) s = Unit
  Permitted (on_listener c apply) s = Unit
  Permitted commit s = Unit
  Permitted (call_primary c) s = Unit
  Permitted (on_primary op) s = Genuine fl op × OfClient fl s.prio_level op
  Permitted (release p) s = IsLive s.secondary_buffers p × (contains p s.notify_buffers ≡ false)

  Lands-Goes : (s : DSound8 D3dValue) (o : Option (DSound8 D3dValue)) → Lands fl s o → Goes fl o
  Lands-Goes s o v = record { after = v.after; no_fault = v.no_fault; session = v.session }

  edit_at-Goes :
      (e : Edit fl) (p : Pointer) (s : DSound8 D3dValue)
      → IsSession fl s
      → IsLive s.secondary_buffers p
      → Goes fl (edit_at fl e p s)
  unfolding edit_at
  edit_at-Goes e p s v (b, there) =
      let c = edit fl e s b in
      rw (there, edit_at)
        (Lands-Goes s (some (put_at p c s)) (
          Edited-Lands fl p b c s v there
            (edit-Edited fl e s b (buffer-Accounts fl p b s v there).1)))

  -- The pointer leads to the changed buffer.
  put-IsLive :
      (p : Pointer) (b : Buffer D3dValue) (o : Outcome D3dValue) (s : DSound8 D3dValue)
      → IsSession fl s
      → deref p s.secondary_buffers ≡ some b
      → IsLive (put_at p o.buffer (record s { shared = o.device })).secondary_buffers p
  unfolding put_at
  put-IsLive p b o s v there = (put-still fl p b o.buffer s v there (p ∷ []) ((b, there), tt)).0

  play_at-Goes :
      (view : Pointer → SourceView) (p : Pointer) (f : Buffer D3dValue → Outcome D3dValue)
      (s : DSound8 D3dValue)
      → IsSession fl s
      → IsLive s.secondary_buffers p
      → ((b : Buffer D3dValue)
          → deref p s.secondary_buffers ≡ some b
          → Moved fl b (hw_rest fl p s) (sw_rest fl p s) (f b))
      → Goes fl (play_at fl view p f s)
  unfolding play_at
  play_at-Goes view p f s v (b, there) h =
      let o = f b in
      let m = h b there in
      let s' = put_at p o.buffer (record s { shared = o.device }) in
      let v' =
        put_at-IsSession fl p b o.buffer o.device s v there m.accounts m.usable m.same_shared in
      rw (there, play_at)
        (Lands-Goes s' _
          (parent_calls-Lands fl view p o.parent_calls s' v' (put-IsLive p b o s v there)))

  stop_at-Goes :
      (view : Pointer → SourceView) (p : Pointer) (s : DSound8 D3dValue)
      → IsSession fl s
      → IsLive s.secondary_buffers p
      → Goes fl (stop_at fl view p s)
  unfolding stop_at
  stop_at-Goes view p s v (b, there) =
      let o = Playback.stop (view p) b s.shared in
      let t = parent_calls-Lands fl view p o.parent_calls s v (b, there) in
      let (c, there') = (t.still (p ∷ []) ((b, there), tt)).0 in
      rw (there, stop_at)
        (rw (t.no_fault, stop_at)
          (rw (there', stop_at)
            (Lands-Goes t.after _ (
              Edited-Lands fl p c _ t.after t.session there' (
                stop-Edited fl (view p) c t.after.shared
                  (buffer-Accounts fl p c t.after t.session there').1)))))

  notifications_at-Goes :
      (view : Pointer → SourceView) (p : Pointer) (ns : Option (List PositionNotify))
      (s : DSound8 D3dValue)
      → IsSession fl s
      → IsLive s.secondary_buffers p
      → Goes fl (notifications_at fl view p ns s)
  unfolding notifications_at
  notifications_at-Goes view p ns s v (b, there) =
      let pending = is_pending_notify p s in
      let cs = (Notify.set_notification_positions (view p).state pending ns b).2 in
      let t = parent_calls-Lands fl view p cs s v (b, there) in
      let (c, there') = (t.still (p ∷ []) ((b, there), tt)).0 in
      rw (there, notifications_at)
        (rw (t.no_fault, notifications_at)
          (rw (there', notifications_at)
            (Lands-Goes t.after _ (
              Edited-Lands fl p c _ t.after t.session there' (
                notifications-Edited fl (view p).state pending ns c
                  (buffer-Accounts fl p c t.after t.session there').1)))))

  -- The primary buffer changes, and with it the device.
  primary-IsSession :
      (p : PrimaryBuffer D3dValue) (d : SharedDevice) (s : DSound8 D3dValue)
      → IsSession fl s
      → IsHeld fl (pool_sum hw_of s.secondary_buffers) (pool_sum sw_of s.secondary_buffers) p d
      → (s.prio_level ≢ level_writeprimary → p.write_emu ≡ s.primary_buffer.write_emu)
      → IsSession fl (record s { primary_buffer = p; shared = d })
  primary-IsSession p d s v h e = record {
    counted = with_primary-IsCounted fl s p d v.counted h e;
    usable = v.usable;
    spatial = v.spatial;
  }

  Apart-IsSession :
      (p : PrimaryBuffer D3dValue) (s : DSound8 D3dValue)
      → IsSession fl s
      → Apart s.primary_buffer p
      → IsSession fl (record s { primary_buffer = p })
  Apart-IsSession p s v h =
      primary-IsSession p s.shared s v
        (same-IsHeld fl h.same_emu h.same_format v.counted.levelled.held) (λ _. h.same_emu)

  listener_at-Goes :
      (c : Listener3d.Setter fl) (apply : ℕ) (s : DSound8 D3dValue)
      → IsSession fl s
      → Goes fl (listener_at fl c apply s)
  unfolding listener_at
  listener_at-Goes c apply s v = elim (Option-cases (buffers_of s.buffers_3d s.secondary_buffers)) [
    | inl e ↦ absurd (buffers_of-live s.buffers_3d s.secondary_buffers v.counted.live_3d e)
    | inr (bs, e) ↦
        (let p = (Listener3d.call fl s.shared.extensions bs c apply s.primary_buffer).1 in
          rw (e, listener_at)
            (record {
              after = record s { primary_buffer = p };
              no_fault = refl;
              session =
                  Apart-IsSession p s v
                    (listener_call-Apart fl s.shared.extensions bs c apply s.primary_buffer);
            }))
  ]

  commit_at-Goes : (s : DSound8 D3dValue) → IsSession fl s → Goes fl (commit_at fl s)
  unfolding commit_at
  commit_at-Goes s v = elim (Option-cases (buffers_of s.buffers_3d s.secondary_buffers)) [
    | inl e ↦ absurd (buffers_of-live s.buffers_3d s.secondary_buffers v.counted.live_3d e)
    | inr (bs, e) ↦
        (let exts = s.shared.extensions in
          let p = (Listener3d.commit_listener fl exts bs s.primary_buffer).0 in
          let t =
            commit_3d-Committed fl exts p.immediate.rolloff_factor s.buffers_3d s v
              v.counted.live_3d in
          let s' = record s { secondary_buffers = t.groups } in
          rw (e, commit_at)
            (rw (t.no_fault, commit_at)
              (record {
                after = record s' { primary_buffer = p };
                no_fault = refl;
                session =
                    Apart-IsSession p s' t.session
                      (commit_listener-Apart fl exts bs s.primary_buffer);
              })))
  ]

  on_primary-IsSession :
      (op : Sessions.Operation fl) (s : DSound8 D3dValue)
      → IsFloat fl
      → IsSession fl s
      → Genuine fl op
      → OfClient fl s.prio_level op
      → IsSession fl (with_primary fl (Sessions.perform fl op s.primary_buffer s.shared) s)
  unfolding with_primary
  on_primary-IsSession op s fv v hg ho =
      let o = Sessions.perform fl op s.primary_buffer s.shared in
      let l = v.counted.levelled in
      primary-IsSession o.primary o.device s v
        (perform-IsHeld fl op s.primary_buffer s.shared _ _ fv hg l.held).state
        (λ ne.
          perform-absent fl op s.prio_level s.primary_buffer s.shared ho ne (l.emulates ne)
          ∙ sym (l.emulates ne))

  call_primary-IsSession :
      (c : ClientCall) (s : DSound8 D3dValue)
      → IsSession fl s
      → IsSession fl (record s {
        primary_buffer = client_call fl s.shared.refresh s.prio_level c s.primary_buffer;
      })
  call_primary-IsSession c s v =
      let refresh = s.shared.refresh in
      let l = v.counted.levelled in
      primary-IsSession _ s.shared s v
        (client_call-IsHeld fl refresh s.prio_level c s.primary_buffer s.shared _ _ l.held)
        (λ ne.
          client_call-absent fl refresh s.prio_level c s.primary_buffer (l.emulates ne)
          ∙ sym (l.emulates ne))

  release-Goes :
      (p : Pointer) (s : DSound8 D3dValue)
      → IsSession fl s
      → IsLive s.secondary_buffers p
      → contains p s.notify_buffers ≡ false
      → Goes fl (perform fl (release p) s)
  unfolding perform
  release-Goes p s v (b, there) h =
      let (s', done, t) = dispose-IsSession fl p b s v there h in
      rw (done, perform) (record { after = s'; no_fault = refl; session = t })

  -- A session: the device's counters agree with the locations of all secondary buffers and of the
  -- emulation of the primary one, within the device's limits; no pointer in the object's lists dangles;
  -- and every secondary buffer has a whole sample storage, valid 3D parameters, a source if it has a
  -- location, and a location unless it is deferred. In a session, every permitted call of a client, and
  -- every round of the notification thread, is no fault and leaves a session, whatever OpenAL answers
  -- and whatever the call returns. Permitted is a call through a pointer that leads to a buffer, which
  -- awaits no notification when it is released, where a group of buffers can be allocated for a
  -- creation, the numbers of a request have the widths of their fields, a call on the primary buffer
  -- meets the object's level, and OpenAL makes no source 0. The floats 1 and 1000000000 are not
  -- negative.
  pub perform-Goes :
      (op : Operation fl) (s : DSound8 D3dValue)
      → IsFloat fl
      → IsSession fl s
      → Permitted op s
      → Goes fl (perform fl op s)
  unfolding perform
  perform-Goes (create w place outer desc) s fv v h =
      create-Goes fl w place outer desc s fv h.0 h.1 h.2 v
  perform-Goes (duplicate w p place) s fv v (hg, ha, (b, there)) =
      duplicate_sound_buffer-Goes fl w p place s b fv hg ha there v
  perform-Goes (set_level g st answers level) s fv v h = record {
    after = (set_cooperative_level fl g st answers level s).1;
    no_fault = refl;
    session = set_cooperative_level-IsSession fl g st answers level s fv h v;
  }
  perform-Goes (on_buffer p e) s fv v h = edit_at-Goes e p s v h
  perform-Goes (play p view g x priority flags) s fv v (hg, live) =
      play_at-Goes view p _ s v live (λ b there.
        let (a, u) = buffer-Accounts fl p b s v there in
        play-Moved fl g x priority flags b s.shared _ _ hg u a)
  perform-Goes (acquire p g loc_state flags effects) s fv v (hg, live) =
      play_at-Goes (λ _. Cursor.no_source) p _ s v live
        (λ b there.
          let (a, u) = buffer-Accounts fl p b s v there in
          acquire-Moved fl g loc_state flags effects b s.shared _ _ hg u a)
  perform-Goes (stop p view) s fv v h = stop_at-Goes view p s v h
  perform-Goes (set_notifications p view ns) s fv v h = notifications_at-Goes view p ns s v h
  perform-Goes (notify_round view) s fv v h = Lands-Goes s _ (triggered-Lands fl view s v)
  perform-Goes (on_listener c apply) s fv v h = listener_at-Goes c apply s v
  perform-Goes commit s fv v h = commit_at-Goes s v
  perform-Goes (on_primary op) s fv v h = record {
    after = with_primary fl (Sessions.perform fl op s.primary_buffer s.shared) s;
    no_fault = refl;
    session = on_primary-IsSession op s fv v h.0 h.1;
  }
  perform-Goes (call_primary c) s fv v h = record {
    after = record s {
      primary_buffer = client_call fl s.shared.refresh s.prio_level c s.primary_buffer;
    };
    no_fault = refl;
    session = call_primary-IsSession c s v;
  }
  perform-Goes (release p) s fv v h = release-Goes p s v h.0 h.1
