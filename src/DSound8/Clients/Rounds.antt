-- ===== src/DSound8/Clients/Rounds.antt =====
-- A round of updates, the calls of a buffer on the sound object, and the commit of the deferred
-- settings are no fault in a session, and leave one.
use dsoal.Prelude.{
  ℕ, ◌≡◌, refl, not, if◌then◌else◌, Option, some, List, [], ◌∷◌, ◌++◌, All, if_both,
}
use dsoal.Al.{Floats, Extensions}
use dsoal.Buffer.{Buffer, ParentCall, add_notify, trigger_notifies, remove_notify}
use dsoal.Buffer.Cursor.{SourceView}
use dsoal.Buffer.Notify.{update_notify}
use dsoal.Buffer.Spatial
use dsoal.Pool.{BufferSubList, put_buffer}
use dsoal.Pool.Groups.{put_buffer-IsPool}
use dsoal.DSound8.{
  Pointer, same_pointer, DSound8, contains, remove, deref, trigger, trigger_all, add_notify_buffer,
  remove_notify_buffer,
}
use dsoal.DSound8.Pending.{IsLive, put-All-IsLive}
use dsoal.DSound8.Waiting.{All-append, All-keep}
use dsoal.DSound8.Clients.{triggered, parent_call, parent_calls, put_at, commit_3d}
use dsoal.DSound8.Clients.Usable.{IsSession, buffer-Accounts, put_at-IsSession, notify-IsSession}
use dsoal.DSound8.Clients.Edits.{Edited, update_notify-Edited, commit-Edited}

module _ (fl : Floats) where
  open fl use {D3dValue}

  -- What an operation leaves: no fault, and a session in which the same pointers lead to buffers
  pub record Lands (s : DSound8 D3dValue) (o : Option (DSound8 D3dValue)) : Type 0 where
    pub after : DSound8 D3dValue
    pub no_fault : o ≡ some after
    pub session : IsSession fl after
    pub still :
        (ps : List Pointer)
        → All (IsLive s.secondary_buffers) ps
        → All (IsLive after.secondary_buffers) ps

  -- A buffer is changed that takes no source.
  pub Edited-IsSession :
      (p : Pointer) (b c : Buffer D3dValue) (s : DSound8 D3dValue)
      → IsSession fl s
      → deref p s.secondary_buffers ≡ some b
      → Edited fl b c
      → IsSession fl (put_at p c s)
  Edited-IsSession p b c s v e h =
      let a = (buffer-Accounts fl p b s v e).0 in
      put_at-IsSession fl p b c s.shared s v e (rw (h.same_loc) a) h.usable h.same_shared

  pub put-still :
      (p : Pointer) (b c : Buffer D3dValue) (s : DSound8 D3dValue)
      → IsSession fl s
      → deref p s.secondary_buffers ≡ some b
      → (ps : List Pointer) → All (IsLive s.secondary_buffers) ps
      → All (IsLive (put_buffer p.group p.slot c s.secondary_buffers)) ps
  put-still p b c s v e ps a =
      let gs = s.secondary_buffers in
      let ch = (put_buffer-IsPool p.group p.slot b c gs v.counted.levelled.pool e).1 in
      put-All-IsLive p.group p.slot c gs (put_buffer p.group p.slot c gs) ps ch a

  pub Edited-Lands :
      (p : Pointer) (b c : Buffer D3dValue) (s : DSound8 D3dValue)
      → IsSession fl s
      → deref p s.secondary_buffers ≡ some b
      → Edited fl b c
      → Lands s (some (put_at p c s))
  unfolding put_at
  Edited-Lands p b c s v e h = record {
    after = put_at p c s;
    no_fault = refl;
    session = Edited-IsSession p b c s v e h;
    still = put-still p b c s v e;
  }

  -- A round over a part of the list
  record Round (s : DSound8 D3dValue)
      (r : Option (List (BufferSubList (Buffer D3dValue)) × List Pointer × List ℕ)) : Type 0 where
    groups : List (BufferSubList (Buffer D3dValue))
    kept : List Pointer
    events : List ℕ
    no_fault : r ≡ some (groups, kept, events)
    session : IsSession fl (record s { secondary_buffers = groups })
    still : (ps : List Pointer) → All (IsLive s.secondary_buffers) ps → All (IsLive groups) ps
    kept_live : All (IsLive groups) kept

  trigger-Round :
      (view : Pointer → SourceView) (ps : List Pointer) (s : DSound8 D3dValue)
      → IsSession fl s
      → All (IsLive s.secondary_buffers) ps
      → Round s (trigger view ps s.secondary_buffers)
  unfolding trigger put_at
  trigger-Round view [] s v a = record {
    groups = s.secondary_buffers;
    kept = [];
    events = [];
    no_fault = refl;
    session = v;
    still = λ ps l. l;
    kept_live = tt;
  }
  trigger-Round view (p ∷ ps) s v a =
      let (b, e) = a.0 in
      let u = update_notify (view p) b in
      let s' = put_at p u.buffer s in
      let h = update_notify-Edited fl (view p) b (buffer-Accounts fl p b s v e).1 in
      let t =
        trigger-Round view ps s' (Edited-IsSession p b u.buffer s v e h)
          (put-still p b u.buffer s v e ps a.1) in
      record {
        groups = t.groups;
        kept = if u.pending then p ∷ t.kept else t.kept;
        events = u.events ++ t.events;
        no_fault = rw (e, trigger) (rw (t.no_fault, trigger));
        session = t.session;
        still = λ qs l. t.still qs (put-still p b u.buffer s v e qs l);
        kept_live =
            if_both (All (IsLive t.groups)) u.pending _ _
              ((t.still (p ∷ []) (put-still p b u.buffer s v e (p ∷ []) (a.0, tt))).0, t.kept_live)
              t.kept_live;
      }

  -- In a session the round of updates is no fault.
  pub triggered-Lands :
      (view : Pointer → SourceView) (s : DSound8 D3dValue)
      → IsSession fl s
      → Lands s (triggered view s)
  unfolding triggered trigger_all
  triggered-Lands view s v =
      let t = trigger-Round view s.notify_buffers s v v.counted.live_notify in
      let s' = record s { secondary_buffers = t.groups } in
      record {
        after = record s' { notify_buffers = t.kept };
        no_fault = rw (t.no_fault, triggered, trigger_all);
        session = notify-IsSession fl t.kept s' t.session t.kept_live;
        still = t.still;
      }

  add_notify-Lands :
      (p : Pointer) (s : DSound8 D3dValue)
      → IsSession fl s
      → IsLive s.secondary_buffers p
      → Lands s (some (add_notify_buffer p s))
  unfolding add_notify_buffer
  add_notify-Lands p s v l =
      let ps = s.notify_buffers ++ p ∷ [] in
      let live =
        All-append (IsLive s.secondary_buffers) p s.notify_buffers v.counted.live_notify l in
      if_both (λ s'. Lands s (some s')) (contains p s.notify_buffers) _ _
        (record { after = s; no_fault = refl; session = v; still = λ qs a. a })
        (record {
          after = record s { notify_buffers = ps };
          no_fault = refl;
          session = notify-IsSession fl ps s v live;
          still = λ qs a. a;
        })

  remove_notify-Lands :
      (p : Pointer) (s : DSound8 D3dValue)
      → IsSession fl s
      → Lands s (some (remove_notify_buffer p s))
  unfolding remove_notify_buffer remove
  remove_notify-Lands p s v =
      let ps = remove p s.notify_buffers in
      record {
        after = record s { notify_buffers = ps };
        no_fault = refl;
        session = notify-IsSession fl ps s v (
            All-keep (IsLive s.secondary_buffers) (λ q. not (same_pointer q p)) s.notify_buffers
              v.counted.live_notify);
        still = λ qs a. a;
      }

  pub parent_call-Lands :
      (view : Pointer → SourceView) (p : Pointer) (c : ParentCall) (s : DSound8 D3dValue)
      → IsSession fl s
      → IsLive s.secondary_buffers p
      → Lands s (parent_call view p c s)
  unfolding parent_call
  parent_call-Lands view p add_notify s v l = add_notify-Lands p s v l
  parent_call-Lands view p remove_notify s v l = remove_notify-Lands p s v
  parent_call-Lands view p trigger_notifies s v l = triggered-Lands view s v

  pub parent_calls-Lands :
      (view : Pointer → SourceView) (p : Pointer) (cs : List ParentCall) (s : DSound8 D3dValue)
      → IsSession fl s
      → IsLive s.secondary_buffers p
      → Lands s (parent_calls view p cs s)
  unfolding parent_calls
  parent_calls-Lands view p [] s v l = record {
    after = s;
    no_fault = refl;
    session = v;
    still = λ ps a. a;
  }
  parent_calls-Lands view p (c ∷ cs) s v l =
      let t = parent_call-Lands view p c s v l in
      let r = parent_calls-Lands view p cs t.after t.session (t.still (p ∷ []) (l, tt)).0 in
      record {
        after = r.after;
        no_fault = rw (t.no_fault, parent_calls) (r.no_fault);
        session = r.session;
        still = λ ps a. r.still ps (t.still ps a);
      }

  -- The commit of 3D buffers
  pub record Committed (s : DSound8 D3dValue) (o : Option (List (BufferSubList (Buffer D3dValue))))
      : Type 0 where
    pub groups : List (BufferSubList (Buffer D3dValue))
    pub no_fault : o ≡ some groups
    pub session : IsSession fl (record s { secondary_buffers = groups })
    pub still : (ps : List Pointer) → All (IsLive s.secondary_buffers) ps → All (IsLive groups) ps

  pub commit_3d-Committed :
      (exts : Extensions) (rolloff : D3dValue) (ps : List Pointer) (s : DSound8 D3dValue)
      → IsSession fl s
      → All (IsLive s.secondary_buffers) ps
      → Committed s (commit_3d fl exts rolloff ps s.secondary_buffers)
  unfolding commit_3d put_at
  commit_3d-Committed exts rolloff [] s v a = record {
    groups = s.secondary_buffers;
    no_fault = refl;
    session = v;
    still = λ ps l. l;
  }
  commit_3d-Committed exts rolloff (p ∷ ps) s v a =
      let (b, e) = a.0 in
      let c = (Spatial.commit fl exts rolloff b).0 in
      let h = commit-Edited fl exts rolloff b (buffer-Accounts fl p b s v e).1 in
      let t =
        commit_3d-Committed exts rolloff ps (put_at p c s) (Edited-IsSession p b c s v e h)
          (put-still p b c s v e ps a.1) in
      record {
        groups = t.groups;
        no_fault = rw (e, commit_3d) (t.no_fault);
        session = t.session;
        still = λ qs l. t.still qs (put-still p b c s v e qs l);
      }
