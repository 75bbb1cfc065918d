-- ===== src/DSound8/Pending.antt =====
-- The list of buffers that await notifications leads to live objects while playing buffers are not
-- disposed of; disposing of one that is in the list leaves a dangling pointer.
use dsoal.Prelude.{
  ℕ, ◌≡◌, ◌∙◌, refl, arith, true, false, ◌&&◌, Option, none, some, List, [], ◌∷◌, ◌++◌, ◌==◌,
  if◌then◌else◌, if_both, All, Option-cases, Bool-cases, inl, inr,
}
use dsoal.Al.{Floats}
use dsoal.Buffer.{Buffer}
use dsoal.Buffer.Cursor.{SourceView}
use dsoal.Buffer.Notify.{update_notify}
use dsoal.Pool
use dsoal.Pool.{BufferSubList, buffer_at, put_buffer}
use dsoal.Pool.Groups.{IsPool, Changes, dispose-IsPool, put_buffer-IsPool}
use dsoal.Buffer.Location.{destroy}
use dsoal.Win.{has, caps_ctrl3d}
use dsoal.DSound8.{
  Pointer, same_pointer, DSound8, contains, remove, deref, trigger, trigger_all, dispose,
}

module _ {F : Type 0} where
  -- A pointer leads to an object.
  abbrev pub IsLive : List (BufferSubList (Buffer F)) → Pointer → Type 0
  IsLive gs p = (b : Buffer F) × (deref p gs ≡ some b)

  -- The state: masks that agree, and no dangling pointer in the list.
  pub record IsSound (s : DSound8 F) : Type 0 where
    pub pool : IsPool s.secondary_buffers
    pub live : All (IsLive s.secondary_buffers) s.notify_buffers

  -- A change of one buffer to another leaves every pointer that leads to an object leading to one.
  put-IsLive :
      (k i : ℕ) (c : Buffer F) (gs gs' : List (BufferSubList (Buffer F))) (q : Pointer)
      → Changes k i (some c) gs gs'
      → IsLive gs q
      → IsLive gs' q
  put-IsLive k i c gs gs' q ch (b, e) = elim (Bool-cases ((q.group == k) && (q.slot == i))) [
    | inl h ↦ (c, ch q.group q.slot ∙ rw h)
    | inr h ↦ (b, ch q.group q.slot ∙ rw h e)
  ]

  pub put-All-IsLive :
      (k i : ℕ) (c : Buffer F) (gs gs' : List (BufferSubList (Buffer F))) (ps : List Pointer)
      → Changes k i (some c) gs gs'
      → All (IsLive gs) ps
      → All (IsLive gs') ps
  put-All-IsLive k i c gs gs' [] ch a = tt
  put-All-IsLive k i c gs gs' (q ∷ qs) ch a =
      (put-IsLive k i c gs gs' q ch a.0, put-All-IsLive k i c gs gs' qs ch a.1)

  -- What a round of updates gives.
  record Triggered (gs : List (BufferSubList (Buffer F))) (ps : List Pointer)
      (r : Option (List (BufferSubList (Buffer F)) × List Pointer × List ℕ)) : Type 0 where
    groups : List (BufferSubList (Buffer F))
    kept : List Pointer
    events : List ℕ
    no_fault : r ≡ some (groups, kept, events)
    pool : IsPool groups
    still : (qs : List Pointer) → All (IsLive gs) qs → All (IsLive groups) qs
    kept_live : All (IsLive groups) kept

  trigger-Triggered :
      (view : Pointer → SourceView) (ps : List Pointer) (gs : List (BufferSubList (Buffer F)))
      → IsPool gs
      → All (IsLive gs) ps
      → Triggered gs ps (trigger view ps gs)
  unfolding trigger
  trigger-Triggered view [] gs v a = record {
    groups = gs;
    kept = [];
    events = [];
    no_fault = refl;
    pool = v;
    still = λ qs l. l;
    kept_live = tt;
  }
  trigger-Triggered view (p ∷ ps) gs v a =
      let (b, e) = a.0 in
      let u = update_notify (view p) b in
      let gs' = put_buffer p.group p.slot u.buffer gs in
      let (v', ch) = put_buffer-IsPool p.group p.slot b u.buffer gs v e in
      let t =
        trigger-Triggered view ps gs' v'
          (put-All-IsLive p.group p.slot u.buffer gs gs' ps ch a.1) in
      record {
        groups = t.groups;
        kept = if u.pending then p ∷ t.kept else t.kept;
        events = u.events ++ t.events;
        no_fault = rw (e, trigger) (rw (t.no_fault, trigger));
        pool = t.pool;
        still = λ qs l. t.still qs (put-All-IsLive p.group p.slot u.buffer gs gs' qs ch l);
        kept_live =
            if_both (All (IsLive t.groups)) u.pending _ _
              (
                (t.still (p ∷ []) (put-IsLive p.group p.slot u.buffer gs gs' p ch (b, e), tt)).0,
                t.kept_live,
              )
              t.kept_live;
      }

  -- While no pointer in the list dangles, a round of updates is no fault and leaves the object sound.
  pub trigger_all-IsSound :
      (view : Pointer → SourceView) (s : DSound8 F)
      → IsSound s
      → (s' : DSound8 F) × (events : List ℕ) × (trigger_all view s ≡ some (s', events)) × IsSound s'
  unfolding trigger_all
  trigger_all-IsSound view s v =
      let t = trigger-Triggered view s.notify_buffers s.secondary_buffers v.pool v.live in
      (
        record s { secondary_buffers = t.groups; notify_buffers = t.kept },
        t.events,
        rw (t.no_fault, trigger_all),
        record { pool = t.pool; live = t.kept_live },
      )

  same_pointer-deref :
      (p q : Pointer) (gs : List (BufferSubList (Buffer F)))
      → same_pointer q p ≡ true
      → deref q gs ≡ deref p gs
  same_pointer-deref p q gs h =
      let eg : q.group ≡ p.group = ground arith in
      let es : q.slot ≡ p.slot = ground arith in rw (eg, es)

  -- A pointer to a free slot in the list makes the round of updates a fault.
  dangling-trigger :
      (view : Pointer → SourceView) (p : Pointer) (qs : List Pointer)
      (gs : List (BufferSubList (Buffer F)))
      → IsPool gs
      → deref p gs ≡ none
      → contains p qs ≡ true
      → trigger view qs gs ≡ none
  unfolding trigger contains
  dangling-trigger view p [] gs v e h = cc
  dangling-trigger view p (q ∷ qs) gs v e h = elim (Option-cases (deref q gs)) [
    | inl d ↦ rw (d, trigger)
    | inr (b, d) ↦ elim (Bool-cases (same_pointer q p)) [
      | inl same ↦ cc (same_pointer-deref p q gs same)
      | inr other ↦
          let u = update_notify (view q) b in
          let gs' = put_buffer q.group q.slot u.buffer gs in
          let (v', ch) = put_buffer-IsPool q.group q.slot b u.buffer gs v d in
          let apart : ((p.group == q.group) && (p.slot == q.slot)) ≡ false = ground arith in
          rw (d, trigger)
            (rw (
              dangling-trigger view p qs gs' v' (ch p.group p.slot ∙ rw apart e) (rw other at h),
              trigger,
            ))
    ]
  ]

  -- Freeing one slot leaves the pointers that lead elsewhere alone.
  pub free-IsLive :
      (p : Pointer) (gs gs' : List (BufferSubList (Buffer F))) (qs : List Pointer)
      → Changes p.group p.slot none gs gs'
      → contains p qs ≡ false
      → All (IsLive gs) qs
      → All (IsLive gs') qs
  unfolding contains
  free-IsLive p gs gs' [] ch h a = tt
  free-IsLive p gs gs' (q ∷ qs) ch h a = elim (Bool-cases (same_pointer q p)) [
    | inl same ↦ cc (rw same at h)
    | inr other ↦ (
      (a.0.0, ch q.group q.slot ∙ rw other a.0.1),
      free-IsLive p gs gs' qs ch (rw other at h) a.1,
    )
  ]

module _ (fl : Floats) where
  open fl use {D3dValue}

  pub dispose_lem :
      (p : Pointer) (s : DSound8 D3dValue) (b : Buffer D3dValue)
      → deref p s.secondary_buffers ≡ some b
      → (s' : DSound8 D3dValue) × (dispose fl p s ≡ some (s', (destroy fl b s.shared).1))
        × (s'.secondary_buffers ≡ Pool.dispose p.group p.slot s.secondary_buffers)
        × (s'.notify_buffers ≡ s.notify_buffers)
  unfolding dispose
  dispose_lem p s b e = (
    record s {
      shared = (destroy fl b s.shared).0;
      secondary_buffers = Pool.dispose p.group p.slot s.secondary_buffers;
      buffers_3d = if has b.shared.flags caps_ctrl3d then remove p s.buffers_3d else s.buffers_3d;
    },
    rw (e, dispose),
    refl,
    refl,
  )

  -- Disposing of a buffer that awaits no notification leaves the object sound.
  pub dispose-IsSound :
      (p : Pointer) (s : DSound8 D3dValue) (b : Buffer D3dValue)
      → IsSound s
      → deref p s.secondary_buffers ≡ some b
      → contains p s.notify_buffers ≡ false
      → (s' : DSound8 D3dValue) × (dispose fl p s ≡ some (s', (destroy fl b s.shared).1))
        × IsSound s'
  dispose-IsSound p s b v e h =
      let (s', done, groups, pending) = dispose_lem p s b e in
      let (pool, ch) = dispose-IsPool p.group p.slot b s.secondary_buffers v.pool e in
      (
        s',
        done,
        record {
          pool = rw groups pool;
          live =
              rw (groups, pending)
                (free-IsLive p s.secondary_buffers _ s.notify_buffers ch h v.live);
        },
      )

  -- Disposing of a buffer that still awaits notifications leaves its pointer in the list, where it
  -- leads to no object: the next round of updates is a fault, whatever OpenAL answers.
  pub dispose_dangles :
      (p : Pointer) (s : DSound8 D3dValue) (b : Buffer D3dValue)
      → IsSound s
      → deref p s.secondary_buffers ≡ some b
      → contains p s.notify_buffers ≡ true
      → (s' : DSound8 D3dValue) × (dispose fl p s ≡ some (s', (destroy fl b s.shared).1))
        × (contains p s'.notify_buffers ≡ true)
        × (deref p s'.secondary_buffers ≡ none)
        × ((view : Pointer → SourceView) → trigger_all view s' ≡ none)
  unfolding trigger_all
  dispose_dangles p s b v e h =
      let (s', done, groups, pending) = dispose_lem p s b e in
      let (pool, ch) = dispose-IsPool p.group p.slot b s.secondary_buffers v.pool e in
      let gone : deref p s'.secondary_buffers ≡ none =
        rw groups (ch p.group p.slot ∙ rw (self p.group p.slot)) in
      (
        s',
        done,
        rw pending h,
        gone,
        λ view. rw (
          dangling-trigger view p s'.notify_buffers s'.secondary_buffers (rw groups pool) gone
              (rw pending h),
          trigger_all,
        ),
      )
    where
      self : (k i : ℕ) → ((k == k) && (i == i)) ≡ true
      self k i = ground arith
