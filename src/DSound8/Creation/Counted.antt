-- ===== src/DSound8/Creation/Counted.antt =====
-- A creation keeps the device's counters and the sound object's lists right.
use dsoal.Prelude.{
  ℕ, ◌+◌, ◌≡◌, ◌≢◌, refl, ◌∙◌, arith, true, Option, none, some, List, [], ◌∷◌, ◌++◌, All, ◌&&◌,
  ◌==◌, if◌then◌else◌, if_both, Option-cases, Bool-cases, inl, inr,
}
use dsoal.Win.{failed}
use dsoal.Al.{Floats}
use dsoal.Device.{SharedDevice}
use dsoal.SharedBuffer.{BufferDesc}
use dsoal.Buffer.{Buffer, LocStatus, none_any}
use dsoal.Buffer.Location.{destroy}
use dsoal.Buffer.Location.Accounting.{Accounts, hw_use, sw_use, release_loc-Accounts}
use dsoal.Buffer.Setup
use dsoal.Buffer.Setup.{Initialized}
use dsoal.Buffer.Setup.Ready.{loc_of, IsFloat, Fits, initialize-Starts}
use dsoal.Pool.{BufferSubList, create_secondary_buffer, create_and_dispose, has_free, new_group}
use dsoal.Pool.Groups.{
  IsPool, CreatedIn, new-IsPool, buffer_at-new, create_secondary_buffer-CreatedIn,
}
use dsoal.Pool.Sums.{pool_sum, AddsTo, pool_sum-new, create_secondary_buffer-AddsTo}
use dsoal.DSound8.{Pointer, DSound8}
use dsoal.DSound8.Pending.{IsLive, put-All-IsLive}
use dsoal.DSound8.Level.Exclusive.{IsLevelled}
use dsoal.DSound8.Creation.{Made, Outside, dropped, discard, keep_buffer, settle, create_buffer}

abbrev pub hw_of : {F : Type 0} → Buffer F → ℕ
hw_of b = hw_use b.loc_status

abbrev pub sw_of : {F : Type 0} → Buffer F → ℕ
sw_of b = sw_use b.loc_status

-- The use of a location is that of one more buffer.
pub Accounts-in :
    (d : SharedDevice) (hw sw : ℕ) (loc : LocStatus)
    → Accounts d hw sw loc
    → Accounts d (hw + hw_use loc) (sw + sw_use loc) none_any
Accounts-in d hw sw loc a = record {
  hw_count = omega (arith, a.hw_count);
  sw_count = omega (arith, a.sw_count);
  hw_bound = a.hw_bound;
  sw_bound = a.sw_bound;
  hw_word = a.hw_word;
  sw_word = a.sw_word;
}

-- Two buffers beside the others
Accounts-swap :
    (d : SharedDevice) (hw sw hw' sw' : ℕ) (loc other : LocStatus)
    → hw' ≡ hw_use other + hw
    → sw' ≡ sw_use other + sw
    → Accounts d (hw + hw_use loc) (sw + sw_use loc) other
    → Accounts d hw' sw' loc
Accounts-swap d hw sw hw' sw' loc other eh es a = record {
  hw_count = omega (arith, a.hw_count);
  sw_count = omega (arith, a.sw_count);
  hw_bound = a.hw_bound;
  sw_bound = a.sw_bound;
  hw_word = a.hw_word;
  sw_word = a.sw_word;
}

module _ (fl : Floats) where
  open fl use {D3dValue}

  -- The object: its counters agree with the locations of all secondary buffers and of the emulation of
  -- the primary one, and no pointer in its lists dangles.
  pub record IsCounted (s : DSound8 D3dValue) : Type 0 where
    pub levelled :
        IsLevelled fl (pool_sum hw_of s.secondary_buffers) (pool_sum sw_of s.secondary_buffers) s
    pub live_3d : All (IsLive s.secondary_buffers) s.buffers_3d
    pub live_notify : All (IsLive s.secondary_buffers) s.notify_buffers

  -- The object with another device and other groups that hold the same buffers and another
  regroup :
      (s : DSound8 D3dValue) (d : SharedDevice) (gs : List (BufferSubList (Buffer D3dValue)))
      (ps : List Pointer) (other : LocStatus)
      → IsCounted s
      → IsPool gs
      → pool_sum hw_of gs ≡ hw_use other + pool_sum hw_of s.secondary_buffers
      → pool_sum sw_of gs ≡ sw_use other + pool_sum sw_of s.secondary_buffers
      → Accounts d
          (pool_sum hw_of s.secondary_buffers + hw_use (loc_of s.primary_buffer.write_emu))
          (pool_sum sw_of s.secondary_buffers + sw_use (loc_of s.primary_buffer.write_emu))
          other
      → All (IsLive gs) ps
      → All (IsLive gs) s.notify_buffers
      → IsCounted (record s { shared = d; secondary_buffers = gs; buffers_3d = ps })
  regroup s d gs ps other v p eh es a l3 ln = record {
    levelled = record {
      pool = p;
      held = record {
        accounts =
            Accounts-swap d (pool_sum hw_of s.secondary_buffers)
              (pool_sum sw_of s.secondary_buffers) _ _ (loc_of s.primary_buffer.write_emu) other eh
              es a;
        held = v.levelled.held.held;
        stored = v.levelled.held.stored;
      };
      level = v.levelled.level;
      emulates = v.levelled.emulates;
    };
    live_3d = l3;
    live_notify = ln;
  }

  pub new-IsLive :
      (gs : List (BufferSubList (Buffer D3dValue))) (ps : List Pointer)
      → All (IsLive gs) ps
      → All (IsLive (gs ++ new_group ∷ [])) ps
  new-IsLive gs [] a = tt
  new-IsLive gs (p ∷ ps) a =
      ((a.0.0, buffer_at-new p.group p.slot gs ∙ a.0.1), new-IsLive gs ps a.1)

  -- What a creation makes of the object, where it is no fault.
  abbrev pub Leaves : Option (Made D3dValue) → Type 0
  Leaves none = Unit
  Leaves (some m) = IsCounted m.object

  drop-Accounts :
      (o : Option (Buffer D3dValue)) (d : SharedDevice) (hw sw : ℕ)
      → Accounts d hw sw (loc_of o)
      → Accounts (dropped fl o d).0 hw sw none_any
  unfolding dropped destroy
  drop-Accounts none d hw sw a = a
  drop-Accounts (some b) d hw sw a = (release_loc-Accounts b.loc_status d hw sw a).0

  discard-Leaves :
      (w : Outside D3dValue) (r : Initialized D3dValue) (s : DSound8 D3dValue)
      → IsCounted s
      → Accounts r.device
          (pool_sum hw_of s.secondary_buffers + hw_use (loc_of s.primary_buffer.write_emu))
          (pool_sum sw_of s.secondary_buffers + sw_use (loc_of s.primary_buffer.write_emu))
          (loc_of r.buffer)
      → Leaves (discard fl w r s)
  unfolding discard create_and_dispose
  discard-Leaves w r s v a =
      let gs = s.secondary_buffers in
      let d = (dropped fl r.buffer r.device).0 in
      let a' = drop-Accounts r.buffer r.device _ _ a in
      elim (Bool-cases (has_free gs)) [
        | inl e ↦
            rw (e, discard)
              (regroup s d gs s.buffers_3d none_any v v.levelled.pool (omega arith) (omega arith) a'
                v.live_3d v.live_notify)
        | inr e ↦ elim (Bool-cases (w.allocates)) [
          | inl e' ↦
              rw (e, e', discard)
                (regroup s d (gs ++ new_group ∷ []) s.buffers_3d none_any v
                  (new-IsPool gs v.levelled.pool) (omega (arith, pool_sum-new hw_of gs))
                  (omega (arith, pool_sum-new sw_of gs)) a' (new-IsLive gs s.buffers_3d v.live_3d)
                  (new-IsLive gs s.notify_buffers v.live_notify))
          | inr e' ↦ rw (e, e', discard) tt
        ]
      ]

  All-last :
      (gs : List (BufferSubList (Buffer D3dValue))) (ps : List Pointer) (p : Pointer)
      → All (IsLive gs) ps
      → IsLive gs p
      → All (IsLive gs) (ps ++ p ∷ [])
  All-last gs [] p a l = (l, tt)
  All-last gs (q ∷ ps) p a l = (a.0, All-last gs ps p a.1 l)

  itself : (k i : ℕ) → ((k == k) && (i == i)) ≡ true
  itself k i = ground arith

  keep-Leaves :
      (w : Outside D3dValue) (r : Initialized D3dValue) (b : Buffer D3dValue) (s : DSound8 D3dValue)
      → IsCounted s
      → Accounts r.device
          (pool_sum hw_of s.secondary_buffers + hw_use (loc_of s.primary_buffer.write_emu))
          (pool_sum sw_of s.secondary_buffers + sw_use (loc_of s.primary_buffer.write_emu))
          b.loc_status
      → Leaves (keep_buffer fl w r b s)
  unfolding keep_buffer
  keep-Leaves w r b s v a =
      let gs = s.secondary_buffers in
      elim (Option-cases (create_secondary_buffer w.allocates b gs)) [
        | inl e ↦ rw (e, keep_buffer) tt
        | inr ((k, i, gs'), e) ↦
            (let c =
                rw (e, CreatedIn) at
                  (create_secondary_buffer-CreatedIn w.allocates b gs v.levelled.pool).0 in
              let eh =
                rw (e, AddsTo) at
                  (create_secondary_buffer-AddsTo hw_of w.allocates b gs v.levelled.pool) in
              let es =
                rw (e, AddsTo) at
                  (create_secondary_buffer-AddsTo sw_of w.allocates b gs v.levelled.pool) in
              let live = put-All-IsLive k i b gs gs' s.buffers_3d c.changes v.live_3d in
              rw (e, keep_buffer)
                (regroup s r.device gs'
                  (if r.added_3d
                    then s.buffers_3d ++ record { group = k; slot = i } ∷ []
                    else s.buffers_3d)
                  b.loc_status v c.pool eh es a
                  (if_both (All (IsLive gs')) r.added_3d _ _
                    (All-last gs' s.buffers_3d (record { group = k; slot = i }) live
                      (b, c.changes k i ∙ rw (itself k i) refl))
                    live)
                  (put-All-IsLive k i b gs gs' s.notify_buffers c.changes v.live_notify)))
      ]

  settle-Leaves :
      (w : Outside D3dValue) (r : Initialized D3dValue) (o : Option (Buffer D3dValue))
      (s : DSound8 D3dValue)
      → IsCounted s
      → Leaves (discard fl w r s)
      → Accounts r.device
          (pool_sum hw_of s.secondary_buffers + hw_use (loc_of s.primary_buffer.write_emu))
          (pool_sum sw_of s.secondary_buffers + sw_use (loc_of s.primary_buffer.write_emu))
          (loc_of o)
      → Leaves (settle fl w r o s)
  unfolding settle
  settle-Leaves w r none s v lost a = lost
  settle-Leaves w r (some b) s v lost a = keep-Leaves w r b s v a

  pub create_buffer-Leaves :
      (w : Outside D3dValue) (r : Initialized D3dValue) (s : DSound8 D3dValue)
      → IsCounted s
      → Accounts r.device
          (pool_sum hw_of s.secondary_buffers + hw_use (loc_of s.primary_buffer.write_emu))
          (pool_sum sw_of s.secondary_buffers + sw_use (loc_of s.primary_buffer.write_emu))
          (loc_of r.buffer)
      → Leaves (create_buffer fl w r s)
  unfolding create_buffer
  create_buffer-Leaves w r s v a =
      let lost = discard-Leaves w r s v a in
      if_both Leaves (failed r.hr) _ _ lost (settle-Leaves w r r.buffer s v lost a)

  -- A secondary buffer that is described by a request
  pub described-Leaves :
      (w : Outside D3dValue) (desc : BufferDesc) (s : DSound8 D3dValue)
      → IsFloat fl
      → w.given.new_source ≢ 0
      → Fits (some desc)
      → IsCounted s
      → Leaves (
          create_buffer fl w
            (Setup.initialize fl w.given w.storage
              (some desc)
              (Setup.construct fl s.is_8 none)
              s.shared)
            s)
  described-Leaves w desc s fv hg hf v =
      create_buffer-Leaves w _ s v
        (initialize-Starts fl w.given w.storage (some desc) s.is_8 none s.shared _ _ fv hg hf tt
          (Accounts-in s.shared _ _ _ v.levelled.held.accounts)).accounts
