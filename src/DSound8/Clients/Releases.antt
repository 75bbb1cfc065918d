-- ===== src/DSound8/Clients/Releases.antt =====
-- The release of a buffer that awaits no notification leaves a session: its source is given back, and
-- it leaves the list of 3D buffers if it is one.
use dsoal.Prelude.{
  ℕ, ◌+◌, ◌≡◌, sym, ◌∙◌, arith, true, false, none, some, List, [], ◌∷◌, if◌then◌else◌, All,
  if_cases, Bool-cases, inl, inr,
}
use dsoal.Win.{has, caps_ctrl3d}
use dsoal.Al.{Floats}
use dsoal.Device.{SharedDevice}
use dsoal.Buffer.{Buffer, LocStatus, none_any}
use dsoal.Buffer.Location.{destroy}
use dsoal.Buffer.Location.Accounting.{Accounts, hw_use, sw_use, release_loc-Accounts}
use dsoal.Pool
use dsoal.Pool.{BufferSubList}
use dsoal.Pool.Groups.{Changes, dispose-IsPool}
use dsoal.Pool.Every.{dispose-Every}
use dsoal.DSound8.{Pointer, same_pointer, DSound8, contains, remove, deref, dispose}
use dsoal.DSound8.Pending.{IsLive, free-IsLive}
use dsoal.DSound8.Clients.Usable.{
  Is3d, IsUsable, IsSession, others, hw_rest, sw_rest, buffer-Accounts,
}

module _ {F : Type 0} where
  Is3d-IsLive :
      (gs : List (BufferSubList (Buffer F))) (ps : List Pointer)
      → All (Is3d gs) ps
      → All (IsLive gs) ps
  Is3d-IsLive gs [] a = tt
  Is3d-IsLive gs (p ∷ ps) a = ((a.0.0, a.0.1), Is3d-IsLive gs ps a.1)

  module _ (p : Pointer) (b : Buffer F) (gs gs' : List (BufferSubList (Buffer F)))
      (changes : Changes p.group p.slot none gs gs') where
    -- The pointers that are left lead where they did.
    remove-Is3d : (ps : List Pointer) → All (Is3d gs) ps → All (Is3d gs') (remove p ps)
    unfolding remove
    remove-Is3d [] a = tt
    remove-Is3d (q ∷ qs) a = elim (Bool-cases (same_pointer q p)) [
      | inl same ↦ rw same (remove-Is3d qs a.1)
      | inr other ↦
          (let (d, there, flag) = a.0 in
            rw other ((d, changes q.group q.slot ∙ rw other there, flag), remove-Is3d qs a.1))
    ]

    -- A buffer that is no 3D one is not in the list.
    keep-Is3d :
        (ps : List Pointer)
        → deref p gs ≡ some b
        → has b.shared.flags caps_ctrl3d ≡ false
        → All (Is3d gs) ps
        → All (Is3d gs') ps
    keep-Is3d [] e flat a = tt
    keep-Is3d (q ∷ qs) e flat a =
        let (d, there, flag) = a.0 in
        elim (Bool-cases (same_pointer q p)) [
          | inl same ↦
              (let eg : q.group ≡ p.group = ground arith in
                let es : q.slot ≡ p.slot = ground arith in
                let one : some b ≡ some d = sym e ∙ sym (rw (eg, es)) ∙ there in
                let eq : b ≡ d = cc in
                let flag' : has b.shared.flags caps_ctrl3d ≡ true = rw eq flag in cc)
          | inr other ↦
              ((d, changes q.group q.slot ∙ rw other there, flag), keep-Is3d qs e flat a.1)
        ]

module _ (fl : Floats) where
  open fl use {D3dValue}

  -- The source goes back to the device.
  destroyed-Accounts :
      (b : Buffer D3dValue) (d : SharedDevice) (hw sw : ℕ)
      → Accounts d hw sw b.loc_status
      → Accounts (destroy fl b d).0 hw sw none_any
  unfolding destroy
  destroyed-Accounts b d hw sw a = (release_loc-Accounts b.loc_status d hw sw a).0

  Accounts-out :
      (d : SharedDevice) (hw sw : ℕ) (loc : LocStatus)
      → Accounts d (hw + hw_use loc) (sw + sw_use loc) none_any
      → Accounts d hw sw loc
  Accounts-out d hw sw loc a = record {
    hw_count = omega (arith, a.hw_count);
    sw_count = omega (arith, a.sw_count);
    hw_bound = a.hw_bound;
    sw_bound = a.sw_bound;
    hw_word = a.hw_word;
    sw_word = a.sw_word;
  }

  -- Disposing of a buffer that is not in the list of those that await notifications is no fault and
  -- leaves a session.
  pub dispose-IsSession :
      (p : Pointer) (b : Buffer D3dValue) (s : DSound8 D3dValue)
      → IsSession fl s
      → deref p s.secondary_buffers ≡ some b
      → contains p s.notify_buffers ≡ false
      → (s' : DSound8 D3dValue) × (dispose fl p s ≡ some (s', (destroy fl b s.shared).1))
        × IsSession fl s'
  unfolding dispose others
  dispose-IsSession p b s v e h =
      let gs = s.secondary_buffers in
      let gs' = Pool.dispose p.group p.slot gs in
      let (pool, changes) = dispose-IsPool p.group p.slot b gs v.counted.levelled.pool e in
      let l = v.counted.levelled in
      let ps = if has b.shared.flags caps_ctrl3d then remove p s.buffers_3d else s.buffers_3d in
      let spatial : All (Is3d gs') ps =
        if_cases (All (Is3d gs')) (has b.shared.flags caps_ctrl3d) _ _
          (λ _. remove-Is3d p b gs gs' changes s.buffers_3d v.spatial)
          (λ flat. keep-Is3d p b gs gs' changes s.buffers_3d e flat v.spatial) in
      (
        record s { shared = (destroy fl b s.shared).0; secondary_buffers = gs'; buffers_3d = ps },
        rw (e, dispose),
        record {
          counted = record {
            levelled = record {
              pool = pool;
              held = record {
                accounts = Accounts-out _ _ _ _ (
                    destroyed-Accounts b s.shared (hw_rest fl p s) (sw_rest fl p s)
                      (buffer-Accounts fl p b s v e).0);
                held = l.held.held;
                stored = l.held.stored;
              };
              level = l.level;
              emulates = l.emulates;
            };
            live_3d = Is3d-IsLive gs' ps spatial;
            live_notify = free-IsLive p gs gs' s.notify_buffers changes h v.counted.live_notify;
          };
          usable = dispose-Every (IsUsable fl) p.group p.slot gs v.usable;
          spatial = spatial;
        },
      )
