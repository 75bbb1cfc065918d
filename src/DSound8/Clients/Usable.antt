-- ===== src/DSound8/Clients/Usable.antt =====
-- A sound object whose counters agree and whose secondary buffers can all be used goes on being one
-- when a buffer behind a pointer changes.
use dsoal.Prelude.{
  ℕ, ◌+◌, ◌≡◌, ◌≢◌, sym, ◌∙◌, arith, Bool-cases, inl, inr, true, false, some, List, [], ◌∷◌, All,
}
use dsoal.Win.{has, caps_locdefer, caps_ctrl3d}
use dsoal.Al.{Floats}
use dsoal.Device.{SharedDevice}
use dsoal.SharedBuffer.Created.{IsWhole}
use dsoal.Buffer.{Buffer, none_any}
use dsoal.Buffer.Location.Accounting.{Accounts, HasSource, hw_use, sw_use}
use dsoal.Buffer.Setters.Validity.{IsSpatial}
use dsoal.Buffer.Setup.Ready.{loc_of}
use dsoal.Pool
use dsoal.Pool.{BufferSubList, put_buffer}
use dsoal.Pool.Groups.{Changes, put_buffer-IsPool}
use dsoal.Pool.Sums.{pool_sum, pool_sum-put, pool_sum-dispose}
use dsoal.Pool.Every.{Every, buffer_at-Every, put_buffer-Every}
use dsoal.DSound8.{Pointer, same_pointer, DSound8, deref}
use dsoal.DSound8.Pending.{IsLive, put-All-IsLive}
use dsoal.DSound8.Creation.Counted.{hw_of, sw_of, IsCounted}
use dsoal.DSound8.Clients.{put_at}

-- What the other buffers use, for one of them
unfoldable pub others : {F : Type 0} → (Buffer F → ℕ) → Pointer → DSound8 F → ℕ
others use_of p s = pool_sum use_of (Pool.dispose p.group p.slot s.secondary_buffers)

-- A pointer leads to a 3D buffer.
abbrev pub Is3d : {F : Type 0} → List (BufferSubList (Buffer F)) → Pointer → Type 0
Is3d {F} gs p = (b : Buffer F) × (deref p gs ≡ some b) × (has b.shared.flags caps_ctrl3d ≡ true)

module _ {F : Type 0} where
  -- Where a buffer becomes another one with its storage, the pointers lead where they did.
  put-Is3d :
      (p : Pointer) (b c : Buffer F) (gs gs' : List (BufferSubList (Buffer F))) (ps : List Pointer)
      → Changes p.group p.slot (some c) gs gs'
      → deref p gs ≡ some b
      → c.shared ≡ b.shared
      → All (Is3d gs) ps
      → All (Is3d gs') ps
  put-Is3d p b c gs gs' [] ch e h a = tt
  put-Is3d p b c gs gs' (q ∷ qs) ch e h a =
      let rest = put-Is3d p b c gs gs' qs ch e h a.1 in
      let (d, there, flag) = a.0 in
      elim (Bool-cases (same_pointer q p)) [
        | inl same ↦
            (let eg : q.group ≡ p.group = ground arith in
              let es : q.slot ≡ p.slot = ground arith in
              let one : some b ≡ some d = sym e ∙ sym (rw (eg, es)) ∙ there in
              let eq : b ≡ d = cc in ((c, ch q.group q.slot ∙ rw same, rw (h, eq) flag), rest))
        | inr other ↦ ((d, ch q.group q.slot ∙ rw other there, flag), rest)
      ]

module _ (fl : Floats) where
  open fl use {D3dValue}

  -- A buffer that `Play` and the setters can rely on
  pub record IsUsable (b : Buffer D3dValue) : Type 0 where
    pub whole : IsWhole b.shared
    pub source : HasSource b
    pub located : has b.shared.flags caps_locdefer ≡ false → b.loc_status ≢ none_any
    pub spatial : IsSpatial fl b

  -- The state between two calls
  pub record IsSession (s : DSound8 D3dValue) : Type 0 where
    pub counted : IsCounted fl s
    pub usable : Every IsUsable s.secondary_buffers
    pub spatial : All (Is3d s.secondary_buffers) s.buffers_3d

  abbrev pub hw_rest : Pointer → DSound8 D3dValue → ℕ
  hw_rest p s = others hw_of p s + hw_use (loc_of s.primary_buffer.write_emu)

  abbrev pub sw_rest : Pointer → DSound8 D3dValue → ℕ
  sw_rest p s = others sw_of p s + sw_use (loc_of s.primary_buffer.write_emu)

  -- What a session says of one buffer
  pub buffer-Accounts :
      (p : Pointer) (b : Buffer D3dValue) (s : DSound8 D3dValue)
      → IsSession s
      → deref p s.secondary_buffers ≡ some b
      → Accounts s.shared (hw_rest p s) (sw_rest p s) b.loc_status × IsUsable b
  unfolding others
  buffer-Accounts p b s v e =
      let a = v.counted.levelled.held.accounts in
      (
        record {
          hw_count =
              omega
                (arith, a.hw_count, pool_sum-dispose hw_of p.group p.slot b s.secondary_buffers e);
          sw_count =
              omega
                (arith, a.sw_count, pool_sum-dispose sw_of p.group p.slot b s.secondary_buffers e);
          hw_bound = a.hw_bound;
          sw_bound = a.sw_bound;
          hw_word = a.hw_word;
          sw_word = a.sw_word;
        },
        buffer_at-Every IsUsable p.group p.slot s.secondary_buffers v.usable e,
      )

  -- A buffer changes, with the device.
  pub put_at-IsSession :
      (p : Pointer) (b c : Buffer D3dValue) (d : SharedDevice) (s : DSound8 D3dValue)
      → IsSession s
      → deref p s.secondary_buffers ≡ some b
      → Accounts d (hw_rest p s) (sw_rest p s) c.loc_status
      → IsUsable c
      → c.shared ≡ b.shared
      → IsSession (put_at p c (record s { shared = d }))
  unfolding others put_at
  put_at-IsSession p b c d s v e a u h =
      let gs = s.secondary_buffers in
      let (pool, changes) = put_buffer-IsPool p.group p.slot b c gs v.counted.levelled.pool e in
      let gs' = put_buffer p.group p.slot c gs in
      let l = v.counted.levelled in
      record {
        counted = record {
          levelled = record {
            pool = pool;
            held = record {
              accounts = record {
                hw_count = omega (
                  arith,
                  a.hw_count,
                  pool_sum-put hw_of p.group p.slot b c gs e,
                  pool_sum-dispose hw_of p.group p.slot b gs e,
                );
                sw_count = omega (
                  arith,
                  a.sw_count,
                  pool_sum-put sw_of p.group p.slot b c gs e,
                  pool_sum-dispose sw_of p.group p.slot b gs e,
                );
                hw_bound = a.hw_bound;
                sw_bound = a.sw_bound;
                hw_word = a.hw_word;
                sw_word = a.sw_word;
              };
              held = l.held.held;
              stored = l.held.stored;
            };
            level = l.level;
            emulates = l.emulates;
          };
          live_3d = put-All-IsLive p.group p.slot c gs gs' s.buffers_3d changes v.counted.live_3d;
          live_notify =
              put-All-IsLive p.group p.slot c gs gs' s.notify_buffers changes v.counted.live_notify;
        };
        usable = put_buffer-Every IsUsable p.group p.slot c gs u v.usable;
        spatial = put-Is3d p b c gs gs' s.buffers_3d changes e h v.spatial;
      }

  -- The list of buffers that await notifications changes.
  pub notify-IsSession :
      (ps : List Pointer) (s : DSound8 D3dValue)
      → IsSession s
      → All (IsLive s.secondary_buffers) ps
      → IsSession (record s { notify_buffers = ps })
  notify-IsSession ps s v a = record {
    counted = record {
      levelled = record {
        pool = v.counted.levelled.pool;
        held = v.counted.levelled.held;
        level = v.counted.levelled.level;
        emulates = v.counted.levelled.emulates;
      };
      live_3d = v.counted.live_3d;
      live_notify = a;
    };
    usable = v.usable;
    spatial = v.spatial;
  }
