-- ===== src/DSound8/Level/Exclusive.antt =====
-- `SetCooperativeLevel`: the level and the emulation of the primary buffer agree.
use dsoal.Prelude.{
  ℕ, ◌≤◌, ◌<◌, ◌≡◌, ◌≢◌, inl, inr, refl, sym, arith, Bool, true, false, not, ◌&&◌, ◌||◌, none, [],
  ltb, ◌==◌, Bool-cases, if_both, if_cases,
}
use dsoal.Win.{ds_ok, failed, level_normal, level_writeprimary}
use mathlib.Core.Path.{subst}
use dsoal.Al.{Floats}
use dsoal.SharedBuffer.{Storage}
use dsoal.Buffer.Location.{Given}
use dsoal.Buffer.Cursor.{SourceView}
use dsoal.Buffer.Playback.Progress.{not_failed}
use dsoal.Buffer.Setup.Ready.{IsFloat}
use dsoal.Pool.Groups.{IsPool}
use dsoal.Primary.Emulation.{destroy_write_emu}
use dsoal.Primary.Emulation.Held.{
  IsHeld, destroy_write_emu-IsHeld, create_write_emu-IsHeld, create_write_emu_fails,
}
use dsoal.DSound8.{DSound8}
use dsoal.DSound8.Level.{
  LevelStep, lose_groups, with_primary, emulate, enter_writeprimary, leave_writeprimary,
  store_level, set_cooperative_level,
}
use dsoal.DSound8.Level.Change.{lose_groups-LosesGroups}

module _ (fl : Floats) where
  open fl use {D3dValue}

  -- The pool is one, the primary buffer holds its emulation, and has one only at the level for it.
  pub record IsLevelled (hw sw : ℕ) (s : DSound8 D3dValue) : Type 0 where
    pub pool : IsPool s.secondary_buffers
    pub held : IsHeld fl hw sw s.primary_buffer s.shared
    pub level : s.prio_level ≤ level_writeprimary
    pub emulates : s.prio_level ≢ level_writeprimary → s.primary_buffer.write_emu ≡ none

  -- What the change to or from DSSCL_WRITEPRIMARY leaves before the level is stored: `entered` says
  -- which.
  record Changed (hw sw : ℕ) (entered : Bool) (s : DSound8 D3dValue) (r : LevelStep fl)
      : Type 0 where
    pool : IsPool r.1.secondary_buffers
    held : IsHeld fl hw sw r.1.primary_buffer r.1.shared
    level : r.1.prio_level ≡ s.prio_level
    emulates : (entered ≡ true → r.0 ≢ ds_ok) → r.1.primary_buffer.write_emu ≡ none

  emulate-Changed :
      (g : Given D3dValue) (st : Storage) (s : DSound8 D3dValue) (hw sw : ℕ)
      → IsFloat fl
      → g.new_source ≢ 0
      → IsPool s.secondary_buffers
      → IsHeld fl hw sw s.primary_buffer s.shared
      → s.primary_buffer.write_emu ≡ none
      → Changed hw sw true s (emulate fl g st s)
  unfolding emulate with_primary
  emulate-Changed g st s hw sw fv hg v w e =
      if_both (Changed hw sw true s) (s.primary_buffer.flags == 0) _ _
        (record { pool = v; held = w; level = refl; emulates = λ _. e })
        (record {
          pool = v;
          held =
              (create_write_emu-IsHeld fl g st s.primary_buffer.flags s.primary_buffer s.shared hw
                sw fv hg e w).state;
          level = refl;
          emulates = λ f.
              create_write_emu_fails fl g st s.primary_buffer.flags s.primary_buffer s.shared e
                (f refl);
        })

  enter-Changed :
      (g : Given D3dValue) (st : Storage) (answers : ℕ → SourceView) (s : DSound8 D3dValue)
      (hw sw : ℕ)
      → IsFloat fl
      → g.new_source ≢ 0
      → IsPool s.secondary_buffers
      → IsHeld fl hw sw s.primary_buffer s.shared
      → Changed hw sw true s (enter_writeprimary fl g st answers s)
  unfolding enter_writeprimary with_primary destroy_write_emu
  enter-Changed g st answers s hw sw fv hg v w =
      let o = destroy_write_emu fl s.primary_buffer s.shared in
      let h = (destroy_write_emu-IsHeld fl s.primary_buffer s.shared hw sw w).state in
      let l = lose_groups-LosesGroups answers s.secondary_buffers v in
      let s' = record (with_primary fl o s) {
        secondary_buffers = (lose_groups answers s.secondary_buffers).left;
      } in
      let c = emulate-Changed g st s' hw sw fv hg l.pool h refl in
      if_both (Changed hw sw true s) (lose_groups answers s.secondary_buffers).met _ _
        (record { pool = l.pool; held = h; level = refl; emulates = λ _. refl })
        (record { pool = c.pool; held = c.held; level = c.level; emulates = c.emulates })

  leave-Changed :
      (s : DSound8 D3dValue) (hw sw : ℕ)
      → IsPool s.secondary_buffers
      → IsHeld fl hw sw s.primary_buffer s.shared
      → Changed hw sw false s (leave_writeprimary fl s)
  unfolding leave_writeprimary with_primary destroy_write_emu
  leave-Changed s hw sw v w = record {
    pool = v;
    held = (destroy_write_emu-IsHeld fl s.primary_buffer s.shared hw sw w).state;
    level = refl;
    emulates = λ _. refl;
  }

  record Stored (hw sw : ℕ) (r : LevelStep fl) : Type 0 where
    levelled : IsLevelled hw sw r.1

  entered-Stored :
      (s : DSound8 D3dValue) (r : LevelStep fl) (hw sw : ℕ)
      → s.prio_level ≤ level_writeprimary
      → s.prio_level ≢ level_writeprimary
      → Changed hw sw true s r
      → Stored hw sw (store_level fl level_writeprimary r)
  unfolding store_level
  entered-Stored s (hr, t, calls) hw sw hl ne c = elim (Bool-cases (failed hr)) [
    | inl f ↦ rw f (record {
      levelled = record {
        pool = c.pool;
        held = c.held;
        level = omega (arith, c.level);
        emulates = λ _. c.emulates (λ _. not_failed hr f);
      };
    })
    | inr f ↦ rw f (record {
      levelled = record {
        pool = c.pool;
        held = record { accounts = c.held.accounts; held = c.held.held; stored = c.held.stored };
        level = omega arith;
        emulates = λ h. absurd (h refl);
      };
    })
  ]

  left-Stored :
      (s : DSound8 D3dValue) (r : LevelStep fl) (level hw sw : ℕ)
      → level < level_writeprimary
      → s.prio_level ≤ level_writeprimary
      → Changed hw sw false s r
      → Stored hw sw (store_level fl level r)
  unfolding store_level
  left-Stored s (hr, t, calls) level hw sw hl hs c =
      let gone : t.primary_buffer.write_emu ≡ none = c.emulates (λ e. cc) in
      if_both (λ t'. Stored hw sw (hr, t', calls)) (failed hr) _ _
        (record {
          levelled = record {
            pool = c.pool;
            held = c.held;
            level = omega (arith, c.level);
            emulates = λ _. gone;
          };
        })
        (record {
          levelled = record {
            pool = c.pool;
            held = record {
              accounts = c.held.accounts;
              held = c.held.held;
              stored = c.held.stored;
            };
            level = omega arith;
            emulates = λ _. gone;
          };
        })

  kept-Stored :
      (s : DSound8 D3dValue) (level hw sw : ℕ)
      → level ≤ level_writeprimary
      → (level ≢ level_writeprimary → s.prio_level ≢ level_writeprimary)
      → IsLevelled hw sw s
      → Stored hw sw (store_level fl level (ds_ok, s, []))
  unfolding store_level
  kept-Stored s level hw sw hl hs v = record {
    levelled = record {
      pool = v.pool;
      held = record { accounts = v.held.accounts; held = v.held.held; stored = v.held.stored };
      level = hl;
      emulates = λ ne. v.emulates (hs ne);
    };
  }

  -- Whatever level `SetCooperativeLevel` is asked for, on every branch, errors included: the level stays
  -- one of the known ones, the primary buffer has an emulation only at DSSCL_WRITEPRIMARY, and holds it,
  -- the device's counters go on agreeing with its location, and the masks of the pool with its slots.
  pub set_cooperative_level-IsLevelled :
      (g : Given D3dValue) (st : Storage) (answers : ℕ → SourceView) (level : ℕ)
      (s : DSound8 D3dValue) (hw sw : ℕ)
      → IsFloat fl
      → g.new_source ≢ 0
      → IsLevelled hw sw s
      → IsLevelled hw sw (set_cooperative_level fl g st answers level s).1
  unfolding set_cooperative_level
  set_cooperative_level-IsLevelled g st answers level s hw sw fv hg v =
      (if_cases (Stored hw sw) (ltb level_writeprimary level || ltb level level_normal) _ _
        (λ _. record { levelled = v })
        (λ ok.
          if_cases (λ r. Stored hw sw (store_level fl level r))
            ((level == level_writeprimary) && not (s.prio_level == level_writeprimary)) _ _
            (λ entering.
              let e : level ≡ level_writeprimary = ground arith in
              let ne : s.prio_level ≢ level_writeprimary = ground arith in
              subst (λ l. Stored hw sw (store_level fl l (enter_writeprimary fl g st answers s)))
                (sym e)
                (entered-Stored s (enter_writeprimary fl g st answers s) hw sw v.level ne
                  (enter-Changed g st answers s hw sw fv hg v.pool v.held)))
            (λ other.
              if_cases (λ r. Stored hw sw (store_level fl level r))
                (ltb level level_writeprimary && (s.prio_level == level_writeprimary)) _ _
                (λ leaving.
                  left-Stored s (leave_writeprimary fl s) level hw sw (ground arith) v.level
                    (leave-Changed s hw sw v.pool v.held))
                (λ same. kept-Stored s level hw sw (ground arith) (ground arith) v)))).levelled
