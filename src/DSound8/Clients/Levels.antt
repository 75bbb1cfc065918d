-- ===== src/DSound8/Clients/Levels.antt =====
-- A change of the cooperative level leaves a session.
use dsoal.Prelude.{
  ℕ, ◌≡◌, ◌≢◌, refl, arith, Bool, true, false, not, if◌then◌else◌, ◌&&◌, ◌||◌, Option, none, some,
  List, [], ◌∷◌, All, if_both, inl, inr, Bool-cases, ltb, ◌==◌, ◌⊎◌,
}
use dsoal.Win.{ds_ok, invalid_param, failed, level_normal, level_writeprimary}
use dsoal.Al.{Floats}
use dsoal.SharedBuffer.{Storage}
use dsoal.Buffer.{Buffer}
use dsoal.Buffer.Location.{Given}
use dsoal.Buffer.Cursor.{SourceView}
use dsoal.Buffer.Setup.Ready.{IsFloat}
use dsoal.Pool.{BufferSubList}
use dsoal.Pool.Groups.{IsPool}
use dsoal.Pool.Sums.{slots_sum, pool_sum}
use dsoal.Pool.Every.{In, Every}
use dsoal.DSound8.{Pointer, DSound8, deref}
use dsoal.DSound8.Pending.{IsLive}
use dsoal.DSound8.Level.{
  plays, set_lost, lose_slots, lose_groups, LevelStep, with_primary, emulate, enter_writeprimary,
  leave_writeprimary, store_level, set_cooperative_level,
}
use dsoal.DSound8.Level.Change.{spared, lost, lose_groups-LosesGroups}
use dsoal.DSound8.Level.Exclusive.{set_cooperative_level-IsLevelled}
use dsoal.DSound8.Creation.Counted.{hw_of, sw_of}
use dsoal.DSound8.Clients.Usable.{Is3d, IsUsable, IsSession}

module _ {F : Type 0} (answers : ℕ → SourceView) where
  -- A number that a lost buffer keeps is kept in the sum over the pool.
  module _ (use_of : Buffer F → ℕ) (same : (b : Buffer F) → use_of (set_lost b) ≡ use_of b) where
    lose_slots-sum :
        (bits : List Bool) (ss : List (Option (Buffer F)))
        → slots_sum use_of (lose_slots answers bits ss).left ≡ slots_sum use_of ss
    unfolding lose_slots slots_sum
    lose_slots-sum [] ss = refl
    lose_slots-sum (free ∷ bits) [] = refl
    lose_slots-sum (true ∷ bits) (s ∷ ss) = omega (arith, lose_slots-sum bits ss)
    lose_slots-sum (false ∷ bits) (none ∷ ss) = omega (arith, lose_slots-sum bits ss)
    lose_slots-sum (false ∷ bits) (some b ∷ ss) = elim (Bool-cases (plays answers b)) [
      | inl e ↦ rw (e, lose_slots)
      | inr e ↦ rw (e, lose_slots) (omega (arith, lose_slots-sum bits ss, same b))
    ]

    lose_groups-sum :
        (gs : List (BufferSubList (Buffer F)))
        → pool_sum use_of (lose_groups answers gs).left ≡ pool_sum use_of gs
    unfolding lose_groups pool_sum
    lose_groups-sum [] = refl
    lose_groups-sum (g ∷ gs) =
        let here = lose_slots-sum g.free_mask g.buffers in
        elim (Bool-cases (lose_slots answers g.free_mask g.buffers).met) [
          | inl e ↦ rw (e, lose_groups) (omega (arith, here))
          | inr e ↦ rw (e, lose_groups) (omega (arith, here, lose_groups-sum gs))
        ]

  -- What holds of a lost buffer goes on holding of every buffer.
  module _ (P : Buffer F → Type 0) (keeps : (b : Buffer F) → P b → P (set_lost b)) where
    lose_slots-In :
        (bits : List Bool) (ss : List (Option (Buffer F)))
        → All (In P) ss
        → All (In P) (lose_slots answers bits ss).left
    unfolding lose_slots
    lose_slots-In [] ss v = v
    lose_slots-In (free ∷ bits) [] v = tt
    lose_slots-In (true ∷ bits) (s ∷ ss) v = (v.0, lose_slots-In bits ss v.1)
    lose_slots-In (false ∷ bits) (none ∷ ss) v = (tt, lose_slots-In bits ss v.1)
    lose_slots-In (false ∷ bits) (some b ∷ ss) v = elim (Bool-cases (plays answers b)) [
      | inl e ↦ rw (e, lose_slots) v
      | inr e ↦ rw (e, lose_slots) (keeps b v.0, lose_slots-In bits ss v.1)
    ]

    lose_groups-Every :
        (gs : List (BufferSubList (Buffer F))) → Every P gs → Every P (lose_groups answers gs).left
    unfolding lose_groups
    lose_groups-Every [] v = tt
    lose_groups-Every (g ∷ gs) v =
        let here = lose_slots-In g.free_mask g.buffers v.0 in
        elim (Bool-cases (lose_slots answers g.free_mask g.buffers).met) [
          | inl e ↦ rw (e, lose_groups) (here, v.1)
          | inr e ↦ rw (e, lose_groups) (here, lose_groups-Every gs v.1)
        ]

  -- A pointer leads to a buffer with the same storage.
  lose-at :
      (gs : List (BufferSubList (Buffer F))) (p : Pointer) (b : Buffer F)
      → IsPool gs
      → deref p gs ≡ some b
      → (c : Buffer F) × (deref p (lose_groups answers gs).left ≡ some c) × (c.shared ≡ b.shared)
  unfolding set_lost
  lose-at gs p b v e = elim ((lose_groups-LosesGroups answers gs v).each p.group p.slot b e) [
    | spared m now ↦ (b, now, refl)
    | lost m now ↦ (set_lost b, now, refl)
  ]

  lose-All-IsLive :
      (gs : List (BufferSubList (Buffer F))) (ps : List Pointer)
      → IsPool gs
      → All (IsLive gs) ps
      → All (IsLive (lose_groups answers gs).left) ps
  lose-All-IsLive gs [] v a = tt
  lose-All-IsLive gs (p ∷ ps) v a =
      let (c, now, same) = lose-at gs p a.0.0 v a.0.1 in ((c, now), lose-All-IsLive gs ps v a.1)

  lose-All-Is3d :
      (gs : List (BufferSubList (Buffer F))) (ps : List Pointer)
      → IsPool gs
      → All (Is3d gs) ps
      → All (Is3d (lose_groups answers gs).left) ps
  lose-All-Is3d gs [] v a = tt
  lose-All-Is3d gs (p ∷ ps) v a =
      let (c, now, same) = lose-at gs p a.0.0 v a.0.1 in
      ((c, now, rw same (a.0.2)), lose-All-Is3d gs ps v a.1)

module _ (fl : Floats) where
  open fl use {D3dValue}

  lost-IsUsable : (b : Buffer D3dValue) → IsUsable fl b → IsUsable fl (set_lost b)
  unfolding set_lost
  lost-IsUsable b u = record {
    whole = u.whole;
    source = u.source;
    located = u.located;
    spatial = record { immediate = u.spatial.immediate; deferred = u.spatial.deferred };
  }

  -- The lists of the object after a change of the level
  record Listed (answers : ℕ → SourceView) (s t : DSound8 D3dValue) : Type 0 where
    same_3d : t.buffers_3d ≡ s.buffers_3d
    same_notify : t.notify_buffers ≡ s.notify_buffers
    groups :
        (t.secondary_buffers ≡ s.secondary_buffers)
        ⊎ (t.secondary_buffers ≡ (lose_groups answers s.secondary_buffers).left)

  store_level-Listed :
      (answers : ℕ → SourceView) (s : DSound8 D3dValue) (level : ℕ) (r : LevelStep fl)
      → Listed answers s r.1
      → Listed answers s (store_level fl level r).1
  unfolding store_level
  store_level-Listed answers s level r v =
      if_both (Listed answers s) (failed r.0) _ _ v
        (record { same_3d = v.same_3d; same_notify = v.same_notify; groups = v.groups })

  record Same (s t : DSound8 D3dValue) : Type 0 where
    same_3d : t.buffers_3d ≡ s.buffers_3d
    same_notify : t.notify_buffers ≡ s.notify_buffers
    same_groups : t.secondary_buffers ≡ s.secondary_buffers

  emulate-Same :
      (g : Given D3dValue) (st : Storage) (s : DSound8 D3dValue) → Same s (emulate fl g st s).1
  unfolding emulate with_primary
  emulate-Same g st s =
      if_both (λ (r : LevelStep fl). Same s r.1) (s.primary_buffer.flags == 0) _ _
        (record { same_3d = refl; same_notify = refl; same_groups = refl })
        (record { same_3d = refl; same_notify = refl; same_groups = refl })

  enter-Listed :
      (g : Given D3dValue) (st : Storage) (answers : ℕ → SourceView) (s : DSound8 D3dValue)
      → Listed answers s (enter_writeprimary fl g st answers s).1
  unfolding enter_writeprimary with_primary
  enter-Listed g st answers s =
      let P = λ (r : LevelStep fl). Listed answers s r.1 in
      if_both P (lose_groups answers s.secondary_buffers).met _ _
        (record { same_3d = refl; same_notify = refl; groups = inr refl })
        (let e = emulate-Same g st _ in
          record { same_3d = e.same_3d; same_notify = e.same_notify; groups = inr (e.same_groups) })

  leave-Listed :
      (answers : ℕ → SourceView) (s : DSound8 D3dValue)
      → Listed answers s (leave_writeprimary fl s).1
  unfolding leave_writeprimary with_primary
  leave-Listed answers s = record { same_3d = refl; same_notify = refl; groups = inl refl }

  level-Listed :
      (g : Given D3dValue) (st : Storage) (answers : ℕ → SourceView) (level : ℕ)
      (s : DSound8 D3dValue)
      → Listed answers s (set_cooperative_level fl g st answers level s).1
  unfolding set_cooperative_level
  level-Listed g st answers level s =
      let P = λ (r : LevelStep fl). Listed answers s r.1 in
      let same : Listed answers s s = record {
        same_3d = refl;
        same_notify = refl;
        groups = inl refl;
      } in
      let enters = (level == level_writeprimary) && not (s.prio_level == level_writeprimary) in
      let leaves = ltb level level_writeprimary && (s.prio_level == level_writeprimary) in
      let other : LevelStep fl = if leaves then leave_writeprimary fl s else (ds_ok, s, []) in
      let r = if enters then enter_writeprimary fl g st answers s else other in
      if_both P (ltb level_writeprimary level || ltb level level_normal) (invalid_param, s, []) _
        same
        (store_level-Listed answers s level r (
          if_both P enters _ _ (enter-Listed g st answers s)
            (if_both P leaves _ (ds_ok, s, []) (leave-Listed answers s) same)))

  -- Whatever level is asked for, a session goes on being one, errors included.
  pub set_cooperative_level-IsSession :
      (g : Given D3dValue) (st : Storage) (answers : ℕ → SourceView) (level : ℕ)
      (s : DSound8 D3dValue)
      → IsFloat fl
      → g.new_source ≢ 0
      → IsSession fl s
      → IsSession fl (set_cooperative_level fl g st answers level s).1
  unfolding set_lost
  set_cooperative_level-IsSession g st answers level s fv hg v =
      let t = (set_cooperative_level fl g st answers level s).1 in
      let gs = s.secondary_buffers in
      let pool = v.counted.levelled.pool in
      let l = level-Listed g st answers level s in
      let n =
        set_cooperative_level-IsLevelled fl g st answers level s _ _ fv hg v.counted.levelled in
      elim (l.groups) [
        | inl e ↦ record {
          counted = record {
            levelled = rw e n;
            live_3d = rw (e, l.same_3d) v.counted.live_3d;
            live_notify = rw (e, l.same_notify) v.counted.live_notify;
          };
          usable = rw e v.usable;
          spatial = rw (e, l.same_3d) v.spatial;
        }
        | inr e ↦ record {
          counted = record {
            levelled =
                rw
                  (
                    e,
                    lose_groups-sum answers hw_of (λ b. refl) gs,
                    lose_groups-sum answers sw_of (λ b. refl) gs,
                  )
                  n;
            live_3d =
                rw (e, l.same_3d) (lose-All-IsLive answers gs s.buffers_3d pool v.counted.live_3d);
            live_notify =
                rw (e, l.same_notify)
                  (lose-All-IsLive answers gs s.notify_buffers pool v.counted.live_notify);
          };
          usable = rw e (lose_groups-Every answers (IsUsable fl) lost-IsUsable gs v.usable);
          spatial = rw (e, l.same_3d) (lose-All-Is3d answers gs s.buffers_3d pool v.spatial);
        }
      ]
