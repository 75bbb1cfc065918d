-- ===== src/DSound8/Level/Entry.antt =====
-- The change to DSSCL_WRITEPRIMARY: which secondary buffers are lost.
use dsoal.Prelude.{
  ℕ, ◌≡◌, ◌≢◌, ◌⊎◌, inl, inr, refl, arith, Bool, true, false, Option, none, some, List, ◌∷◌, ◌==◌,
  if◌then◌else◌, Bool-cases, if_both, if_cases,
}
use dsoal.Win.{Hresult, ds_ok, invalid_call, failed, level_writeprimary}
use dsoal.Al.{Floats}
use dsoal.SharedBuffer.{Storage}
use dsoal.Buffer.{Buffer}
use dsoal.Buffer.Location.{Given}
use dsoal.Buffer.Cursor.{SourceView}
use dsoal.Pool.{BufferSubList, buffer_at}
use dsoal.Pool.Groups.{IsPool}
use dsoal.Primary.{PrimaryBuffer}
use dsoal.Primary.Emulation.{PrimaryOutcome, destroy_write_emu, create_write_emu}
use dsoal.DSound8.{DSound8}
use dsoal.DSound8.Level.{
  LevelStep, plays, set_lost, lose_groups, with_primary, emulate, enter_writeprimary, store_level,
  set_cooperative_level,
}
use dsoal.DSound8.Level.Change.{spared, lost, lose_groups-LosesGroups, plays-met, first_lost}

module _ (fl : Floats) where
  open fl use {D3dValue}

  -- `createWriteEmu`, once `mWriteEmu` is null
  abbrev pub remade : Given D3dValue → Storage → DSound8 D3dValue → PrimaryOutcome D3dValue
  remade g st s =
      let o = destroy_write_emu fl s.primary_buffer s.shared in
      create_write_emu fl g st s.primary_buffer.flags o.primary o.device

  -- The result and the primary buffer after a change to DSSCL_WRITEPRIMARY that meets no playing buffer:
  -- those of `createWriteEmu`, or none is made for a primary buffer that is not in use.
  abbrev pub Emulates :
      Given D3dValue → Storage → DSound8 D3dValue → Hresult → PrimaryBuffer D3dValue → Type 0
  Emulates g st s hr p =
      ((s.primary_buffer.flags ≡ 0)
        × (hr ≡ ds_ok)
        × (p ≡ record (s.primary_buffer) { write_emu = none }))
      ⊎ ((s.primary_buffer.flags ≢ 0) × (hr ≡ (remade g st s).hr) × (p ≡ (remade g st s).primary))

  -- What the change to DSSCL_WRITEPRIMARY leaves
  record Entered (g : Given D3dValue) (st : Storage) (answers : ℕ → SourceView)
      (s : DSound8 D3dValue) (r : LevelStep fl) : Type 0 where
    emulates :
        (lose_groups answers s.secondary_buffers).met ≡ false
        → Emulates g st s r.0 r.1.primary_buffer
    walked : r.1.secondary_buffers ≡ (lose_groups answers s.secondary_buffers).left
    level : r.1.prio_level ≡ s.prio_level
    refused : (lose_groups answers s.secondary_buffers).met ≡ true → r.0 ≡ invalid_call

  record Elsewhere (s : DSound8 D3dValue) (r : LevelStep fl) : Type 0 where
    pool : r.1.secondary_buffers ≡ s.secondary_buffers
    level : r.1.prio_level ≡ s.prio_level

  emulate-Elsewhere :
      (g : Given D3dValue) (st : Storage) (s : DSound8 D3dValue) → Elsewhere s (emulate fl g st s)
  unfolding emulate with_primary
  emulate-Elsewhere g st s =
      if_both (Elsewhere s) (s.primary_buffer.flags == 0) _ _ (record { pool = refl; level = refl })
        (record { pool = refl; level = refl })

  emulate-Emulates :
      (g : Given D3dValue) (st : Storage) (s : DSound8 D3dValue)
      (gs : List (BufferSubList (Buffer D3dValue)))
      → let o = destroy_write_emu fl s.primary_buffer s.shared in
        let r = emulate fl g st (record (with_primary fl o s) { secondary_buffers = gs }) in
        Emulates g st s r.0 r.1.primary_buffer
  unfolding emulate with_primary destroy_write_emu
  emulate-Emulates g st s gs = elim (Bool-cases (s.primary_buffer.flags == 0)) [
    | inl e ↦ rw e (inl (ground arith, refl, refl))
    | inr e ↦ rw e (inr (ground arith, refl, refl))
  ]

  enter-Entered :
      (g : Given D3dValue) (st : Storage) (answers : ℕ → SourceView) (s : DSound8 D3dValue)
      → Entered g st answers s (enter_writeprimary fl g st answers s)
  unfolding enter_writeprimary with_primary
  enter-Entered g st answers s =
      let o = destroy_write_emu fl s.primary_buffer s.shared in
      let v = emulate-Elsewhere g st (record (with_primary fl o s) {
        secondary_buffers = (lose_groups answers s.secondary_buffers).left;
      }) in
      if_cases (Entered g st answers s) (lose_groups answers s.secondary_buffers).met _ _
        (λ e. record { emulates = λ h. cc; walked = refl; level = refl; refused = λ _. refl })
        (λ e. record {
          emulates = λ _. emulate-Emulates g st s (lose_groups answers s.secondary_buffers).left;
          walked = v.pool;
          level = v.level;
          refused = λ h. cc;
        })

  entering :
      (g : Given D3dValue) (st : Storage) (answers : ℕ → SourceView) (s : DSound8 D3dValue)
      → s.prio_level ≢ level_writeprimary
      → set_cooperative_level fl g st answers level_writeprimary s
        ≡ store_level fl level_writeprimary (enter_writeprimary fl g st answers s)
  unfolding set_cooperative_level
  entering g st answers s ne =
      let other : (s.prio_level == level_writeprimary) ≡ false = ground arith in rw other refl

  -- What the storing of the level leaves
  if_level :
      (hr : Hresult) (s : DSound8 D3dValue) {level : ℕ}
      → s.prio_level ≡ level
      → (if failed hr then s else record s { prio_level = level_writeprimary }).prio_level
        ≡ (if failed hr then level else level_writeprimary)
  if_level hr s e = ground arith

  if_Emulates :
      (g : Given D3dValue) (st : Storage) (s t : DSound8 D3dValue) (hr : Hresult)
      → Emulates g st s hr t.primary_buffer
      → Emulates g st s hr
          (if failed hr then t else record t { prio_level = level_writeprimary }).primary_buffer
  if_Emulates g st s t hr v =
      if_both (λ (u : DSound8 D3dValue). Emulates g st s hr u.primary_buffer) (failed hr) _ _ v v

  if_pool :
      (hr : Hresult) (s : DSound8 D3dValue)
      → (if failed hr then s else record s { prio_level = level_writeprimary }).secondary_buffers
        ≡ s.secondary_buffers
  if_pool hr s = ground arith

  -- An object that is at another level is asked for DSSCL_WRITEPRIMARY. If a secondary buffer plays, the
  -- call fails with DSERR_INVALIDCALL and the level stays. Otherwise every secondary buffer is lost. If
  -- the primary buffer is not in use, the call then succeeds, and the primary buffer has no emulation;
  -- if it is, the result and the primary buffer are those of `createWriteEmu`, called once the emulation
  -- before is gone. The level is stored if that result is no failure.
  pub enter_writeprimary_lem :
      (g : Given D3dValue) (st : Storage) (answers : ℕ → SourceView) (s : DSound8 D3dValue)
      → IsPool s.secondary_buffers
      → s.prio_level ≢ level_writeprimary
      → let r = set_cooperative_level fl g st answers level_writeprimary s in
        ((r.0 ≡ invalid_call)
          × (r.1.prio_level ≡ s.prio_level)
          × ((k i : ℕ) × (b : Buffer D3dValue) × (buffer_at k i s.secondary_buffers ≡ some b)
              × (plays answers b ≡ true)))
        ⊎ ((r.1.prio_level ≡ (if failed r.0 then s.prio_level else level_writeprimary))
            × Emulates g st s r.0 r.1.primary_buffer
            × ((k i : ℕ) (b : Buffer D3dValue)
                → buffer_at k i s.secondary_buffers ≡ some b
                → (plays answers b ≡ false)
                  × (buffer_at k i r.1.secondary_buffers ≡ some (set_lost b))))
  unfolding store_level
  enter_writeprimary_lem g st answers s v ne =
      let l = lose_groups-LosesGroups answers s.secondary_buffers v in
      let r = enter_writeprimary fl g st answers s in
      let w = enter-Entered g st answers s in
      elim (Bool-cases (lose_groups answers s.secondary_buffers).met) [
        | inl e ↦ rw (entering g st answers s ne, w.refused e) (inl (refl, w.level, l.found e))
        | inr e ↦ rw (entering g st answers s ne) (
            inr (
              if_level r.0 r.1 w.level,
              if_Emulates g st s r.1 r.0 (w.emulates e),
              λ k i b h. elim (l.each k i b h) [
                | spared m now ↦ cc
                | lost p now ↦ (p, rw (if_pool r.0 r.1, w.walked) now)
              ],
            ))
      ]

  -- The first secondary buffer does not play, and another one does: asked for DSSCL_WRITEPRIMARY, the
  -- object fails with DSERR_INVALIDCALL and stays at its level, and still the first buffer is lost.
  pub refused_level_loses :
      (g : Given D3dValue) (st : Storage) (answers : ℕ → SourceView) (s : DSound8 D3dValue)
      (b c : Buffer D3dValue) (bits : List Bool) (ss : List (Option (Buffer D3dValue)))
      (gs : List (BufferSubList (Buffer D3dValue))) (k i : ℕ)
      → IsPool s.secondary_buffers
      → s.prio_level ≢ level_writeprimary
      → s.secondary_buffers ≡ record { free_mask = false ∷ bits; buffers = some b ∷ ss } ∷ gs
      → plays answers b ≡ false
      → buffer_at k i s.secondary_buffers ≡ some c
      → plays answers c ≡ true
      → let r = set_cooperative_level fl g st answers level_writeprimary s in
        (r.0 ≡ invalid_call)
        × (r.1.prio_level ≡ s.prio_level)
        × (buffer_at 0 0 r.1.secondary_buffers ≡ some (set_lost b))
  unfolding store_level
  refused_level_loses g st answers s b c bits ss gs k i v ne e hb hc pc =
      let w = enter-Entered g st answers s in
      let met = plays-met answers s.secondary_buffers k i c v hc pc in
      rw (entering g st answers s ne, w.refused met)
        (refl, w.level, rw (w.walked, e) (first_lost answers b bits ss gs hb))
