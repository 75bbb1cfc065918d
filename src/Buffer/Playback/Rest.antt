-- ===== src/Buffer/Playback/Rest.antt =====
-- What a stopped and a lost buffer report.
use dsoal.Prelude.{ℕ, ◌≡◌, ◌≢◌, ◌⊎◌, ◌↔◌, arith, Bool, true, false, ◌==◌, if◌then◌else◌, bit_or}
use dsoal.Win.{Hresult, ds_ok, has, caps_locdefer, dword_mod, level_writeprimary}
use dsoal.Win
use dsoal.Al.{al_playing}
use dsoal.Buffer.{Buffer, LocStatus, none_any, hardware, software}
use dsoal.Buffer.Cursor.{SourceView, view}
use dsoal.Buffer.Playback.{restore, get_status, loc_bits}

-- No other report is DSBSTATUS_BUFFERLOST.
bits_kept :
    (deferred running looping : Bool) (loc : LocStatus)
    → bit_or
        (if deferred then loc_bits loc else 0)
        (if running then (if looping then 5 else 1) else 0)
      ≢ 2
unfolding loc_bits
bits_kept true true true none_any e = ground arith
bits_kept true true false none_any e = ground arith
bits_kept true false looping none_any e = ground arith
bits_kept true true true hardware e = ground arith
bits_kept true true false hardware e = ground arith
bits_kept true false looping hardware e = ground arith
bits_kept true true true software e = ground arith
bits_kept true true false software e = ground arith
bits_kept true false looping software e = ground arith
bits_kept false true true loc e = ground arith
bits_kept false true false loc e = ground arith
bits_kept false false looping loc e = ground arith

module _ {F : Type 0} where
  status_lost :
      (answer : SourceView) (b : Buffer F) → (get_status answer b ≡ 2) ↔ (b.buffer_lost ≡ true)
  unfolding get_status loc_bits
  status_lost answer b = ground (
    arith,
    bits_kept (has b.shared.flags caps_locdefer) ((view b answer).state == al_playing)
        (view b answer).looping b.loc_status,
  )

  -- `GetStatus` reports DSBSTATUS_BUFFERLOST, and nothing with it, exactly while the buffer is lost.
  -- `Restore` ends that, unless the cooperative level is DSSCL_WRITEPRIMARY and the buffer does not
  -- emulate the primary one: then it returns DSERR_BUFFERLOST and changes nothing.
  pub restore_lem :
      (level : ℕ) (is_write_emu : Bool) (answer : SourceView) (b : Buffer F)
      → let (hr, b') = restore level is_write_emu b in
        ((get_status answer b ≡ 2) ↔ (b.buffer_lost ≡ true))
        × (((hr ≡ ds_ok) × (b' ≡ record b { buffer_lost = false }) × (get_status answer b' ≢ 2))
            ⊎ ((hr ≡ Win.buffer_lost)
                × (b' ≡ b)
                × (level ≡ level_writeprimary)
                × (is_write_emu ≡ false)))
  unfolding restore
  restore_lem level is_write_emu answer b =
      ground (arith, status_lost answer b, status_lost answer (record b { buffer_lost = false }))
