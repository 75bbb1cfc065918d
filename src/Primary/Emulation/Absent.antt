-- ===== src/Primary/Emulation/Absent.antt =====
-- Below DSSCL_WRITEPRIMARY a primary buffer without an emulation gets none from its clients.
use dsoal.Prelude.{ℕ, ◌≡◌, ◌≢◌, sym, ◌∙◌, arith, none, some}
use dsoal.Win.{level_writeprimary}
use dsoal.Al.{Floats}
use dsoal.Device.{SharedDevice}
use dsoal.Primary.{PrimaryBuffer}
use dsoal.Primary.Emulation.{unchanged, play, stop, set_pan, with_copy, set_format, is_there}
use dsoal.Primary.Emulation.Held.{initialize_below}
use dsoal.Primary.Emulation.Sessions.{
  Operation, perform, initialize_op, play_op, stop_op, set_pan_op, set_format_op, recreate_op,
  destroy_op,
}

module _ (fl : Floats) where
  open fl use {D3dValue}

  -- An operation that a client calls, on the primary buffer of an object at this level
  abbrev pub OfClient : ℕ → Operation fl → Type 0
  OfClient level (initialize_op g st l bs desc) = l ≡ level
  OfClient level (play_op g a reserved2 flags) = Unit
  OfClient level (stop_op x) = Unit
  OfClient level (set_pan_op pan) = Unit
  OfClient level (set_format_op g st l f) = l ≡ level
  OfClient level (recreate_op g st flags) = ⊥
  OfClient level destroy_op = ⊥

  pub perform-absent :
      (op : Operation fl) (level : ℕ) (p : PrimaryBuffer D3dValue) (d : SharedDevice)
      → OfClient level op
      → level ≢ level_writeprimary
      → p.write_emu ≡ none
      → (perform fl op p d).primary.write_emu ≡ none
  unfolding perform play stop set_pan set_format with_copy unchanged is_there
  perform-absent (initialize_op g st l bs desc) level p d h ne e =
      initialize_below fl g st l bs desc p d (λ w. ne (sym h ∙ w)) ∙ e
  perform-absent (play_op g a reserved2 flags) level p d h ne e = ground arith
  perform-absent (stop_op x) level p d h ne e = ground arith
  perform-absent (set_pan_op pan) level p d h ne e = ground arith
  perform-absent (set_format_op g st l none) level p d h ne e = e
  perform-absent (set_format_op g st l (some f)) level p d h ne e = ground arith
  perform-absent (recreate_op g st flags) level p d h ne e = elim h [ ]
  perform-absent destroy_op level p d h ne e = elim h [ ]
