-- ===== src/DSound8/Creation/Calls.antt =====
-- `CreateSoundBuffer` and `DuplicateSoundBuffer` keep the sound object counted.
use dsoal.Prelude.{
  ◌≡◌, ◌≢◌, ◌∙◌, Bool, not, ◌&&◌, Option, none, some, List, bit_and, ◌==◌, if_both, Option-cases,
  inl, inr,
}
use dsoal.Win.{
  Hresult, invalid_param, no_aggregation, failed, has, caps_primarybuffer, level_writeprimary,
}
use dsoal.Al.{Floats}
use dsoal.Device.{SharedDevice}
use dsoal.SharedBuffer.{BufferDesc}
use dsoal.Buffer.{Buffer}
use dsoal.Buffer.Setup.Ready.{IsFloat, Fits}
use dsoal.Pool.Sums.{pool_sum}
use dsoal.Primary.{PrimaryBuffer}
use dsoal.Primary.References
use dsoal.Primary.References.Sums.{add_ref-Counting, release-Counting}
use dsoal.Primary.Emulation
use dsoal.Primary.Emulation.Held.{IsHeld, initialize-IsHeld, initialize_below, same-IsHeld}
use dsoal.DSound8.{DSound8}
use dsoal.DSound8.Creation.{Made, Outside, refused, buffers_of, create_primary, create_sound_buffer}
use dsoal.DSound8.Creation.Counted.{hw_of, sw_of, IsCounted, Leaves, described-Leaves}

module _ (fl : Floats) where
  open fl use {D3dValue}

  -- The object with another primary buffer
  pub with_primary-IsCounted :
      (s : DSound8 D3dValue) (p : PrimaryBuffer D3dValue) (d : SharedDevice)
      → IsCounted fl s
      → IsHeld fl (pool_sum hw_of s.secondary_buffers) (pool_sum sw_of s.secondary_buffers) p d
      → (s.prio_level ≢ level_writeprimary → p.write_emu ≡ s.primary_buffer.write_emu)
      → IsCounted fl (record s { primary_buffer = p; shared = d })
  with_primary-IsCounted s p d v h e = record {
    levelled = record {
      pool = v.levelled.pool;
      held = record { accounts = h.accounts; held = h.held; stored = h.stored };
      level = v.levelled.level;
      emulates = λ ne. e ne ∙ v.levelled.emulates ne;
    };
    live_3d = v.live_3d;
    live_notify = v.live_notify;
  }

  record Created (m : Made D3dValue) : Type 0 where
    counted : IsCounted fl m.object

  create_primary-Created :
      (w : Outside D3dValue) (desc : BufferDesc) (bs : List (Buffer D3dValue))
      (s : DSound8 D3dValue)
      → IsFloat fl
      → w.given.new_source ≢ 0
      → IsCounted fl s
      → Created (create_primary fl w desc bs s)
  unfolding create_primary
  create_primary-Created w desc bs s fv hg v =
      let (ret, p) = References.add_ref References.ds s.primary_buffer in
      let o = Emulation.initialize fl w.given w.storage s.prio_level bs (some desc) p s.shared in
      let c = add_ref-Counting References.ds s.primary_buffer in
      let r = release-Counting References.ds o.primary in
      let hp = same-IsHeld fl c.same_emu c.same_format v.levelled.held in
      let ho =
        (initialize-IsHeld fl w.given w.storage s.prio_level bs (some desc) p s.shared _ _ fv hg
          hp).state in
      let below = λ (ne : s.prio_level ≢ level_writeprimary).
        initialize_below fl w.given w.storage s.prio_level bs (some desc) p s.shared ne
        ∙ c.same_emu in
      if_both Created (not ((ret == 1) && (p.flags == 0))) _ _
        (record { counted = with_primary-IsCounted s p s.shared v hp (λ _. c.same_emu) })
        (if_both Created (failed o.hr) _ _
          (record {
            counted =
                with_primary-IsCounted s _ o.device v (same-IsHeld fl r.same_emu r.same_format ho)
                  (λ ne. r.same_emu ∙ below ne);
          })
          (record { counted = with_primary-IsCounted s o.primary o.device v ho below }))

  refused-Leaves :
      (hr : Hresult) (s : DSound8 D3dValue) → IsCounted fl s → Leaves fl (some (refused hr s))
  unfolding refused
  refused-Leaves hr s v = v

  -- Whatever `CreateSoundBuffer` is asked for, a primary or a secondary buffer, on every branch that is
  -- no fault, errors included: the device's counters go on agreeing with the locations of all secondary
  -- buffers and of the emulation of the primary one, within the device's limits, the masks of the pool
  -- with its slots, and no pointer in the object's lists dangles.
  pub create_sound_buffer-Leaves :
      (w : Outside D3dValue) (place outer : Bool) (desc : Option BufferDesc) (s : DSound8 D3dValue)
      → IsFloat fl
      → w.given.new_source ≢ 0
      → Fits desc
      → IsCounted fl s
      → Leaves fl (create_sound_buffer fl w place outer desc s)
  unfolding create_sound_buffer
  create_sound_buffer-Leaves w place outer none s fv hg hf v = refused-Leaves _ s v
  create_sound_buffer-Leaves w place outer (some desc) s fv hg hf v =
      let P = Leaves fl in
      if_both P (not place) _ _ (refused-Leaves invalid_param s v) (
        if_both P outer _ _ (refused-Leaves no_aggregation s v) (
          if_both P (has desc.flags caps_primarybuffer) _ _
            (elim (Option-cases (buffers_of s.buffers_3d s.secondary_buffers)) [
              | inl e ↦ rw e tt
              | inr (bs, e) ↦ rw e (create_primary-Created w desc bs s fv hg v).counted
            ])
            (if_both P ((bit_and desc.flags 0x50 == 0x50) && s.is_8) _ _
              (refused-Leaves invalid_param s v) (described-Leaves fl w desc s fv hg hf v))))
