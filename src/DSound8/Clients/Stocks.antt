-- ===== src/DSound8/Clients/Stocks.antt =====
-- What a creation leaves in the pool: buffers that can be used, and a list of 3D buffers.
use dsoal.Prelude.{
  ℕ, ◌≡◌, ◌≢◌, refl, ◌∙◌, arith, Bool, true, not, ◌&&◌, Option, none, some, List, [], ◌∷◌, ◌++◌,
  All, ◌==◌, if_both, if_cases, Option-cases, Bool-cases, inl, inr, bit_and,
}
use dsoal.Win.{
  Hresult, failed, has, caps_ctrl3d, caps_primarybuffer, invalid_param, no_aggregation, ds_ok,
}
use dsoal.Al.{Floats}
use dsoal.SharedBuffer.{BufferDesc}
use dsoal.Buffer.{Buffer}
use dsoal.Buffer.Playback.Progress.{succeeded}
use dsoal.Buffer.Setup
use dsoal.Buffer.Setup.{Initialized}
use dsoal.Buffer.Setup.Ready.{IsFloat, Fits, Ready, Original, initialize-Starts}
use dsoal.Buffer.Setup.Added.{Added, initialize-Added}
use dsoal.Pool.{BufferSubList, create_secondary_buffer, create_and_dispose, has_free, new_group}
use dsoal.Pool.Groups.{Changes, CreatedIn, buffer_at-new, create_secondary_buffer-CreatedIn}
use dsoal.Pool.Every.{Every, EveryIn, new-Every, create_secondary_buffer-EveryIn}
use dsoal.Primary.Emulation
use dsoal.Primary.References
use dsoal.DSound8.{Pointer, DSound8, deref}
use dsoal.DSound8.Creation.{
  Made, Outside, refused, buffers_of, discard, keep_buffer, settle, create_buffer, create_primary,
  create_sound_buffer,
}
use dsoal.DSound8.Creation.Counted.{IsCounted, Leaves, Accounts-in, create_buffer-Leaves}
use dsoal.DSound8.Clients.Usable.{Is3d, IsUsable}

All-last :
    (P : Pointer → Type 0) (ps : List Pointer) (p : Pointer) → All P ps → P p → All P (ps ++ p ∷ [])
All-last P [] p a l = (l, tt)
All-last P (q ∷ ps) p a l = (a.0, All-last P ps p a.1 l)

itself : (k i : ℕ) → ((k == k) && (i == i)) ≡ true
itself k i = ground arith

module _ {F : Type 0} where
  new-Is3d :
      (gs : List (BufferSubList (Buffer F))) (ps : List Pointer)
      → All (Is3d gs) ps
      → All (Is3d (gs ++ new_group ∷ [])) ps
  new-Is3d gs [] a = tt
  new-Is3d gs (p ∷ ps) a =
      ((a.0.0, buffer_at-new p.group p.slot gs ∙ a.0.1, a.0.2), new-Is3d gs ps a.1)

  -- A slot that was free leads nowhere before.
  fresh-Is3d :
      (k i : ℕ) (c : Buffer F) (gs gs' : List (BufferSubList (Buffer F))) (ps : List Pointer)
      → Changes k i (some c) gs gs'
      → deref (record { group = k; slot = i }) gs ≡ none
      → All (Is3d gs) ps
      → All (Is3d gs') ps
  fresh-Is3d k i c gs gs' [] ch e a = tt
  fresh-Is3d k i c gs gs' (q ∷ qs) ch e a =
      let (d, there, flag) = a.0 in
      elim (Bool-cases ((q.group == k) && (q.slot == i))) [
        | inl same ↦
            (let eg : q.group ≡ k = ground arith in
              let es : q.slot ≡ i = ground arith in
              let gone : deref q gs ≡ none = rw (eg, es) e in cc)
        | inr other ↦
            ((d, ch q.group q.slot ∙ rw other there, flag), fresh-Is3d k i c gs gs' qs ch e a.1)
      ]

module _ (fl : Floats) where
  open fl use {D3dValue}

  -- What a session says of the pool and the list of 3D buffers
  pub record IsStocked (s : DSound8 D3dValue) : Type 0 where
    pub usable : Every (IsUsable fl) s.secondary_buffers
    pub spatial : All (Is3d s.secondary_buffers) s.buffers_3d

  abbrev pub Stocks : Option (Made D3dValue) → Type 0
  Stocks none = Unit
  Stocks (some m) = IsStocked m.object

  discard-Stocks :
      (w : Outside D3dValue) (r : Initialized D3dValue) (s : DSound8 D3dValue)
      → IsStocked s
      → Stocks (discard fl w r s)
  unfolding discard create_and_dispose
  discard-Stocks w r s v =
      let gs = s.secondary_buffers in
      elim (Bool-cases (has_free gs)) [
        | inl e ↦ rw (e, discard) (record { usable = v.usable; spatial = v.spatial })
        | inr e ↦ elim (Bool-cases (w.allocates)) [
          | inl e' ↦
              rw (e, e', discard)
                (record {
                  usable = new-Every (IsUsable fl) gs v.usable;
                  spatial = new-Is3d gs s.buffers_3d v.spatial;
                })
          | inr e' ↦ rw (e, e', discard) tt
        ]
      ]

  keep-Stocks :
      (w : Outside D3dValue) (r : Initialized D3dValue) (b : Buffer D3dValue) (s : DSound8 D3dValue)
      → IsCounted fl s
      → IsStocked s
      → IsUsable fl b
      → (r.added_3d ≡ true → has b.shared.flags caps_ctrl3d ≡ true)
      → Stocks (keep_buffer fl w r b s)
  unfolding keep_buffer
  keep-Stocks w r b s n v u h =
      let gs = s.secondary_buffers in
      elim (Option-cases (create_secondary_buffer w.allocates b gs)) [
        | inl e ↦ rw (e, keep_buffer) tt
        | inr ((k, i, gs'), e) ↦
            (let c =
                rw (e, CreatedIn) at
                  (create_secondary_buffer-CreatedIn w.allocates b gs n.levelled.pool).0 in
              let all =
                rw (e, EveryIn) at
                  (create_secondary_buffer-EveryIn (IsUsable fl) w.allocates b gs u v.usable) in
              let live = fresh-Is3d k i b gs gs' s.buffers_3d c.changes c.fresh v.spatial in
              rw (e, keep_buffer)
                (record {
                  usable = all;
                  spatial =
                      if_cases (All (Is3d gs')) r.added_3d _ _
                        (λ added.
                          All-last (Is3d gs') s.buffers_3d (record { group = k; slot = i }) live
                            (b, c.changes k i ∙ rw (itself k i) refl, h added))
                        (λ _. live);
                }))
      ]

  settle-Stocks :
      (w : Outside D3dValue) (r : Initialized D3dValue) (o : Option (Buffer D3dValue))
      (s : DSound8 D3dValue)
      → IsCounted fl s
      → IsStocked s
      → r.buffer ≡ o
      → Added fl r
      → ((b : Buffer D3dValue) × (r.buffer ≡ some b) × Ready fl b)
      → Stocks (settle fl w r o s)
  unfolding settle
  settle-Stocks w r none s n v e a (b, there, u) = cc
  settle-Stocks w r (some c) s n v e a (b, there, u) =
      let same : b ≡ c = cc in
      keep-Stocks w r c s n v
        (rw (← same)
          (record { whole = u.whole; source = u.source; located = u.located; spatial = u.spatial }))
        (λ added.
          let (d, there', flag) = a.there added in let same' : d ≡ c = cc in rw (← same') flag)

  pub create_buffer-Stocks :
      (w : Outside D3dValue) (r : Initialized D3dValue) (s : DSound8 D3dValue)
      → IsCounted fl s
      → IsStocked s
      → Added fl r
      → (r.hr ≡ ds_ok → (b : Buffer D3dValue) × (r.buffer ≡ some b) × Ready fl b)
      → Stocks (create_buffer fl w r s)
  unfolding create_buffer
  create_buffer-Stocks w r s n v a u =
      if_cases Stocks (failed r.hr) _ _ (λ _. discard-Stocks w r s v)
        (λ ok. settle-Stocks w r r.buffer s n v refl a (u (succeeded r.hr ok)))

  -- A buffer that is made by `Initialize`, from a request or from an original
  pub initialized-Stocks :
      (w : Outside D3dValue) (desc : Option BufferDesc) (o : Option (Buffer D3dValue))
      (s : DSound8 D3dValue)
      → IsFloat fl
      → w.given.new_source ≢ 0
      → Fits desc
      → Original fl o
      → IsCounted fl s
      → IsStocked s
      → let r = Setup.initialize fl w.given w.storage desc (Setup.construct fl s.is_8 o) s.shared in
        Stocks (create_buffer fl w r s) × Leaves fl (create_buffer fl w r s)
  initialized-Stocks w desc o s fv hg hf ho n v =
      let t =
        initialize-Starts fl w.given w.storage desc s.is_8 o s.shared _ _ fv hg hf ho
          (Accounts-in s.shared _ _ _ n.levelled.held.accounts) in
      (
        create_buffer-Stocks w _ s n v
            (initialize-Added fl w.given w.storage desc s.is_8 o s.shared) t.ready,
        create_buffer-Leaves fl w _ s n t.accounts,
      )

  create_primary-Stocks :
      (w : Outside D3dValue) (desc : BufferDesc) (bs : List (Buffer D3dValue))
      (s : DSound8 D3dValue)
      → IsStocked s
      → IsStocked (create_primary fl w desc bs s).object
  unfolding create_primary
  create_primary-Stocks w desc bs s v =
      let P = λ (m : Made D3dValue). IsStocked m.object in
      let (ret, p) = References.add_ref References.ds s.primary_buffer in
      let o = Emulation.initialize fl w.given w.storage s.prio_level bs (some desc) p s.shared in
      if_both P (not ((ret == 1) && (p.flags == 0))) _ _
        (record { usable = v.usable; spatial = v.spatial })
        (if_both P (failed o.hr) _ _ (record { usable = v.usable; spatial = v.spatial })
          (record { usable = v.usable; spatial = v.spatial }))

  pub refused-Stocks :
      (hr : Hresult) (s : DSound8 D3dValue) → IsStocked s → Stocks (some (refused hr s))
  unfolding refused
  refused-Stocks hr s v = v

  pub create_sound_buffer-Stocks :
      (w : Outside D3dValue) (place outer : Bool) (desc : Option BufferDesc) (s : DSound8 D3dValue)
      → IsFloat fl
      → w.given.new_source ≢ 0
      → Fits desc
      → IsCounted fl s
      → IsStocked s
      → Stocks (create_sound_buffer fl w place outer desc s)
  unfolding create_sound_buffer
  create_sound_buffer-Stocks w place outer none s fv hg hf n v = refused-Stocks _ s v
  create_sound_buffer-Stocks w place outer (some desc) s fv hg hf n v =
      let P = Stocks in
      if_both P (not place) _ _ (refused-Stocks invalid_param s v) (
        if_both P outer _ _ (refused-Stocks no_aggregation s v) (
          if_both P (has desc.flags caps_primarybuffer) _ _
            (elim (Option-cases (buffers_of s.buffers_3d s.secondary_buffers)) [
              | inl e ↦ rw e tt
              | inr (bs, e) ↦ rw e (create_primary-Stocks w desc bs s v)
            ])
            (if_both P ((bit_and desc.flags 0x50 == 0x50) && s.is_8) _ _
              (refused-Stocks invalid_param s v)
              (initialized-Stocks w (some desc) none s fv hg hf tt n v).0)))
