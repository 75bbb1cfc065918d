-- ===== src/DSound8/Creation/Faults.antt =====
-- `CreateSoundBuffer` returns: it uses no pointer that leads to no object.
use dsoal.Prelude.{
  ◌≡◌, ◌≢◌, Bool, true, not, ◌&&◌, Option, none, some, List, [], ◌∷◌, All, bit_and, ◌==◌, if_both,
  Option-cases, Bool-cases, inl, inr,
}
use dsoal.Win.{failed, has, caps_primarybuffer}
use dsoal.Al.{Floats}
use dsoal.SharedBuffer.{BufferDesc}
use dsoal.Buffer.{Buffer}
use dsoal.Buffer.Setup
use dsoal.Buffer.Setup.{Initialized}
use dsoal.Pool.{BufferSubList, create_secondary_buffer, create_and_dispose, has_free}
use dsoal.Pool.Groups.{IsPool, create_secondary_buffer-CreatedIn}
use dsoal.DSound8.{Pointer, DSound8}
use dsoal.DSound8.Pending.{IsLive}
use dsoal.DSound8.Creation.{
  Made, Outside, buffers_of, discard, keep_buffer, settle, create_buffer, create_sound_buffer,
}
use dsoal.DSound8.Creation.Counted.{IsCounted}

module _ {F : Type 0} where
  pub buffers_of-live :
      (ps : List Pointer) (gs : List (BufferSubList (Buffer F)))
      → All (IsLive gs) ps
      → buffers_of ps gs ≢ none
  unfolding buffers_of
  buffers_of-live [] gs a e = cc
  buffers_of-live (p ∷ ps) gs a e = elim (Option-cases (buffers_of ps gs)) [
    | inl h ↦ buffers_of-live ps gs a.1 h
    | inr (bs, h) ↦ cc (rw (a.0.1, h, buffers_of) at e)
  ]

module _ (fl : Floats) where
  open fl use {D3dValue}

  discard-total :
      (w : Outside D3dValue) (s : DSound8 D3dValue) (r : Initialized D3dValue)
      → w.allocates ≡ true
      → discard fl w r s ≢ none
  unfolding discard create_and_dispose
  discard-total w s r h = elim (Bool-cases (has_free s.secondary_buffers)) [
    | inl e ↦ λ n. cc (rw (e, discard) at n)
    | inr e ↦ λ n. cc (rw (e, h, discard) at n)
  ]

  settle-total :
      (w : Outside D3dValue) (s : DSound8 D3dValue) (r : Initialized D3dValue)
      (o : Option (Buffer D3dValue))
      → w.allocates ≡ true
      → IsPool s.secondary_buffers
      → settle fl w r o s ≢ none
  unfolding settle keep_buffer
  settle-total w s r none h v = discard-total w s r h
  settle-total w s r (some b) h v =
      elim (Option-cases (create_secondary_buffer w.allocates b s.secondary_buffers)) [
        | inl e ↦
            absurd ((create_secondary_buffer-CreatedIn w.allocates b s.secondary_buffers v).1 h e)
        | inr ((k, i, gs), e) ↦ λ n. cc (rw (e, keep_buffer) at n)
      ]

  pub create_buffer-total :
      (w : Outside D3dValue) (r : Initialized D3dValue) (s : DSound8 D3dValue)
      → w.allocates ≡ true
      → IsCounted fl s
      → create_buffer fl w r s ≢ none
  unfolding create_buffer
  create_buffer-total w r s h v =
      if_both (λ o. o ≢ none) (failed r.hr) _ _ (discard-total w s r h)
        (settle-total w s r r.buffer h v.levelled.pool)

  -- While groups of buffers can be allocated, `CreateSoundBuffer` is no fault, whatever it is asked for:
  -- it returns.
  pub create_sound_buffer-total :
      (w : Outside D3dValue) (place outer : Bool) (desc : Option BufferDesc) (s : DSound8 D3dValue)
      → w.allocates ≡ true
      → IsCounted fl s
      → create_sound_buffer fl w place outer desc s ≢ none
  unfolding create_sound_buffer
  create_sound_buffer-total w place outer none s h v = λ e. cc
  create_sound_buffer-total w place outer (some desc) s h v =
      let P = λ (o : Option (Made D3dValue)). o ≢ none in
      let r =
        Setup.initialize fl w.given w.storage (some desc) (Setup.construct fl s.is_8 none)
          s.shared in
      if_both P (not place) _ _ (λ e. cc)
        (if_both P outer _ _ (λ e. cc)
          (if_both P (has desc.flags caps_primarybuffer) _ _
            (elim (Option-cases (buffers_of s.buffers_3d s.secondary_buffers)) [
              | inl e ↦ absurd (buffers_of-live s.buffers_3d s.secondary_buffers v.live_3d e)
              | inr (bs, e) ↦ rw e (λ n. cc)
            ])
            (if_both P ((bit_and desc.flags 0x50 == 0x50) && s.is_8) _ _ (λ e. cc)
              (create_buffer-total w r s h v))))
