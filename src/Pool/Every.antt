-- ===== src/Pool/Every.antt =====
-- What holds of every object in the pool goes on holding of it.
use dsoal.Prelude.{
  ℕ, zero, suc, ◌≡◌, arith, Bool, true, false, Option, none, some, List, [], ◌∷◌, ◌++◌, set,
  replicate, All, if◌then◌else◌, Option-cases, inl, inr,
}
use dsoal.Pool.{
  BufferSubList, behind, countr_zero, new_group, take_slot, create_in, create_secondary_buffer,
  dispose, free_slot, slot_of, buffer_at, put_buffer,
}

module _ {A : Type 0} (P : A → Type 0) where
  abbrev pub In : Option A → Type 0
  In none = Unit
  In (some a) = P a

  abbrev pub Every : List (BufferSubList A) → Type 0
  Every gs = All (λ g. All In g.buffers) gs

  slot_of-In : (i : ℕ) (ss : List (Option A)) {a : A} → All In ss → slot_of i ss ≡ some a → P a
  unfolding slot_of
  slot_of-In i [] v e = cc
  slot_of-In zero (none ∷ ss) v e = cc
  slot_of-In zero (some b ∷ ss) v e = ground (arith, v.0)
  slot_of-In (suc i) (s ∷ ss) v e = slot_of-In i ss v.1 e

  pub buffer_at-Every :
      (k i : ℕ) (gs : List (BufferSubList A)) {a : A} → Every gs → buffer_at k i gs ≡ some a → P a
  unfolding buffer_at
  buffer_at-Every k i [] v e = cc
  buffer_at-Every zero i (g ∷ gs) v e = slot_of-In i g.buffers v.0 e
  buffer_at-Every (suc k) i (g ∷ gs) v e = buffer_at-Every k i gs v.1 e

  set-In : (i : ℕ) (s : Option A) (ss : List (Option A)) → In s → All In ss → All In (set ss i s)
  set-In i s [] h v = tt
  set-In zero s (t ∷ ss) h v = (h, v.1)
  set-In (suc i) s (t ∷ ss) h v = (v.0, set-In i s ss h v.1)

  pub put_buffer-Every :
      (k i : ℕ) (a : A) (gs : List (BufferSubList A)) → P a → Every gs → Every (put_buffer k i a gs)
  unfolding put_buffer
  put_buffer-Every k i a [] h v = tt
  put_buffer-Every zero i a (g ∷ gs) h v = (set-In i (some a) g.buffers h v.0, v.1)
  put_buffer-Every (suc k) i a (g ∷ gs) h v = (v.0, put_buffer-Every k i a gs h v.1)

  pub dispose-Every : (k i : ℕ) (gs : List (BufferSubList A)) → Every gs → Every (dispose k i gs)
  unfolding dispose free_slot
  dispose-Every k i [] v = tt
  dispose-Every zero i (g ∷ gs) v = (set-In i none g.buffers tt v.0, v.1)
  dispose-Every (suc k) i (g ∷ gs) v = (v.0, dispose-Every k i gs v.1)

  pub replicate-In : (n : ℕ) → All In (replicate n none)
  replicate-In zero = tt
  replicate-In (suc n) = (tt, replicate-In n)

  pub new-Every : (gs : List (BufferSubList A)) → Every gs → Every (gs ++ new_group ∷ [])
  unfolding new_group
  new-Every [] v = (replicate-In 64, tt)
  new-Every (g ∷ gs) v = (v.0, new-Every gs v.1)

  -- The groups after a creation, where there is a slot
  abbrev pub EveryIn : Option (ℕ × ℕ × List (BufferSubList A)) → Type 0
  EveryIn none = Unit
  EveryIn (some (k, i, gs)) = Every gs

  behind-EveryIn :
      (g : BufferSubList A) (o : Option (ℕ × ℕ × List (BufferSubList A)))
      → All In g.buffers
      → EveryIn o
      → EveryIn (behind g o)
  behind-EveryIn g none h v = tt
  behind-EveryIn g (some (k, i, gs)) h v = (h, v)

  create_in-EveryIn :
      (a : A) (gs : List (BufferSubList A)) → P a → Every gs → EveryIn (create_in a gs)
  unfolding create_in take_slot
  create_in-EveryIn a [] h v = tt
  create_in-EveryIn a (g ∷ gs) h v = elim (Option-cases (countr_zero g.free_mask)) [
    | inl e ↦ rw (e, EveryIn, create_in) (behind-EveryIn g _ v.0 (create_in-EveryIn a gs h v.1))
    | inr (i, e) ↦ rw (e, EveryIn, create_in) (set-In i (some a) g.buffers h v.0, v.1)
  ]

  pub create_secondary_buffer-EveryIn :
      (allocates : Bool) (a : A) (gs : List (BufferSubList A))
      → P a
      → Every gs
      → EveryIn (create_secondary_buffer allocates a gs)
  unfolding create_secondary_buffer
  create_secondary_buffer-EveryIn allocates a gs h v = elim (Option-cases (create_in a gs)) [
    | inr (r, e) ↦ rw (e, EveryIn, create_secondary_buffer) (rw e at (create_in-EveryIn a gs h v))
    | inl e ↦ rw (e, EveryIn, create_secondary_buffer) (grown allocates)
  ]
    where
      grown : (b : Bool) → EveryIn (if b then create_in a (gs ++ new_group ∷ []) else none)
      grown false = tt
      grown true = create_in-EveryIn a (gs ++ new_group ∷ []) h (new-Every gs v)
