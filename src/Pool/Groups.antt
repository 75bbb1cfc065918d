-- ===== src/Pool/Groups.antt =====
-- The pool is a map from pointers to buffers: its masks agree with its slots, a new buffer gets a
-- slot that was free, and nothing else changes.
use dsoal.Prelude.{
  ℕ, zero, suc, ◌<◌, ◌≡◌, ◌≢◌, ◌∙◌, sym, length, refl, arith, Bool, true, false, ◌&&◌, Option, none,
  some, List, [], ◌∷◌, ◌++◌, set, replicate, All, ◌==◌, if◌then◌else◌, Option-cases, inl, inr,
}
use dsoal.Pool.{
  BufferSubList, behind, countr_zero, new_group, take_slot, create_in, create_secondary_buffer,
  free_slot, dispose, slot_of, buffer_at, put_buffer,
}
use dsoal.Pool.Slots.{Agree, slot_of-set, countr_zero-Agree, free-Agree, put-Agree}

module _ {A : Type 0} where
  -- In every group the mask agrees with the slots.
  abbrev pub IsPool : List (BufferSubList A) → Type 0
  IsPool gs = All (λ g. Agree g.free_mask g.buffers) gs

  -- The groups `gs'` are `gs` with the slot `i` of group `k` changed to `s`.
  abbrev pub Changes : ℕ → ℕ → Option A → List (BufferSubList A) → List (BufferSubList A) → Type 0
  Changes k i s gs gs' =
      (k' i' : ℕ) → buffer_at k' i' gs' ≡ (if (k' == k) && (i' == i) then s else buffer_at k' i' gs)

  head-Changes :
      (i : ℕ) (s : Option A) (g g' : BufferSubList A) (gs : List (BufferSubList A))
      → i < length g.buffers
      → g'.buffers ≡ set g.buffers i s
      → Changes 0 i s (g ∷ gs) (g' ∷ gs)
  unfolding buffer_at
  head-Changes i s g g' gs h e zero i' = rw e (ground (arith, slot_of-set i i' s g.buffers h))
  head-Changes i s g g' gs h e (suc k') i' = ground arith

  tail-Changes :
      (k i : ℕ) (s : Option A) (g : BufferSubList A) (gs gs' : List (BufferSubList A))
      → Changes k i s gs gs'
      → Changes (suc k) i s (g ∷ gs) (g ∷ gs')
  unfolding buffer_at
  tail-Changes k i s g gs gs' c zero i' = ground arith
  tail-Changes k i s g gs gs' c (suc k') i' = ground (arith, c k' i')

  -- What a new buffer does to the pool.
  pub record Created (a : A) (gs : List (BufferSubList A)) (k i : ℕ) (gs' : List (BufferSubList A))
      : Type 0 where
    pub pool : IsPool gs'
    pub fresh : buffer_at k i gs ≡ none
    pub changes : Changes k i (some a) gs gs'

  abbrev pub CreatedIn :
      A → List (BufferSubList A) → Option (ℕ × ℕ × List (BufferSubList A)) → Type 0
  CreatedIn a gs none = Unit
  CreatedIn a gs (some (k, i, gs')) = Created a gs k i gs'

  behind-CreatedIn :
      (a : A) (g : BufferSubList A) (gs : List (BufferSubList A))
      (o : Option (ℕ × ℕ × List (BufferSubList A)))
      → Agree g.free_mask g.buffers
      → CreatedIn a gs o
      → CreatedIn a (g ∷ gs) (behind g o)
  unfolding buffer_at
  behind-CreatedIn a g gs none v c = tt
  behind-CreatedIn a g gs (some (k, i, gs')) v c = record {
    pool = (v, c.pool);
    fresh = c.fresh;
    changes = tail-Changes k i (some a) g gs gs' c.changes;
  }

  create_in-CreatedIn :
      (a : A) (gs : List (BufferSubList A)) → IsPool gs → CreatedIn a gs (create_in a gs)
  unfolding create_in buffer_at take_slot
  create_in-CreatedIn a [] v = tt
  create_in-CreatedIn a (g ∷ gs) v = elim (Option-cases (countr_zero g.free_mask)) [
    | inl e ↦
        rw (e, CreatedIn, create_in) (behind-CreatedIn a g gs _ v.0 (create_in-CreatedIn a gs v.1))
    | inr (i, e) ↦
        let (inside, free, agree) = countr_zero-Agree i a g.free_mask g.buffers e v.0 in
        rw (e, CreatedIn, create_in)
          (record {
            pool = (agree, v.1);
            fresh = free;
            changes = head-Changes i (some a) g (take_slot i a g) gs inside refl;
          })
  ]

  slot_of-replicate : (n i : ℕ) → slot_of {A = A} i (replicate n none) ≡ none
  unfolding slot_of
  slot_of-replicate zero i = refl
  slot_of-replicate (suc n) zero = refl
  slot_of-replicate (suc n) (suc i) = slot_of-replicate n i

  -- A new group holds no buffer.
  pub buffer_at-new :
      (k i : ℕ) (gs : List (BufferSubList A))
      → buffer_at k i (gs ++ new_group ∷ []) ≡ buffer_at k i gs
  unfolding buffer_at new_group
  buffer_at-new zero i [] = slot_of-replicate 64 i
  buffer_at-new (suc k) i [] = refl
  buffer_at-new zero i (g ∷ gs) = refl
  buffer_at-new (suc k) i (g ∷ gs) = buffer_at-new k i gs

  pub new-IsPool : (gs : List (BufferSubList A)) → IsPool gs → IsPool (gs ++ new_group ∷ [])
  unfolding new_group
  new-IsPool [] v = (tt, tt)
  new-IsPool (g ∷ gs) v = (v.0, new-IsPool gs v.1)

  new-CreatedIn :
      (a : A) (gs : List (BufferSubList A)) (o : Option (ℕ × ℕ × List (BufferSubList A)))
      → CreatedIn a (gs ++ new_group ∷ []) o
      → CreatedIn a gs o
  new-CreatedIn a gs none c = tt
  new-CreatedIn a gs (some (k, i, gs')) c = record {
    pool = c.pool;
    fresh = sym (buffer_at-new k i gs) ∙ c.fresh;
    changes = λ k' i'. rw (← buffer_at-new k' i' gs) (c.changes k' i');
  }

  pub behind-ne-none :
      (g : BufferSubList A) (o : Option (ℕ × ℕ × List (BufferSubList A)))
      → behind g o ≡ none
      → o ≡ none
  behind-ne-none g none e = refl
  behind-ne-none g (some r) e = cc

  pub new-create_in :
      (a : A) (gs : List (BufferSubList A)) → create_in a (gs ++ new_group ∷ []) ≢ none
  unfolding create_in new_group countr_zero
  new-create_in a [] e = cc
  new-create_in a (g ∷ gs) e = elim (Option-cases (countr_zero g.free_mask)) [
    | inl h ↦ new-create_in a gs (behind-ne-none g _ (rw (h, create_in) at e))
    | inr (i, h) ↦ cc (rw (h, create_in) at e)
  ]

  -- A new buffer gets a slot that held none, holds the only change of the pool, and the masks go on
  -- agreeing with the slots. While groups can be allocated there is always one.
  pub create_secondary_buffer-CreatedIn :
      (allocates : Bool) (a : A) (gs : List (BufferSubList A))
      → IsPool gs
      → CreatedIn a gs (create_secondary_buffer allocates a gs)
        × (allocates ≡ true → create_secondary_buffer allocates a gs ≢ none)
  unfolding create_secondary_buffer
  create_secondary_buffer-CreatedIn allocates a gs v = elim (Option-cases (create_in a gs)) [
    | inr (r, e) ↦
        rw (e, CreatedIn, create_secondary_buffer) (rw e at (create_in-CreatedIn a gs v), λ _ h. cc)
    | inl e ↦ rw (e, CreatedIn, create_secondary_buffer) (grown allocates)
  ]
    where
      grown :
          (b : Bool)
          → CreatedIn a gs (if b then create_in a (gs ++ new_group ∷ []) else none)
            × (b ≡ true → (if b then create_in a (gs ++ new_group ∷ []) else none) ≢ none)
      grown false = (tt, λ h. cc)
      grown true = (
        new-CreatedIn a gs _ (create_in-CreatedIn a (gs ++ new_group ∷ []) (new-IsPool gs v)),
        λ _. new-create_in a gs,
      )

  -- Disposing of a buffer frees its slot, changes no other one, and keeps the masks agreeing.
  pub dispose-IsPool :
      (k i : ℕ) (b : A) (gs : List (BufferSubList A))
      → IsPool gs
      → buffer_at k i gs ≡ some b
      → IsPool (dispose k i gs) × Changes k i none gs (dispose k i gs)
  unfolding buffer_at dispose free_slot
  dispose-IsPool k i b [] v e = cc
  dispose-IsPool zero i b (g ∷ gs) v e =
      let (inside, agree) = free-Agree i b g.free_mask g.buffers e v.0 in
      ((agree, v.1), head-Changes i none g (free_slot i g) gs inside refl)
  dispose-IsPool (suc k) i b (g ∷ gs) v e =
      let (rest, changes) = dispose-IsPool k i b gs v.1 e in
      ((v.0, rest), tail-Changes k i none g gs (dispose k i gs) changes)

  -- A change of a buffer that is there changes no other one.
  pub put_buffer-IsPool :
      (k i : ℕ) (b c : A) (gs : List (BufferSubList A))
      → IsPool gs
      → buffer_at k i gs ≡ some b
      → IsPool (put_buffer k i c gs) × Changes k i (some c) gs (put_buffer k i c gs)
  unfolding buffer_at put_buffer
  put_buffer-IsPool k i b c [] v e = cc
  put_buffer-IsPool zero i b c (g ∷ gs) v e =
      let (inside, agree) = put-Agree i b c g.free_mask g.buffers e v.0 in
      (
        (agree, v.1),
        head-Changes i (some c) g (record g { buffers = set g.buffers i (some c) }) gs inside refl,
      )
  put_buffer-IsPool (suc k) i b c (g ∷ gs) v e =
      let (rest, changes) = put_buffer-IsPool k i b c gs v.1 e in
      ((v.0, rest), tail-Changes k i (some c) g gs (put_buffer k i c gs) changes)
