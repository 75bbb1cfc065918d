-- ===== src/Pool/Undone.antt =====
-- A new object that is disposed of leaves the pool as it was, or with one more empty group.
use dsoal.Prelude.{
  ℕ, zero, suc, ◌≡◌, ◌∙◌, ap, sym, refl, Bool, true, false, Option, none, some, List, [], ◌∷◌, ◌++◌,
  set, if◌then◌else◌, Option-cases, inl, inr,
}
use dsoal.Pool.{
  BufferSubList, behind, countr_zero, new_group, take_slot, create_in, create_secondary_buffer,
  has_free, create_and_dispose, free_slot, dispose, slot_of,
}
use dsoal.Pool.Slots.{Agree, countr_zero-Agree, next_bit-suc, next_bit-ne-zero}
use dsoal.Pool.Groups.{IsPool, new-IsPool}

set-twice {ℓ} : {B : Type ℓ} (i : ℕ) (x y : B) (xs : List B) → set (set xs i x) i y ≡ set xs i y
set-twice i x y [] = refl
set-twice zero x y (z ∷ xs) = refl
set-twice (suc i) x y (z ∷ xs) = ap (λ l. z ∷ l) (set-twice i x y xs)

-- The lowest set bit is set.
mask-set : (i : ℕ) (mask : List Bool) → countr_zero mask ≡ some i → set mask i true ≡ mask
unfolding countr_zero
mask-set i [] e = refl
mask-set zero (true ∷ bits) e = refl
mask-set (suc i) (true ∷ bits) e = cc
mask-set zero (false ∷ bits) e = absurd (next_bit-ne-zero (countr_zero bits) e)
mask-set (suc i) (false ∷ bits) e =
    ap (λ l. false ∷ l) (mask-set i bits (next_bit-suc (countr_zero bits) i e))

module _ {A : Type 0} where
  slot-set : (i : ℕ) (ss : List (Option A)) → slot_of i ss ≡ none → set ss i none ≡ ss
  unfolding slot_of
  slot-set i [] e = refl
  slot-set zero (s ∷ ss) e = ap (λ x. x ∷ ss) (sym e)
  slot-set (suc i) (s ∷ ss) e = ap (λ l. s ∷ l) (slot-set i ss e)

  free-take :
      (i : ℕ) (a : A) (g : BufferSubList A)
      → countr_zero g.free_mask ≡ some i
      → Agree g.free_mask g.buffers
      → free_slot i (take_slot i a g) ≡ g
  unfolding free_slot take_slot
  free-take i a g e v =
      let (inside, free, agree) = countr_zero-Agree i a g.free_mask g.buffers e v in
      let em = set-twice i false true g.free_mask ∙ mask-set i g.free_mask e in
      let es = set-twice i (some a) none g.buffers ∙ slot-set i g.buffers free in
      λ j. record { free_mask = em j; buffers = es j }

  -- The pool after the disposal
  abbrev pub undone : Option (ℕ × ℕ × List (BufferSubList A)) → Option (List (BufferSubList A))
  undone none = none
  undone (some (k, i, gs)) = some (dispose k i gs)

  abbrev at_front :
      BufferSubList A → Option (List (BufferSubList A)) → Option (List (BufferSubList A))
  at_front g none = none
  at_front g (some gs) = some (g ∷ gs)

  undone-behind :
      (g : BufferSubList A) (o : Option (ℕ × ℕ × List (BufferSubList A)))
      → undone (behind g o) ≡ at_front g (undone o)
  unfolding dispose
  undone-behind g none = refl
  undone-behind g (some (k, i, gs)) = refl

  create_in-undone :
      (a : A) (gs : List (BufferSubList A))
      → IsPool gs
      → undone (create_in a gs) ≡ (if has_free gs then some gs else none)
  unfolding create_in has_free dispose
  create_in-undone a [] v = refl
  create_in-undone a (g ∷ gs) v = elim (Option-cases (countr_zero g.free_mask)) [
    | inl e ↦
        rw (e, create_in, has_free)
          (undone-behind g _ ∙ ap (at_front g) (create_in-undone a gs v.1) ∙ front (has_free gs))
    | inr (i, e) ↦ rw (e, create_in, has_free) (ap (λ h. some (h ∷ gs)) (free-take i a g e v.0))
  ]
    where
      front :
          (b : Bool)
          → at_front g (if b then some gs else none) ≡ (if b then some (g ∷ gs) else none)
      front true = refl
      front false = refl

  new-has_free : (gs : List (BufferSubList A)) → has_free (gs ++ new_group ∷ []) ≡ true
  unfolding has_free new_group countr_zero
  new-has_free [] = refl
  new-has_free (g ∷ gs) = elim (Option-cases (countr_zero g.free_mask)) [
    | inl e ↦ rw (e, has_free) (new-has_free gs)
    | inr (i, e) ↦ rw (e, has_free) refl
  ]

  -- `createSecondaryBuffer` followed by `dispose` of the new buffer, whatever it is, gives back the same
  -- groups, or the same and an empty one if none had a free slot and one could be allocated, or nothing
  -- is created.
  pub create-dispose :
      (allocates : Bool) (a : A) (gs : List (BufferSubList A))
      → IsPool gs
      → undone (create_secondary_buffer allocates a gs) ≡ create_and_dispose allocates gs
  unfolding create_secondary_buffer create_and_dispose
  create-dispose allocates a gs v = elim (Option-cases (create_in a gs)) [
    | inl e ↦
        (let full : has_free gs ≡ false =
            none_free (has_free gs) (rw e at (create_in-undone a gs v)) in
          rw (e, create_secondary_buffer, full) (grown allocates))
    | inr (r, e) ↦
        (let free : has_free gs ≡ true =
            some_free r (has_free gs) (rw e at (create_in-undone a gs v)) in
          rw (e, create_secondary_buffer) (rw e at (create_in-undone a gs v) ∙ kept free))
  ]
    where
      none_free : (b : Bool) → none ≡ (if b then some gs else none) → b ≡ false
      none_free true h = cc
      none_free false h = refl

      some_free :
          (r : ℕ × ℕ × List (BufferSubList A)) (b : Bool)
          → undone (some r) ≡ (if b then some gs else none)
          → b ≡ true
      some_free (k, i, gs') true h = refl
      some_free (k, i, gs') false h = cc

      kept :
          has_free gs ≡ true
          → (if has_free gs then some gs else none) ≡ (
              if has_free gs
              then some gs
              else if allocates
              then some (gs ++ new_group ∷ [])
              else none)
      kept h = rw h refl

      grown :
          (b : Bool)
          → undone (if b then create_in a (gs ++ new_group ∷ []) else none)
            ≡ (if b then some (gs ++ new_group ∷ []) else none)
      grown false = refl
      grown true =
          create_in-undone a (gs ++ new_group ∷ []) (new-IsPool gs v) ∙ rw (new-has_free gs) refl
