-- ===== src/Pool/Sums.antt =====
-- A number for each object, summed over the pool: a new object adds its number, and a new object that is
-- disposed of leaves the pool as it was, or with one more empty group.
use dsoal.Prelude.{
  ℕ, zero, suc, ◌+◌, ◌<◌, ◌≡◌, length, refl, arith, Bool, true, false, Option, none, some, List, [],
  ◌∷◌, ◌++◌, set, replicate, if◌then◌else◌, Option-cases, inl, inr,
}
use dsoal.Pool.{
  BufferSubList, behind, countr_zero, new_group, take_slot, create_in, create_secondary_buffer,
  slot_of, buffer_at, put_buffer, dispose, free_slot,
}
use dsoal.Pool.Slots.{countr_zero-Agree}
use dsoal.Pool.Groups.{IsPool, new-IsPool}

module _ {A : Type 0} (use_of : A → ℕ) where
  abbrev pub use_in : Option A → ℕ
  use_in none = 0
  use_in (some a) = use_of a

  unfoldable pub slots_sum : List (Option A) → ℕ
  slots_sum [] = 0
  slots_sum (s ∷ ss) = use_in s + slots_sum ss

  unfoldable pub pool_sum : List (BufferSubList A) → ℕ
  unfolding slots_sum
  pool_sum [] = 0
  pool_sum (g ∷ gs) = slots_sum g.buffers + pool_sum gs

  -- A slot changes.
  slot_of-inside : (i : ℕ) (a : A) (ss : List (Option A)) → slot_of i ss ≡ some a → i < length ss
  unfolding slot_of
  slot_of-inside i a [] e = cc
  slot_of-inside zero a (s ∷ ss) e = omega arith
  slot_of-inside (suc i) a (s ∷ ss) e = omega (arith, slot_of-inside i a ss e)

  slots_sum-set :
      (i : ℕ) (s : Option A) (ss : List (Option A))
      → i < length ss
      → slots_sum (set ss i s) + use_in (slot_of i ss) ≡ slots_sum ss + use_in s
  unfolding slots_sum slot_of
  slots_sum-set i s [] h = elim h [ ]
  slots_sum-set zero s (t ∷ ss) h = omega arith
  slots_sum-set (suc i) s (t ∷ ss) h = omega (arith, slots_sum-set i s ss (omega arith))

  -- What a new object adds
  abbrev pub AddsTo : A → List (BufferSubList A) → Option (ℕ × ℕ × List (BufferSubList A)) → Type 0
  AddsTo a gs none = Unit
  AddsTo a gs (some (k, i, gs')) = pool_sum gs' ≡ use_of a + pool_sum gs

  behind-AddsTo :
      (a : A) (g : BufferSubList A) (gs : List (BufferSubList A))
      (o : Option (ℕ × ℕ × List (BufferSubList A)))
      → AddsTo a gs o
      → AddsTo a (g ∷ gs) (behind g o)
  unfolding pool_sum
  behind-AddsTo a g gs none h = tt
  behind-AddsTo a g gs (some (k, i, gs')) h = omega arith

  create_in-AddsTo :
      (a : A) (gs : List (BufferSubList A)) → IsPool gs → AddsTo a gs (create_in a gs)
  unfolding create_in take_slot pool_sum
  create_in-AddsTo a [] v = tt
  create_in-AddsTo a (g ∷ gs) v = elim (Option-cases (countr_zero g.free_mask)) [
    | inl e ↦ rw (e, AddsTo, create_in) (behind-AddsTo a g gs _ (create_in-AddsTo a gs v.1))
    | inr (i, e) ↦
        (let (inside, free, agree) = countr_zero-Agree i a g.free_mask g.buffers e v.0 in
          let same = slots_sum-set i (some a) g.buffers inside in
          rw (e, AddsTo, create_in) (omega (arith, rw free at same)))
  ]

  pub slots_sum-replicate : (n : ℕ) → slots_sum (replicate n none) ≡ 0
  unfolding slots_sum
  slots_sum-replicate zero = refl
  slots_sum-replicate (suc n) = omega (arith, slots_sum-replicate n)

  pub pool_sum-new : (gs : List (BufferSubList A)) → pool_sum (gs ++ new_group ∷ []) ≡ pool_sum gs
  unfolding pool_sum new_group
  pool_sum-new [] = omega (arith, slots_sum-replicate 64)
  pool_sum-new (g ∷ gs) = omega (arith, pool_sum-new gs)

  pub create_secondary_buffer-AddsTo :
      (allocates : Bool) (a : A) (gs : List (BufferSubList A))
      → IsPool gs
      → AddsTo a gs (create_secondary_buffer allocates a gs)
  unfolding create_secondary_buffer
  create_secondary_buffer-AddsTo allocates a gs v = elim (Option-cases (create_in a gs)) [
    | inr (r, e) ↦ rw (e, AddsTo, create_secondary_buffer) (rw e at (create_in-AddsTo a gs v))
    | inl e ↦ rw (e, AddsTo, create_secondary_buffer) (grown allocates)
  ]
    where
      grown : (b : Bool) → AddsTo a gs (if b then create_in a (gs ++ new_group ∷ []) else none)
      grown false = tt
      grown true =
          new_adds (create_in a (gs ++ new_group ∷ []))
            (create_in-AddsTo a (gs ++ new_group ∷ []) (new-IsPool gs v))
        where
          new_adds :
              (o : Option (ℕ × ℕ × List (BufferSubList A)))
              → AddsTo a (gs ++ new_group ∷ []) o
              → AddsTo a gs o
          new_adds none h = tt
          new_adds (some (k, i, gs')) h = omega (arith, pool_sum-new gs)

  -- A buffer that changes to another, or leaves, changes the sum by its number.
  pub pool_sum-put :
      (k i : ℕ) (a b : A) (gs : List (BufferSubList A))
      → buffer_at k i gs ≡ some a
      → pool_sum (put_buffer k i b gs) + use_of a ≡ pool_sum gs + use_of b
  unfolding pool_sum put_buffer buffer_at
  pool_sum-put k i a b [] e = cc
  pool_sum-put zero i a b (g ∷ gs) e =
      let same = slots_sum-set i (some b) g.buffers (slot_of-inside i a g.buffers e) in
      omega (arith, rw e at same)
  pool_sum-put (suc k) i a b (g ∷ gs) e = omega (arith, pool_sum-put k i a b gs e)

  pub pool_sum-dispose :
      (k i : ℕ) (a : A) (gs : List (BufferSubList A))
      → buffer_at k i gs ≡ some a
      → pool_sum (dispose k i gs) + use_of a ≡ pool_sum gs
  unfolding pool_sum dispose free_slot buffer_at
  pool_sum-dispose k i a [] e = cc
  pool_sum-dispose zero i a (g ∷ gs) e =
      let same = slots_sum-set i none g.buffers (slot_of-inside i a g.buffers e) in
      omega (arith, rw e at same)
  pool_sum-dispose (suc k) i a (g ∷ gs) e = omega (arith, pool_sum-dispose k i a gs e)
