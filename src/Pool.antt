-- ===== src/Pool.antt =====
-- buffer.h and dsoundoal.cpp: `BufferSubList`, the groups of 64 preallocated secondary buffers with
-- their mask of free slots, `createSecondaryBuffer`, `dispose` and the destructor of a group.
-- The 64-bit `mFreeMask` is written as its bits, lowest first; a slot holds no object where its
-- storage is not constructed. A pointer to a buffer is its group's index and its slot.
pub mod Slots
pub mod Groups
pub mod Sums
pub mod Undone
pub mod Every
pub mod Tests
use dsoal.Prelude.{
  ℕ, zero, suc, Bool, true, false, Option, none, some, List, [], ◌∷◌, ◌++◌, set, replicate,
  if◌then◌else◌,
}

pub record BufferSubList (A : Type 0) : Type 0 where
  pub free_mask : List Bool
  pub buffers : List (Option A)

abbrev next_bit : Option ℕ → Option ℕ
next_bit none = none
next_bit (some i) = some (suc i)

-- `std::countr_zero` of the mask, or `none` if the mask is 0
unfoldable pub countr_zero : List Bool → Option ℕ
countr_zero [] = none
countr_zero (true ∷ bits) = some 0
countr_zero (false ∷ bits) = next_bit (countr_zero bits)

module _ {A : Type 0} where
  -- A new group, with every bit of the mask set
  unfoldable pub new_group : BufferSubList A
  new_group = record { free_mask = replicate 64 true; buffers = replicate 64 none }

  -- The buffer is constructed in the slot, whose bit is cleared.
  unfoldable pub take_slot : ℕ → A → BufferSubList A → BufferSubList A
  take_slot i a g = record {
    free_mask = set g.free_mask i false;
    buffers = set g.buffers i (some a);
  }

  -- A result for the groups behind one that is full
  abbrev behind :
      BufferSubList A
      → Option (ℕ × ℕ × List (BufferSubList A))
      → Option (ℕ × ℕ × List (BufferSubList A))
  behind g none = none
  behind g (some (k, i, gs)) = some (suc k, i, g ∷ gs)

  -- The first group with a free slot takes the buffer.
  unfoldable pub create_in : A → List (BufferSubList A) → Option (ℕ × ℕ × List (BufferSubList A))
  unfolding take_slot
  create_in a [] = none
  create_in a (g ∷ gs) =
      let later = behind g (create_in a gs) in
      elim (countr_zero g.free_mask) [ none ↦ later | some i ↦ some (0, i, take_slot i a g ∷ gs) ]

  -- `createSecondaryBuffer`: the group and the slot of the new buffer, and the groups; the first
  -- argument says whether the allocation of another group returns. `std::allocator` gives no null pointer:
  -- where its allocation throws, nothing is left, and the null tests after it never succeed.
  unfoldable pub create_secondary_buffer :
      Bool → A → List (BufferSubList A) → Option (ℕ × ℕ × List (BufferSubList A))
  unfolding create_in new_group
  create_secondary_buffer allocates a gs = elim (create_in a gs) [
    | some r ↦ some r
    | none ↦ if allocates then create_in a (gs ++ new_group ∷ []) else none
  ]

  -- Whether a group has a free slot
  unfoldable pub has_free : List (BufferSubList A) → Bool
  has_free [] = false
  has_free (g ∷ gs) = elim (countr_zero g.free_mask) [ none ↦ has_free gs | some i ↦ true ]

  -- The groups after `createSecondaryBuffer` and `dispose` of the new buffer
  unfoldable pub create_and_dispose :
      Bool → List (BufferSubList A) → Option (List (BufferSubList A))
  unfolding has_free new_group
  create_and_dispose allocates gs =
      if has_free gs then some gs else if allocates then some (gs ++ new_group ∷ []) else none

  -- `dispose`: the slot is destructed and its bit set.
  free_slot : ℕ → BufferSubList A → BufferSubList A
  free_slot i g = record { free_mask = set g.free_mask i true; buffers = set g.buffers i none }

  pub dispose : ℕ → ℕ → List (BufferSubList A) → List (BufferSubList A)
  dispose k i [] = []
  dispose zero i (g ∷ gs) = free_slot i g ∷ gs
  dispose (suc k) i (g ∷ gs) = g ∷ dispose k i gs

  -- The object in a slot
  unfoldable pub slot_of : ℕ → List (Option A) → Option A
  slot_of i [] = none
  slot_of zero (s ∷ ss) = s
  slot_of (suc i) (s ∷ ss) = slot_of i ss

  unfoldable pub buffer_at : ℕ → ℕ → List (BufferSubList A) → Option A
  buffer_at k i [] = none
  buffer_at zero i (g ∷ gs) = slot_of i g.buffers
  buffer_at (suc k) i (g ∷ gs) = buffer_at k i gs

  -- A change of the object in a slot
  pub put_buffer : ℕ → ℕ → A → List (BufferSubList A) → List (BufferSubList A)
  put_buffer k i a [] = []
  put_buffer zero i a (g ∷ gs) = record g { buffers = set g.buffers i (some a) } ∷ gs
  put_buffer (suc k) i a (g ∷ gs) = g ∷ put_buffer k i a gs

  -- `~BufferSubList`: the objects that it destroys, one for each bit that is not set, lowest first
  pub destroyed : List Bool → List (Option A) → List (Option A)
  destroyed [] ss = []
  destroyed (free ∷ bits) [] = []
  destroyed (true ∷ bits) (s ∷ ss) = destroyed bits ss
  destroyed (false ∷ bits) (s ∷ ss) = s ∷ destroyed bits ss
