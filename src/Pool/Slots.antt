-- ===== src/Pool/Slots.antt =====
-- The slots of one group: a mask that agrees with them goes on agreeing through every change.
use dsoal.Prelude.{
  ℕ, zero, suc, ◌<◌, ◌≡◌, ◌≢◌, ap, length, refl, arith, Bool, true, false, Option, none, some, List,
  [], ◌∷◌, set, ◌==◌, if◌then◌else◌,
}
use dsoal.Pool.{next_bit, countr_zero, slot_of, destroyed}

pub next_bit-ne-zero : (o : Option ℕ) → next_bit o ≢ some 0
next_bit-ne-zero none e = cc
next_bit-ne-zero (some i) e = ground arith

pub next_bit-suc : (o : Option ℕ) (i : ℕ) → next_bit o ≡ some (suc i) → o ≡ some i
next_bit-suc none i e = cc
next_bit-suc (some k) i e = ground arith

module _ {A : Type 0} where
  -- A bit is set exactly where there is no object.
  abbrev pub Agree : List Bool → List (Option A) → Type 0
  Agree [] [] = Unit
  Agree (true ∷ bits) (none ∷ ss) = Agree bits ss
  Agree (false ∷ bits) (some a ∷ ss) = Agree bits ss
  Agree _ _ = ⊥

  pub slot_of-set :
      (i j : ℕ) (s : Option A) (ss : List (Option A))
      → i < length ss
      → slot_of j (set ss i s) ≡ (if j == i then s else slot_of j ss)
  unfolding slot_of
  slot_of-set i j s [] h = elim h [ ]
  slot_of-set zero zero s (t ∷ ss) h = refl
  slot_of-set zero (suc j) s (t ∷ ss) h = ground arith
  slot_of-set (suc i) zero s (t ∷ ss) h = ground arith
  slot_of-set (suc i) (suc j) s (t ∷ ss) h = ground (arith, slot_of-set i j s ss)

  -- The lowest set bit names a free slot, which can take an object.
  pub countr_zero-Agree :
      (i : ℕ) (a : A) (mask : List Bool) (ss : List (Option A))
      → countr_zero mask ≡ some i
      → Agree mask ss
      → (i < length ss) × (slot_of i ss ≡ none) × Agree (set mask i false) (set ss i (some a))
  unfolding slot_of countr_zero
  countr_zero-Agree i a [] ss e g = cc
  countr_zero-Agree zero a (true ∷ bits) (none ∷ ss) e g = (omega arith, refl, g)
  countr_zero-Agree (suc i) a (true ∷ bits) (none ∷ ss) e g = ground arith
  countr_zero-Agree zero a (false ∷ bits) (some b ∷ ss) e g =
      absurd (next_bit-ne-zero (countr_zero bits) e)
  countr_zero-Agree (suc i) a (false ∷ bits) (some b ∷ ss) e g =
      let (inside, free, agree) =
        countr_zero-Agree i a bits ss (next_bit-suc (countr_zero bits) i e) g in
      (omega arith, free, agree)
  countr_zero-Agree i a (false ∷ bits) [] e g = elim g [ ]
  countr_zero-Agree i a (false ∷ bits) (none ∷ ss) e g = elim g [ ]
  countr_zero-Agree i a (true ∷ bits) [] e g = elim g [ ]
  countr_zero-Agree i a (true ∷ bits) (some b ∷ ss) e g = elim g [ ]

  pub free-Agree :
      (i : ℕ) (b : A) (mask : List Bool) (ss : List (Option A))
      → slot_of i ss ≡ some b
      → Agree mask ss
      → (i < length ss) × Agree (set mask i true) (set ss i none)
  unfolding slot_of
  free-Agree i b [] [] e g = cc
  free-Agree i b [] (s ∷ ss) e g = elim g [ ]
  free-Agree zero b (true ∷ bits) (none ∷ ss) e g = cc
  free-Agree (suc i) b (true ∷ bits) (none ∷ ss) e g = ground (arith, free-Agree i b bits ss e g)
  free-Agree zero b (false ∷ bits) (some c ∷ ss) e g = (omega arith, g)
  free-Agree (suc i) b (false ∷ bits) (some c ∷ ss) e g = ground (arith, free-Agree i b bits ss e g)
  free-Agree i b (false ∷ bits) [] e g = elim g [ ]
  free-Agree i b (false ∷ bits) (none ∷ ss) e g = elim g [ ]
  free-Agree i b (true ∷ bits) [] e g = elim g [ ]
  free-Agree i b (true ∷ bits) (some c ∷ ss) e g = elim g [ ]

  pub put-Agree :
      (i : ℕ) (b c : A) (mask : List Bool) (ss : List (Option A))
      → slot_of i ss ≡ some b
      → Agree mask ss
      → (i < length ss) × Agree mask (set ss i (some c))
  unfolding slot_of
  put-Agree i b c [] [] e g = cc
  put-Agree i b c [] (s ∷ ss) e g = elim g [ ]
  put-Agree zero b c (true ∷ bits) (none ∷ ss) e g = cc
  put-Agree (suc i) b c (true ∷ bits) (none ∷ ss) e g = ground (arith, put-Agree i b c bits ss e g)
  put-Agree zero b c (false ∷ bits) (some d ∷ ss) e g = (omega arith, g)
  put-Agree (suc i) b c (false ∷ bits) (some d ∷ ss) e g =
      ground (arith, put-Agree i b c bits ss e g)
  put-Agree i b c (false ∷ bits) [] e g = elim g [ ]
  put-Agree i b c (false ∷ bits) (none ∷ ss) e g = elim g [ ]
  put-Agree i b c (true ∷ bits) [] e g = elim g [ ]
  put-Agree i b c (true ∷ bits) (some d ∷ ss) e g = elim g [ ]

  -- The objects of the slots, in order.
  pub objects : List (Option A) → List (Option A)
  objects [] = []
  objects (none ∷ ss) = objects ss
  objects (some a ∷ ss) = some a ∷ objects ss

  -- If the mask agrees with the slots, the destructor of a group destroys exactly the objects of the
  -- slots, each of them once, in order.
  pub destroyed-objects :
      (mask : List Bool) (ss : List (Option A)) → Agree mask ss → destroyed mask ss ≡ objects ss
  unfolding destroyed objects
  destroyed-objects [] [] v = refl
  destroyed-objects (true ∷ bits) (none ∷ ss) v = destroyed-objects bits ss v
  destroyed-objects (false ∷ bits) (some a ∷ ss) v =
      ap (λ l. some a ∷ l) (destroyed-objects bits ss v)
  destroyed-objects [] (s ∷ ss) v = elim v [ ]
  destroyed-objects (true ∷ bits) [] v = elim v [ ]
  destroyed-objects (false ∷ bits) [] v = elim v [ ]
  destroyed-objects (true ∷ bits) (some a ∷ ss) v = elim v [ ]
  destroyed-objects (false ∷ bits) (none ∷ ss) v = elim v [ ]
