-- ===== src/Pool/Tests.antt =====
-- A group of two slots, one of them in use, and the results of the modules below `Pool` on it.
use dsoal.Prelude.{ℕ, ◌≡◌, true, false, some, none, Option, List, [], ◌∷◌}
use dsoal.Pool.{BufferSubList, create_secondary_buffer}
use dsoal.Pool.{create_and_dispose}
use dsoal.Pool.Undone.{undone, create-dispose}

abbrev two_slots : List (Option ℕ)
two_slots = some 7 ∷ none ∷ []

abbrev half_full : List (BufferSubList ℕ)
half_full = record { free_mask = false ∷ true ∷ []; buffers = two_slots } ∷ []

create-dispose_example :
    undone (create_secondary_buffer true 8 half_full) ≡ create_and_dispose true half_full
create-dispose_example = create-dispose true 8 half_full (tt, tt)
