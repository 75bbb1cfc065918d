-- ===== src/DSound8/Tests.antt =====
-- A sound object with one playing buffer, which awaits notifications or does not, and the results of
-- `DSound8.Pending` on it.
use dsoal.Prelude.{ℕ, ◌≡◌, refl, true, false, some, none, [], ◌∷◌}
use dsoal.Primary.{construct}
use dsoal.Pool.{buffer_at, slot_of}
use dsoal.Buffer.Cursor.{SourceView}
use dsoal.Buffer.Location.{destroy}
use dsoal.Buffer.Tests.{naturals, device, playing}
use dsoal.DSound8.{Pointer, DSound8, contains, deref, trigger_all, dispose}
use dsoal.DSound8.Pending.{IsSound, dispose_dangles}

abbrev first : Pointer
first = record { group = 0; slot = 0 }

abbrev resting : DSound8 ℕ
resting = record {
  shared = device;
  secondary_buffers = record { free_mask = false ∷ []; buffers = some playing ∷ [] } ∷ [];
  buffers_3d = [];
  notify_buffers = [];
  primary_buffer = construct naturals;
  prio_level = 0;
  is_8 = true;
}

abbrev awaiting : DSound8 ℕ
awaiting = record resting { notify_buffers = first ∷ [] }

found : deref first resting.secondary_buffers ≡ some playing
unfolding buffer_at slot_of
found = refl

awaiting-IsSound : IsSound awaiting
awaiting-IsSound = record { pool = (tt, tt); live = ((playing, found), tt) }

resting-IsSound : IsSound resting
resting-IsSound = record { pool = (tt, tt); live = tt }

dispose_dangles_example :
    (s' : DSound8 ℕ) × (dispose naturals first awaiting
      ≡ some (s', (destroy naturals playing device).1))
    × (contains first s'.notify_buffers ≡ true)
    × (deref first s'.secondary_buffers ≡ none)
    × ((view : Pointer → SourceView) → trigger_all view s' ≡ none)
unfolding contains
dispose_dangles_example =
    dispose_dangles naturals first awaiting playing awaiting-IsSound found refl
