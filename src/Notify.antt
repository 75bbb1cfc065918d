-- ===== src/Notify.antt =====
-- Position notifications, as buffer.cpp and capture.cpp check and order them.
pub mod Sorted
pub mod Tests
use dsoal.Prelude.{
  ℕ, Bool, true, false, ◌&&◌, ◌||◌, Option, none, some, List, [], ◌∷◌, ltb, leb, ◌==◌,
  if◌then◌else◌, map, keep,
}
use dsoal.Win.{PositionNotify, offset_stop}

-- The test of `find_if_not`: an offset inside the buffer, or the stop marker
unfoldable pub valid_notify : ℕ → PositionNotify → Bool
valid_notify size n = ltb n.offset size || (n.offset == offset_stop)

unfoldable pub all_valid : ℕ → List PositionNotify → Bool
unfolding valid_notify
all_valid size [] = true
all_valid size (n ∷ ns) = valid_notify size n && all_valid size ns

-- `std::ranges::stable_sort` by offset, as an insertion sort: it is stable too.
unfoldable pub insert_notify : PositionNotify → List PositionNotify → List PositionNotify
insert_notify n [] = n ∷ []
insert_notify n (m ∷ ms) = if leb n.offset m.offset then n ∷ m ∷ ms else m ∷ insert_notify n ms

unfoldable pub sort_notifies : List PositionNotify → List PositionNotify
unfolding insert_notify
sort_notifies [] = []
sort_notifies (n ∷ ns) = insert_notify n (sort_notifies ns)

-- The notifications that replace the old ones, if every one is valid
unfoldable pub accept_notifies : ℕ → List PositionNotify → Option (List PositionNotify)
unfolding all_valid sort_notifies
accept_notifies size ns = if all_valid size ns then some (sort_notifies ns) else none

-- The events of the notifications that pass a test, in the order of `SetEvent`
unfoldable pub signalled : (PositionNotify → Bool) → List PositionNotify → List ℕ
signalled hit ns = map (λ n. n.event) (keep hit ns)
