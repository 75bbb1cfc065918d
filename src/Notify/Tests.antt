-- ===== src/Notify/Tests.antt =====
-- The result of `Notify.Sorted` on a list out of order.
use dsoal.Prelude.{ℕ, ◌≡◌, refl, some, [], ◌∷◌}
use dsoal.Win.{PositionNotify, offset_stop}
use dsoal.Notify.{accept_notifies}

abbrev at : ℕ → ℕ → PositionNotify
at n e = record { offset = n; event = e }

accepted :
    accept_notifies 100 (at offset_stop 1 ∷ at 40 2 ∷ at 8 3 ∷ [])
    ≡ some (at 8 3 ∷ at 40 2 ∷ at offset_stop 1 ∷ [])
unfolding accept_notifies
accepted = refl
