-- ===== src/Buffer/References/Tests.antt =====
-- Clients of a 3D buffer, and the result of `Buffer.References.Ownership` on their calls.
use dsoal.Prelude.{◌≡◌, arith, true, List, [], ◌∷◌}
use dsoal.Buffer.References.{ds, ds3d, direct_sound_3d_buffer, interface_of, new_counts}
use dsoal.Buffer.References.Ownership.{
  Call, query, add, release_one, alive, IsOwner, new_held, exchange, exchanges, life_of, run,
  run_refines,
}

-- A 3D interface is asked for, the buffer's own is released, and then the other, which ends it.
abbrev calls : List Call
calls =
    query ds direct_sound_3d_buffer true
    ∷ release_one ds
    ∷ add ds3d
    ∷ release_one ds3d
    ∷ release_one ds3d
    ∷ []

calls-IsOwner : IsOwner 0x10 true calls (new_held 0x10 true)
unfolding exchange interface_of
calls-IsOwner = (λ e. cc, (λ e. cc, (λ e. cc, (λ e. cc, (λ e. cc, tt)))))

run_refines_example :
    run 0x10 true calls (alive new_counts)
    ≡ life_of 0x10 true (exchanges 0x10 true calls (new_held 0x10 true))
run_refines_example = run_refines 0x10 true calls calls-IsOwner (omega arith)
