-- ===== src/Primary/References/Sums.antt =====
-- The total count of the primary buffer is the sum of the others, whatever clients do.
use dsoal.Prelude.{
  ℕ, ◌+◌, ◌%◌, ◌<◌, ◌≡◌, refl, if_both, arith, Bool, List, [], ◌∷◌, Option-cases, inl, inr, false,
  true, ◌==◌,
}
use dsoal.Win.{dword_mod}
use dsoal.Primary.{PrimaryBuffer}
use dsoal.Primary.References.{
  Interface, ds, listener, prop, Iid, add_ref, release, interface_of, query_interface,
}

-- A call on one of the interfaces
pub data Call : Type 0 where
  query : Iid → Bool → Call
  add release_one : Interface → Call

module _ {F : Type 0} where
  unfoldable pub perform : Call → PrimaryBuffer F → PrimaryBuffer F
  perform (query iid place) p = (query_interface iid place p).2
  perform (add i) p = (add_ref i p).1
  perform (release_one i) p = (release i p).1

  pub run : List Call → PrimaryBuffer F → PrimaryBuffer F
  run [] p = p
  run (call ∷ calls) p = run calls (perform call p)

  -- The counts are `ULONG`s, and agree.
  pub record IsSummed (p : PrimaryBuffer F) : Type 0 where
    pub total : p.total_ref ≡ (p.ds_ref + p.ds3d_ref + p.prop_ref) % dword_mod
    pub ds_word : p.ds_ref < dword_mod
    pub ds3d_word : p.ds3d_ref < dword_mod
    pub prop_word : p.prop_ref < dword_mod

  add_ref-IsSummed : (i : Interface) (p : PrimaryBuffer F) → IsSummed p → IsSummed (add_ref i p).1
  unfolding add_ref
  add_ref-IsSummed ds p v = ground arith
  add_ref-IsSummed listener p v = ground arith
  add_ref-IsSummed prop p v = ground arith

  release-IsSummed : (i : Interface) (p : PrimaryBuffer F) → IsSummed p → IsSummed (release i p).1
  unfolding release
  release-IsSummed ds p v = ground arith
  release-IsSummed listener p v = ground arith
  release-IsSummed prop p v = ground arith

  query-IsSummed :
      (iid : Iid) (place : Bool) (p : PrimaryBuffer F)
      → IsSummed p
      → IsSummed (query_interface iid place p).2
  unfolding query_interface
  query-IsSummed iid false p v = v
  query-IsSummed iid true p v = elim (Option-cases (interface_of iid)) [
    | inl e ↦ rw (e, query_interface) v
    | inr (i, e) ↦ rw (e, query_interface) (add_ref-IsSummed i p v)
  ]

  -- Whatever sequence of `QueryInterface`, `AddRef` and `Release` clients call on the primary buffer's
  -- interfaces, balanced or not: the total count stays the sum of the three others in 32 bits.
  pub run-IsSummed : (calls : List Call) (p : PrimaryBuffer F) → IsSummed p → IsSummed (run calls p)
  unfolding run perform
  run-IsSummed [] p v = v
  run-IsSummed (query iid place ∷ calls) p v = run-IsSummed calls _ (query-IsSummed iid place p v)
  run-IsSummed (add i ∷ calls) p v = run-IsSummed calls _ (add_ref-IsSummed i p v)
  run-IsSummed (release_one i ∷ calls) p v = run-IsSummed calls _ (release-IsSummed i p v)

  -- The counts are apart from the emulation and the format.
  pub record Counting (p p' : PrimaryBuffer F) : Type 0 where
    pub same_emu : p'.write_emu ≡ p.write_emu
    pub same_format : p'.format ≡ p.format

  pub add_ref-Counting : (i : Interface) (p : PrimaryBuffer F) → Counting p (add_ref i p).1
  unfolding add_ref
  add_ref-Counting ds p = record { same_emu = refl; same_format = refl }
  add_ref-Counting listener p = record { same_emu = refl; same_format = refl }
  add_ref-Counting prop p = record { same_emu = refl; same_format = refl }

  pub release-Counting : (i : Interface) (p : PrimaryBuffer F) → Counting p (release i p).1
  unfolding release
  release-Counting ds p =
      if_both (λ (r : ℕ × PrimaryBuffer F). Counting p r.1) (p.ds_ref == 0) _ _
        (record { same_emu = refl; same_format = refl })
        (record { same_emu = refl; same_format = refl })
  release-Counting listener p = record { same_emu = refl; same_format = refl }
  release-Counting prop p = record { same_emu = refl; same_format = refl }
