-- ===== src/Buffer/References/Ownership.antt =====
-- The counts stand for the interface pointers that clients hold: a buffer lives as long as one is held.
use dsoal.Prelude.{
  ℕ, ◌+◌, ◌-◌, ◌≤◌, ◌<◌, ◌≡◌, ◌≢◌, refl, arith, Bool, true, false, Option, none, some, List, [],
  ◌∷◌, length, ◌==◌, if◌then◌else◌, Option-cases, inl, inr,
}
use dsoal.Win.{dword_mod}
use dsoal.Buffer.References.{
  Interface, ds, ds3d, prop, notify, unk, Iid, Counts, new_counts, add_ref, release, interface_of,
  query_interface,
}

-- A call on one of the interfaces
pub data Call : Type 0 where
  query : Interface → Iid → Bool → Call
  add release_one : Interface → Call

-- A buffer that is there, one that is disposed of, and a call on the latter
pub data Life : Type 0 where
  alive : Counts → Life
  disposed fault : Life

after : Option Counts → Life
after none = disposed
after (some c) = alive c

module _ (flags : ℕ) (is_8 : Bool) where
  -- The buffer under one call, and under calls one after the other
  unfoldable pub perform : Call → Counts → Life
  unfolding after
  perform (query i iid place) c = alive (query_interface flags is_8 iid place c).2
  perform (add i) c = alive (add_ref i c).1
  perform (release_one i) c = after (release i c).1

  pub run : List Call → Life → Life
  run [] l = l
  run (call ∷ calls) (alive c) = run calls (perform call c)
  run (call ∷ calls) disposed = fault
  run (call ∷ calls) fault = fault

  -- The pointers that clients hold, by interface
  pub record Held : Type 0 where
    pub held_ds : ℕ
    pub held_ds3d : ℕ
    pub held_prop : ℕ
    pub held_notify : ℕ
    pub held_unk : ℕ

  abbrev pub new_held : Held
  new_held = record { held_ds = 1; held_ds3d = 0; held_prop = 0; held_notify = 0; held_unk = 0 }

  abbrev pub held_at : Interface → Held → ℕ
  held_at ds h = h.held_ds
  held_at ds3d h = h.held_ds3d
  held_at prop h = h.held_prop
  held_at notify h = h.held_notify
  held_at unk h = h.held_unk

  abbrev pub held_total : Held → ℕ
  held_total h = h.held_ds + h.held_ds3d + h.held_prop + h.held_notify + h.held_unk

  -- One pointer more, and one less
  abbrev pub gain : Interface → Held → Held
  gain ds h = record h { held_ds = h.held_ds + 1 }
  gain ds3d h = record h { held_ds3d = h.held_ds3d + 1 }
  gain prop h = record h { held_prop = h.held_prop + 1 }
  gain notify h = record h { held_notify = h.held_notify + 1 }
  gain unk h = record h { held_unk = h.held_unk + 1 }

  abbrev pub lose : Interface → Held → Held
  lose ds h = record h { held_ds = h.held_ds - 1 }
  lose ds3d h = record h { held_ds3d = h.held_ds3d - 1 }
  lose prop h = record h { held_prop = h.held_prop - 1 }
  lose notify h = record h { held_notify = h.held_notify - 1 }
  lose unk h = record h { held_unk = h.held_unk - 1 }

  abbrev pub handed : Option Interface → Held → Held
  handed none h = h
  handed (some i) h = gain i h

  -- What a call does to the pointers that are held
  unfoldable pub exchange : Call → Held → Held
  exchange (query i iid place) h = handed (if place then interface_of flags is_8 iid else none) h
  exchange (add i) h = gain i h
  exchange (release_one i) h = lose i h

  pub exchanges : List Call → Held → Held
  exchanges [] h = h
  exchanges (call ∷ calls) h = exchanges calls (exchange call h)

  -- The interface that a call is made on
  abbrev pub target : Call → Interface
  target (query i iid place) = i
  target (add i) = i
  target (release_one i) = i

  -- Every call is made on a pointer that is held.
  abbrev pub IsOwner : List Call → Held → Type 0
  IsOwner [] h = Unit
  IsOwner (call ∷ calls) h = (held_at (target call) h ≢ 0) × IsOwner calls (exchange call h)

  -- The buffer that the held pointers keep
  pub counts_of : Held → Counts
  counts_of h = record {
    total_ref = held_total h;
    ds_ref = h.held_ds;
    ds3d_ref = h.held_ds3d;
    prop_ref = h.held_prop;
    not_ref = h.held_notify;
    unk_ref = h.held_unk;
  }

  pub life_of : Held → Life
  unfolding counts_of
  life_of h = if held_total h == 0 then disposed else alive (counts_of h)

  held-total : (i : Interface) (h : Held) → held_at i h ≢ 0 → (held_total h == 0) ≡ false
  held-total ds h ne = ground arith
  held-total ds3d h ne = ground arith
  held-total prop h ne = ground arith
  held-total notify h ne = ground arith
  held-total unk h ne = ground arith

  add_ref-gain :
      (i : Interface) (h : Held)
      → held_total h + 1 < dword_mod
      → (alive (add_ref i (counts_of h)).1 ≡ life_of (gain i h))
        × (held_total (gain i h) ≡ held_total h + 1)
  unfolding add_ref life_of counts_of
  add_ref-gain ds h b = ground arith
  add_ref-gain ds3d h b = ground arith
  add_ref-gain prop h b = ground arith
  add_ref-gain notify h b = ground arith
  add_ref-gain unk h b = ground arith

  release-lose :
      (i : Interface) (h : Held)
      → held_at i h ≢ 0
      → held_total h < dword_mod
      → (after (release i (counts_of h)).1 ≡ life_of (lose i h))
        × (held_total (lose i h) < held_total h)
  unfolding release life_of counts_of after
  release-lose ds h ne b = ground arith
  release-lose ds3d h ne b = ground arith
  release-lose prop h ne b = ground arith
  release-lose notify h ne b = ground arith
  release-lose unk h ne b = ground arith

  -- One call leaves what the pointers that are held after it keep.
  record Follows (call : Call) (h : Held) : Type 0 where
    same : perform call (counts_of h) ≡ life_of (exchange call h)
    few : held_total (exchange call h) ≤ held_total h + 1

  alive-life_of : (h : Held) → (held_total h == 0) ≡ false → alive (counts_of h) ≡ life_of h
  unfolding life_of
  alive-life_of h e = rw e refl

  query-Follows :
      (i : Interface) (iid : Iid) (place : Bool) (h : Held)
      → held_at i h ≢ 0
      → held_total h + 1 < dword_mod
      → Follows (query i iid place) h
  unfolding exchange perform query_interface
  query-Follows i iid false h ne b = record {
    same = alive-life_of h (held-total i h ne);
    few = omega arith;
  }
  query-Follows i iid true h ne b = elim (Option-cases (interface_of flags is_8 iid)) [
    | inl e ↦ record {
      same = rw (e, query_interface) (alive-life_of h (held-total i h ne));
      few = rw e (omega arith);
    }
    | inr (j, e) ↦
        (let (same, total) = add_ref-gain j h b in
          record { same = rw (e, query_interface) same; few = rw e (omega (arith, total)) })
  ]

  perform-Follows :
      (call : Call) (h : Held)
      → held_at (target call) h ≢ 0
      → held_total h + 1 < dword_mod
      → Follows call h
  unfolding exchange perform
  perform-Follows (query i iid place) h ne b = query-Follows i iid place h ne b
  perform-Follows (add i) h ne b =
      let (same, total) = add_ref-gain i h b in record { same = same; few = omega (arith, total) }
  perform-Follows (release_one i) h ne b =
      let (same, total) = release-lose i h ne (omega arith) in
      record { same = same; few = omega (arith, total) }

  run-life_of :
      (calls : List Call) (h : Held)
      → IsOwner calls h
      → held_total h + length calls < dword_mod
      → run calls (life_of h) ≡ life_of (exchanges calls h)
  unfolding run exchanges
  run-life_of [] h o b = refl
  run-life_of (call ∷ calls) h o b =
      let v = perform-Follows call h o.0 (omega arith) in
      rw (← alive-life_of h (held-total (target call) h o.0), v.same)
        (run-life_of calls (exchange call h) o.1 (omega (arith, v.few)))

  -- A new buffer whose clients call only on interface pointers that they hold, fewer than 2^32 times:
  -- after any such sequence of `QueryInterface`, `AddRef` and `Release` on any of the five interfaces it
  -- is disposed of if no pointer is held any more, and otherwise it is there, each count is the number
  -- of pointers held to that interface, and the total is their sum. No call is made on a buffer that is
  -- disposed of.
  pub run_refines :
      (calls : List Call)
      → IsOwner calls new_held
      → 1 + length calls < dword_mod
      → run calls (alive new_counts) ≡ life_of (exchanges calls new_held)
  unfolding life_of counts_of
  run_refines calls o b = run-life_of calls new_held o b
