-- ===== src/DSound8/Level/Change.antt =====
-- What a change of the cooperative level does to the secondary buffers.
use dsoal.Prelude.{
  ℕ, zero, suc, ◌≡◌, inl, inr, refl, sym, ap, ◌∙◌, Bool, true, false, Option, none, some, List, [],
  ◌∷◌, if_both, Bool-cases,
}
use dsoal.Buffer.{Buffer}
use dsoal.Buffer.Cursor.{SourceView}
use dsoal.Pool.{BufferSubList, slot_of, buffer_at}
use dsoal.Pool.Slots.{Agree}
use dsoal.Pool.Groups.{IsPool}
use dsoal.DSound8.Level.{Walked, plays, set_lost, lose_slots, lose_groups}

module _ {F : Type 0} (answers : ℕ → SourceView) where
  -- What becomes of a buffer, by what is found in its place
  pub data Fate (b : Buffer F) (met : Bool) (now : Option (Buffer F)) : Type 0 where
    spared : met ≡ true → now ≡ some b → Fate b met now
    lost : plays answers b ≡ false → now ≡ some (set_lost b) → Fate b met now

  -- The walk over one group
  record LosesSlots (bits : List Bool) (ss : List (Option (Buffer F)))
      (w : Walked (List (Option (Buffer F)))) : Type 0 where
    agree : Agree bits w.left
    each : (i : ℕ) (b : Buffer F) → slot_of i ss ≡ some b → Fate b w.met (slot_of i w.left)
    found :
        w.met ≡ true → (i : ℕ) × (b : Buffer F) × (slot_of i ss ≡ some b) × (plays answers b ≡ true)

  next_slot :
      (s s' : Option (Buffer F)) (ss ss' : List (Option (Buffer F))) (met : Bool)
      → ((b : Buffer F) → s ≡ some b → Fate b met s')
      → ((i : ℕ) (b : Buffer F) → slot_of i ss ≡ some b → Fate b met (slot_of i ss'))
      → (i : ℕ) (b : Buffer F) → slot_of i (s ∷ ss) ≡ some b
      → Fate b met (slot_of i (s' ∷ ss'))
  unfolding slot_of
  next_slot s s' ss ss' met f v zero b h = f b h
  next_slot s s' ss ss' met f v (suc i) b h = v i b h

  next_group :
      (g g' : BufferSubList (Buffer F)) (gs gs' : List (BufferSubList (Buffer F))) (met : Bool)
      → ((i : ℕ) (b : Buffer F) → slot_of i g.buffers ≡ some b → Fate b met (slot_of i g'.buffers))
      → ((k i : ℕ) (b : Buffer F) → buffer_at k i gs ≡ some b → Fate b met (buffer_at k i gs'))
      → (k i : ℕ) (b : Buffer F) → buffer_at k i (g ∷ gs) ≡ some b
      → Fate b met (buffer_at k i (g' ∷ gs'))
  unfolding buffer_at
  next_group g g' gs gs' met f v zero i b h = f i b h
  next_group g g' gs gs' met f v (suc k) i b h = v k i b h

  -- Where none that plays is met, none is spared.
  not_spared :
      {b : Buffer F} {met met' : Bool} {now : Option (Buffer F)}
      → met ≡ false
      → Fate b met now
      → Fate b met' now
  not_spared e (spared m h) = cc
  not_spared e (lost p h) = lost p h

  same : {b : Buffer F} (c : Buffer F) → some b ≡ some c → c ≡ b
  same c h = cc

  lose_slots-LosesSlots :
      (bits : List Bool) (ss : List (Option (Buffer F)))
      → Agree bits ss
      → LosesSlots bits ss (lose_slots answers bits ss)
  unfolding lose_slots slot_of
  lose_slots-LosesSlots [] [] g = record { agree = tt; each = λ i b e. cc; found = λ e. cc }
  lose_slots-LosesSlots (true ∷ bits) (none ∷ ss) g =
      let v = lose_slots-LosesSlots bits ss g in
      record {
        agree = v.agree;
        each = next_slot none none ss _ _ (λ b e. cc) v.each;
        found = λ m. let (j, b, e, h) = v.found m in (suc j, b, e, h);
      }
  lose_slots-LosesSlots (false ∷ bits) (some b ∷ ss) g = elim (Bool-cases (plays answers b)) [
    | inl e ↦
        rw (e, lose_slots)
          (record { agree = g; each = λ i c h. spared refl h; found = λ _. (0, b, refl, e) })
    | inr e ↦
        (let v = lose_slots-LosesSlots bits ss g in
          rw (e, lose_slots)
            (record {
              agree = v.agree;
              each =
                  next_slot (some b) (some (set_lost b)) ss _ _
                    (λ c h.
                      lost (ap (plays answers) (same c h) ∙ e)
                        (ap (λ x. some (set_lost x)) (sym (same c h))))
                    v.each;
              found = λ m. let (j, c, h, p) = v.found m in (suc j, c, h, p);
            }))
  ]
  lose_slots-LosesSlots [] (s ∷ ss) g = elim g [ ]
  lose_slots-LosesSlots (true ∷ bits) [] g = elim g [ ]
  lose_slots-LosesSlots (false ∷ bits) [] g = elim g [ ]
  lose_slots-LosesSlots (true ∷ bits) (some b ∷ ss) g = elim g [ ]
  lose_slots-LosesSlots (false ∷ bits) (none ∷ ss) g = elim g [ ]

  -- The walk over the groups: the pool stays one; a buffer is spared only if one that plays is met, and
  -- a buffer that is lost did not play; and one that plays is met where it says so.
  pub record LosesGroups (gs : List (BufferSubList (Buffer F)))
      (w : Walked (List (BufferSubList (Buffer F)))) : Type 0 where
    pub pool : IsPool w.left
    pub each :
        (k i : ℕ) (b : Buffer F) → buffer_at k i gs ≡ some b → Fate b w.met (buffer_at k i w.left)
    pub found :
        w.met ≡ true
        → (k i : ℕ) × (b : Buffer F) × (buffer_at k i gs ≡ some b) × (plays answers b ≡ true)

  pub lose_groups-LosesGroups :
      (gs : List (BufferSubList (Buffer F))) → IsPool gs → LosesGroups gs (lose_groups answers gs)
  unfolding lose_groups buffer_at
  lose_groups-LosesGroups [] v = record { pool = tt; each = λ k i b e. cc; found = λ e. cc }
  lose_groups-LosesGroups (g ∷ gs) v =
      let s = lose_slots-LosesSlots g.free_mask g.buffers v.0 in
      let t = lose_groups-LosesGroups gs v.1 in
      let g' = record g { buffers = (lose_slots answers g.free_mask g.buffers).left } in
      elim (Bool-cases (lose_slots answers g.free_mask g.buffers).met) [
        | inl e ↦
            rw (e, lose_groups)
              (record {
                pool = (s.agree, v.1);
                each =
                    next_group g g' gs gs true (λ i b h. rw e at s.each i b h)
                      (λ k i b h. spared refl h);
                found = λ _. let (i, b, h, p) = s.found e in (0, i, b, h, p);
              })
        | inr e ↦
            rw (e, lose_groups)
              (record {
                pool = (s.agree, t.pool);
                each = next_group g g' gs _ _ (λ i b h. not_spared e (s.each i b h)) t.each;
                found = λ m. let (k, i, b, h, p) = t.found m in (suc k, i, b, h, p);
              })
      ]

  -- One that plays is met if there is one.
  pub plays-met :
      (gs : List (BufferSubList (Buffer F))) (k i : ℕ) (b : Buffer F)
      → IsPool gs
      → buffer_at k i gs ≡ some b
      → plays answers b ≡ true
      → (lose_groups answers gs).met ≡ true
  plays-met gs k i b v e h = elim ((lose_groups-LosesGroups gs v).each k i b e) [
    | spared m now ↦ m
    | lost p now ↦ cc
  ]

  -- The first buffer, if it does not play, is lost whatever is met behind it.
  pub first_lost :
      (b : Buffer F) (bits : List Bool) (ss : List (Option (Buffer F)))
      (gs : List (BufferSubList (Buffer F)))
      → plays answers b ≡ false
      → buffer_at 0 0
          (lose_groups answers
            (record { free_mask = false ∷ bits; buffers = some b ∷ ss } ∷ gs)).left
        ≡ some (set_lost b)
  unfolding lose_groups lose_slots buffer_at slot_of
  first_lost b bits ss gs h =
      rw (h, lose_groups)
        (if_both
          (λ (w : Walked (List (BufferSubList (Buffer F)))).
            buffer_at 0 0 w.left ≡ some (set_lost b))
          (lose_slots answers bits ss).met _ _ refl refl)
