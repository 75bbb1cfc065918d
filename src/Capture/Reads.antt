-- ===== src/Capture/Reads.antt =====
-- What one round of the capture thread does: it ends, reads inside the storage, and advances the
-- position by what it read.
use native.Mathlib.Nat.{
  add-mul, mod-eq_of_lt, mod-eq-sub-mod, mul-div_cancel, mul-le-mul_right, eq_of_mul-eq-mul_right,
}
use native.Mathlib.Decide.{dec_lt}
use dsoal.Prelude.{
  ℕ, zero, suc, ◌+◌, ◌-◌, ◌*◌, ◌/◌, ◌%◌, min, ◌≤◌, ◌<◌, ◌≡◌, ◌≢◌, inl, inr, refl, sym, ap, arith,
  Bool, true, false, Option, some, List, [], ◌∷◌, All, ◌==◌, if◌then◌else◌, Bool-cases, if_cases,
}
use dsoal.Win.{dword_add, dword_mod}
use dsoal.Capture.{Read, next_pos, read_frames}

-- A read writes inside the storage.
abbrev pub Inside : ℕ → ℕ → Read → Type 0
Inside size align r = r.offset + r.frames * align ≤ size

-- The frames of the reads together.
abbrev pub total : List Read → ℕ
total [] = 0
total (r ∷ rs) = r.frames + total rs

room : (m p a : ℕ) → 0 < a → p ≤ m → (m * a - p * a) / a ≡ m - p
room m p a h le =
    let e : m * a - p * a ≡ (m - p) * a =
      let back : (m - p) + p ≡ m = omega arith in
      omega (arith, add-mul (m - p) p a, ap (λ x. x * a) back) in
    rw e (mul-div_cancel (m - p) h)

scaled_test : (x m a : ℕ) → 0 < a → (x * a == m * a) ≡ (x == m)
scaled_test x m a h = elim (Bool-cases (x == m)) [
  | inl same ↦
      let eq : x ≡ m = ground arith in
      let scaled : x * a ≡ m * a = ap (λ y. y * a) eq in ground arith
  | inr other ↦
      let apart : x * a ≢ m * a =
        λ eq. let back : x ≡ m = eq_of_mul-eq-mul_right a h x m eq in ground arith in
      ground arith
]

scaled_if : (b : Bool) (x a : ℕ) → (if b then 0 else x * a) ≡ (if b then 0 else x) * a
scaled_if true x a = omega arith
scaled_if false x a = refl

next_frame :
    (m p t a : ℕ)
    → 0 < a
    → p + t ≤ m
    → m * a < dword_mod
    → next_pos (m * a) (dword_add (p * a) (t * a)) ≡ (if p + t == m then 0 else p + t) * a
unfolding next_pos
next_frame m p t a h le small =
    let e : dword_add (p * a) (t * a) ≡ (p + t) * a = omega (
      arith,
      add-mul p t a,
      mul-le-mul_right a le,
      mod-eq_of_lt {n = p * a + t * a} {m = dword_mod}
          (omega (arith, add-mul p t a, mul-le-mul_right a le)),
    ) in
    rw e (rw (scaled_test (p + t) m a h) (scaled_if (p + t == m) (p + t) a))

-- What a loop from frame `p` of `m` does with `k` frames.
pub record Loops (m a k p : ℕ) (r : Option (ℕ × List Read)) : Type 0 where
  pub reads : List Read
  pub done : r ≡ some ((p + k) % m * a, reads)
  pub inside : All (Inside (m * a) a) reads
  pub all_read : total reads ≡ k

-- The frame behind a read of `t` frames, and what is left.
next_mod :
    (m p t k : ℕ)
    → p < m
    → t ≡ min k (m - p)
    → ((if p + t == m then 0 else p + t) < m)
      × (((if p + t == m then 0 else p + t) + (k - t)) % m ≡ (p + k) % m)
next_mod m p t k h e = elim (dec_lt (p + k) m) [
  | yes low ↦ let all : t ≡ k = ground arith in (ground arith, ground arith)
  | no high ↦
      let rest : t ≡ m - p = ground arith in
      (ground arith, ground (arith, mod-eq-sub-mod {n = p + k} {m = m} (omega arith)))
]

pub loop-Loops :
    (fuel m a k p : ℕ)
    → 0 < a
    → p < m
    → m * a < dword_mod
    → k < fuel
    → Loops m a k p (read_frames fuel (m * a) a k (p * a))
unfolding read_frames
loop-Loops zero m a k p ha hp hs hf = elim hf [ ]
loop-Loops (suc fuel) m a k p ha hp hs hf =
    let t : ℕ = min k ((m * a - p * a) / a) in
    let et : t ≡ min k (m - p) = ap (λ n. min k n) (room m p a ha (omega arith)) in
    let q : ℕ = if p + t == m then 0 else p + t in
    let (hq, same_mod) = next_mod m p t k hp et in
    let fits : p + t ≤ m = omega (arith, et) in
    let step = next_frame m p t a ha fits hs in
    if_cases (Loops m a k p) (k == 0) _ _
      (λ z.
        let none_left : k ≡ 0 = ground arith in
        record {
          reads = [];
          done =
              ap (λ n. some (n * a, []))
                (omega (arith, none_left, mod-eq_of_lt {n = p + k} {m = m} (omega arith)));
          inside = tt;
          all_read = sym none_left;
        })
      (λ some_left.
        let v = loop-Loops fuel m a (k - t) q ha hq hs (ground arith) in
        record {
          reads = record { offset = p * a; frames = t } ∷ v.reads;
          done = rw step (
              rw (v.done)
                (ap (λ n. some (n * a, record { offset = p * a; frames = t } ∷ v.reads)) same_mod));
          inside = (omega (arith, add-mul p t a, mul-le-mul_right a fits), v.inside);
          all_read = omega (arith, v.all_read, et);
        })
