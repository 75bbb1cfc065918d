-- ===== src/Device/Sharing.antt =====
-- dsoundoal.cpp and dsoundoal.h: the list of open devices, `SharedDevice::GetById`, `AddRef`, `Release`
-- and `dispose`. A device is known by its address; the address and the answer of a device that is
-- opened anew are arguments. `Release` and the `dispose` that it calls are two steps, since only the
-- second one is under the mutex of the list.
use dsoal.Prelude.{
  ℕ, ◌+◌, ◌<◌, ◌≡◌, ◌≢◌, refl, sym, ap, arith, Bool, true, false, Option, none, some, List, [], ◌∷◌,
  ◌==◌, if◌then◌else◌, All, Bool-cases, inl, inr, if_both,
}
use dsoal.Win.{dword_mod, dword_add, dword_sub, Expected, value, unexpected}
use dsoal.Device.{SharedDevice}

pub record Entry : Type 0 where
  pub address : ℕ
  pub id : ℕ
  pub ref : ℕ
  pub device : SharedDevice

-- `GetById`, with what `CreateDeviceShare` answers and the address that a new device gets
unfoldable pub get_by_id : Expected SharedDevice → ℕ → ℕ → List Entry → Expected ℕ × List Entry
get_by_id (unexpected hr) address id [] = (unexpected hr, [])
get_by_id (value d) address id [] =
    (value address, record { address = address; id = id; ref = 1; device = d } ∷ [])
get_by_id made address id (e ∷ es) =
    let r = get_by_id made address id es in
    if e.id == id
    then (value (e.address), record e { ref = dword_add (e.ref) 1 } ∷ es)
    else (r.0, e ∷ r.1)

-- The count of a device, none if it is not open
unfoldable pub ref_at : ℕ → List Entry → Option ℕ
ref_at address [] = none
ref_at address (e ∷ es) = if e.address == address then some (e.ref) else ref_at address es

-- The `fetch_sub` of `Release`
unfoldable pub count_down : ℕ → List Entry → List Entry
count_down address [] = []
count_down address (e ∷ es) =
    let rest = count_down address es in
    if e.address == address then record e { ref = dword_sub (e.ref) 1 } ∷ es else e ∷ rest

-- `dispose`
unfoldable pub dispose : ℕ → List Entry → List Entry
dispose address [] = []
dispose address (e ∷ es) =
    let rest = dispose address es in if e.address == address then es else e ∷ rest

is_one : Option ℕ → Bool
is_one none = false
is_one (some n) = n == 1

-- `Release` with nothing in between: `dispose` if the count was 1
unfoldable pub release : ℕ → List Entry → List Entry
unfolding is_one
release address es =
    let es' = count_down address es in
    if is_one (ref_at address es) then dispose address es' else es'

-- The `Release` of what `GetById` has handed out, if anything
unfoldable pub release_back : Expected ℕ × List Entry → List Entry
release_back (unexpected hr, es) = es
release_back (value address, es) = release address es

-- Every open device is held, but fewer than 2^32 - 1 times, and its address is its own.
unfoldable pub Away : ℕ → List Entry → Type 0
Away address es = All (λ (e : Entry). e.address ≢ address) es

unfoldable pub IsSharing : List Entry → Type 0
IsSharing [] = Unit
IsSharing (e ∷ es) = (0 < e.ref) × (1 + e.ref < dword_mod) × Away (e.address) es × IsSharing es

-- An answer of `GetById` that is not this address
Apart : ℕ → Expected ℕ → Type 0
Apart b (unexpected hr) = Unit
Apart b (value a) = a ≢ b

get_by_id-Apart :
    (made : Expected SharedDevice) (address id b : ℕ) (es : List Entry)
    → address ≢ b
    → Away b es
    → Apart b (get_by_id made address id es).0
unfolding get_by_id Away Apart
get_by_id-Apart (unexpected hr) address id b [] ne w = tt
get_by_id-Apart (value d) address id b [] ne w = ne
get_by_id-Apart made address id b (e ∷ es) ne w =
    if_both (λ (r : Expected ℕ × List Entry). Apart b r.0) (e.id == id) _ _ (w.0)
      (get_by_id-Apart made address id b es ne w.1)

ref_at-Away : (a : ℕ) (es : List Entry) → Away a es → ref_at a es ≡ none
unfolding ref_at Away
ref_at-Away a [] w = refl
ref_at-Away a (e ∷ es) w =
    let other : (e.address == a) ≡ false = ground (arith, w) in rw other (ref_at-Away a es w.1)

-- The three walks at the device itself, and at another one
count_down-other :
    (a : ℕ) (e : Entry) (es : List Entry)
    → e.address ≢ a
    → count_down a (e ∷ es) ≡ e ∷ count_down a es
unfolding count_down
count_down-other a e es ne = ground arith

dispose-other :
    (a : ℕ) (e : Entry) (es : List Entry) → e.address ≢ a → dispose a (e ∷ es) ≡ e ∷ dispose a es
unfolding dispose
dispose-other a e es ne = ground arith

ref_at-other :
    (a : ℕ) (e : Entry) (es : List Entry) → e.address ≢ a → ref_at a (e ∷ es) ≡ ref_at a es
unfolding ref_at
ref_at-other a e es ne = ground arith

count_down-same :
    (a : ℕ) (e : Entry) (es : List Entry)
    → e.address ≡ a
    → count_down a (e ∷ es) ≡ record e { ref = dword_sub (e.ref) 1 } ∷ es
unfolding count_down
count_down-same a e es h = ground arith

dispose-same : (a : ℕ) (e : Entry) (es : List Entry) → e.address ≡ a → dispose a (e ∷ es) ≡ es
unfolding dispose
dispose-same a e es h = ground arith

ref_at-same :
    (a : ℕ) (e : Entry) (es : List Entry) → e.address ≡ a → ref_at a (e ∷ es) ≡ some (e.ref)
unfolding ref_at
ref_at-same a e es h = ground arith

release-skip :
    (a : ℕ) (e : Entry) (es : List Entry) → e.address ≢ a → release a (e ∷ es) ≡ e ∷ release a es
unfolding release
release-skip a e es ne =
    rw
      (
        release,
        ref_at-other a e es ne,
        count_down-other a e es ne,
        dispose-other a e (count_down a es) ne,
      )
      (kept (is_one (ref_at a es)))
  where
    kept :
        (b : Bool)
        → (if b then e ∷ dispose a (count_down a es) else e ∷ count_down a es)
          ≡ e ∷ (if b then dispose a (count_down a es) else count_down a es)
    kept true = refl
    kept false = refl

back-skip :
    (e : Entry) (r : Expected ℕ × List Entry)
    → Apart (e.address) (r.0)
    → release_back (r.0, e ∷ r.1) ≡ e ∷ release_back r
unfolding release_back Apart
back-skip e (unexpected hr, es) ne = refl
back-skip e (value a, es) ne = release-skip a e es (λ h. ne (sym h))

release-held :
    (e : Entry) (es : List Entry)
    → 0 < e.ref
    → 1 + e.ref < dword_mod
    → release (e.address) (record e { ref = dword_add (e.ref) 1 } ∷ es) ≡ e ∷ es
unfolding is_one release
release-held e es h k =
    let e' = record e { ref = dword_add (e.ref) 1 } in
    let more : (dword_add (e.ref) 1 == 1) ≡ false = ground arith in
    let back : dword_sub (dword_add (e.ref) 1) 1 ≡ e.ref = ground arith in
    rw
      (
        release,
        ref_at-same (e.address) e' es refl,
        count_down-same (e.address) e' es refl,
        more,
        back,
      )
      refl

release-opened :
    (address id : ℕ) (d : SharedDevice)
    → release address (record { address = address; id = id; ref = 1; device = d } ∷ []) ≡ []
unfolding is_one release
release-opened address id d =
    let e : Entry = record { address = address; id = id; ref = 1; device = d } in
    rw (release, ref_at-same address e [] refl, count_down-same address e [] refl)
      (dispose-same address (record e { ref = 0 }) [] refl)

-- `GetById`, whether it finds an open device, opens one or fails, and then the `Release` of what it
-- has handed out leave the list of devices as it was.
pub get_by_id-release :
    (made : Expected SharedDevice) (address id : ℕ) (es : List Entry)
    → IsSharing es
    → Away address es
    → release_back (get_by_id made address id es) ≡ es
unfolding get_by_id release_back IsSharing Away
get_by_id-release (unexpected hr) address id [] v w = refl
get_by_id-release (value d) address id [] v w = release-opened address id d
get_by_id-release made address id (e ∷ es) v w = elim (Bool-cases (e.id == id)) [
  | inl found ↦ rw found (release-held e es v.0 v.1)
  | inr other ↦
      rw
        (
          other,
          back-skip e (get_by_id made address id es)
              (get_by_id-Apart made address id (e.address) es (λ x. w.0 (sym x)) v.2),
          get_by_id-release made address id es v.3 w.1,
        )
        refl
]

Apart-ne :
    (a : ℕ) (e : Entry) (made : Expected SharedDevice) (address id : ℕ) (es : List Entry)
    → Away (e.address) es
    → address ≢ a
    → (get_by_id made address id es).0 ≡ value a
    → e.address ≢ a
unfolding Apart
Apart-ne a e made address id es w ne h this =
    (rw h at (get_by_id-Apart made address id a es ne (rw this at w))) refl

dispose-dangles :
    (made : Expected SharedDevice) (address id a : ℕ) (es : List Entry)
    → IsSharing es
    → address ≢ a
    → (get_by_id made address id es).0 ≡ value a
    → let r = get_by_id made address id (count_down a es) in
      (r.0 ≡ value a) × (ref_at a (dispose a r.1) ≡ none)
unfolding get_by_id count_down dispose ref_at IsSharing
dispose-dangles (unexpected hr) address id a [] v ne h = absurd cc
dispose-dangles (value d) address id a [] v ne h = absurd (ne cc)
dispose-dangles made address id a (e ∷ es) v ne h = elim (Bool-cases (e.id == id)) [
  | inl found ↦
      (let h' : Expected.value (e.address) ≡ value a = rw found at h in
        let this : e.address ≡ a = ground arith in
        rw (count_down-same a e es this, found)
          (
            h',
            rw (dispose-same a (record e { ref = dword_add (dword_sub (e.ref) 1) 1 }) es this)
                (ref_at-Away a es (rw this at v.2)),
          ))
  | inr other ↦
      (let rest = dispose-dangles made address id a es v.3 ne (rw other at h) in
        let away : e.address ≢ a = Apart-ne a e made address id es v.2 ne (rw other at h) in
        let r = get_by_id made address id (count_down a es) in
        rw (count_down-other a e es away, other)
          (rest.0, rw (dispose-other a e r.1 away, ref_at-other a e (dispose a r.1) away) (rest.1)))
]

counted_down :
    (a n : ℕ) (es : List Entry)
    → ref_at a es ≡ some n
    → ref_at a (count_down a es) ≡ some (dword_sub n 1)
unfolding ref_at
counted_down a n [] h = cc
counted_down a n (e ∷ es) h = elim (Bool-cases (e.address == a)) [
  | inl this ↦
      (let same : e.address ≡ a = ground arith in
        rw (count_down-same a e es same, this)
          (ap some (ap (λ k. dword_sub k 1) (some_eq (rw this at h)))))
  | inr other ↦
      (let away : e.address ≢ a = ground arith in
        rw (count_down-other a e es away, other) (counted_down a n es (rw other at h)))
]
  where
    some_eq : {x y : ℕ} → Option.some x ≡ some y → x ≡ y
    some_eq h = cc

-- The last `Release` of a device counts down to 0; before it gets the mutex of the list, another thread
-- calls `GetById` for the same device, which is handed out; then `dispose` closes it all the same, so
-- that what was handed out is not open.
pub get_by_id_dangles :
    (made : Expected SharedDevice) (address id a : ℕ) (es : List Entry)
    → IsSharing es
    → address ≢ a
    → ref_at a es ≡ some 1
    → (get_by_id made address id es).0 ≡ value a
    → let es' = count_down a es in
      let r = get_by_id made address id es' in
      (ref_at a es' ≡ some 0) × (r.0 ≡ value a) × (ref_at a (dispose a r.1) ≡ none)
get_by_id_dangles made address id a es v ne one h =
    let w = dispose-dangles made address id a es v ne h in (counted_down a 1 es one, w.0, w.1)
