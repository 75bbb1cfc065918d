-- ===== src/Capture/Locking/Window.antt =====
-- What a lock of a capture buffer hands out, and where its positions lie.
use native.Mathlib.Nat.{mod-lt, mul-lt-mul_of_pos_right}
use dsoal.Prelude.{
  ℕ, ◌+◌, ◌*◌, ◌/◌, ◌%◌, ◌≤◌, ◌<◌, ◌≡◌, ◌⊎◌, sym, ap, ◌∙◌, arith, true, false, none, some, refl,
  if◌then◌else◌,
}
use dsoal.Win.{ds_ok, dword_mod, dword_add, has}
use dsoal.Buffer.Cursor.{Locked, OutPointers, saturate_dword}
use dsoal.Capture.{Capture}
use dsoal.Capture.Ring.{IsRing}
use dsoal.Capture.Locking.{lock, unlock, window, get_current_position, capture_entirebuffer}

-- A granted lock of a capture buffer: two ranges inside the storage that do not overlap.
pub record IsGranted (out : OutPointers) (cursor bytes flags : ℕ) (c : Capture) (l : Locked)
    (c' : Capture) : Type 0 where
  pub start : ℕ
  pub at_cursor : start ≡ cursor
  pub all_asked :
      out.audio_ptr2 ≡ true
      → out.audio_bytes2 ≡ true
      → l.bytes1 + l.bytes2 ≡ (if has flags capture_entirebuffer then c.size else bytes)
  pub ptr1_in : l.ptr1 ≡ some start
  pub first_in : start + l.bytes1 ≤ c.size
  pub second_in : l.bytes2 ≤ start
  pub second : ((l.ptr2 ≡ none) × (l.bytes2 ≡ 0)) ⊎ (l.ptr2 ≡ some 0)
  pub was_free : c.locked ≡ false
  pub after : c' ≡ record c { locked = true }

pub lock-IsGranted :
    (out : OutPointers) (cursor bytes flags : ℕ) (c : Capture) {l : Locked} {c' : Capture}
    → c.size < dword_mod
    → lock out cursor bytes flags c ≡ (ds_ok, l, c')
    → IsGranted out cursor bytes flags c l c'
unfolding lock window
lock-IsGranted out cursor bytes flags c {l} {c'} hs h = record {
  start = cursor;
  at_cursor = refl;
  all_asked = λ p q. ground arith;
  ptr1_in = ground arith;
  first_in = ground arith;
  second_in = ground arith;
  second = ground arith;
  was_free = ground arith;
  after = ground arith;
}

unlock_granted :
    (out : OutPointers) (cursor bytes flags : ℕ) (c : Capture) (l : Locked) (c' : Capture)
    (v : IsGranted out cursor bytes flags c l c')
    → unlock v.start l.bytes1 l.ptr2 l.bytes2 (record c { locked = true })
      ≡ (ds_ok, record c { locked = false })
unfolding unlock
unlock_granted out cursor bytes flags c l c' v = ground (arith, v)

-- What a granted lock of a capture buffer handed out starts at the asked cursor and lies inside the
-- storage, in ranges that do not overlap, and that add up to what was asked for (the whole storage with
-- DSCBLOCK_ENTIREBUFFER) if both second pointers were given; and `Unlock` accepts it and leaves the
-- capture buffer as it was before. The size of the storage is a `DWORD`.
pub capture_lock-unlock :
    (out : OutPointers) (cursor bytes flags : ℕ) (c : Capture) {l : Locked} {c' : Capture}
    → c.size < dword_mod
    → lock out cursor bytes flags c ≡ (ds_ok, l, c')
    → (v : IsGranted out cursor bytes flags c l c') × (unlock v.start l.bytes1 l.ptr2 l.bytes2 c'
        ≡ (ds_ok, c))
capture_lock-unlock out cursor bytes flags c {l} {c'} hs h =
    let v = lock-IsGranted out cursor bytes flags c hs h in
    let restored : record c { locked = false } ≡ c = λ i. record c { locked = sym v.was_free i } in
    (
      v,
      rw (v.after) (unlock_granted out cursor bytes flags c l c' v ∙ ap (λ b. (ds_ok, b)) restored),
    )

-- Both positions of a capture buffer lie inside its storage, if that is a ring of whole frames.
pub capture_position_bounds :
    (c : Capture)
    → IsRing c
    → ((get_current_position c).0 < c.size) × ((get_current_position c).1 < c.size)
unfolding get_current_position
capture_position_bounds c v =
    let inside = mul-lt-mul_of_pos_right v.at_in v.align_pos in
    let same : saturate_dword c.size ≡ c.size = omega (arith, v.small) in
    let some_size : 0 < c.size = omega (arith, v.pos_at, v.size_frames) in
    let wrapped =
      mod-lt (dword_add c.write_pos ((c.samples_per_sec / 100 * c.block_align) % dword_mod))
        some_size in
    ground (arith, v.pos_at, v.size_frames)
