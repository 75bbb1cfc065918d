-- ===== src/Buffer/Cursor/Window.antt =====
-- What the cursors and the locked window promise.
use dsoal.Prelude.{
  sub-mod-mod, ℕ, ◌+◌, ◌-◌, ◌%◌, ◌≤◌, ◌<◌, ◌≡◌, ◌≢◌, refl, arith, true, false, none, some, ◌*◌, ◌/◌,
  ◌⊎◌, sym, ap, ◌∙◌, if◌then◌else◌, [], ◌∷◌,
}
use dsoal.Win.{
  has, lock_entirebuffer, lock_fromwritecursor, size_min, dword_add, ds_ok, invalid_param,
  dword_mod, size_max,
}
use dsoal.Al
use dsoal.Al.{source_i}
use dsoal.SharedBuffer.Created.{IsWhole}
use dsoal.Buffer.{Buffer}
use dsoal.Buffer.Cursor.{
  SourceView, OutPointers, nothing_locked, Locked, window, lock_at, lock, unlock,
  get_current_position, set_current_position, stopped_pos, wrap_cursor, view, saturate_dword,
}
use native.Mathlib.Nat.{mod-lt, mod-eq_of_lt}

wrap_cursor-lt : (size pos : ℕ) → size_min ≤ size → size ≤ size_max → wrap_cursor size pos < size
unfolding wrap_cursor
wrap_cursor-lt size pos hlow hhigh =
    let e : saturate_dword size ≡ size = omega arith in rw e (mod-lt pos (omega arith))

-- A granted lock.
pub record IsWindow (size bytes : ℕ) (out : OutPointers) (l : Locked) : Type 0 where
  pub start : ℕ
  pub ptr1_in : l.ptr1 ≡ some start
  pub start_in : start < size
  pub first_in : start + l.bytes1 ≤ size
  pub second_in : l.bytes2 ≤ start
  pub second : ((l.ptr2 ≡ none) × (l.bytes2 ≡ 0)) ⊎ (l.ptr2 ≡ some 0)
  pub total : out.audio_ptr2 ≡ true → out.audio_bytes2 ≡ true → l.bytes1 + l.bytes2 ≡ bytes

window-IsWindow :
    (size offset bytes : ℕ) (out : OutPointers)
    → offset < size
    → bytes ≤ size
    → IsWindow size bytes out (window size offset bytes out)
unfolding window
window-IsWindow size offset bytes out ho hb = record {
  start = offset;
  ptr1_in = refl;
  start_in = ho;
  first_in = ground arith;
  second_in = ground arith;
  second = ground arith;
  total = ground arith;
}

wrap_cursor_inside : (size pos : ℕ) → size ≤ size_max → pos < size → wrap_cursor size pos ≡ pos
unfolding wrap_cursor
wrap_cursor_inside size pos h lt =
    let e : saturate_dword size ≡ size = omega arith in rw e (mod-eq_of_lt lt)

module _ {F : Type 0} where
  -- Both cursors lie inside the buffer, whatever OpenAL answers.
  pub get_current_position_bounds :
      (refresh : ℕ) (answer : SourceView) (b : Buffer F)
      → IsWhole b.shared
      → ((get_current_position refresh answer b).0 < b.shared.size)
        × ((get_current_position refresh answer b).1 < b.shared.size)
  unfolding get_current_position
  get_current_position_bounds refresh answer b w =
      let size = b.shared.size in
      ground (
        arith,
        wrap_cursor-lt size (view b answer).offset,
        wrap_cursor-lt size ((view b answer).offset % dword_mod),
        wrap_cursor-lt size (stopped_pos b (view b answer)),
        wrap_cursor-lt size (
            dword_add
              ((b.shared.wfx_format.format.samples_per_sec / refresh
                  * b.shared.wfx_format.format.block_align)
                % dword_mod)
              ((view b answer).offset % dword_mod)),
      )

  lock_at-IsWindow :
      (out : OutPointers) (b : Buffer F) (offset bytes : ℕ) {l : Locked} {b' : Buffer F}
      → offset < b.shared.size
      → bytes ≤ b.shared.size
      → lock_at out b offset bytes ≡ (ds_ok, l, b')
      → (b.locked ≡ false)
        × (b' ≡ record b { locked = true })
        × (l ≡ window b.shared.size offset bytes out)
  unfolding lock_at
  lock_at-IsWindow out b offset bytes ho hb h = ground arith

  lock-lock_at :
      (refresh : ℕ) (answer : SourceView) (out : OutPointers) (offset bytes flags : ℕ)
      (b : Buffer F) {l : Locked} {b' : Buffer F}
      → IsWhole b.shared
      → lock refresh answer out offset bytes flags b ≡ (ds_ok, l, b')
      → let offset' =
          if has flags lock_fromwritecursor
          then (get_current_position refresh answer b).1
          else offset in
        let bytes' = if has flags lock_entirebuffer then b.shared.size else bytes in
        (offset' < b.shared.size)
        × (bytes' ≤ b.shared.size)
        × (lock_at out b offset' bytes' ≡ (ds_ok, l, b'))
  unfolding lock
  lock-lock_at refresh answer out offset bytes flags b w h =
      ground (arith, get_current_position_bounds refresh answer b w)

  -- A granted lock is of an unlocked buffer and leaves it locked; its two ranges lie inside the
  -- buffer, do not overlap, and make up the requested bytes (all of the buffer for
  -- DSBLOCK_ENTIREBUFFER), if the pointers for the second range are given.
  pub lock-IsWindow :
      (refresh : ℕ) (answer : SourceView) (out : OutPointers) (offset bytes flags : ℕ)
      (b : Buffer F) {l : Locked} {b' : Buffer F}
      → IsWhole b.shared
      → lock refresh answer out offset bytes flags b ≡ (ds_ok, l, b')
      → IsWindow b.shared.size (if has flags lock_entirebuffer then b.shared.size else bytes) out l
        × (b.locked ≡ false)
        × (b' ≡ record b { locked = true })
  unfolding lock
  lock-IsWindow refresh answer out offset bytes flags b {l} {b'} w h =
      let (inside, fits, granted) = lock-lock_at refresh answer out offset bytes flags b w h in
      let (free, after, is_window) = lock_at-IsWindow out b _ _ inside fits granted in
      (rw is_window (window-IsWindow b.shared.size _ _ out inside fits), free, after)

  unlock_window :
      (b : Buffer F) (bytes ofs1 : ℕ) (out : OutPointers) (l : Locked)
      → IsWindow b.shared.size bytes out l
      → l.ptr1 ≡ some ofs1
      → unlock ofs1 l.bytes1 l.ptr2 l.bytes2 (record b { locked = true })
        ≡ (ds_ok, record b { locked = false })
  unfolding unlock
  unlock_window b bytes ofs1 out l w e = ground (arith, w)

  locked_refuses :
      (refresh : ℕ) (answer : SourceView) (out : OutPointers) (offset bytes flags : ℕ)
      (b : Buffer F)
      → b.locked ≡ true
      → lock refresh answer out offset bytes flags b ≡ (invalid_param, nothing_locked, b)
  unfolding lock lock_at
  locked_refuses refresh answer out offset bytes flags b h = ground arith

  -- What a granted lock handed out is accepted by `Unlock`, which leaves the buffer as it was before.
  pub lock-unlock :
      (refresh : ℕ) (answer : SourceView) (out : OutPointers) (offset bytes flags : ℕ)
      (b : Buffer F) {l : Locked} {b' : Buffer F} (ofs1 : ℕ)
      → IsWhole b.shared
      → lock refresh answer out offset bytes flags b ≡ (ds_ok, l, b')
      → l.ptr1 ≡ some ofs1
      → unlock ofs1 l.bytes1 l.ptr2 l.bytes2 b' ≡ (ds_ok, b)
  lock-unlock refresh answer out offset bytes flags b {l} {b'} ofs1 w h e =
      let (is_window, free, after) = lock-IsWindow refresh answer out offset bytes flags b w h in
      let restored : record b { locked = false } ≡ b = λ i. record b { locked = sym free i } in
      rw after (unlock_window b _ ofs1 out l is_window e ∙ ap (λ c. (ds_ok, c)) restored)

  -- While a lock is held every other one is refused, and changes nothing.
  pub lock_twice :
      (refresh : ℕ) (answer : SourceView) (out : OutPointers) (offset bytes flags : ℕ)
      (b : Buffer F) {l : Locked} {b' : Buffer F} (refresh' : ℕ) (answer' : SourceView)
      (out' : OutPointers) (offset' bytes' flags' : ℕ)
      → IsWhole b.shared
      → lock refresh answer out offset bytes flags b ≡ (ds_ok, l, b')
      → lock refresh' answer' out' offset' bytes' flags' b' ≡ (invalid_param, nothing_locked, b')
  lock_twice refresh answer out offset bytes flags b {l} {b'} refresh' answer' out' offset' bytes'
        flags' w h =
      let (_, _, after) = lock-IsWindow refresh answer out offset bytes flags b w h in
      locked_refuses refresh' answer' out' offset' bytes' flags' b' (rw after)

  resting_cursor :
      (refresh : ℕ) (answer : SourceView) (b : Buffer F)
      → IsWhole b.shared
      → b.source ≡ 0
      → b.last_pos < b.shared.size
      → get_current_position refresh answer b ≡ (b.last_pos, b.last_pos)
  unfolding get_current_position stopped_pos
  resting_cursor refresh answer b w h lt =
      ground (arith, wrap_cursor_inside b.shared.size b.last_pos)

  -- A position that `SetCurrentPosition` accepts is rounded down to a block, lies inside the buffer, and
  -- is the play and the write cursor of a buffer without a source; the source, if there is one, is
  -- moved to it. A position outside is refused and changes nothing.
  pub set_current_position_lem :
      (refresh new_position : ℕ) (answer : SourceView) (b : Buffer F)
      → IsWhole b.shared
      → let (hr, b', calls) = set_current_position new_position b in
        ((new_position < b.shared.size)
          × (hr ≡ ds_ok)
          × (b'.last_pos ≤ new_position)
          × (b'.last_pos % b.shared.wfx_format.format.block_align ≡ 0)
          × ((b.source ≡ 0)
                × (calls ≡ [])
                × (get_current_position refresh answer b' ≡ (b'.last_pos, b'.last_pos))
              ⊎ (b.source ≢ 0) × (calls ≡ source_i b.source Al.byte_offset b'.last_pos ∷ [])))
        ⊎ ((b.shared.size ≤ new_position) × (hr ≡ invalid_param) × (b' ≡ b) × (calls ≡ []))
  unfolding set_current_position
  set_current_position_lem refresh new_position answer b w =
      let align = b.shared.wfx_format.format.block_align in
      let pos = new_position - new_position % align in
      ground (
        arith,
        sub-mod-mod new_position align,
        resting_cursor refresh answer (record b { last_pos = pos }) w,
      )
