-- ===== src/Capture/Locking.antt =====
-- capture.cpp: `Lock`, `Unlock`, `GetCurrentPosition`, `Start` and `Stop` of `DSCBuffer`.
pub mod Window
use dsoal.Prelude.{
  ℕ, ◌-◌, ◌*◌, ◌/◌, ◌%◌, Bool, true, false, not, ◌&&◌, ◌||◌, Option, none, some, List, [], ◌∷◌, ltb,
  leb, ◌==◌, if◌then◌else◌,
}
use dsoal.Win.{Hresult, ds_ok, invalid_param, dword_add, dword_sub, dword_mod, has, offset_stop}
use dsoal.Notify.{signalled}
use dsoal.Buffer.Cursor.{Locked, nothing_locked, OutPointers, saturate_dword}
use dsoal.Capture.{Capture}

-- DSCBLOCK_ENTIREBUFFER
abbrev pub capture_entirebuffer : ℕ
capture_entirebuffer = 1

-- The ranges of a window in a storage of `size`
unfoldable pub window : ℕ → ℕ → ℕ → OutPointers → Locked
window size cursor bytes out =
    let split = ltb (size - bytes) cursor in
    let first = if split then dword_sub (saturate_dword size) cursor else bytes in
    let remain : ℕ = if split then dword_sub bytes first else 0 in
    let second = out.audio_ptr2 && out.audio_bytes2 && not (remain == 0) in
    record {
      ptr1 = some cursor;
      bytes1 = first;
      ptr2 = if second then some 0 else none;
      bytes2 = if second then remain else 0;
    }

-- `Lock`
unfoldable pub lock : OutPointers → ℕ → ℕ → ℕ → Capture → Hresult × Locked × Capture
unfolding window
lock out cursor bytes flags c =
    let entire = has flags capture_entirebuffer in
    let bytes' = if entire then saturate_dword c.size else bytes in
    if not (out.audio_ptr1 && out.audio_bytes1)
    then (invalid_param, nothing_locked, c)
    else if ltb c.size cursor
    then (invalid_param, nothing_locked, c)
    else if not entire && ltb c.size bytes
    then (invalid_param, nothing_locked, c)
    else if c.locked
    then (invalid_param, nothing_locked, c)
    else (ds_ok, window c.size cursor bytes' out, record c { locked = true })

-- `Unlock`. The first pointer is its unsigned distance from the storage; a null second one is `none`.
unfoldable pub unlock : ℕ → ℕ → Option ℕ → ℕ → Capture → Hresult × Capture
unlock ofs1 audio_bytes1 audio_ptr2 audio_bytes2 c =
    let ofs2 : ℕ = elim audio_ptr2 [ none ↦ 0 | some ofs ↦ ofs ] in
    if not c.locked
    then (invalid_param, c)
    else if ltb c.size ofs1
        || ltb (c.size - ofs1) audio_bytes1
        || ltb ofs1 audio_bytes2
        || not (ofs2 == 0)
    then (invalid_param, record c { locked = false })
    else (ds_ok, record c { locked = false })

-- `GetCurrentPosition`: the capture position and the read position
pub get_current_position : Capture → ℕ × ℕ
get_current_position c = (
  (if c.capturing
      then dword_add c.write_pos ((c.samples_per_sec / 100 * c.block_align) % dword_mod)
        % saturate_dword c.size
      else c.write_pos),
  c.write_pos,
)
