-- ===== src/Buffer/Cursor.antt =====
-- buffer.cpp: the cursors of a buffer and the window that `Lock` opens onto its samples.
-- An address inside the sample storage is its offset from `mData.data()`.
pub mod Window
use dsoal.Prelude.{
  ℕ, ◌+◌, ◌-◌, ◌*◌, ◌/◌, ◌%◌, min, ◌≡◌, Bool, true, false, not, ◌&&◌, ◌||◌, Option, none, some, ltb,
  leb, ◌==◌, if◌then◌else◌, List, [], ◌∷◌,
}
use dsoal.Win.{
  Hresult, ds_ok, invalid_param, dword_add, dword_mod, has, lock_fromwritecursor, lock_entirebuffer,
}
use dsoal.Al
use dsoal.Al.{Floats, AlCall, source_i, al_initial, al_playing, al_paused, al_stopped}
use dsoal.SharedBuffer.{SharedBuffer}
use dsoal.Buffer.{Buffer}

-- What OpenAL answers about a source: AL_SOURCE_STATE, AL_BYTE_OFFSET and AL_LOOPING. The offset is
-- never negative.
pub record SourceView : Type 0 where
  pub state : ℕ
  pub offset : ℕ
  pub looping : Bool

-- The values that the queries start with, and keep where there is no source.
abbrev pub no_source : SourceView
no_source = record { state = al_initial; offset = 0; looping = false }

abbrev pub view : {F : Type 0} → Buffer F → SourceView → SourceView
view b v = if b.source == 0 then no_source else v

-- `ds::saturate_cast<DWORD>` of a size
abbrev pub saturate_dword : ℕ → ℕ
saturate_dword n = min n 4294967295

-- `pos %= saturate_cast<DWORD>(size)`
unfoldable pub wrap_cursor : ℕ → ℕ → ℕ
wrap_cursor size pos = pos % saturate_dword size

-- The out parameters of `Lock` after the call. A null pointer receives nothing.
pub record Locked : Type 0 where
  pub ptr1 : Option ℕ
  pub bytes1 : ℕ
  pub ptr2 : Option ℕ
  pub bytes2 : ℕ

abbrev pub nothing_locked : Locked
nothing_locked = record { ptr1 = none; bytes1 = 0; ptr2 = none; bytes2 = 0 }

-- Which of the four out pointers of `Lock` are given, that is not null.
pub record OutPointers : Type 0 where
  pub audio_ptr1 : Bool
  pub audio_bytes1 : Bool
  pub audio_ptr2 : Bool
  pub audio_bytes2 : Bool

-- The two ranges of a window of `bytes` from `offset` on, in a buffer of `size`.
unfoldable pub window : ℕ → ℕ → ℕ → OutPointers → Locked
window size offset bytes out =
    let first = if ltb (size - offset) bytes then size - offset else bytes in
    let remain = bytes - first in
    let second = out.audio_ptr2 && out.audio_bytes2 && not (remain == 0) in
    record {
      ptr1 = some offset;
      bytes1 = first;
      ptr2 = if second then some 0 else none;
      bytes2 = if second then remain else 0;
    }

module _ {F : Type 0} where
  -- The play cursor of a source that is not playing
  unfoldable pub stopped_pos : Buffer F → SourceView → ℕ
  stopped_pos b v =
      if v.state == al_stopped
      then b.shared.size % dword_mod
      else if v.state == al_paused
      then v.offset % dword_mod
      else if v.state == al_initial
      then b.last_pos
      else 0

  -- `GetCurrentPosition`: the play cursor and the write cursor
  unfoldable pub get_current_position : ℕ → SourceView → Buffer F → ℕ × ℕ
  get_current_position refresh answer b =
      let v = view b answer in
      let format = b.shared.wfx_format.format in
      if v.state == al_playing
      then (
        wrap_cursor b.shared.size (v.offset % dword_mod),
        wrap_cursor b.shared.size (
            dword_add ((format.samples_per_sec / refresh * format.block_align) % dword_mod)
              (v.offset % dword_mod)),
      )
      else (
        wrap_cursor b.shared.size (stopped_pos b v),
        wrap_cursor b.shared.size (stopped_pos b v),
      )

  -- `SetCurrentPosition`
  unfoldable pub set_current_position : ℕ → Buffer F → Hresult × Buffer F × List (AlCall F)
  set_current_position new_position b =
      let pos = new_position - new_position % b.shared.wfx_format.format.block_align in
      if leb b.shared.size new_position then (invalid_param, b, []) else (
        ds_ok,
        record b { last_pos = pos },
        if b.source == 0 then [] else source_i b.source Al.byte_offset pos ∷ [],
      )

  -- `Lock`, once its arguments are resolved
  unfoldable pub lock_at : OutPointers → Buffer F → ℕ → ℕ → Hresult × Locked × Buffer F
  lock_at out b offset bytes =
      if b.locked
      then (invalid_param, nothing_locked, b)
      else (ds_ok, window b.shared.size offset bytes out, record b { locked = true })

  -- `Lock`
  unfoldable pub lock :
      ℕ → SourceView → OutPointers → ℕ → ℕ → ℕ → Buffer F → Hresult × Locked × Buffer F
  lock refresh answer out offset bytes flags b =
      let from_cursor = has flags lock_fromwritecursor in
      let entire = has flags lock_entirebuffer in
      let offset' = if from_cursor then (get_current_position refresh answer b).1 else offset in
      let bytes' = if entire then b.shared.size % dword_mod else bytes in
      if not (out.audio_ptr1 && out.audio_bytes1)
      then (invalid_param, nothing_locked, b)
      else if not from_cursor && leb b.shared.size offset
      then (invalid_param, nothing_locked, b)
      else if not entire && ltb b.shared.size bytes
      then (invalid_param, nothing_locked, b)
      else lock_at out b offset' bytes'

  -- `Unlock`. The first pointer is its unsigned distance from the storage; a null second one is `none`.
  unfoldable pub unlock : ℕ → ℕ → Option ℕ → ℕ → Buffer F → Hresult × Buffer F
  unlock ofs1 audio_bytes1 audio_ptr2 audio_bytes2 b =
      let size = b.shared.size in
      let ofs2 : ℕ = elim audio_ptr2 [ none ↦ 0 | some ofs ↦ ofs ] in
      if not b.locked
      then (invalid_param, b)
      else if leb size ofs1
          || ltb (size - ofs1) audio_bytes1
          || not (ofs2 == 0)
          || ltb ofs1 audio_bytes2
      then (invalid_param, record b { locked = false })
      else (ds_ok, record b { locked = false })
