-- ===== src/Buffer/Notify.antt =====
-- buffer.cpp: `updateNotify`, which signals the events that the play position has passed, and
-- `SetNotificationPositions`.
pub mod Crossing
use dsoal.Prelude.{
  ℕ, ◌%◌, Bool, true, false, not, ◌&&◌, ◌||◌, Option, none, some, List, [], ◌∷◌, ◌++◌, ltb, leb,
  ◌==◌, if◌then◌else◌,
}
use dsoal.Win.{PositionNotify, offset_stop, Hresult, ds_ok, invalid_param, invalid_call, dword_mod}
use dsoal.Al.{al_playing, al_stopped}
use dsoal.Buffer.{Buffer, ParentCall, trigger_notifies, remove_notify}
use dsoal.Buffer.Cursor.{SourceView}
use dsoal.Notify.{signalled, accept_notifies}

-- Whether the position moves past a notification on its way from `last_pos` to `offset`
unfoldable pub passed : ℕ → ℕ → PositionNotify → Bool
passed last_pos offset n =
    if ltb last_pos offset
    then leb last_pos n.offset && ltb n.offset offset
    else if ltb offset last_pos
    then (leb last_pos n.offset || ltb n.offset offset) && not (n.offset == offset_stop)
    else false

at_stop : PositionNotify → Bool
at_stop n = n.offset == offset_stop

-- What `updateNotify` leaves, signals and returns
pub record Updated (F : Type 0) : Type 0 where
  pub buffer : Buffer F
  pub events : List ℕ
  pub pending : Bool

module _ {F : Type 0} where
  -- The position that `updateNotify` reads
  reached : SourceView → Buffer F → ℕ
  reached v b = if v.state == al_stopped then b.shared.size % dword_mod else v.offset % dword_mod

  -- `updateNotify`
  unfoldable pub update_notify : SourceView → Buffer F → Updated F
  unfolding reached at_stop
  update_notify v b =
      let offset = reached v b in
      let pending = v.state == al_playing in
      record {
        buffer = record b { last_pos = offset };
        events =
            signalled (passed b.last_pos offset) b.notifies
            ++ (if pending then [] else signalled at_stop b.notifies);
        pending = pending;
      }

  -- `SetNotificationPositions`; no list is a null pointer with a count. `pending` is the parent's
  -- `isPendingNotify`, asked of a source that is not playing.
  unfoldable pub set_notification_positions :
      ℕ → Bool → Option (List PositionNotify) → Buffer F → Hresult × Buffer F × List ParentCall
  set_notification_positions state pending none b = (invalid_param, b, [])
  set_notification_positions state pending (some ns) b =
      let has_source = not (b.source == 0) in
      let parent = if has_source && pending then trigger_notifies ∷ remove_notify ∷ [] else [] in
      if has_source && (state == al_playing)
      then (invalid_call, b, [])
      else elim (accept_notifies b.shared.size ns) [
        | none ↦ (invalid_param, b, parent)
        | some ms ↦ (ds_ok, record b { notifies = ms }, parent)
      ]
