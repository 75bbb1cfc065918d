-- ===== src/DSound8/Clients.antt =====
-- buffer.cpp, primarybuffer.cpp and dsoundoal.cpp: the calls that clients make on a sound object, its
-- secondary buffers and its primary one, each as the change of the whole object that it makes: a buffer
-- operation reads its buffer through a pointer, writes it back, and its calls on the sound object
-- (`mParent`) are made. What an operation returns, and its calls of OpenAL, are those of the operation's
-- own module.
pub mod Usable
pub mod Edits
pub mod Rounds
pub mod Stocks
pub mod Creations
pub mod Releases
pub mod Levels
pub mod Steps
pub mod Reachable
pub mod Tests
use dsoal.Prelude.{ℕ, Bool, false, not, Option, none, some, List, [], ◌∷◌, ℤ, if◌then◌else◌}
use dsoal.Win.{PositionNotify}
use dsoal.Al.{Floats, Extensions}
use dsoal.SharedBuffer.{BufferDesc, Storage}
use dsoal.Buffer.{Buffer, Outcome, ParentCall, add_notify, trigger_notifies, remove_notify}
use dsoal.Buffer.Location.{Given}
use dsoal.Buffer.Cursor
use dsoal.Buffer.Cursor.{SourceView, OutPointers}
use dsoal.Buffer.Playback
use dsoal.Buffer.Playback.{PlayAnswers}
use dsoal.Buffer.Control
use dsoal.Buffer.Notify
use dsoal.Buffer.Spatial
use dsoal.Buffer.Setters
use dsoal.Pool.{BufferSubList, put_buffer}
use dsoal.Primary.Calls.{ClientCall, client_call}
use dsoal.Primary.Listener3d
use dsoal.Primary.Emulation.Sessions
use dsoal.DSound8.{
  Pointer, DSound8, deref, add_notify_buffer, remove_notify_buffer, is_pending_notify, trigger_all,
  dispose,
}
use dsoal.DSound8.Level.{set_cooperative_level, with_primary}
use dsoal.DSound8.Creation.{
  Made, Outside, BufferPointer, secondary, buffers_of, create_sound_buffer, duplicate_sound_buffer,
}

module _ {F : Type 0} where
  unfoldable pub triggered : (Pointer → SourceView) → DSound8 F → Option (DSound8 F)
  triggered view s = elim (trigger_all view s) [ none ↦ none | some (s', events) ↦ some s' ]

  -- A call on `mParent`, of the buffer that `p` leads to
  unfoldable pub parent_call :
      (Pointer → SourceView) → Pointer → ParentCall → DSound8 F → Option (DSound8 F)
  parent_call view p add_notify s = some (add_notify_buffer p s)
  parent_call view p remove_notify s = some (remove_notify_buffer p s)
  parent_call view p trigger_notifies s = triggered view s

  unfoldable pub parent_calls :
      (Pointer → SourceView) → Pointer → List ParentCall → DSound8 F → Option (DSound8 F)
  parent_calls view p [] s = some s
  parent_calls view p (c ∷ cs) s = elim (parent_call view p c s) [
    | none ↦ none
    | some s' ↦ parent_calls view p cs s'
  ]

  -- The object with another buffer behind a pointer
  unfoldable pub put_at : Pointer → Buffer F → DSound8 F → DSound8 F
  put_at p b s = record s { secondary_buffers = put_buffer p.group p.slot b s.secondary_buffers }

module _ (fl : Floats) where
  open fl use {D3dValue}

  -- A call on a secondary buffer that changes nothing but that buffer
  pub data Edit : Type 0 where
    restore : Edit
    set_current_position : ℕ → Edit
    lock : SourceView → OutPointers → ℕ → ℕ → ℕ → Edit
    unlock : ℕ → ℕ → Option ℕ → ℕ → Edit
    set_volume set_pan : ℤ → Edit
    set_frequency : ℕ → Edit
    set_3d : Setters.Setter fl → ℕ → Edit

  pub edit : Edit → DSound8 D3dValue → Buffer D3dValue → Buffer D3dValue
  edit restore s b = (Playback.restore s.prio_level false b).1
  edit (set_current_position n) s b = (Cursor.set_current_position n b).1
  edit (lock answer out offset bytes flags) s b =
      (Cursor.lock s.shared.refresh answer out offset bytes flags b).2
  edit (unlock ofs1 bytes1 ptr2 bytes2) s b = (Cursor.unlock ofs1 bytes1 ptr2 bytes2 b).1
  edit (set_volume v) s b = (Control.set_volume fl v b).1
  edit (set_pan v) s b = (Control.set_pan fl s.shared.extensions v b).1
  edit (set_frequency n) s b = (Control.set_frequency fl n b).1
  edit (set_3d c apply) s b =
      (Setters.call fl s.shared.extensions s.primary_buffer.immediate.rolloff_factor c apply b).1

  -- A call of a client, or a round of the notification thread, with what OpenAL answers
  pub data Operation : Type 0 where
    create : Outside D3dValue → Bool → Bool → Option BufferDesc → Operation
    duplicate : Outside D3dValue → Pointer → Bool → Operation
    set_level : Given D3dValue → Storage → (ℕ → SourceView) → ℕ → Operation
    on_buffer : Pointer → Edit → Operation
    play : Pointer → (Pointer → SourceView) → Given D3dValue → PlayAnswers → ℕ → ℕ → Operation
    acquire : Pointer → Given D3dValue → ℕ → ℕ → Bool → Operation
    stop : Pointer → (Pointer → SourceView) → Operation
    set_notifications : Pointer → (Pointer → SourceView) → Option (List PositionNotify) → Operation
    notify_round : (Pointer → SourceView) → Operation
    on_listener : Listener3d.Setter fl → ℕ → Operation
    commit : Operation
    on_primary : Sessions.Operation fl → Operation
    call_primary : ClientCall → Operation
    release : Pointer → Operation

  -- `commit` of the 3D buffers, one after the other
  unfoldable pub commit_3d :
      Extensions
      → D3dValue
      → List Pointer
      → List (BufferSubList (Buffer D3dValue))
      → Option (List (BufferSubList (Buffer D3dValue)))
  commit_3d exts rolloff [] gs = some gs
  commit_3d exts rolloff (p ∷ ps) gs = elim (deref p gs) [
    | none ↦ none
    | some b ↦
        commit_3d exts rolloff ps
          (put_buffer p.group p.slot (Spatial.commit fl exts rolloff b).0 gs)
  ]

  -- The object that a creation leaves
  abbrev pub made_object : Option (Made D3dValue) → Option (DSound8 D3dValue)
  made_object none = none
  made_object (some m) = some m.object

  -- `Play` and `AcquireResources` can take a source of the device.
  unfoldable pub play_at :
      (Pointer → SourceView)
      → Pointer
      → (Buffer D3dValue → Outcome D3dValue)
      → DSound8 D3dValue
      → Option (DSound8 D3dValue)
  unfolding put_at
  play_at view p f s = elim (deref p s.secondary_buffers) [
    | none ↦ none
    | some b ↦
        (let o = f b in
          parent_calls view p o.parent_calls (put_at p o.buffer (record s { shared = o.device })))
  ]

  -- `Stop`: the notifications are triggered before the position is stored, in the buffer that this has
  -- updated.
  unfoldable pub stop_at :
      (Pointer → SourceView) → Pointer → DSound8 D3dValue → Option (DSound8 D3dValue)
  unfolding put_at
  stop_at view p s = elim (deref p s.secondary_buffers) [
    | none ↦ none
    | some b ↦
        (let o = Playback.stop (view p) b s.shared in
          elim (parent_calls view p o.parent_calls s) [
            | none ↦ none
            | some s' ↦ elim (deref p s'.secondary_buffers) [
              | none ↦ none
              | some b' ↦ some (put_at p (Playback.stop (view p) b' s'.shared).buffer s')
            ]
          ])
  ]

  -- `SetNotificationPositions`: they are stored in the buffer that a last round has updated.
  unfoldable pub notifications_at :
      (Pointer → SourceView)
      → Pointer
      → Option (List PositionNotify)
      → DSound8 D3dValue
      → Option (DSound8 D3dValue)
  unfolding put_at
  notifications_at view p ns s = elim (deref p s.secondary_buffers) [
    | none ↦ none
    | some b ↦
        (let pending = is_pending_notify p s in
          let set = Notify.set_notification_positions (view p).state pending ns in
          elim (parent_calls view p (set b).2 s) [
            | none ↦ none
            | some s' ↦ elim (deref p s'.secondary_buffers) [
              | none ↦ none
              | some b' ↦ some (put_at p (set b').1 s')
            ]
          ])
  ]

  -- `CommitDeferredSettings`; its calls are those of `commit_deferred`.
  unfoldable pub commit_at : DSound8 D3dValue → Option (DSound8 D3dValue)
  commit_at s = elim (buffers_of s.buffers_3d s.secondary_buffers) [
    | none ↦ none
    | some bs ↦
        (let (primary, calls) =
            Listener3d.commit_listener fl s.shared.extensions bs s.primary_buffer in
          elim (commit_3d s.shared.extensions primary.immediate.rolloff_factor s.buffers_3d
            s.secondary_buffers) [
              | none ↦ none
              | some gs ↦ some (record s { primary_buffer = primary; secondary_buffers = gs })
            ])
  ]

  unfoldable pub listener_at :
      Listener3d.Setter fl → ℕ → DSound8 D3dValue → Option (DSound8 D3dValue)
  listener_at c apply s = elim (buffers_of s.buffers_3d s.secondary_buffers) [
    | none ↦ none
    | some bs ↦ some (record s {
      primary_buffer = (Listener3d.call fl s.shared.extensions bs c apply s.primary_buffer).1;
    })
  ]

  unfoldable pub edit_at : Edit → Pointer → DSound8 D3dValue → Option (DSound8 D3dValue)
  unfolding put_at
  edit_at e p s = elim (deref p s.secondary_buffers) [
    | none ↦ none
    | some b ↦ some (put_at p (edit e s b) s)
  ]

  -- The object after an operation; `none` is a fault, such as the use of a buffer that is destroyed.
  unfoldable pub perform : Operation → DSound8 D3dValue → Option (DSound8 D3dValue)
  perform (create w place outer desc) s = made_object (create_sound_buffer fl w place outer desc s)
  perform (duplicate w p place) s =
      made_object (duplicate_sound_buffer fl w (some (secondary p)) place s)
  perform (set_level g st answers level) s = some (set_cooperative_level fl g st answers level s).1
  perform (on_buffer p e) s = edit_at e p s
  perform (play p view g x priority flags) s =
      play_at view p (λ b. Playback.play fl g x priority flags b s.shared) s
  perform (acquire p g loc_state flags effects) s =
      play_at (λ _. Cursor.no_source) p
        (λ b. Playback.acquire_resources fl g loc_state flags effects b s.shared) s
  perform (stop p view) s = stop_at view p s
  perform (set_notifications p view ns) s = notifications_at view p ns s
  perform (notify_round view) s = triggered view s
  perform (on_listener c apply) s = listener_at c apply s
  perform commit s = commit_at s
  perform (on_primary op) s =
      some (with_primary fl (Sessions.perform fl op s.primary_buffer s.shared) s)
  perform (call_primary c) s = some (record s {
    primary_buffer = client_call fl s.shared.refresh s.prio_level c s.primary_buffer;
  })
  perform (release p) s = elim (dispose fl p s) [ none ↦ none | some (s', calls) ↦ some s' ]
