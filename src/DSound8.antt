-- ===== src/DSound8.antt =====
-- dsoundoal.h and dsoundoal.cpp: `DSound8OAL`, the sound object, with the secondary buffers and the
-- lists of pointers to those that are 3D and those that await notifications.
pub mod Pending
pub mod Waiting
pub mod Trials
pub mod Level
pub mod Creation
pub mod Opening
pub mod Clients
pub mod Tests
use dsoal.Prelude.{
  ℕ, Bool, true, false, not, ◌&&◌, Option, none, some, List, [], ◌∷◌, ◌++◌, keep, ◌==◌,
  if◌then◌else◌,
}
use dsoal.Device.{SharedDevice}
use dsoal.Al.{Floats, AlCall}
use dsoal.Buffer.{Buffer, ParentCall, add_notify, trigger_notifies, remove_notify}
use dsoal.Buffer.Location.{destroy}
use dsoal.Buffer.Cursor.{SourceView}
use dsoal.Buffer.Notify.{Updated, update_notify}
use dsoal.Primary.{PrimaryBuffer}
use dsoal.Pool
use dsoal.Pool.{BufferSubList, buffer_at, put_buffer}
use dsoal.Win.{has, caps_ctrl3d}

-- `Buffer*`
pub record Pointer : Type 0 where
  pub group : ℕ
  pub slot : ℕ

abbrev pub same_pointer : Pointer → Pointer → Bool
same_pointer p q = (p.group == q.group) && (p.slot == q.slot)

pub record DSound8 (F : Type 0) : Type 0 where
  pub shared : SharedDevice
  pub secondary_buffers : List (BufferSubList (Buffer F))
  pub buffers_3d : List Pointer
  pub notify_buffers : List Pointer
  pub primary_buffer : PrimaryBuffer F
  pub prio_level : ℕ
  pub is_8 : Bool

-- `std::find` of a pointer
pub contains : Pointer → List Pointer → Bool
contains p [] = false
contains p (q ∷ qs) = if same_pointer q p then true else contains p qs

-- `std::remove` of a pointer, with `erase`
pub remove : Pointer → List Pointer → List Pointer
remove p qs = keep (λ q. not (same_pointer q p)) qs

module _ {F : Type 0} where
  abbrev pub deref : Pointer → List (BufferSubList (Buffer F)) → Option (Buffer F)
  deref p gs = buffer_at p.group p.slot gs

  -- `addNotifyBuffer`; waking the notification thread is not modelled.
  pub add_notify_buffer : Pointer → DSound8 F → DSound8 F
  add_notify_buffer p s =
      if contains p s.notify_buffers
      then s
      else record s { notify_buffers = s.notify_buffers ++ p ∷ [] }

  -- `removeNotifyBuffer`
  pub remove_notify_buffer : Pointer → DSound8 F → DSound8 F
  remove_notify_buffer p s = record s { notify_buffers = remove p s.notify_buffers }

  -- `isPendingNotify`
  pub is_pending_notify : Pointer → DSound8 F → Bool
  is_pending_notify p s = contains p s.notify_buffers

  -- The loop of `triggerNotifies` and of one round of `notifyThread`: each buffer is updated, and those
  -- that still play stay in the list. `none` is a fault, the use of a pointer that leads to no object.
  trigger :
      (Pointer → SourceView)
      → List Pointer
      → List (BufferSubList (Buffer F))
      → Option (List (BufferSubList (Buffer F)) × List Pointer × List ℕ)
  trigger view [] gs = some (gs, [], [])
  trigger view (p ∷ ps) gs = elim (deref p gs) [
    | none ↦ none
    | some b ↦
        (let u = update_notify (view p) b in
          elim (trigger view ps (put_buffer p.group p.slot u.buffer gs)) [
            | none ↦ none
            | some (gs', kept, events) ↦
                some (gs', (if u.pending then p ∷ kept else kept), u.events ++ events)
          ])
  ]

  -- `triggerNotifies`: the object and the signalled events
  pub trigger_all : (Pointer → SourceView) → DSound8 F → Option (DSound8 F × List ℕ)
  trigger_all view s = elim (trigger view s.notify_buffers s.secondary_buffers) [
    | none ↦ none
    | some (gs, kept, events) ↦
        some (record s { secondary_buffers = gs; notify_buffers = kept }, events)
  ]

-- `dispose`, with the destructor of the buffer: its source and its count go back, and it leaves the
-- list of 3D buffers. `none` is a fault, of a pointer that leads to no object.
pub dispose :
    (fl : Floats)
    → Pointer
    → DSound8 fl.D3dValue
    → Option (DSound8 fl.D3dValue × List (AlCall fl.D3dValue))
dispose fl p s = elim (deref p s.secondary_buffers) [
  | none ↦ none
  | some b ↦
      (let (device, calls) = destroy fl b s.shared in
        some (
          record s {
            shared = device;
            secondary_buffers = Pool.dispose p.group p.slot s.secondary_buffers;
            buffers_3d =
                if has b.shared.flags caps_ctrl3d then remove p s.buffers_3d else s.buffers_3d;
          },
          calls,
        ))
]
