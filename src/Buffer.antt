-- ===== src/Buffer.antt =====
-- buffer.h: the state of `Buffer`, a secondary sound buffer. Its operations are in the children.
-- A buffer here is one that `Initialize` has returned, so `mBuffer` is no null pointer.
pub mod Location
pub mod Cursor
pub mod Playback
pub mod Notify
pub mod Spatial
pub mod Setters
pub mod Control
pub mod Setup
pub mod References
pub mod Tests
use dsoal.Prelude.{ℕ, Bool, true, false, ℤ, List}
use dsoal.Win.{PositionNotify, Hresult}
use dsoal.Al.{AlCall}
use dsoal.SharedBuffer.{SharedBuffer}
use dsoal.Device.{SharedDevice}

-- `D3DVECTOR`
pub record Vector (F : Type 0) : Type 0 where
  pub x : F
  pub y : F
  pub z : F

-- `DS3DBUFFER`, without `dwSize`, which is constant in every stored value
pub record Params3d (F : Type 0) : Type 0 where
  pub position : Vector F
  pub velocity : Vector F
  pub inside_cone_angle : ℕ
  pub outside_cone_angle : ℕ
  pub cone_orientation : Vector F
  pub cone_outside_volume : ℤ
  pub min_distance : F
  pub max_distance : F
  pub mode : ℕ

-- DS3DMODE_*
abbrev pub mode_normal : ℕ
mode_normal = 0

abbrev pub mode_headrelative : ℕ
mode_headrelative = 1

abbrev pub mode_disable : ℕ
mode_disable = 2

-- `enum DirtyFlags`, as the bits of a `std::bitset<FlagCount>`
pub record Dirty : Type 0 where
  pub position : Bool
  pub velocity : Bool
  pub cone_angles : Bool
  pub cone_orientation : Bool
  pub cone_volume : Bool
  pub min_distance : Bool
  pub max_distance : Bool
  pub mode : Bool

abbrev pub clean : Dirty
clean = record {
  position = false;
  velocity = false;
  cone_angles = false;
  cone_orientation = false;
  cone_volume = false;
  min_distance = false;
  max_distance = false;
  mode = false;
}

abbrev pub all_dirty : Dirty
all_dirty = record {
  position = true;
  velocity = true;
  cone_angles = true;
  cone_orientation = true;
  cone_volume = true;
  min_distance = true;
  max_distance = true;
  mode = true;
}

-- `LocStatus`; `Any` is `None`
pub data LocStatus : Type 0 where
  none_any hardware software : LocStatus

-- `Buffer`, without its reference counts and interfaces. `source` is 0 while there is none.
pub record Buffer (F : Type 0) : Type 0 where
  pub shared : SharedBuffer
  pub source : ℕ
  pub last_pos : ℕ
  pub vm_priority : ℕ
  pub locked : Bool
  pub buffer_lost : Bool
  pub volume : ℤ
  pub pan : ℤ
  pub frequency : ℕ
  pub immediate : Params3d F
  pub deferred : Params3d F
  pub dirty : Dirty
  pub loc_status : LocStatus
  pub notifies : List PositionNotify
  pub is_8 : Bool

-- What a call asks of the sound object that owns the buffer.
pub data ParentCall : Type 0 where
  add_notify trigger_notifies remove_notify : ParentCall

-- The result of an operation that can use the device: `calls` in order.
pub record Outcome (F : Type 0) : Type 0 where
  pub hr : Hresult
  pub buffer : Buffer F
  pub device : SharedDevice
  pub calls : List (AlCall F)
  pub parent_calls : List ParentCall
