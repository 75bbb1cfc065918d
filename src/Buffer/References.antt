-- ===== src/Buffer/References.antt =====
-- buffer.cpp: the reference counts of a buffer's five interfaces, `QueryInterface`, `AddRef` and
-- `Release` of each. An atomic step of a count is one step here.
pub mod Ownership
pub mod Tests
use dsoal.Prelude.{
  ℕ, ◌≡◌, Bool, true, false, not, Option, none, some, List, [], ◌∷◌, ◌==◌, if◌then◌else◌,
}
use dsoal.Win.{
  Hresult, ds_ok, e_pointer, e_nointerface, has, caps_ctrl3d, caps_ctrlpositionnotify, dword_add,
  dword_sub,
}

-- The interfaces that have a count: `Buffer` itself, `Buffer3D`, `Prop`, `Notify` and `Unknown`
pub data Interface : Type 0 where
  ds ds3d prop notify unk : Interface

-- The IIDs that `QueryInterface` tells apart
pub data Iid : Type 0 where
  unknown direct_sound_buffer direct_sound_buffer8 direct_sound_3d_buffer : Iid
  direct_sound_notify ks_property_set : Iid
  other : ℕ → Iid

-- The six counts
pub record Counts : Type 0 where
  pub total_ref : ℕ
  pub ds_ref : ℕ
  pub ds3d_ref : ℕ
  pub prop_ref : ℕ
  pub not_ref : ℕ
  pub unk_ref : ℕ

-- The counts of a new buffer
abbrev pub new_counts : Counts
new_counts = record {
  total_ref = 1;
  ds_ref = 1;
  ds3d_ref = 0;
  prop_ref = 0;
  not_ref = 0;
  unk_ref = 0;
}

abbrev pub count : Interface → Counts → ℕ
count ds c = c.ds_ref
count ds3d c = c.ds3d_ref
count prop c = c.prop_ref
count notify c = c.not_ref
count unk c = c.unk_ref

abbrev pub set_count : Interface → ℕ → Counts → Counts
set_count ds n c = record c { ds_ref = n }
set_count ds3d n c = record c { ds3d_ref = n }
set_count prop n c = record c { prop_ref = n }
set_count notify n c = record c { not_ref = n }
set_count unk n c = record c { unk_ref = n }

-- `AddRef` of an interface: the returned count, and the counts
pub add_ref : Interface → Counts → ℕ × Counts
add_ref i c =
    let ret = dword_add (count i c) 1 in
    (ret, set_count i ret (record c { total_ref = dword_add (c.total_ref) 1 }))

-- `Release` of an interface: the returned count, and the counts, or none if the buffer is disposed of
pub release : Interface → Counts → ℕ × Option Counts
release i c =
    let ret = dword_sub (count i c) 1 in
    let c' = set_count i ret (record c { total_ref = dword_sub (c.total_ref) 1 }) in
    (ret, if c.total_ref == 1 then none else some c')

-- The interface that an IID asks for, of a buffer with these flags
unfoldable pub interface_of : ℕ → Bool → Iid → Option Interface
interface_of flags is_8 unknown = some unk
interface_of flags is_8 direct_sound_buffer = some ds
interface_of flags is_8 direct_sound_buffer8 = if is_8 then some ds else none
interface_of flags is_8 direct_sound_3d_buffer = if has flags caps_ctrl3d then some ds3d else none
interface_of flags is_8 direct_sound_notify =
    if has flags caps_ctrlpositionnotify then some notify else none
interface_of flags is_8 ks_property_set = some prop
interface_of flags is_8 (other n) = none

-- `QueryInterface`: the result, the interface that is handed out, and the counts; the second argument
-- but one says whether there is a place for it.
unfoldable pub query_interface :
    ℕ → Bool → Iid → Bool → Counts → Hresult × Option Interface × Counts
query_interface flags is_8 iid place c =
    if not place then (e_pointer, none, c) else elim (interface_of flags is_8 iid) [
      | none ↦ (e_nointerface, none, c)
      | some i ↦ (ds_ok, some i, (add_ref i c).1)
    ]
