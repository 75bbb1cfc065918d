-- ===== src/Primary/References.antt =====
-- primarybuffer.cpp: the reference counts of the primary buffer's interfaces, which never end it, and
-- `QueryInterface`. The methods of its property set are refused.
pub mod Sums
use dsoal.Prelude.{ℕ, Bool, not, Option, none, some, ◌==◌, if◌then◌else◌}
use dsoal.Win.{Hresult, ds_ok, e_pointer, e_nointerface, prop_id_unsupported, dword_add, dword_sub}
use dsoal.Primary.{PrimaryBuffer}

-- The interfaces that have a count: `PrimaryBuffer` itself, `Listener3D` and `Prop`
pub data Interface : Type 0 where
  ds listener prop : Interface

-- The IIDs that `QueryInterface` tells apart
pub data Iid : Type 0 where
  unknown direct_sound_buffer direct_sound_3d_listener ks_property_set : Iid
  other : ℕ → Iid

-- The interface that an IID asks for
unfoldable pub interface_of : Iid → Option Interface
interface_of unknown = some ds
interface_of direct_sound_buffer = some ds
interface_of direct_sound_3d_listener = some listener
interface_of ks_property_set = some prop
interface_of (other n) = none

module _ {F : Type 0} where
  -- `AddRef` of each interface: the returned count, and the primary buffer. The first reference clears
  -- the flags, so that it can be initialized again.
  unfoldable pub add_ref : Interface → PrimaryBuffer F → ℕ × PrimaryBuffer F
  add_ref ds p =
      let ret = dword_add p.ds_ref 1 in
      (
        ret,
        record p {
          total_ref = dword_add p.total_ref 1;
          ds_ref = ret;
          flags = if p.total_ref == 0 then 0 else p.flags;
        },
      )
  add_ref listener p =
      let ret = dword_add p.ds3d_ref 1 in
      (ret, record p { total_ref = dword_add p.total_ref 1; ds3d_ref = ret })
  add_ref prop p =
      let ret = dword_add p.prop_ref 1 in
      (ret, record p { total_ref = dword_add p.total_ref 1; prop_ref = ret })

  -- `Release` of each interface. That of the primary buffer itself stops at 0.
  unfoldable pub release : Interface → PrimaryBuffer F → ℕ × PrimaryBuffer F
  release ds p =
      let ret = dword_sub p.ds_ref 1 in
      if p.ds_ref == 0
      then (0, p)
      else (ret, record p { total_ref = dword_sub p.total_ref 1; ds_ref = ret })
  release listener p =
      let ret = dword_sub p.ds3d_ref 1 in
      (ret, record p { total_ref = dword_sub p.total_ref 1; ds3d_ref = ret })
  release prop p =
      let ret = dword_sub p.prop_ref 1 in
      (ret, record p { total_ref = dword_sub p.total_ref 1; prop_ref = ret })

  -- `QueryInterface`; the second argument says whether there is a place for the interface.
  unfoldable pub query_interface :
      Iid → Bool → PrimaryBuffer F → Hresult × Option Interface × PrimaryBuffer F
  query_interface iid place p =
      if not place then (e_pointer, none, p) else elim (interface_of iid) [
        | none ↦ (e_nointerface, none, p)
        | some i ↦ (ds_ok, some i, (add_ref i p).1)
      ]

  -- `Prop::Get`, `Prop::Set` and `Prop::QuerySupport`
  pub prop_call : ℕ → PrimaryBuffer F → Hresult
  prop_call prop_id p = prop_id_unsupported
