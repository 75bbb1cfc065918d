-- ===== src/DSound8/Clients/Reachable.antt =====
-- The sound objects that clients can reach, each alone on its device: one that `Initialize` opens, and
-- what any sequence of permitted operations makes of it.
use dsoal.Prelude.{
  ℕ, zero, suc, ◌+◌, ◌/◌, ◌≡◌, ◌<◌, sym, ◌∙◌, Bool, some, [], All, pos_part, if_both,
}
use dsoal.Win.{Expected, value, unexpected}
use mathlib.Core.Path.{subst}
use dsoal.Al.{Floats}
use dsoal.Device.{SharedDevice}
use dsoal.Device.Share.{Opened, create_device_share}
use dsoal.Buffer.{Buffer}
use dsoal.Buffer.Setup.Ready.{IsFloat}
use dsoal.Pool.{new_group}
use dsoal.Pool.Every.{Every, replicate-In}
use dsoal.DSound8.{DSound8}
use dsoal.DSound8.Opening.{preallocate, open_object, open_object-IsCounted}
use dsoal.DSound8.Clients.{Operation, perform}
use dsoal.DSound8.Clients.Usable.{IsUsable, Is3d, IsSession}
use dsoal.DSound8.Clients.Steps.{Permitted, perform-Goes}

module _ (fl : Floats) where
  open fl use {D3dValue}

  -- The objects that are the only ones on their device: `GetById` finds it not open yet, so that
  -- `Initialize` gets a share that `CreateDeviceShare` has just made, and no other object opens it.
  pub data Reach : DSound8 D3dValue → Type 0 where
    opened :
        (allocates : ℕ → Bool) (is_8 : Bool) (o : Opened) {s : DSound8 D3dValue}
        → pos_part o.num_mono < 2147483648
        → pos_part o.num_stereo < 2147483648
        → open_object fl allocates is_8 (create_device_share o) ≡ value s
        → Reach s
    later :
        (op : Operation fl) {s t : DSound8 D3dValue}
        → Reach s
        → Permitted fl op s
        → perform fl op s ≡ some t
        → Reach t

  preallocate-Every :
      (P : Buffer D3dValue → Type 0) (allocates : ℕ → Bool) (i n : ℕ)
      → Every P (preallocate allocates i n)
  unfolding preallocate new_group
  preallocate-Every P allocates i zero = tt
  preallocate-Every P allocates i (suc n) =
      let rest = preallocate-Every P allocates (suc i) n in
      if_both (Every P) (allocates i) _ _ (replicate-In P 64, rest) tt

  -- What `Initialize` makes of a device: no buffer yet, and an empty 3D list
  fresh-IsUsable :
      (allocates : ℕ → Bool) (is_8 : Bool) (e : Expected SharedDevice) (s : DSound8 D3dValue)
      → open_object fl allocates is_8 e ≡ value s
      → Every (IsUsable fl) s.secondary_buffers × All (Is3d s.secondary_buffers) s.buffers_3d
  unfolding open_object
  fresh-IsUsable allocates is_8 (unexpected hr) s h = cc
  fresh-IsUsable allocates is_8 (value d) s h =
      let n = (d.max_hw_sources + 63) / 64 in
      let groups : preallocate allocates 0 n ≡ s.secondary_buffers = cc in
      let spatial : [] ≡ s.buffers_3d = cc in
      (
        subst (Every (IsUsable fl)) groups (preallocate-Every (IsUsable fl) allocates 0 n),
        subst (All (Is3d s.secondary_buffers)) spatial tt,
      )

  -- A sound object that is the only one on its device: `Initialize` opens the device for it, and no
  -- other sound object uses it. (A device that another object has open, which `GetById` hands out as
  -- well, is not covered: its counters count the buffers of both.) Whatever OpenAL answers, what any
  -- sequence of permitted calls makes of such an object is a session: the device's counters agree with
  -- the locations of all its buffers, within the device's limits, no pointer in its lists dangles, and
  -- every secondary buffer has a whole storage, valid 3D parameters, and a source if it has a location.
  -- The floats 1 and 1000000000 are not negative.
  pub Reach-IsSession : {s : DSound8 D3dValue} → IsFloat fl → Reach s → IsSession fl s
  Reach-IsSession {s} fv (opened allocates is_8 o hm hs h) =
      let t = fresh-IsUsable allocates is_8 (create_device_share o) s h in
      record {
        counted = open_object-IsCounted fl allocates is_8 o hm hs h;
        usable = t.0;
        spatial = t.1;
      }
  Reach-IsSession {s} fv (later op {s = before} r allowed h) =
      let g = perform-Goes fl op before fv (Reach-IsSession fv r) allowed in
      let both : some g.after ≡ some s = sym g.no_fault ∙ h in
      let same : g.after ≡ s = cc in subst (IsSession fl) same g.session
