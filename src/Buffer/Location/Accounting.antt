-- ===== src/Buffer/Location/Accounting.antt =====
-- The device's source counters agree with the buffers' locations.
use dsoal.Prelude.{
  ℕ, ◌+◌, ◌≤◌, ◌<◌, ◌≡◌, ◌≢◌, ◌⊎◌, refl, arith, true, not, if◌then◌else◌, List, Bool-cases, if_both,
  inl, inr, ◌∙◌,
}
use dsoal.Win.{ds_ok, allocated, dword_mod}
use dsoal.Al.{Floats, AlCall}
use dsoal.Device.{SharedDevice, dec_hw_sources, dec_sw_sources}
use dsoal.Buffer.{Buffer, Outcome, LocStatus, none_any, hardware, software}
use dsoal.Buffer.Location.{Given, same_loc, release_loc, take_loc, give_back, acquire, set_location}

abbrev pub hw_use : LocStatus → ℕ
hw_use hardware = 1
hw_use software = 0
hw_use none_any = 0

abbrev pub sw_use : LocStatus → ℕ
sw_use software = 1
sw_use hardware = 0
sw_use none_any = 0

-- The counters are `hw` and `sw`, what the other buffers use, with this buffer's own use.
pub record Accounts (d : SharedDevice) (hw sw : ℕ) (loc : LocStatus) : Type 0 where
  pub hw_count : d.current_hw_sources ≡ hw + hw_use loc
  pub sw_count : d.current_sw_sources ≡ sw + sw_use loc
  pub hw_bound : d.current_hw_sources ≤ d.max_hw_sources
  pub sw_bound : d.current_sw_sources ≤ d.max_sw_sources
  pub hw_word : d.max_hw_sources < dword_mod
  pub sw_word : d.max_sw_sources < dword_mod

-- A wanted location and the one that serves it.
abbrev pub Serves : LocStatus → LocStatus → Type 0
Serves none_any got = got ≢ none_any
Serves hardware got = got ≡ hardware
Serves software got = got ≡ software

-- No source of a wanted kind is left beside `hw` and `sw`.
abbrev pub Exhausted : LocStatus → SharedDevice → ℕ → ℕ → Type 0
Exhausted none_any d hw sw = (hw ≡ d.max_hw_sources) × (sw ≡ d.max_sw_sources)
Exhausted hardware d hw sw = hw ≡ d.max_hw_sources
Exhausted software d hw sw = sw ≡ d.max_sw_sources

-- Only the counters of a device change.
abbrev pub SameLimits : SharedDevice → SharedDevice → Type 0
SameLimits d e = (e.max_hw_sources ≡ d.max_hw_sources) × (e.max_sw_sources ≡ d.max_sw_sources)

pub release_loc-Accounts :
    (loc : LocStatus) (d : SharedDevice) (hw sw : ℕ)
    → Accounts d hw sw loc
    → Accounts (release_loc loc d) hw sw none_any × SameLimits d (release_loc loc d)
unfolding release_loc dec_hw_sources dec_sw_sources
release_loc-Accounts none_any d hw sw a = ground arith
release_loc-Accounts hardware d hw sw a = ground arith
release_loc-Accounts software d hw sw a = ground arith

-- What taking a source for `wanted` gives: a location that serves it, or none where none is left.
record Takes (wanted : LocStatus) (d : SharedDevice) (hw sw : ℕ) (r : SharedDevice × LocStatus)
    : Type 0 where
  accounts : Accounts r.0 hw sw r.1
  limits : SameLimits d r.0
  served : Serves wanted r.1 ⊎ ((r.1 ≡ none_any) × Exhausted wanted d hw sw)

take_loc-Takes :
    (wanted : LocStatus) (d : SharedDevice) (hw sw : ℕ)
    → Accounts d hw sw none_any
    → Takes wanted d hw sw (take_loc wanted d)
unfolding take_loc
take_loc-Takes none_any d hw sw a = ground arith
take_loc-Takes hardware d hw sw a = ground arith
take_loc-Takes software d hw sw a = ground arith

-- A buffer with a location has a source.
abbrev pub HasSource : {F : Type 0} → Buffer F → Type 0
HasSource b = b.loc_status ≢ none_any → b.source ≢ 0

module _ (fl : Floats) where
  open fl use {D3dValue}

  -- What `setLocation` gives.
  pub record Located (wanted : LocStatus) (b : Buffer D3dValue) (d : SharedDevice) (hw sw : ℕ)
      (o : Outcome D3dValue) : Type 0 where
    pub accounts : Accounts o.device hw sw o.buffer.loc_status
    pub limits : SameLimits d o.device
    pub source : HasSource o.buffer
    pub result :
        ((o.hr ≡ ds_ok) × Serves wanted o.buffer.loc_status)
        ⊎ ((o.hr ≡ allocated) × (o.buffer.loc_status ≡ none_any) × Exhausted wanted d hw sw)
    pub same_shared : o.buffer.shared ≡ b.shared

  acquire-Located :
      (g : Given D3dValue) (wanted : LocStatus) (b : Buffer D3dValue) (d : SharedDevice) (hw sw : ℕ)
      (calls : List (AlCall D3dValue)) (r : SharedDevice × LocStatus)
      → g.new_source ≢ 0
      → b.loc_status ≡ none_any
      → Takes wanted d hw sw r
      → Located wanted b d hw sw (acquire fl g b calls r)
  unfolding acquire
  acquire-Located g none_any b d hw sw calls (e, none_any) hg hb t = ground (arith, t.accounts)
  acquire-Located g _ b d hw sw calls (e, _) hg hb t = ground (arith, t.accounts)

  give_back-Accounts :
      (b : Buffer D3dValue) (d : SharedDevice) (hw sw : ℕ)
      → Accounts d hw sw b.loc_status
      → Accounts (give_back fl b d).1 hw sw none_any
        × ((give_back fl b d).0.loc_status ≡ none_any)
        × ((give_back fl b d).0.shared ≡ b.shared)
        × SameLimits d (give_back fl b d).1
  unfolding give_back same_loc
  give_back-Accounts b d hw sw a = ground (arith, release_loc-Accounts b.loc_status d hw sw a)

  -- The location that the buffer already has serves the wanted one.
  same_loc-Serves :
      (wanted loc : LocStatus)
      → (if same_loc wanted none_any then not (same_loc loc none_any) else same_loc loc wanted)
        ≡ true
      → Serves wanted loc
  unfolding same_loc
  same_loc-Serves none_any loc h = ground arith
  same_loc-Serves hardware loc h = ground arith
  same_loc-Serves software loc h = ground arith

  Located-limits :
      (wanted : LocStatus) (b b' : Buffer D3dValue) (d d' : SharedDevice) (hw sw : ℕ)
      (o : Outcome D3dValue)
      → b'.shared ≡ b.shared
      → SameLimits d d'
      → Located wanted b' d' hw sw o
      → Located wanted b d hw sw o
  Located-limits none_any b b' d d' hw sw o hb l v = record {
    accounts = v.accounts;
    limits = omega (arith, v.limits);
    source = v.source;
    result = ground (arith, v.result);
    same_shared = v.same_shared ∙ hb;
  }
  Located-limits _ b b' d d' hw sw o hb l v = record {
    accounts = v.accounts;
    limits = omega (arith, v.limits);
    source = v.source;
    result = ground (arith, v.result);
    same_shared = v.same_shared ∙ hb;
  }

  -- If the counters agree with the locations, then after `setLocation` they still do, within the
  -- device's limits, and a buffer with a location has a source. It succeeds with a location that serves
  -- the wanted one, or it fails with DSERR_ALLOCATED, leaves the buffer with no location, and every
  -- source of the wanted kind is used by other buffers.
  pub set_location-Located :
      (g : Given D3dValue) (wanted : LocStatus) (b : Buffer D3dValue) (d : SharedDevice) (hw sw : ℕ)
      → g.new_source ≢ 0
      → HasSource b
      → Accounts d hw sw b.loc_status
      → Located wanted b d hw sw (set_location fl g wanted b d)
  unfolding set_location
  set_location-Located g wanted b d hw sw hg hs a =
      elim (Bool-cases (
        if same_loc wanted none_any
        then not (same_loc b.loc_status none_any)
        else same_loc b.loc_status wanted)) [
          | inl e ↦ rw e (record {
            accounts = a;
            limits = (refl, refl);
            source = hs;
            result = inl (refl, same_loc-Serves wanted b.loc_status e);
            same_shared = refl;
          })
          | inr e ↦
              let (ga, gl, gs, gm) = give_back-Accounts b d hw sw a in
              let (b', d', calls) = give_back fl b d in
              rw e (
                Located-limits wanted b b' d d' hw sw _ gs gm (
                  acquire-Located g wanted b' d' hw sw calls (take_loc wanted d') hg gl
                    (take_loc-Takes wanted d' hw sw ga)))
        ]

  -- `setLocation` changes the source and the location of the buffer, and nothing else.
  abbrev pub OnlyMoved : Buffer D3dValue → Buffer D3dValue → Type 0
  OnlyMoved b b' = b' ≡ record b { source = b'.source; loc_status = b'.loc_status }

  acquire-OnlyMoved :
      (g : Given D3dValue) (b b' : Buffer D3dValue) (calls : List (AlCall D3dValue))
      (r : SharedDevice × LocStatus)
      → OnlyMoved b b'
      → OnlyMoved b (acquire fl g b' calls r).buffer
  unfolding acquire
  acquire-OnlyMoved g b b' calls (e, none_any) h = h
  acquire-OnlyMoved g b b' calls (e, hardware) h = λ i. record (h i) {
    source = (acquire fl g b' calls (e, hardware)).buffer.source;
    loc_status = hardware;
  }
  acquire-OnlyMoved g b b' calls (e, software) h = λ i. record (h i) {
    source = (acquire fl g b' calls (e, software)).buffer.source;
    loc_status = software;
  }

  pub set_location-OnlyMoved :
      (g : Given D3dValue) (wanted : LocStatus) (b : Buffer D3dValue) (d : SharedDevice)
      → OnlyMoved b (set_location fl g wanted b d).buffer
  unfolding set_location give_back
  set_location-OnlyMoved g wanted b d =
      let P = λ (o : Outcome D3dValue). OnlyMoved b o.buffer in
      let Q = λ (t : Buffer D3dValue × SharedDevice × List (AlCall D3dValue)). OnlyMoved b t.0 in
      if_both P _ _ _ refl
        (acquire-OnlyMoved g b _ _ _ (if_both Q (same_loc b.loc_status none_any) _ _ refl refl))
