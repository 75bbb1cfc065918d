-- ===== src/Buffer/Setup/Ready.antt =====
-- What a buffer that `Initialize` accepts is ready for.
use dsoal.Prelude.{
  ℕ, ◌<◌, ◌≡◌, ◌≢◌, inl, inr, refl, ◌∙◌, arith, Bool, true, false, Option, none, some, List, [],
  pos, if_cases, if_both, ap,
}
use dsoal.Win.{
  Hresult, ds_ok, invalid_param, dword_mod, Expected, value, unexpected, WaveFormatExtensible, has,
  caps_locdefer, caps_ctrl3d,
}
use dsoal.Al.{Floats, AlCall}
use dsoal.Device.{SharedDevice}
use dsoal.SharedBuffer.{SharedBuffer, BufferDesc, Storage, create, create_calls}
use dsoal.SharedBuffer.Created.{IsWhole, create-IsWhole, create_fails}
use dsoal.Buffer.{Buffer, Outcome, LocStatus, none_any, hardware, software}
use dsoal.Buffer.Location.{Given}
use dsoal.Buffer.Location.Accounting.{
  Accounts, HasSource, Serves, Located, set_location-Located, OnlyMoved, set_location-OnlyMoved,
}
use dsoal.Buffer.Setters.Validity.{IsParams, IsSpatial}
use dsoal.Buffer.Setup.{
  Blank, Initialized, caps_loc, default_params, construct, with_storage, first_location, finish,
  failed_init, store, describe, initialize,
}

-- The location of a buffer, if there is one.
abbrev pub loc_of : {F : Type 0} → Option (Buffer F) → LocStatus
loc_of none = none_any
loc_of (some b) = b.loc_status

-- The fields of a description are a `DWORD` and a `WORD`.
abbrev pub FormatFits : Option WaveFormatExtensible → Type 0
FormatFits none = Unit
FormatFits (some f) = f.format.block_align < 65536

abbrev pub Fits : Option BufferDesc → Type 0
Fits none = Unit
Fits (some d) = (d.buffer_bytes < dword_mod) × FormatFits d.format

Serves-located : (wanted got : LocStatus) → Serves wanted got → got ≢ none_any
Serves-located none_any got h = h
Serves-located hardware got h = λ e. cc
Serves-located software got h = λ e. cc

module _ (fl : Floats) where
  open fl use {D3dValue, nonneg, one_f, of_long}

  -- The default distances are not negative.
  pub record IsFloat : Type 0 where
    pub one_nonneg : nonneg one_f ≡ true
    pub far_nonneg : nonneg (of_long (pos 1000000000)) ≡ true

  -- The original of a duplicate, if there is one, has a whole sample storage and valid parameters.
  abbrev pub Original : Option (Buffer D3dValue) → Type 0
  Original none = Unit
  Original (some o) = IsWhole o.shared × IsParams fl o.immediate

  -- What `Play` and the setters rely on.
  pub record Ready (b : Buffer D3dValue) : Type 0 where
    pub whole : IsWhole b.shared
    pub source : HasSource b
    pub located : has b.shared.flags caps_locdefer ≡ false → b.loc_status ≢ none_any
    pub spatial : IsSpatial fl b
    pub unlocked : b.locked ≡ false

  -- The counters agree on every branch, and on success there is a buffer that is ready.
  pub record Starts (hw sw : ℕ) (r : Initialized D3dValue) : Type 0 where
    pub accounts : Accounts r.device hw sw (loc_of r.buffer)
    pub ready : r.hr ≡ ds_ok → (b : Buffer D3dValue) × (r.buffer ≡ some b) × Ready b

  default-IsParams : IsFloat → IsParams fl (default_params fl)
  unfolding default_params
  default-IsParams v = record {
    inside = omega arith;
    outside = omega arith;
    volume_high = omega arith;
    volume_low = omega arith;
    min_nonneg = v.one_nonneg;
    max_nonneg = v.far_nonneg;
    mode_known = omega arith;
  }

  construct-IsParams :
      (is_8 : Bool) (original : Option (Buffer D3dValue))
      → IsFloat
      → Original original
      → IsParams fl (construct fl is_8 original).immediate
  unfolding construct
  construct-IsParams is_8 none v h = default-IsParams v
  construct-IsParams is_8 (some o) v h =
      if_both (IsParams fl) (has o.shared.flags caps_ctrl3d) _ _ h.1 (default-IsParams v)

  -- A buffer that is ready but for its location is ready once `setLocation` has found one.
  moved-Ready :
      (b b' : Buffer D3dValue)
      → IsWhole b.shared
      → IsParams fl b.immediate
      → IsParams fl b.deferred
      → b.locked ≡ false
      → OnlyMoved fl b b'
      → b'.loc_status ≢ none_any
      → HasSource b'
      → Ready b'
  moved-Ready b b' w p q u m located hs = record {
    whole = rw m w;
    source = hs;
    located = λ _. located;
    spatial = record { immediate = rw m p; deferred = rw m q };
    unlocked = rw m u;
  }

  location_found :
      {wanted : LocStatus} {b : Buffer D3dValue} {d : SharedDevice} {hw sw : ℕ}
      {o : Outcome D3dValue}
      → Located fl wanted b d hw sw o
      → o.hr ≡ ds_ok
      → o.buffer.loc_status ≢ none_any
  location_found {wanted} v ok = elim (v.result) [
    | inl good ↦ Serves-located wanted _ good.1
    | inr bad ↦ cc
  ]

  -- What the location of a new buffer gives.
  record Placed (hw sw : ℕ) (b : Buffer D3dValue) (o : Outcome D3dValue) : Type 0 where
    accounts : Accounts o.device hw sw o.buffer.loc_status
    ready : o.hr ≡ ds_ok → Ready o.buffer

  first_location-Placed :
      (g : Given D3dValue) (n : Blank D3dValue) (s : SharedBuffer) (d : SharedDevice) (hw sw : ℕ)
      → g.new_source ≢ 0
      → IsWhole s
      → IsParams fl n.immediate
      → Accounts d hw sw none_any
      → Placed hw sw (with_storage fl n s) (first_location fl g (with_storage fl n s) d)
  unfolding with_storage first_location
  first_location-Placed g n s d hw sw hg w p a =
      let b = with_storage fl n s in
      let none_yet : HasSource b = λ h. absurd (h refl) in
      let v = set_location-Located fl g (caps_loc s.flags) b d hw sw hg none_yet a in
      if_cases (Placed hw sw b) (has s.flags caps_locdefer) _ _
        (λ e. record {
          accounts = a;
          ready = λ _. record {
            whole = w;
            source = none_yet;
            located = λ f. cc;
            spatial = record { immediate = p; deferred = p };
            unlocked = refl;
          };
        })
        (λ e. record {
          accounts = v.accounts;
          ready = λ ok.
              moved-Ready b _ w p p refl (set_location-OnlyMoved fl g (caps_loc s.flags) b d)
                (location_found v ok) v.source;
        })

  finish-Starts :
      (g : Given D3dValue) (made : List (AlCall D3dValue)) (n : Blank D3dValue) (s : SharedBuffer)
      (d : SharedDevice) (hw sw : ℕ)
      → g.new_source ≢ 0
      → IsWhole s
      → IsParams fl n.immediate
      → Accounts d hw sw none_any
      → Starts hw sw (finish fl g made (with_storage fl n s) d)
  unfolding finish
  finish-Starts g made n s d hw sw hg w p a =
      let v = first_location-Placed g n s d hw sw hg w p a in
      let o = first_location fl g (with_storage fl n s) d in
      record { accounts = v.accounts; ready = λ ok. (o.buffer, refl, v.ready ok) }

  failed_init-Starts :
      (hr : Hresult) (d : SharedDevice) (hw sw : ℕ)
      → hr ≢ ds_ok
      → Accounts d hw sw none_any
      → Starts hw sw (failed_init fl hr d)
  unfolding failed_init
  failed_init-Starts hr d hw sw ne a = record { accounts = a; ready = λ ok. absurd (ne ok) }

  store-Starts :
      (g : Given D3dValue) (st : Storage) (ds : BufferDesc) (f : WaveFormatExtensible)
      (n : Blank D3dValue) (d : SharedDevice) (hw sw : ℕ) (e : Expected SharedBuffer)
      → g.new_source ≢ 0
      → ds.buffer_bytes < dword_mod
      → f.format.block_align < 65536
      → IsParams fl n.immediate
      → Accounts d hw sw none_any
      → create st d.extensions ds f ≡ e
      → Starts hw sw (store fl g n d e)
  unfolding store
  store-Starts g st ds f n d hw sw (unexpected hr) hg hb hw' p a h =
      failed_init-Starts hr d hw sw (λ ok. create_fails st d.extensions ds f (h ∙ ap unexpected ok))
        a
  store-Starts g st ds f n d hw sw (value s) hg hb hw' p a h =
      finish-Starts g (create_calls fl s) n s d hw sw hg
        (create-IsWhole st d.extensions ds f hb hw' h).0 p a

  describe-Starts :
      (g : Given D3dValue) (st : Storage) (ds : BufferDesc) (o : Option WaveFormatExtensible)
      (n : Blank D3dValue) (d : SharedDevice) (hw sw : ℕ)
      → g.new_source ≢ 0
      → ds.buffer_bytes < dword_mod
      → FormatFits o
      → IsParams fl n.immediate
      → Accounts d hw sw none_any
      → Starts hw sw (describe fl g st ds o n d)
  unfolding describe
  describe-Starts g st ds none n d hw sw hg hb hf p a =
      failed_init-Starts invalid_param d hw sw (λ e. cc) a
  describe-Starts g st ds (some f) n d hw sw hg hb hf p a =
      if_both (Starts hw sw) _ _ _ (failed_init-Starts invalid_param d hw sw (λ e. cc) a)
        (store-Starts g st ds f n d hw sw _ hg hb hf p a refl)

  -- On every branch of `Initialize`, of a new buffer or of a duplicate, the device's counters go on
  -- agreeing with the locations. If it succeeds there is a buffer, with a whole sample storage, valid
  -- 3D parameters, no lock, a source if it has a location, and a location unless it is deferred: what
  -- `Play`, `Lock` and the setters rely on.
  pub initialize-Starts :
      (g : Given D3dValue) (st : Storage) (desc : Option BufferDesc) (is_8 : Bool)
      (original : Option (Buffer D3dValue)) (d : SharedDevice) (hw sw : ℕ)
      → IsFloat
      → g.new_source ≢ 0
      → Fits desc
      → Original original
      → Accounts d hw sw none_any
      → Starts hw sw (initialize fl g st desc (construct fl is_8 original) d)
  unfolding initialize construct
  initialize-Starts g st desc is_8 (some o) d hw sw v hg hd ho a =
      finish-Starts g [] (construct fl is_8 (some o)) o.shared d hw sw hg ho.0
        (construct-IsParams is_8 (some o) v ho) a
  initialize-Starts g st none is_8 none d hw sw v hg hd ho a =
      failed_init-Starts invalid_param d hw sw (λ e. cc) a
  initialize-Starts g st (some ds) is_8 none d hw sw v hg hd ho a =
      describe-Starts g st ds ds.format (construct fl is_8 none) d hw sw hg hd.0 hd.1
        (construct-IsParams is_8 none v tt) a
