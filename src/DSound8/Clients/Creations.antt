-- ===== src/DSound8/Clients/Creations.antt =====
-- `CreateSoundBuffer` and `DuplicateSoundBuffer` leave a session: the new buffer is usable too, and it
-- is in the list of 3D buffers only if it is one.
use dsoal.Prelude.{◌≡◌, ◌≢◌, refl, Bool, true, false, ◌||◌, Option, none, some, if_both}
use dsoal.Win.{Hresult, has, caps_ctrlfx, caps_primarybuffer, invalid_param}
use dsoal.Al.{Floats}
use dsoal.SharedBuffer.{BufferDesc}
use dsoal.Buffer.{Buffer}
use dsoal.Buffer.Playback
use dsoal.Buffer.Setup
use dsoal.Buffer.Setup.{Initialized}
use dsoal.Buffer.Setup.Ready.{IsFloat, Fits}
use dsoal.Pool.Every.{buffer_at-Every}
use dsoal.DSound8.{Pointer, DSound8, deref}
use dsoal.DSound8.Creation.{
  Made, Outside, refused, secondary, create_buffer, create_sound_buffer, duplicate,
  duplicate_sound_buffer,
}
use dsoal.DSound8.Creation.Counted.{Leaves}
use dsoal.DSound8.Creation.Calls.{create_sound_buffer-Leaves}
use dsoal.DSound8.Creation.Faults.{create_buffer-total, create_sound_buffer-total}
use dsoal.DSound8.Clients.{made_object}
use dsoal.DSound8.Clients.Usable.{IsUsable, IsSession}
use dsoal.DSound8.Clients.Stocks.{IsStocked, Stocks, initialized-Stocks, create_sound_buffer-Stocks}

module _ (fl : Floats) where
  open fl use {D3dValue}

  -- What an operation leaves: no fault, and a session
  pub record Goes (o : Option (DSound8 D3dValue)) : Type 0 where
    pub after : DSound8 D3dValue
    pub no_fault : o ≡ some after
    pub session : IsSession fl after

  -- A creation that is no fault
  made-Goes :
      (o : Option (Made D3dValue)) → o ≢ none → Stocks fl o → Leaves fl o → Goes (made_object fl o)
  made-Goes none h v n = absurd (h refl)
  made-Goes (some m) h v n = record {
    after = m.object;
    no_fault = refl;
    session = record { counted = n; usable = v.usable; spatial = v.spatial };
  }

  stocked : (s : DSound8 D3dValue) → IsSession fl s → IsStocked fl s
  stocked s v = record { usable = v.usable; spatial = v.spatial }

  pub create-Goes :
      (w : Outside D3dValue) (place outer : Bool) (desc : Option BufferDesc) (s : DSound8 D3dValue)
      → IsFloat fl
      → w.given.new_source ≢ 0
      → w.allocates ≡ true
      → Fits desc
      → IsSession fl s
      → Goes (made_object fl (create_sound_buffer fl w place outer desc s))
  create-Goes w place outer desc s fv hg ha hf v =
      made-Goes _ (create_sound_buffer-total fl w place outer desc s ha v.counted)
        (create_sound_buffer-Stocks fl w place outer desc s fv hg hf v.counted (stocked s v))
        (create_sound_buffer-Leaves fl w place outer desc s fv hg hf v.counted)

  refused-Goes :
      (hr : Hresult) (s : DSound8 D3dValue)
      → IsSession fl s
      → Goes (made_object fl (some (refused hr s)))
  unfolding refused
  refused-Goes hr s v = record { after = s; no_fault = refl; session = v }

  duplicate-Goes :
      (w : Outside D3dValue) (original : Buffer D3dValue) (s : DSound8 D3dValue)
      → IsFloat fl
      → w.given.new_source ≢ 0
      → w.allocates ≡ true
      → IsUsable fl original
      → IsSession fl s
      → Goes (made_object fl (duplicate fl w original s))
  unfolding duplicate
  duplicate-Goes w original s fv hg ha u v =
      let P = λ (o : Option (Made D3dValue)). Goes (made_object fl o) in
      let r =
        Setup.initialize fl w.given w.storage none (Setup.construct fl s.is_8 (some original))
          s.shared in
      let (k, n) =
        initialized-Stocks fl w none (some original) s fv hg tt (u.whole, u.spatial.immediate)
          v.counted (stocked s v) in
      let flags = (Playback.get_caps original).0 in
      if_both P (has flags caps_primarybuffer || has flags caps_ctrlfx) _ _
        (refused-Goes invalid_param s v)
        (made-Goes (create_buffer fl w r s) (create_buffer-total fl w r s ha v.counted) k n)

  pub duplicate_sound_buffer-Goes :
      (w : Outside D3dValue) (p : Pointer) (place : Bool) (s : DSound8 D3dValue)
      (b : Buffer D3dValue)
      → IsFloat fl
      → w.given.new_source ≢ 0
      → w.allocates ≡ true
      → deref p s.secondary_buffers ≡ some b
      → IsSession fl s
      → Goes (made_object fl (duplicate_sound_buffer fl w (some (secondary p)) place s))
  unfolding duplicate_sound_buffer
  duplicate_sound_buffer-Goes w p false s b fv hg ha e v = refused-Goes invalid_param s v
  duplicate_sound_buffer-Goes w p true s b fv hg ha e v =
      rw (e, duplicate_sound_buffer)
        (duplicate-Goes w b s fv hg ha
          (buffer_at-Every (IsUsable fl) p.group p.slot s.secondary_buffers v.usable e) v)
