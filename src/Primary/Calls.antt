-- ===== src/Primary/Calls.antt =====
-- primarybuffer.h and primarybuffer.cpp: the calls of a client on the primary buffer that leave the
-- device alone, as changes of the primary buffer.
use dsoal.Prelude.{
  ℕ, ◌≡◌, ◌∙◌, sym, refl, arith, Bool, true, Option, none, some, Option-cases, inl, inr, ℤ, ap,
}
use dsoal.Al.{Floats}
use dsoal.Device.{SharedDevice}
use dsoal.Buffer.{Buffer}
use dsoal.Buffer.Cursor
use dsoal.Buffer.Cursor.{SourceView, OutPointers}
use dsoal.Buffer.Playback
use dsoal.Buffer.Setup.Ready.{loc_of}
use dsoal.Primary.{PrimaryBuffer}
use dsoal.Primary.References
use dsoal.Primary.References.{Interface, Iid}
use dsoal.Primary.Queries
use dsoal.Primary.Emulation.Held.{IsHeld, Holds, same-IsHeld}

-- A call, with what OpenAL answers
pub data ClientCall : Type 0 where
  add_ref_op release_op : Interface → ClientCall
  query_op : Iid → Bool → ClientCall
  set_volume_op : ℤ → ClientCall
  lock_op : SourceView → OutPointers → ℕ → ℕ → ℕ → ClientCall
  unlock_op : ℕ → ℕ → Option ℕ → ℕ → ClientCall
  restore_op : ClientCall

module _ (fl : Floats) where
  open fl use {D3dValue}

  -- The primary buffer after a call; the numbers are the refresh rate of the device and the level of the
  -- sound object.
  unfoldable pub client_call : ℕ → ℕ → ClientCall → PrimaryBuffer D3dValue → PrimaryBuffer D3dValue
  client_call refresh level (add_ref_op i) p = (References.add_ref i p).1
  client_call refresh level (release_op i) p = (References.release i p).1
  client_call refresh level (query_op iid place) p = (References.query_interface iid place p).2
  client_call refresh level (set_volume_op v) p = (Queries.set_volume fl v p).1
  client_call refresh level (lock_op answer out offset bytes flags) p =
      (Queries.lock refresh answer out offset bytes flags p).2
  client_call refresh level (unlock_op ofs1 bytes1 ptr2 bytes2) p =
      (Queries.unlock ofs1 bytes1 ptr2 bytes2 p).1
  client_call refresh level restore_op p = (Queries.restore level p).1

  -- The emulation, if there is one, keeps its source, its location and its storage.
  record Steady (e e' : Buffer D3dValue) : Type 0 where
    same_loc : e'.loc_status ≡ e.loc_status
    same_source : e'.source ≡ e.source
    same_shared : e'.shared ≡ e.shared

  data Keeps (p p' : PrimaryBuffer D3dValue) : Type 0 where
    untouched : p'.write_emu ≡ p.write_emu → p'.format ≡ p.format → Keeps p p'
    changed :
        {e e' : Buffer D3dValue}
        → p.write_emu ≡ some e
        → p'.write_emu ≡ some e'
        → Steady e e'
        → p'.format ≡ p.format
        → Keeps p p'

  changes :
      (p p' : PrimaryBuffer D3dValue) (f : Buffer D3dValue → Buffer D3dValue)
      → (p.write_emu ≡ none → p' ≡ p)
      → ((e : Buffer D3dValue)
          → p.write_emu ≡ some e
          → (p' ≡ record p { write_emu = some (f e) }) × Steady e (f e))
      → Keeps p p'
  changes p p' f without with_emu = elim (Option-cases p.write_emu) [
    | inl e ↦ untouched (ap (λ q. q.write_emu) (without e)) (ap (λ q. q.format) (without e))
    | inr (b, e) ↦
        (let (same, s) = with_emu b e in
          changed e (ap (λ q. q.write_emu) same) s (ap (λ q. q.format) same))
  ]

  lock-Steady :
      (refresh : ℕ) (answer : SourceView) (out : OutPointers) (offset bytes flags : ℕ)
      (e : Buffer D3dValue)
      → Steady e (Cursor.lock refresh answer out offset bytes flags e).2
  unfolding Cursor.lock Cursor.lock_at
  lock-Steady refresh answer out offset bytes flags e = ground arith

  unlock-Steady :
      (ofs1 bytes1 : ℕ) (ptr2 : Option ℕ) (bytes2 : ℕ) (e : Buffer D3dValue)
      → Steady e (Cursor.unlock ofs1 bytes1 ptr2 bytes2 e).1
  unfolding Cursor.unlock
  unlock-Steady ofs1 bytes1 ptr2 bytes2 e = ground arith

  restore-Steady : (level : ℕ) (e : Buffer D3dValue) → Steady e (Playback.restore level true e).1
  unfolding Playback.restore
  restore-Steady level e = ground arith

  client_call-Keeps :
      (refresh level : ℕ) (c : ClientCall) (p : PrimaryBuffer D3dValue)
      → Keeps p (client_call refresh level c p)
  unfolding client_call References.add_ref References.release References.query_interface
      Queries.set_volume Queries.lock Queries.unlock Queries.restore
  client_call-Keeps refresh level (add_ref_op References.ds) p = untouched refl refl
  client_call-Keeps refresh level (add_ref_op References.listener) p = untouched refl refl
  client_call-Keeps refresh level (add_ref_op References.prop) p = untouched refl refl
  client_call-Keeps refresh level (release_op i) p = untouched (ground arith) (ground arith)
  client_call-Keeps refresh level (query_op iid place) p = untouched (ground arith) (ground arith)
  client_call-Keeps refresh level (set_volume_op v) p = untouched (ground arith) (ground arith)
  client_call-Keeps refresh level (lock_op answer out offset bytes flags) p =
      changes p _ (λ e. (Cursor.lock refresh answer out offset bytes flags e).2) (λ h. rw h refl)
        (λ e h. (rw h refl, lock-Steady refresh answer out offset bytes flags e))
  client_call-Keeps refresh level (unlock_op ofs1 bytes1 ptr2 bytes2) p =
      changes p _ (λ e. (Cursor.unlock ofs1 bytes1 ptr2 bytes2 e).1) (λ h. rw h refl)
        (λ e h. (rw h refl, unlock-Steady ofs1 bytes1 ptr2 bytes2 e))
  client_call-Keeps refresh level restore_op p =
      changes p _ (λ e. (Playback.restore level true e).1) (λ h. rw h refl)
        (λ e h. (rw h refl, restore-Steady level e))

  Keeps-IsHeld :
      (p p' : PrimaryBuffer D3dValue) (d : SharedDevice) (hw sw : ℕ)
      → IsHeld fl hw sw p d
      → Keeps p p'
      → IsHeld fl hw sw p' d
  Keeps-IsHeld p p' d hw sw v (untouched e f) = same-IsHeld fl e f v
  Keeps-IsHeld p p' d hw sw v (changed {e} {e'} there now s f) =
      let loc : loc_of p'.write_emu ≡ loc_of p.write_emu =
        ap loc_of now ∙ s.same_loc ∙ sym (ap loc_of there) in
      let h : Holds fl (some e) = rw there at v.held in
      record {
        accounts = rw loc v.accounts;
        held = rw now (
          (λ l z. h.0 (λ q. l (s.same_loc ∙ q)) (sym s.same_source ∙ z)),
          rw (s.same_shared) (h.1),
        );
        stored = rw f v.stored;
      }

  -- The counters go on agreeing with the emulation.
  pub client_call-IsHeld :
      (refresh level : ℕ) (c : ClientCall) (p : PrimaryBuffer D3dValue) (d : SharedDevice)
      (hw sw : ℕ)
      → IsHeld fl hw sw p d
      → IsHeld fl hw sw (client_call refresh level c p) d
  client_call-IsHeld refresh level c p d hw sw v =
      Keeps-IsHeld p _ d hw sw v (client_call-Keeps refresh level c p)

  -- A primary buffer without an emulation gets none.
  pub client_call-absent :
      (refresh level : ℕ) (c : ClientCall) (p : PrimaryBuffer D3dValue)
      → p.write_emu ≡ none
      → (client_call refresh level c p).write_emu ≡ none
  client_call-absent refresh level c p h = stays (client_call-Keeps refresh level c p)
    where
      stays :
          Keeps p (client_call refresh level c p) → (client_call refresh level c p).write_emu ≡ none
      stays (untouched e f) = e ∙ h
      stays (changed there now s f) = cc
