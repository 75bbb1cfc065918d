-- ===== src/Capture/Setup/Ready.antt =====
-- What `Initialize` makes of a new capture buffer: a ring that the thread can fill.
use native.Mathlib.Nat.{div-add-mod'}
use mathlib.Core.Path.{subst}
use dsoal.Prelude.{
  ℕ, zero, suc, ◌*◌, ◌/◌, ◌%◌, ◌≤◌, ◌<◌, ◌≡◌, ◌≢◌, refl, sym, ◌∙◌, arith, Bool, true, false, Option,
  some, Option-cases, Bool-cases, inl, inr, ◌==◌,
}
use dsoal.Win.{
  Hresult, ds_ok, WaveFormat, WaveFormatExtensible, Expected, value, unexpected, frequency_min,
  frequency_max,
}
use dsoal.Notify.Sorted.{IsOrdered}
use dsoal.Format.Frames.{al_frame_bytes}
use dsoal.Capture.Ring.{IsRing}
use dsoal.Capture.Setup.{
  CaptureDesc, DscBuffer, OpenCall, construct, bad_size, bad_numbers, al_format_of, capture_format,
  stored_as, stored_plain, stored_extended, with_format, with_size, sizei_max, open_storage,
  with_stored, with_request, initialize,
}

-- The numbers of a format that passes the checks
record Passes (f : WaveFormatExtensible) : Type 0 where
  align : f.format.block_align ≡ f.format.channels * f.format.bits_per_sample / 8
  rate_low : frequency_min ≤ f.format.samples_per_sec
  rate_high : f.format.samples_per_sec ≤ frequency_max

bad_numbers-Passes : (f : WaveFormatExtensible) → bad_numbers f.format ≡ false → Passes f
unfolding bad_numbers
bad_numbers-Passes f h = record {
  align = ground arith;
  rate_low = ground arith;
  rate_high = ground arith;
}

-- The OpenAL format has the frames of the channels and the width.
al_format_of-frame :
    (channels bits : ℕ) {al : ℕ}
    → al_format_of channels bits ≡ some al
    → (al_frame_bytes al ≡ channels * bits / 8) × (0 < channels * bits / 8)
unfolding al_format_of al_frame_bytes
al_format_of-frame channels bits h = ground arith

-- What a format that is stored has from the request
record Stores (f g : WaveFormatExtensible) (al : ℕ) : Type 0 where
  format_of : al_format_of f.format.channels f.format.bits_per_sample ≡ some al
  same_align : g.format.block_align ≡ f.format.block_align
  same_rate : g.format.samples_per_sec ≡ f.format.samples_per_sec

capture_format-Stores :
    (f g : WaveFormatExtensible) (al : ℕ) → capture_format f ≡ value (g, al) → Stores f g al
unfolding capture_format stored_as stored_plain stored_extended
capture_format-Stores f g al h = record {
  format_of = ground arith;
  same_align = ground arith;
  same_rate = ground arith;
}

-- A buffer that can capture
pub record IsReady (b : DscBuffer) : Type 0 where
  pub device : b.device ≡ true
  pub ring : IsRing b.ring
  pub same_align : b.ring.block_align ≡ b.wave_fmt.format.block_align
  pub same_rate : b.ring.samples_per_sec ≡ b.wave_fmt.format.samples_per_sec
  pub rate_low : frequency_min ≤ b.ring.samples_per_sec
  pub rate_high : b.ring.samples_per_sec ≤ frequency_max
  pub ordered : IsOrdered b.ring.size b.ring.notifies

-- What a successful `Initialize` leaves: the buffer, and the device that is opened for it
pub record Opens (bytes : ℕ) (b : DscBuffer) (call : Option OpenCall) : Type 0 where
  pub ready : IsReady b
  pub size : b.ring.size ≡ bytes
  pub start : b.ring.write_pos ≡ 0
  pub rests : b.ring.capturing ≡ false
  pub opened : OpenCall
  pub called : call ≡ some opened
  pub frequency : opened.frequency ≡ b.ring.samples_per_sec
  pub frame : al_frame_bytes opened.al_format ≡ b.ring.block_align
  pub whole : opened.frames * b.ring.block_align ≡ b.ring.size

-- The buffer and the call of an `Initialize` that succeeds
abbrev made : ℕ → WaveFormatExtensible → DscBuffer
made bytes g = record (with_size bytes (with_format g construct)) { device = true }

abbrev made_call : ℕ → ℕ → WaveFormatExtensible → OpenCall
made_call bytes al g = record {
  frequency = g.format.samples_per_sec;
  al_format = al;
  frames = bytes / g.format.block_align;
}

-- What is checked of the size
record Fits (bytes : ℕ) (g : WaveFormatExtensible) : Type 0 where
  low : g.format.block_align ≤ bytes
  high : bytes ≤ sizei_max
  whole : bytes % g.format.block_align ≡ 0

some_frame : (n : ℕ) {align bytes : ℕ} → n * align ≡ bytes → align ≤ bytes → 0 < align → 0 < n
some_frame zero e low pos = absurd (omega (arith, e))
some_frame (suc n) e low pos = omega arith

made-Opens :
    (bytes al : ℕ) (f g : WaveFormatExtensible)
    → Passes f
    → Stores f g al
    → Fits bytes g
    → Opens bytes (made bytes g) (some (made_call bytes al g))
unfolding construct
made-Opens bytes al f g p s t =
    let align = g.format.block_align in
    let (frame, pos) = al_format_of-frame f.format.channels f.format.bits_per_sample s.format_of in
    let frames : bytes / align * align ≡ bytes = omega (arith, div-add-mod' bytes align, t.whole) in
    let same : align ≡ f.format.channels * f.format.bits_per_sample / 8 = s.same_align ∙ p.align in
    record {
      ready = record {
        device = refl;
        ring = record {
          frames = bytes / align;
          at = 0;
          align_pos = omega (arith, pos, same);
          size_frames = sym frames;
          pos_at = omega arith;
          at_in = some_frame (bytes / align) frames t.low (omega (arith, pos, same));
          small = t.high;
        };
        same_align = refl;
        same_rate = refl;
        rate_low = rw (s.same_rate) p.rate_low;
        rate_high = rw (s.same_rate) p.rate_high;
        ordered = record { valid = tt; rises = tt };
      };
      size = refl;
      start = refl;
      rests = refl;
      opened = made_call bytes al g;
      called = refl;
      frequency = refl;
      frame = frame ∙ sym same;
      whole = frames;
    }

open_storage-Opens :
    (allocates opens : Bool) (bytes al : ℕ) (f g : WaveFormatExtensible) {b : DscBuffer}
    {call : Option OpenCall}
    → Passes f
    → Stores f g al
    → open_storage allocates opens bytes al (with_format g construct) ≡ (ds_ok, b, call)
    → Opens bytes b call
unfolding open_storage construct
open_storage-Opens allocates opens bytes al f g {b} {call} p s h =
    let t : Fits bytes g = record {
      low = ground arith;
      high = ground arith;
      whole = ground arith;
    } in
    let same_buffer : made bytes g ≡ b = ground arith in
    let same_call : some (made_call bytes al g) ≡ call = ground arith in
    subst (λ c. Opens bytes b c) same_call
      (subst (λ x. Opens bytes x (some (made_call bytes al g))) same_buffer
        (made-Opens bytes al f g p s t))

bad_size-fails : (f : WaveFormat) {hr : Hresult} → bad_size f ≡ some hr → hr ≢ ds_ok
unfolding bad_size
bad_size-fails f h e = ground arith

capture_format-fails :
    (f : WaveFormatExtensible) {hr : Hresult} → capture_format f ≡ unexpected hr → hr ≢ ds_ok
unfolding capture_format stored_as
capture_format-fails f h e = ground arith

-- The format that is stored in an `Initialize` that succeeds
pub record Chosen (allocates opens : Bool) (bytes : ℕ) (f : WaveFormatExtensible) (b : DscBuffer)
    (call : Option OpenCall) : Type 0 where
  pub stored : WaveFormatExtensible
  pub al : ℕ
  pub numbers : bad_numbers f.format ≡ false
  pub chosen : capture_format f ≡ value (stored, al)
  pub done : open_storage allocates opens bytes al (with_format stored construct) ≡ (ds_ok, b, call)

with_stored-Chosen :
    (allocates opens : Bool) (bytes : ℕ) (f : WaveFormatExtensible)
    (x : Expected (WaveFormatExtensible × ℕ)) {b : DscBuffer} {call : Option OpenCall}
    → bad_numbers f.format ≡ false
    → capture_format f ≡ x
    → with_stored allocates opens bytes x construct ≡ (ds_ok, b, call)
    → Chosen allocates opens bytes f b call
unfolding with_stored
with_stored-Chosen allocates opens bytes f (unexpected hr) p e h =
    absurd (capture_format-fails f e (ground arith))
with_stored-Chosen allocates opens bytes f (value (g, al)) p e h = record {
  stored = g;
  al = al;
  numbers = p;
  chosen = e;
  done = h;
}

with_request-Chosen :
    (allocates opens : Bool) (bytes : ℕ) (f : WaveFormatExtensible) {b : DscBuffer}
    {call : Option OpenCall}
    → with_request allocates opens bytes f construct ≡ (ds_ok, b, call)
    → Chosen allocates opens bytes f b call
unfolding with_request
with_request-Chosen allocates opens bytes f {b} {call} h = elim (Option-cases (bad_size f.format)) [
  | inr (hr, e) ↦ absurd (bad_size-fails f.format e (ground arith))
  | inl e ↦ elim (Bool-cases (bad_numbers f.format)) [
    | inl bad ↦ absurd (ground arith)
    | inr passes ↦
        with_stored-Chosen allocates opens bytes f (capture_format f) passes refl (ground arith)
  ]
]

pub initialize-Chosen :
    (allocates opens : Bool) (desc : CaptureDesc) {b : DscBuffer} {call : Option OpenCall}
    → initialize allocates opens desc construct ≡ (ds_ok, b, call)
    → (f : WaveFormatExtensible) × (desc.format ≡ some f)
      × Chosen allocates opens desc.buffer_bytes f b call
unfolding initialize construct
initialize-Chosen allocates opens desc {b} {call} h = elim (Bool-cases (desc.fx_count == 0)) [
  | inr e ↦ absurd (ground arith)
  | inl e ↦ elim (Option-cases desc.format) [
    | inl none_given ↦ absurd (ground arith)
    | inr (f, given) ↦
        (f, given, with_request-Chosen allocates opens desc.buffer_bytes f (ground arith))
  ]
]

-- A new capture buffer whose `Initialize` succeeds, whatever was asked for: it can capture. Its storage
-- is a ring of as many whole frames as its OpenAL device is opened for, a frame of the device's format
-- is a frame of the buffer, the storage has the size that was asked for and at most 2^31 - 1 bytes, the
-- sample rate is that of the device and within DirectSound's limits, and it does not capture yet, from
-- position 0.
pub initialize-Opens :
    (allocates opens : Bool) (desc : CaptureDesc) {b : DscBuffer} {call : Option OpenCall}
    → initialize allocates opens desc construct ≡ (ds_ok, b, call)
    → Opens desc.buffer_bytes b call
initialize-Opens allocates opens desc {b} {call} h =
    let (f, given, c) = initialize-Chosen allocates opens desc h in
    open_storage-Opens allocates opens desc.buffer_bytes c.al f c.stored
      (bad_numbers-Passes f c.numbers) (capture_format-Stores f c.stored c.al c.chosen) c.done
