-- ===== src/Capture/Setup/Again.antt =====
-- The format that an initialized capture buffer reports makes the same buffer again.
use mathlib.Core.Path.{subst}
use dsoal.Prelude.{
  ℕ, ◌≤◌, ◌≡◌, refl, ap, ◌∙◌, arith, Bool, true, false, Option, none, some, ◌==◌, Bool-cases, inl,
  inr,
}
use dsoal.Win.{
  ds_ok, WaveFormatExtensible, value, wave_format_pcm, wave_format_extensible, sizeof_extensible,
}
use dsoal.Capture.Setup.Ready.{initialize-Chosen}
use dsoal.Capture.Queries.{get_format}
use dsoal.Capture.Setup.{
  CaptureDesc, DscBuffer, OpenCall, construct, bad_size, bad_numbers, al_format_of, capture_format,
  stored_as, stored_plain, stored_extended, has_mask, is_pcm, with_format, open_storage,
  with_stored, with_request, initialize,
}

-- A stored format passes every check, and is stored as it is.
record IsStable (g : WaveFormatExtensible) (al : ℕ) : Type 0 where
  sized : bad_size g.format ≡ none
  numbers : bad_numbers g.format ≡ false
  again : capture_format g ≡ value (g, al)
  small : g.format.cb_size ≤ 22

plain-IsStable :
    (f : WaveFormatExtensible) (al : ℕ)
    → bad_numbers f.format ≡ false
    → f.format.format_tag ≡ wave_format_pcm
    → al_format_of f.format.channels f.format.bits_per_sample ≡ some al
    → IsStable (stored_plain f) al
unfolding capture_format stored_as stored_plain bad_size bad_numbers
plain-IsStable f al h tag e = record {
  sized = ground arith;
  numbers = h;
  again = ground arith;
  small = omega arith;
}

extended-IsStable :
    (f : WaveFormatExtensible) (al : ℕ)
    → bad_numbers f.format ≡ false
    → f.format.format_tag ≡ wave_format_extensible
    → is_pcm f.sub_format ≡ true
    → has_mask f.format.channels f.channel_mask ≡ true
    → al_format_of f.format.channels f.format.bits_per_sample ≡ some al
    → IsStable (stored_extended f) al
unfolding capture_format stored_as stored_extended bad_size bad_numbers
extended-IsStable f al h tag p m e = record {
  sized = ground arith;
  numbers = h;
  again = ground arith;
  small = omega arith;
}

stored-IsStable :
    (f g : WaveFormatExtensible) (al : ℕ)
    → bad_numbers f.format ≡ false
    → capture_format f ≡ value (g, al)
    → IsStable g al
unfolding capture_format stored_as
stored-IsStable f g al h e = elim (Bool-cases (f.format.format_tag == wave_format_pcm)) [
  | inl plain ↦
      subst (λ x. IsStable x al) (ground arith)
        (plain-IsStable f al h (ground arith) (ground arith))
  | inr other ↦
      subst (λ x. IsStable x al) (ground arith)
        (extended-IsStable f al h (ground arith) (ground arith) (ground arith) (ground arith))
]

-- With memory and a device the storage is opened as it was.
open_storage-again :
    (allocates opens : Bool) (bytes al : ℕ) (c : DscBuffer) {b : DscBuffer} {call : Option OpenCall}
    → open_storage allocates opens bytes al c ≡ (ds_ok, b, call)
    → (open_storage true true bytes al c ≡ (ds_ok, b, call))
      × (b.wave_fmt ≡ c.wave_fmt)
      × (b.ring.size ≡ bytes)
unfolding open_storage
open_storage-again allocates opens bytes al c h = (ground arith, ground arith, ground arith)

with_request-stable :
    (bytes al : ℕ) (g : WaveFormatExtensible)
    → IsStable g al
    → with_request true true bytes g construct
      ≡ open_storage true true bytes al (with_format g construct)
unfolding with_request with_stored
with_request-stable bytes al g t = rw (t.sized, with_request) (rw (t.numbers) (rw (t.again) refl))

-- A request for a format and a size, with no effects
abbrev pub request_of : ℕ → Option WaveFormatExtensible → CaptureDesc
request_of bytes f = record { buffer_bytes = bytes; fx_count = 0; format = f }

initialize-request :
    (bytes : ℕ) (f : WaveFormatExtensible)
    → initialize true true (request_of bytes (some f)) construct
      ≡ with_request true true bytes f construct
unfolding initialize construct
initialize-request bytes f = refl

-- What `GetFormat` writes where there is room for the largest format
get_format-writes :
    (size_allocated : ℕ) (b : DscBuffer)
    → b.wave_fmt.format.cb_size ≤ 22
    → sizeof_extensible ≤ size_allocated
    → ((get_format true size_allocated true b).hr ≡ ds_ok)
      × ((get_format true size_allocated true b).written ≡ some b.wave_fmt)
unfolding get_format
get_format-writes size_allocated b h k = (ground arith, ground arith)

-- A capture buffer was initialized, with any format and any answers. `GetFormat` with room for the
-- largest format succeeds, and `Initialize` of a new buffer with the format that it writes and the same
-- size gives the same buffer and opens the same device, where memory and a device can be had.
pub get_format-initialize :
    (allocates opens : Bool) (desc : CaptureDesc) (size_allocated : ℕ) {b : DscBuffer}
    {call : Option OpenCall}
    → initialize allocates opens desc construct ≡ (ds_ok, b, call)
    → sizeof_extensible ≤ size_allocated
    → let a = get_format true size_allocated true b in
      (a.hr ≡ ds_ok)
      × (initialize true true (request_of b.ring.size a.written) construct ≡ (ds_ok, b, call))
get_format-initialize allocates opens desc size_allocated {b} {call} h room =
    let (f, given, c) = initialize-Chosen allocates opens desc h in
    let t = stored-IsStable f c.stored c.al c.numbers c.chosen in
    let (again, same, size) =
      open_storage-again allocates opens desc.buffer_bytes c.al (with_format c.stored construct)
        c.done in
    let small : b.wave_fmt.format.cb_size ≤ 22 = rw same t.small in
    let (ok, written) = get_format-writes size_allocated b small room in
    let format = written ∙ ap some same in
    (
      ok,
      ap (λ r. initialize true true r construct) (λ i. request_of (size i) (format i))
          ∙ initialize-request desc.buffer_bytes c.stored
          ∙ with_request-stable desc.buffer_bytes c.al c.stored t
          ∙ again,
    )
