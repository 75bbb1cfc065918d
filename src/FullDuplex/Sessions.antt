-- ===== src/FullDuplex/Sessions.antt =====
-- The two objects and the two buffers that a full duplex object hands out.
use dsoal.Prelude.{
  ◌≡◌, ◌≢◌, ◌<◌, refl, sym, ap, ◌∙◌, arith, Bool, true, false, Option, none, some, pos_part,
  Option-cases, Bool-cases, inl, inr,
}
use dsoal.Win.{Hresult, ds_ok, e_nointerface, failed, Expected, value, unexpected}
use dsoal.Al.{Floats}
use dsoal.Device.Share.{Opened, create_device_share}
use dsoal.Buffer.Setup.Ready.{IsFloat, Fits}
use dsoal.Buffer.Playback.Progress.{succeeded}
use mathlib.Core.Path.{subst}
use dsoal.Buffer.{Buffer}
use dsoal.Buffer.References.{query_interface, interface_of}
use dsoal.Primary.References as PrimaryReferences
use dsoal.Capture.Setup.{CaptureDesc, DscBuffer, OpenCall, construct}
use dsoal.Capture.Setup as Setup
use dsoal.Capture.Setup.Ready.{IsReady}
use dsoal.Capture.Setup.Sessions as Captures
use dsoal.Capture.Object.{name_device, initialized, create_capture_buffer}
use dsoal.DSound8.{Pointer, DSound8, deref}
use dsoal.DSound8.Level.{set_cooperative_level}
use dsoal.DSound8.Creation.{Made, BufferPointer, primary, secondary, create_sound_buffer}
use dsoal.DSound8.Opening.{open_object}
use dsoal.DSound8.Clients.{perform, create, set_level, made_object}
use dsoal.DSound8.Clients.Usable.{IsSession}
use dsoal.DSound8.Clients.Reachable.{Reach, opened, later, Reach-IsSession}
use dsoal.FullDuplex.{
  FullDuplex, Asked, Answers, empty, returned, drop_local, query_8, hand_out, with_made,
  with_object, initialize,
}

initialized-Reach :
    (allocates opens : Bool) (desc : CaptureDesc) {c : DscBuffer} {hr : Hresult}
    {call : Option OpenCall}
    → initialized allocates opens desc ≡ (hr, some c, call)
    → Captures.Reach c
unfolding initialized
initialized-Reach allocates opens desc {c} h =
    let r = Setup.initialize allocates opens desc construct in
    elim (Bool-cases (failed r.0)) [
      | inl bad ↦ absurd (ground arith)
      | inr good ↦
          (let ok = succeeded r.0 good in
            let same : r.1 ≡ c = ground arith in
            Captures.opened allocates opens desc (λ i. (ok i, same i, r.2)))
    ]

created-Reach :
    (allocates opens : Bool) (desc : Option CaptureDesc) {c : DscBuffer} {hr : Hresult}
    {call : Option OpenCall}
    → create_capture_buffer allocates opens true false desc ≡ (hr, some c, call)
    → Captures.Reach c
unfolding create_capture_buffer
created-Reach allocates opens none h = cc
created-Reach allocates opens (some desc) h = initialized-Reach allocates opens desc h

module _ (fl : Floats) where
  open fl use {D3dValue}

  -- The buffer behind a pointer that has IDirectSoundBuffer8
  pub record Newer (p : BufferPointer) (s : DSound8 D3dValue) : Type 0 where
    pub slot : Pointer
    pub is_secondary : p ≡ secondary slot
    pub buffer : Buffer D3dValue
    pub there : deref slot s.secondary_buffers ≡ some buffer
    pub is_8 : buffer.is_8 ≡ true

  -- What is handed out, and the creations that it comes from
  pub record Pairs (asked : Asked) (a : Answers D3dValue) (fd : FullDuplex D3dValue)
      (p : BufferPointer) (c : DscBuffer) : Type 0 where
    pub before : DSound8 D3dValue
    pub reached_before : Reach fl before
    pub made : Made D3dValue
    pub creates : create_sound_buffer fl a.outside true false asked.desc before ≡ some made
    pub hands : made.made ≡ some p
    pub newer : Newer p made.object
    pub holds : fd ≡ record { ds8 = some made.object; dsc = true }
    pub reached : Reach fl made.object
    pub session : IsSession fl made.object
    pub captured :
        (create_capture_buffer a.capture_allocates a.capture_opens true false asked.capture_desc).1
        ≡ some c
    pub captures : Captures.Reach c
    pub ready : IsReady c

  returned-apart :
      (hr : Hresult) (o : Option (FullDuplex D3dValue)) {r : Hresult} {fd : FullDuplex D3dValue}
      {b : BufferPointer × DscBuffer}
      → returned hr o ≢ some (r, fd, some b)
  returned-apart hr none h = cc
  returned-apart hr (some x) h = cc

  -- A secondary buffer has IDirectSoundBuffer8 if it is one of an IDirectSound8, a primary one never.
  query_8-Newer :
      (p : BufferPointer) (s : DSound8 D3dValue) {hr : Hresult}
      → query_8 fl p s ≡ some hr
      → failed hr ≡ false
      → Newer p s
  unfolding query_8 query_interface interface_of PrimaryReferences.query_interface
      PrimaryReferences.interface_of
  query_8-Newer primary s {hr} h good =
      let bad : e_nointerface ≡ hr = ground arith in absurd (cc (rw (← bad) at good))
  query_8-Newer (secondary q) s {hr} h good = elim (Option-cases (deref q s.secondary_buffers)) [
    | inl e ↦ absurd (cc (rw (e, query_8) at h))
    | inr (b, e) ↦ elim (Bool-cases b.is_8) [
      | inl eight ↦ record { slot = q; is_secondary = refl; buffer = b; there = e; is_8 = eight }
      | inr older ↦ absurd (
          let bad : e_nointerface ≡ hr = cc (rw (e, older, query_8) at h) in
          cc (rw (← bad) at good))
    ]
  ]

  -- What `hand_out` hands out where it succeeds
  record Handed (q : Option BufferPointer) (o : Option DscBuffer) (s : DSound8 D3dValue)
      (fd : FullDuplex D3dValue) (p : BufferPointer) (c : DscBuffer) : Type 0 where
    hands : q ≡ some p
    captured : o ≡ some c
    holds : fd ≡ record { ds8 = some s; dsc = true }
    newer : Newer p s

  hand_out-Handed :
      (q : Option BufferPointer) (o : Option DscBuffer) (s : DSound8 D3dValue)
      {fd : FullDuplex D3dValue} {p : BufferPointer} {c : DscBuffer}
      → hand_out fl q o s ≡ some (ds_ok, fd, some (p, c))
      → Handed q o s fd p c
  unfolding hand_out
  hand_out-Handed none o s h = cc
  hand_out-Handed (some q) none s h = cc
  hand_out-Handed (some q) (some d) s {fd} {p} {c} h = elim (Option-cases (query_8 fl q s)) [
    | inl e ↦ absurd (ground arith)
    | inr (hr, e) ↦ elim (Bool-cases (failed hr)) [
      | inl bad ↦ absurd (
          returned-apart hr (drop_local fl (some q) (record { ds8 = some s; dsc = true }))
            {r = ds_ok} {fd = fd} {b = (p, c)} (ground arith))
      | inr good ↦
          (let same : q ≡ p = ground arith in
            record {
              hands = ap some same;
              captured = ground arith;
              holds = ground arith;
              newer = subst (λ x. Newer x s) same (query_8-Newer q s e good);
            })
    ]
  ]

  with_made-Pairs :
      (asked : Asked) (a : Answers D3dValue) (s : DSound8 D3dValue) (m : Made D3dValue)
      {fd : FullDuplex D3dValue} {p : BufferPointer} {c : DscBuffer}
      → IsFloat fl
      → Reach fl s
      → create_sound_buffer fl a.outside true false asked.desc s ≡ some m
      → Reach fl m.object
      → with_made fl asked a m ≡ some (ds_ok, fd, some (p, c))
      → Pairs asked a fd p c
  unfolding with_made
  with_made-Pairs asked a s m {fd} {p} {c} fv before creates r h =
      let named = name_device asked.capture_id a.found a.text false in
      let created =
        create_capture_buffer a.capture_allocates a.capture_opens true false asked.capture_desc in
      elim (Bool-cases (failed m.hr)) [
        | inl bad ↦ absurd (ground arith)
        | inr made ↦ elim (Bool-cases (failed named.0)) [
          | inl bad ↦ absurd (
              returned-apart named.0 (drop_local fl m.made empty) {r = ds_ok} {fd = fd} {b = (p, c)}
                (ground arith))
          | inr known ↦ elim (Bool-cases (failed created.0)) [
            | inl bad ↦ absurd (
                returned-apart created.0 (drop_local fl m.made empty) {r = ds_ok} {fd = fd}
                  {b = (p, c)} (ground arith))
            | inr good ↦
                (let v = hand_out-Handed m.made created.1 m.object (ground arith) in
                  let captures =
                    created-Reach a.capture_allocates a.capture_opens asked.capture_desc {c = c}
                      {hr = created.0} {call = created.2}
                      (λ i. (created.0, v.captured i, created.2)) in
                  record {
                    before = s;
                    reached_before = before;
                    made = m;
                    creates = creates;
                    hands = v.hands;
                    newer = v.newer;
                    holds = v.holds;
                    reached = r;
                    session = Reach-IsSession fl fv r;
                    captured = v.captured;
                    captures = captures;
                    ready = Captures.Reach-IsReady captures;
                  })
          ]
        ]
      ]

  with_object-Pairs :
      (asked : Asked) (a : Answers D3dValue) (s : DSound8 D3dValue) {fd : FullDuplex D3dValue}
      {p : BufferPointer} {c : DscBuffer}
      → IsFloat fl
      → a.level_given.new_source ≢ 0
      → a.outside.given.new_source ≢ 0
      → a.outside.allocates ≡ true
      → Fits asked.desc
      → Reach fl s
      → with_object fl asked a s ≡ some (ds_ok, fd, some (p, c))
      → Pairs asked a fd p c
  unfolding with_object perform
  with_object-Pairs asked a s {fd} {p} {c} fv hl hg ha hf r h =
      let l = set_cooperative_level fl a.level_given a.level_storage a.views asked.level s in
      let levelled : Reach fl l.1 =
        later (set_level a.level_given a.level_storage a.views asked.level) r hl refl in
      elim (Bool-cases (failed l.0)) [
        | inl bad ↦ absurd (ground arith)
        | inr good ↦
            elim (Option-cases (create_sound_buffer fl a.outside true false asked.desc l.1)) [
              | inl e ↦ absurd (ground arith)
              | inr (m, e) ↦
                  with_made-Pairs asked a l.1 m fv levelled e
                    (later (create a.outside true false asked.desc) levelled (hg, ha, hf)
                      (ap (made_object fl) e))
                    (ground arith)
            ]
      ]

  opened-Pairs :
      (asked : Asked) (a : Answers D3dValue) (o : Opened) (e : Expected (DSound8 D3dValue))
      {fd : FullDuplex D3dValue} {p : BufferPointer} {c : DscBuffer}
      → IsFloat fl
      → pos_part o.num_mono < 2147483648
      → pos_part o.num_stereo < 2147483648
      → a.share ≡ create_device_share o
      → a.level_given.new_source ≢ 0
      → a.outside.given.new_source ≢ 0
      → a.outside.allocates ≡ true
      → Fits asked.desc
      → open_object fl a.allocates true a.share ≡ e
      → initialize fl asked a empty ≡ some (ds_ok, fd, some (p, c))
      → Pairs asked a fd p c
  unfolding initialize
  opened-Pairs asked a o (unexpected hr) {fd} {p} {c} fv hm hs share hl hg ha hf e h =
      absurd (ground arith)
  opened-Pairs asked a o (value s) {fd} {p} {c} fv hm hs share hl hg ha hf e h =
      with_object-Pairs asked a s fv hl hg ha hf
        (opened a.allocates true o hm hs (ap (open_object fl a.allocates true) (sym share) ∙ e))
        (ground arith)

  -- A full duplex object whose `Initialize` succeeds, with a device as `CreateDeviceShare` makes it
  -- from OpenAL's answers, and with memory for a group of buffers: it holds a sound object that clients
  -- can reach, which is a session, and a capture object. It hands out the pointer that
  -- `CreateSoundBuffer`, asked for the given description, made in that sound object: it leads to a
  -- secondary buffer there, one of an IDirectSound8. And it hands out the capture buffer that
  -- `CreateCaptureBuffer` made of its description, one that clients can reach and that can capture. The
  -- device has no other sound object. The numbers of the request have
  -- the widths of their fields, OpenAL makes no source 0, its counts of sources are `int`s, and the
  -- floats 1 and 1000000000 are not negative.
  pub initialize-Pairs :
      (asked : Asked) (a : Answers D3dValue) (o : Opened) {fd : FullDuplex D3dValue}
      {p : BufferPointer} {c : DscBuffer}
      → IsFloat fl
      → pos_part o.num_mono < 2147483648
      → pos_part o.num_stereo < 2147483648
      → a.share ≡ create_device_share o
      → a.level_given.new_source ≢ 0
      → a.outside.given.new_source ≢ 0
      → a.outside.allocates ≡ true
      → Fits asked.desc
      → initialize fl asked a empty ≡ some (ds_ok, fd, some (p, c))
      → Pairs asked a fd p c
  initialize-Pairs asked a o fv hm hs share hl hg ha hf h =
      opened-Pairs asked a o (open_object fl a.allocates true a.share) fv hm hs share hl hg ha hf
        refl h
