-- ===== src/Primary/Emulation/Held.antt =====
-- The emulation of the primary buffer holds its source and its storage through every operation.
use dsoal.Prelude.{
  ℕ, ◌<◌, ◌≡◌, ◌≢◌, refl, arith, Bool, true, false, Option, none, some, List, if_both, Bool-cases,
  Option-cases, inl, inr, ℤ, not, ◌==◌, ◌++◌, if◌then◌else◌, ◌&&◌, ◌||◌, ltb, ltb_ℤ, ◌∙◌,
}
use dsoal.Win.{
  Hresult, ds_ok, invalid_param, already_initialized, control_unavail, caps_ctrlpan,
  prio_level_needed, failed, has, play_looping, level_priority, level_writeprimary,
  WaveFormatExtensible, wave_format_extensible, ext_extra_size, pan_left, pan_right,
}
use dsoal.Al.{Floats, Extensions}
use dsoal.Device.{SharedDevice}
use dsoal.SharedBuffer.{BufferDesc, Storage}
use dsoal.SharedBuffer.Created.{IsWhole}
use dsoal.Buffer.{Buffer, Outcome, none_any}
use dsoal.Buffer.Location.{Given, destroy}
use dsoal.Buffer.Location.Accounting.{Accounts, HasSource, release_loc-Accounts}
use dsoal.Buffer.Cursor.{SourceView, set_current_position}
use dsoal.Buffer.Playback.{PlayAnswers}
use dsoal.Buffer.Playback
use dsoal.Buffer.Playback.Progress.{play-Keeps, succeeded}
use dsoal.Buffer.Playback.Storage.{play-OnlyPlayed}
use dsoal.Buffer.Control
use dsoal.Buffer.Setup
use dsoal.Buffer.Setup.{Initialized}
use dsoal.Buffer.Setup.Ready.{loc_of, IsFloat, Starts, initialize-Starts}
use dsoal.Primary.{PrimaryBuffer}
use dsoal.Primary.Listener3d.{set_params}
use dsoal.Primary.Formats.{copy_format}
use dsoal.Primary.Formats.Accepted.{IsStored, copy_format_lem}
use dsoal.Primary.Emulation.{
  PrimaryOutcome, emu_desc, unchanged, emulated, stop, drop, destroy_write_emu, with_emu,
  create_write_emu, recreate_write_emu, set_up, bad_desc, initialize, play, set_pan, with_copy,
  set_format, is_there,
}

module _ (fl : Floats) where
  open fl use {D3dValue}

  -- The emulation, if there is one, has a source if it has a location, and a whole sample storage.
  abbrev pub Holds : Option (Buffer D3dValue) → Type 0
  Holds none = Unit
  Holds (some e) = HasSource e × IsWhole e.shared

  -- The counters agree with the locations of the emulation and of the other buffers, and the stored
  -- format is a good one.
  pub record IsHeld (hw sw : ℕ) (p : PrimaryBuffer D3dValue) (d : SharedDevice) : Type 0 where
    pub accounts : Accounts d hw sw (loc_of p.write_emu)
    pub held : Holds p.write_emu
    pub stored : IsStored p.format

  -- The same of what an operation leaves
  pub record Leaves (hw sw : ℕ) (o : PrimaryOutcome D3dValue) : Type 0 where
    pub state : IsHeld hw sw o.primary o.device

  drop-Accounts :
      (o : Option (Buffer D3dValue)) (d : SharedDevice) (hw sw : ℕ)
      → Accounts d hw sw (loc_of o)
      → Accounts (drop fl o d).0 hw sw none_any
  unfolding drop destroy
  drop-Accounts none d hw sw a = a
  drop-Accounts (some e) d hw sw a = (release_loc-Accounts e.loc_status d hw sw a).0

  pub destroy_write_emu-IsHeld :
      (p : PrimaryBuffer D3dValue) (d : SharedDevice) (hw sw : ℕ)
      → IsHeld hw sw p d
      → Leaves hw sw (destroy_write_emu fl p d)
  unfolding destroy_write_emu
  destroy_write_emu-IsHeld p d hw sw v = record {
    state = record {
      accounts = drop-Accounts p.write_emu d hw sw v.accounts;
      held = tt;
      stored = v.stored;
    };
  }

  -- A change of the emulation
  moves :
      (p : PrimaryBuffer D3dValue) (d : SharedDevice) (hw sw : ℕ)
      → IsStored p.format
      → p.write_emu ≡ none
      → Accounts d hw sw none_any
      → IsHeld hw sw p d
  moves p d hw sw v e a = record { accounts = rw e a; held = rw e tt; stored = v }

  with_emu-IsHeld :
      (r : Initialized D3dValue) (p : PrimaryBuffer D3dValue) (hw sw : ℕ)
      → p.write_emu ≡ none
      → IsStored p.format
      → Starts fl hw sw r
      → Leaves hw sw (with_emu fl r p)
  unfolding with_emu drop
  with_emu-IsHeld r p hw sw e v s = elim (Bool-cases (failed r.hr)) [
    | inl f ↦
        rw f (record {
          state = moves p _ hw sw v e (drop-Accounts r.buffer r.device hw sw s.accounts);
        })
    | inr f ↦
        (let (b, eb, t) = s.ready (succeeded r.hr f) in
          rw (f, e)
            (record {
              state = record {
                accounts = s.accounts;
                held = rw eb (t.source, t.whole);
                stored = v;
              };
            }))
  ]

  pub create_write_emu-IsHeld :
      (g : Given D3dValue) (st : Storage) (flags : ℕ) (p : PrimaryBuffer D3dValue)
      (d : SharedDevice) (hw sw : ℕ)
      → IsFloat fl
      → g.new_source ≢ 0
      → p.write_emu ≡ none
      → IsHeld hw sw p d
      → Leaves hw sw (create_write_emu fl g st flags p d)
  unfolding create_write_emu emu_desc
  create_write_emu-IsHeld g st flags p d hw sw fv hg e v = with_emu-IsHeld _ p hw sw e v.stored (
      initialize-Starts fl g st (some (emu_desc flags p.format)) false none d hw sw fv hg
        (omega arith, v.stored.word) tt (rw e at v.accounts))

  -- `createWriteEmu` that fails leaves none where there was none.
  pub create_write_emu_fails :
      (g : Given D3dValue) (st : Storage) (flags : ℕ) (p : PrimaryBuffer D3dValue)
      (d : SharedDevice)
      → p.write_emu ≡ none
      → (create_write_emu fl g st flags p d).hr ≢ ds_ok
      → (create_write_emu fl g st flags p d).primary.write_emu ≡ none
  unfolding create_write_emu with_emu
  create_write_emu_fails g st flags p d e =
      if_both (λ (o : PrimaryOutcome D3dValue). o.hr ≢ ds_ok → o.primary.write_emu ≡ none)
        (failed
          (Setup.initialize fl g st (some (emu_desc flags p.format)) (Setup.construct fl false none)
            d).hr)
        _ _ (λ _. e) (λ ne. absurd (ne refl))

  pub recreate_write_emu-IsHeld :
      (g : Given D3dValue) (st : Storage) (flags : ℕ) (p : PrimaryBuffer D3dValue)
      (d : SharedDevice) (hw sw : ℕ)
      → IsFloat fl
      → g.new_source ≢ 0
      → IsHeld hw sw p d
      → Leaves hw sw (recreate_write_emu fl g st flags p d)
  unfolding recreate_write_emu destroy_write_emu
  recreate_write_emu-IsHeld g st flags p d hw sw fv hg v =
      let o = destroy_write_emu fl p d in
      let w =
        create_write_emu-IsHeld g st flags o.primary o.device hw sw fv hg refl
          (destroy_write_emu-IsHeld p d hw sw v).state in
      record { state = w.state }

  set_up-IsHeld :
      (bs : List (Buffer D3dValue)) (flags : ℕ) (o : PrimaryOutcome D3dValue) (hw sw : ℕ)
      → Leaves hw sw o
      → Leaves hw sw (set_up fl bs flags o)
  unfolding set_up set_params
  set_up-IsHeld bs flags o hw sw v = record {
    state = record { accounts = v.state.accounts; held = v.state.held; stored = v.state.stored };
  }

  -- The same of an operation that returns at once
  refuses :
      (hr : Hresult) (p : PrimaryBuffer D3dValue) (d : SharedDevice) (hw sw : ℕ)
      → IsHeld hw sw p d
      → Leaves hw sw (unchanged hr p d)
  unfolding unchanged
  refuses hr p d hw sw v = record { state = v }

  pub initialize-IsHeld :
      (g : Given D3dValue) (st : Storage) (level : ℕ) (bs : List (Buffer D3dValue))
      (desc : Option BufferDesc) (p : PrimaryBuffer D3dValue) (d : SharedDevice) (hw sw : ℕ)
      → IsFloat fl
      → g.new_source ≢ 0
      → IsHeld hw sw p d
      → Leaves hw sw (initialize fl g st level bs desc p d)
  unfolding initialize
  initialize-IsHeld g st level bs none p d hw sw fv hg v = refuses invalid_param p d hw sw v
  initialize-IsHeld g st level bs (some desc) p d hw sw fv hg v =
      let w = recreate_write_emu-IsHeld g st desc.flags p d hw sw fv hg v in
      let P = Leaves hw sw in
      if_both P (bad_desc fl desc) _ _ (refuses invalid_param p d hw sw v) (
        if_both P (not (p.flags == 0)) _ _ (refuses already_initialized p d hw sw v) (
          if_both P (level == level_writeprimary) _ _
            (if_both P (failed (recreate_write_emu fl g st desc.flags p d).hr) _ _ w
              (set_up-IsHeld bs desc.flags _ hw sw w))
            (set_up-IsHeld bs desc.flags _ hw sw (refuses ds_ok p d hw sw v))))

  -- Below DSSCL_WRITEPRIMARY, `Initialize` leaves the emulation alone.
  pub initialize_below :
      (g : Given D3dValue) (st : Storage) (level : ℕ) (bs : List (Buffer D3dValue))
      (desc : Option BufferDesc) (p : PrimaryBuffer D3dValue) (d : SharedDevice)
      → level ≢ level_writeprimary
      → (initialize fl g st level bs desc p d).primary.write_emu ≡ p.write_emu
  unfolding initialize unchanged set_up set_params
  initialize_below g st level bs none p d ne = refl
  initialize_below g st level bs (some desc) p d ne =
      let e : (level == level_writeprimary) ≡ false = ground arith in
      let P = λ (o : PrimaryOutcome D3dValue). o.primary.write_emu ≡ p.write_emu in
      rw e (if_both P (bad_desc fl desc) _ _ refl (if_both P (not (p.flags == 0)) _ _ refl refl))

  -- What `IsHeld` looks at
  pub same-IsHeld :
      {p p' : PrimaryBuffer D3dValue} {d : SharedDevice} {hw sw : ℕ}
      → p'.write_emu ≡ p.write_emu
      → p'.format ≡ p.format
      → IsHeld hw sw p d
      → IsHeld hw sw p' d
  same-IsHeld e f v = record {
    accounts = rw e v.accounts;
    held = rw e v.held;
    stored = rw f v.stored;
  }

  emulated-IsHeld :
      (p : PrimaryBuffer D3dValue) (plays : Bool) (e : Buffer D3dValue) (o : Outcome D3dValue)
      (hw sw : ℕ)
      → IsStored p.format
      → IsWhole e.shared
      → o.buffer.shared ≡ e.shared
      → HasSource o.buffer
      → Accounts o.device hw sw o.buffer.loc_status
      → Leaves hw sw (emulated p plays o)
  unfolding emulated
  emulated-IsHeld p plays e o hw sw v w same s a = record {
    state = record { accounts = a; held = (s, rw same w); stored = v };
  }

  pub play-IsHeld :
      (g : Given D3dValue) (x : PlayAnswers) (reserved2 flags : ℕ) (p : PrimaryBuffer D3dValue)
      (d : SharedDevice) (hw sw : ℕ)
      → g.new_source ≢ 0
      → IsHeld hw sw p d
      → Leaves hw sw (play fl g x reserved2 flags p d)
  unfolding play
  play-IsHeld g x reserved2 flags p d hw sw hg v =
      if_both (Leaves hw sw) (not (has flags play_looping)) _ _ (refuses invalid_param p d hw sw v)
        (elim (Option-cases p.write_emu) [
          | inl gone ↦ rw gone (record {
            state = record { accounts = v.accounts; held = v.held; stored = v.stored };
          })
          | inr (e, there) ↦
              (let (s, w) = rw (there, Holds) at v.held in
                let k = play-Keeps fl g x reserved2 flags e d hw sw hg s (rw there at v.accounts) in
                rw there (
                  emulated-IsHeld p true e (Playback.play fl g x reserved2 flags e d) hw sw v.stored
                    w (play-OnlyPlayed fl g x reserved2 flags e d).same_shared k.source k.accounts))
        ])

  -- `SetCurrentPosition` and `SetPan` leave the storage, the source and the location.
  abbrev Stays : Buffer D3dValue → Buffer D3dValue → Type 0
  Stays b b' = (b'.shared ≡ b.shared) × (b'.source ≡ b.source) × (b'.loc_status ≡ b.loc_status)

  set_pan-Stays :
      (exts : Extensions) (pan : ℤ) (b : Buffer D3dValue)
      → Stays b (Control.set_pan fl exts pan b).1
  unfolding Control.set_pan
  set_pan-Stays exts pan b = ground arith

  set_current_position-Stays : (n : ℕ) (b : Buffer D3dValue) → Stays b (set_current_position n b).1
  unfolding set_current_position
  set_current_position-Stays n b = ground arith

  stop-Stays :
      (x : SourceView) (b : Buffer D3dValue) (d : SharedDevice)
      → Stays b (Playback.stop x b d).buffer × ((Playback.stop x b d).device ≡ d)
  unfolding Playback.stop Playback.refused
  stop-Stays x b d = ground arith

  -- What `Stop` makes of an emulation
  stopped : SourceView → Buffer D3dValue → SharedDevice → Outcome D3dValue
  stopped x e d =
      let o = Playback.stop x e d in
      let (hr, e', calls) = set_current_position 0 o.buffer in
      if failed o.hr then o else record o { buffer = e'; calls = o.calls ++ calls }

  stopped-Stays :
      (x : SourceView) (e : Buffer D3dValue) (d : SharedDevice)
      → Stays e (stopped x e d).buffer × ((stopped x e d).device ≡ d)
  unfolding stopped
  stopped-Stays x e d =
      ground (arith, stop-Stays x e d, set_current_position-Stays 0 (Playback.stop x e d).buffer)

  pub stop-IsHeld :
      (x : SourceView) (p : PrimaryBuffer D3dValue) (d : SharedDevice) (hw sw : ℕ)
      → IsHeld hw sw p d
      → Leaves hw sw (stop x p d)
  unfolding stop stopped
  stop-IsHeld x p d hw sw v = elim (Option-cases p.write_emu) [
    | inl gone ↦ rw gone (record {
      state = record { accounts = rw gone at v.accounts; held = tt; stored = v.stored };
    })
    | inr (e, there) ↦
        (let (s, w) = rw (there, Holds) at v.held in
          let ((h1, h2, h3), hd) = stopped-Stays x e d in
          rw there (
            emulated-IsHeld p false e (stopped x e d) hw sw v.stored w h1
              (λ ne. rw h2 (s (λ l. ne (h3 ∙ l)))) (rw (h3, hd) (rw there at v.accounts))))
  ]

  pub set_pan-IsHeld :
      (pan : ℤ) (p : PrimaryBuffer D3dValue) (d : SharedDevice) (hw sw : ℕ)
      → IsHeld hw sw p d
      → Leaves hw sw (set_pan fl pan p d)
  unfolding set_pan
  set_pan-IsHeld pan p d hw sw v =
      if_both (Leaves hw sw) (ltb_ℤ pan_right pan || ltb_ℤ pan pan_left) _ _
        (refuses invalid_param p d hw sw v)
        (if_both (Leaves hw sw) (not (has p.flags caps_ctrlpan)) _ _
          (refuses control_unavail p d hw sw v)
          (elim (Option-cases p.write_emu) [
            | inl gone ↦ rw gone (record {
              state = record { accounts = v.accounts; held = v.held; stored = v.stored };
            })
            | inr (e, there) ↦
                (let (s, w) = rw (there, Holds) at v.held in
                  let (h1, h2, h3) = set_pan-Stays d.extensions pan e in
                  rw there (record {
                    state = record {
                      accounts = rw h3 (rw there at v.accounts);
                      held = (λ ne. rw h2 (s (λ l. ne (h3 ∙ l))), rw h1 w);
                      stored = v.stored;
                    };
                  }))
          ]))

  with_copy-IsHeld :
      (g : Given D3dValue) (st : Storage) (r : Hresult × WaveFormatExtensible)
      (p : PrimaryBuffer D3dValue) (d : SharedDevice) (hw sw : ℕ)
      → IsFloat fl
      → g.new_source ≢ 0
      → IsStored r.1
      → IsHeld hw sw p d
      → Leaves hw sw (with_copy fl g st r p d)
  unfolding with_copy
  with_copy-IsHeld g st (hr, f) p d hw sw fv hg s v =
      let v' : IsHeld hw sw (record p { format = f }) d = record {
        accounts = v.accounts;
        held = v.held;
        stored = s;
      } in
      if_both (Leaves hw sw) (not (failed hr) && is_there p.write_emu) _ _
        (recreate_write_emu-IsHeld g st p.flags (record p { format = f }) d hw sw fv hg v')
        (refuses hr (record p { format = f }) d hw sw v')

  -- The numbers of a request are those of its fields' widths.
  abbrev pub Words : Option WaveFormatExtensible → Type 0
  Words none = Unit
  Words (some f) = f.format.block_align < 65536

  pub set_format-IsHeld :
      (g : Given D3dValue) (st : Storage) (level : ℕ) (f : Option WaveFormatExtensible)
      (p : PrimaryBuffer D3dValue) (d : SharedDevice) (hw sw : ℕ)
      → IsFloat fl
      → g.new_source ≢ 0
      → Words f
      → IsHeld hw sw p d
      → Leaves hw sw (set_format fl g st level f p d)
  unfolding set_format
  set_format-IsHeld g st level none p d hw sw fv hg hf v = refuses invalid_param p d hw sw v
  set_format-IsHeld g st level (some f) p d hw sw fv hg hf v =
      let stored : IsStored (copy_format f p.format).1 = elim (copy_format_lem f p.format hf) [
        | inl good ↦ good.1
        | inr bad ↦ rw (bad.1) v.stored
      ] in
      if_both (Leaves hw sw) (ltb level level_priority) _ _ (refuses prio_level_needed p d hw sw v)
        (if_both (Leaves hw sw)
          ((f.format.format_tag == wave_format_extensible) && ltb f.format.cb_size ext_extra_size) _
          _ (refuses ds_ok p d hw sw v)
          (with_copy-IsHeld g st (copy_format f p.format) p d hw sw fv hg stored v))
