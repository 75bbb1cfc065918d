-- ===== src/Capture/Setup/Sessions.antt =====
-- The capture buffers that clients can reach: one that `Initialize` sets up, and what any sequence of
-- calls and of rounds of the capture thread makes of it.
use mathlib.Core.Path.{subst}
use dsoal.Prelude.{
  ℕ, ◌≡◌, refl, sym, ap, ◌∙◌, arith, Bool, true, Option, none, some, List, ℤ, Option-cases, inl,
  inr,
}
use dsoal.Win.{ds_ok, already_initialized, PositionNotify}
use dsoal.Notify.{accept_notifies}
use dsoal.Notify.Sorted.{IsOrdered, accept_notifies-IsOrdered}
use dsoal.Buffer.Cursor.{OutPointers}
use dsoal.Capture
use dsoal.Capture.{Capture, Round, round}
use dsoal.Capture.Ring.{round-Advances}
use dsoal.Capture.Locking
use dsoal.Capture.Setup.{CaptureDesc, DscBuffer, OpenCall, construct, initialize}
use dsoal.Capture.Setup.Ready.{IsReady, initialize-Opens}

-- A call of a client, or a round of the capture thread with what ALC_CAPTURE_SAMPLES answers
pub data Operation : Type 0 where
  initialize_again : Bool → Bool → CaptureDesc → Operation
  start_call : ℕ → Operation
  stop_call : Operation
  lock_call : OutPointers → ℕ → ℕ → ℕ → Operation
  unlock_call : ℕ → ℕ → Option ℕ → ℕ → Operation
  set_notifications : Option (List PositionNotify) → Operation
  thread_round : ℤ → Operation

-- The buffer with another ring
abbrev pub with_ring : DscBuffer → Capture → DscBuffer
with_ring b c = record b { ring = c }

-- What a round leaves
pub after_round : DscBuffer → Option Round → Option DscBuffer
after_round b none = none
after_round b (some r) = some (with_ring b r.capture)

-- The buffer after an operation; `none` is a round that does not end.
unfoldable pub perform : Operation → DscBuffer → Option DscBuffer
perform (initialize_again allocates opens desc) b = some (initialize allocates opens desc b).1
perform (start_call flags) b = some (with_ring b (Capture.start flags b.ring).1)
perform stop_call b = some (with_ring b (Capture.stop b.ring).1)
perform (lock_call out cursor bytes flags) b =
    some (with_ring b (Locking.lock out cursor bytes flags b.ring).2)
perform (unlock_call ofs1 bytes1 ptr2 bytes2) b =
    some (with_ring b (Locking.unlock ofs1 bytes1 ptr2 bytes2 b.ring).1)
perform (set_notifications ns) b =
    some (with_ring b (Capture.set_notification_positions ns b.ring).1)
perform (thread_round avails) b = after_round b (round avails b.ring)

-- The thread does rounds only while the buffer captures.
abbrev pub Permitted : Operation → DscBuffer → Type 0
Permitted (thread_round avails) b = b.ring.capturing ≡ true
Permitted _ b = Unit

-- A ring where only the flags and the notifications may differ
record Keeps (c c' : Capture) : Type 0 where
  same_size : c'.size ≡ c.size
  same_align : c'.block_align ≡ c.block_align
  same_rate : c'.samples_per_sec ≡ c.samples_per_sec
  same_pos : c'.write_pos ≡ c.write_pos
  ordered : IsOrdered c'.size c'.notifies

Keeps-IsReady : (b : DscBuffer) (c : Capture) → Keeps b.ring c → IsReady b → IsReady (with_ring b c)
Keeps-IsReady b c k v = record {
  device = v.device;
  ring = record {
    frames = v.ring.frames;
    at = v.ring.at;
    align_pos = rw (k.same_align) v.ring.align_pos;
    size_frames = rw (k.same_size, k.same_align) v.ring.size_frames;
    pos_at = rw (k.same_pos, k.same_align) v.ring.pos_at;
    at_in = v.ring.at_in;
    small = rw (k.same_size) v.ring.small;
  };
  same_align = k.same_align ∙ v.same_align;
  same_rate = k.same_rate ∙ v.same_rate;
  rate_low = rw (k.same_rate) v.rate_low;
  rate_high = rw (k.same_rate) v.rate_high;
  ordered = k.ordered;
}

start-Keeps :
    (flags : ℕ) (c : Capture) → IsOrdered c.size c.notifies → Keeps c (Capture.start flags c).1
unfolding Capture.start
start-Keeps flags c o = ground arith

stop-Keeps : (c : Capture) → IsOrdered c.size c.notifies → Keeps c (Capture.stop c).1
unfolding Capture.stop
stop-Keeps c o = ground arith

lock-Keeps :
    (out : OutPointers) (cursor bytes flags : ℕ) (c : Capture)
    → IsOrdered c.size c.notifies
    → Keeps c (Locking.lock out cursor bytes flags c).2
unfolding Locking.lock
lock-Keeps out cursor bytes flags c o = ground arith

unlock-Keeps :
    (ofs1 bytes1 : ℕ) (ptr2 : Option ℕ) (bytes2 : ℕ) (c : Capture)
    → IsOrdered c.size c.notifies
    → Keeps c (Locking.unlock ofs1 bytes1 ptr2 bytes2 c).1
unfolding Locking.unlock
unlock-Keeps ofs1 bytes1 ptr2 bytes2 c o = ground arith

notifications-Keeps :
    (ns : Option (List PositionNotify)) (c : Capture)
    → IsOrdered c.size c.notifies
    → Keeps c (Capture.set_notification_positions ns c).1
unfolding Capture.set_notification_positions
notifications-Keeps none c o = ground arith
notifications-Keeps (some ns) c o = elim (Option-cases (accept_notifies c.size ns)) [
  | inl e ↦ ground arith
  | inr (ms, e) ↦ (let t = (accept_notifies-IsOrdered c.size ns e).0 in ground arith)
]

initialize_again-same :
    (allocates opens : Bool) (desc : CaptureDesc) (b : DscBuffer)
    → b.device ≡ true
    → initialize allocates opens desc b ≡ (already_initialized, b, none)
unfolding initialize
initialize_again-same allocates opens desc b h = rw h refl

-- What an operation leaves
pub record Goes (o : Option DscBuffer) : Type 0 where
  pub after : DscBuffer
  pub no_fault : o ≡ some after
  pub ready : IsReady after

round-Goes : (avails : ℤ) (b : DscBuffer) → IsReady b → Goes (after_round b (round avails b.ring))
unfolding after_round
round-Goes avails b v =
    let a = round-Advances avails b.ring v.ring in
    let c = a.result.capture in
    rw (a.done, after_round)
      (record {
        after = with_ring b c;
        no_fault = refl;
        ready = record {
          device = v.device;
          ring = a.ring;
          same_align = ap (λ x. x.block_align) a.moved ∙ v.same_align;
          same_rate = ap (λ x. x.samples_per_sec) a.moved ∙ v.same_rate;
          rate_low = rw (a.moved) v.rate_low;
          rate_high = rw (a.moved) v.rate_high;
          ordered = rw (a.moved) v.ordered;
        };
      })

Keeps-Goes :
    (b : DscBuffer) (c : Capture) → IsReady b → Keeps b.ring c → Goes (some (with_ring b c))
Keeps-Goes b c v k = record {
  after = with_ring b c;
  no_fault = refl;
  ready = Keeps-IsReady b c k v;
}

pub perform-Goes : (op : Operation) (b : DscBuffer) → IsReady b → Goes (perform op b)
unfolding perform
perform-Goes (initialize_again allocates opens desc) b v =
    rw (initialize_again-same allocates opens desc b v.device)
      (record { after = b; no_fault = refl; ready = v })
perform-Goes (start_call flags) b v = Keeps-Goes b _ v (start-Keeps flags b.ring v.ordered)
perform-Goes stop_call b v = Keeps-Goes b _ v (stop-Keeps b.ring v.ordered)
perform-Goes (lock_call out cursor bytes flags) b v =
    Keeps-Goes b _ v (lock-Keeps out cursor bytes flags b.ring v.ordered)
perform-Goes (unlock_call ofs1 bytes1 ptr2 bytes2) b v =
    Keeps-Goes b _ v (unlock-Keeps ofs1 bytes1 ptr2 bytes2 b.ring v.ordered)
perform-Goes (set_notifications ns) b v = Keeps-Goes b _ v (notifications-Keeps ns b.ring v.ordered)
perform-Goes (thread_round avails) b v = round-Goes avails b v

pub data Reach : DscBuffer → Type 0 where
  opened :
      (allocates opens : Bool) (desc : CaptureDesc) {b : DscBuffer} {call : Option OpenCall}
      → initialize allocates opens desc construct ≡ (ds_ok, b, call)
      → Reach b
  later :
      (op : Operation) {b c : DscBuffer}
      → Reach b
      → Permitted op b
      → perform op b ≡ some c
      → Reach c

pub Reach-IsReady : {b : DscBuffer} → Reach b → IsReady b
Reach-IsReady (opened allocates opens desc h) = (initialize-Opens allocates opens desc h).ready
Reach-IsReady {b} (later op {b = before} r allowed h) =
    let g = perform-Goes op before (Reach-IsReady r) in
    let both : some g.after ≡ some b = sym g.no_fault ∙ h in
    let same : g.after ≡ b = cc in subst IsReady same g.ready

-- A capture buffer that was initialized, after any sequence of calls of its client, refused ones
-- included, and of rounds of the capture thread, each with any number of available frames and only
-- while the buffer captures: the storage is a ring of whole frames of the stored format with the
-- position at a frame, the notifications are in order and inside the storage, and every further call
-- and round ends and leads to such a buffer.
pub Reach-Goes :
    {b : DscBuffer}
    → Reach b
    → IsReady b
      × ((op : Operation) → Permitted op b → (c : DscBuffer) × (perform op b ≡ some c) × Reach c)
Reach-Goes {b} r = (
  Reach-IsReady r,
  λ op allowed.
      let g = perform-Goes op b (Reach-IsReady r) in
      (g.after, g.no_fault, later op r allowed g.no_fault),
)
