-- ===== src/Capture/Ring.antt =====
-- A round of the capture thread on a ring of whole frames, and the notifications that it signals.
use native.Mathlib.Nat.{mod-lt, mod-eq_of_lt, mod-eq-sub-mod}
use dsoal.Prelude.{
  ℕ, zero, suc, ◌+◌, ◌-◌, ◌*◌, ◌%◌, ◌≤◌, ◌<◌, ◌≡◌, refl, sym, ap, ◌∙◌, arith, false, some, List, [],
  ◌∷◌, All, ℤ, pos, negsuc, pos_part,
}
use dsoal.Win.{PositionNotify}
use dsoal.Notify.{signalled}
use dsoal.Capture.{Capture, Read, Round, read_frames, captured, idle, finish_round, round}
use dsoal.Capture.Reads.{Inside, total, loop-Loops}

-- The storage is `frames` whole frames, and the position is that of frame `at`.
pub record IsRing (c : Capture) : Type 0 where
  pub frames : ℕ
  pub at : ℕ
  pub align_pos : 0 < c.block_align
  pub size_frames : c.size ≡ frames * c.block_align
  pub pos_at : c.write_pos ≡ at * c.block_align
  pub at_in : at < frames
  pub small : c.size ≤ 2147483647

-- The position `n` frames on.
abbrev pub ahead : (c : Capture) → IsRing c → ℕ → ℕ
ahead c v n = (v.at + n) % v.frames * c.block_align

-- What a round does.
pub record Advances (avails : ℤ) (c : Capture) (v : IsRing c) : Type 0 where
  pub result : Round
  pub done : round avails c ≡ some result
  pub inside : All (Inside c.size c.block_align) result.reads
  pub all_read : total result.reads ≡ pos_part avails
  pub moved : result.capture ≡ record c { write_pos = ahead c v (pos_part avails) }
  pub ring : IsRing result.capture
  pub events :
      result.events ≡ signalled (captured c.write_pos (ahead c v (pos_part avails))) c.notifies

ring-loop :
    (k : ℕ) (c : Capture) (v : IsRing c)
    → (rs : List Read) × (read_frames (suc k) c.size c.block_align k c.write_pos
        ≡ some (ahead c v k, rs))
      × All (Inside c.size c.block_align) rs
      × (total rs ≡ k)
ring-loop k c v =
    let l =
      loop-Loops (suc k) v.frames c.block_align k v.at v.align_pos v.at_in
        (omega (arith, v.size_frames, v.small)) (omega arith) in
    (l.reads, rw (v.size_frames, v.pos_at) l.done, rw (v.size_frames) l.inside, l.all_read)

ahead-IsRing : (c : Capture) (v : IsRing c) (k : ℕ) → IsRing (record c { write_pos = ahead c v k })
ahead-IsRing c v k = record {
  frames = v.frames;
  at = (v.at + k) % v.frames;
  align_pos = v.align_pos;
  size_frames = v.size_frames;
  pos_at = refl;
  at_in = mod-lt (v.at + k) (omega (arith, v.at_in));
  small = v.small;
}

ahead-zero : (c : Capture) (v : IsRing c) → ahead c v 0 ≡ c.write_pos
ahead-zero c v =
    ap (λ n. n * c.block_align)
      (omega (arith, mod-eq_of_lt {n = v.at + 0} {m = v.frames} (omega (arith, v.at_in))))
    ∙ sym v.pos_at

captured-same : (w : ℕ) (n : PositionNotify) → captured w w n ≡ false
unfolding captured
captured-same w n = ground arith

signalled-none : (w : ℕ) (ns : List PositionNotify) → signalled (captured w w) ns ≡ []
unfolding signalled
signalled-none w [] = refl
signalled-none w (n ∷ ns) = rw (captured-same w n) (signalled-none w ns)

idle-Advances :
    (avails : ℤ) (c : Capture) (v : IsRing c)
    → pos_part avails ≡ 0
    → round avails c ≡ some (idle c)
    → Advances avails c v
unfolding idle
idle-Advances avails c v z e =
    let stays : ahead c v (pos_part avails) ≡ c.write_pos = ap (ahead c v) z ∙ ahead-zero c v in
    record {
      result = idle c;
      done = e;
      inside = tt;
      all_read = sym z;
      moved = λ i. record c { write_pos = sym stays i };
      ring = record {
        frames = v.frames;
        at = v.at;
        align_pos = v.align_pos;
        size_frames = v.size_frames;
        pos_at = v.pos_at;
        at_in = v.at_in;
        small = v.small;
      };
      events = sym (
          ap (λ w. signalled (captured c.write_pos w) c.notifies) stays
          ∙ signalled-none c.write_pos c.notifies);
    }

-- Whatever number of frames OpenAL has ready, also a negative or an enormous one, a round of the
-- capture thread ends. It reads that many frames (none of a negative number), only into the storage,
-- and the position goes forward by as many frames, round the end of the storage, which stays a ring of
-- whole frames.
pub round-Advances : (avails : ℤ) (c : Capture) (v : IsRing c) → Advances avails c v
unfolding round finish_round
round-Advances (negsuc n) c v = idle-Advances (negsuc n) c v refl refl
round-Advances (pos zero) c v = idle-Advances (pos 0) c v refl refl
round-Advances (pos (suc n)) c v =
    let (rs, done, inside, all) = ring-loop (suc n) c v in
    record {
      result = record {
        capture = record c { write_pos = ahead c v (suc n) };
        reads = rs;
        events = signalled (captured c.write_pos (ahead c v (suc n))) c.notifies;
      };
      done = rw done refl;
      inside = inside;
      all_read = all;
      moved = refl;
      ring = ahead-IsRing c v (suc n);
      events = refl;
    }

-- A round that reads exactly as many frames as the storage holds goes through every position, but
-- leaves the position where it was and signals no event.
pub round_misses :
    (c : Capture) (v : IsRing c)
    → (r : Round) × (round (pos v.frames) c ≡ some r)
      × (total r.reads ≡ v.frames)
      × (r.capture ≡ c)
      × (r.events ≡ [])
round_misses c v =
    let a = round-Advances (pos v.frames) c v in
    let back : ahead c v v.frames ≡ c.write_pos =
      ap (λ n. n * c.block_align)
        (omega (
          arith,
          mod-eq-sub-mod {n = v.at + v.frames} {m = v.frames} (omega arith),
          mod-eq_of_lt {n = v.at + v.frames - v.frames} {m = v.frames} (omega (arith, v.at_in)),
          v.at_in,
        ))
      ∙ sym v.pos_at in
    (
      a.result,
      a.done,
      a.all_read,
      a.moved ∙ (λ i. record c { write_pos = back i }),
      a.events
          ∙ ap (λ w. signalled (captured c.write_pos w) c.notifies) back
          ∙ signalled-none c.write_pos c.notifies,
    )
