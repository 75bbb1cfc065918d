-- ===== src/DSound8/Clients/Tests.antt =====
-- Calls of clients on a sound object of one silent and one playing buffer, and on one that is opened.
use dsoal.Prelude.{ℕ, ◌≡◌, refl, arith, true, false, some, []}
use dsoal.Device.Tests
use dsoal.Buffer.{Buffer}
use dsoal.Buffer.Tests.{naturals, playing, silent, given, answers, wrapped_view}
use dsoal.Buffer.Setters.Tests.{playing-IsSpatial, naturals-IsFloat}
use dsoal.SharedBuffer.Tests.{made-IsWhole}
use dsoal.Pool.{buffer_at, slot_of}
use dsoal.DSound8.{Pointer, DSound8, deref}
use dsoal.DSound8.Trials.{object, object-IsCounted, opened, opens, outside, request}
use dsoal.DSound8.Clients.{Operation, perform, play, create}
use dsoal.DSound8.Clients.Usable.{IsUsable, IsSession}
use dsoal.DSound8.Clients.Creations.{Goes}
use dsoal.DSound8.Clients.Steps.{Permitted, perform-Goes}
use dsoal.DSound8.Clients.Reachable.{Reach, Reach-IsSession}

abbrev first : Pointer
first = record { group = 0; slot = 0 }

-- The object without a 3D buffer
abbrev plain : DSound8 ℕ
plain = record object { buffers_3d = [] }

playing-IsUsable : IsUsable naturals playing
playing-IsUsable = record {
  whole = made-IsWhole;
  source = λ h e. cc;
  located = λ h e. cc;
  spatial = playing-IsSpatial;
}

silent-IsUsable : IsUsable naturals silent
silent-IsUsable = record {
  whole = made-IsWhole;
  source = λ h. absurd (h refl);
  located = λ h e. cc;
  spatial = record {
    immediate = playing-IsSpatial.immediate;
    deferred = playing-IsSpatial.deferred;
  };
}

plain-IsSession : IsSession naturals plain
plain-IsSession = record {
  counted = record {
    levelled = record {
      pool = object-IsCounted.levelled.pool;
      held = object-IsCounted.levelled.held;
      level = object-IsCounted.levelled.level;
      emulates = object-IsCounted.levelled.emulates;
    };
    live_3d = tt;
    live_notify = tt;
  };
  usable = ((silent-IsUsable, (playing-IsUsable, tt)), tt);
  spatial = tt;
}

first-IsLive : (b : Buffer ℕ) × (deref first plain.secondary_buffers ≡ some b)
unfolding buffer_at slot_of
first-IsLive = (silent, refl)

-- The silent buffer, which has no source yet, is played in a loop.
abbrev looped : Operation naturals
looped = play first (λ _. wrapped_view) given answers 0 1

perform-Goes_example : Goes naturals (perform naturals looped plain)
perform-Goes_example =
    perform-Goes naturals looped plain naturals-IsFloat plain-IsSession ((λ e. cc), first-IsLive)

abbrev created : Operation naturals
created = create (outside true) true false (some request)

created-Permitted : Permitted naturals created opened
created-Permitted = ((λ e. cc), refl, (omega arith, omega arith))

opened-Reach : Reach naturals opened
opened-Reach = Reach.opened (λ _. true) true Tests.answers (omega arith) (omega arith) opens

abbrev created_goes : Goes naturals (perform naturals created opened)
created_goes =
    perform-Goes naturals created opened naturals-IsFloat
      (Reach-IsSession naturals naturals-IsFloat opened-Reach) created-Permitted

-- The object after the buffer is created
Reach-IsSession_example : IsSession naturals created_goes.after
Reach-IsSession_example =
    Reach-IsSession naturals naturals-IsFloat
      (Reach.later created opened-Reach created-Permitted created_goes.no_fault)
