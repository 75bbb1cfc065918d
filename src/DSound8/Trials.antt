-- ===== src/DSound8/Trials.antt =====
-- A sound object whose counters agree, and the results of `DSound8.Level`, `DSound8.Creation` and
-- `DSound8.Opening` on it.
use dsoal.Prelude.{
  ℕ, ◌≡◌, ◌≢◌, ◌⊎◌, refl, arith, true, false, Bool, some, none, [], ◌∷◌, if◌then◌else◌,
}
use dsoal.Win.{value, invalid_call, failed, level_writeprimary}
use dsoal.SharedBuffer.{BufferDesc}
use dsoal.SharedBuffer.Tests.{storage, odd_request, stereo_16}
use dsoal.Device.Share.{create_device_share}
use dsoal.Device.Tests
use dsoal.Buffer.{Buffer}
use dsoal.Buffer.Playback.{get_status}
use dsoal.Buffer.Cursor.{SourceView}
use dsoal.Buffer.Tests.{naturals, device, playing, silent, given, wrapped_view}
use dsoal.Buffer.Setters.Tests.{naturals-IsFloat}
use dsoal.Pool.{BufferSubList, new_group, buffer_at, slot_of}
use dsoal.Pool.Sums.{pool_sum}
use dsoal.Primary.{construct}
use dsoal.Primary.Formats.Accepted.{IsStored}
use dsoal.DSound8.{Pointer, DSound8}
use dsoal.DSound8.Level.{plays, set_lost, set_cooperative_level}
use dsoal.DSound8.Level.Exclusive.{IsLevelled, set_cooperative_level-IsLevelled}
use dsoal.DSound8.Level.Entry.{Emulates, enter_writeprimary_lem, refused_level_loses}
use dsoal.DSound8.Creation.{Outside, create_sound_buffer}
use dsoal.DSound8.Creation.Counted.{IsCounted, Leaves}
use dsoal.DSound8.Creation.Calls.{create_sound_buffer-Leaves}
use dsoal.DSound8.Creation.Faults.{create_sound_buffer-total}
use dsoal.DSound8.Opening.{open_object}

abbrev first : Pointer
first = record { group = 0; slot = 0 }

-- One group of a silent and a playing buffer
abbrev group : BufferSubList (Buffer ℕ)
group = record { free_mask = false ∷ false ∷ []; buffers = some silent ∷ some playing ∷ [] }

abbrev pub object : DSound8 ℕ
object = record {
  shared = record device { current_hw_sources = 1; current_sw_sources = 0 };
  secondary_buffers = group ∷ [];
  buffers_3d = first ∷ [];
  notify_buffers = [];
  primary_buffer = construct naturals;
  prio_level = 2;
  is_8 = true;
}

stereo_16-IsStored : IsStored stereo_16
stereo_16-IsStored = ground arith

-- The device, whose one source in use is that of `playing`
pub object-IsLevelled : IsLevelled naturals 1 0 object
unfolding construct
object-IsLevelled = record {
  pool = (tt, tt);
  held = record { accounts = ground arith; held = tt; stored = stereo_16-IsStored };
  level = omega arith;
  emulates = λ _. refl;
}

pub object-IsCounted : IsCounted naturals object
unfolding pool_sum buffer_at slot_of
object-IsCounted = record {
  levelled = object-IsLevelled;
  live_3d = ((silent, refl), tt);
  live_notify = tt;
}

abbrev answers : ℕ → SourceView
answers _ = wrapped_view

set_cooperative_level-IsLevelled_example :
    IsLevelled naturals 1 0
      (set_cooperative_level naturals given storage answers level_writeprimary object).1
set_cooperative_level-IsLevelled_example =
    set_cooperative_level-IsLevelled naturals given storage answers level_writeprimary object 1 0
      naturals-IsFloat (λ e. cc) object-IsLevelled

enter_writeprimary_lem_example :
    let r = set_cooperative_level naturals given storage answers level_writeprimary object in
    ((r.0 ≡ invalid_call)
      × (r.1.prio_level ≡ 2)
      × ((k i : ℕ) × (b : Buffer ℕ) × (buffer_at k i object.secondary_buffers ≡ some b)
          × (plays answers b ≡ true)))
    ⊎ ((r.1.prio_level ≡ (if failed r.0 then 2 else level_writeprimary))
        × Emulates naturals given storage object r.0 r.1.primary_buffer
        × ((k i : ℕ) (b : Buffer ℕ)
            → buffer_at k i object.secondary_buffers ≡ some b
            → (plays answers b ≡ false)
              × (buffer_at k i r.1.secondary_buffers ≡ some (set_lost b))))
enter_writeprimary_lem_example =
    enter_writeprimary_lem naturals given storage answers object (tt, tt) (λ e. cc)

silent_rests : plays answers silent ≡ false
unfolding plays get_status
silent_rests = refl

playing_plays : plays answers playing ≡ true
unfolding plays get_status
playing_plays = refl

second_there : buffer_at 0 1 object.secondary_buffers ≡ some playing
unfolding buffer_at slot_of
second_there = refl

first_there : buffer_at 0 0 object.secondary_buffers ≡ some silent
unfolding buffer_at slot_of
first_there = refl

refused_level_loses_example :
    let r = set_cooperative_level naturals given storage answers level_writeprimary object in
    (r.0 ≡ invalid_call)
    × (r.1.prio_level ≡ 2)
    × (buffer_at 0 0 r.1.secondary_buffers ≡ some (set_lost silent))
refused_level_loses_example =
    refused_level_loses naturals given storage answers object silent playing (false ∷ [])
      (some playing ∷ []) [] 0 1 (tt, tt) (λ e. cc) refl silent_rests second_there playing_plays

abbrev pub request : BufferDesc
request = record odd_request { format = some stereo_16 }

abbrev pub outside : Bool → Outside ℕ
outside allocates = record { allocates = allocates; storage = storage; given = given }

create_sound_buffer-Leaves_example :
    Leaves naturals (create_sound_buffer naturals (outside true) true false (some request) object)
create_sound_buffer-Leaves_example =
    create_sound_buffer-Leaves naturals (outside true) true false (some request) object
      naturals-IsFloat (λ e. cc) (omega arith, omega arith) object-IsCounted

create_sound_buffer-total_example :
    create_sound_buffer naturals (outside true) true false (some request) object ≢ none
create_sound_buffer-total_example =
    create_sound_buffer-total naturals (outside true) true false (some request) object refl
      object-IsCounted

abbrev pub opened : DSound8 ℕ
opened = record {
  shared = Tests.share;
  secondary_buffers = new_group ∷ [];
  buffers_3d = [];
  notify_buffers = [];
  primary_buffer = construct naturals;
  prio_level = 0;
  is_8 = true;
}

pub opens : open_object naturals (λ _. true) true (create_device_share Tests.answers) ≡ value opened
unfolding open_object create_device_share
opens = refl
