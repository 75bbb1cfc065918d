-- ===== src/DSound8/Opening.antt =====
-- dsoundoal.cpp: `Initialize` of a sound object, and what it answers about its device.
use dsoal.Prelude.{
  ℕ, zero, suc, ◌+◌, ◌/◌, ◌%◌, ◌≡◌, ◌<◌, if_both, refl, arith, Bool, not, ◌&&◌, ◌||◌, List, [], ◌∷◌,
  ltb, ◌==◌, if◌then◌else◌, pos_part, none,
}
use dsoal.Win.{Hresult, ds_ok, invalid_param, Expected, value, unexpected, dword_sub}
use mathlib.Core.Path.{subst}
use dsoal.Al.{Floats}
use dsoal.Device.{SharedDevice}
use dsoal.Device.Share.{Opened, create_device_share, IsShare, create_device_share-IsShare}
use dsoal.Buffer.{Buffer}
use dsoal.Pool.{BufferSubList, new_group}
use dsoal.Pool.Groups.{IsPool}
use dsoal.Pool.Sums.{pool_sum, slots_sum-replicate}
use dsoal.Primary.{construct}
use dsoal.Primary.Formats.Accepted.{IsStored}
use dsoal.DSound8.{DSound8}
use dsoal.DSound8.Creation.Counted.{hw_of, sw_of, IsCounted}

module _ {A : Type 0} where
  -- The loop that preallocates groups, up to an allocation that does not give one; those of
  -- `std::allocator` always do, or throw.
  unfoldable pub preallocate : (ℕ → Bool) → ℕ → ℕ → List (BufferSubList A)
  unfolding new_group
  preallocate allocates i zero = []
  preallocate allocates i (suc n) =
      let rest = preallocate allocates (suc i) n in if allocates i then new_group ∷ rest else []

module _ {F : Type 0} where
  -- `GetCaps`: the numbers of "hardware" buffers, all and free
  pub get_caps : DSound8 F → ℕ × ℕ
  get_caps s =
      (s.shared.max_hw_sources, dword_sub s.shared.max_hw_sources s.shared.current_hw_sources)

  -- `GetSpeakerConfig`
  pub get_speaker_config : DSound8 F → ℕ
  get_speaker_config s = s.shared.speaker_config

  -- `SetSpeakerConfig`: DSSPEAKER_GEOMETRY is the third byte, from 5 to 180 if it is given, and
  -- DSSPEAKER_CONFIG the lowest, from DSSPEAKER_HEADPHONE to DSSPEAKER_5POINT1_SURROUND.
  pub set_speaker_config : ℕ → DSound8 F → Hresult
  set_speaker_config config s =
      let geo = config / 65536 % 256 in
      let speaker = config % 256 in
      if not (geo == 0) && (ltb geo 5 || ltb 180 geo)
      then invalid_param
      else if ltb speaker 1 || ltb 9 speaker
      then invalid_param
      else ds_ok

module _ (fl : Floats) where
  open fl use {D3dValue}

  -- `Initialize` of an object that has no device: the object with its device and the groups for as many
  -- buffers as there are "hardware" sources
  unfoldable pub open_object :
      (ℕ → Bool) → Bool → Expected SharedDevice → Expected (DSound8 D3dValue)
  unfolding preallocate
  open_object allocates is_8 (unexpected hr) = unexpected hr
  open_object allocates is_8 (value d) = value (record {
    shared = d;
    secondary_buffers = preallocate allocates 0 ((d.max_hw_sources + 63) / 64);
    buffers_3d = [];
    notify_buffers = [];
    primary_buffer = construct fl;
    prio_level = 0;
    is_8 = is_8;
  })

  preallocate-IsPool :
      (allocates : ℕ → Bool) (i n : ℕ) → IsPool {A = Buffer D3dValue} (preallocate allocates i n)
  unfolding preallocate new_group
  preallocate-IsPool allocates i zero = tt
  preallocate-IsPool allocates i (suc n) =
      if_both IsPool (allocates i) _ _ (tt, preallocate-IsPool allocates (suc i) n) tt

  preallocate-empty :
      (use_of : Buffer D3dValue → ℕ) (allocates : ℕ → Bool) (i n : ℕ)
      → pool_sum use_of (preallocate allocates i n) ≡ 0
  unfolding preallocate new_group pool_sum
  preallocate-empty use_of allocates i zero = refl
  preallocate-empty use_of allocates i (suc n) =
      if_both (λ gs. pool_sum use_of gs ≡ 0) (allocates i) _ _
        (omega (arith, slots_sum-replicate use_of 64, preallocate-empty use_of allocates (suc i) n))
        refl

  construct-IsStored : IsStored (construct fl).format
  unfolding construct
  construct-IsStored = ground arith

  construct-no_emu : (construct fl).write_emu ≡ none
  unfolding construct
  construct-no_emu = refl

  fresh-IsCounted :
      (allocates : ℕ → Bool) (is_8 : Bool) (o : Opened) (d : SharedDevice) (s : DSound8 D3dValue)
      → IsShare o d
      → open_object allocates is_8 (value d) ≡ value s
      → IsCounted fl s
  unfolding open_object
  fresh-IsCounted allocates is_8 o d s v h =
      let n = (d.max_hw_sources + 63) / 64 in
      let eh = preallocate-empty hw_of allocates 0 n in
      let es = preallocate-empty sw_of allocates 0 n in
      let s' : DSound8 D3dValue = record {
        shared = d;
        secondary_buffers = preallocate allocates 0 n;
        buffers_3d = [];
        notify_buffers = [];
        primary_buffer = construct fl;
        prio_level = 0;
        is_8 = is_8;
      } in
      let same : s' ≡ s = cc in
      let fresh : IsCounted fl s' = record {
        levelled = record {
          pool = preallocate-IsPool allocates 0 n;
          held = record {
            accounts = rw construct-no_emu (record {
              hw_count = omega (arith, eh, v.no_hw);
              sw_count = omega (arith, es, v.no_sw);
              hw_bound = omega (arith, v.no_hw);
              sw_bound = omega (arith, v.no_sw);
              hw_word = omega (arith, v.few_hw);
              sw_word = v.sw_word;
            });
            held = rw construct-no_emu tt;
            stored = construct-IsStored;
          };
          level = omega arith;
          emulates = λ _. construct-no_emu;
        };
        live_3d = tt;
        live_notify = tt;
      } in
      subst (IsCounted fl) same fresh

  opened-IsCounted :
      (allocates : ℕ → Bool) (is_8 : Bool) (o : Opened) (e : Expected SharedDevice)
      (s : DSound8 D3dValue)
      → pos_part o.num_mono < 2147483648
      → pos_part o.num_stereo < 2147483648
      → create_device_share o ≡ e
      → open_object allocates is_8 e ≡ value s
      → IsCounted fl s
  unfolding open_object
  opened-IsCounted allocates is_8 o (unexpected hr) s hm hs h k = cc
  opened-IsCounted allocates is_8 o (value d) s hm hs h k =
      fresh-IsCounted allocates is_8 o d s (create_device_share-IsShare o hm hs h) k

  -- A sound object that `Initialize` opens is one whose counters agree with the locations of its
  -- buffers, with no dangling pointer and no emulation, however many groups could be allocated.
  -- OpenAL's answers are `int`s.
  pub open_object-IsCounted :
      (allocates : ℕ → Bool) (is_8 : Bool) (o : Opened) {s : DSound8 D3dValue}
      → pos_part o.num_mono < 2147483648
      → pos_part o.num_stereo < 2147483648
      → open_object allocates is_8 (create_device_share o) ≡ value s
      → IsCounted fl s
  open_object-IsCounted allocates is_8 o {s} hm hs h =
      opened-IsCounted allocates is_8 o (create_device_share o) s hm hs refl h
