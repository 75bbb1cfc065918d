-- ===== src/Device/Tests.antt =====
-- A device that opens with 256 sources, the result of `Device.Share` on it, and a list of two
-- open devices.
use dsoal.Prelude.{◌≡◌, refl, arith, true, pos, some, none, List, [], ◌∷◌}
use dsoal.Win.{value}
use dsoal.SharedBuffer.Tests.{all_exts}
use dsoal.Device.{SharedDevice}
use dsoal.Device.Sharing.{
  Entry, get_by_id, ref_at, count_down, dispose, release_back, Away, IsSharing, get_by_id-release,
  get_by_id_dangles,
}
use dsoal.Device.Share.{Opened, create_device_share, IsShare, create_device_share-IsShare}

abbrev pub answers : Opened
answers = record {
  named = true;
  opens = true;
  extensions = all_exts;
  num_mono = pos 255;
  num_stereo = pos 1;
  refresh = pos 150;
  speaker_config = 7;
}

abbrev pub share : SharedDevice
share = record {
  max_hw_sources = 64;
  max_sw_sources = 192;
  current_hw_sources = 0;
  current_sw_sources = 0;
  extensions = all_exts;
  refresh = 100;
  speaker_config = 7;
}

pub opened : create_device_share answers ≡ value share
unfolding create_device_share
opened = refl

create_device_share-IsShare_example : IsShare answers share
create_device_share-IsShare_example =
    create_device_share-IsShare answers (omega arith) (omega arith) opened

-- Two devices, the first one with one reference
abbrev sharing : List Entry
sharing =
    record { address = 5; id = 70; ref = 1; device = share }
    ∷ record { address = 6; id = 80; ref = 2; device = share }
    ∷ []

sharing-IsSharing : IsSharing sharing
unfolding IsSharing Away
sharing-IsSharing = (omega arith, omega arith, ((λ e. cc), tt), (omega arith, omega arith, tt, tt))

nine-Away : Away 9 sharing
unfolding Away
nine-Away = ((λ e. cc), ((λ e. cc), tt))

one_held : ref_at 5 sharing ≡ some 1
unfolding ref_at
one_held = refl

found : (get_by_id (value share) 9 70 sharing).0 ≡ value 5
unfolding get_by_id
found = refl

get_by_id-release_example : release_back (get_by_id (value share) 9 80 sharing) ≡ sharing
get_by_id-release_example = get_by_id-release (value share) 9 80 sharing sharing-IsSharing nine-Away

get_by_id_dangles_example :
    let es' = count_down 5 sharing in
    let r = get_by_id (value share) 9 70 es' in
    (ref_at 5 es' ≡ some 0) × (r.0 ≡ value 5) × (ref_at 5 (dispose 5 r.1) ≡ none)
get_by_id_dangles_example =
    get_by_id_dangles (value share) 9 70 5 sharing sharing-IsSharing (λ e. cc) one_held found
