-- ===== src/Primary.antt =====
-- primarybuffer.h and primarybuffer.cpp: `PrimaryBuffer`, the one primary buffer of a sound object,
-- with the parameters of the 3D listener. Its operations are in the children.
pub mod Listener3d
pub mod Queries
pub mod Emulation
pub mod Formats
pub mod References
pub mod Calls
pub mod Tests
use dsoal.Prelude.{ℕ, Bool, true, false, ℤ, pos, Option, none}
use dsoal.Win.{WaveFormatExtensible, wave_format_pcm, none_set}
use dsoal.Al.{Floats}
use dsoal.Buffer.{Buffer, Vector}

-- `DS3DLISTENER`, without `dwSize`, which is constant in every stored value
pub record ListenerParams (F : Type 0) : Type 0 where
  pub position : Vector F
  pub velocity : Vector F
  pub orient_front : Vector F
  pub orient_top : Vector F
  pub distance_factor : F
  pub rolloff_factor : F
  pub doppler_factor : F

-- `enum DirtyFlags` of the listener, as the bits of a `std::bitset<FlagCount>`
pub record ListenerDirty : Type 0 where
  pub position : Bool
  pub velocity : Bool
  pub orientation : Bool
  pub distance_factor : Bool
  pub rolloff_factor : Bool
  pub doppler_factor : Bool

abbrev pub listener_clean : ListenerDirty
listener_clean = record {
  position = false;
  velocity = false;
  orientation = false;
  distance_factor = false;
  rolloff_factor = false;
  doppler_factor = false;
}

abbrev pub listener_all : ListenerDirty
listener_all = record {
  position = true;
  velocity = true;
  orientation = true;
  distance_factor = true;
  rolloff_factor = true;
  doppler_factor = true;
}

-- `PrimaryBuffer`, without its parent, context and mutex. `write_emu` is the secondary buffer that
-- emulates it at the level DSSCL_WRITEPRIMARY.
pub record PrimaryBuffer (F : Type 0) : Type 0 where
  pub total_ref : ℕ
  pub ds_ref : ℕ
  pub ds3d_ref : ℕ
  pub prop_ref : ℕ
  pub flags : ℕ
  pub volume : ℤ
  pub pan : ℤ
  pub immediate : ListenerParams F
  pub deferred : ListenerParams F
  pub dirty : ListenerDirty
  pub write_emu : Option (Buffer F)
  pub format : WaveFormatExtensible
  pub playing : Bool

module _ (fl : Floats) where
  open fl use {D3dValue, zero_f}

  zero_vector : Vector D3dValue
  zero_vector = record { x = zero_f; y = zero_f; z = zero_f }

  -- `DS3DLISTENER{}`
  zero_listener : ListenerParams D3dValue
  unfolding zero_vector
  zero_listener = record {
    position = zero_vector;
    velocity = zero_vector;
    orient_front = zero_vector;
    orient_top = zero_vector;
    distance_factor = zero_f;
    rolloff_factor = zero_f;
    doppler_factor = zero_f;
  }

  -- `PrimaryBuffer::PrimaryBuffer`, with the initializers of the members
  unfoldable pub construct : PrimaryBuffer D3dValue
  unfolding zero_listener
  construct = record {
    total_ref = 0;
    ds_ref = 0;
    ds3d_ref = 0;
    prop_ref = 0;
    flags = 0;
    volume = pos 0;
    pan = pos 0;
    immediate = zero_listener;
    deferred = zero_listener;
    dirty = listener_clean;
    write_emu = none;
    format = record {
      format = record {
        format_tag = wave_format_pcm;
        channels = 2;
        samples_per_sec = 44100;
        avg_bytes_per_sec = 176400;
        block_align = 4;
        bits_per_sample = 16;
        cb_size = 0;
      };
      valid_bits_per_sample = 0;
      channel_mask = 0;
      sub_format = none_set;
    };
    playing = false;
  }
