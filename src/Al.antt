-- ===== src/Al.antt =====
-- The OpenAL side of the driver: the constants of AL/al.h and AL/alext.h that the code names, the
-- calls that it makes as values, and the floating-point operations as an interface.
-- `alGetErrorDirect` is no call here where its result is dropped; where it is read, it is an argument.
use dsoal.Prelude.{ℕ, Bool, true, false, ltb_ℤ, ℤ, pos, if◌then◌else◌}
use dsoal.Win.{volume_min}

-- `enum Extensions`, as the bits of `std::bitset<ExtensionCount>`
pub record Extensions : Type 0 where
  pub ext_eax : Bool
  pub ext_efx : Bool
  pub ext_float32 : Bool
  pub ext_mcformats : Bool
  pub ext_static_buffer : Bool
  pub soft_source_panning : Bool
  pub soft_source_spatialize : Bool

-- AL_INITIAL, AL_PLAYING, AL_PAUSED and AL_STOPPED
abbrev pub al_initial : ℕ
al_initial = 0x1011

abbrev pub al_playing : ℕ
al_playing = 0x1012

abbrev pub al_paused : ℕ
al_paused = 0x1013

abbrev pub al_stopped : ℕ
al_stopped = 0x1014

-- AL_FALSE and AL_TRUE
abbrev pub al_bool : Bool → ℕ
al_bool true = 1
al_bool false = 0

-- The AL_* names of the source parameters that the code sets.
pub data SourceParam : Type 0 where
  gain pitch position velocity direction rolloff_factor spatialize relative : SourceParam
  cone_inner_angle cone_outer_angle cone_outer_gain reference_distance max_distance : SourceParam
  panning_enabled pan looping buffer byte_offset : SourceParam

-- The AL_* names of the listener parameters that the code sets.
pub data ListenerParam : Type 0 where
  listener_gain listener_position listener_velocity meters_per_unit : ListenerParam

-- `D3DVALUE` is a C `float`: its type and operations are given from outside.
pub record Floats : Type 1 where
  pub D3dValue : Type 0
  pub zero_f : D3dValue
  pub one_f : D3dValue
  pub neg : D3dValue → D3dValue
  pub minus : D3dValue → D3dValue → D3dValue
  pub divided : D3dValue → D3dValue → D3dValue
  pub power : D3dValue → D3dValue → D3dValue
  pub of_long : ℤ → D3dValue
  -- `x >= 0.0f`
  pub nonneg : D3dValue → Bool
  -- `x < y`
  pub below : D3dValue → D3dValue → Bool
  -- FLT_MIN and FLT_MAX
  pub flt_min : D3dValue
  pub flt_max : D3dValue

-- A call on the context, with the source or buffer that it names.
pub data AlCall (F : Type 0) : Type 0 where
  gen_sources : ℕ → AlCall F
  delete_sources : ℕ → AlCall F
  source_f : ℕ → SourceParam → F → AlCall F
  source_3f : ℕ → SourceParam → F → F → F → AlCall F
  source_i : ℕ → SourceParam → ℕ → AlCall F
  source_play : ℕ → AlCall F
  source_pause : ℕ → AlCall F
  -- `EAXSetDirect` of EAXSOURCE_ACTIVEFXSLOTID to four null slots
  eax_null_slots : ℕ → AlCall F
  gen_buffers : ℕ → AlCall F
  buffer_data_static : ℕ → ℕ → ℕ → ℕ → AlCall F
  listener_f : ListenerParam → F → AlCall F
  listener_3f : ListenerParam → F → F → F → AlCall F
  -- AL_ORIENTATION, from six values
  listener_orientation : F → F → F → F → F → F → AlCall F
  speed_of_sound : F → AlCall F
  doppler_factor : F → AlCall F
  -- `alcSuspendContext` and `alcProcessContext`
  suspend_context process_context : AlCall F

module _ (fl : Floats) where
  open fl use {D3dValue, zero_f, power, divided, of_long}

  -- `mB_to_gain`
  unfoldable pub mb_to_gain : ℤ → D3dValue
  mb_to_gain millibels =
      if ltb_ℤ volume_min millibels
      then power (of_long (pos 10)) (divided (of_long millibels) (of_long (pos 2000)))
      else zero_f
