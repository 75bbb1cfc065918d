-- ===== src/Primary/Emulation/Sessions.antt =====
-- Any sequence of operations of a primary buffer.
use dsoal.Prelude.{Option, ℕ, ◌≢◌, List, [], ◌∷◌, All, ℤ}
use dsoal.Win.{WaveFormatExtensible}
use dsoal.Al.{Floats}
use dsoal.Device.{SharedDevice}
use dsoal.SharedBuffer.{BufferDesc, Storage}
use dsoal.Buffer.{Buffer}
use dsoal.Buffer.Location.{Given}
use dsoal.Buffer.Cursor.{SourceView}
use dsoal.Buffer.Playback.{PlayAnswers}
use dsoal.Buffer.Setup.Ready.{IsFloat}
use dsoal.Primary.{PrimaryBuffer}
use dsoal.Primary.Emulation.{
  PrimaryOutcome, destroy_write_emu, recreate_write_emu, initialize, play, stop, set_pan,
  set_format,
}
use dsoal.Primary.Emulation.Held.{
  IsHeld, Leaves, destroy_write_emu-IsHeld, recreate_write_emu-IsHeld, initialize-IsHeld,
  play-IsHeld, stop-IsHeld, set_pan-IsHeld, set_format-IsHeld, Words,
}

module _ (fl : Floats) where
  open fl use {D3dValue}

  -- A call that can use the device, with what it gets from outside. The last two are what a change of
  -- the cooperative level does.
  pub data Operation : Type 0 where
    initialize_op :
        Given D3dValue → Storage → ℕ → List (Buffer D3dValue) → Option BufferDesc → Operation
    play_op : Given D3dValue → PlayAnswers → ℕ → ℕ → Operation
    stop_op : SourceView → Operation
    set_pan_op : ℤ → Operation
    set_format_op : Given D3dValue → Storage → ℕ → Option WaveFormatExtensible → Operation
    recreate_op : Given D3dValue → Storage → ℕ → Operation
    destroy_op : Operation

  unfoldable pub perform :
      Operation → PrimaryBuffer D3dValue → SharedDevice → PrimaryOutcome D3dValue
  perform (initialize_op g st level bs desc) p d = initialize fl g st level bs desc p d
  perform (play_op g a reserved2 flags) p d = play fl g a reserved2 flags p d
  perform (stop_op x) p d = stop x p d
  perform (set_pan_op pan) p d = set_pan fl pan p d
  perform (set_format_op g st level f) p d = set_format fl g st level f p d
  perform (recreate_op g st flags) p d = recreate_write_emu fl g st flags p d
  perform destroy_op p d = destroy_write_emu fl p d

  -- OpenAL makes no source 0, and a block alignment is a `WORD`.
  abbrev pub Genuine : Operation → Type 0
  Genuine (initialize_op g st level bs desc) = g.new_source ≢ 0
  Genuine (play_op g a reserved2 flags) = g.new_source ≢ 0
  Genuine (stop_op x) = Unit
  Genuine (set_pan_op pan) = Unit
  Genuine (set_format_op g st level f) = (g.new_source ≢ 0) × Words fl f
  Genuine (recreate_op g st flags) = g.new_source ≢ 0
  Genuine destroy_op = Unit

  -- The operations one after the other
  pub run :
      List Operation → PrimaryBuffer D3dValue → SharedDevice → PrimaryBuffer D3dValue × SharedDevice
  run [] p d = (p, d)
  run (op ∷ ops) p d = let o = perform op p d in run ops o.primary o.device

  pub perform-IsHeld :
      (op : Operation) (p : PrimaryBuffer D3dValue) (d : SharedDevice) (hw sw : ℕ)
      → IsFloat fl
      → Genuine op
      → IsHeld fl hw sw p d
      → Leaves fl hw sw (perform op p d)
  unfolding perform
  perform-IsHeld (initialize_op g st level bs desc) p d hw sw fv h v =
      initialize-IsHeld fl g st level bs desc p d hw sw fv h v
  perform-IsHeld (play_op g a reserved2 flags) p d hw sw fv h v =
      play-IsHeld fl g a reserved2 flags p d hw sw h v
  perform-IsHeld (stop_op x) p d hw sw fv h v = stop-IsHeld fl x p d hw sw v
  perform-IsHeld (set_pan_op pan) p d hw sw fv h v = set_pan-IsHeld fl pan p d hw sw v
  perform-IsHeld (set_format_op g st level f) p d hw sw fv h v =
      set_format-IsHeld fl g st level f p d hw sw fv h.0 h.1 v
  perform-IsHeld (recreate_op g st flags) p d hw sw fv h v =
      recreate_write_emu-IsHeld fl g st flags p d hw sw fv h v
  perform-IsHeld destroy_op p d hw sw fv h v = destroy_write_emu-IsHeld fl p d hw sw v

  -- Whatever sequence of calls to `Initialize`, `Play`, `Stop`, `SetPan`, `SetFormat` and of changes of
  -- the cooperative level a primary buffer gets, errors included: the device's counters go on agreeing
  -- with the location of its emulation beside what the other buffers use, within the device's limits;
  -- an emulation with a location has a source, and every emulation a whole sample storage; the stored
  -- format is one that `SetFormat` accepts.
  pub run-IsHeld :
      (ops : List Operation) (p : PrimaryBuffer D3dValue) (d : SharedDevice) (hw sw : ℕ)
      → IsFloat fl
      → All Genuine ops
      → IsHeld fl hw sw p d
      → IsHeld fl hw sw (run ops p d).0 (run ops p d).1
  unfolding run
  run-IsHeld [] p d hw sw fv h v = v
  run-IsHeld (op ∷ ops) p d hw sw fv h v =
      let o = perform op p d in
      run-IsHeld ops o.primary o.device hw sw fv h.1 (perform-IsHeld op p d hw sw fv h.0 v).state
