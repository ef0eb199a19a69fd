-- ===== src/Interpreter/Frame/Content.antt =====
-- What executable content cannot do to the interpreter.
use statecharts.Chart.{Chart, Blocks}
use statecharts.Session.{Host}
use statecharts.Interpreter.{Interpretation}
use statecharts.Interpreter.Execute.{run_action_blocks}
use statecharts.Interpreter.Frame.{Frame, Frame-refl}
use statecharts.Interpreter.Frame.Execute.{run_action_blocks-Frame}

module _ (c : Chart) {S : Type 0} (host : Host S) where
  -- Executable content, whatever its actions and whatever the datamodel does for them, leaves the
  -- configuration, the recorded history, the current event, the invocations, the result, the trace,
  -- the clock and the running flag as they were; events that it raises or sends go behind those already queued, none
  -- of which it removes.
  pub run_action_blocks_contained :
      (blocks : Blocks) (ip : Interpretation S) → Frame ip (run_action_blocks host c blocks ip)
  run_action_blocks_contained blocks ip = run_action_blocks-Frame host c blocks (Frame-refl ip)
