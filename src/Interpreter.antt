-- ===== src/Interpreter.antt =====
-- interpreter.go: the state of one running chart, its queues, and the errors that it reports.
--
-- Maps from states are association lists, sets of states are lists without repetitions. `now` is
-- the clock's time, which the environment advances. The last five fields record what the
-- interpreter has done to the platform: requests handed to processors, events put on the channels
-- of invocations, invocations cancelled, log entries, and microsteps traced.
pub mod Send
pub mod Model
pub mod Execute
pub mod Targets
pub mod Select
pub mod Invoke
pub mod Enter
pub mod Exit
pub mod Step
pub mod Frame
pub mod Configuration
use statecharts.Base.{
  ℕ, zero, suc, Bool, true, false, if◌then◌else◌, ◌||◌, List, [], ◌∷◌, ◌++◌, Option, none, some,
}
use statecharts.Base.Bytes.{Bytes, codes, bytes_eq}
use statecharts.Base.Sets.{elem}
use statecharts.Identifier.{Identifier}
use statecharts.Value.{Value, null}
use statecharts.Event.{
  Event, EventType, Error, external, platform, err_event_execution, err_event_communication,
  platform_error_value, event_of,
}
use statecharts.Chart.{Chart, StateRef, Blocks, InvokeSpec, by_id}
use statecharts.Session.{
  Host, ExecContext, SendRequest, scxml_event_processor, scxml_event_processor_alias,
  scxml_invoke_type,
}

-- `pendingSendRecord`: `order` tells the records apart.
pub record PendingSend : Type 0 where
  pub send_id : Identifier
  pub target : Identifier
  pub type : Identifier
  pub event : Event
  pub fire_at : ℕ
  pub order : ℕ

-- `runningInvoke`
pub record RunningInvoke : Type 0 where
  pub id : Identifier
  pub state : StateRef
  pub spec : InvokeSpec
  pub type : Identifier
  pub source : Bytes
  pub finalize : Blocks
  pub auto_forward : Bool
  pub incoming : Option ℕ

-- `TransitionRef`
pub record TransitionRef : Type 0 where
  pub source : Identifier
  pub index : ℕ

-- `MicrostepTrace`
pub record MicrostepTrace : Type 0 where
  pub trigger : Option Event
  pub transitions : List TransitionRef
  pub exited : List Identifier
  pub entered : List Identifier

pub record Interpretation (S : Type 0) : Type 0 where
  pub session : S
  pub configuration : List StateRef
  pub history_value : List (StateRef × List StateRef)
  pub internal_queue : List Event
  pub external_queue : List Event
  pub running : Bool
  pub result : Value
  pub completed : Bool
  pub last_event : Option Event
  pub initialized_data : List StateRef
  pub now : ℕ
  pub pending : List PendingSend
  pub send_seq : ℕ
  pub dispatch_seq : ℕ
  pub pending_seq : ℕ
  pub states_to_invoke : List StateRef
  pub active_invokes : List (StateRef × List RunningInvoke)
  pub invokes_by_id : List (Identifier × RunningInvoke)
  pub invoke_seq : ℕ
  pub forward_seq : ℕ
  pub hook_err : Option Error
  pub dispatched : List SendRequest
  pub forwarded : List (ℕ × Event)
  pub cancelled : List Identifier
  pub logged : List (Bytes × Value)
  pub macrostep_trace : Option (List MicrostepTrace)

-- `newInterpretation`, for a chart whose session is ready.
unfoldable pub new_interpretation : {S : Type 0} → S → Interpretation S
new_interpretation s = record {
  session = s;
  configuration = [];
  history_value = [];
  internal_queue = [];
  external_queue = [];
  running = false;
  result = null;
  completed = false;
  last_event = none;
  initialized_data = [];
  now = 0;
  pending = [];
  send_seq = 0;
  dispatch_seq = 0;
  pending_seq = 0;
  states_to_invoke = [];
  active_invokes = [];
  invokes_by_id = [];
  invoke_seq = 0;
  forward_seq = 0;
  hook_err = none;
  dispatched = [];
  forwarded = [];
  cancelled = [];
  logged = [];
  macrostep_trace = none;
}

-- `canonicalIOProcessorType`
unfoldable pub canonical_io_processor_type : Identifier → Identifier
canonical_io_processor_type typ =
    if bytes_eq typ (codes "") || bytes_eq typ scxml_event_processor_alias
    then scxml_event_processor
    else typ

-- `canonicalInvokeType`
unfoldable pub canonical_invoke_type : Identifier → Identifier
canonical_invoke_type typ =
    if bytes_eq typ (codes "") || bytes_eq typ (codes "scxml") then scxml_invoke_type else typ

module _ {S : Type 0} where
  unfoldable pub enqueue_internal : Event → Interpretation S → Interpretation S
  enqueue_internal ev ip = record ip { internal_queue = ip.internal_queue ++ (ev ∷ []) }

  unfoldable pub enqueue_external : Event → Interpretation S → Interpretation S
  enqueue_external ev ip = record ip { external_queue = ip.external_queue ++ (ev ∷ []) }

abbrev is_external : EventType → Bool
is_external external = true
is_external _ = false

module _ {S : Type 0} where
  unfoldable pub enqueue : Event → Interpretation S → Interpretation S
  unfolding enqueue_external enqueue_internal
  enqueue ev ip = if is_external ev.type then enqueue_external ev ip else enqueue_internal ev ip

module _ {S : Type 0} (host : Host S) where
  unfoldable pub report_error : Error → Interpretation S → Interpretation S
  unfolding platform_error_value
  report_error e = enqueue_internal (
      event_of err_event_execution platform
        (platform_error_value host.valid_utf8 host.to_valid_utf8 err_event_execution e))

  unfoldable pub report_comm_error : Error → Interpretation S → Interpretation S
  unfolding platform_error_value
  report_comm_error e = enqueue_internal (
      event_of err_event_communication platform
        (platform_error_value host.valid_utf8 host.to_valid_utf8 err_event_communication e))

  unfoldable pub report_send_error : Identifier → Error → Interpretation S → Interpretation S
  unfolding platform_error_value
  report_send_error send_id e =
      let name = if e.is_send_execution then err_event_execution else err_event_communication in
      let ev =
        event_of name platform (platform_error_value host.valid_utf8 host.to_valid_utf8 name e) in
      enqueue_internal (record ev { send_id = send_id })

  -- `In(id)`
  unfoldable pub is_active : Chart → Interpretation S → Identifier → Bool
  is_active c ip id = elim (by_id c id) [ none ↦ false | some s ↦ elem s ip.configuration ]

  unfoldable pub exec_context : Chart → Interpretation S → ExecContext
  exec_context c ip = record {
    event = ip.last_event;
    session_id = host.session_id;
    name = host.name;
    active = is_active c ip;
    in_finalize = false;
  }
