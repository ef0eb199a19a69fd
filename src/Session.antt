-- ===== src/Session.antt =====
-- datamodel.go, exec.go, ioprocessor.go, invoke.go: what the interpreter shares with the datamodel
-- session and with the platform.
--
-- `Host` is the interface to code that the interpreter only calls: the datamodel session, the I/O
-- processors, the invocation runner, the timer hook, and a few functions of Go's library. A
-- session's operation is a function of the context, its arguments and the session's state. It gives
-- what the session does through the context, in order, until it returns with its new state, and its
-- result, which it reads from that state; a panic is an error like any other, since each caller
-- recovers it.
use statecharts.Base.{ℕ, Bool, Option, ◌≡◌, refl, ◌⊎◌, inl, inr}
use statecharts.Base.Bytes.{Bytes, codes}
use statecharts.Identifier.{Identifier}
use statecharts.Value.{Value}
use statecharts.Event.{Event, Error}
use statecharts.Chart.{Expression, IterationBindings, Delay, InvokeSpec}

pub data Result {ℓ} (A : Type ℓ) : Type ℓ where
  ok : A → Result A
  err : Error → Result A

-- `SendOptions`, without `IDLocation`, which stands beside it where it is used.
pub record SendOptions : Type 0 where
  pub send_id : Identifier
  pub target : Identifier
  pub type : Identifier
  pub payload : Value
  pub delay : Delay

-- `SendRequest`
pub record SendRequest : Type 0 where
  pub delivery_id : Bytes
  pub send_id : Identifier
  pub event_send_id : Identifier
  pub target : Identifier
  pub type : Identifier
  pub event : Identifier
  pub payload : Value

-- `InvokeRequest`
pub record InvokeRequest : Type 0 where
  pub definition_id : Identifier
  pub id : Identifier
  pub type : Identifier
  pub source : Bytes
  pub payload : Value

-- `ExecContext`. In a finalize context, `raise`, `send` and `cancel` are refused.
pub record ExecContext : Type 0 where
  pub event : Option Event
  pub session_id : Bytes
  pub name : Bytes
  pub active : Identifier → Bool
  pub in_finalize : Bool

-- A call that a session makes through its context: `Raise`, `Send` without an `IDLocation`, `Cancel`,
-- `Log`.
pub data Effect : Type 0 where
  raises : Event → Effect
  sends : Identifier → SendOptions → Effect
  cancels : Identifier → Effect
  logs : Bytes → Value → Effect

-- What a session does during an operation: it returns with its state, or makes a call and goes on. A
-- `Send` with an `IDLocation` gives the interpreter the state so far, the location, which is run with
-- the send's ID and then says from the state whether it failed, and what is done from the state after
-- that.
pub data Activity (S : Type 0) : Type 0 where
  returns : S → Activity S
  acts : Effect → Activity S → Activity S
  sends_at :
      Identifier
      → SendOptions
      → S
      → (Identifier → S → Activity S)
      → (S → Result (Unit {0}))
      → (S → Activity S)
      → Activity S

pub record Outcome (S A : Type 0) : Type 0 where
  pub activity : Activity S
  pub result : S → Result A

-- A run of `ForEach`: it ends, or it calls the body, which hands the session's state back to it.
pub data Iteration (S : Type 0) : Type 0 where
  finished : Activity S → (S → Option Error) → Iteration S
  visit : Activity S → (S → Iteration S) → Iteration S

-- What starting an invocation returns: an error, or the channel of the service, if it has one.
pub data InvokeStart : Type 0 where
  failed : Error → InvokeStart
  started : Option ℕ → InvokeStart

pub record Host (S : Type 0) : Type 0 where
  pub evaluate_boolean : ExecContext → Expression → S → Outcome S Bool
  pub evaluate_value : ExecContext → Expression → S → Outcome S Value
  pub assign : ExecContext → Expression → Value → S → Outcome S (Unit {0})
  pub execute : ExecContext → Expression → S → Outcome S (Unit {0})
  pub for_each : ExecContext → Expression → IterationBindings → S → Iteration S
  -- The processor registered for a type, as the error that its `Send` returns.
  pub processor : Identifier → Option (SendRequest → Option Error)
  pub start_invoke : InvokeRequest → InvokeSpec → InvokeStart
  -- Whether a channel has room at the given attempt to send on one without blocking.
  pub has_room : ℕ → ℕ → Bool
  pub timer_fired_hook : Identifier → Identifier → Identifier → Event → Option Error
  pub parse_duration : Bytes → Result Delay
  pub valid_utf8 : Bytes → Bool
  pub to_valid_utf8 : Bytes → Bytes
  pub quote : Bytes → Bytes
  pub session_id : Bytes
  pub name : Bytes
  pub delivery_namespace : Bytes

abbrev pub scxml_event_processor : Identifier
scxml_event_processor = codes "http://www.w3.org/TR/scxml/#SCXMLEventProcessor"

abbrev pub scxml_event_processor_alias : Identifier
scxml_event_processor_alias = codes "scxml"

abbrev pub scxml_invoke_type : Identifier
scxml_invoke_type = codes "http://www.w3.org/TR/scxml/"

pub Result-cases {ℓ} :
    {A : Type ℓ} (r : Result A) → ((a : A) × (r ≡ ok a)) ⊎ ((e : Error) × (r ≡ err e))
Result-cases (ok a) = inl (a, refl)
Result-cases (err e) = inr (e, refl)
