-- ===== src/Tests.antt =====
-- A small chart, a host for it, and runs of both: two steps of work that can be paused and resumed.
pub mod Runs
pub mod Witnesses
pub mod Definitions
pub mod Accepted
use statecharts.Base.{
  ℕ, zero, suc, ◌<◌, ◌≡◌, refl, Bool, true, false, List, [], ◌∷◌, Option, none, some, arith,
}
use statecharts.Base.Bytes.{Bytes, codes}
use statecharts.Identifier.{Identifier}
use statecharts.Value.{null}
use statecharts.Event.{Event, external, event_of, plain_error}
use statecharts.Chart.{
  Chart, State, StateKind, HistoryKind, Transition, Block, done, action, raise, log, Blocks,
  no_block, block, InvokeSpec, compound, atomic, history, shallow, immediate, empty_state, state_at,
}
use statecharts.Chart.Tree.{IsTree}
use statecharts.Session.{Host, Outcome, Iteration, Activity, returns, finished, started, Result, ok}
use statecharts.Interpreter.{Interpretation, PendingSend, new_interpretation}

abbrev pub to : List Identifier → Identifier → ℕ → Transition
to events target source = record {
  events = events;
  target = target ∷ [];
  condition = none;
  actions = no_block;
  is_internal = false;
  source = source;
  definition_index = 0;
}

-- Leaving the second step raises an event.
abbrev pub raise_left : Blocks
raise_left = block (action (raise none (codes "left") none) done) no_block

abbrev node : Identifier → StateKind → ℕ → List ℕ → List Transition → State
node id kind parent children transitions = record empty_state {
  id = id;
  kind = kind;
  parent = some parent;
  children = children;
  transitions = transitions;
}

abbrev pub anonymous_invoke : InvokeSpec
anonymous_invoke = record {
  definition_id = codes "job";
  id = codes "";
  static_type = codes "";
  type_expr = none;
  static_source = codes "";
  source_expr = none;
  payload = none;
  id_location = none;
  finalize = no_block;
  auto_forward = false;
}

-- The root holds `run`, with a shallow history and two steps, and `paused`.
abbrev pub work : Chart
work = record {
  order =
      record empty_state {
        id = codes "root";
        kind = compound;
        initial = some (to [] (codes "run") 0);
        children = 1 ∷ 5 ∷ [];
      }
      ∷ record (node (codes "run") compound 0 (2 ∷ 3 ∷ 4 ∷ [])
          (to (codes "pause" ∷ []) (codes "paused") 1 ∷ [])) {
            initial = some (to [] (codes "first") 1);
          }
      ∷ record (node (codes "memory") history 1 [] []) { initial = some (to [] (codes "first") 2) }
      ∷ node (codes "first") atomic 1 [] (to (codes "next" ∷ []) (codes "second") 3 ∷ [])
      ∷ record (node (codes "second") atomic 1 [] (to (codes "next" ∷ []) (codes "first") 4 ∷ [])) {
        on_exit = raise_left;
      }
      ∷ node (codes "paused") atomic 0 [] (to (codes "resume.*" ∷ []) (codes "memory") 5 ∷ [])
      ∷ [];
  items = [];
  early_binding = true;
}

abbrev pub host : Host ℕ
host = record {
  evaluate_boolean = λ ec e s. record { activity = returns s; result = λ t. ok true };
  evaluate_value = λ ec e s. record { activity = returns s; result = λ t. ok null };
  assign = λ ec e v s. record { activity = returns s; result = λ t. ok tt };
  execute = λ ec e s. record { activity = returns (suc s); result = λ t. ok tt };
  for_each = λ ec e b s. finished (returns s) (λ t. none);
  processor = λ typ. none;
  start_invoke = λ request spec. started none;
  has_room = λ channel attempt. true;
  timer_fired_hook = λ id target typ ev. none;
  parse_duration = λ s. ok immediate;
  valid_utf8 = λ s. true;
  to_valid_utf8 = λ s. s;
  quote = λ s. s;
  session_id = codes "s1";
  name = codes "work";
  delivery_namespace = codes "d";
}

abbrev pub event : Identifier → Event
event name = event_of name external null

-- The chart in its second step, with two events that wait.
abbrev pub at_second : Interpretation ℕ
at_second = record (new_interpretation 0) {
  configuration = 1 ∷ 4 ∷ [];
  running = true;
  external_queue = event (codes "pause") ∷ event (codes "resume.now") ∷ [];
}

abbrev pub delayed : ℕ → ℕ → PendingSend
delayed fire_at order = record {
  send_id = codes "late";
  target = codes "";
  type = codes "";
  event = record (event (codes "ring")) { send_id = codes "late" };
  fire_at = fire_at;
  order = order;
}

-- Two delayed sends with the same ID.
abbrev pub waiting : Interpretation ℕ
waiting = record at_second { pending = delayed 9 1 ∷ delayed 5 2 ∷ [] }

pub work-IsTree : IsTree work
unfolding state_at
work-IsTree = record { parent_lt = lower }
  where
    lower : (s p : ℕ) → (state_at work s).parent ≡ some p → p < s
    lower zero p e = cc
    lower (suc zero) p e = ground (arith, e)
    lower (suc (suc zero)) p e = ground (arith, e)
    lower (suc (suc (suc zero))) p e = ground (arith, e)
    lower (suc (suc (suc (suc zero)))) p e = ground (arith, e)
    lower (suc (suc (suc (suc (suc zero))))) p e = ground (arith, e)
    lower (suc (suc (suc (suc (suc (suc s)))))) p e = cc
