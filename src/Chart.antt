-- ===== src/Chart.antt =====
-- chart.go, exec.go and invoke.go: the compiled chart.
--
-- A `*compiledState` is the state's place in `Chart.order`, which is its `docOrder`; a
-- `*compiledTransition` is the transition's record with the place of its source and its index.
-- A `CompiledExpression` is an opaque handle, which the interpreter only hands back to the
-- session: a number.
pub mod Tree
use statecharts.Base.{
  ℕ, suc, Bool, true, false, if◌then◌else◌, List, [], ◌∷◌, Option, none, some, get_elem?,
}
use statecharts.Base.Bytes.{Bytes, bytes_eq}
use statecharts.Identifier.{Identifier}

-- `StateKind`
pub data StateKind : Type 0 where
  atomic compound parallel final history : StateKind

-- `HistoryKind`
pub data HistoryKind : Type 0 where
  shallow deep : HistoryKind

abbrev pub Expression : Type 0
Expression = ℕ

abbrev pub StateRef : Type 0
StateRef = ℕ

-- `compiledPayload`: nothing, one whole content expression, or named parameters.
pub data Payload : Type 0 where
  content : Expression → Payload
  params : List (Identifier × Expression) → Payload

-- `compiledData`
pub record DataItem : Type 0 where
  pub location : Expression
  pub initializer : Option Expression

-- `IterationBindings`
pub record IterationBindings : Type 0 where
  pub item : Expression
  pub index : Option Expression

-- `time.Duration` as the interpreter compares it: at most zero, or a positive span.
pub data Delay : Type 0 where
  immediate : Delay
  after : ℕ → Delay

-- The operands of a compiled `<send>`.
pub record SendOperation : Type 0 where
  pub event : Identifier
  pub target : Identifier
  pub type : Identifier
  pub id : Identifier
  pub event_expr : Option Expression
  pub target_expr : Option Expression
  pub type_expr : Option Expression
  pub id_location : Option Expression
  pub delay_expr : Option Expression
  pub delay : Delay
  pub payload : Option Payload

-- `compiledOperation`, a constructor for each kind with the operands that `compileOperation` puts
-- in its vectors, and `actionBlock`.
mutual
  pub data Operation : Type 0 where
    script call : Expression → Operation
    assign : Expression → Expression → Operation
    raise : Option Expression → Identifier → Option Expression → Operation
    cancel : Option Expression → Identifier → Operation
    log : Option Expression → Bytes → Option Expression → Operation
    choose : Branches → Operation
    foreach : Expression → IterationBindings → Blocks → Operation
    send : SendOperation → Operation

  pub data Block : Type 0 where
    done : Block
    action : Operation → Block → Block

  pub data Blocks : Type 0 where
    no_block : Blocks
    block : Block → Blocks → Blocks

  pub data Branches : Type 0 where
    otherwise : Blocks → Branches
    branch : Expression → Blocks → Branches → Branches

-- The blocks of both, in order.
abbrev pub append_blocks : Blocks → Blocks → Blocks
append_blocks no_block bs = bs
append_blocks (block b rest) bs = block b (append_blocks rest bs)

-- `compiledTransition`
pub record Transition : Type 0 where
  pub events : List Identifier
  pub target : List Identifier
  pub condition : Option Expression
  pub actions : Blocks
  pub is_internal : Bool
  pub source : StateRef
  pub definition_index : ℕ

-- `compiledInvoke`
pub record InvokeSpec : Type 0 where
  pub definition_id : Identifier
  pub id : Identifier
  pub static_type : Identifier
  pub type_expr : Option Expression
  pub static_source : Bytes
  pub source_expr : Option Expression
  pub payload : Option Payload
  pub id_location : Option Expression
  pub finalize : Blocks
  pub auto_forward : Bool

-- `compiledState`
pub record State : Type 0 where
  pub id : Identifier
  pub kind : StateKind
  pub history_kind : HistoryKind
  pub initial : Option Transition
  pub parent : Option StateRef
  pub children : List StateRef
  pub on_entry : Blocks
  pub on_exit : Blocks
  pub transitions : List Transition
  pub invokes : List InvokeSpec
  pub done_payload : Option Payload
  pub items : List DataItem

-- `Chart`: the states in document order, of which the first is the root.
pub record Chart : Type 0 where
  pub order : List State
  pub items : List DataItem
  pub early_binding : Bool

abbrev pub root : StateRef
root = 0

abbrev pub empty_state : State
empty_state = record {
  id = [];
  kind = StateKind.atomic;
  history_kind = HistoryKind.shallow;
  initial = none;
  parent = none;
  children = [];
  on_entry = no_block;
  on_exit = no_block;
  transitions = [];
  invokes = [];
  done_payload = none;
  items = [];
}

abbrev or_empty : Option State → State
or_empty none = empty_state
or_empty (some s) = s

-- Dereferences a state pointer. No pointer of a compiled chart dangles.
unfoldable pub state_at : Chart → StateRef → State
state_at c s = or_empty (get_elem? c.order s)

unfoldable pub find_id : Identifier → ℕ → List State → Option StateRef
find_id id i [] = none
find_id id i (s ∷ ss) =
    let rest = find_id id (suc i) ss in if bytes_eq s.id id then some i else rest

-- `chart.byID[id]`, where `none` is a nil pointer. State IDs are distinct.
unfoldable pub by_id : Chart → Identifier → Option StateRef
unfolding find_id
by_id c id = find_id id 0 c.order
