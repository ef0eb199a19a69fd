-- ===== src/Definition.antt =====
-- definition.go, executable.go, expression.go, state.go: the definition of a chart, as an author or a
-- decoder writes it, before it is validated and compiled.
--
-- Strings are bytes, where the empty one stands for a field that is left out, and a pointer that may
-- be nil is an `Option`. A kind outside Go's constants is `unknown`; the kind of a state and of a
-- history are taken to be one of the constants. Copies of a definition are the definition itself.
pub mod Checked
use statecharts.Base.{ℕ, suc, Bool, List, [], ◌∷◌, Option, none}
use statecharts.Base.Bytes.{Bytes}
use statecharts.Identifier.{Identifier}
use statecharts.Value.{Value}
use statecharts.Chart.{StateKind, HistoryKind}

-- `Expression`: what the datamodel reads.
pub record ExpressionDefinition : Type 0 where
  pub kind : Identifier
  pub body : Value

-- `FunctionRef`
pub record FunctionRef : Type 0 where
  pub name : Identifier
  pub version : Bytes
  pub args : List ExpressionDefinition

-- `ParamDefinition`
pub record ParamDefinition : Type 0 where
  pub name : Identifier
  pub expr : Option ExpressionDefinition
  pub location : Option ExpressionDefinition

-- `DataDefinition`
pub record DataDefinition : Type 0 where
  pub id : Identifier
  pub source : Bytes
  pub expr : Option ExpressionDefinition
  pub content : Option ExpressionDefinition

-- `RaiseDefinition`
pub record RaiseDefinition : Type 0 where
  pub event : Identifier
  pub event_expr : Option ExpressionDefinition
  pub body : Option ExpressionDefinition

-- `SendDefinition`
pub record SendDefinition : Type 0 where
  pub event : Identifier
  pub event_expr : Option ExpressionDefinition
  pub target : Bytes
  pub target_expr : Option ExpressionDefinition
  pub type : Bytes
  pub type_expr : Option ExpressionDefinition
  pub id : Identifier
  pub id_location : Option ExpressionDefinition
  pub delay : Bytes
  pub delay_expr : Option ExpressionDefinition
  pub params : List ParamDefinition
  pub content : Option ExpressionDefinition

-- `CancelDefinition`
pub record CancelDefinition : Type 0 where
  pub send_id : Identifier
  pub send_id_expr : Option ExpressionDefinition

-- `LogDefinition`
pub record LogDefinition : Type 0 where
  pub label : Bytes
  pub label_expr : Option ExpressionDefinition
  pub expr : Option ExpressionDefinition

-- `AssignDefinition`
pub record AssignDefinition : Type 0 where
  pub location : ExpressionDefinition
  pub expr : ExpressionDefinition

-- `ExtensionDefinition`
pub record ExtensionDefinition : Type 0 where
  pub namespace : Bytes
  pub name : Bytes
  pub body : Value

-- `ExecutableKind`
pub data ExecutableKind : Type 0 where
  raise send cancel log assign choose foreach script call extension : ExecutableKind
  unknown : Bytes → ExecutableKind

-- The payloads of `Executable` that hold no executables. `ScriptDefinition` and `CallDefinition`
-- have one field each.
pub record Payloads : Type 0 where
  pub raise : Option RaiseDefinition
  pub send : Option SendDefinition
  pub cancel : Option CancelDefinition
  pub log : Option LogDefinition
  pub assign : Option AssignDefinition
  pub script : Option ExpressionDefinition
  pub call : Option FunctionRef
  pub extension : Option ExtensionDefinition

-- `Executable` with its `Choose` and `ForEach`, `ChooseDefinition` with its branches and else blocks,
-- `ForEachDefinition`, and `ExecutableBlock`.
mutual
  pub data Executable : Type 0 where
    executable : ExecutableKind → Payloads → ChooseDefinition → ForEachDefinition → Executable

  pub data ChooseDefinition : Type 0 where
    no_choose : ChooseDefinition
    choose_of : ChooseBranches → ExecutableBlocks → ChooseDefinition

  pub data ChooseBranches : Type 0 where
    no_branch : ChooseBranches
    branch_of : ExpressionDefinition → ExecutableBlocks → ChooseBranches → ChooseBranches

  pub data ForEachDefinition : Type 0 where
    no_foreach : ForEachDefinition
    foreach_of :
        ExpressionDefinition → Identifier → Identifier → ExecutableBlocks → ForEachDefinition

  pub data ExecutableBlock : Type 0 where
    end : ExecutableBlock
    then_do : Executable → ExecutableBlock → ExecutableBlock

  pub data ExecutableBlocks : Type 0 where
    no_blocks : ExecutableBlocks
    blocks_of : ExecutableBlock → ExecutableBlocks → ExecutableBlocks

-- `TransitionType`
pub data TransitionType : Type 0 where
  unset external internal : TransitionType
  invalid : Bytes → TransitionType

-- `TransitionDefinition`
pub record TransitionDefinition : Type 0 where
  pub events : List Identifier
  pub targets : List Identifier
  pub type : TransitionType
  pub condition : Option ExpressionDefinition
  pub actions : ExecutableBlocks

-- `InvokeDefinition`
pub record InvokeDefinition : Type 0 where
  pub definition_id : Identifier
  pub id : Identifier
  pub id_location : Option ExpressionDefinition
  pub type : Bytes
  pub type_expr : Option ExpressionDefinition
  pub src : Bytes
  pub src_expr : Option ExpressionDefinition
  pub params : List ParamDefinition
  pub content : Option ExpressionDefinition
  pub auto_forward : Bool
  pub finalize : ExecutableBlocks

-- `DoneDataDefinition`
pub record DoneDataDefinition : Type 0 where
  pub params : List ParamDefinition
  pub content : Option ExpressionDefinition

-- The fields of `StateDefinition` besides its children; its `StateDefinitionID` is `id` and
-- `generated`.
pub record StateHead : Type 0 where
  pub id : Identifier
  pub generated : Bool
  pub kind : StateKind
  pub history : HistoryKind
  pub initial : Option TransitionDefinition
  pub on_entry : ExecutableBlocks
  pub on_exit : ExecutableBlocks
  pub transitions : List TransitionDefinition
  pub invokes : List InvokeDefinition
  pub items : List DataDefinition
  pub done_data : Option DoneDataDefinition

-- `StateDefinition`, and a list of them.
mutual
  pub data StateDefinition : Type 0 where
    state : StateHead → StateDefinitions → StateDefinition

  pub data StateDefinitions : Type 0 where
    no_states : StateDefinitions
    and_state : StateDefinition → StateDefinitions → StateDefinitions

abbrev pub head : StateDefinition → StateHead
head (state h children) = h

abbrev pub children_of : StateDefinition → StateDefinitions
children_of (state h children) = children

-- `DataBinding`
pub data DataBinding : Type 0 where
  unset early late : DataBinding
  invalid : Bytes → DataBinding

-- `Definition`
pub record Definition : Type 0 where
  pub id : Identifier
  pub name : Bytes
  pub datamodel : Identifier
  pub revision_salt : Bytes
  pub data_binding : DataBinding
  pub items : List DataDefinition
  pub root : StateDefinition
