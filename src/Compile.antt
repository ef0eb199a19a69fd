-- ===== src/Compile.antt =====
-- compile.go: lowering a definition's tree to the compiled chart.
--
-- The compiled states stand in one list, in document order, and a pointer to a state is its place:
-- `compile_state` is told the place of the state, and returns the states of its subtree. The
-- default transition's index of -1 is written 0: it is never selected, so that it is never read.
pub mod Content
pub mod Arena
pub mod Transitions
pub mod Compiled
pub mod Wiring
pub mod Layout
pub mod Whole
pub mod Safety
pub mod SafeSend
pub mod SafeContent
pub mod SafeParts
pub mod SafeChart
pub mod Ids
pub mod Resolved
pub mod Lookup
pub mod Sound
use statecharts.Base.{
  ℕ, zero, suc, ◌+◌, Bool, true, false, List, [], ◌∷◌, ◌++◌, Option, none, some, length,
}
use statecharts.Base.Bytes.{Bytes, codes}
use statecharts.Chart.{
  Chart, StateRef, State, Transition, InvokeSpec, DataItem, Payload, Blocks, root,
}
use statecharts.Interpreter.{canonical_invoke_type}
use statecharts.Definition.{
  TransitionType, TransitionDefinition, InvokeDefinition, DoneDataDefinition, StateHead,
  StateDefinition, state, StateDefinitions, no_states, and_state, DataBinding, early, Definition,
}
use statecharts.Definition.Checked.{Checked, pass, fail, ◌>>=◌, indexed, below_path}
use statecharts.Compile.Content.{
  Program, resolve_optional, compile_data, compile_payload, compile_blocks,
}

abbrev pub is_internal_type : TransitionType → Bool
is_internal_type TransitionType.internal = true
is_internal_type _ = false

-- `chart.dataBinding == DataBindingEarly`
abbrev is_early : DataBinding → Bool
is_early DataBinding.early = true
is_early _ = false

module _ (p : Program) where
  -- `compileDefinitionTransition`, with the index that its caller sets.
  unfoldable pub compile_transition :
      Bytes → StateRef → ℕ → TransitionDefinition → Checked Transition
  compile_transition path source index t = do
    condition ← resolve_optional p t.condition (below_path path (codes ".condition"))
    actions ← compile_blocks p (below_path path (codes ".actions")) 0 t.actions
    pass (record {
      events = t.events;
      target = t.targets;
      condition = condition;
      actions = actions;
      is_internal = is_internal_type t.type;
      source = source;
      definition_index = index;
    })

  unfoldable pub compile_transitions :
      Bytes → StateRef → ℕ → List TransitionDefinition → Checked (List Transition)
  compile_transitions path source i [] = pass []
  compile_transitions path source i (t ∷ ts) = do
    x ← compile_transition (indexed (below_path path (codes ".transitions")) i) source i t
    rest ← compile_transitions path source (suc i) ts
    pass (x ∷ rest)

  unfoldable pub compile_initial :
      Bytes → StateRef → Option TransitionDefinition → Checked (Option Transition)
  compile_initial path source none = pass none
  compile_initial path source (some t) = do
    x ← compile_transition (below_path path (codes ".initial")) source 0 t
    pass (some x)

  -- `compileDefinitionInvoke`
  unfoldable pub compile_invoke : Bytes → InvokeDefinition → Checked InvokeSpec
  compile_invoke path i = do
    id_location ← resolve_optional p i.id_location (below_path path (codes ".idLocation"))
    type_expr ← resolve_optional p i.type_expr (below_path path (codes ".typeExpr"))
    source_expr ← resolve_optional p i.src_expr (below_path path (codes ".srcExpr"))
    payload ← compile_payload p path i.params i.content
    finalize ← compile_blocks p (below_path path (codes ".finalize")) 0 i.finalize
    pass (record {
      definition_id = i.definition_id;
      id = i.id;
      static_type = canonical_invoke_type i.type;
      type_expr = type_expr;
      static_source = i.src;
      source_expr = source_expr;
      payload = some payload;
      id_location = id_location;
      finalize = finalize;
      auto_forward = i.auto_forward;
    })

  unfoldable pub compile_invokes : Bytes → ℕ → List InvokeDefinition → Checked (List InvokeSpec)
  compile_invokes path k [] = pass []
  compile_invokes path k (i ∷ is) = do
    x ← compile_invoke (indexed (below_path path (codes ".invokes")) k) i
    rest ← compile_invokes path (suc k) is
    pass (x ∷ rest)

  unfoldable pub compile_done : Bytes → Option DoneDataDefinition → Checked (Option Payload)
  compile_done path none = pass none
  compile_done path (some d) = do
    x ← compile_payload p (below_path path (codes ".doneData")) d.params d.content
    pass (some x)

  -- The state itself, up to its children.
  unfoldable pub compile_head : Bytes → Option StateRef → StateRef → StateHead → Checked State
  compile_head path parent place h = do
    on_entry ← compile_blocks p (below_path path (codes ".onEntry")) 0 h.on_entry
    on_exit ← compile_blocks p (below_path path (codes ".onExit")) 0 h.on_exit
    items ← compile_data p (below_path path (codes ".data")) 0 h.items
    payload ← compile_done path h.done_data
    initial ← compile_initial path place h.initial
    transitions ← compile_transitions path place 0 h.transitions
    invokes ← compile_invokes path 0 h.invokes
    pass (record {
      id = h.id;
      kind = h.kind;
      history_kind = h.history;
      initial = initial;
      parent = parent;
      children = [];
      on_entry = on_entry;
      on_exit = on_exit;
      transitions = transitions;
      invokes = invokes;
      done_payload = payload;
      items = items;
    })

  -- `compileDefinitionState`: the states of the subtree, the first of which stands at `place`; and
  -- its loop over the children, with their places.
  unfoldable mutual
    pub compile_state : Bytes → Option StateRef → StateRef → StateDefinition → Checked (List State)
    compile_state path parent place (state h children) = do
      cs ← compile_head path parent place h
      (below, places) ← compile_children path place (suc place) 0 children
      pass (record cs { children = places } ∷ below)

    pub compile_children :
        Bytes → StateRef → StateRef → ℕ → StateDefinitions → Checked (List State × List StateRef)
    compile_children path parent place k no_states = pass ([], [])
    compile_children path parent place k (and_state s ss) = do
      first ← compile_state (indexed (below_path path (codes ".children")) k) (some parent) place s
      (rest, places) ← compile_children path parent (place + length first) (suc k) ss
      pass (first ++ rest, place ∷ places)

  -- The states and data of `Compile`, for a definition that is already normalized.
  unfoldable pub compile_chart : Definition → Checked Chart
  unfolding compile_data compile_state
  compile_chart d = do
    items ← compile_data p (codes "definition.data") 0 d.items
    order ← compile_state (codes "root") none root d.root
    pass (record { order = order; items = items; early_binding = is_early d.data_binding })
