-- ===== src/Tests/Definitions.antt =====
-- A small definition, normalized and compiled: for Tests/Accepted.
use statecharts.Base.{ℕ, ◌≡◌, refl, Bool, true, false, [], ◌∷◌, Option, none, some}
use statecharts.Base.Bytes.{Bytes, codes}
use statecharts.Identifier.{Identifier}
use statecharts.Chart.{
  State, Chart, Transition, StateKind, compound, atomic, shallow, immediate, empty_state, no_block,
  block, done, action, Operation,
}
use statecharts.Definition.{
  ExecutableKind, executable, no_choose, no_foreach, end, then_do, ExecutableBlocks, no_blocks,
  blocks_of, TransitionType, TransitionDefinition, StateHead, StateDefinition, state, no_states,
  and_state, DataBinding, Definition,
}
use statecharts.Definition.Checked.{pass}
use statecharts.Compile.Content.{Program}
use statecharts.Base.Bytes.{decimal}
use statecharts.Base.Sets.{insert}
use statecharts.Identifier.{segments, segment_ok, segments_ok, trim_hash, new_identifier}
use statecharts.Definition.Checked.{indexed}
use statecharts.Validate.Expressions.{
  has_suffix, plain_identifier, validate_plain_identifier, validate_utf8, validate_value,
  validate_expression, validate_optional, validate_if_given, validate_either, validate_payload,
  validate_raise,
}
use statecharts.Validate.Content.{
  payload_count, validate_bindings, validate_plain, validate_kind, validate_executable,
  validate_choose, validate_branches, validate_foreach, validate_block, validate_blocks_from,
  validate_blocks,
}
use statecharts.Validate.Nodes.{
  find_node, node_of, collect_states, collect_children, node_parent, node_climbs,
  is_definition_descendant, ancestors_or_self, least_common_definition_ancestor, node_is,
  real_definition_children,
}
use statecharts.Validate.Targets.{
  default_targets, default_states, collect_default_atoms, target_nodes, unrelated, active_together,
  target_atoms, validate_target_set,
}
use statecharts.Validate.Parts.{
  validate_events, validate_data_definitions, validate_invoke_ids, validate_invoke,
  validate_invokes, validate_transition, validate_transitions,
}
use statecharts.Validate.States.{
  reject_final, validate_shape, validate_history_target, validate_initial_targets, validate_initial,
  validate_placement, validate_head, validate_state, validate_children,
}
use statecharts.Validate.Normalize.{
  candidate, free_candidate, generate, reserved_state_ids, reserved_below, assign_state_id,
  assign_generated_state_ids, assign_below, reserved_invoke_ids, reserved_invokes_below,
  assign_invokes, assign_generated_invoke_ids, assign_invokes_below, implicit_initial,
  normalize_implicit_initials, normalize_initials_below, normalize_transition_types,
  normalize_types_below,
}
use statecharts.Validate.{complete_states, validate_header, validate_root, normalize_definition}
use statecharts.Compile.Content.{
  resolve_optional, compile_initializer, compile_data, compile_params, compile_payload,
  compile_delay, compile_send, compile_index, compile_operation, compile_choose, compile_branches,
  compile_foreach, compile_block, compile_blocks,
}
use statecharts.Compile.{
  compile_transition, compile_transitions, compile_initial, compile_invoke, compile_invokes,
  compile_done, compile_head, compile_state, compile_children, compile_chart,
}

abbrev raise_lit : ExecutableBlocks
raise_lit =
    blocks_of
      (then_do
        (executable ExecutableKind.raise
          (record {
            raise = some (record { event = codes "lit"; event_expr = none; body = none });
            send = none;
            cancel = none;
            log = none;
            assign = none;
            script = none;
            call = none;
            extension = none;
          })
          no_choose no_foreach)
        end)
      no_blocks

abbrev toggle : Identifier → TransitionType → TransitionDefinition
toggle target type = record {
  events = codes "toggle" ∷ [];
  targets = target ∷ [];
  type = type;
  condition = none;
  actions = raise_lit;
}

abbrev pub default_to : Identifier → TransitionType → TransitionDefinition
default_to target type = record {
  events = [];
  targets = target ∷ [];
  type = type;
  condition = none;
  actions = no_blocks;
}

abbrev pub plain_head : Identifier → Bool → StateKind → StateHead
plain_head id generated kind = record {
  id = id;
  generated = generated;
  kind = kind;
  history = shallow;
  initial = none;
  on_entry = no_blocks;
  on_exit = no_blocks;
  transitions = [];
  invokes = [];
  items = [];
  done_data = none;
}

abbrev lamp_states : Identifier → Option TransitionDefinition → TransitionType → StateDefinition
lamp_states root initial type =
    state (record (plain_head root true compound) { initial = initial })
      (and_state
        (state
          (record (plain_head (codes "off") false atomic) {
            transitions = toggle (codes "on") type ∷ [];
          })
          no_states)
        (and_state
          (state
            (record (plain_head (codes "on") false atomic) {
              transitions = toggle (codes "off") type ∷ [];
            })
            no_states)
          no_states))

abbrev definition_of : StateDefinition → DataBinding → Definition
definition_of root binding = record {
  id = codes "lamp";
  name = codes "Lamp";
  datamodel = codes "null";
  revision_salt = [];
  data_binding = binding;
  items = [];
  root = root;
}

-- The root has neither an ID nor a default transition.
abbrev pub lamp : Definition
lamp = definition_of (lamp_states [] none TransitionType.unset) DataBinding.unset

abbrev pub normal_lamp : Definition
normal_lamp =
    definition_of
      (lamp_states (codes "state.1") (some (default_to (codes "off") TransitionType.external))
        TransitionType.external)
      DataBinding.early

abbrev pub any_utf8 : Bytes → Bool
any_utf8 s = true

abbrev pub program : Program
program = record {
  resolve_expression = λ e. some 0;
  resolve_function = λ f. some 1;
  resolve_data_location = λ d. some 2;
  fingerprint = codes "null";
  parse_duration = λ s. some immediate;
}

pub lamp-normal : normalize_definition any_utf8 lamp ≡ pass normal_lamp
unfolding decimal segments segment_ok segments_ok trim_hash new_identifier indexed has_suffix
    plain_identifier validate_plain_identifier validate_utf8 validate_value validate_expression
    validate_optional validate_if_given validate_either validate_payload validate_raise
    payload_count validate_bindings validate_plain validate_kind validate_executable validate_choose
    validate_branches validate_foreach validate_block validate_blocks_from validate_blocks find_node
    node_of collect_states collect_children node_parent node_climbs is_definition_descendant
    ancestors_or_self least_common_definition_ancestor node_is real_definition_children
    default_targets default_states collect_default_atoms target_nodes unrelated active_together
    target_atoms validate_target_set validate_events validate_data_definitions validate_invoke_ids
    validate_invoke validate_invokes validate_transition validate_transitions reject_final
    validate_shape validate_history_target validate_initial_targets validate_initial
    validate_placement validate_head validate_state validate_children candidate free_candidate
    generate reserved_state_ids reserved_below assign_state_id assign_generated_state_ids
    assign_below reserved_invoke_ids reserved_invokes_below assign_invokes
    assign_generated_invoke_ids assign_invokes_below implicit_initial normalize_implicit_initials
    normalize_initials_below normalize_transition_types normalize_types_below complete_states
    validate_header validate_root normalize_definition insert
lamp-normal = refl

abbrev pub compiled_toggle : Identifier → ℕ → Transition
compiled_toggle target source = record {
  events = codes "toggle" ∷ [];
  target = target ∷ [];
  condition = none;
  actions = block (action (Operation.raise none (codes "lit") none) done) no_block;
  is_internal = false;
  source = source;
  definition_index = 0;
}

abbrev leaf : Identifier → Transition → State
leaf id t = record empty_state { id = id; parent = some 0; transitions = t ∷ [] }

abbrev pub compiled_lamp : Chart
compiled_lamp = record {
  order =
      record empty_state {
        id = codes "state.1";
        kind = compound;
        initial = some (record {
          events = [];
          target = codes "off" ∷ [];
          condition = none;
          actions = no_block;
          is_internal = false;
          source = 0;
          definition_index = 0;
        });
        children = 1 ∷ 2 ∷ [];
      }
      ∷ leaf (codes "off") (compiled_toggle (codes "on") 1)
      ∷ leaf (codes "on") (compiled_toggle (codes "off") 2)
      ∷ [];
  items = [];
  early_binding = true;
}

pub lamp-compiled : compile_chart program normal_lamp ≡ pass compiled_lamp
unfolding resolve_optional compile_initializer compile_data compile_params compile_payload
    compile_delay compile_send compile_index compile_operation compile_choose compile_branches
    compile_foreach compile_block compile_blocks compile_transition compile_transitions
    compile_initial compile_invoke compile_invokes compile_done compile_head compile_state
    compile_children compile_chart indexed decimal
lamp-compiled = refl
