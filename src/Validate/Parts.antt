-- ===== src/Validate/Parts.antt =====
-- definition_validate.go: data declarations, transitions and invokes.
use statecharts.Base.{
  ℕ, suc, ◌+◌, Bool, true, false, not, ◌&&◌, ◌||◌, if◌then◌else◌, List, [], ◌∷◌, Option, none, some,
  is_some, ◌==◌, is_empty, ltb,
}
use statecharts.Base.Bytes.{Bytes, codes}
use statecharts.Identifier.{Identifier, is_nil, new_identifier}
use statecharts.Chart.{HistoryKind, shallow, deep}
use statecharts.Definition.{
  ExecutableBlocks, no_blocks, blocks_of, TransitionType, TransitionDefinition, InvokeDefinition,
  DataDefinition, StateDefinitions, no_states, and_state,
}
use statecharts.Definition.Checked.{
  Checked, pass, ◌>>=◌, ◌>>◌, reject, indexed, below_path, whenever,
}
use statecharts.Validate.Expressions.{
  validate_plain_identifier, validate_utf8, validate_optional, validate_either, validate_payload,
  both_given, is_named,
}
use statecharts.Validate.Content.{validate_blocks, count_if}
use statecharts.Validate.Nodes.{Node}
use statecharts.Validate.Targets.{validate_target_set}

-- The maps of `definitionValidator` that its checks fill.
pub record Seen : Type 0 where
  pub data_ids : List Identifier
  pub invoke_definition_ids : List Identifier
  pub invoke_ids : List Identifier

abbrev pub is_no_blocks : ExecutableBlocks → Bool
is_no_blocks no_blocks = true
is_no_blocks (blocks_of b bs) = false

abbrev pub is_no_states : StateDefinitions → Bool
is_no_states no_states = true
is_no_states (and_state s ss) = false

abbrev pub is_valid_type : TransitionType → Bool
is_valid_type TransitionType.external = true
is_valid_type TransitionType.internal = true
is_valid_type _ = false

abbrev pub is_internal_kind : TransitionType → Bool
is_internal_kind TransitionType.internal = true
is_internal_kind _ = false

abbrev pub is_shallow : HistoryKind → Bool
is_shallow shallow = true
is_shallow deep = false

abbrev pub no_targets : Option TransitionDefinition → Bool
no_targets none = true
no_targets (some t) = is_empty t.targets

abbrev pub same_node : Option ℕ → Option ℕ → Bool
same_node none none = true
same_node (some a) (some b) = a == b
same_node _ _ = false

abbrev pub path_of : Option Node → Bytes
path_of none = []
path_of (some n) = n.path

-- The loop over the events of `validateTransition`, with `validateEventDescriptor`.
unfoldable pub validate_events : ℕ → List Identifier → Bytes → Checked (Unit {0})
unfolding new_identifier
validate_events i [] path = pass tt
validate_events i (e ∷ es) path = do
  reject (not (new_identifier e)) (indexed (below_path path (codes ".events")) i)
  validate_events (suc i) es path

module _ (valid_utf8 : Bytes → Bool) where
  -- `validateDataDefinitions`, from the `i`-th declaration on: the IDs declared so far, with these.
  unfoldable pub validate_data_definitions :
      List Identifier → ℕ → List DataDefinition → Bytes → Checked (List Identifier)
  unfolding validate_plain_identifier validate_utf8 validate_optional
  validate_data_definitions ids i [] path = pass ids
  validate_data_definitions ids i (d ∷ ds) path = do
    let item_path = indexed path i
    validate_plain_identifier d.id (below_path item_path (codes ".id"))
    reject (is_named d.id ids) (below_path item_path (codes ".id"))
    reject
        (ltb 1 (
          count_if (not (is_nil d.source))
          + count_if (is_some d.expr)
          + count_if (is_some d.content)))
        item_path
    validate_utf8 valid_utf8 d.source (below_path item_path (codes ".source"))
    validate_optional valid_utf8 d.expr (below_path item_path (codes ".expr"))
    validate_optional valid_utf8 d.content (below_path item_path (codes ".content"))
    validate_data_definitions (d.id ∷ ids) (suc i) ds path

  -- The part of `validateInvoke` that checks the IDs: those declared so far, with these.
  unfoldable pub validate_invoke_ids : Seen → InvokeDefinition → Bytes → Checked Seen
  unfolding validate_plain_identifier
  validate_invoke_ids seen i path = do
    validate_plain_identifier i.definition_id (below_path path (codes ".definitionId"))
    reject (is_named i.definition_id seen.invoke_definition_ids)
        (below_path path (codes ".definitionId"))
    reject (both_given i.id i.id_location) (below_path path (codes ".idLocation"))
    whenever (not (is_nil i.id)) (do
      validate_plain_identifier i.id (below_path path (codes ".id"))
      reject (is_named i.id seen.invoke_ids) (below_path path (codes ".id")))
    pass (record seen {
      invoke_definition_ids = i.definition_id ∷ seen.invoke_definition_ids;
      invoke_ids = if is_nil i.id then seen.invoke_ids else i.id ∷ seen.invoke_ids;
    })

  unfoldable pub validate_invoke : Seen → InvokeDefinition → Bytes → Checked Seen
  unfolding validate_invoke_ids validate_optional validate_either validate_payload validate_blocks
  validate_invoke seen i path = do
    more ← validate_invoke_ids seen i path
    validate_optional valid_utf8 i.id_location (below_path path (codes ".idLocation"))
    validate_either valid_utf8 i.type i.type_expr (below_path path (codes ".type"))
        (below_path path (codes ".typeExpr"))
    validate_either valid_utf8 i.src i.src_expr (below_path path (codes ".src"))
        (below_path path (codes ".srcExpr"))
    validate_payload valid_utf8 i.params i.content path
    validate_blocks valid_utf8 true i.finalize (below_path path (codes ".finalize"))
    pass more

  unfoldable pub validate_invokes : Seen → ℕ → List InvokeDefinition → Bytes → Checked Seen
  unfolding validate_invoke
  validate_invokes seen k [] path = pass seen
  validate_invokes seen k (i ∷ is) path = do
    more ← validate_invoke seen i (indexed (below_path path (codes ".invokes")) k)
    validate_invokes more (suc k) is path

  module _ (nodes : List Node) where
    unfoldable pub validate_transition : TransitionDefinition → Bytes → Bool → Checked (Unit {0})
    unfolding validate_events validate_optional validate_blocks validate_target_set
    validate_transition t path is_default = do
      reject (not (is_valid_type t.type)) (below_path path (codes ".type"))
      reject (is_default && (not (is_empty t.events) || is_some t.condition)) path
      reject
          (not is_default && is_empty t.events && not (is_some t.condition) && is_empty t.targets)
          path
      validate_events 0 t.events path
      validate_optional valid_utf8 t.condition (below_path path (codes ".condition"))
      validate_blocks valid_utf8 false t.actions (below_path path (codes ".actions"))
      validate_target_set nodes t.targets (below_path path (codes ".targets"))

    unfoldable pub validate_transitions : ℕ → List TransitionDefinition → Bytes → Checked (Unit {0})
    unfolding validate_transition
    validate_transitions i [] path = pass tt
    validate_transitions i (t ∷ ts) path = do
      validate_transition t (indexed (below_path path (codes ".transitions")) i) false
      validate_transitions (suc i) ts path
