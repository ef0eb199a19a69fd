-- ===== src/Validate.antt =====
-- definition_validate.go: from a definition as it was written to one that is complete and valid.
-- `utf8.ValidString` is the parameter `valid_utf8`.
pub mod Expressions
pub mod Content
pub mod Nodes
pub mod Targets
pub mod Parts
pub mod States
pub mod Normalize
pub mod Canonical
pub mod Complete
pub mod Passes
pub mod Idempotent
pub mod Generated
pub mod Atoms
use statecharts.Base.{ℕ, zero, Bool, true, false, not, List, [], ◌∷◌, Option, none, some}
use statecharts.Base.Bytes.{Bytes, codes}
use statecharts.Definition.{DataBinding, Definition, StateDefinition}
use statecharts.Definition.Checked.{Checked, pass, fail, ◌>>=◌, ◌>>◌, reject}
use statecharts.Validate.Expressions.{validate_plain_identifier, validate_utf8}
use statecharts.Validate.Nodes.{Node, collect_states}
use statecharts.Validate.States.{validate_state}
use statecharts.Validate.Parts.{Seen, validate_data_definitions}
use statecharts.Validate.Normalize.{
  reserved_state_ids, assign_generated_state_ids, reserved_invoke_ids, assign_generated_invoke_ids,
  normalize_implicit_initials, normalize_transition_types,
}

abbrev pub is_invalid : DataBinding → Bool
is_invalid (DataBinding.invalid b) = true
is_invalid _ = false

abbrev pub or_early : DataBinding → DataBinding
or_early DataBinding.unset = DataBinding.early
or_early b = b

-- The passes of `normalizeDefinition` that fill in the states' tree.
unfoldable pub complete_states : StateDefinition → Checked StateDefinition
unfolding assign_generated_state_ids assign_generated_invoke_ids normalize_implicit_initials
complete_states s = do
  named ←
      assign_generated_state_ids s (codes "root")
        (record { reserved = reserved_state_ids s; next = 0 })
  let invoking =
      assign_generated_invoke_ids named.0
        (record { reserved = reserved_invoke_ids named.0; next = 0 })
  pass (normalize_transition_types (normalize_implicit_initials invoking.0))

module _ (valid_utf8 : Bytes → Bool) where
  unfoldable pub validate_header : Definition → Checked (Unit {0})
  unfolding validate_plain_identifier validate_utf8
  validate_header d = do
    validate_plain_identifier d.id (codes "definition.id")
    validate_utf8 valid_utf8 d.name (codes "definition.name")
    validate_plain_identifier d.datamodel (codes "definition.datamodel")
    validate_utf8 valid_utf8 d.revision_salt (codes "definition.revisionSalt")
    reject (is_invalid d.data_binding) (codes "definition.dataBinding")

  -- `collectStates` and `validateState` from the root.
  unfoldable pub validate_root : List Bytes → StateDefinition → Checked Seen
  unfolding collect_states validate_state
  validate_root data_ids root = do
    nodes ← collect_states none (codes "root") [] root
    validate_state valid_utf8 nodes true
        (record { data_ids = data_ids; invoke_definition_ids = []; invoke_ids = [] }) 0 root

  unfoldable pub normalize_definition : Definition → Checked Definition
  unfolding validate_header validate_data_definitions complete_states validate_root
  normalize_definition d = do
    validate_header d
    data_ids ← validate_data_definitions valid_utf8 [] 0 d.items (codes "definition.data")
    root ← complete_states d.root
    seen ← validate_root data_ids root
    pass (record d { data_binding = or_early d.data_binding; root = root })
