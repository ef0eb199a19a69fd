-- ===== src/Validate/Normalize.antt =====
-- definition_validate.go: what is filled in before the states are validated.
--
-- A generated ID counts up until it is not reserved. Among `n + 1` different candidates one is not
-- among `n` reserved IDs, so the search of one takes that much fuel.
use statecharts.Base.{
  ℕ, zero, suc, not, if◌then◌else◌, List, [], ◌∷◌, ◌++◌, Option, none, some, length, map,
}
use statecharts.Base.Bytes.{Bytes, codes, decimal}
use statecharts.Identifier.{Identifier, is_nil}
use statecharts.Chart.Tree.{is_compound, is_history}
use statecharts.Definition.{
  TransitionType, no_blocks, TransitionDefinition, InvokeDefinition, StateHead, StateDefinition,
  state, StateDefinitions, no_states, and_state,
}
use statecharts.Definition.{head as head_of}
use statecharts.Definition.Checked.{Checked, pass, ◌>>=◌, ◌>>◌, reject, indexed, below_path}
use statecharts.Validate.Expressions.{is_named}

-- `fmt.Sprintf("state.%d", n)` and `fmt.Sprintf("invoke.%d", n)`
unfoldable pub candidate : Bytes → ℕ → Identifier
candidate prefix n = prefix ++ decimal n

-- The loop of both generators, from `next` on: the number that is free.
unfoldable pub free_candidate : Bytes → ℕ → ℕ → List Identifier → ℕ
unfolding candidate
free_candidate prefix zero next reserved = suc next
free_candidate prefix (suc fuel) next reserved =
    let later = free_candidate prefix fuel (suc next) reserved in
    if is_named (candidate prefix (suc next)) reserved then later else suc next

-- A map of reserved IDs, and the number of the last candidate.
pub record Generator : Type 0 where
  pub reserved : List Identifier
  pub next : ℕ

-- A new ID, and the generator afterwards.
unfoldable pub generate : Bytes → Generator → Identifier × Generator
unfolding free_candidate
generate prefix g =
    let n = free_candidate prefix (length g.reserved) g.next g.reserved in
    let id = candidate prefix n in (id, record { reserved = id ∷ g.reserved; next = n })

-- `collectReservedStateIDs`
unfoldable mutual
  pub reserved_state_ids : StateDefinition → List Identifier
  reserved_state_ids (state h cs) =
      if is_nil h.id then reserved_below cs else h.id ∷ reserved_below cs

  pub reserved_below : StateDefinitions → List Identifier
  reserved_below no_states = []
  reserved_below (and_state s ss) = reserved_state_ids s ++ reserved_below ss

-- The part of `assignGeneratedStateIDs` for the state itself.
unfoldable pub assign_state_id : StateHead → Bytes → Generator → Checked (StateHead × Generator)
unfolding generate
assign_state_id h path g =
    let fresh = generate (codes "state.") g in
    if is_nil h.id
    then reject (not h.generated) (below_path path (codes ".id"))
      >> pass (record h { id = fresh.0 }, fresh.1)
    else pass (h, g)

-- `assignGeneratedStateIDs`
unfoldable mutual
  unfolding assign_state_id

  pub assign_generated_state_ids :
      StateDefinition → Bytes → Generator → Checked (StateDefinition × Generator)
  assign_generated_state_ids (state h cs) path g = do
    first ← assign_state_id h path g
    rest ← assign_below 0 cs path first.1
    pass (state first.0 rest.0, rest.1)

  pub assign_below :
      ℕ → StateDefinitions → Bytes → Generator → Checked (StateDefinitions × Generator)
  assign_below i no_states path g = pass (no_states, g)
  assign_below i (and_state s ss) path g = do
    first ← assign_generated_state_ids s (indexed (below_path path (codes ".children")) i) g
    rest ← assign_below (suc i) ss path first.1
    pass (and_state first.0 rest.0, rest.1)

-- `collectReservedInvokeDefinitionIDs`
abbrev pub given_ids : List InvokeDefinition → List Identifier
given_ids [] = []
given_ids (i ∷ is) = if is_nil i.definition_id then given_ids is else i.definition_id ∷ given_ids is

unfoldable mutual
  pub reserved_invoke_ids : StateDefinition → List Identifier
  reserved_invoke_ids (state h cs) = given_ids h.invokes ++ reserved_invokes_below cs

  pub reserved_invokes_below : StateDefinitions → List Identifier
  reserved_invokes_below no_states = []
  reserved_invokes_below (and_state s ss) = reserved_invoke_ids s ++ reserved_invokes_below ss

-- The loop of `assignGeneratedInvokeDefinitionIDs` over the invokes of a state.
unfoldable pub assign_invokes :
    List InvokeDefinition → Generator → List InvokeDefinition × Generator
unfolding generate
assign_invokes [] g = ([], g)
assign_invokes (i ∷ is) g =
    let fresh = generate (codes "invoke.") g in
    let kept = assign_invokes is g in
    let given = assign_invokes is fresh.1 in
    if is_nil i.definition_id
    then (record i { definition_id = fresh.0 } ∷ given.0, given.1)
    else (i ∷ kept.0, kept.1)

-- `assignGeneratedInvokeDefinitionIDs`
unfoldable mutual
  unfolding assign_invokes

  pub assign_generated_invoke_ids : StateDefinition → Generator → StateDefinition × Generator
  assign_generated_invoke_ids (state h cs) g =
      let own = assign_invokes h.invokes g in
      let below = assign_invokes_below cs own.1 in
      (state (record h { invokes = own.0 }) below.0, below.1)

  pub assign_invokes_below : StateDefinitions → Generator → StateDefinitions × Generator
  assign_invokes_below no_states g = (no_states, g)
  assign_invokes_below (and_state s ss) g =
      let first = assign_generated_invoke_ids s g in
      let rest = assign_invokes_below ss first.1 in (and_state first.0 rest.0, rest.1)

-- The first child that is no history state, as the target of a default transition.
unfoldable pub implicit_initial : StateDefinitions → Option TransitionDefinition
implicit_initial no_states = none
implicit_initial (and_state s ss) =
    let rest = implicit_initial ss in
    if is_history (head_of s).kind
    then rest
    else some (record {
      events = [];
      targets = (head_of s).id ∷ [];
      type = TransitionType.unset;
      condition = none;
      actions = no_blocks;
    })

abbrev pub initial_or :
    Option TransitionDefinition → Option TransitionDefinition → Option TransitionDefinition
initial_or none t = t
initial_or (some t) u = some t

-- `normalizeImplicitInitials`
unfoldable mutual
  unfolding implicit_initial

  pub normalize_implicit_initials : StateDefinition → StateDefinition
  normalize_implicit_initials (state h cs) =
      state
        (if is_compound h.kind
          then record h { initial = initial_or h.initial (implicit_initial cs) }
          else h)
        (normalize_initials_below cs)

  pub normalize_initials_below : StateDefinitions → StateDefinitions
  normalize_initials_below no_states = no_states
  normalize_initials_below (and_state s ss) =
      and_state (normalize_implicit_initials s) (normalize_initials_below ss)

abbrev pub or_external : TransitionType → TransitionType
or_external TransitionType.unset = TransitionType.external
or_external t = t

abbrev pub with_type : TransitionDefinition → TransitionDefinition
with_type t = record t { type = or_external t.type }

abbrev pub with_type_if_some : Option TransitionDefinition → Option TransitionDefinition
with_type_if_some none = none
with_type_if_some (some t) = some (with_type t)

-- `normalizeTransitionTypes`
unfoldable mutual
  pub normalize_transition_types : StateDefinition → StateDefinition
  normalize_transition_types (state h cs) =
      state
        (record h {
          initial = with_type_if_some h.initial;
          transitions = map with_type h.transitions;
        })
        (normalize_types_below cs)

  pub normalize_types_below : StateDefinitions → StateDefinitions
  normalize_types_below no_states = no_states
  normalize_types_below (and_state s ss) =
      and_state (normalize_transition_types s) (normalize_types_below ss)
