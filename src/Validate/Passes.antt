-- ===== src/Validate/Passes.antt =====
-- definition_validate.go: the implicit defaults and types, filled in once, are filled in.
use statecharts.Base.{
  ◌≡◌, refl, if◌then◌else◌, List, [], ◌∷◌, Option, none, some, inl, inr, Bool-cases, map,
}
use statecharts.Chart.Tree.{is_compound}
use statecharts.Definition.{
  TransitionType, TransitionDefinition, StateHead, state, StateDefinitions, no_states, and_state,
}
use statecharts.Validate.Normalize.{
  implicit_initial, initial_or, normalize_implicit_initials, normalize_initials_below, or_external,
  with_type, with_type_if_some, normalize_transition_types, normalize_types_below,
}
use statecharts.Validate.Complete.{Named, Invoking, initial_of, IsComplete}

-- The heads of the children, as far as implicit defaults read them, outlive the later passes.
mutual
  unfolding normalize_implicit_initials implicit_initial

  implicit_initial-normalize_initials_below :
      (cs : StateDefinitions) → implicit_initial (normalize_initials_below cs) ≡ implicit_initial cs
  implicit_initial-normalize_initials_below no_states = refl
  implicit_initial-normalize_initials_below (and_state (state h cs) ss) =
      elim (Bool-cases (is_compound h.kind)) [
        | inl q ↦ rw (q, implicit_initial-normalize_initials_below ss) refl
        | inr q ↦ rw (q, implicit_initial-normalize_initials_below ss) refl
      ]

mutual
  unfolding normalize_transition_types implicit_initial

  implicit_initial-normalize_types_below :
      (cs : StateDefinitions) → implicit_initial (normalize_types_below cs) ≡ implicit_initial cs
  implicit_initial-normalize_types_below no_states = refl
  implicit_initial-normalize_types_below (and_state (state h cs) ss) =
      rw (implicit_initial-normalize_types_below ss) refl

initial_or_twice :
    (a b : Option TransitionDefinition) → initial_or (initial_or a b) b ≡ initial_or a b
initial_or_twice none none = refl
initial_or_twice none (some t) = refl
initial_or_twice (some t) b = refl

pub record IsInitialed (h : StateHead) (cs : StateDefinitions) : Type 0 where
  pub named : Named h
  pub invoking : Invoking h
  pub initial : initial_of h cs ≡ h.initial

pub initials_step :
    (h : StateHead) (cs : StateDefinitions)
    → Named h × Invoking h
    → IsInitialed
        (if is_compound h.kind
          then record h { initial = initial_or h.initial (implicit_initial cs) }
          else h)
        (normalize_initials_below cs)
initials_step h cs (named, invoking) = elim (Bool-cases (is_compound h.kind)) [
  | inl q ↦ rw q (record {
    named = named;
    invoking = invoking;
    initial =
        rw (q, implicit_initial-normalize_initials_below cs)
          (initial_or_twice h.initial (implicit_initial cs));
  })
  | inr q ↦ rw q (record { named = named; invoking = invoking; initial = rw q refl })
]

typed_initial :
    (a b : Option TransitionDefinition)
    → initial_or a b ≡ a
    → initial_or (with_type_if_some a) b ≡ with_type_if_some a
typed_initial none b e = e
typed_initial (some t) b e = refl

or_external_twice : (t : TransitionType) → or_external (or_external t) ≡ or_external t
or_external_twice TransitionType.unset = refl
or_external_twice TransitionType.external = refl
or_external_twice TransitionType.internal = refl
or_external_twice (TransitionType.invalid b) = refl

with_type_twice :
    (ts : List TransitionDefinition) → map with_type (map with_type ts) ≡ map with_type ts
with_type_twice [] = refl
with_type_twice (t ∷ ts) = rw (or_external_twice t.type, with_type_twice ts) refl

with_type_if_some_twice :
    (a : Option TransitionDefinition)
    → with_type_if_some (with_type_if_some a) ≡ with_type_if_some a
with_type_if_some_twice none = refl
with_type_if_some_twice (some t) = rw (or_external_twice t.type) refl

pub types_step :
    (h : StateHead) (cs : StateDefinitions)
    → IsInitialed h cs
    → IsComplete
        (record h {
          initial = with_type_if_some h.initial;
          transitions = map with_type h.transitions;
        })
        (normalize_types_below cs)
types_step h cs i = record {
  named = i.named;
  invoking = i.invoking;
  initial = elim (Bool-cases (is_compound h.kind)) [
    | inl q ↦
        rw (q, implicit_initial-normalize_types_below cs)
          (typed_initial h.initial (implicit_initial cs) (rw q at i.initial))
    | inr q ↦ rw q refl
  ];
  initial_type = with_type_if_some_twice h.initial;
  types = with_type_twice h.transitions;
}
