-- ===== src/Validate/Complete.antt =====
-- definition_validate.go: a definition that has been completed is complete.
use statecharts.Base.{
  ℕ, suc, ◌≡◌, refl, subst, Bool, true, false, not, if◌then◌else◌, List, [], ◌∷◌, Option, inl, inr,
  Bool-cases, map, all,
}
use statecharts.Base.Bytes.{Bytes, codes}
use statecharts.Identifier.{is_nil}
use statecharts.Chart.Tree.{is_compound}
use statecharts.Definition.{
  TransitionDefinition, InvokeDefinition, StateHead, StateDefinition, state, StateDefinitions,
  no_states, and_state,
}
use statecharts.Definition.Checked.{pass, reject, >>=-eq-pass, pass_inj, indexed, below_path}
use statecharts.Validate.Normalize.{
  candidate, generate, Generator, assign_state_id, assign_generated_state_ids, assign_below,
  assign_invokes, assign_generated_invoke_ids, assign_invokes_below, implicit_initial, initial_or,
  normalize_implicit_initials, normalize_initials_below, with_type, with_type_if_some,
  normalize_transition_types, normalize_types_below,
}

-- A predicate of every state and its children.
abbrev mutual
  pub Everywhere : (StateHead → StateDefinitions → Type 0) → StateDefinition → Type 0
  Everywhere P (state h cs) = P h cs × EverywhereBelow P cs

  pub EverywhereBelow : (StateHead → StateDefinitions → Type 0) → StateDefinitions → Type 0
  EverywhereBelow P no_states = Unit
  EverywhereBelow P (and_state s ss) = Everywhere P s × EverywhereBelow P ss

abbrev pub Named : StateHead → Type 0
Named h = is_nil h.id ≡ false

abbrev pub is_given : InvokeDefinition → Bool
is_given i = not (is_nil i.definition_id)

abbrev pub Invoking : StateHead → Type 0
Invoking h = all is_given h.invokes ≡ true

-- What `normalizeImplicitInitials` gives the state.
abbrev pub initial_of : StateHead → StateDefinitions → Option TransitionDefinition
initial_of h cs =
    if is_compound h.kind then initial_or h.initial (implicit_initial cs) else h.initial

-- What the passes leave alone.
pub record IsComplete (h : StateHead) (cs : StateDefinitions) : Type 0 where
  pub named : Named h
  pub invoking : Invoking h
  pub initial : initial_of h cs ≡ h.initial
  pub initial_type : with_type_if_some h.initial ≡ h.initial
  pub types : map with_type h.transitions ≡ h.transitions

module _ (P Q : StateHead → StateDefinitions → Type 0) where
  module _
      (step : (h : StateHead) (cs : StateDefinitions)
        → P h cs
        → Q
            (record h {
              initial = with_type_if_some h.initial;
              transitions = map with_type h.transitions;
            })
            (normalize_types_below cs)) where
    mutual
      unfolding normalize_transition_types

      pub normalize_transition_types-Everywhere :
          (s : StateDefinition) → Everywhere P s → Everywhere Q (normalize_transition_types s)
      normalize_transition_types-Everywhere (state h cs) a =
          (step h cs a.0, normalize_types_below-Everywhere cs a.1)

      normalize_types_below-Everywhere :
          (ss : StateDefinitions)
          → EverywhereBelow P ss
          → EverywhereBelow Q (normalize_types_below ss)
      normalize_types_below-Everywhere no_states a = tt
      normalize_types_below-Everywhere (and_state s ss) a =
          (normalize_transition_types-Everywhere s a.0, normalize_types_below-Everywhere ss a.1)

  module _
      (step : (h : StateHead) (cs : StateDefinitions)
        → P h cs
        → Q
            (if is_compound h.kind
              then record h { initial = initial_or h.initial (implicit_initial cs) }
              else h)
            (normalize_initials_below cs)) where
    mutual
      unfolding normalize_implicit_initials

      pub normalize_implicit_initials-Everywhere :
          (s : StateDefinition) → Everywhere P s → Everywhere Q (normalize_implicit_initials s)
      normalize_implicit_initials-Everywhere (state h cs) a =
          (step h cs a.0, normalize_initials_below-Everywhere cs a.1)

      normalize_initials_below-Everywhere :
          (ss : StateDefinitions)
          → EverywhereBelow P ss
          → EverywhereBelow Q (normalize_initials_below ss)
      normalize_initials_below-Everywhere no_states a = tt
      normalize_initials_below-Everywhere (and_state s ss) a =
          (normalize_implicit_initials-Everywhere s a.0, normalize_initials_below-Everywhere ss a.1)

  module _
      (step : (h : StateHead) (cs ds : StateDefinitions) (g : Generator)
        → P h cs
        → Q (record h { invokes = (assign_invokes h.invokes g).0 }) ds) where
    mutual
      unfolding assign_generated_invoke_ids

      pub assign_generated_invoke_ids-Everywhere :
          (s : StateDefinition) (g : Generator)
          → Everywhere P s
          → Everywhere Q (assign_generated_invoke_ids s g).0
      assign_generated_invoke_ids-Everywhere (state h cs) g a = (
        step h cs (assign_invokes_below cs (assign_invokes h.invokes g).1).0 g a.0,
        assign_invokes_below-Everywhere cs (assign_invokes h.invokes g).1 a.1,
      )

      assign_invokes_below-Everywhere :
          (ss : StateDefinitions) (g : Generator)
          → EverywhereBelow P ss
          → EverywhereBelow Q (assign_invokes_below ss g).0
      assign_invokes_below-Everywhere no_states g a = tt
      assign_invokes_below-Everywhere (and_state s ss) g a = (
        assign_generated_invoke_ids-Everywhere s g a.0,
        assign_invokes_below-Everywhere ss (assign_generated_invoke_ids s g).1 a.1,
      )

assign_state_id-Named :
    (h : StateHead) (path : Bytes) (g : Generator) (r : StateHead × Generator)
    → assign_state_id h path g ≡ pass r
    → Named r.0
unfolding assign_state_id generate candidate
assign_state_id-Named h path g r e = elim (Bool-cases (is_nil h.id)) [
  | inl q ↦
      let (u, hu, e1) =
        >>=-eq-pass (reject (not h.generated) (below_path path (codes ".id"))) _ (rw q at e) in
      subst (λ z. Named z.0) (pass_inj e1) refl
  | inr q ↦ subst (λ z. Named z.0) (pass_inj (rw q at e)) q
]

mutual
  unfolding assign_generated_state_ids

  pub assign_generated_state_ids-Named :
      (s : StateDefinition) (path : Bytes) (g : Generator) (r : StateDefinition × Generator)
      → assign_generated_state_ids s path g ≡ pass r
      → Everywhere (λ h cs. Named h) r.0
  assign_generated_state_ids-Named (state h cs) path g r e =
      let (a, ha, e1) = >>=-eq-pass (assign_state_id h path g) _ e in
      let (b, hb, e2) = >>=-eq-pass (assign_below 0 cs path a.1) _ e1 in
      subst (λ z. Everywhere (λ h cs. Named h) z.0) (pass_inj e2)
        (assign_state_id-Named h path g a ha, assign_below-Named 0 cs path a.1 b hb)

  assign_below-Named :
      (i : ℕ) (ss : StateDefinitions) (path : Bytes) (g : Generator)
      (r : StateDefinitions × Generator)
      → assign_below i ss path g ≡ pass r
      → EverywhereBelow (λ h cs. Named h) r.0
  assign_below-Named i no_states path g r e =
      subst (λ z. EverywhereBelow (λ h cs. Named h) z.0) (pass_inj e) tt
  assign_below-Named i (and_state s ss) path g r e =
      let place = indexed (below_path path (codes ".children")) i in
      let (a, ha, e1) = >>=-eq-pass (assign_generated_state_ids s place g) _ e in
      let (b, hb, e2) = >>=-eq-pass (assign_below (suc i) ss path a.1) _ e1 in
      subst (λ z. EverywhereBelow (λ h cs. Named h) z.0) (pass_inj e2)
        (
          assign_generated_state_ids-Named s place g a ha,
          assign_below-Named (suc i) ss path a.1 b hb,
        )

pub assign_invokes-Invoking :
    (is : List InvokeDefinition) (g : Generator) → all is_given (assign_invokes is g).0 ≡ true
unfolding assign_invokes generate candidate
assign_invokes-Invoking [] g = refl
assign_invokes-Invoking (i ∷ is) g = elim (Bool-cases (is_nil i.definition_id)) [
  | inl q ↦ rw q (assign_invokes-Invoking is (generate (codes "invoke.") g).1)
  | inr q ↦ rw q (rw q (assign_invokes-Invoking is g))
]
