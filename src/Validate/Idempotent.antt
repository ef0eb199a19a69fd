-- ===== src/Validate/Idempotent.antt =====
-- definition_validate.go: a definition that has been normalized is left alone.
use statecharts.Base.{
  ℕ, suc, ◌≡◌, refl, ap, subst, ◌∙◌, Bool, true, List, [], ◌∷◌, inl, inr, Bool-cases, all,
}
use statecharts.Base.Bytes.{Bytes, codes}
use statecharts.Identifier.{is_nil}
use statecharts.Chart.Tree.{is_compound}
use statecharts.Definition.{
  InvokeDefinition, StateDefinition, state, StateDefinitions, no_states, and_state,
}
use statecharts.Definition.Checked.{pass, >>=-eq-pass, pass_inj, indexed, below_path}
use statecharts.Validate.Normalize.{
  Generator, assign_state_id, assign_generated_state_ids, assign_below, assign_invokes,
  assign_generated_invoke_ids, assign_invokes_below, normalize_implicit_initials,
  normalize_initials_below, normalize_transition_types, normalize_types_below,
}
use statecharts.Definition.{DataBinding, Definition}
use statecharts.Validate.Normalize.{reserved_state_ids, reserved_invoke_ids}
use statecharts.Validate.{
  is_invalid, or_early, complete_states, validate_header, validate_root, normalize_definition,
}
use statecharts.Validate.Parts.{validate_data_definitions}
use statecharts.Validate.Complete.{
  Everywhere, EverywhereBelow, Named, is_given, Invoking, IsComplete,
  normalize_transition_types-Everywhere, normalize_implicit_initials-Everywhere,
  assign_generated_invoke_ids-Everywhere, assign_generated_state_ids-Named, assign_invokes-Invoking,
}
use statecharts.Validate.Passes.{IsInitialed, initials_step, types_step}

mutual
  unfolding assign_generated_state_ids assign_state_id

  assign_generated_state_ids_complete :
      (s : StateDefinition) (path : Bytes) (g : Generator)
      → Everywhere IsComplete s
      → assign_generated_state_ids s path g ≡ pass (s, g)
  assign_generated_state_ids_complete (state h cs) path g a =
      rw a.0.named (rw (assign_below_complete 0 cs path g a.1) refl)

  assign_below_complete :
      (i : ℕ) (ss : StateDefinitions) (path : Bytes) (g : Generator)
      → EverywhereBelow IsComplete ss
      → assign_below i ss path g ≡ pass (ss, g)
  assign_below_complete i no_states path g a = refl
  assign_below_complete i (and_state s ss) path g a =
      rw
        (assign_generated_state_ids_complete s (indexed (below_path path (codes ".children")) i) g
          a.0)
        (rw (assign_below_complete (suc i) ss path g a.1) refl)

assign_invokes-given :
    (is : List InvokeDefinition) (g : Generator)
    → all is_given is ≡ true
    → assign_invokes is g ≡ (is, g)
unfolding assign_invokes
assign_invokes-given [] g h = refl
assign_invokes-given (i ∷ is) g h = elim (Bool-cases (is_nil i.definition_id)) [
  | inl q ↦ cc (rw q at h)
  | inr q ↦ rw q (rw (assign_invokes-given is g (rw q at h)) refl)
]

mutual
  unfolding assign_generated_invoke_ids

  assign_generated_invoke_ids_complete :
      (s : StateDefinition) (g : Generator)
      → Everywhere IsComplete s
      → assign_generated_invoke_ids s g ≡ (s, g)
  assign_generated_invoke_ids_complete (state h cs) g a =
      rw (assign_invokes-given h.invokes g a.0.invoking)
        (rw (assign_invokes_below_complete cs g a.1) refl)

  assign_invokes_below_complete :
      (ss : StateDefinitions) (g : Generator)
      → EverywhereBelow IsComplete ss
      → assign_invokes_below ss g ≡ (ss, g)
  assign_invokes_below_complete no_states g a = refl
  assign_invokes_below_complete (and_state s ss) g a =
      rw (assign_generated_invoke_ids_complete s g a.0)
        (rw (assign_invokes_below_complete ss g a.1) refl)

mutual
  unfolding normalize_implicit_initials

  normalize_implicit_initials_complete :
      (s : StateDefinition) → Everywhere IsComplete s → normalize_implicit_initials s ≡ s
  normalize_implicit_initials_complete (state h cs) a =
      rw (normalize_initials_below_complete cs a.1) (
        ap (λ x. state x cs)
          (elim (Bool-cases (is_compound h.kind)) [
            | inl q ↦ rw q (ap (λ i. record h { initial = i }) (rw q at a.0.initial))
            | inr q ↦ rw q refl
          ]))

  normalize_initials_below_complete :
      (ss : StateDefinitions) → EverywhereBelow IsComplete ss → normalize_initials_below ss ≡ ss
  normalize_initials_below_complete no_states a = refl
  normalize_initials_below_complete (and_state s ss) a =
      rw (normalize_implicit_initials_complete s a.0, normalize_initials_below_complete ss a.1) refl

mutual
  unfolding normalize_transition_types

  normalize_transition_types_complete :
      (s : StateDefinition) → Everywhere IsComplete s → normalize_transition_types s ≡ s
  normalize_transition_types_complete (state h cs) a =
      rw (a.0.initial_type, a.0.types, normalize_types_below_complete cs a.1) refl

  normalize_types_below_complete :
      (ss : StateDefinitions) → EverywhereBelow IsComplete ss → normalize_types_below ss ≡ ss
  normalize_types_below_complete no_states a = refl
  normalize_types_below_complete (and_state s ss) a =
      rw (normalize_transition_types_complete s a.0, normalize_types_below_complete ss a.1) refl

complete_states-IsComplete :
    (s t : StateDefinition) → complete_states s ≡ pass t → Everywhere IsComplete t
unfolding complete_states
complete_states-IsComplete s t e =
    let g : Generator = record { reserved = reserved_state_ids s; next = 0 } in
    let (a, ha, e1) = >>=-eq-pass (assign_generated_state_ids s (codes "root") g) _ e in
    let k : Generator = record { reserved = reserved_invoke_ids a.0; next = 0 } in
    let invoking =
      assign_generated_invoke_ids-Everywhere (λ h cs. Named h) (λ h cs. Named h × Invoking h)
        (λ h cs ds g' n. (n, assign_invokes-Invoking h.invokes g')) a.0 k
        (assign_generated_state_ids-Named s (codes "root") g a ha) in
    let initialed =
      normalize_implicit_initials-Everywhere (λ h cs. Named h × Invoking h) IsInitialed
        initials_step (assign_generated_invoke_ids a.0 k).0 invoking in
    subst (Everywhere IsComplete) (pass_inj e1) (
      normalize_transition_types-Everywhere IsInitialed IsComplete types_step
        (normalize_implicit_initials (assign_generated_invoke_ids a.0 k).0) initialed)

complete_states_complete :
    (s : StateDefinition) → Everywhere IsComplete s → complete_states s ≡ pass s
unfolding complete_states
complete_states_complete s a =
    let g : Generator = record { reserved = reserved_state_ids s; next = 0 } in
    let k : Generator = record { reserved = reserved_invoke_ids s; next = 0 } in
    rw (assign_generated_state_ids_complete s (codes "root") g a) (
      rw (assign_generated_invoke_ids_complete s k a) (
        rw (normalize_implicit_initials_complete s a)
          (rw (normalize_transition_types_complete s a) refl)))

-- Completing the states of a definition twice is completing them once.
pub complete_states_twice :
    (s t : StateDefinition) → complete_states s ≡ pass t → complete_states t ≡ pass t
complete_states_twice s t e = complete_states_complete t (complete_states-IsComplete s t e)

or_early_valid : (b : DataBinding) → is_invalid (or_early b) ≡ is_invalid b
or_early_valid DataBinding.unset = refl
or_early_valid DataBinding.early = refl
or_early_valid DataBinding.late = refl
or_early_valid (DataBinding.invalid b) = refl

or_early_twice : (b : DataBinding) → or_early (or_early b) ≡ or_early b
or_early_twice DataBinding.unset = refl
or_early_twice DataBinding.early = refl
or_early_twice DataBinding.late = refl
or_early_twice (DataBinding.invalid b) = refl

module _ (valid_utf8 : Bytes → Bool) where
  validate_header_early :
      (d : Definition) (r : StateDefinition)
      → validate_header valid_utf8 (record d { data_binding = or_early d.data_binding; root = r })
        ≡ validate_header valid_utf8 d
  unfolding validate_header
  validate_header_early d r = rw (or_early_valid d.data_binding) refl

  -- A normalized definition is normal: normalizing it again succeeds and changes nothing.
  pub normalize_definition_twice :
      (d n : Definition)
      → normalize_definition valid_utf8 d ≡ pass n
      → normalize_definition valid_utf8 n ≡ pass n
  unfolding normalize_definition
  normalize_definition_twice d n e =
      let (u, hu, e1) = >>=-eq-pass (validate_header valid_utf8 d) _ e in
      let (ids, hi, e2) =
        >>=-eq-pass (validate_data_definitions valid_utf8 [] 0 d.items (codes "definition.data")) _
          e1 in
      let (r, hr, e3) = >>=-eq-pass (complete_states d.root) _ e2 in
      let (seen, hs, e4) = >>=-eq-pass (validate_root valid_utf8 ids r) _ e3 in
      let again : complete_states r ≡ pass r = complete_states_twice d.root r hr in
      subst (λ z. normalize_definition valid_utf8 z ≡ pass z) (pass_inj e4)
        (rw (validate_header_early d r ∙ hu)
          (rw hi (rw again (rw hs (rw (or_early_twice d.data_binding) refl)))))
