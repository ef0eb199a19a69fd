-- ===== src/Interpreter/Frame/Select.antt =====
-- Selecting transitions evaluates conditions and reports their errors: what these keep, it keeps.
use statecharts.Base.{List, [], ◌∷◌, Option, none, inl, inr, Bool-cases, Option-cases}
use statecharts.Event.{Event, Error}
use statecharts.Chart.{Chart, StateRef, Transition, Expression, state_at}
use statecharts.Chart.Tree.{proper_ancestors}
use statecharts.Session.{Host, Result-cases}
use statecharts.Interpreter.{Interpretation, exec_context, report_error}
use statecharts.Interpreter.Model.{evaluate_model_boolean}
use statecharts.Interpreter.Select.{
  cond_matches, is_candidate, first_enabled, enabled_in_chain, enabled_from,
  atomic_states_in_doc_order, select_transitions,
}
use statecharts.Interpreter.Frame.{Frame}
use statecharts.Interpreter.Frame.Send.{report_error-Frame}
use statecharts.Interpreter.Frame.Model.{evaluate_model_boolean-Frame}

module _ (c : Chart) {S : Type 0} (host : Host S) (Kept : Interpretation S → Type 0)
    (evaluate : (e : Expression) (jp : Interpretation S)
      → Kept jp
      → Kept (evaluate_model_boolean host (exec_context host c jp) e jp).0)
    (report : (x : Error) (jp : Interpretation S) → Kept jp → Kept (report_error host x jp)) where
  cond_matches-kept :
      {jp : Interpretation S} (t : Transition) → Kept jp → Kept (cond_matches c host t jp).0
  unfolding cond_matches
  cond_matches-kept {jp} t f = elim (Option-cases t.condition) [
    | inl q ↦ rw (q, cond_matches) f
    | inr (e, q) ↦
        let ec = exec_context host c jp in
        let g = evaluate e jp f in
        elim (Result-cases (evaluate_model_boolean host ec e jp).1) [
          | inl (b, r) ↦ rw (q, cond_matches) (rw (r, cond_matches) g)
          | inr (x, r) ↦ rw (q, cond_matches) (rw (r, cond_matches) (report x _ g))
        ]
  ]

  first_enabled-kept :
      (ev : Option Event) (ts : List Transition) {jp : Interpretation S}
      → Kept jp
      → Kept (first_enabled c host ev ts jp).0
  unfolding first_enabled
  first_enabled-kept ev [] f = f
  first_enabled-kept ev (t ∷ ts) {jp} f =
      let skipped = first_enabled-kept ev ts f in
      let tried = cond_matches-kept t f in
      let refused = first_enabled-kept ev ts tried in
      elim (Bool-cases (is_candidate c host ev t)) [
        | inr q ↦ rw (q, first_enabled) skipped
        | inl q ↦ elim (Bool-cases (cond_matches c host t jp).1) [
          | inl r ↦ rw (q, first_enabled) (rw (r, first_enabled) tried)
          | inr r ↦ rw (q, first_enabled) (rw (r, first_enabled) refused)
        ]
      ]

  enabled_in_chain-kept :
      (ev : Option Event) (chain : List StateRef) {jp : Interpretation S}
      → Kept jp
      → Kept (enabled_in_chain c host ev chain jp).0
  unfolding enabled_in_chain
  enabled_in_chain-kept ev [] f = f
  enabled_in_chain-kept ev (s ∷ chain) {jp} f =
      let here = first_enabled-kept ev (state_at c s).transitions f in
      let up = enabled_in_chain-kept ev chain here in
      elim (Option-cases (first_enabled c host ev (state_at c s).transitions jp).1) [
        | inl q ↦ rw (q, enabled_in_chain) up
        | inr (t, q) ↦ rw (q, enabled_in_chain) here
      ]

  enabled_from-kept :
      (ev : Option Event) (states : List StateRef) (enabled : List Transition)
      {jp : Interpretation S}
      → Kept jp
      → Kept (enabled_from c host ev states enabled jp).0
  unfolding enabled_from
  enabled_from-kept ev [] enabled f = f
  enabled_from-kept ev (s ∷ states) enabled f =
      enabled_from-kept ev states _ (enabled_in_chain-kept ev (s ∷ proper_ancestors c s none) f)

  pub select_transitions-kept :
      (ev : Option Event) {jp : Interpretation S}
      → Kept jp
      → Kept (select_transitions c host ev jp).0
  unfolding select_transitions
  select_transitions-kept ev {jp} f =
      enabled_from-kept ev (atomic_states_in_doc_order c jp.configuration) [] f

module _ (c : Chart) {S : Type 0} (host : Host S) {ip : Interpretation S} where
  pub select_transitions-Frame :
      (ev : Option Event) {jp : Interpretation S}
      → Frame ip jp
      → Frame ip (select_transitions c host ev jp).0
  select_transitions-Frame =
      select_transitions-kept c host (Frame ip)
        (λ e kp f. evaluate_model_boolean-Frame host (exec_context host c kp) e f)
        (λ x kp f. report_error-Frame host x f)
