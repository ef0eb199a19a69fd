-- ===== src/Interpreter/Select.antt =====
-- interpreter.go: transition selection and the removal of conflicts.
pub mod Conflicts
pub mod Enabled
pub mod Quiet
use statecharts.Base.{
  ℕ, Bool, true, false, not, if◌then◌else◌, ◌||◌, ◌&&◌, List, [], ◌∷◌, ◌++◌, Option, none, some,
  any, is_empty, keep, suc, zero, ◌==◌,
}
use statecharts.Base.Sets.{elem}
use statecharts.Identifier.{Identifier, matches}
use statecharts.Event.{Event}
use statecharts.Chart.{Chart, StateRef, State, Transition, state_at}
use statecharts.Chart.Tree.{is_atomic_kind, proper_ancestors, is_descendant}
use statecharts.Session.{Host, Result, ok, err}
use statecharts.Interpreter.{Interpretation, report_error, exec_context}
use statecharts.Interpreter.Model.{evaluate_model_boolean}
use statecharts.Interpreter.Targets.{HistoryValue, compute_exit_set}

-- The places of the states, in document order: `chart.order`.
abbrev places_from : ℕ → List State → List StateRef
places_from i [] = []
places_from i (s ∷ ss) = i ∷ places_from (suc i) ss

abbrev pub places : Chart → List StateRef
places c = places_from 0 c.order

-- The same pointer: one definition index under one source. (A default transition is never
-- selected.)
abbrev pub same_transition : Transition → Transition → Bool
same_transition t u = (t.source == u.source) && (t.definition_index == u.definition_index)

unfoldable pub event_matches : Transition → Identifier → Bool
event_matches t name = any (λ d. matches d name) t.events

-- `exitSetsIntersect`; which of the two sets is walked does not matter.
unfoldable pub exit_sets_intersect : List StateRef → List StateRef → Bool
exit_sets_intersect a b = any (λ s. elem s b) a

module _ (c : Chart) where
  unfoldable pub atomic_states_in_doc_order : List StateRef → List StateRef
  unfolding is_atomic_kind
  atomic_states_in_doc_order configuration =
      keep (λ s. is_atomic_kind c s && elem s configuration) (places c)

  -- What the inner loop of `removeConflictingTransitions` decides about `t1`: it is preempted, or
  -- the listed transitions give way to it.
  pub data Conflict : Type 0 where
    preempted : Conflict
    replaces : List Transition → Conflict

  abbrev add_replaced : Transition → Conflict → Conflict
  add_replaced t preempted = preempted
  add_replaced t (replaces ts) = replaces (t ∷ ts)

  unfoldable pub conflict : HistoryValue → List StateRef → Transition → List Transition → Conflict
  unfolding compute_exit_set exit_sets_intersect
  conflict recorded configuration t1 [] = replaces []
  conflict recorded configuration t1 (t2 ∷ rest) =
      let later = conflict recorded configuration t1 rest in
      if exit_sets_intersect (compute_exit_set c recorded configuration (t1 ∷ []))
        (compute_exit_set c recorded configuration (t2 ∷ []))
      then if is_descendant c t1.source (some t2.source) then add_replaced t2 later else preempted
      else later

  -- One round of the outer loop.
  unfoldable pub filter_transition :
      HistoryValue → List StateRef → List Transition → Transition → List Transition
  unfolding conflict
  filter_transition recorded configuration filtered t1 =
      elim (conflict recorded configuration t1 filtered) [
        | preempted ↦ filtered
        | replaces removed ↦ keep (λ t. not (any (same_transition t) removed)) filtered ++ (t1 ∷ [])
      ]

  unfoldable pub filter_from :
      HistoryValue → List StateRef → List Transition → List Transition → List Transition
  unfolding filter_transition
  filter_from recorded configuration filtered [] = filtered
  filter_from recorded configuration filtered (t ∷ ts) =
      filter_from recorded configuration (filter_transition recorded configuration filtered t) ts

  unfoldable pub remove_conflicting_transitions :
      HistoryValue → List StateRef → List Transition → List Transition
  unfolding filter_from
  remove_conflicting_transitions recorded configuration enabled =
      filter_from recorded configuration [] enabled

  module _ {S : Type 0} (host : Host S) where
    -- The interpreter after a condition, and whether it holds: an error is reported and is false.
    unfoldable pub cond_matches : Transition → Interpretation S → Interpretation S × Bool
    cond_matches t ip = elim t.condition [
      | none ↦ (ip, true)
      | some e ↦
          let (ip', r) = evaluate_model_boolean host (exec_context host c ip) e ip in
          elim r [ ok b ↦ (ip', b) | err x ↦ (report_error host x ip', false) ]
    ]

    -- Whether a transition is a candidate for the event, or, without one, eventless.
    abbrev pub is_candidate : Option Event → Transition → Bool
    is_candidate none t = is_empty t.events
    is_candidate (some ev) t = not (is_empty t.events) && event_matches t ev.name

    -- The loop over the transitions of one state: the first candidate whose condition holds.
    unfoldable pub first_enabled :
        Option Event → List Transition → Interpretation S → Interpretation S × Option Transition
    first_enabled ev [] ip = (ip, none)
    first_enabled ev (t ∷ ts) ip = elim (is_candidate ev t) [
      | false ↦ first_enabled ev ts ip
      | true ↦
          let (ip', holds) = cond_matches t ip in
          elim holds [ true ↦ (ip', some t) | false ↦ first_enabled ev ts ip' ]
    ]

    -- `branchLoop`: up the chain of ancestors to the first state with an enabled transition.
    unfoldable pub enabled_in_chain :
        Option Event → List StateRef → Interpretation S → Interpretation S × Option Transition
    enabled_in_chain ev [] ip = (ip, none)
    enabled_in_chain ev (s ∷ chain) ip =
        let (ip', found) = first_enabled ev (state_at c s).transitions ip in
        elim found [ some t ↦ (ip', some t) | none ↦ enabled_in_chain ev chain ip' ]

    abbrev pub add_enabled : List Transition → Option Transition → List Transition
    add_enabled enabled none = enabled
    add_enabled enabled (some t) =
        if any (same_transition t) enabled then enabled else enabled ++ (t ∷ [])

    -- The loop over the active atomic states.
    unfoldable pub enabled_from :
        Option Event
        → List StateRef
        → List Transition
        → Interpretation S
        → Interpretation S × List Transition
    enabled_from ev [] enabled ip = (ip, enabled)
    enabled_from ev (s ∷ states) enabled ip =
        let (ip', found) = enabled_in_chain ev (s ∷ proper_ancestors c s none) ip in
        enabled_from ev states (add_enabled enabled found) ip'

    -- `selectTransitions` for an event, and `selectEventlessTransitions` without one.
    unfoldable pub select_transitions :
        Option Event → Interpretation S → Interpretation S × List Transition
    select_transitions ev ip =
        let (ip', enabled) = enabled_from ev (atomic_states_in_doc_order ip.configuration) [] ip in
        (ip', remove_conflicting_transitions ip'.history_value ip'.configuration enabled)
