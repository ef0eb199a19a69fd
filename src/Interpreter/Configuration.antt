-- ===== src/Interpreter/Configuration.antt =====
-- What a microstep and the interpreter's exit do to the configuration.
pub mod Entering
use statecharts.Base.{
  not, ◌&&◌, ◌||◌, List, [], ◌∷◌, Option, none, some, ◌≡◌, refl, sym, ap, ◌∙◌, arith, inl, inr,
  Bool-cases, Option-cases, ◌==◌, is_empty,
}
use statecharts.Base.Sets.{
  elem, insert, delete, sort_asc, sort_desc, elem-insert, elem-delete, elem-sort_asc,
  elem-sort_desc, nil_of_elem,
}
use statecharts.Event.{Event}
use statecharts.Chart.{Chart, StateRef, Transition, Blocks, state_at, root}
use statecharts.Chart.Tree.{is_final}
use statecharts.Session.{Host, Result-cases}
use statecharts.Interpreter.{Interpretation, RunningInvoke, exec_context}
use statecharts.Interpreter.Model.{evaluate_payload}
use statecharts.Interpreter.Targets.{
  compute_exit_set, compute_entry, compute_entry_set, defaults_of,
}
use statecharts.Interpreter.Invoke.{cancel_each, cancel_invokes, running_of}
use statecharts.Interpreter.Enter.{
  evaluate_state_done, complete, notify_grandparent, notify_parent, finish_state, initialize_state,
  mark_invokes, activate, enter_state,
}
use statecharts.Interpreter.Exit.{exit_state, exit_each, exit_states, exit_interpreter}
use statecharts.Interpreter.Step.{trace_step, run_transitions, enter_each, microstep}
use statecharts.Interpreter.Frame.{Frame, Frame-refl, Frame-if}
use statecharts.Interpreter.Frame.Send.{enqueue_internal-Frame, report_error-Frame}
use statecharts.Interpreter.Frame.Model.{evaluate_payload-Frame}
use statecharts.Interpreter.Frame.Execute.{run_action_blocks-Frame, initialize_data-Frame}
use statecharts.Interpreter.Configuration.Entering.{
  configuration_of_Frame, cancel_invokes-configuration, enter_each-configuration,
}

module _ (c : Chart) {S : Type 0} (host : Host S) where
  pub exit_state-configuration :
      (ip : Interpretation S) (s : StateRef)
      → (exit_state c host ip s).configuration ≡ delete s ip.configuration
  unfolding exit_state
  exit_state-configuration ip s = ap (delete s) (
      cancel_invokes-configuration s _
      ∙ configuration_of_Frame
          (run_action_blocks-Frame host c (state_at c s).on_exit (Frame-refl ip)))

  exit_each-configuration :
      (ss : List StateRef) (ip : Interpretation S) (a : StateRef)
      → elem a (exit_each c host ss ip).configuration ≡ (not (elem a ss) && elem a ip.configuration)
  unfolding exit_each
  exit_each-configuration [] ip a = refl
  exit_each-configuration (s ∷ ss) ip a =
      exit_each-configuration ss (exit_state c host ip s) a
      ∙ ap (λ l. not (elem a ss) && elem a l) (exit_state-configuration ip s)
      ∙ ground (arith, elem-delete a s ip.configuration)

  -- Leaving a set of states removes exactly these from the configuration, whatever their exit
  -- actions do.
  pub exit_states-configuration :
      (exits : List StateRef) (ip : Interpretation S) (a : StateRef)
      → elem a (exit_states c host exits ip).configuration
        ≡ (not (elem a exits) && elem a ip.configuration)
  unfolding exit_states
  exit_states-configuration exits ip a =
      exit_each-configuration (sort_desc exits) _ a
      ∙ ap (λ b. not b && elem a ip.configuration) (elem-sort_desc exits a)

  run_transitions-Frame :
      {ip : Interpretation S} (ts : List Transition) {jp : Interpretation S}
      → Frame ip jp
      → Frame ip (run_transitions c host ts jp)
  unfolding run_transitions
  run_transitions-Frame [] f = f
  run_transitions-Frame (t ∷ ts) f =
      run_transitions-Frame ts (run_action_blocks-Frame host c t.actions f)

  trace_step-configuration :
      (trigger : Option Event) (ts : List Transition) (exits entries : List StateRef)
      (ip : Interpretation S)
      → (trace_step c trigger ts exits entries ip).configuration ≡ ip.configuration
  unfolding trace_step
  trace_step-configuration trigger ts exits entries ip = elim (Option-cases ip.macrostep_trace) [
    | inl q ↦ rw (q, trace_step)
    | inr (steps, q) ↦ rw (q, trace_step)
  ]

  -- After a microstep a state is active exactly when it is in the entry set, or when it was active
  -- and is not in the exit set; both sets are computed before anything runs, and no executable
  -- content, data initialisation or invocation changes the outcome.
  pub microstep-configuration :
      (trigger : Option Event) (ts : List Transition) (ip : Interpretation S) (a : StateRef)
      → elem a (microstep c host trigger ts ip).configuration ≡ (
          elem a (compute_entry c ip.history_value ts).states
          || (not (elem a (compute_exit_set c ip.history_value ip.configuration ts))
              && elem a ip.configuration))
  unfolding microstep compute_entry_set
  microstep-configuration trigger ts ip a =
      let exits = compute_exit_set c ip.history_value ip.configuration ts in
      let es = compute_entry c ip.history_value ts in
      let entries = sort_asc es.states in
      let traced = trace_step c trigger ts exits entries ip in
      let left = exit_states c host exits traced in
      let acted = run_transitions c host ts left in
      enter_each-configuration c host es.defaults entries acted a
      ∙ ap (λ l. elem a entries || elem a l)
          (configuration_of_Frame (run_transitions-Frame ts (Frame-refl left)))
      ∙ ap (λ b. elem a entries || b) (exit_states-configuration exits traced a)
      ∙ ap (λ l. elem a entries || (not (elem a exits) && elem a l))
          (trace_step-configuration trigger ts exits entries ip)
      ∙ ap (λ b. b || (not (elem a exits) && elem a ip.configuration)) (elem-sort_asc es.states a)

  -- The interpreter's exit leaves no state active and no delayed send pending, whatever was active.
  pub exit_interpreter_clears :
      (ip : Interpretation S)
      → ((exit_interpreter c host ip).configuration ≡ [])
        × ((exit_interpreter c host ip).pending ≡ [])
  unfolding exit_interpreter
  exit_interpreter_clears ip = (
    nil_of_elem _ λ a.
        exit_each-configuration (sort_desc ip.configuration) ip a
        ∙ ap (λ b. not b && elem a ip.configuration) (elem-sort_desc ip.configuration a)
        ∙ ground arith,
    refl,
  )
