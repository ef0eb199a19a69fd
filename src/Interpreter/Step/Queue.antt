-- ===== src/Interpreter/Step/Queue.antt =====
-- The external queue: events leave it only at its front, one for each macrostep.
use statecharts.Base.{
  Bool, true, false, List, [], ◌∷◌, Option, inl, inr, Bool-cases, Option-cases, Extends,
  if◌then◌else◌, is_empty, ◌==◌, ◌||◌,
}
use statecharts.Base.Sets.{elem, sort_desc}
use statecharts.Event.{Event}
use statecharts.Chart.{Chart, StateRef, Transition, Blocks, state_at, root}
use statecharts.Chart.Tree.{is_final}
use statecharts.Session.{Host}
use statecharts.Interpreter.{Interpretation, RunningInvoke}
use statecharts.Interpreter.Execute.{run_action_blocks}
use statecharts.Interpreter.Targets.{compute_exit_set, compute_entry_set, defaults_of}
use statecharts.Interpreter.Invoke.{cancel_each, cancel_invokes, running_of}
use statecharts.Interpreter.Enter.{
  complete, finish_state, initialize_state, mark_invokes, activate, enter_state,
}
use statecharts.Interpreter.Exit.{exit_state, exit_each, exit_states}
use statecharts.Interpreter.Step.{trace_step, run_transitions, enter_each, microstep}
use statecharts.Interpreter.Frame.{Frame, Frame-refl}
use statecharts.Interpreter.Frame.Execute.{initialize_data-Frame}
use statecharts.Interpreter.Frame.Content.{run_action_blocks_contained}
use statecharts.Interpreter.Frame.{Extends-refl, Extends-trans}
use statecharts.Interpreter.Configuration.Entering.{evaluate_state_done-Frame, notify_parent-Frame}

-- The events that wait in `ip` still wait in `jp`, before any others.
pub record Queued {S : Type 0} (ip jp : Interpretation S) : Type 0 where
  pub kept : Extends ip.external_queue jp.external_queue

module _ {S : Type 0} where
  pub Queued-refl : (ip : Interpretation S) → Queued ip ip
  Queued-refl ip = record { kept = Extends-refl ip.external_queue }

  pub Queued-trans : {ip jp kp : Interpretation S} → Queued ip jp → Queued jp kp → Queued ip kp
  Queued-trans {ip} {jp} {kp} f g = record {
    kept = Extends-trans ip.external_queue jp.external_queue kp.external_queue f.kept g.kept;
  }

  -- What keeps the frame keeps the queue.
  pub Queued-Frame : {ip jp kp : Interpretation S} → Queued ip jp → Frame jp kp → Queued ip kp
  Queued-Frame f g = Queued-trans f (record { kept = g.external })

  pub Queued-if :
      (b : Bool) {ip jp kp : Interpretation S}
      → Queued ip jp
      → Queued ip kp
      → Queued ip (if b then jp else kp)
  Queued-if true f g = f
  Queued-if false f g = g

module _ {S : Type 0} {ip : Interpretation S} where
  cancel_each-Queued :
      (ris : List RunningInvoke) {jp : Interpretation S}
      → Queued ip jp
      → Queued ip (cancel_each ris jp)
  unfolding cancel_each
  cancel_each-Queued [] f = f
  cancel_each-Queued (ri ∷ ris) f = cancel_each-Queued ris (record { kept = f.kept })

  cancel_invokes-Queued :
      (s : StateRef) {jp : Interpretation S} → Queued ip jp → Queued ip (cancel_invokes s jp)
  unfolding cancel_invokes
  cancel_invokes-Queued s {jp} f =
      let g = cancel_each-Queued (running_of s jp.active_invokes) f in
      Queued-if (is_empty (running_of s jp.active_invokes)) f (record { kept = g.kept })

module _ (c : Chart) {S : Type 0} (host : Host S) {ip : Interpretation S} where
  exit_each-Queued :
      (ss : List StateRef) {jp : Interpretation S}
      → Queued ip jp
      → Queued ip (exit_each c host ss jp)
  unfolding exit_each exit_state
  exit_each-Queued [] f = f
  exit_each-Queued (s ∷ ss) {jp} f =
      let g =
        cancel_invokes-Queued s
          (Queued-Frame f (run_action_blocks_contained c host (state_at c s).on_exit jp)) in
      exit_each-Queued ss (record { kept = g.kept })

  exit_states-Queued :
      (exits : List StateRef) {jp : Interpretation S}
      → Queued ip jp
      → Queued ip (exit_states c host exits jp)
  unfolding exit_states
  exit_states-Queued exits f = exit_each-Queued (sort_desc exits) (record { kept = f.kept })

  trace_step-Queued :
      (trigger : Option Event) (ts : List Transition) (exits entries : List StateRef)
      {jp : Interpretation S}
      → Queued ip jp
      → Queued ip (trace_step c trigger ts exits entries jp)
  unfolding trace_step
  trace_step-Queued trigger ts exits entries {jp} f = elim (Option-cases jp.macrostep_trace) [
    | inl q ↦ rw (q, trace_step) f
    | inr (steps, q) ↦ rw (q, trace_step) (record { kept = f.kept })
  ]

  run_transitions-Queued :
      (ts : List Transition) {jp : Interpretation S}
      → Queued ip jp
      → Queued ip (run_transitions c host ts jp)
  unfolding run_transitions
  run_transitions-Queued [] f = f
  run_transitions-Queued (t ∷ ts) {jp} f =
      run_transitions-Queued ts (Queued-Frame f (run_action_blocks_contained c host t.actions jp))

  complete-Queued :
      (s : StateRef) {jp : Interpretation S} → Queued ip jp → Queued ip (complete c host s jp)
  unfolding complete
  complete-Queued s {jp} f =
      let g = Queued-Frame f (evaluate_state_done-Frame c host s (Frame-refl jp)) in
      elim (Option-cases (state_at c s).done_payload) [
        | inl q ↦ rw (q, complete) (record { kept = f.kept })
        | inr (p, q) ↦ rw (q, complete) (record { kept = g.kept })
      ]

  finish_state-Queued :
      (s : StateRef) {jp : Interpretation S} → Queued ip jp → Queued ip (finish_state c host s jp)
  unfolding finish_state
  finish_state-Queued s {jp} f = elim (Bool-cases (is_final (state_at c s).kind)) [
    | inr q ↦ rw (q, finish_state) f
    | inl q ↦ elim (Option-cases (state_at c s).parent) [
      | inl r ↦ rw (q, finish_state) (rw (r, finish_state) (complete-Queued s f))
      | inr (p, r) ↦
          rw (q, finish_state)
            (rw (r, finish_state)
              (Queued-if (p == root) (complete-Queued s f)
                (Queued-Frame f (notify_parent-Frame c host s p (Frame-refl jp)))))
    ]
  ]

  activate-Queued :
      (s : StateRef) {jp : Interpretation S} → Queued ip jp → Queued ip (activate c host s jp)
  unfolding activate
  activate-Queued s f = record { kept = f.kept }

  initialize_state-Queued :
      (s : StateRef) {jp : Interpretation S}
      → Queued ip jp
      → Queued ip (initialize_state c host s jp)
  unfolding initialize_state
  initialize_state-Queued s {jp} f =
      let g = Queued-Frame f (initialize_data-Frame host c (state_at c s).items (Frame-refl jp)) in
      Queued-if (is_empty (state_at c s).items || elem s jp.initialized_data) f
        (record { kept = g.kept })

  mark_invokes-Queued :
      (s : StateRef) {jp : Interpretation S} → Queued ip jp → Queued ip (mark_invokes c host s jp)
  unfolding mark_invokes
  mark_invokes-Queued s f = Queued-if (is_empty (state_at c s).invokes) f (record { kept = f.kept })

  enter_state-Queued :
      (s : StateRef) (defaults : Blocks) {jp : Interpretation S}
      → Queued ip jp
      → Queued ip (enter_state c host s defaults jp)
  unfolding enter_state
  enter_state-Queued s defaults {jp} f =
      let active = activate c host s jp in
      let on = activate-Queued s f in
      let ready = initialize_state c host s active in
      let g = initialize_state-Queued s on in
      let entered = run_action_blocks host c (state_at c s).on_entry ready in
      let g' = Queued-Frame g (run_action_blocks_contained c host (state_at c s).on_entry ready) in
      let g'' = Queued-Frame g' (run_action_blocks_contained c host defaults entered) in
      finish_state-Queued s (mark_invokes-Queued s g'')

  enter_each-Queued :
      (defaults : List (StateRef × Blocks)) (ss : List StateRef) {jp : Interpretation S}
      → Queued ip jp
      → Queued ip (enter_each c host defaults ss jp)
  unfolding enter_each
  enter_each-Queued defaults [] f = f
  enter_each-Queued defaults (s ∷ ss) f =
      enter_each-Queued defaults ss (enter_state-Queued s (defaults_of s defaults) f)

  pub microstep-Queued :
      (trigger : Option Event) (ts : List Transition) {jp : Interpretation S}
      → Queued ip jp
      → Queued ip (microstep c host trigger ts jp)
  unfolding microstep
  microstep-Queued trigger ts {jp} f =
      let exits = compute_exit_set c jp.history_value jp.configuration ts in
      let (entries, defaults) = compute_entry_set c jp.history_value ts in
      enter_each-Queued defaults entries (
        run_transitions-Queued ts
          (exit_states-Queued exits (trace_step-Queued trigger ts exits entries f)))
