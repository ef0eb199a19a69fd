-- ===== src/Interpreter/Enter.antt =====
-- interpreter.go: entering a state, and what a final state does.
use statecharts.Base.{
  ℕ, zero, suc, Bool, true, false, not, if◌then◌else◌, ◌||◌, ◌&&◌, List, ◌++◌, Option, none, some,
  any, all, is_empty, length, ◌==◌,
}
use statecharts.Base.Bytes.{codes}
use statecharts.Base.Sets.{elem, insert}
use statecharts.Value.{Value, null}
use statecharts.Event.{Event, platform, event_of}
use statecharts.Chart.{Chart, StateRef, StateKind, compound, parallel, Blocks, state_at, root}
use statecharts.Chart.Tree.{is_final, is_parallel, real_children}
use statecharts.Session.{Host, ok, err}
use statecharts.Interpreter.{Interpretation, enqueue_internal, report_error, exec_context}
use statecharts.Interpreter.Model.{evaluate_payload}
use statecharts.Interpreter.Execute.{run_action_blocks, initialize_data}

module _ (c : Chart) where
  abbrev is_active_final : List StateRef → StateRef → Bool
  is_active_final configuration s = is_final (state_at c s).kind && elem s configuration

  abbrev in_final_by_kind : StateKind → (StateRef → Bool) → List StateRef → List StateRef → Bool
  in_final_by_kind compound rec configuration children =
      any (is_active_final configuration) children
  in_final_by_kind parallel rec configuration children = all rec children
  in_final_by_kind _ rec configuration children = false

  -- `isInFinalState`, on fuel for the depth of the tree.
  unfoldable pub in_final_from : ℕ → List StateRef → StateRef → Bool
  in_final_from zero configuration s = false
  in_final_from (suc fuel) configuration s =
      in_final_by_kind (state_at c s).kind (in_final_from fuel configuration) configuration
        (real_children c s)

  unfoldable pub is_in_final_state : List StateRef → StateRef → Bool
  unfolding in_final_from
  is_in_final_state = in_final_from (length c.order)

  module _ {S : Type 0} (host : Host S) where
    -- `evaluateStateDone`: an error is reported and yields the zero value.
    unfoldable pub evaluate_state_done : StateRef → Interpretation S → Interpretation S × Value
    evaluate_state_done s ip =
        let (ip', r) =
          evaluate_payload host (exec_context host c ip) (state_at c s).done_payload ip in
        elim r [ ok v ↦ (ip', v) | err e ↦ (report_error host e ip', null) ]

    abbrev done_state_event : StateRef → Value → Event
    done_state_event s v = event_of (codes "done.state." ++ (state_at c s).id) platform v

    -- A top-level final state ends the machine.
    unfoldable pub complete : StateRef → Interpretation S → Interpretation S
    complete s ip =
        let stopped = λ (jp : Interpretation S). record jp { completed = true; running = false } in
        elim (state_at c s).done_payload [
          | none ↦ stopped ip
          | some p ↦ let (ip', v) = evaluate_state_done s ip in stopped (record ip' { result = v })
        ]

    -- The done event of a parallel state all of whose regions are final.
    unfoldable pub notify_grandparent : Option StateRef → Interpretation S → Interpretation S
    notify_grandparent none ip = ip
    notify_grandparent (some g) ip =
        if is_parallel (state_at c g).kind
          && all (is_in_final_state ip.configuration) (real_children c g)
        then enqueue_internal (done_state_event g null) ip
        else ip

    unfoldable pub notify_parent : StateRef → StateRef → Interpretation S → Interpretation S
    notify_parent s p ip =
        let (ip', v) = evaluate_state_done s ip in
        notify_grandparent (state_at c p).parent (enqueue_internal (done_state_event p v) ip')

    -- The end of `enterState`.
    unfoldable pub finish_state : StateRef → Interpretation S → Interpretation S
    finish_state s ip =
        if not (is_final (state_at c s).kind) then ip else elim (state_at c s).parent [
          | none ↦ complete s ip
          | some p ↦ if p == root then complete s ip else notify_parent s p ip
        ]

    unfoldable pub initialize_state : StateRef → Interpretation S → Interpretation S
    initialize_state s ip =
        if is_empty (state_at c s).items || elem s ip.initialized_data
        then ip
        else let ip' = initialize_data host c (state_at c s).items ip in
          record ip' { initialized_data = insert s ip'.initialized_data }

    unfoldable pub mark_invokes : StateRef → Interpretation S → Interpretation S
    mark_invokes s ip =
        if is_empty (state_at c s).invokes
        then ip
        else record ip { states_to_invoke = insert s ip.states_to_invoke }

    unfoldable pub activate : StateRef → Interpretation S → Interpretation S
    activate s ip = record ip { configuration = insert s ip.configuration }

    unfoldable pub enter_state : StateRef → Blocks → Interpretation S → Interpretation S
    enter_state s defaults ip = finish_state s (
        mark_invokes s (
          run_action_blocks host c defaults (
            run_action_blocks host c (state_at c s).on_entry (initialize_state s (activate s ip)))))
