-- ===== src/Tests/Runs.antt =====
-- Runs of the model on concrete inputs.
use statecharts.Base.{◌≡◌, refl, true, false, [], ◌∷◌, some, none, Option, List, ℕ}
use statecharts.Base.Bytes.{codes}
use statecharts.Base.Bytes.{decimal, sort_bytes}
use statecharts.Base.Sets.{
  insert, delete, insert_asc, insert_desc, sort_asc, sort_by_desc, sort_desc,
}
use statecharts.Chart.{state_at, by_id}
use statecharts.Chart.Tree.{
  is_atomic_kind, real_children, ancestors_from, proper_ancestors, climbs_to, is_descendant,
  is_compound_or_root,
}
use statecharts.Event.{platform_error_value}
use statecharts.Identifier.{
  segments, trim_dot_star, trim_dot, tokens_match, matches, segment_ok, segments_ok, trim_hash,
  new_identifier,
}
use statecharts.Interpreter.{
  new_interpretation, canonical_io_processor_type, canonical_invoke_type, enqueue_internal,
  enqueue_external, enqueue, report_error, report_comm_error, report_send_error, is_active,
  exec_context,
}
use statecharts.Interpreter.Enter.{
  in_final_from, is_in_final_state, evaluate_state_done, complete, notify_grandparent,
  notify_parent, finish_state, initialize_state, mark_invokes, activate, enter_state,
}
use statecharts.Interpreter.Execute.{
  run_block, and_then, ending, run_iteration, continue_block, choose_branch, optional_value,
  send_delay, execute_send, run_action_blocks, run_finalize_blocks, report_if, initialize_items,
  initialize_data,
}
use statecharts.Interpreter.Exit.{
  recorded_set, record_child, record_state, record_history, exit_state, exit_each, exit_states,
  exit_interpreter,
}
use statecharts.Interpreter.Invoke.{
  cancel_each, cancel_invokes, declared_ids, invoke_id, invoke_id_reserved, free_number,
  choose_invoke_id, or_report, assign_id, evaluate_invoke_request, report_start, register,
  start_requested, begin_invoke, process_invokes, forward_to, apply_invoke_side_effects,
}
use statecharts.Interpreter.Model.{
  raised_event, do_log, do_send_plain, forbidden, apply_effect, do_send_at, assign_send_id, perform,
  settle, evaluate_model_boolean, evaluate_model_value, assign_model, execute_model, value_string,
  string_result, eval_string, evaluate_params, map_result, evaluate_payload, after_location,
  do_send,
}
use statecharts.Interpreter.Select.{
  event_matches, exit_sets_intersect, atomic_states_in_doc_order, conflict, filter_transition,
  filter_from, remove_conflicting_transitions, cond_matches, first_enabled, enabled_in_chain,
  enabled_from, select_transitions,
}
use statecharts.Interpreter.Send.{
  session_target, stamp_external_event, delivery_id, after_processor, dispatch_to_processor,
  dispatch_to_invoke, dispatch_scxml, dispatch_now, schedule_send, generate_send_id, is_pending,
  forget_pending, do_cancel, fire_timer, handle_timer_fire, fires_before, insert_pending,
  sort_pending, replay_candidates, replay_timer_fire,
}
use statecharts.Interpreter.Step.{
  trace_step, run_transitions, enter_each, microstep, stable_round, run_to_stable, initial_entry,
  enter_initial, start, take_external, process_next_external,
}
use statecharts.Interpreter.Targets.{
  add_defaults, enter, resolve, entry_set_covers, add_ancestor_states, add_descendant_states,
  collect_effective_target, effective_target_states, all_descendants, first_common, find_lcca,
  transition_domain, compute_entry, compute_entry_set, exit_below, add_exits, compute_exit_set,
}
use statecharts.Interpreter.{Interpretation}
use statecharts.Tests.{work, host, at_second}
use statecharts.Base.{length, suc}
use statecharts.Value.{null}
use statecharts.Event.{event_of, internal}
use statecharts.Chart.{immediate}
use statecharts.Session.{Host, Activity, returns, sends_at, ok}

abbrev active : Option (Interpretation ℕ) → Option (List ℕ)
active none = none
active (some ip) = some ip.configuration

matches_cases :
    (matches (codes "error") (codes "error.execution") ≡ true)
    × (matches (codes "error.*") (codes "error") ≡ true)
    × (matches (codes "err") (codes "error") ≡ false)
    × (matches (codes "*") (codes "any.thing") ≡ true)
unfolding matches
matches_cases = (refl, refl, refl, refl)

-- An interpreter after the next external event.
abbrev step : Option (Interpretation ℕ) → Option (Interpretation ℕ)
step none = none
step (some ip) = elim (process_next_external work host 9 ip) [
  | none ↦ none
  | some (jp, b) ↦ some jp
]

-- The chart starts in its first step; pausing the second step leaves the run, and resuming brings the
-- second step back from the history; a round at rest changes nothing; the first event that waits is
-- taken.
runs :
    (active (start work host 9 (new_interpretation 0)) ≡ some (3 ∷ 1 ∷ []))
    × (active (step (some at_second)) ≡ some (5 ∷ []))
    × (active (step (step (some at_second))) ≡ some (4 ∷ 1 ∷ []))
    × (run_to_stable work host 1 at_second ≡ some at_second)
    × ((after : Interpretation ℕ) × (process_next_external work host 9 at_second
          ≡ some (after, true)))
unfolding run_block decimal sort_bytes insert delete insert_asc insert_desc sort_asc sort_by_desc
    sort_desc state_at by_id is_atomic_kind real_children ancestors_from proper_ancestors climbs_to
    is_descendant is_compound_or_root platform_error_value segments trim_dot_star trim_dot
    tokens_match matches segment_ok segments_ok trim_hash new_identifier new_interpretation
    canonical_io_processor_type canonical_invoke_type enqueue_internal enqueue_external enqueue
    report_error report_comm_error report_send_error is_active exec_context in_final_from
    is_in_final_state evaluate_state_done complete notify_grandparent notify_parent finish_state
    initialize_state mark_invokes activate enter_state and_then ending run_iteration continue_block
    choose_branch optional_value send_delay execute_send run_action_blocks run_finalize_blocks
    report_if initialize_items initialize_data recorded_set record_child record_state record_history
    exit_state exit_each exit_states exit_interpreter cancel_each cancel_invokes declared_ids
    invoke_id invoke_id_reserved free_number choose_invoke_id or_report assign_id
    evaluate_invoke_request report_start register start_requested begin_invoke process_invokes
    forward_to apply_invoke_side_effects raised_event do_log do_send_plain forbidden apply_effect
    do_send_at assign_send_id perform settle evaluate_model_boolean evaluate_model_value
    assign_model execute_model value_string string_result eval_string evaluate_params map_result
    evaluate_payload after_location do_send event_matches exit_sets_intersect
    atomic_states_in_doc_order conflict filter_transition filter_from remove_conflicting_transitions
    cond_matches first_enabled enabled_in_chain enabled_from select_transitions session_target
    stamp_external_event delivery_id after_processor dispatch_to_processor dispatch_to_invoke
    dispatch_scxml dispatch_now schedule_send generate_send_id is_pending forget_pending do_cancel
    fire_timer handle_timer_fire fires_before insert_pending sort_pending replay_candidates
    replay_timer_fire trace_step run_transitions enter_each microstep stable_round run_to_stable
    initial_entry enter_initial start take_external process_next_external add_defaults enter resolve
    entry_set_covers add_ancestor_states add_descendant_states collect_effective_target
    effective_target_states all_descendants first_common find_lcca transition_domain compute_entry
    compute_entry_set exit_below add_exits compute_exit_set
runs = (refl, refl, refl, refl, (_, refl))

pub rests : run_to_stable work host 1 at_second ≡ some at_second
rests = runs.3

pub pause_taken :
    (after : Interpretation ℕ) × (process_next_external work host 9 at_second ≡ some (after, true))
pause_taken = runs.4

-- A session that sends an event with an ID location sees the generated ID before it goes on, and the
-- event has it; here the location stores the ID's length, which `send.1` makes 6, and the rest adds 1.
abbrev locating : Activity ℕ
locating =
    sends_at (codes "ping")
      (record {
        send_id = [];
        target = codes "#_internal";
        type = [];
        payload = null;
        delay = immediate;
      })
      0 (λ id s. returns (length id)) (λ s. ok tt) (λ s. returns (suc s))

-- The host with a processor for every type, which accepts every request.
abbrev connected : Host ℕ
connected = record host { processor = λ typ. some (λ request. none) }

abbrev asked : Interpretation ℕ
asked = perform connected (exec_context connected work at_second) locating at_second

located :
    (asked.session ≡ 7)
    × (asked.internal_queue
        ≡ record (event_of (codes "ping") internal null) { send_id = codes "send.1" } ∷ [])
unfolding perform do_send_at forbidden generate_send_id after_location schedule_send dispatch_now
    dispatch_scxml canonical_io_processor_type exec_context enqueue_internal decimal
    new_interpretation
located = (refl, refl)
