-- ===== src/Tests/Witnesses.antt =====
-- The theorems at concrete inputs: the chart `work`, its host and its interpreters.
use statecharts.Base.{
  ℕ, true, false, not, ◌&&◌, ◌||◌, List, [], ◌∷◌, none, some, ◌≡◌, ◌≢◌, ◌↔◌, ◌⊎◌, refl, All,
  Pairwise, ◌++◌, any, arith, length, keep, if◌then◌else◌, ◌<◌, ◌≤◌, ◌^◌, zero, suc, ◌==◌,
}
use statecharts.Base.Sets.{elem, sort_asc}
use statecharts.Base.Maps.{get}
use statecharts.Base.Bytes.{codes}
use statecharts.Identifier.{matches, trim_dot, trim_dot_star}
use statecharts.Identifier.Matching.{
  IsPlain, IsTokenPrefix, matches-IsTokenPrefix, matches_suffix_sugar,
}
use statecharts.Revision.{envelope}
use statecharts.Revision.Framing.{envelope_injective, derive_revision_identifies}
use statecharts.Chart.{Transition, state_at}
use statecharts.Chart.Tree.{proper_ancestors, is_descendant, climbs_to, is_compound_or_root}
use statecharts.Chart.Tree.Order.{Below, ParentChain, is_descendant_iff, elem-proper_ancestors}
use statecharts.Interpreter.{PendingSend}
use statecharts.Interpreter.Send.{
  do_cancel, handle_timer_fire, dispatch_now, forget_pending, replay_timer_fire,
}
use statecharts.Interpreter.Send.Timers.{handle_timer_fire-do_cancel}
use statecharts.Interpreter.Send.Deliveries.{deliveries, outcomes}
use statecharts.Interpreter.Send.Once.{fire_times, may_fire, handle_timer_fire_once}
use statecharts.Interpreter.Send.Replay.{IsChosen, replay_timer_fire-IsChosen}
use statecharts.Interpreter.Execute.{run_action_blocks}
use statecharts.Interpreter.Targets.{
  compute_entry, compute_entry_set, compute_exit_set, find_lcca, all_descendants,
}
use statecharts.Interpreter.Targets.Exits.{leaves, compute_exit_set_iff}
use statecharts.Interpreter.Targets.Lcca.{IsCommon, WithinOf, find_lcca_least}
use statecharts.Interpreter.Select.{
  select_transitions, atomic_states_in_doc_order, remove_conflicting_transitions,
}
use statecharts.Interpreter.Select.Conflicts.{Disjoint, remove_conflicting_transitions-Disjoint}
use statecharts.Interpreter.Select.Enabled.{OfStates, select_transitions-OfStates}
use statecharts.Interpreter.Invoke.{choose_invoke_id, invoke_id_reserved}
use statecharts.Interpreter.Invoke.Fresh.{choose_invoke_id_fresh}
use statecharts.Interpreter.Exit.{recorded_set, exit_states, exit_interpreter}
use statecharts.Interpreter.Exit.History.{IsHistoryOf, exit_states-history}
use statecharts.Interpreter.Exit.Order.{compute_entry_set-outward}
use statecharts.Interpreter.Step.{microstep, run_to_stable}
use statecharts.Interpreter.Step.Stable.{Settles, run_to_stable-Settles}
use statecharts.Interpreter.Frame.{Frame}
use statecharts.Interpreter.Frame.Content.{run_action_blocks_contained}
use statecharts.Interpreter.Select.Quiet.{Quiet, select_transitions-Quiet}
use statecharts.Interpreter.Configuration.{
  microstep-configuration, exit_states-configuration, exit_interpreter_clears,
}
use statecharts.Event.{plain_error, platform_error_value, platform_error_details}
use statecharts.Event.Details.{platform_error_details-platform_error_value}
use statecharts.Base.{◌+◌}
use statecharts.Interpreter.Targets.{collect_effective_target}
use statecharts.Interpreter.Targets.Effective.{collect_effective_target_fuel}
use statecharts.Tests.Runs.{rests, pause_taken}
use statecharts.Base.{Extends}
use statecharts.Interpreter.Step.{take_external}
use statecharts.Interpreter.Step.Fifo.{process_next_external-Extends}
use statecharts.Tests.{
  work, work-IsTree, host, event, to, at_second, waiting, delayed, anonymous_invoke, raise_left,
}

abbrev pausing : List Transition
pausing = to (codes "pause" ∷ []) (codes "paused") 1 ∷ []

abbrev moving : List Transition
moving = to (codes "next" ∷ []) (codes "first") 4 ∷ []

microstep-configuration_example :
    elem 4 (microstep work host (some (event (codes "pause"))) pausing at_second).configuration ≡ (
      elem 4 (compute_entry work at_second.history_value pausing).states
      || (not
            (elem 4 (compute_exit_set work at_second.history_value at_second.configuration pausing))
          && elem 4 at_second.configuration))
microstep-configuration_example =
    microstep-configuration work host (some (event (codes "pause"))) pausing at_second 4

remove_conflicting_transitions-Disjoint_example :
    Pairwise
      (Disjoint work [] (1 ∷ 4 ∷ []))
      (remove_conflicting_transitions work [] (1 ∷ 4 ∷ []) (moving ++ pausing))
remove_conflicting_transitions-Disjoint_example =
    remove_conflicting_transitions-Disjoint work [] (1 ∷ 4 ∷ []) (moving ++ pausing)

run_to_stable-Settles_example :
    Settles work host at_second × (run_to_stable work host 3 at_second ≡ some at_second)
run_to_stable-Settles_example =
    run_to_stable-Settles work host 1 3 at_second at_second rests (omega arith)

compute_exit_set_iff_example :
    elem 4 (compute_exit_set work [] (1 ∷ 4 ∷ []) pausing)
    ≡ (elem 4 (1 ∷ 4 ∷ []) && any (leaves work [] (1 ∷ 4 ∷ []) 4) pausing)
compute_exit_set_iff_example = compute_exit_set_iff work [] (1 ∷ 4 ∷ []) pausing 4

memory_of_run : IsHistoryOf work (1 ∷ 4 ∷ []) 2 1
unfolding state_at
memory_of_run = (refl, owner)
  where
    owner : (s : ℕ) → elem 2 (state_at work s).children ≡ (1 == s)
    owner zero = refl
    owner (suc zero) = refl
    owner (suc (suc zero)) = refl
    owner (suc (suc (suc zero))) = refl
    owner (suc (suc (suc (suc zero)))) = refl
    owner (suc (suc (suc (suc (suc zero))))) = refl
    owner (suc (suc (suc (suc (suc (suc s)))))) = ground arith

exit_states-history_example :
    get 2 (exit_states work host (1 ∷ 4 ∷ []) at_second).history_value
    ≡ some (sort_asc (recorded_set work (state_at work 2).history_kind 1 at_second.configuration))
exit_states-history_example = exit_states-history work host (1 ∷ 4 ∷ []) at_second 2 1 memory_of_run

above_both : IsCommon work (3 ∷ 4 ∷ []) 0
unfolding is_compound_or_root all_descendants is_descendant climbs_to state_at
above_both = refl

find_lcca_least_example :
    (a : ℕ) × (find_lcca work (3 ∷ 4 ∷ []) ≡ some a)
    × IsCommon work (3 ∷ 4 ∷ []) a
    × WithinOf work a 0
find_lcca_least_example = find_lcca_least work work-IsTree 3 0 (4 ∷ []) above_both

select_transitions-OfStates_example :
    All
      (OfStates work host
        (some (event (codes "pause")))
        (atomic_states_in_doc_order work at_second.configuration))
      (select_transitions work host (some (event (codes "pause"))) at_second).1
select_transitions-OfStates_example =
    select_transitions-OfStates work host (some (event (codes "pause"))) at_second

run_action_blocks_contained_example :
    Frame at_second (run_action_blocks host work raise_left at_second)
run_action_blocks_contained_example = run_action_blocks_contained work host raise_left at_second

select_transitions-Quiet_example : Quiet at_second (select_transitions work host none at_second).0
select_transitions-Quiet_example =
    select_transitions-Quiet work host (λ ec e s. (s, refl)) at_second none

compute_entry_set-outward_example :
    Pairwise (λ x y. ¬ Below work x y) (compute_entry_set work [] moving).0
compute_entry_set-outward_example = compute_entry_set-outward work work-IsTree [] moving

handle_timer_fire-do_cancel_example :
    handle_timer_fire host (delayed 5 2) (do_cancel (codes "late") waiting)
    ≡ do_cancel (codes "late") waiting
handle_timer_fire-do_cancel_example =
    handle_timer_fire-do_cancel host (delayed 5 2) (codes "late") waiting refl
      ((λ e. refl), ((λ e. refl), tt))

handle_timer_fire_once_example :
    let fired = fire_times host 4 (delayed 5 2) waiting in
    let count : ℕ = if may_fire host (delayed 5 2) waiting then 1 else 0 in
    (fired ≡ handle_timer_fire host (delayed 5 2) waiting)
    × (deliveries fired ≤ deliveries waiting + count)
    × (outcomes waiting + count ≤ outcomes fired)
handle_timer_fire_once_example = handle_timer_fire_once host 3 (delayed 5 2) waiting

replay_timer_fire-IsChosen_example :
    let fired = replay_timer_fire host (codes "late") [] [] (event (codes "ring")) waiting in
    (All (λ p. p.send_id ≢ codes "late") waiting.pending × (fired ≡ (waiting, false)))
    ⊎ ((r : PendingSend) × IsChosen (codes "late") [] [] (event (codes "ring")) waiting.pending r
        × (fired.0.pending ≡ keep (λ p. not (p.order == r.order)) waiting.pending)
        × (fired ≡ (
          dispatch_now host (codes "late") [] [] (event (codes "ring")) (forget_pending r waiting),
          true,
        )))
replay_timer_fire-IsChosen_example =
    replay_timer_fire-IsChosen host (codes "late") [] [] (event (codes "ring")) waiting

choose_invoke_id_fresh_example :
    invoke_id_reserved work at_second (choose_invoke_id work 4 anonymous_invoke at_second).1 ≡ false
choose_invoke_id_fresh_example = choose_invoke_id_fresh work 4 at_second anonymous_invoke refl

error_IsPlain : IsPlain (codes "error")
error_IsPlain = record {
  not_nil = refl;
  not_star = refl;
  no_dot = unfold trim_dot in refl;
  no_dot_star = unfold trim_dot_star in refl;
}

matches-IsTokenPrefix_example :
    (matches (codes "error") (codes "error.execution") ≡ true)
    ↔ IsTokenPrefix (codes "error") (codes "error.execution")
matches-IsTokenPrefix_example =
    matches-IsTokenPrefix (codes "error") (codes "error.execution") error_IsPlain

matches_suffix_sugar_example :
    (matches (codes "error" ++ codes ".*") (codes "error.execution")
      ≡ matches (codes "error") (codes "error.execution"))
    × (matches (codes "error" ++ codes ".") (codes "error.execution")
        ≡ matches (codes "error") (codes "error.execution"))
matches_suffix_sugar_example =
    matches_suffix_sugar (codes "error") (codes "error.execution") error_IsPlain

exit_states-configuration_example :
    elem 1 (exit_states work host (4 ∷ []) at_second).configuration
    ≡ (not (elem 1 (4 ∷ [])) && elem 1 at_second.configuration)
exit_states-configuration_example = exit_states-configuration work host (4 ∷ []) at_second 1

exit_interpreter_clears_example :
    ((exit_interpreter work host waiting).configuration ≡ [])
    × ((exit_interpreter work host waiting).pending ≡ [])
exit_interpreter_clears_example = exit_interpreter_clears work host waiting

is_descendant_iff_example : (is_descendant work 4 (some 0) ≡ true) ↔ ParentChain work 4 0
is_descendant_iff_example = is_descendant_iff work work-IsTree 4 0

elem-proper_ancestors_example :
    elem 1 (proper_ancestors work 4 none) ≡ is_descendant work 4 (some 1)
elem-proper_ancestors_example = elem-proper_ancestors work work-IsTree 4 1

abbrev short :
    All
      (λ s. length s < 256 ^ 8)
      (codes "{}" ∷ codes "go" ∷ codes "f" ∷ codes "{}" ∷ codes "go" ∷ codes "f" ∷ [])
short = (omega arith, (omega arith, (omega arith, (omega arith, (omega arith, (omega arith, tt))))))

envelope_injective_example :
    (codes "{}" ≡ codes "{}") × (codes "go" ≡ codes "go") × (codes "f" ≡ codes "f")
envelope_injective_example =
    envelope_injective (codes "{}") (codes "go") (codes "f") (codes "{}") (codes "go") (codes "f")
      short refl

derive_revision_identifies_example :
    ((codes "{}" ≡ codes "{}") × (codes "go" ≡ codes "go") × (codes "f" ≡ codes "f"))
    ⊎ ((envelope (codes "{}") (codes "go") (codes "f")
          ≢ envelope (codes "{}") (codes "go") (codes "f"))
        × (codes "digest" ≡ codes "digest"))
derive_revision_identifies_example =
    derive_revision_identifies (λ x. codes "digest") (codes "{}") (codes "go") (codes "f")
      (codes "{}") (codes "go") (codes "f")
      (λ x. (
        omega arith,
        (omega arith, (omega arith, (omega arith, (omega arith, (omega arith, tt))))),
      ))
      short refl

process_next_external-Extends_example :
    (run_to_stable work host 9 (
        take_external work host (event (codes "pause")) (event (codes "resume.now") ∷ []) at_second)
      ≡ some pause_taken.0)
    × Extends (event (codes "resume.now") ∷ []) pause_taken.0.external_queue
process_next_external-Extends_example =
    process_next_external-Extends work host 9 at_second pause_taken.0 (event (codes "pause"))
      (event (codes "resume.now") ∷ []) refl refl pause_taken.1

platform_error_details-platform_error_value_example :
    platform_error_details (
      platform_error_value
        (λ s. true)
        (λ s. s)
        (codes "error.execution")
        (plain_error (codes "no such state")))
    ≡ some (codes "error.execution", codes "no such state")
platform_error_details-platform_error_value_example =
    platform_error_details-platform_error_value (λ s. true) (λ s. s) (codes "error.execution")
      (plain_error (codes "no such state")) (λ s. refl) (λ s h. refl)

collect_effective_target_fuel_example :
    collect_effective_target work 9 [] [] [] 2
    ≡ collect_effective_target work (length work.order + 1) [] [] [] 2
collect_effective_target_fuel_example = collect_effective_target_fuel work [] 9 [] 2 (omega arith)
