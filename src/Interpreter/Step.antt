-- ===== src/Interpreter/Step.antt =====
-- interpreter.go: microsteps, macrosteps, the start of a chart.
--
-- A macrostep may run for ever, when a chart keeps enabling eventless transitions or raising
-- events. `run_to_stable` therefore takes fuel, the number of rounds, and `none` says that the
-- rounds were not enough.
pub mod Stable
pub mod Queue
pub mod Invocations
pub mod Fifo
use statecharts.Base.{
  ℕ, zero, suc, Bool, true, false, not, if◌then◌else◌, ◌||◌, ◌&&◌, List, [], ◌∷◌, ◌++◌, Option,
  none, some, is_empty, fold_left, map,
}
use statecharts.Base.Sets.{insert, sort_asc}
use statecharts.Identifier.{Identifier}
use statecharts.Event.{Event}
use statecharts.Chart.{
  Chart, StateRef, StateKind, compound, parallel, Transition, Blocks, state_at, root,
}
use statecharts.Chart.Tree.{real_children}
use statecharts.Session.{Host}
use statecharts.Interpreter.{Interpretation, MicrostepTrace, TransitionRef}
use statecharts.Interpreter.Execute.{run_action_blocks, initialize_data}
use statecharts.Interpreter.Targets.{
  Entry, empty_entry, enter, defaults_of, add_descendant_states, add_ancestor_states, add_targets,
  resolve, entry_fuel, compute_exit_set, compute_entry_set,
}
use statecharts.Interpreter.Select.{places, select_transitions}
use statecharts.Interpreter.Invoke.{process_invokes, apply_invoke_side_effects}
use statecharts.Interpreter.Enter.{enter_state}
use statecharts.Interpreter.Exit.{exit_states}

module _ (c : Chart) where
  abbrev ids : List StateRef → List Identifier
  ids ss = map (λ s. (state_at c s).id) ss

  -- A microstep's entry in the trace, when one is kept.
  unfoldable pub trace_step :
      {S : Type 0}
      → Option Event
      → List Transition
      → List StateRef
      → List StateRef
      → Interpretation S
      → Interpretation S
  trace_step trigger ts exits entries ip = elim ip.macrostep_trace [
    | none ↦ ip
    | some steps ↦
        let step : MicrostepTrace = record {
          trigger = trigger;
          transitions =
              map (λ t. record { source = (state_at c t.source).id; index = t.definition_index })
                ts;
          exited = ids (sort_asc exits);
          entered = ids entries;
        } in
        record ip { macrostep_trace = some (steps ++ (step ∷ [])) }
  ]

  module _ {S : Type 0} (host : Host S) where
    -- The actions of the transitions, in the order of their selection.
    unfoldable pub run_transitions : List Transition → Interpretation S → Interpretation S
    run_transitions [] ip = ip
    run_transitions (t ∷ ts) ip = run_transitions ts (run_action_blocks host c t.actions ip)

    unfoldable pub enter_each :
        List (StateRef × Blocks) → List StateRef → Interpretation S → Interpretation S
    enter_each defaults [] ip = ip
    enter_each defaults (s ∷ ss) ip =
        enter_each defaults ss (enter_state c host s (defaults_of s defaults) ip)

    unfoldable pub microstep : Option Event → List Transition → Interpretation S → Interpretation S
    microstep trigger ts ip =
        let exits = compute_exit_set c ip.history_value ip.configuration ts in
        let (entries, defaults) = compute_entry_set c ip.history_value ts in
        enter_each defaults entries
          (run_transitions ts (exit_states c host exits (trace_step trigger ts exits entries ip)))

    -- What one round of `runToStable` comes to.
    pub data Round : Type 0 where
      stopped stable again : Interpretation S → Round

    abbrev pub microstep_unless_empty :
        Option Event → List Transition → Interpretation S → Interpretation S
    microstep_unless_empty trigger ts ip = if is_empty ts then ip else microstep trigger ts ip

    -- Takes an event for processing: `_event` from then on.
    abbrev pub bind_event : Event → Interpretation S → Interpretation S
    bind_event ev ip = record ip { last_event = some ev }

    abbrev pub after_invokes : Interpretation S → Round
    after_invokes ip = if is_empty ip.internal_queue then stable ip else again ip

    abbrev pub dequeue_internal : List Event → Interpretation S → Round
    dequeue_internal [] ip = after_invokes (process_invokes c host ip)
    dequeue_internal (ev ∷ queue) ip =
        let (ip', ts) =
          select_transitions c host (some ev)
            (bind_event ev (record ip { internal_queue = queue })) in
        again (microstep_unless_empty (some ev) ts ip')

    -- The body of the loop of `runToStable`.
    unfoldable pub stable_round : Interpretation S → Round
    stable_round ip =
        if not ip.running
        then stopped ip
        else let (ip', ts) = select_transitions c host none ip in
          if is_empty ts
          then dequeue_internal ip'.internal_queue ip'
          else again (microstep none ts ip')

    unfoldable pub run_to_stable : ℕ → Interpretation S → Option (Interpretation S)
    run_to_stable zero ip = none
    run_to_stable (suc fuel) ip = elim (stable_round ip) [
      | stopped ip' ↦ some ip'
      | stable ip' ↦ some ip'
      | again ip' ↦ run_to_stable fuel ip'
    ]

    abbrev add_root : StateKind → Entry → Entry
    add_root compound es = elim (state_at c root).initial [
      | none ↦ es
      | some t ↦
          add_targets c (add_descendant_states c (entry_fuel c) []) (resolve c t.target) (some root)
            es
    ]
    add_root parallel es =
        fold_left (λ e child. add_descendant_states c (entry_fuel c) [] child e) es
          (real_children c root)
    add_root _ es = enter root es

    -- The states that `start` enters.
    unfoldable pub initial_entry : Entry
    unfolding enter
    initial_entry = add_root (state_at c root).kind empty_entry

    abbrev initialize_early : Interpretation S → StateRef → Interpretation S
    initialize_early ip s =
        if is_empty (state_at c s).items
        then ip
        else let ip' = initialize_data host c (state_at c s).items ip in
          record ip' { initialized_data = insert s ip'.initialized_data }

    abbrev initialize_all : Interpretation S → Interpretation S
    initialize_all ip = if c.early_binding then fold_left initialize_early ip (places c) else ip

    -- `start` up to the first macrostep.
    unfoldable pub enter_initial : Interpretation S → Interpretation S
    enter_initial ip =
        let ready = initialize_all (initialize_data host c c.items ip) in
        let entries = sort_asc initial_entry.states in
        enter_each initial_entry.defaults entries
          (trace_step none [] [] entries (record ready { running = true }))

    unfoldable pub start : ℕ → Interpretation S → Option (Interpretation S)
    start fuel ip = run_to_stable fuel (enter_initial ip)

    -- The end of the macrostep, and whether an event was processed.
    abbrev pub processed : Option (Interpretation S) → Option (Interpretation S × Bool)
    processed none = none
    processed (some ip) = some (ip, true)

    -- The event's microstep, when it enables transitions.
    unfoldable pub take_external : Event → List Event → Interpretation S → Interpretation S
    take_external ev queue ip =
        let (ip', ts) = select_transitions c host (some ev) (
          apply_invoke_side_effects c host ev
            (bind_event ev (record ip { external_queue = queue }))) in
        microstep_unless_empty (some ev) ts ip'

    abbrev pub process_queue : ℕ → List Event → Interpretation S → Option (Interpretation S × Bool)
    process_queue fuel [] ip = some (ip, false)
    process_queue fuel (ev ∷ queue) ip = processed (run_to_stable fuel (take_external ev queue ip))

    unfoldable pub process_next_external : ℕ → Interpretation S → Option (Interpretation S × Bool)
    process_next_external fuel ip =
        if not ip.running then some (ip, false) else process_queue fuel ip.external_queue ip
