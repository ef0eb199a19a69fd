-- ===== src/Interpreter/Exit.antt =====
-- interpreter.go: leaving states, and recording history.
pub mod History
pub mod Order
use statecharts.Base.{
  ℕ, Bool, true, false, ◌&&◌, if◌then◌else◌, List, [], ◌∷◌, Option, none, some, keep, fold_left,
  ◌==◌,
}
use statecharts.Base.Sets.{elem, delete, sort_asc, sort_desc}
use statecharts.Base.Maps.{put}
use statecharts.Chart.{Chart, StateRef, HistoryKind, deep, shallow, state_at}
use statecharts.Chart.Tree.{is_history, is_atomic_kind, is_descendant, is_ref}
use statecharts.Session.{Host}
use statecharts.Interpreter.{Interpretation}
use statecharts.Interpreter.Execute.{run_action_blocks}
use statecharts.Interpreter.Invoke.{cancel_invokes}
use statecharts.Interpreter.Targets.{HistoryValue}

module _ (c : Chart) where
  abbrev is_recorded : HistoryKind → StateRef → StateRef → Bool
  is_recorded deep s a = is_atomic_kind c a && is_descendant c a (some s)
  is_recorded shallow s a = is_ref (state_at c a).parent s

  -- `recordedSet`: the active states that a history child of `s` remembers.
  unfoldable pub recorded_set : HistoryKind → StateRef → List StateRef → List StateRef
  unfolding is_atomic_kind
  recorded_set kind s configuration = keep (is_recorded kind s) configuration

  unfoldable pub record_child : List StateRef → StateRef → HistoryValue → StateRef → HistoryValue
  unfolding recorded_set sort_asc
  record_child configuration s recorded child =
      if is_history (state_at c child).kind
      then put child (sort_asc (recorded_set (state_at c child).history_kind s configuration))
          recorded
      else recorded

  unfoldable pub record_state : List StateRef → HistoryValue → StateRef → HistoryValue
  unfolding record_child
  record_state configuration recorded s =
      fold_left (record_child configuration s) recorded (state_at c s).children

  -- The first loop of `exitStates`.
  unfoldable pub record_history : List StateRef → List StateRef → HistoryValue → HistoryValue
  unfolding record_state
  record_history configuration ordered recorded =
      fold_left (record_state configuration) recorded ordered

  module _ {S : Type 0} (host : Host S) where
    unfoldable pub exit_state : Interpretation S → StateRef → Interpretation S
    exit_state ip s =
        let left = cancel_invokes s (run_action_blocks host c (state_at c s).on_exit ip) in
        record left {
          states_to_invoke = delete s left.states_to_invoke;
          configuration = delete s left.configuration;
        }

    -- The second loop of `exitStates`, and the loop of `exitInterpreter`.
    unfoldable pub exit_each : List StateRef → Interpretation S → Interpretation S
    exit_each [] ip = ip
    exit_each (s ∷ ss) ip = exit_each ss (exit_state ip s)

    unfoldable pub exit_states : List StateRef → Interpretation S → Interpretation S
    exit_states exit_set ip = exit_each (sort_desc exit_set) (record ip {
      history_value = record_history ip.configuration (sort_desc exit_set) ip.history_value;
    })

    unfoldable pub exit_interpreter : Interpretation S → Interpretation S
    exit_interpreter ip =
        let left = exit_each (sort_desc ip.configuration) ip in record left { pending = [] }
