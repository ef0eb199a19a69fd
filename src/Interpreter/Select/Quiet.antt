-- ===== src/Interpreter/Select/Quiet.antt =====
-- What selecting transitions changes, where conditions do nothing but compute.
use statecharts.Base.{
  List, [], ◌∷◌, ◌++◌, Option, ◌≡◌, refl, sym, ap, ◌∙◌, All, All-append, append-nil, append_assoc,
}
use statecharts.Event.{Event, Error, platform, err_event_execution}
use statecharts.Chart.{Chart, Expression}
use statecharts.Session.{Host, ExecContext, returns}
use statecharts.Interpreter.{Interpretation, exec_context, enqueue_internal, report_error}
use statecharts.Interpreter.Model.{perform, settle, evaluate_model_boolean}
use statecharts.Interpreter.Select.{select_transitions}
use statecharts.Interpreter.Frame.Select.{select_transitions-kept}

abbrev pub IsExecutionError : Event → Type 0
IsExecutionError ev = (ev.name ≡ err_event_execution) × (ev.type ≡ platform)

-- Only the session and the internal queue differ, and the queue has only got errors at its end.
pub record Quiet {S : Type 0} (ip jp : Interpretation S) : Type 0 where
  pub same : record jp { session = ip.session; internal_queue = ip.internal_queue } ≡ ip
  pub errors : List Event
  pub are_errors : All IsExecutionError errors
  pub behind : jp.internal_queue ≡ ip.internal_queue ++ errors

module _ {S : Type 0} (host : Host S) where
  -- Evaluating a condition does nothing through the context.
  abbrev pub NoEffects : Type 0
  NoEffects =
      (ec : ExecContext) (e : Expression) (s : S)
      → (t : S) × ((host.evaluate_boolean ec e s).activity ≡ returns t)

module _ (c : Chart) {S : Type 0} (host : Host S) (pure_conditions : NoEffects host)
    (ip : Interpretation S) where
  evaluate_model_boolean-Quiet :
      (e : Expression) (jp : Interpretation S)
      → Quiet ip jp
      → Quiet ip (evaluate_model_boolean host (exec_context host c jp) e jp).0
  unfolding evaluate_model_boolean settle perform
  evaluate_model_boolean-Quiet e jp q =
      let (t, pure) = pure_conditions (exec_context host c jp) e jp.session in
      rw (pure, evaluate_model_boolean, settle, perform)
        (record { same = q.same; errors = q.errors; are_errors = q.are_errors; behind = q.behind })

  enqueue_internal-Quiet :
      (ev : Event) (jp : Interpretation S)
      → IsExecutionError ev
      → Quiet ip jp
      → Quiet ip (enqueue_internal ev jp)
  unfolding enqueue_internal
  enqueue_internal-Quiet ev jp h q = record {
    same = q.same;
    errors = q.errors ++ (ev ∷ []);
    are_errors = All-append IsExecutionError q.errors (ev ∷ []) q.are_errors (h, tt);
    behind = ap (λ l. l ++ (ev ∷ [])) q.behind ∙ append_assoc ip.internal_queue q.errors (ev ∷ []);
  }

  report_error-Quiet :
      (x : Error) (jp : Interpretation S) → Quiet ip jp → Quiet ip (report_error host x jp)
  unfolding report_error
  report_error-Quiet x jp q = enqueue_internal-Quiet _ jp (refl, refl) q

  -- Where evaluating a condition has no effect through its context, selecting transitions changes
  -- nothing but the session and the internal queue, to whose end it adds only platform events
  -- `error.execution`: the configuration, the other queue, the pending sends and every other field stay
  -- as they were.
  pub select_transitions-Quiet : (ev : Option Event) → Quiet ip (select_transitions c host ev ip).0
  select_transitions-Quiet ev =
      select_transitions-kept c host (Quiet ip) evaluate_model_boolean-Quiet report_error-Quiet ev
        (record {
          same = refl;
          errors = [];
          are_errors = tt;
          behind = sym (append-nil ip.internal_queue);
        })
