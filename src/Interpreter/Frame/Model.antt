-- ===== src/Interpreter/Frame/Model.antt =====
-- Calls of the datamodel session keep the frame.
use statecharts.Base.{not, List, [], ◌∷◌, Option, none, some, refl, inl, inr, Option-cases}
use statecharts.Base.Bytes.{Bytes, codes, bytes_eq}
use statecharts.Identifier.{Identifier}
use statecharts.Value.{Value, Fields, end}
use statecharts.Chart.{Expression, Payload, content, params}
use statecharts.Session.{
  Host, ExecContext, SendOptions, Effect, raises, sends, cancels, logs, Activity, returns, acts,
  sends_at, Outcome, Result, ok, err, Result-cases,
}
use statecharts.Interpreter.{Interpretation}
use statecharts.Interpreter.Model.{
  do_log, do_send_plain, forbidden, apply_effect, after_location, do_send_at, perform, settle,
  evaluate_model_boolean, evaluate_model_value, assign_model, execute_model, string_result,
  eval_string, evaluate_params, map_result, evaluate_payload,
}
use statecharts.Value.{map_value, set_field}
use statecharts.Interpreter.Frame.{Frame, Frame-silent, Frame-if}
use statecharts.Interpreter.Frame.Send.{
  enqueue_internal-Frame, report_error-Frame, report_send_error-Frame, schedule_send-Frame,
  generate_send_id-Frame, do_cancel-Frame,
}

module _ {S : Type 0} (host : Host S) {ip : Interpretation S} where
  pub do_log-Frame :
      {jp : Interpretation S} (label : Bytes) (v : Value)
      → Frame ip jp
      → Frame ip (do_log label v jp)
  unfolding do_log
  do_log-Frame label v f = Frame-silent f refl refl refl

  pub do_send_plain-Frame :
      {jp : Interpretation S} (name : Identifier) (opts : SendOptions)
      → Frame ip jp
      → Frame ip (do_send_plain host name opts jp)
  unfolding do_send_plain
  do_send_plain-Frame name opts f =
      schedule_send-Frame host name opts _ (generate_send_id-Frame host opts.send_id f)

  pub forbidden-Frame :
      {jp : Interpretation S} (operation : Bytes)
      → Frame ip jp
      → Frame ip (forbidden host operation jp)
  unfolding forbidden
  forbidden-Frame operation f = report_error-Frame host _ f

  pub apply_effect-Frame :
      {jp : Interpretation S} (ec : ExecContext) (e : Effect)
      → Frame ip jp
      → Frame ip (apply_effect host ec e jp)
  unfolding apply_effect
  apply_effect-Frame ec (raises ev) f =
      Frame-if ec.in_finalize (forbidden-Frame (codes "raise") f) (enqueue_internal-Frame _ f)
  apply_effect-Frame ec (sends name opts) f =
      Frame-if ec.in_finalize (forbidden-Frame (codes "send") f) (do_send_plain-Frame name opts f)
  apply_effect-Frame ec (cancels id) f =
      Frame-if ec.in_finalize (forbidden-Frame (codes "cancel") f) (do_cancel-Frame id f)
  apply_effect-Frame ec (logs label v) f = do_log-Frame label v f

  after_location-Frame :
      (name : Identifier) (opts : SendOptions) (id : Identifier)
      (r : Interpretation S × Result (Unit {0}))
      → Frame ip r.0
      → Frame ip (after_location host name opts id r)
  unfolding after_location
  after_location-Frame name opts id (jp, err e) f = report_send_error-Frame host id _ f
  after_location-Frame name opts id (jp, ok u) f = schedule_send-Frame host name _ id f

  pub do_send_at-Frame :
      {jp : Interpretation S} (name : Identifier) (opts : SendOptions)
      (assign : Identifier → Interpretation S → Interpretation S × Result (Unit {0}))
      → ((id : Identifier) (kp : Interpretation S) → Frame ip kp → Frame ip (assign id kp).0)
      → Frame ip jp
      → Frame ip (do_send_at host name opts assign jp)
  unfolding do_send_at
  do_send_at-Frame name opts assign keep f =
      Frame-if (not (bytes_eq opts.send_id (codes "")))
        (report_send_error-Frame host opts.send_id _ f)
        (after_location-Frame name opts _ _ (keep _ _ (generate_send_id-Frame host opts.send_id f)))

  pub perform-Frame :
      (ec : ExecContext) (a : Activity S) {jp : Interpretation S}
      → Frame ip jp
      → Frame ip (perform host ec a jp)
  unfolding perform
  perform-Frame ec (returns s) f = Frame-silent f refl refl refl
  perform-Frame ec (acts e rest) f = perform-Frame ec rest (apply_effect-Frame ec e f)
  perform-Frame ec (sends_at name opts s location result rest) {jp} f =
      let g : Frame ip (record jp { session = s }) = Frame-silent f refl refl refl in
      perform-Frame ec (rest _) (
        Frame-if ec.in_finalize (forbidden-Frame (codes "send") g) (
          do_send_at-Frame name opts
            (λ id kp.
              let located = perform host ec (location id s) kp in (located, result located.session))
            (λ id kp h. perform-Frame ec (location id s) h) g))

  pub settle-Frame :
      {A : Type 0} {jp : Interpretation S} (ec : ExecContext) (out : Outcome S A)
      → Frame ip jp
      → Frame ip (settle host ec out jp).0
  unfolding settle
  settle-Frame ec out f = perform-Frame ec out.activity f

  pub evaluate_model_boolean-Frame :
      {jp : Interpretation S} (ec : ExecContext) (e : Expression)
      → Frame ip jp
      → Frame ip (evaluate_model_boolean host ec e jp).0
  unfolding evaluate_model_boolean
  evaluate_model_boolean-Frame ec e f = settle-Frame ec _ f

  pub evaluate_model_value-Frame :
      {jp : Interpretation S} (ec : ExecContext) (e : Expression)
      → Frame ip jp
      → Frame ip (evaluate_model_value host ec e jp).0
  unfolding evaluate_model_value
  evaluate_model_value-Frame ec e f = settle-Frame ec _ f

  pub assign_model-Frame :
      {jp : Interpretation S} (ec : ExecContext) (location : Expression) (v : Value)
      → Frame ip jp
      → Frame ip (assign_model host ec location v jp).0
  unfolding assign_model
  assign_model-Frame ec location v f = settle-Frame ec _ f

  pub execute_model-Frame :
      {jp : Interpretation S} (ec : ExecContext) (e : Expression)
      → Frame ip jp
      → Frame ip (execute_model host ec e jp).0
  unfolding execute_model
  execute_model-Frame ec e f = settle-Frame ec _ f

  pub string_result-Frame :
      (field : Bytes) (r : Interpretation S × Result Value)
      → Frame ip r.0
      → Frame ip (string_result host field r).0
  unfolding string_result
  string_result-Frame field (jp, err e) f = f
  string_result-Frame field (jp, ok v) f = f

  pub eval_string-Frame :
      {jp : Interpretation S} (ec : ExecContext) (h : Option Expression) (fallback field : Bytes)
      → Frame ip jp
      → Frame ip (eval_string host ec h fallback field jp).0
  unfolding eval_string
  eval_string-Frame ec none fallback field f = f
  eval_string-Frame ec (some e) fallback field f =
      string_result-Frame field _ (evaluate_model_value-Frame ec e f)

  pub evaluate_params-Frame :
      (ec : ExecContext) (ps : List (Identifier × Expression)) (fields : Fields)
      {jp : Interpretation S}
      → Frame ip jp
      → Frame ip (evaluate_params host ec ps fields jp).0
  unfolding evaluate_params
  evaluate_params-Frame ec [] fields f = f
  evaluate_params-Frame ec ((name, e) ∷ ps) fields {jp} f =
      let g = evaluate_model_value-Frame ec e f in
      elim (Result-cases (evaluate_model_value host ec e jp).1) [
        | inl (v, q) ↦
            rw (q, evaluate_params) (evaluate_params-Frame ec ps (set_field name v fields) g)
        | inr (x, q) ↦ rw (q, evaluate_params) g
      ]

  pub map_result-Frame :
      (r : Interpretation S × Result Fields) → Frame ip r.0 → Frame ip (map_result host r).0
  unfolding map_result
  map_result-Frame (jp, err e) f = f
  map_result-Frame (jp, ok fields) f = elim (Option-cases (map_value host.valid_utf8 fields)) [
    | inl e ↦ rw (e, map_result) f
    | inr (v, e) ↦ rw (e, map_result) f
  ]

  pub evaluate_payload-Frame :
      {jp : Interpretation S} (ec : ExecContext) (p : Option Payload)
      → Frame ip jp
      → Frame ip (evaluate_payload host ec p jp).0
  unfolding evaluate_payload
  evaluate_payload-Frame ec none f = f
  evaluate_payload-Frame ec (some (content e)) f = evaluate_model_value-Frame ec e f
  evaluate_payload-Frame ec (some (params [])) f = f
  evaluate_payload-Frame ec (some (params (p ∷ ps))) f =
      map_result-Frame _ (evaluate_params-Frame ec (p ∷ ps) end f)
