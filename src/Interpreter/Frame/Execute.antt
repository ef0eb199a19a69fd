-- ===== src/Interpreter/Frame/Execute.antt =====
-- Whatever a session does, and whatever a block of actions executes, keeps the frame.
use statecharts.Base.{Bool, true, false, List, [], ◌∷◌, Option, none, some, inl, inr, Option-cases}
use statecharts.Base.Bytes.{codes}
use statecharts.Identifier.{Identifier}
use statecharts.Chart.{
  Chart, Expression, Operation, script, call, assign, raise, cancel, log, choose, foreach, send,
  SendOperation, Block, done, action, Blocks, no_block, block, Branches, otherwise, branch,
  DataItem,
}
use statecharts.Session.{
  Host, ExecContext, SendOptions, Result, ok, err, Iteration, finished, visit, Result-cases,
}
use statecharts.Interpreter.{Interpretation}
use statecharts.Interpreter.Model.{perform, eval_string, assign_send_id, do_send}
use statecharts.Interpreter.Execute.{
  Step, and_then, ending, continue_block, choose_branch, run_iteration, optional_value, send_delay,
  execute_send, execute_operation, run_branches, run_block, run_blocks, run_action_blocks,
  run_finalize_blocks, report_if, initialize_items, initialize_data,
}
use statecharts.Interpreter.Frame.{Frame}
use statecharts.Interpreter.Frame.Send.{enqueue_internal-Frame, report_error-Frame, do_cancel-Frame}
use statecharts.Interpreter.Frame.Model.{
  do_log-Frame, do_send_plain-Frame, do_send_at-Frame, perform-Frame, evaluate_model_boolean-Frame,
  evaluate_model_value-Frame, assign_model-Frame, execute_model-Frame, eval_string-Frame,
  evaluate_payload-Frame,
}

module _ {S : Type 0} (host : Host S) {ip : Interpretation S} where
  and_then-Frame :
      {A : Type 0} (r : Interpretation S × Result A) (k : A → Interpretation S → Step S)
      → Frame ip r.0
      → ((a : A) (jp : Interpretation S) → Frame ip jp → Frame ip (k a jp).0)
      → Frame ip (and_then r k).0
  unfolding and_then
  and_then-Frame (jp, err e) k f step = f
  and_then-Frame (jp, ok a) k f step = step a jp f

  ending-Frame :
      {A : Type 0} (r : Interpretation S × Result A) → Frame ip r.0 → Frame ip (ending r).0
  unfolding ending
  ending-Frame r f = f

  continue_block-Frame :
      (r : Step S) (rest : Interpretation S → Interpretation S)
      → Frame ip r.0
      → ((kp : Interpretation S) → Frame ip kp → Frame ip (rest kp))
      → Frame ip (continue_block host r rest)
  unfolding continue_block
  continue_block-Frame (jp, none) rest f step = step jp f
  continue_block-Frame (jp, some e) rest f step = report_error-Frame host e f

  choose_branch-Frame :
      (r : Interpretation S × Result Bool) (body : Interpretation S → Interpretation S)
      (rest : Interpretation S → Step S)
      → Frame ip r.0
      → ((kp : Interpretation S) → Frame ip kp → Frame ip (body kp))
      → ((kp : Interpretation S) → Frame ip kp → Frame ip (rest kp).0)
      → Frame ip (choose_branch host r body rest).0
  unfolding choose_branch
  choose_branch-Frame (jp, err e) body rest f keep step = f
  choose_branch-Frame (jp, ok true) body rest f keep step = keep jp f
  choose_branch-Frame (jp, ok false) body rest f keep step = step jp f

  optional_value-Frame :
      {jp : Interpretation S} (ec : ExecContext) (e : Option Expression)
      → Frame ip jp
      → Frame ip (optional_value host ec e jp).0
  unfolding optional_value
  optional_value-Frame ec none f = f
  optional_value-Frame ec (some e) f = evaluate_model_value-Frame host ec e f

  run_iteration-Frame :
      (ec : ExecContext) (body : Interpretation S → Interpretation S) (it : Iteration S)
      {jp : Interpretation S}
      → ((kp : Interpretation S) → Frame ip kp → Frame ip (body kp))
      → Frame ip jp
      → Frame ip (run_iteration host ec body it jp).0
  unfolding run_iteration
  run_iteration-Frame ec body (finished activity error) keep f = perform-Frame host ec activity f
  run_iteration-Frame ec body (visit activity resume) {jp} keep f =
      let before = perform host ec activity jp in
      run_iteration-Frame ec body (resume (body before).session) keep
        (keep before (perform-Frame host ec activity f))

  send_delay-Frame :
      (ec : ExecContext) (o : SendOperation) {jp : Interpretation S}
      → Frame ip jp
      → Frame ip (send_delay host ec o jp).0
  unfolding send_delay
  send_delay-Frame ec o {jp} f = elim (Option-cases o.delay_expr) [
    | inl q ↦ rw (q, send_delay) f
    | inr (e, q) ↦
        let g = eval_string-Frame host ec (some e) (codes "") (codes "send delay") f in
        elim (Result-cases (eval_string host ec (some e) (codes "") (codes "send delay") jp).1) [
          | inl (s, q') ↦ rw (q, send_delay) (rw (q', send_delay) g)
          | inr (x, q') ↦ rw (q, send_delay) (rw (q', send_delay) g)
        ]
  ]

  module _ (c : Chart) where
    do_send-Frame :
        {jp : Interpretation S} (name : Identifier) (opts : SendOptions)
        (location : Option Expression)
        → Frame ip jp
        → Frame ip (do_send host c name opts location jp)
    unfolding do_send assign_send_id
    do_send-Frame name opts none f = do_send_plain-Frame host name opts f
    do_send-Frame name opts (some location) f =
        do_send_at-Frame host name opts (assign_send_id host c location)
          (λ id kp g. assign_model-Frame host _ location _ g) f

    execute_send-Frame :
        {jp : Interpretation S} (ec : ExecContext) (o : SendOperation)
        → Frame ip jp
        → Frame ip (execute_send host c ec o jp).0
    unfolding execute_send
    execute_send-Frame ec o f =
        and_then-Frame _ _ (eval_string-Frame host ec o.event_expr _ _ f) λ name kp1 g1.
          and_then-Frame _ _ (eval_string-Frame host ec o.target_expr _ _ g1) λ target kp2 g2.
            and_then-Frame _ _ (eval_string-Frame host ec o.type_expr _ _ g2) λ typ kp3 g3.
              and_then-Frame _ _ (send_delay-Frame ec o g3) λ delay kp4 g4.
                and_then-Frame _ _ (evaluate_payload-Frame host ec o.payload g4)
                  λ value kp5 g5. do_send-Frame name _ o.id_location g5

    mutual
      unfolding execute_operation

      execute_operation-Frame :
          (ec : ExecContext) (o : Operation) {jp : Interpretation S}
          → Frame ip jp
          → Frame ip (execute_operation host c ec o jp).0
      execute_operation-Frame ec (script e) f = ending-Frame _ (execute_model-Frame host ec e f)
      execute_operation-Frame ec (call e) f = ending-Frame _ (execute_model-Frame host ec e f)
      execute_operation-Frame ec (assign location e) f =
          and_then-Frame _ _ (evaluate_model_value-Frame host ec e f)
            λ v kp g. ending-Frame _ (assign_model-Frame host ec location v g)
      execute_operation-Frame ec (raise event_expr event value_expr) f =
          and_then-Frame _ _ (eval_string-Frame host ec event_expr _ _ f) λ name kp g.
            and_then-Frame _ _ (optional_value-Frame ec value_expr g)
              λ v kp' g'. enqueue_internal-Frame _ g'
      execute_operation-Frame ec (cancel id_expr id) f =
          and_then-Frame _ _ (eval_string-Frame host ec id_expr _ _ f)
            λ send_id kp g. do_cancel-Frame send_id g
      execute_operation-Frame ec (log label_expr label value_expr) f =
          and_then-Frame _ _ (eval_string-Frame host ec label_expr _ _ f) λ l kp g.
            and_then-Frame _ _ (optional_value-Frame ec value_expr g)
              λ v kp' g'. do_log-Frame host l v g'
      execute_operation-Frame ec (choose branches) f = run_branches-Frame ec branches f
      execute_operation-Frame ec (foreach e bindings body) f =
          run_iteration-Frame ec _ _ (λ kp g. run_blocks-Frame ec body g) f
      execute_operation-Frame ec (send o) f = execute_send-Frame ec o f

      run_branches-Frame :
          (ec : ExecContext) (b : Branches) {jp : Interpretation S}
          → Frame ip jp
          → Frame ip (run_branches host c ec b jp).0
      run_branches-Frame ec (otherwise body) f = run_blocks-Frame ec body f
      run_branches-Frame ec (branch condition body rest) {jp} f =
          choose_branch-Frame _ _ _ (evaluate_model_boolean-Frame host ec condition f)
            (λ kp g. run_blocks-Frame ec body g) (λ kp g. run_branches-Frame ec rest g)

      run_block-Frame :
          (ec : ExecContext) (b : Block) {jp : Interpretation S}
          → Frame ip jp
          → Frame ip (run_block host c ec b jp)
      run_block-Frame ec done f = f
      run_block-Frame ec (action o rest) {jp} f =
          continue_block-Frame _ _ (execute_operation-Frame ec o f)
            (λ kp g. run_block-Frame ec rest g)

      run_blocks-Frame :
          (ec : ExecContext) (b : Blocks) {jp : Interpretation S}
          → Frame ip jp
          → Frame ip (run_blocks host c ec b jp)
      run_blocks-Frame ec no_block f = f
      run_blocks-Frame ec (block b rest) f = run_blocks-Frame ec rest (run_block-Frame ec b f)

    pub run_action_blocks-Frame :
        (b : Blocks) {jp : Interpretation S}
        → Frame ip jp
        → Frame ip (run_action_blocks host c b jp)
    unfolding run_action_blocks
    run_action_blocks-Frame no_block f = f
    run_action_blocks-Frame (block b rest) f = run_action_blocks-Frame rest (run_block-Frame _ b f)

    pub run_finalize_blocks-Frame :
        (b : Blocks) {jp : Interpretation S}
        → Frame ip jp
        → Frame ip (run_finalize_blocks host c b jp)
    unfolding run_finalize_blocks
    run_finalize_blocks-Frame b f = run_blocks-Frame _ b f

    report_if-Frame : (r : Step S) → Frame ip r.0 → Frame ip (report_if host c r)
    unfolding report_if
    report_if-Frame (jp, none) f = f
    report_if-Frame (jp, some e) f = report_error-Frame host e f

    initialize_items-Frame :
        (ec : ExecContext) (ds : List DataItem) {jp : Interpretation S}
        → Frame ip jp
        → Frame ip (initialize_items host c ec ds jp)
    unfolding initialize_items
    initialize_items-Frame ec [] f = f
    initialize_items-Frame ec (d ∷ ds) f = initialize_items-Frame ec ds (
        report_if-Frame _ (
          and_then-Frame _ _ (optional_value-Frame ec d.initializer f)
            λ v kp g. ending-Frame _ (assign_model-Frame host ec d.location v g)))

    pub initialize_data-Frame :
        (ds : List DataItem) {jp : Interpretation S}
        → Frame ip jp
        → Frame ip (initialize_data host c ds jp)
    unfolding initialize_data
    initialize_data-Frame ds f = initialize_items-Frame _ ds f
