-- ===== src/Interpreter/Step/Fifo.antt =====
-- External events are processed first in, first out.
use statecharts.Base.{
  ℕ, zero, suc, Bool, true, false, List, [], ◌∷◌, Option, none, some, ◌≡◌, refl, sym, ◌∙◌, inl, inr,
  Extends, if◌then◌else◌, is_empty, not, subst,
}
use statecharts.Event.{Event}
use statecharts.Chart.{Chart, Transition}
use statecharts.Session.{Host}
use statecharts.Interpreter.{Interpretation}
use statecharts.Interpreter.Select.{select_transitions}
use statecharts.Interpreter.Invoke.{process_invokes}
use statecharts.Interpreter.Step.{
  Round, stopped, stable, again, stable_round, run_to_stable, dequeue_internal,
  microstep_unless_empty, take_external, process_next_external, process_queue, bind_event,
  processed,
}
use statecharts.Interpreter.Frame.{Frame-refl}
use statecharts.Interpreter.Frame.Select.{select_transitions-Frame}
use statecharts.Interpreter.Step.Queue.{
  Queued, Queued-refl, Queued-trans, Queued-Frame, Queued-if, microstep-Queued,
}
use statecharts.Interpreter.Step.Invocations.{
  process_invokes-Queued, apply_invoke_side_effects-Queued,
}
use statecharts.Interpreter.Step.Stable.{Round-cases, some_inj}

module _ (c : Chart) {S : Type 0} (host : Host S) where
  abbrev RoundQueued : Interpretation S → Round c host → Type 0
  RoundQueued ip (stopped jp) = Queued ip jp
  RoundQueued ip (stable jp) = Queued ip jp
  RoundQueued ip (again jp) = Queued ip jp

  RoundQueued-if :
      (ip : Interpretation S) (b : Bool) (x y : Round c host)
      → RoundQueued ip x
      → RoundQueued ip y
      → RoundQueued ip (if b then x else y)
  RoundQueued-if ip true x y f g = f
  RoundQueued-if ip false x y f g = g

  microstep_unless_empty-Queued :
      {ip : Interpretation S} (trigger : Option Event) (ts : List Transition)
      {jp : Interpretation S}
      → Queued ip jp
      → Queued ip (microstep_unless_empty c host trigger ts jp)
  microstep_unless_empty-Queued trigger ts f =
      Queued-if (is_empty ts) f (microstep-Queued c host trigger ts f)

  dequeue_internal-Queued :
      (ip jp : Interpretation S) (queue : List Event)
      → Queued ip jp
      → RoundQueued ip (dequeue_internal c host queue jp)
  dequeue_internal-Queued ip jp [] f =
      let invoked = process_invokes c host jp in
      let g = process_invokes-Queued c host f in
      RoundQueued-if ip (is_empty invoked.internal_queue) (stable invoked) (again invoked) g g
  dequeue_internal-Queued ip jp (ev ∷ queue) f =
      let bound = bind_event c host ev (record jp { internal_queue = queue }) in
      let g : Queued ip bound = record { kept = f.kept } in
      microstep_unless_empty-Queued (some ev) _
        (Queued-Frame g (select_transitions-Frame c host (some ev) (Frame-refl bound)))

  stable_round-Queued : (ip : Interpretation S) → RoundQueued ip (stable_round c host ip)
  unfolding stable_round
  stable_round-Queued ip =
      let selected = select_transitions c host none ip in
      let f =
        Queued-Frame (Queued-refl ip) (select_transitions-Frame c host none (Frame-refl ip)) in
      RoundQueued-if ip (not ip.running) _ _ (Queued-refl ip) (
        RoundQueued-if ip (is_empty selected.1)
          (dequeue_internal c host selected.0.internal_queue selected.0) _
          (dequeue_internal-Queued ip selected.0 selected.0.internal_queue f)
          (microstep-Queued c host none selected.1 f))

  run_to_stable-Queued :
      (fuel : ℕ) (ip after : Interpretation S)
      → run_to_stable c host fuel ip ≡ some after
      → Queued ip after
  unfolding run_to_stable
  run_to_stable-Queued zero ip after e = cc
  run_to_stable-Queued (suc fuel) ip after e =
      let f = stable_round-Queued ip in
      elim (Round-cases c host (stable_round c host ip)) [
        | inl (jp, q) ↦
            let same : some jp ≡ some after = rw (q, run_to_stable) at e in
            let g : Queued ip jp = subst (RoundQueued ip) q f in
            subst (Queued ip) (some_inj c host jp after same) g
        | inr (inl (jp, q)) ↦
            let same : some jp ≡ some after = rw (q, run_to_stable) at e in
            let g : Queued ip jp = subst (RoundQueued ip) q f in
            subst (Queued ip) (some_inj c host jp after same) g
        | inr (inr (jp, q)) ↦
            let rest : run_to_stable c host fuel jp ≡ some after = rw (q, run_to_stable) at e in
            let g : Queued ip jp = subst (RoundQueued ip) q f in
            Queued-trans g (run_to_stable-Queued fuel jp after rest)
      ]

  take_external-Queued :
      (ev : Event) (queue : List Event) (ip : Interpretation S)
      → Queued (record ip { external_queue = queue }) (take_external c host ev queue ip)
  unfolding take_external
  take_external-Queued ev queue ip =
      let left : Interpretation S = record ip { external_queue = queue } in
      let bound = bind_event c host ev left in
      let f : Queued left bound = record { kept = (Queued-refl left).kept } in
      let g = apply_invoke_side_effects-Queued c host ev f in
      microstep_unless_empty-Queued (some ev) _
        (Queued-Frame g (select_transitions-Frame c host (some ev) (Frame-refl _)))

  if_not : {A : Type 0} (b : Bool) (x y : A) → b ≡ true → (if not b then x else y) ≡ y
  if_not true x y e = refl
  if_not false x y e = cc

  processed_inv :
      (o : Option (Interpretation S)) (after : Interpretation S)
      → processed c host o ≡ some (after, true)
      → o ≡ some after
  processed_inv none after e = cc
  processed_inv (some jp) after e = cc

  -- When a running interpreter processes an external event, it takes the first one that waits and
  -- runs to rest after it; all the others still wait, in their order, and before every event that
  -- the macrostep has added.
  pub process_next_external-Extends :
      (fuel : ℕ) (ip after : Interpretation S) (ev : Event) (queue : List Event)
      → ip.running ≡ true
      → ip.external_queue ≡ ev ∷ queue
      → process_next_external c host fuel ip ≡ some (after, true)
      → (run_to_stable c host fuel (take_external c host ev queue ip) ≡ some after)
        × Extends queue after.external_queue
  unfolding process_next_external
  process_next_external-Extends fuel ip after ev queue on waits e =
      let opened : process_queue c host fuel ip.external_queue ip ≡ some (after, true) =
        sym (if_not ip.running _ _ on) ∙ e in
      let ran =
        processed_inv (run_to_stable c host fuel (take_external c host ev queue ip)) after
          (subst (λ l. process_queue c host fuel l ip ≡ some (after, true)) waits opened) in
      let kept =
        Queued-trans (take_external-Queued ev queue ip) (run_to_stable-Queued fuel _ after ran) in
      (ran, kept.kept)
