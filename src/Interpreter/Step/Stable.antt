-- ===== src/Interpreter/Step/Stable.antt =====
-- What the interpreter rests in when `runToStable` returns.
use statecharts.Base.{
  ℕ, zero, suc, Bool, true, false, not, List, [], ◌∷◌, none, some, ◌≡◌, refl, sym, ◌∙◌, ap, arith,
  inl, inr, ◌⊎◌, is_empty, if◌then◌else◌, subst, ◌≤◌,
}
use statecharts.Event.{Event}
use statecharts.Chart.{Chart}
use statecharts.Session.{Host}
use statecharts.Interpreter.{Interpretation}
use statecharts.Interpreter.Select.{select_transitions}
use statecharts.Interpreter.Invoke.{process_invokes}
use statecharts.Interpreter.Step.{
  Round, stopped, stable, again, stable_round, run_to_stable, dequeue_internal,
}

module _ (c : Chart) {S : Type 0} (host : Host S) where
  -- No eventless transition was enabled, no internal event was left, and the invocations of the
  -- states that were entered have been started without raising another.
  abbrev pub Quiescent : Interpretation S → Interpretation S → Type 0
  Quiescent before after =
      (before.running ≡ true)
      × ((select_transitions c host none before).1 ≡ [])
      × ((select_transitions c host none before).0.internal_queue ≡ [])
      × (after ≡ process_invokes c host (select_transitions c host none before).0)
      × (after.internal_queue ≡ [])

  abbrev pub Settles : Interpretation S → Type 0
  Settles after = (after.running ≡ false) ⊎ ((before : Interpretation S) × Quiescent before after)

  abbrev RoundOk : Interpretation S → Round c host → Type 0
  RoundOk ip (stopped jp) = (jp ≡ ip) × (ip.running ≡ false)
  RoundOk ip (stable jp) = Quiescent ip jp
  RoundOk ip (again jp) = Unit

  nil_of_is_empty {ℓ} : {A : Type ℓ} (xs : List A) → is_empty xs ≡ true → xs ≡ []
  nil_of_is_empty [] h = refl
  nil_of_is_empty (x ∷ xs) h = cc

  RoundOk-if :
      (ip : Interpretation S) (b : Bool) (x y : Round c host)
      → (b ≡ true → RoundOk ip x)
      → (b ≡ false → RoundOk ip y)
      → RoundOk ip (if b then x else y)
  RoundOk-if ip true x y f g = f refl
  RoundOk-if ip false x y f g = g refl

  -- What `stable_round` comes to when nothing is enabled.
  dequeue_internal-Ok :
      (ip jp : Interpretation S) (queue : List Event)
      → ip.running ≡ true
      → (select_transitions c host none ip).1 ≡ []
      → (select_transitions c host none ip).0.internal_queue ≡ queue
      → jp ≡ (select_transitions c host none ip).0
      → RoundOk ip (dequeue_internal c host queue jp)
  dequeue_internal-Ok ip jp (ev ∷ queue) on none_enabled waiting same = tt
  dequeue_internal-Ok ip jp [] on none_enabled waiting same =
      let invoked = process_invokes c host jp in
      RoundOk-if ip (is_empty invoked.internal_queue) (stable invoked) (again invoked)
        (λ q. (
          on,
          none_enabled,
          waiting,
          ap (process_invokes c host) same,
          nil_of_is_empty invoked.internal_queue q,
        ))
        (λ _. tt)

  stable_round-Ok : (ip : Interpretation S) → RoundOk ip (stable_round c host ip)
  unfolding stable_round
  stable_round-Ok ip =
      let selected = select_transitions c host none ip in
      RoundOk-if ip (not ip.running) _ _ (λ off. (refl, ground (arith, off)))
        (λ on.
          RoundOk-if ip (is_empty selected.1)
            (dequeue_internal c host selected.0.internal_queue selected.0) _
            (λ q.
              dequeue_internal-Ok ip selected.0 selected.0.internal_queue (ground (arith, on))
                (nil_of_is_empty selected.1 q) refl refl)
            (λ _. tt))

  pub Round-cases :
      (r : Round c host)
      → ((jp : Interpretation S) × (r ≡ stopped jp))
        ⊎ ((jp : Interpretation S) × (r ≡ stable jp))
        ⊎ ((jp : Interpretation S) × (r ≡ again jp))
  Round-cases (stopped jp) = inl (jp, refl)
  Round-cases (stable jp) = inr (inl (jp, refl))
  Round-cases (again jp) = inr (inr (jp, refl))

  pub some_inj : (x y : Interpretation S) → some x ≡ some y → x ≡ y
  some_inj x y e = cc

  -- When a macrostep ends, the interpreter is no longer running, or it is quiescent: it was
  -- running, selecting eventless transitions found none, the internal queue was empty, and starting
  -- the invocations left it empty. More fuel does not change where it ends.
  pub run_to_stable-Settles :
      (fuel enough : ℕ) (ip after : Interpretation S)
      → run_to_stable c host fuel ip ≡ some after
      → fuel ≤ enough
      → Settles after × (run_to_stable c host enough ip ≡ some after)
  unfolding run_to_stable
  run_to_stable-Settles zero enough ip after e le = cc
  run_to_stable-Settles (suc fuel) zero ip after e le = absurd (omega arith)
  run_to_stable-Settles (suc fuel) (suc enough) ip after e le =
      let ok = stable_round-Ok ip in
      elim (Round-cases (stable_round c host ip)) [
        | inl (jp, q) ↦
            let same : some jp ≡ some after = rw (q, run_to_stable) at e in
            let (halt, off) : RoundOk ip (stopped jp) = subst (RoundOk ip) q ok in
            (
              inl (
                  ap (λ x. x.running) (sym (some_inj jp after same))
                  ∙ ap (λ x. x.running) halt
                  ∙ off),
              rw (q, run_to_stable) same,
            )
        | inr (inl (jp, q)) ↦
            let same : some jp ≡ some after = rw (q, run_to_stable) at e in
            let quiet : Quiescent ip jp = subst (RoundOk ip) q ok in
            (
              inr (ip, subst (Quiescent ip) (some_inj jp after same) quiet),
              rw (q, run_to_stable) same,
            )
        | inr (inr (jp, q)) ↦
            let rest : run_to_stable c host fuel jp ≡ some after = rw (q, run_to_stable) at e in
            let (settles, stays) = run_to_stable-Settles fuel enough jp after rest (omega arith) in
            (settles, rw (q, run_to_stable) stays)
      ]
