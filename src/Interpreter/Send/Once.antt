-- ===== src/Interpreter/Send/Once.antt =====
-- A delayed send is dispatched once, however often its timer fires.
use statecharts.Base.{
  ℕ, zero, suc, ◌+◌, ◌≤◌, Bool, not, ◌&&◌, ◌≡◌, refl, ◌∙◌, arith, inl, inr, Bool-cases,
  Option-cases, is_some, if◌then◌else◌,
}
use statecharts.Session.{Host}
use statecharts.Interpreter.{Interpretation, PendingSend}
use statecharts.Interpreter.Send.{is_pending, forget_pending, fire_timer, handle_timer_fire}
use statecharts.Interpreter.Send.Timers.{fire_timer-pending}
use statecharts.Interpreter.Send.Deliveries.{deliveries, outcomes, dispatch_now-SendsOnce}

module _ {S : Type 0} (host : Host S) where
  -- The timer of a record fires a number of times.
  abbrev pub fire_times : ℕ → PendingSend → Interpretation S → Interpretation S
  fire_times zero r ip = ip
  fire_times (suc n) r ip = fire_times n r (handle_timer_fire host r ip)

  -- The record is pending, and the timer hook does not fail.
  abbrev pub may_fire : PendingSend → Interpretation S → Bool
  may_fire r ip =
      is_pending r ip && not (is_some (host.timer_fired_hook r.send_id r.target r.type r.event))

  -- A firing after a firing changes nothing.
  handle_timer_fire_again :
      (r : PendingSend) (ip : Interpretation S)
      → handle_timer_fire host r (handle_timer_fire host r ip) ≡ handle_timer_fire host r ip
  unfolding handle_timer_fire is_pending
  handle_timer_fire_again r ip = elim (Bool-cases (is_pending r ip)) [
    | inr q ↦ rw (q, handle_timer_fire) (rw (q, handle_timer_fire) refl)
    | inl q ↦ elim (Option-cases (host.timer_fired_hook r.send_id r.target r.type r.event)) [
      | inl e ↦
          rw (q, e, handle_timer_fire) (rw (fire_timer-pending host r ip, handle_timer_fire) refl)
      | inr (x, e) ↦ rw (q, e, handle_timer_fire) (rw (q, e, handle_timer_fire) refl)
    ]
  ]

  fire_times_once :
      (n : ℕ) (r : PendingSend) (ip : Interpretation S)
      → fire_times (suc n) r ip ≡ handle_timer_fire host r ip
  fire_times_once zero r ip = refl
  fire_times_once (suc n) r ip =
      fire_times_once n r (handle_timer_fire host r ip) ∙ handle_timer_fire_again r ip

  handle_timer_fire-counts :
      (r : PendingSend) (ip : Interpretation S)
      → (deliveries (handle_timer_fire host r ip)
          ≤ deliveries ip + (if may_fire r ip then 1 else 0))
        × (outcomes ip + (if may_fire r ip then 1 else 0) ≤ outcomes (handle_timer_fire host r ip))
  unfolding handle_timer_fire fire_timer forget_pending
  handle_timer_fire-counts r ip = elim (Bool-cases (is_pending r ip)) [
    | inr q ↦ rw (q, handle_timer_fire) (omega arith, omega arith)
    | inl q ↦ elim (Option-cases (host.timer_fired_hook r.send_id r.target r.type r.event)) [
      | inl e ↦
          let (own, all) =
            dispatch_now-SendsOnce host r.send_id r.target r.type r.event (forget_pending r ip) in
          rw (q, e, handle_timer_fire) (rw (q, fire_timer) (omega (arith, own), omega (arith, all)))
      | inr (x, e) ↦ rw (q, e, handle_timer_fire) (omega arith, omega arith)
    ]
  ]

  -- However often the timer of a delayed send fires, one time or more in a row, the record is handed
  -- on at most once: to a processor, an invocation's channel or a queue. It is handed on or an error is
  -- reported where the record was pending and the timer hook did not fail, and nothing is handed on
  -- otherwise. Every firing after the first changes nothing.
  pub handle_timer_fire_once :
      (n : ℕ) (r : PendingSend) (ip : Interpretation S)
      → (fire_times (suc n) r ip ≡ handle_timer_fire host r ip)
        × (deliveries (fire_times (suc n) r ip) ≤ deliveries ip + (if may_fire r ip then 1 else 0))
        × (outcomes ip + (if may_fire r ip then 1 else 0) ≤ outcomes (fire_times (suc n) r ip))
  handle_timer_fire_once n r ip =
      let once = fire_times_once n r ip in
      let (own, all) = handle_timer_fire-counts r ip in (once, rw once own, rw once all)
