-- ===== src/Interpreter/Send/Replay.antt =====
-- Which of several delayed sends with one ID a replayed timer fires.
use statecharts.Base.{
  Bool, true, false, not, ◌&&◌, List, [], ◌∷◌, ◌≡◌, ◌≢◌, refl, sym, ◌∙◌, ap, inl, inr, All,
  All-weaken, ◌⊎◌, subst, keep, is_empty, &&-true, ◌==◌,
}
use statecharts.Base.Bytes.{bytes_eq, bytes_eq_refl, eq_of_bytes_eq}
use statecharts.Identifier.{Identifier}
use statecharts.Event.{Event}
use statecharts.Session.{Host}
use statecharts.Interpreter.{Interpretation, PendingSend}
use statecharts.Interpreter.Send.{
  dispatch_now, forget_pending, fires_before, sort_pending, replay_candidates, replay_timer_fire,
}
use statecharts.Interpreter.Send.Timers.{dispatch_now-pending}
use statecharts.Interpreter.Send.Earliest.{
  Precedes, OneOf, IsFirst, Precedes-of, HeadEarliest, sort_pending-head, keep-OneOf, All-of_keep,
  none_kept, empty_cases,
}

module _ (send_id target typ : Identifier) (ev : Event) where
  -- The send goes where the replayed firing says, with its event.
  abbrev pub IsExact : PendingSend → Type 0
  IsExact p = (p.target ≡ target) × (p.type ≡ typ) × (p.event.name ≡ ev.name)

  -- Among the pending sends with the ID, the record is the first exact one, or the first of all where
  -- none is exact.
  abbrev pub IsChosen : List PendingSend → PendingSend → Type 0
  IsChosen ps r =
      OneOf ps r
      × (r.send_id ≡ send_id)
      × ((IsExact r × All (λ p. p.send_id ≡ send_id → IsExact p → Precedes r p) ps)
          ⊎ (All (λ p. p.send_id ≡ send_id → ¬ IsExact p) ps
              × All (λ p. p.send_id ≡ send_id → Precedes r p) ps))

  abbrev has_id : PendingSend → Bool
  has_id p = bytes_eq p.send_id send_id

  abbrev is_exact : PendingSend → Bool
  is_exact p = bytes_eq p.target target && bytes_eq p.type typ && bytes_eq p.event.name ev.name

  has_id_of : (p : PendingSend) → p.send_id ≡ send_id → has_id p ≡ true
  has_id_of p e = rw e (bytes_eq_refl send_id)

  is_exact_of : (p : PendingSend) → IsExact p → is_exact p ≡ true
  is_exact_of p (a, b, c) =
      rw (a, b, c) (rw (bytes_eq_refl target, bytes_eq_refl typ, bytes_eq_refl ev.name) refl)

  IsExact-of : (p : PendingSend) → is_exact p ≡ true → IsExact p
  IsExact-of p h =
      let (ab, c) = &&-true _ _ h in
      let (a, b) = &&-true _ _ ab in
      (eq_of_bytes_eq _ _ a, eq_of_bytes_eq _ _ b, eq_of_bytes_eq _ _ c)

  abbrev same_id : List PendingSend → List PendingSend
  same_id ps = keep has_id ps

  candidates_cases :
      (ps : List PendingSend)
      → ((keep is_exact (same_id ps) ≡ [])
          × (replay_candidates send_id target typ ev ps ≡ same_id ps))
        ⊎ ((is_empty (keep is_exact (same_id ps)) ≡ false)
            × (replay_candidates send_id target typ ev ps ≡ keep is_exact (same_id ps)))
  unfolding replay_candidates
  candidates_cases ps = elim (empty_cases (keep is_exact (same_id ps))) [
    | inl q ↦ inl (q, rw (q, replay_candidates) refl)
    | inr q ↦ inr (q, rw (q, replay_candidates) refl)
  ]

  no_candidate :
      (ps : List PendingSend)
      → replay_candidates send_id target typ ev ps ≡ []
      → All (λ p. p.send_id ≢ send_id) ps
  no_candidate ps h = elim (candidates_cases ps) [
    | inl (_, q) ↦
        All-weaken (λ p. has_id p ≡ false) (λ p. p.send_id ≢ send_id) ps
          (λ p no e. let at_id = has_id_of p e in cc) (none_kept has_id ps (sym q ∙ h))
    | inr (some_exact, q) ↦ let gone = ap is_empty (sym q ∙ h) in cc
  ]

  -- What holds of every candidate by ID holds of every pending send with the ID.
  All-same_id :
      (P : PendingSend → Type 0) (ps : List PendingSend)
      → All P (same_id ps)
      → All (λ p. p.send_id ≡ send_id → P p) ps
  All-same_id P ps h =
      All-weaken (λ p. has_id p ≡ true → P p) (λ p. p.send_id ≡ send_id → P p) ps
        (λ p k e. k (has_id_of p e)) (All-of_keep has_id P ps h)

  Precedes-first :
      (ps : List PendingSend) (r : PendingSend)
      → All (λ p. fires_before p r ≡ false) ps
      → All (Precedes r) ps
  Precedes-first ps r = All-weaken (λ p. fires_before p r ≡ false) (Precedes r) ps (Precedes-of r)

  first-IsChosen :
      (ps : List PendingSend) (r : PendingSend)
      → IsFirst (replay_candidates send_id target typ ev ps) r
      → IsChosen ps r
  first-IsChosen ps r h = elim (candidates_cases ps) [
    | inl (no_exact, q) ↦
        let (one, least) = subst (λ l. IsFirst l r) q h in
        let (pending, at_id) = keep-OneOf has_id r ps one in
        let inexact =
          All-weaken (λ p. is_exact p ≡ false) (λ p. ¬ IsExact p) (same_id ps)
            (λ p no e. let exact = is_exact_of p e in cc)
            (none_kept is_exact (same_id ps) no_exact) in
        (
          pending,
          eq_of_bytes_eq r.send_id send_id at_id,
          inr (
            All-same_id (λ p. ¬ IsExact p) ps inexact,
            All-same_id (Precedes r) ps (Precedes-first (same_id ps) r least),
          ),
        )
    | inr (_, q) ↦
        let (one, least) = subst (λ l. IsFirst l r) q h in
        let (candidate, exact) = keep-OneOf is_exact r (same_id ps) one in
        let (pending, at_id) = keep-OneOf has_id r ps candidate in
        let among_exact =
          All-weaken (λ p. is_exact p ≡ true → Precedes r p) (λ p. IsExact p → Precedes r p)
            (same_id ps) (λ p k e. k (is_exact_of p e))
            (All-of_keep is_exact (Precedes r) (same_id ps)
              (Precedes-first (keep is_exact (same_id ps)) r least)) in
        (
          pending,
          eq_of_bytes_eq r.send_id send_id at_id,
          inl (IsExact-of r exact, All-same_id (λ p. IsExact p → Precedes r p) ps among_exact),
        )
  ]

list_cases :
    (l : List PendingSend) → (l ≡ []) ⊎ ((r : PendingSend) × (rs : List PendingSend) × (l ≡ r ∷ rs))
list_cases [] = inl refl
list_cases (r ∷ rs) = inr (r, rs, refl)

module _ {S : Type 0} (host : Host S) where
  -- A replayed timer either finds no pending send with its ID, and then changes nothing and says so;
  -- or it fires one: among the pending sends with the ID and with the target, the type and the event's
  -- name that it gives or, where there is none, among all with the ID, one with the earliest deadline,
  -- the oldest among equals. It then removes from the pending sends what has that record's place in
  -- the sequence, and nothing else, dispatches the event that it gives, and says so.
  pub replay_timer_fire-IsChosen :
      (send_id target typ : Identifier) (ev : Event) (ip : Interpretation S)
      → (All (λ p. p.send_id ≢ send_id) ip.pending
          × (replay_timer_fire host send_id target typ ev ip ≡ (ip, false)))
        ⊎ ((r : PendingSend) × IsChosen send_id target typ ev ip.pending r
            × ((replay_timer_fire host send_id target typ ev ip).0.pending
                ≡ keep (λ p. not (p.order == r.order)) ip.pending)
            × (replay_timer_fire host send_id target typ ev ip
                ≡ (dispatch_now host send_id target typ ev (forget_pending r ip), true)))
  unfolding replay_timer_fire forget_pending
  replay_timer_fire-IsChosen send_id target typ ev ip =
      let candidates = replay_candidates send_id target typ ev ip.pending in
      let head = sort_pending-head candidates in
      elim (list_cases (sort_pending candidates)) [
        | inl none_left ↦ inl (
          no_candidate send_id target typ ev ip.pending
              (subst (HeadEarliest candidates) none_left head),
          rw (none_left, replay_timer_fire),
        )
        | inr (r, rs, q) ↦
            let fired : replay_timer_fire host send_id target typ ev ip
                ≡ (dispatch_now host send_id target typ ev (forget_pending r ip), true) =
              rw (q, replay_timer_fire) in
            inr (
              r,
              first-IsChosen send_id target typ ev ip.pending r
                  (subst (HeadEarliest candidates) q head),
              ap (λ o. o.0.pending) fired ∙ dispatch_now-pending host send_id target typ ev _,
              fired,
            )
      ]
