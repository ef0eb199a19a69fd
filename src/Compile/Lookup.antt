-- ===== src/Compile/Lookup.antt =====
-- compile.go: looking up IDs in the chart of an accepted definition.
use statecharts.Base.{
  ℕ, zero, suc, ◌+◌, ◌<◌, ◌≡◌, refl, sym, ap, subst, ◌∙◌, Bool, true, false, List, [], ◌∷◌, none,
  some, is_some, inl, inr, Bool-cases, Option-cases, All, All-weaken, All-map, All-of_map, map,
  length, get_elem?, arith,
}
use statecharts.Base.Bytes.{Bytes, bytes_eq, bytes_eq_refl}
use statecharts.Identifier.{Identifier}
use statecharts.Chart.{StateRef, State, Chart, Transition, state_at, find_id, by_id}
use statecharts.Definition.{StateHead, Definition}
use statecharts.Definition.Checked.{pass}
use statecharts.Validate.{normalize_definition}
use statecharts.Compile.Transitions.{transition_outline}
use statecharts.Compile.Compiled.{document_order, outline, head_outline}
use statecharts.Compile.Layout.{compile_chart-document_order}
use statecharts.Compile.Content.{Program}
use statecharts.Compile.{compile_chart}
use statecharts.Compile.Ids.{head_id, Known, DistinctIds}
use statecharts.Compile.Resolved.{
  KnownTargets, KnownOptional, KnownState, normalize_definition-IsAccepted,
}

abbrev state_id : State → Identifier
state_id x = x.id

map-map_id :
    (xs : List State) (hs : List StateHead)
    → map outline xs ≡ map head_outline hs
    → map state_id xs ≡ map head_id hs
map-map_id [] [] e = refl
map-map_id [] (h ∷ hs) e = cc
map-map_id (x ∷ xs) [] e = cc
map-map_id (x ∷ xs) (h ∷ hs) e =
    let first : outline x ≡ head_outline h = cc in
    let rest : map outline xs ≡ map head_outline hs = cc in
    rw (map-map_id xs hs rest) (ap (λ o. o.0 ∷ map head_id hs) first)

find_id-get_elem? :
    (i s : ℕ) (xs : List State) (x : State)
    → DistinctIds (map state_id xs)
    → get_elem? xs s ≡ some x
    → find_id x.id i xs ≡ some (i + s)
unfolding find_id
find_id-get_elem? i s [] x d e = cc
find_id-get_elem? i zero (y ∷ xs) x d e =
    let same : y ≡ x = cc in rw same (rw (bytes_eq_refl x.id) (ap (λ k. some k) (omega arith)))
find_id-get_elem? i (suc s) (y ∷ xs) x d e =
    let other : bytes_eq y.id x.id ≡ false = differs xs s x d.0 e in
    rw other (find_id-get_elem? (suc i) s xs x d.1 e ∙ ap (λ k. some k) (omega arith))
  where
    differs :
        (zs : List State) (s : ℕ) (x : State)
        → All (λ b. bytes_eq y.id b ≡ false) (map state_id zs)
        → get_elem? zs s ≡ some x
        → bytes_eq y.id x.id ≡ false
    differs [] s x h q = cc
    differs (z ∷ zs) zero x h q =
        let same : z ≡ x = cc in subst (λ w. bytes_eq y.id w.id ≡ false) same h.0
    differs (z ∷ zs) (suc s) x h q = differs zs s x h.1 q

find_id-Known :
    (t : Identifier) (i : ℕ) (xs : List State)
    → Known (map state_id xs) t
    → is_some (find_id t i xs) ≡ true
unfolding find_id
find_id-Known t i [] h = cc
find_id-Known t i (x ∷ xs) h = elim (Bool-cases (bytes_eq x.id t)) [
  | inl q ↦ rw q refl
  | inr q ↦ rw q (find_id-Known t (suc i) xs (rw q at h))
]

by_id-Known :
    (c : Chart) (t : Identifier) → Known (map state_id c.order) t → is_some (by_id c t) ≡ true
unfolding by_id
by_id-Known c t h = find_id-Known t 0 c.order h

-- Every target of the transition names a state.
abbrev pub Resolves : Chart → Transition → Type 0
Resolves c t = All (λ id. is_some (by_id c id) ≡ true) t.target

All-get_elem? :
    {A : Type 0} (P : A → Type 0) (xs : List A) (i : ℕ) (x : A)
    → All P xs
    → get_elem? xs i ≡ some x
    → P x
All-get_elem? P [] i x h e = cc
All-get_elem? P (y ∷ xs) zero x h e = let same : y ≡ x = cc in subst P same h.0
All-get_elem? P (y ∷ xs) (suc i) x h e = All-get_elem? P xs i x h.1 e

module _ (valid_utf8 : Bytes → Bool) (p : Program) (d n : Definition) (c : Chart) where
  ids_of_order :
      compile_chart p n ≡ pass c → map state_id c.order ≡ map head_id (document_order n.root)
  ids_of_order e = map-map_id c.order (document_order n.root) (compile_chart-document_order p n c e)

  -- In the chart of a normalized definition every state is found by its ID: no two states share one.
  pub by_id-state_at :
      (s : StateRef)
      → normalize_definition valid_utf8 d ≡ pass n
      → compile_chart p n ≡ pass c
      → s < length c.order
      → by_id c (state_at c s).id ≡ some s
  unfolding by_id state_at
  by_id-state_at s hn hc lt =
      let distinct : DistinctIds (map state_id c.order) =
        subst DistinctIds (sym (ids_of_order hc))
          (normalize_definition-IsAccepted valid_utf8 d n hn).distinct in
      elim (Option-cases (get_elem? c.order s)) [
        | inl out ↦ absurd (within c.order s lt out)
        | inr (x, e) ↦
            rw e (find_id-get_elem? 0 s c.order x distinct e ∙ ap (λ k. some k) (omega arith))
      ]
    where
      within : {A : Type 0} (xs : List A) (i : ℕ) → i < length xs → ¬ (get_elem? xs i ≡ none)
      within [] i lt e = absurd (omega arith)
      within (x ∷ xs) zero lt e = cc
      within (x ∷ xs) (suc i) lt e = within xs i (omega (arith, lt)) e

  known_order :
      normalize_definition valid_utf8 d ≡ pass n
      → compile_chart p n ≡ pass c
      → All (λ x. KnownState (map state_id c.order) (outline x)) c.order
  known_order hn hc =
      let known = (normalize_definition-IsAccepted valid_utf8 d n hn).known in
      let same = ids_of_order hc in
      All-of_map (KnownState (map state_id c.order)) outline c.order (
        subst (λ z. All (KnownState z) (map outline c.order)) (sym same)
          (subst (All (KnownState (map head_id (document_order n.root))))
            (sym (compile_chart-document_order p n c hc))
            (All-map (KnownState (map head_id (document_order n.root))) head_outline
              (document_order n.root) known)))

  Resolves-of :
      (t : Transition) → KnownTargets (map state_id c.order) (transition_outline t) → Resolves c t
  Resolves-of t h =
      All-weaken (Known (map state_id c.order)) (λ id. is_some (by_id c id) ≡ true) t.target
        (λ id k. by_id-Known c id k) h

  Resolves-all :
      (ts : List Transition)
      → All (KnownTargets (map state_id c.order)) (map transition_outline ts)
      → All (Resolves c) ts
  Resolves-all [] h = tt
  Resolves-all (t ∷ ts) h = (Resolves-of t h.0, Resolves-all ts h.1)

  -- In the chart of a normalized definition no target dangles: every target of every transition,
  -- and of every default transition, names a state of the chart.
  pub compile_chart-Resolves :
      (s : StateRef)
      → normalize_definition valid_utf8 d ≡ pass n
      → compile_chart p n ≡ pass c
      → All (Resolves c) (state_at c s).transitions
        × ((t : Transition) → (state_at c s).initial ≡ some t → Resolves c t)
  unfolding state_at
  compile_chart-Resolves s hn hc = elim (Option-cases (get_elem? c.order s)) [
    | inl out ↦ rw out (tt, (λ t e. cc))
    | inr (x, e) ↦
        let known =
          All-get_elem? (λ y. KnownState (map state_id c.order) (outline y)) c.order s x
            (known_order hn hc) e in
        rw e
          (Resolves-all x.transitions known.1, (λ t i. Resolves-of t (initial_known x t i known.0)))
  ]
    where
      initial_known :
          (x : State) (t : Transition)
          → x.initial ≡ some t
          → KnownOptional (map state_id c.order) (outline x).3
          → KnownTargets (map state_id c.order) (transition_outline t)
      initial_known x t i k = rw i at k
