-- ===== src/Validate/Atoms.antt =====
-- definition_validate.go: the fuel of `collectDefaultAtoms` suffices.
use statecharts.Base.{
  ℕ, zero, suc, ◌+◌, ◌<◌, ◌≤◌, ◌≡◌, refl, ap, List, [], ◌∷◌, Option, none, some, arith, inl, inr,
  Bool-cases, Option-cases, All, length, get_elem?, ltb,
}
use statecharts.Base.Options
use statecharts.Base.Sets.{elem}
use statecharts.Chart.Tree.{is_atomic}
use statecharts.Interpreter.Targets.Effective.{Distinct, Distinct-bound, get_elem?-beyond}
use statecharts.Validate.Nodes.{Node, node_is}
use statecharts.Validate.Targets.{collect_each, default_states, collect_default_atoms}

collect_each_congr :
    (f g : ℕ → List ℕ → Option (List ℕ))
    → ((n : ℕ) (atoms : List ℕ) → f n atoms ≡ g n atoms)
    → (ns : List (Option ℕ)) (atoms : List ℕ) → collect_each f ns atoms ≡ collect_each g ns atoms
collect_each_congr f g same [] atoms = refl
collect_each_congr f g same (none ∷ ns) atoms = refl
collect_each_congr f g same (some n ∷ ns) atoms = elim (Option-cases (g n atoms)) [
  | inl e ↦ rw (same n atoms, e) refl
  | inr (more, e) ↦ rw (same n atoms, e) (collect_each_congr f g same ns more)
]

module _ (nodes : List Node) where
  -- What stands beyond the nodes has no default states.
  beyond_default_states :
      (n : ℕ) → length nodes ≤ n → default_states nodes (get_elem? nodes n) ≡ none
  unfolding default_states
  beyond_default_states n h = rw (get_elem?-beyond nodes n h) refl

  atoms_stable :
      (f g : ℕ) (visiting atoms : List ℕ) (n : ℕ)
      → Distinct visiting
      → All (λ x. x < length nodes) visiting
      → length nodes < length visiting + f
      → length nodes < length visiting + g
      → collect_default_atoms nodes f visiting n atoms
        ≡ collect_default_atoms nodes g visiting n atoms
  unfolding collect_default_atoms
  atoms_stable zero g visiting atoms n d below lf lg =
      let bound = Distinct-bound (length nodes) visiting d below in absurd (omega arith)
  atoms_stable (suc f) zero visiting atoms n d below lf lg =
      let bound = Distinct-bound (length nodes) visiting d below in absurd (omega arith)
  atoms_stable (suc f) (suc g) visiting atoms n d below lf lg =
      elim (Bool-cases (elem n visiting)) [
        | inl q ↦ rw (q, collect_default_atoms) refl
        | inr q ↦ elim (Bool-cases (node_is nodes (λ h. is_atomic h.kind) n)) [
          | inl r ↦ rw (q, collect_default_atoms) (rw (r, collect_default_atoms) refl)
          | inr r ↦ elim (Bool-cases (ltb n (length nodes))) [
            | inr out ↦
                rw (q, collect_default_atoms)
                  (rw (r, collect_default_atoms)
                    (rw (beyond_default_states n (ground (arith, out)), collect_default_atoms)
                      refl))
            | inl within ↦
                let in_range : n < length nodes = ground (arith, within) in
                rw (q, collect_default_atoms)
                  (rw (r, collect_default_atoms)
                    (ap (λ k. Options.◌>>=◌ (default_states nodes (get_elem? nodes n)) k)
                      (λ i states.
                        collect_each_congr (collect_default_atoms nodes f (n ∷ visiting))
                          (collect_default_atoms nodes g (n ∷ visiting))
                          (λ m more.
                            atoms_stable f g (n ∷ visiting) more m (q, d) (in_range, below)
                              (omega (arith, lf)) (omega (arith, lg)))
                          states atoms i)))
          ]
        ]
      ]

  -- The fuel with which the default atoms are collected is enough: any greater amount of it gives
  -- the same atoms or the same failure, default targets in a cycle included.
  pub collect_default_atoms_fuel :
      (fuel n : ℕ) (atoms : List ℕ)
      → length nodes < fuel
      → collect_default_atoms nodes fuel [] n atoms
        ≡ collect_default_atoms nodes (length nodes + 1) [] n atoms
  collect_default_atoms_fuel fuel n atoms enough =
      atoms_stable fuel (length nodes + 1) [] atoms n tt tt (omega arith) (omega arith)
