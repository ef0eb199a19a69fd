-- ===== src/Validate/Generated.antt =====
-- definition_validate.go: a generated ID is not reserved.
use statecharts.Base.{
  ℕ, zero, suc, ◌+◌, ◌<◌, ◌≤◌, ◌≡◌, refl, sym, subst, true, false, List, arith, inl, inr,
  Bool-cases, append_inj, length,
}
use statecharts.Base.Bytes.{Bytes, decimal_injective}
use statecharts.Identifier.{Identifier}
use statecharts.Interpreter.Invoke.Fresh.{pigeonhole, next_or_later}
use statecharts.Validate.Expressions.{is_named}
use statecharts.Validate.Normalize.{candidate, free_candidate, Generator, generate}

candidate_injective : (prefix : Bytes) (i j : ℕ) → candidate prefix i ≡ candidate prefix j → i ≡ j
unfolding candidate
candidate_injective prefix i j e = decimal_injective i j (append_inj prefix prefix refl e).1

module _ (prefix : Bytes) (reserved : List Identifier) where
  -- When the search ends at a reserved candidate, it has seen none that is free.
  free_candidate_reserved :
      (fuel n : ℕ)
      → is_named (candidate prefix (free_candidate prefix fuel n reserved)) reserved ≡ true
      → (m : ℕ) → n < m
      → m ≤ n + suc fuel
      → is_named (candidate prefix m) reserved ≡ true
  unfolding free_candidate
  free_candidate_reserved zero n h m lo hi =
      let same : suc n ≡ m = omega arith in
      subst (λ k. is_named (candidate prefix k) reserved ≡ true) same h
  free_candidate_reserved (suc fuel) n h m lo hi =
      elim (Bool-cases (is_named (candidate prefix (suc n)) reserved)) [
        | inr q ↦ cc (rw (q, free_candidate) at h)
        | inl q ↦
            let later : is_named (candidate prefix (free_candidate prefix fuel (suc n) reserved))
                  reserved
                ≡ true =
              rw (q, free_candidate) at h in
            elim (next_or_later n m lo) [
              | inl same ↦ subst (λ k. is_named (candidate prefix k) reserved ≡ true) (sym same) q
              | inr more ↦ free_candidate_reserved fuel (suc n) later m more (omega arith)
            ]
      ]

-- The search for a generated ID ends, at an ID that is not reserved: whatever is reserved, and
-- wherever the counter stands.
pub generate_fresh :
    (prefix : Bytes) (g : Generator) → is_named (generate prefix g).0 g.reserved ≡ false
unfolding generate
generate_fresh prefix g =
    let n = free_candidate prefix (length g.reserved) g.next g.reserved in
    elim (Bool-cases (is_named (candidate prefix n) g.reserved)) [
      | inr q ↦ q
      | inl q ↦
          let many =
            pigeonhole (candidate prefix) (suc (length g.reserved)) g.next g.reserved
              (candidate_injective prefix)
              (free_candidate_reserved prefix g.reserved (length g.reserved) g.next q) in
          absurd (omega (arith, many))
    ]
