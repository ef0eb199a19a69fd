-- ===== src/Interpreter/Invoke/Fresh.antt =====
-- The ID that `beginInvoke` makes for an invocation without one is never taken.
use statecharts.Base.{
  ℕ, zero, suc, ◌+◌, ◌<◌, ◌≤◌, Bool, true, false, not, ◌||◌, List, [], ◌∷◌, ◌++◌, ◌≡◌, refl, sym,
  ◌∙◌, ap, arith, inl, inr, Bool-cases, any, keep, length, length-append, is_some, subst,
  append_inj, ◌⊎◌, ltb,
}
use statecharts.Base.Bytes.{Bytes, codes, bytes_eq, eq_of_bytes_eq, decimal_injective}
use statecharts.Base.Maps.{get_id}
use statecharts.Identifier.{Identifier}
use statecharts.Chart.{Chart, StateRef, InvokeSpec, state_at}
use statecharts.Interpreter.{Interpretation, RunningInvoke}
use statecharts.Interpreter.Invoke.{
  declared_ids, keys, invoke_id, invoke_id_reserved, free_number, reserved_count, choose_invoke_id,
}

abbrev pub listed : Bytes → List Bytes → Bool
listed x l = any (bytes_eq x) l

without : Bytes → List Bytes → List Bytes
without z l = keep (λ y. not (bytes_eq z y)) l

length-without : (z : Bytes) (l : List Bytes) → length (without z l) ≤ length l
unfolding without
length-without z [] = omega arith
length-without z (y ∷ l) = ground (arith, length-without z l)

length-without_lt :
    (z : Bytes) (l : List Bytes) → listed z l ≡ true → length (without z l) < length l
unfolding without
length-without_lt z [] h = cc
length-without_lt z (y ∷ l) h = ground (arith, length-without z l, length-without_lt z l)

listed-without :
    (x z : Bytes) (l : List Bytes) → ¬ (x ≡ z) → listed x l ≡ true → listed x (without z l) ≡ true
unfolding without
listed-without x z [] ne h = cc
listed-without x z (y ∷ l) ne h = elim (Bool-cases (bytes_eq z y)) [
  | inl q ↦ elim (Bool-cases (bytes_eq x y)) [
    | inl r ↦ absurd (ne (eq_of_bytes_eq x y r ∙ sym (eq_of_bytes_eq z y q)))
    | inr r ↦ rw q (listed-without x z l ne (rw r at h))
  ]
  | inr q ↦ elim (Bool-cases (bytes_eq x y)) [
    | inl r ↦ rw q (rw r refl)
    | inr r ↦ rw q (rw r (listed-without x z l ne (rw r at h)))
  ]
]

-- No more different identifiers than a list has members are listed in it.
pub pigeonhole :
    (f : ℕ → Bytes) (k n : ℕ) (l : List Bytes)
    → ((i j : ℕ) → f i ≡ f j → i ≡ j)
    → ((m : ℕ) → n < m → m ≤ n + k → listed (f m) l ≡ true)
    → k ≤ length l
pigeonhole f zero n l inj all_listed = omega arith
pigeonhole f (suc k) n l inj all_listed =
    let first = all_listed (suc n) (omega arith) (omega arith) in
    let others : (m : ℕ) → suc n < m → m ≤ suc n + k → listed (f m) (without (f (suc n)) l) ≡ true =
      λ m lo hi.
        listed-without (f m) (f (suc n)) l
          (λ e. let same : m ≡ suc n = inj m (suc n) e in absurd (omega arith))
          (all_listed m (omega arith) (omega arith)) in
    let fewer = pigeonhole f k (suc n) (without (f (suc n)) l) inj others in
    let shorter = length-without_lt (f (suc n)) l first in omega arith

get_id-listed :
    (id : Identifier) (m : List (Identifier × RunningInvoke))
    → is_some (get_id id m) ≡ listed id (keys m)
get_id-listed id [] = refl
get_id-listed id ((k, ri) ∷ m) = elim (Bool-cases (bytes_eq id k)) [
  | inl q ↦ rw q refl
  | inr q ↦ rw q (get_id-listed id m)
]

listed-append : (x : Bytes) (l r : List Bytes) → listed x (l ++ r) ≡ (listed x l || listed x r)
listed-append x [] r = refl
listed-append x (y ∷ l) r = ground (arith, listed-append x l r)

pub next_or_later : (n m : ℕ) → n < m → (m ≡ suc n) ⊎ (suc n < m)
next_or_later n m lo = elim (Bool-cases (ltb (suc n) m)) [
  | inl q ↦ inr (ground (arith, q))
  | inr q ↦ inl (ground (arith, q))
]

module _ (c : Chart) {S : Type 0} (s : StateRef) (ip : Interpretation S) where
  abbrev taken : List Bytes
  taken = keys ip.invokes_by_id ++ declared_ids c.order

  reserved_listed : (id : Identifier) → invoke_id_reserved c ip id ≡ listed id taken
  unfolding invoke_id_reserved
  reserved_listed id =
      ap (λ b. b || listed id (declared_ids c.order)) (get_id-listed id ip.invokes_by_id)
      ∙ sym (listed-append id (keys ip.invokes_by_id) (declared_ids c.order))

  invoke_id_injective : (i j : ℕ) → invoke_id c s i ≡ invoke_id c s j → i ≡ j
  unfolding invoke_id
  invoke_id_injective i j e =
      decimal_injective i j
        (append_inj (codes ".invoke") (codes ".invoke") refl
          (append_inj (state_at c s).id (state_at c s).id refl e).1).1

  -- When the loop ends at a reserved number, it has seen none that is free.
  free_number_reserved :
      (fuel n : ℕ)
      → invoke_id_reserved c ip (invoke_id c s (free_number c fuel s ip n)) ≡ true
      → (m : ℕ) → n < m
      → m ≤ n + suc fuel
      → invoke_id_reserved c ip (invoke_id c s m) ≡ true
  unfolding free_number
  free_number_reserved zero n h m lo hi =
      let same : suc n ≡ m = omega arith in
      subst (λ k. invoke_id_reserved c ip (invoke_id c s k) ≡ true) same h
  free_number_reserved (suc fuel) n h m lo hi =
      elim (Bool-cases (invoke_id_reserved c ip (invoke_id c s (suc n)))) [
        | inr q ↦ cc (rw (q, free_number) at h)
        | inl q ↦
            let later : invoke_id_reserved c ip (invoke_id c s (free_number c fuel s ip (suc n)))
                ≡ true =
              rw (q, free_number) at h in
            elim (next_or_later n m lo) [
              | inl same ↦
                  subst (λ k. invoke_id_reserved c ip (invoke_id c s k) ≡ true) (sym same) q
              | inr more ↦ free_number_reserved fuel (suc n) later m more (omega arith)
            ]
      ]

  -- The ID chosen for an invocation that declares none is reserved neither by a running invocation
  -- nor by one that the chart declares; the search over the counter needs no more rounds than there
  -- are reserved IDs, and one.
  pub choose_invoke_id_fresh :
      (spec : InvokeSpec)
      → bytes_eq spec.id (codes "") ≡ true
      → invoke_id_reserved c ip (choose_invoke_id c s spec ip).1 ≡ false
  unfolding choose_invoke_id
  choose_invoke_id_fresh spec anonymous =
      let number = free_number c (reserved_count c ip) s ip ip.invoke_seq in
      elim (Bool-cases (invoke_id_reserved c ip (invoke_id c s number))) [
        | inr q ↦ rw anonymous q
        | inl q ↦
            let all_taken : (m : ℕ)
                → ip.invoke_seq < m
                → m ≤ ip.invoke_seq + suc (reserved_count c ip)
                → listed (invoke_id c s m) taken ≡ true =
              λ m lo hi.
                sym (reserved_listed (invoke_id c s m))
                ∙ free_number_reserved (reserved_count c ip) ip.invoke_seq q m lo hi in
            let bound =
              pigeonhole (invoke_id c s) (suc (reserved_count c ip)) ip.invoke_seq taken
                invoke_id_injective all_taken in
            let total = length-append (keys ip.invokes_by_id) (declared_ids c.order) in
            absurd (omega arith)
      ]
