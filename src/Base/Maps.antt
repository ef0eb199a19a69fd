-- ===== src/Base/Maps.antt =====
-- Go maps as association lists: from states by document order, and from identifiers.
use Prim.Native.Nat.{ℕ}
use mathlib.Core.Path.{◌≡◌, refl}
use mathlib.Core.List.{List, [], ◌∷◌}
use mathlib.Core.Option.{Option, none, some}
use native.Mathlib.Omega.{arith}
use statecharts.Base.Tests.{◌==◌, if◌then◌else◌}
use statecharts.Base.Bytes.{Bytes, bytes_eq}

module _ {ℓ} {V : Type ℓ} where
  -- `m[k]`, with `none` for a missing key.
  abbrev pub get : ℕ → List (ℕ × V) → Option V
  get k [] = none
  get k ((j, v) ∷ m) = if k == j then some v else get k m

  -- `m[k] = v`
  abbrev pub put : ℕ → V → List (ℕ × V) → List (ℕ × V)
  put k v [] = (k, v) ∷ []
  put k v ((j, w) ∷ m) = if k == j then (k, v) ∷ m else (j, w) ∷ put k v m

  -- `delete(m, k)`
  abbrev pub remove : ℕ → List (ℕ × V) → List (ℕ × V)
  remove k [] = []
  remove k ((j, w) ∷ m) = if k == j then remove k m else (j, w) ∷ remove k m

  abbrev pub get_id : Bytes → List (Bytes × V) → Option V
  get_id k [] = none
  get_id k ((j, v) ∷ m) = if bytes_eq k j then some v else get_id k m

  abbrev pub put_id : Bytes → V → List (Bytes × V) → List (Bytes × V)
  put_id k v [] = (k, v) ∷ []
  put_id k v ((j, w) ∷ m) = if bytes_eq k j then (k, v) ∷ m else (j, w) ∷ put_id k v m

  abbrev pub remove_id : Bytes → List (Bytes × V) → List (Bytes × V)
  remove_id k [] = []
  remove_id k ((j, w) ∷ m) = if bytes_eq k j then remove_id k m else (j, w) ∷ remove_id k m

  pub get-put :
      (k j : ℕ) (v : V) (m : List (ℕ × V))
      → get j (put k v m) ≡ (if j == k then some v else get j m)
  get-put k j v [] = refl
  get-put k j v ((i, w) ∷ m) = ground (arith, get-put k j v m)
