-- ===== src/Definition/Checked.antt =====
-- Failures of validation and of compilation, and the paths at which they are reported.
--
-- A `DefinitionError` is its path; the text of the error that it wraps is left out. A nil pointer
-- that is dereferenced is a failure too, `panics`.
use statecharts.Base.{ℕ, Bool, true, false, ◌++◌, ◌≡◌, refl, Option, none, some, ◌⊎◌, inl, inr}
use statecharts.Base.Bytes.{Bytes, codes, decimal}

pub data Fault : Type 0 where
  at_path : Bytes → Fault
  without_path : Fault
  panics : Fault

pub data Checked {ℓ} (A : Type ℓ) : Type ℓ where
  pass : A → Checked A
  fail : Fault → Checked A

infixl 5 ◌>>=◌ ◌>>◌
abbrev pub ◌>>=◌ {ℓ κ} : {A : Type ℓ} {B : Type κ} → Checked A → (A → Checked B) → Checked B
pass a >>= f = f a
fail e >>= f = fail e

abbrev pub ◌>>◌ {ℓ} : {B : Type ℓ} → Checked (Unit {0}) → Checked B → Checked B
m >> k = m >>= λ _. k

-- `if bad { return definitionError(path, …) }`
abbrev pub reject : Bool → Bytes → Checked (Unit {0})
reject true path = fail (at_path path)
reject false path = pass tt

-- The error of a call, wrapped with a path.
abbrev pub or_at {ℓ} : {A : Type ℓ} → Option A → Bytes → Checked A
or_at none path = fail (at_path path)
or_at (some a) path = pass a

-- A pointer that the code dereferences.
abbrev pub deref {ℓ} : {A : Type ℓ} → Option A → Checked A
deref none = fail panics
deref (some a) = pass a

-- `fmt.Sprintf("%s[%d]", path, i)`
unfoldable pub indexed : Bytes → ℕ → Bytes
indexed path i = path ++ (codes "[" ++ (decimal i ++ codes "]"))

-- `path+suffix`
abbrev pub below_path : Bytes → Bytes → Bytes
below_path path suffix = path ++ suffix

pub Checked-cases {ℓ} :
    {A : Type ℓ} (m : Checked A) → ((a : A) × (m ≡ pass a)) ⊎ ((e : Fault) × (m ≡ fail e))
Checked-cases (pass a) = inl (a, refl)
Checked-cases (fail e) = inr (e, refl)

-- What a chain that passes has passed through.
pub >>=-eq-pass {ℓ κ} :
    {A : Type ℓ} {B : Type κ} (m : Checked A) (f : A → Checked B) {b : B}
    → (m >>= f) ≡ pass b
    → (a : A) × (m ≡ pass a) × (f a ≡ pass b)
>>=-eq-pass (pass a) f h = (a, refl, h)
>>=-eq-pass (fail e) f h = cc

pub reject-eq-pass : (b : Bool) (path : Bytes) {u : Unit {0}} → reject b path ≡ pass u → b ≡ false
reject-eq-pass true path h = cc
reject-eq-pass false path h = refl

pub pass_inj {ℓ} : {A : Type ℓ} {a b : A} → pass a ≡ pass b → a ≡ b
pass_inj h = cc

-- `if b { return m }`, where `m` may be no error.
abbrev pub whenever : Bool → Checked (Unit {0}) → Checked (Unit {0})
whenever true m = m
whenever false m = pass tt

-- What is checked of a pointer that is not nil.
abbrev pub if_some {ℓ} : {A : Type ℓ} → Option A → (A → Checked (Unit {0})) → Checked (Unit {0})
if_some none f = pass tt
if_some (some a) f = f a
