-- ===== src/Base/Fallible.antt =====
-- Go's `(T, error)` results. An error keeps the text of its `errors.New` or `fmt.Errorf` call: the
-- arguments of `%q` and `%s` stand in the list, and `wrap` is `%w`.
use Prim.Native.String.{String}
use mathlib.Core.Path.{◌≡◌, refl}
use mathlib.Core.Bool.{Bool, true, false}
use mathlib.Core.List.{List, [], ◌∷◌}

pub data Error : Type 0 where
  errors_new : String → Error
  errorf : String → List String → Error
  wrap : String → Error → Error

pub data Result {ℓ} (A : Type ℓ) : Type ℓ where
  err : (reason : Error) → Result A
  ok : (value : A) → Result A

infixl 5 ◌>>=◌ ◌>>◌
abbrev pub ◌>>=◌ {ℓ κ} : {A : Type ℓ} {B : Type κ} → Result A → (A → Result B) → Result B
err reason >>= rest = err reason
ok value >>= rest = rest value

abbrev pub ◌>>◌ {ℓ} : {B : Type ℓ} → Result (Unit {0}) → Result B → Result B
err reason >> rest = err reason
ok done >> rest = rest

-- if bad { return e }
abbrev pub fail_if : Bool → Error → Result (Unit {0})
fail_if true e = err e
fail_if false e = ok tt

-- if err != nil { return fmt.Errorf("context: %w", err) }
abbrev pub wrapped {ℓ} : {A : Type ℓ} → String → Result A → Result A
wrapped context (ok a) = ok a
wrapped context (err e) = err (wrap context e)

abbrev pub is_ok {ℓ} : {A : Type ℓ} → Result A → Bool
is_ok (ok a) = true
is_ok (err e) = false

-- The loop over a table of names and values that returns at the first value that fails its test.
abbrev pub require_each {ℓ} :
    {A : Type ℓ} → (A → Bool) → (String → Error) → List (String × A) → Result (Unit {0})
require_each bad message [] = ok tt
require_each bad message ((name, value) ∷ rest) =
    fail_if (bad value) (message name) >> require_each bad message rest

-- A chain that succeeds has a first step that succeeds.
pub bind_ok {ℓ κ} :
    {A : Type ℓ} {B : Type κ} (first : Result A) (rest : A → Result B) {value : B}
    → first >>= rest ≡ ok value
    → (given : A) × (first ≡ ok given) × (rest given ≡ ok value)
bind_ok (err reason) rest h = cc
bind_ok (ok given) rest h = (given, refl, h)
