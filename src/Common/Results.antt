-- ===== src/Common/Results.antt =====
-- Python's exceptions as values, and the `do` notation over them.
use Prim.Native.Nat.{ℕ}
use Prim.Native.String.{String}
use mathlib.Core.Path.{◌≡◌, refl, ap}
use mathlib.Core.Bool.{Bool, true, false}
use mathlib.Core.List.{List}
use mathlib.Core.Logic.{◌⊎◌, inl, inr}

-- A `ValueError` and a `RuntimeError` carry the message and the numbers it interpolates.
-- `struct.error` is no `ValueError`, and a handler for the latter does not catch it.
pub data Error : Type 0 where
  value_error : String → List ℕ → Error
  runtime_error : String → List ℕ → Error
  struct_error : Error
  index_error : Error
  type_error : Error
  key_error : String → Error
  os_error : String → Error

pub data Result {ℓ} (A : Type ℓ) : Type ℓ where
  ok : A → Result A
  err : Error → Result A

-- `if not test: raise e`
abbrev pub guard : Bool → Error → Result (Unit {0})
guard false e = err e
guard true e = ok tt

infixl 5 ◌>>=◌ ◌>>◌
abbrev pub ◌>>=◌ {ℓ κ} : {A : Type ℓ} {B : Type κ} → Result A → (A → Result B) → Result B
err e >>= next = err e
ok a >>= next = next a

abbrev pub ◌>>◌ {κ} : {B : Type κ} → Result (Unit {0}) → Result B → Result B
first >> rest = first >>= λ _. rest

pub guard-eq-ok {κ} :
    {B : Type κ} (t : Bool) (e : Error) (rest : Result B) {b : B}
    → (guard t e >> rest) ≡ ok b
    → (t ≡ true) × (rest ≡ ok b)
guard-eq-ok true e rest h = (refl, h)
guard-eq-ok false e rest h = cc

pub >>=-eq-ok {ℓ κ} :
    {A : Type ℓ} {B : Type κ} (r : Result A) (next : A → Result B) {b : B}
    → (r >>= next) ≡ ok b
    → (a : A) × (r ≡ ok a) × (next a ≡ ok b)
>>=-eq-ok (err e) next h = cc
>>=-eq-ok (ok a) next h = (a, refl, h)

-- The call raises a `ValueError`, which the callers of these functions catch.
abbrev pub raises_value_error {ℓ} : {A : Type ℓ} → Result A → Bool
raises_value_error (ok a) = false
raises_value_error (err (value_error text numbers)) = true
raises_value_error (err e) = false

abbrev ok_or {ℓ} : {A : Type ℓ} → A → Result A → A
ok_or a (ok b) = b
ok_or a (err e) = a

pub ok_injective {ℓ} : {A : Type ℓ} {a b : A} → ◌≡◌ {A = Result A} (ok a) (ok b) → a ≡ b
ok_injective {a} p = ap (ok_or a) p

pub Result-cases {ℓ} :
    {A : Type ℓ} (r : Result A) → ((e : Error) × (r ≡ err e)) ⊎ ((a : A) × (r ≡ ok a))
Result-cases (err e) = inl (e, refl)
Result-cases (ok a) = inr (a, refl)
