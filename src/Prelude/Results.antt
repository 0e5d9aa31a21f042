-- ===== src/Prelude/Results.antt =====
-- Exceptions of the program as values, and the chain of calls that may raise.
use mathlib.Core.Path.{◌≡◌, refl}
use mathlib.Core.Logic.{◌⊎◌, inl, inr}

-- The exceptions that leave a function of the program, by their class.
pub data Fault : Type 0 where
  key_error value_error index_error type_error attribute_error : Fault
  timeout_error parse_error exception_group : Fault
  resolver_exception validator_exception zero_division_error unbound_local_error : Fault
  os_error name_error : Fault

-- What a call comes to: it raises, or it returns.
pub data Result {ℓ} (T : Type ℓ) : Type ℓ where
  err : Fault → Result T
  ok : T → Result T

module _ {ℓ κ} {T : Type ℓ} {U : Type κ} where
  infixl 5 ◌>>=◌ ◌>>◌
  -- An exception skips what follows.
  abbrev pub ◌>>=◌ : Result T → (T → Result U) → Result U
  err fault >>= next = err fault
  ok value >>= next = next value

  abbrev pub ◌>>◌ : Result T → Result U → Result U
  err fault >> after = err fault
  ok value >> after = after

  -- Inversion of a chain that returned.
  pub >>=-eq-ok :
      (call : Result T) (next : T → Result U) {out : U}
      → (call >>= next) ≡ ok out
      → (value : T) × (call ≡ ok value) × (next value ≡ ok out)
  >>=-eq-ok (err fault) next returned = cc
  >>=-eq-ok (ok value) next returned = (value, refl, returned)

pub Result-cases {ℓ} :
    {A : Type ℓ} (r : Result A) → ((a : A) × (r ≡ ok a)) ⊎ ((e : Fault) × (r ≡ err e))
Result-cases (ok a) = inl (a, refl)
Result-cases (err e) = inr (e, refl)

pub ok_inj {ℓ} : {A : Type ℓ} {a b : A} → ok a ≡ ok b → a ≡ b
ok_inj h = cc
