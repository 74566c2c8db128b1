-- ===== src/Prelude/Results.antt =====
-- What a call returns or raises. A handler that raises has committed nothing, so its error carries
-- no state; one that commits on the way returns its state itself.
use Prim.Native.Nat.{ℕ}
use Prim.Native.String.{String}
use mathlib.Core.Bool.{Bool, true, false}
use mathlib.Core.Option.{Option}
use mathlib.Core.Path.{◌≡◌, refl}
use mathlib.Core.Logic.{◌⊎◌, inl, inr}
use native.Mathlib.Omega.{arith}

pub data Error : Type 0 where
  -- HTTPException(status, detail)
  http_exception : ℕ → String → Error
  -- ValueError(message)
  value_error : String → Error
  -- the database refuses the commit, by a unique constraint
  integrity_error : Error
  -- GraphExtractionFailed for a job, with the message of the failure
  graph_extraction_failed : String → String → Error
  -- the exception of a call that the model takes as an argument, by its message
  raised : String → Error
  -- ZeroDivisionError of `/`
  zero_division_error : Error
  -- OverflowError of an integer that no float comes near
  overflow_error : Error
  -- KeyError of a dictionary
  key_error : String → Error
  -- ConfigError(message), TypeError(message)
  config_error : String → Error
  type_error : String → Error
  -- the errors of plug-ins, with the message and the plug-in's name; the last has its cause
  plugin_validation_error : String → Option String → Error
  plugin_not_registered_error : String → String → Error
  incompatible_plugin_error : String → String → Error
  plugin_construction_error : String → String → Error → Error
  -- the loop's fuel ran out: no run of the program ends so
  out_of_fuel : Error

pub data Result {ℓ} (A : Type ℓ) : Type ℓ where
  err : Error → Result A
  ok : A → Result A

-- `if not test: raise e`
abbrev pub guard : Bool → Error → Result (Unit {0})
guard false e = err e
guard true e = ok tt

pub guard-eq-ok : (test : Bool) (e : Error) {u : Unit {0}} → guard test e ≡ ok u → test ≡ true
guard-eq-ok test e h = ground arith

pub Result-cases {ℓ} :
    {A : Type ℓ} (r : Result A) → ((e : Error) × (r ≡ err e)) ⊎ ((a : A) × (r ≡ ok a))
Result-cases (err e) = inl (e, refl)
Result-cases (ok a) = inr (a, refl)

pub ok_inj {ℓ} : {A : Type ℓ} {x y : A} → ok x ≡ ok y → x ≡ y
ok_inj e = cc

module _ {ℓ κ} {A : Type ℓ} {B : Type κ} where
  infixl 5 ◌>>=◌
  -- what follows a call that may raise
  abbrev pub ◌>>=◌ : Result A → (A → Result B) → Result B
  err e >>= next = err e
  ok value >>= next = next value

  -- A sequence that returned went through its first call.
  pub >>=-eq-ok :
      (first : Result A) (next : A → Result B) {b : B}
      → (first >>= next) ≡ ok b
      → (value : A) × (first ≡ ok value) × (next value ≡ ok b)
  >>=-eq-ok (err e) next h = cc
  >>=-eq-ok (ok value) next h = (value, refl, h)

infixl 5 ◌>>◌
-- A check, of which the value is of no use.
abbrev pub ◌>>◌ {κ} : {B : Type κ} → Result (Unit {0}) → Result B → Result B
check >> rest = check >>= λ _. rest
