-- ===== src/Base/Errors.antt =====
-- A call that may raise: the exception classes that the source raises or catches.
use mathlib.Core.Path.{◌≡◌, refl}
use mathlib.Core.Logic.{◌⊎◌, inl, inr}
use mathlib.Core.Bool.{Bool, true, false}

pub data Error : Type 0 where
  value_error runtime_error os_error key_error type_error : Error
  permission_error eof_error timeout_error stop_iteration attribute_error : Error

pub data Result {ℓ} (Value : Type ℓ) : Type ℓ where
  err : (exception : Error) → Result Value
  ok : (value : Value) → Result Value

infixl 5 ◌>>◌ ◌>>=◌
-- the statements after a call, which an exception of the call skips
abbrev pub ◌>>=◌ {ℓ μ} :
    {Value : Type ℓ} {Next : Type μ} → Result Value → (Value → Result Next) → Result Next
err exception >>= next = err exception
ok value >>= next = next value

abbrev pub ◌>>◌ {μ} : {Next : Type μ} → Result (Unit {0}) → Result Next → Result Next
call >> next = call >>= λ done. next

-- `if c: raise E`
abbrev pub raise_if : Bool → Error → Result (Unit {0})
raise_if true exception = err exception
raise_if false exception = ok tt

-- a sequence that returns has a first call that returns
pub >>=-eq-ok {ℓ μ} :
    {Value : Type ℓ} {Next : Type μ} (call : Result Value) (next : Value → Result Next)
    {last : Next}
    → (call >>= next) ≡ ok last
    → (value : Value) × (call ≡ ok value) × (next value ≡ ok last)
>>=-eq-ok (err exception) next h = cc
>>=-eq-ok (ok value) next h = (value, refl, h)

-- a call returns or raises
pub outcome {ℓ} :
    {Value : Type ℓ} (call : Result Value)
    → ((value : Value) × (call ≡ ok value)) ⊎ ((exception : Error) × (call ≡ err exception))
outcome (err exception) = inr (exception, refl)
outcome (ok value) = inl (value, refl)

-- the statements after an `if c: raise E` that does not raise
pub raise_if-eq-ok {ℓ} :
    {Value : Type ℓ} (c : Bool) (exception : Error) (next : Result Value) {last : Value}
    → (raise_if c exception >> next) ≡ ok last
    → (c ≡ false) × (next ≡ ok last)
raise_if-eq-ok true exception next h = cc
raise_if-eq-ok false exception next h = (refl, h)

pub ok_injective {ℓ} : {Value : Type ℓ} {x y : Value} → ok x ≡ ok y → x ≡ y
ok_injective h = cc
