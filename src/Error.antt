-- ===== src/Error.antt =====
-- The errors of the host: the error types and codes that the modelled code raises
-- (soroban-env-common/src/error.rs takes them from the XDR definitions), and the result of
-- fallible code. A `HostError` also carries backtrace information for diagnostics, which is not
-- modelled.
use rs_stellar_contract_env.Prelude.{ℕ, Bool, true, false, Option, none, some}

pub data ScErrorType : Type 0 where
  contract wasm_vm context storage object crypto events budget value auth : ScErrorType

pub data ScErrorCode : Type 0 where
  arith_domain index_bounds invalid_input missing_value existing_value exceeded_limit : ScErrorCode
  invalid_action internal_error unexpected_type unexpected_size : ScErrorCode

-- `Error::from_type_and_code` and `Error::from_contract_error`
pub data HostError : Type 0 where
  from_type_and_code : ScErrorType → ScErrorCode → HostError
  from_contract_error : ℕ → HostError

-- `Result<A, HostError>`
pub data Result {ℓ} (A : Type ℓ) : Type ℓ where
  ok : A → Result A
  err : HostError → Result A

-- `Err((ty, code).into())`
abbrev pub fail {ℓ} : {A : Type ℓ} → ScErrorType → ScErrorCode → Result A
fail ty code = err (from_type_and_code ty code)

-- The chain of fallible steps that `?` writes, for code that changes no state.
abbrev pub bind {ℓ κ} : {A : Type ℓ} {B : Type κ} → Result A → (A → Result B) → Result B
bind (ok a) f = f a
bind (err e) f = err e

abbrev pub map_ok {ℓ κ} : {A : Type ℓ} {B : Type κ} → (A → B) → Result A → Result B
map_ok f (ok a) = ok (f a)
map_ok f (err e) = err e

-- `option.ok_or_else(|| e)`
abbrev pub ok_or {ℓ} : {A : Type ℓ} → Option A → HostError → Result A
ok_or (some a) e = ok a
ok_or none e = err e

abbrev pub is_ok {ℓ} : {A : Type ℓ} → Result A → Bool
is_ok (ok a) = true
is_ok (err e) = false

abbrev pub IsOk {ℓ} : {A : Type ℓ} → Result A → Type 0
IsOk (ok a) = Unit
IsOk (err e) = ⊥

-- The error is one of the budget's.
abbrev pub IsBudgetError : HostError → Type 0
IsBudgetError (from_type_and_code budget code) = Unit
IsBudgetError (from_type_and_code ty code) = ⊥
IsBudgetError (from_contract_error code) = ⊥

-- `error.is_type(ScErrorType::Contract)`
abbrev pub is_contract_type : HostError → Bool
is_contract_type (from_type_and_code contract code) = true
is_contract_type (from_type_and_code ty code) = false
is_contract_type (from_contract_error code) = true

-- The result is an error of the budget.
abbrev pub FailsOnBudget {ℓ} : {A : Type ℓ} → Result A → Type 0
FailsOnBudget (ok a) = ⊥
FailsOnBudget (err e) = IsBudgetError e
