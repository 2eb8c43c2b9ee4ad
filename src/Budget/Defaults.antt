-- ===== src/Budget/Defaults.antt =====
-- soroban-env-host/src/budget.rs: `BudgetImpl::default()`, the models and limits of local testing.
use rs_stellar_contract_env.Prelude.{
  ℕ, ◌*◌, ◌≤◌, ◌<◌, ◌↔◌, false, Option, none, some, arith, u64_max, ◌⊎◌, inl,
}
use rs_stellar_contract_env.Budget.CostType.{
  ContractCostType, wasm_insn_exec, mem_alloc, mem_cpy, mem_cmp, dispatch_host_function,
  visit_object, val_ser, val_deser, compute_sha256_hash, compute_ed25519_pub_key,
  verify_ed25519_sig, vm_instantiation, vm_cached_instantiation, invoke_vm_function,
  compute_keccak256_hash, compute_ecdsa_secp256k1_sig, recover_ecdsa_secp256k1_key, int256_add_sub,
  int256_mul, int256_div, int256_pow, int256_shift, cha_cha20_draw_bytes,
}
use rs_stellar_contract_env.Budget.Model.{
  ScaledU64, scaled, raw, MeteredCostComponent, from_unscaled_u64, safe_div,
}
use rs_stellar_contract_env.Budget.Model.Laws.{add_linear_lem}
use rs_stellar_contract_env.Budget.Dimension.Laws.{unit_cost}
use rs_stellar_contract_env.Budget.Tracker.{default_tracker, init_input}
use rs_stellar_contract_env.Budget.Charge.{
  BudgetImpl, default_fuel_config, default_host_depth_limit,
}

-- `DEFAULT_CPU_INSN_LIMIT`
abbrev pub default_cpu_insn_limit : ℕ
default_cpu_insn_limit = 100_000_000

-- `DEFAULT_MEM_BYTES_LIMIT`
abbrev pub default_mem_bytes_limit : ℕ
default_mem_bytes_limit = 40 * 1024 * 1024

abbrev model : ℕ → ScaledU64 → MeteredCostComponent
model c l = record { const_term = c; lin_term = l }

-- The cpu cost model parameters
unfoldable pub default_cpu_model : ContractCostType → MeteredCostComponent
unfolding from_unscaled_u64 safe_div
default_cpu_model wasm_insn_exec = model 4 (scaled 0)
default_cpu_model mem_alloc = model 434 (safe_div (from_unscaled_u64 1) 8)
default_cpu_model mem_cpy = model 42 (safe_div (from_unscaled_u64 1) 8)
default_cpu_model mem_cmp = model 44 (safe_div (from_unscaled_u64 1) 8)
default_cpu_model dispatch_host_function = model 310 (scaled 0)
default_cpu_model visit_object = model 61 (scaled 0)
default_cpu_model val_ser = model 230 (scaled 29)
default_cpu_model val_deser = model 59052 (scaled 4001)
default_cpu_model compute_sha256_hash = model 3738 (scaled 7012)
default_cpu_model compute_ed25519_pub_key = model 40253 (scaled 0)
default_cpu_model verify_ed25519_sig = model 377524 (scaled 4068)
default_cpu_model vm_instantiation = model 451626 (scaled 45405)
default_cpu_model vm_cached_instantiation = model 451626 (scaled 45405)
default_cpu_model invoke_vm_function = model 1948 (scaled 0)
default_cpu_model compute_keccak256_hash = model 3766 (scaled 5969)
default_cpu_model compute_ecdsa_secp256k1_sig = model 710 (scaled 0)
default_cpu_model recover_ecdsa_secp256k1_key = model 2315295 (scaled 0)
default_cpu_model int256_add_sub = model 4404 (scaled 0)
default_cpu_model int256_mul = model 4947 (scaled 0)
default_cpu_model int256_div = model 4911 (scaled 0)
default_cpu_model int256_pow = model 4286 (scaled 0)
default_cpu_model int256_shift = model 913 (scaled 0)
default_cpu_model cha_cha20_draw_bytes = model 1058 (scaled 501)

-- The memory cost model parameters
unfoldable pub default_mem_model : ContractCostType → MeteredCostComponent
unfolding from_unscaled_u64 safe_div
default_mem_model wasm_insn_exec = model 0 (scaled 0)
default_mem_model mem_alloc = model 16 (from_unscaled_u64 1)
default_mem_model mem_cpy = model 0 (scaled 0)
default_mem_model mem_cmp = model 0 (scaled 0)
default_mem_model dispatch_host_function = model 0 (scaled 0)
default_mem_model visit_object = model 0 (scaled 0)
default_mem_model val_ser = model 242 (from_unscaled_u64 3)
default_mem_model val_deser = model 0 (from_unscaled_u64 3)
default_mem_model compute_sha256_hash = model 0 (scaled 0)
default_mem_model compute_ed25519_pub_key = model 0 (scaled 0)
default_mem_model verify_ed25519_sig = model 0 (scaled 0)
default_mem_model vm_instantiation = model 130065 (scaled 5064)
default_mem_model vm_cached_instantiation = model 130065 (scaled 5064)
default_mem_model invoke_vm_function = model 14 (scaled 0)
default_mem_model compute_keccak256_hash = model 0 (scaled 0)
default_mem_model compute_ecdsa_secp256k1_sig = model 0 (scaled 0)
default_mem_model recover_ecdsa_secp256k1_key = model 181 (scaled 0)
default_mem_model int256_add_sub = model 99 (scaled 0)
default_mem_model int256_mul = model 99 (scaled 0)
default_mem_model int256_div = model 99 (scaled 0)
default_mem_model int256_pow = model 99 (scaled 0)
default_mem_model int256_shift = model 99 (scaled 0)
default_mem_model cha_cha20_draw_bytes = model 0 (scaled 0)

-- `BudgetImpl::default()`
unfoldable pub default_budget : BudgetImpl
unfolding default_cpu_model default_mem_model default_tracker
default_budget = record {
  cpu_insns = record {
    cost_models = default_cpu_model;
    limit = default_cpu_insn_limit;
    total_count = 0;
    shadow_limit = default_cpu_insn_limit;
    shadow_total_count = 0;
  };
  mem_bytes = record {
    cost_models = default_mem_model;
    limit = default_mem_bytes_limit;
    total_count = 0;
    shadow_limit = default_mem_bytes_limit;
    shadow_total_count = 0;
  };
  tracker = default_tracker;
  is_in_shadow_mode = false;
  fuel_config = default_fuel_config;
  depth_limit = default_host_depth_limit;
}

-- A model with a linear part.
abbrev pub IsLinear : MeteredCostComponent → Type 0
IsLinear m = 0 < raw m.lin_term

abbrev pub TakesInput : Option ℕ → Type 0
TakesInput (some i) = Unit
TakesInput none = ⊥

-- The trackers and the default models agree: an input is tracked for exactly the types whose cpu or
-- memory model has a linear part, so that no linear cost is charged without an input.
pub init_input_iff :
    (ty : ContractCostType)
    → TakesInput (init_input ty)
      ↔ (IsLinear (default_cpu_model ty) ⊎ IsLinear (default_mem_model ty))
unfolding init_input default_cpu_model default_mem_model
init_input_iff wasm_insn_exec = (λ t. absurd t, λ h. omega arith)
init_input_iff mem_alloc = (λ t. inl (omega arith), λ h. tt)
init_input_iff mem_cpy = (λ t. inl (omega arith), λ h. tt)
init_input_iff mem_cmp = (λ t. inl (omega arith), λ h. tt)
init_input_iff dispatch_host_function = (λ t. absurd t, λ h. omega arith)
init_input_iff visit_object = (λ t. absurd t, λ h. omega arith)
init_input_iff val_ser = (λ t. inl (omega arith), λ h. tt)
init_input_iff val_deser = (λ t. inl (omega arith), λ h. tt)
init_input_iff compute_sha256_hash = (λ t. inl (omega arith), λ h. tt)
init_input_iff compute_ed25519_pub_key = (λ t. absurd t, λ h. omega arith)
init_input_iff verify_ed25519_sig = (λ t. inl (omega arith), λ h. tt)
init_input_iff vm_instantiation = (λ t. inl (omega arith), λ h. tt)
init_input_iff vm_cached_instantiation = (λ t. inl (omega arith), λ h. tt)
init_input_iff invoke_vm_function = (λ t. absurd t, λ h. omega arith)
init_input_iff compute_keccak256_hash = (λ t. inl (omega arith), λ h. tt)
init_input_iff compute_ecdsa_secp256k1_sig = (λ t. absurd t, λ h. omega arith)
init_input_iff recover_ecdsa_secp256k1_key = (λ t. absurd t, λ h. omega arith)
init_input_iff int256_add_sub = (λ t. absurd t, λ h. omega arith)
init_input_iff int256_mul = (λ t. absurd t, λ h. omega arith)
init_input_iff int256_div = (λ t. absurd t, λ h. omega arith)
init_input_iff int256_pow = (λ t. absurd t, λ h. omega arith)
init_input_iff int256_shift = (λ t. absurd t, λ h. omega arith)
init_input_iff cha_cha20_draw_bytes = (λ t. inl (omega arith), λ h. tt)

default_const_bounds :
    (ty : ContractCostType)
    → (4 ≤ (default_cpu_model ty).const_term) × ((default_cpu_model ty).const_term ≤ u64_max)
unfolding default_cpu_model
default_const_bounds wasm_insn_exec = omega arith
default_const_bounds _ = omega arith

-- Under the default models nothing is free: every charge, with an input or without, costs at least
-- four cpu instructions.
pub default_cost_positive :
    (ty : ContractCostType) (input : Option ℕ) → 4 ≤ unit_cost default_budget.cpu_insns ty input
unfolding default_budget
default_cost_positive ty none = (default_const_bounds ty).0
default_cost_positive ty (some x) =
    let (low, high) = default_const_bounds ty in
    omega (
      arith,
      add_linear_lem (default_cpu_model ty).const_term (default_cpu_model ty).lin_term x high,
    )
