-- ===== src/Budget/Tracker.antt =====
-- soroban-env-host/src/budget.rs: the trackers, which count what was charged for reporting.
use rs_stellar_contract_env.Prelude.{
  ◌^◌, ◌%◌, ℕ, ◌+◌, Option, none, some, u32_max, u64_max, saturating_add, saturating_mul,
}
use rs_stellar_contract_env.Error.{
  Result, ok, fail, ok_or, from_type_and_code, budget, internal_error,
}
use rs_stellar_contract_env.Exec.{Exec}
use rs_stellar_contract_env.Budget.CostType.{
  ContractCostType, Table, get, set, wasm_insn_exec, mem_alloc, mem_cpy, mem_cmp,
  dispatch_host_function, visit_object, val_ser, val_deser, compute_sha256_hash,
  compute_ed25519_pub_key, verify_ed25519_sig, vm_instantiation, vm_cached_instantiation,
  invoke_vm_function, compute_keccak256_hash, compute_ecdsa_secp256k1_sig,
  recover_ecdsa_secp256k1_key, int256_add_sub, int256_mul, int256_div, int256_pow, int256_shift,
  cha_cha20_draw_bytes,
}

pub record CostTracker : Type 0 where
  pub iterations : ℕ
  pub inputs : Option ℕ
  pub cpu : ℕ
  pub mem : ℕ

pub record BudgetTracker : Type 0 where
  pub cost_tracker : Table CostTracker
  pub meter_count : ℕ
  -- of test builds only
  pub wasm_memory : ℕ
  pub time_tracker : Table ℕ

-- What the tracker of a type starts with: `some 0` for the types of linear cost.
unfoldable pub init_input : ContractCostType → Option ℕ
init_input wasm_insn_exec = none
init_input mem_alloc = some 0
init_input mem_cpy = some 0
init_input mem_cmp = some 0
init_input dispatch_host_function = none
init_input visit_object = none
init_input val_ser = some 0
init_input val_deser = some 0
init_input compute_sha256_hash = some 0
init_input compute_ed25519_pub_key = none
init_input verify_ed25519_sig = some 0
init_input vm_instantiation = some 0
init_input vm_cached_instantiation = some 0
init_input invoke_vm_function = none
init_input compute_keccak256_hash = some 0
init_input compute_ecdsa_secp256k1_sig = none
init_input recover_ecdsa_secp256k1_key = none
init_input int256_add_sub = none
init_input int256_mul = none
init_input int256_div = none
init_input int256_pow = none
init_input int256_shift = none
init_input cha_cha20_draw_bytes = some 0

-- `BudgetTracker::default()`
unfoldable pub default_tracker : BudgetTracker
default_tracker = record {
  cost_tracker = λ ty. record { iterations = 0; inputs = init_input ty; cpu = 0; mem = 0 };
  meter_count = 0;
  wasm_memory = 0;
  time_tracker = λ ty. 0;
}

abbrev pub zero_input : Option ℕ → Option ℕ
zero_input (some i) = some 0
zero_input none = none

-- `BudgetTracker::reset`; the times stay
unfoldable pub reset : BudgetTracker → BudgetTracker
reset t = record t {
  meter_count = 0;
  cost_tracker = λ ty. record {
    iterations = 0;
    inputs = zero_input (t.cost_tracker ty).inputs;
    cpu = 0;
    mem = 0;
  };
  wasm_memory = 0;
}

-- `*t += duration`, which wraps in a release build; a build with overflow checks would panic.
unfoldable pub track_time : ContractCostType → ℕ → Exec BudgetTracker (Unit {0})
unfolding set
track_time ty duration t = elim (get t.time_tracker ty) [
  | none ↦ (fail budget internal_error, t)
  | some time ↦
      (ok tt, record t { time_tracker = set t.time_tracker ty ((time + duration) % 2 ^ 64) })
]

unfoldable pub get_time : BudgetTracker → ContractCostType → Result ℕ
get_time t ty = ok_or (get t.time_tracker ty) (from_type_and_code budget internal_error)

-- The inputs of a tracker after a charge; `none` where the input does not fit the type.
unfoldable pub add_input : Option ℕ → Option ℕ → ℕ → Option (Option ℕ)
add_input none none iterations = some none
add_input (some t) (some i) iterations =
    some (some (saturating_add u64_max t (saturating_mul u64_max i iterations)))
add_input _ _ iterations = none

-- What `BudgetImpl::charge` first does to the tracker, outside shadow mode. The count of the calls
-- and of the iterations stay counted where the input does not fit.
unfoldable pub record_inputs : ContractCostType → ℕ → Option ℕ → Exec BudgetTracker (Unit {0})
unfolding set add_input
record_inputs ty iterations input t =
    let tracker = t.cost_tracker ty in
    let counted : CostTracker = record tracker {
      iterations = saturating_add u64_max tracker.iterations iterations;
    } in
    let calls = saturating_add u32_max t.meter_count 1 in
    elim (add_input tracker.inputs input iterations) [
      | none ↦ (
        fail budget internal_error,
        record t { meter_count = calls; cost_tracker = set t.cost_tracker ty counted },
      )
      | some inputs ↦ (
        ok tt,
        record t {
          meter_count = calls;
          cost_tracker = set t.cost_tracker ty (record counted { inputs = inputs });
        },
      )
    ]

unfoldable pub add_cpu : ContractCostType → ℕ → BudgetTracker → BudgetTracker
unfolding set
add_cpu ty amount t =
    let tracker = t.cost_tracker ty in
    record t {
      cost_tracker =
          set t.cost_tracker ty
            (record tracker { cpu = saturating_add u64_max tracker.cpu amount });
    }

unfoldable pub add_mem : ContractCostType → ℕ → BudgetTracker → BudgetTracker
unfolding set
add_mem ty amount t =
    let tracker = t.cost_tracker ty in
    record t {
      cost_tracker =
          set t.cost_tracker ty
            (record tracker { mem = saturating_add u64_max tracker.mem amount });
    }
