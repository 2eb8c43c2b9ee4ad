-- ===== src/Budget/Charge/Free.antt =====
-- Budgets that cost nothing, and charges on them.
use rs_stellar_contract_env.Prelude.{
  ℕ, ◌≤◌, ◌≡◌, refl, ap, inl, inr, Bool, true, false, Option, none, some, arith, Bool-cases,
}
use rs_stellar_contract_env.Error.{ok}
use rs_stellar_contract_env.Exec.{Exec, ◌>>=◌, ◌>>◌}
use rs_stellar_contract_env.Exec.Computes.{Computes}
use rs_stellar_contract_env.Budget.CostType.{ContractCostType, set_induction}
use rs_stellar_contract_env.Budget.Model.{MeteredCostComponent, zero_model, add_linear}
use rs_stellar_contract_env.Budget.Dimension.{BudgetDimension, add_count, check_budget_limit}
use rs_stellar_contract_env.Budget.Dimension.Laws.{unit_cost, CountsFit}
use rs_stellar_contract_env.Budget.Tracker.{
  init_input, add_input, record_inputs, BudgetTracker, add_cpu, add_mem,
}
use rs_stellar_contract_env.Budget.Charge.{
  BudgetImpl, charge_inputs, charge_cpu, charge_mem, bulk_charge, charge, track,
}
use rs_stellar_contract_env.Budget.Charge.Laws.{amount, charge_cpu_lem, charge_mem_lem}
use rs_stellar_contract_env.Budget.Charge.Limits.{SameKind, bulk_charge_fails}

pub record IsFreeDimension (d : BudgetDimension) : Type 0 where
  pub models : (ty : ContractCostType) → d.cost_models ty ≡ zero_model
  pub fits : CountsFit d
  pub within : d.total_count ≤ d.limit
  pub shadow_within : d.shadow_total_count ≤ d.shadow_limit

-- The inputs of a tracker are of the kind that they start with.
abbrev pub HasKinds : BudgetTracker → Type 0
HasKinds t = (ty : ContractCostType) → SameKind (t.cost_tracker ty).inputs (init_input ty)

pub record IsFree (b : BudgetImpl) : Type 0 where
  pub cpu : IsFreeDimension b.cpu_insns
  pub mem : IsFreeDimension b.mem_bytes
  pub kinds : HasKinds b.tracker

free_cost :
    (d : BudgetDimension) (ty : ContractCostType) (input : Option ℕ)
    → IsFreeDimension d
    → unit_cost d ty input ≡ 0
unfolding add_linear
free_cost d ty none h = ap (λ (m : MeteredCostComponent). m.const_term) (h.models ty)
free_cost d ty (some x) h = ap (λ (m : MeteredCostComponent). add_linear m x) (h.models ty)

free_amount :
    (d : BudgetDimension) (ty : ContractCostType) (input : Option ℕ) (n : ℕ)
    → IsFreeDimension d
    → amount d ty input n ≡ 0
free_amount d ty input n h = rw (free_cost d ty input h) (ground arith)

free_add_count :
    (d : BudgetDimension) (ty : ContractCostType) (input : Option ℕ) (n : ℕ) (s : Bool)
    → IsFreeDimension d
    → add_count s (amount d ty input n) d ≡ d
unfolding add_count
free_add_count d ty input n true h =
    ap (λ k. record d { shadow_total_count = k })
      (let e = free_amount d ty input n h in let g = h.fits in ground arith)
free_add_count d ty input n false h =
    ap (λ k. record d { total_count = k })
      (let e = free_amount d ty input n h in let g = h.fits in ground arith)

add_cpu-HasKinds :
    (ty : ContractCostType) (a : ℕ) (t : BudgetTracker) → HasKinds t → HasKinds (add_cpu ty a t)
unfolding add_cpu
add_cpu-HasKinds ty a t h =
    set_induction (λ o c. SameKind c.inputs (init_input o)) t.cost_tracker ty _ (h ty) h

add_mem-HasKinds :
    (ty : ContractCostType) (a : ℕ) (t : BudgetTracker) → HasKinds t → HasKinds (add_mem ty a t)
unfolding add_mem
add_mem-HasKinds ty a t h =
    set_induction (λ o c. SameKind c.inputs (init_input o)) t.cost_tracker ty _ (h ty) h

track-IsFree :
    (f : BudgetTracker → BudgetTracker) (b : BudgetImpl)
    → ((t : BudgetTracker) → HasKinds t → HasKinds (f t))
    → IsFree b
    → IsFree (track f b)
unfolding track
track-IsFree f b h free = elim (Bool-cases b.is_in_shadow_mode) [
  | inl e ↦ rw e (record { cpu = free.cpu; mem = free.mem; kinds = free.kinds })
  | inr e ↦ rw e (record { cpu = free.cpu; mem = free.mem; kinds = h b.tracker free.kinds })
]

free_check : (s : Bool) (d : BudgetDimension) → IsFreeDimension d → check_budget_limit s d ≡ ok tt
unfolding check_budget_limit
free_check true d h = let w = h.shadow_within in ground arith
free_check false d h = let w = h.within in ground arith

cpu-track :
    (f : BudgetTracker → BudgetTracker) (b : BudgetImpl) → (track f b).cpu_insns ≡ b.cpu_insns
unfolding track
cpu-track f b = ground arith

mem-track :
    (f : BudgetTracker → BudgetTracker) (b : BudgetImpl) → (track f b).mem_bytes ≡ b.mem_bytes
unfolding track
mem-track f b = ground arith

IsFree-cpu :
    (ty : ContractCostType) (n : ℕ) (input : Option ℕ) (b : BudgetImpl)
    → IsFree b
    → ((charge_cpu ty n input b).0 ≡ ok tt) × IsFree (charge_cpu ty n input b).1
IsFree-cpu ty n input b h =
    let a = amount b.cpu_insns ty input n in
    rw (charge_cpu_lem ty n input b) (
      rw (free_add_count b.cpu_insns ty input n b.is_in_shadow_mode h.cpu) (
        simp cpu-track (
          free_check b.is_in_shadow_mode b.cpu_insns h.cpu,
          track-IsFree (add_cpu ty a) b (add_cpu-HasKinds ty a) h,
        )))

IsFree-mem :
    (ty : ContractCostType) (n : ℕ) (input : Option ℕ) (b : BudgetImpl)
    → IsFree b
    → ((charge_mem ty n input b).0 ≡ ok tt) × IsFree (charge_mem ty n input b).1
IsFree-mem ty n input b h =
    let a = amount b.mem_bytes ty input n in
    rw (charge_mem_lem ty n input b) (
      rw (free_add_count b.mem_bytes ty input n b.is_in_shadow_mode h.mem) (
        simp mem-track (
          free_check b.is_in_shadow_mode b.mem_bytes h.mem,
          track-IsFree (add_mem ty a) b (add_mem-HasKinds ty a) h,
        )))

add_input_same :
    (i j k : Option ℕ) (n : ℕ)
    → SameKind i k
    → SameKind j k
    → (r : Option ℕ) × (add_input i j n ≡ some r) × SameKind r k
unfolding add_input
add_input_same none none none n p q = (none, refl, tt)
add_input_same (some i) (some j) (some k) n p q = (some _, refl, tt)
add_input_same none (some j) none n p q = absurd q
add_input_same none j (some k) n p q = absurd p
add_input_same (some i) j none n p q = absurd p
add_input_same (some i) none (some k) n p q = absurd q

free_record_inputs :
    (ty : ContractCostType) (n : ℕ) (input : Option ℕ) (t : BudgetTracker)
    → HasKinds t
    → SameKind input (init_input ty)
    → ((record_inputs ty n input t).0 ≡ ok tt) × HasKinds (record_inputs ty n input t).1
unfolding record_inputs
free_record_inputs ty n input t h k =
    let (r, e, s) = add_input_same (t.cost_tracker ty).inputs input (init_input ty) n (h ty) k in
    rw (e, record_inputs)
      (refl, set_induction (λ o c. SameKind c.inputs (init_input o)) t.cost_tracker ty _ s h)

IsFree-inputs :
    (ty : ContractCostType) (n : ℕ) (input : Option ℕ) (b : BudgetImpl)
    → IsFree b
    → SameKind input (init_input ty)
    → ((charge_inputs ty n input b).0 ≡ ok tt) × IsFree (charge_inputs ty n input b).1
unfolding charge_inputs
IsFree-inputs ty n input b h k =
    let (e, kinds) = free_record_inputs ty n input b.tracker h.kinds k in
    elim (Bool-cases b.is_in_shadow_mode) [
      | inl s ↦ simp s (refl, h)
      | inr s ↦ simp s (e, record { cpu = h.cpu; mem = h.mem; kinds = kinds })
    ]

then-IsFree :
    (m k : Exec BudgetImpl (Unit {0})) (b : BudgetImpl)
    → ((m b).0 ≡ ok tt) × IsFree (m b).1
    → ((c : BudgetImpl) → IsFree c → ((k c).0 ≡ ok tt) × IsFree (k c).1)
    → (((m >> k) b).0 ≡ ok tt) × IsFree ((m >> k) b).1
unfolding ◌>>=◌
then-IsFree m k b h f = rw h.0 (f (m b).1 h.1)

bulk_charge-IsFree :
    (ty : ContractCostType) (n : ℕ) (input : Option ℕ) (b : BudgetImpl)
    → SameKind input (init_input ty)
    → IsFree b
    → ((bulk_charge ty n input b).0 ≡ ok tt) × IsFree (bulk_charge ty n input b).1
unfolding bulk_charge
bulk_charge-IsFree ty n input b k h =
    then-IsFree (charge_inputs ty n input) _ b (IsFree-inputs ty n input b h k) λ c f.
      then-IsFree (charge_cpu ty n input) _ c (IsFree-cpu ty n input c f) (IsFree-mem ty n input)

-- A charge whose input is of the kind of its type succeeds or fails with an error of the budget,
-- and on a free budget, one whose models cost nothing, it succeeds and leaves a free one.
pub bulk_charge-Computes :
    (ty : ContractCostType) (n : ℕ) (input : Option ℕ)
    → SameKind input (init_input ty)
    → Computes IsFree (bulk_charge ty n input) (ok tt)
bulk_charge-Computes ty n input k = record {
  agrees = bulk_charge_fails ty n input;
  total = λ b. bulk_charge-IsFree ty n input b k;
}

pub charge-Computes :
    (ty : ContractCostType) (input : Option ℕ)
    → SameKind input (init_input ty)
    → Computes IsFree (charge ty input) (ok tt)
unfolding charge
charge-Computes ty input k = bulk_charge-Computes ty 1 input k
