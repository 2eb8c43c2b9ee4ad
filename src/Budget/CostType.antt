-- ===== src/Budget/CostType.antt =====
-- `ContractCostType`, the index of the cost models and trackers (the variants that
-- soroban-env-host/src/budget.rs lists), and the arrays `[T; ContractCostType::variants().len()]`.
use mathlib.Core.Path.{subst}
use rs_stellar_contract_env.Prelude.{
  refl, ap, Bool-cases, List, [], ◌∷◌, get_elem?, ==_iff, inl, inr, ℕ, ◌≡◌, true, Option, some,
  arith, ◌==◌, if◌then◌else◌,
}

pub data ContractCostType : Type 0 where
  wasm_insn_exec mem_alloc mem_cpy mem_cmp dispatch_host_function visit_object : ContractCostType
  val_ser val_deser compute_sha256_hash compute_ed25519_pub_key verify_ed25519_sig :
      ContractCostType
  vm_instantiation vm_cached_instantiation invoke_vm_function : ContractCostType
  compute_keccak256_hash compute_ecdsa_secp256k1_sig recover_ecdsa_secp256k1_key : ContractCostType
  int256_add_sub int256_mul int256_div int256_pow int256_shift : ContractCostType
  cha_cha20_draw_bytes : ContractCostType

-- `ty as usize`
abbrev pub index : ContractCostType → ℕ
index wasm_insn_exec = 0
index mem_alloc = 1
index mem_cpy = 2
index mem_cmp = 3
index dispatch_host_function = 4
index visit_object = 5
index val_ser = 6
index val_deser = 7
index compute_sha256_hash = 8
index compute_ed25519_pub_key = 9
index verify_ed25519_sig = 10
index vm_instantiation = 11
index vm_cached_instantiation = 12
index invoke_vm_function = 13
index compute_keccak256_hash = 14
index compute_ecdsa_secp256k1_sig = 15
index recover_ecdsa_secp256k1_key = 16
index int256_add_sub = 17
index int256_mul = 18
index int256_div = 19
index int256_pow = 20
index int256_shift = 21
index cha_cha20_draw_bytes = 22

-- `ContractCostType::variants().len()`
abbrev pub variants_len : ℕ
variants_len = 23

-- An array with one element for each cost type: `get(ty as usize)` finds an element for every type.
abbrev pub Table {ℓ} : Type ℓ → Type ℓ
Table A = ContractCostType → A

-- `table.get(ty as usize)`
abbrev pub get {ℓ} : {A : Type ℓ} → Table A → ContractCostType → Option A
get table ty = some (table ty)

-- The write through `table.get_mut(ty as usize)`
unfoldable pub set {ℓ} : {A : Type ℓ} → Table A → ContractCostType → A → Table A
set table ty v other = if index ty == index other then v else table other

index_refl : (n : ℕ) → (n == n) ≡ true
index_refl n = ground arith

pub set_self {ℓ} :
    {A : Type ℓ} (table : Table A) (ty : ContractCostType) (v : A) → set table ty v ty ≡ v
unfolding set
set_self table ty v = rw (index_refl (index ty))

-- `ContractCostType::variants()`
abbrev pub variants : List ContractCostType
variants =
    wasm_insn_exec ∷ mem_alloc ∷ mem_cpy ∷ mem_cmp ∷ dispatch_host_function ∷ visit_object ∷ val_ser
    ∷ val_deser ∷ compute_sha256_hash ∷ compute_ed25519_pub_key ∷ verify_ed25519_sig
    ∷ vm_instantiation ∷ vm_cached_instantiation ∷ invoke_vm_function ∷ compute_keccak256_hash
    ∷ compute_ecdsa_secp256k1_sig ∷ recover_ecdsa_secp256k1_key ∷ int256_add_sub ∷ int256_mul
    ∷ int256_div ∷ int256_pow ∷ int256_shift ∷ cha_cha20_draw_bytes ∷ []

pub get_elem?-variants : (ty : ContractCostType) → get_elem? variants (index ty) ≡ some ty
get_elem?-variants wasm_insn_exec = refl
get_elem?-variants _ = refl

pub index_injective : (a b : ContractCostType) → index a ≡ index b → a ≡ b
index_injective a b e = cc (get_elem?-variants a, get_elem?-variants b, ap (get_elem? variants) e)

-- What holds of an array at each type, and of the element written, holds of the array after.
pub set_induction {ℓ κ} :
    {A : Type ℓ} (P : ContractCostType → A → Type κ) (table : Table A) (ty : ContractCostType)
    (v : A)
    → P ty v
    → ((other : ContractCostType) → P other (table other))
    → (other : ContractCostType) → P other (set table ty v other)
unfolding set
set_induction P table ty v new old other = elim (Bool-cases (index ty == index other)) [
  | inl e ↦ rw e (subst (λ t. P t v) (index_injective ty other ((==_iff _ _).0 e)) new)
  | inr e ↦ rw e (old other)
]
