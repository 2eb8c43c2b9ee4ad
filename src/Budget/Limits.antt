-- ===== src/Budget/Limits.antt =====
-- soroban-env-host/src/budget/limits.rs: the limit on the depth of recursion, `DepthLimiter` for
-- `BudgetImpl`.
use rs_stellar_contract_env.Prelude.{
  ℕ, zero, suc, ◌-◌, ◌≤◌, ◌<◌, ◌≡◌, refl, ap, sym, ◌∙◌, ◌⊎◌, inl, inr, none, some, arith, u32_max,
  checked_add, checked_sub, if◌then◌else◌, leb,
}
use rs_stellar_contract_env.Error.{Result, ok, fail, bind, context, exceeded_limit, internal_error}
use rs_stellar_contract_env.Exec.{Exec, pure, ◌>>=◌, ◌>>◌}
use rs_stellar_contract_env.Budget.Charge.{BudgetImpl}

unfoldable pub enter : Exec BudgetImpl (Unit {0})
enter b = elim (checked_sub b.depth_limit 1) [
  | some depth ↦ (ok tt, record b { depth_limit = depth })
  | none ↦ (fail context exceeded_limit, b)
]

unfoldable pub leave : Exec BudgetImpl (Unit {0})
leave b = elim (checked_add u32_max b.depth_limit 1) [
  | some depth ↦ (ok tt, record b { depth_limit = depth })
  | none ↦ (fail context internal_error, b)
]

-- The body runs, `leave` follows whatever it returned, and an error of `leave` comes first.
unfoldable pub run_and_leave {ℓ} : {A : Type ℓ} → Exec BudgetImpl A → Exec BudgetImpl A
unfolding leave
run_and_leave f b = let (res, b') = f b in let (left, b'') = leave b' in (bind left (λ _. res), b'')

unfoldable pub with_limited_depth {ℓ} : {A : Type ℓ} → Exec BudgetImpl A → Exec BudgetImpl A
unfolding ◌>>=◌ enter run_and_leave
with_limited_depth f = do enter; run_and_leave f

-- The body gives back the levels that it enters.
abbrev pub KeepsDepth {ℓ} : {A : Type ℓ} → Exec BudgetImpl A → Type 0
KeepsDepth f = (b : BudgetImpl) → b.depth_limit ≤ u32_max → (f b).1.depth_limit ≡ b.depth_limit

with_limited_depth_zero {ℓ} :
    {A : Type ℓ} (f : Exec BudgetImpl A) (b : BudgetImpl)
    → b.depth_limit ≡ 0
    → with_limited_depth f b ≡ (fail context exceeded_limit, b)
unfolding with_limited_depth
with_limited_depth_zero f b h = ground arith

-- With a level left, the body runs one level deeper and its result, an error too, is the result; a
-- body that gives back the levels that it enters leaves the depth as it was.
pub with_limited_depth_lem {ℓ} :
    {A : Type ℓ} (f : Exec BudgetImpl A) (b : BudgetImpl)
    → b.depth_limit ≤ u32_max
    → 0 < b.depth_limit
    → KeepsDepth f
    → ((with_limited_depth f b).0 ≡ (f (record b { depth_limit = b.depth_limit - 1 })).0)
      × ((with_limited_depth f b).1.depth_limit ≡ b.depth_limit)
unfolding with_limited_depth
with_limited_depth_lem f b fits h keep =
    let k = keep (record b { depth_limit = b.depth_limit - 1 }) (omega arith) in
    (ground arith, ground arith)

-- `n` levels of recursion around a body.
unfoldable pub nested {ℓ} : {A : Type ℓ} → ℕ → Exec BudgetImpl A → Exec BudgetImpl A
nested zero f = f
nested (suc n) f = with_limited_depth (nested n f)

zero_or_pos : (n : ℕ) → (n ≡ 0) ⊎ (0 < n)
zero_or_pos n = omega arith

nested-KeepsDepth {ℓ} : {A : Type ℓ} (a : A) (n : ℕ) → KeepsDepth (nested n (pure a))
unfolding nested pure
nested-KeepsDepth a zero b fits = refl
nested-KeepsDepth a (suc n) b fits = elim (zero_or_pos b.depth_limit) [
  | inl z ↦ rw (with_limited_depth_zero (nested n (pure a)) b z)
  | inr p ↦ (with_limited_depth_lem (nested n (pure a)) b fits p (nested-KeepsDepth a n)).1
]

-- What recursion of a depth gives under a limit.
abbrev pub within_depth {ℓ} : {A : Type ℓ} → A → ℕ → ℕ → Result A
within_depth a n limit = if leb n limit then ok a else fail context exceeded_limit

within_depth-zero {ℓ} :
    {A : Type ℓ} (a : A) (n limit : ℕ)
    → limit ≡ 0
    → within_depth a (suc n) limit ≡ fail context exceeded_limit
within_depth-zero a n limit h = ground arith

within_depth-suc {ℓ} :
    {A : Type ℓ} (a : A) (n limit : ℕ)
    → 0 < limit
    → within_depth a n (limit - 1) ≡ within_depth a (suc n) limit
within_depth-suc a n limit h = ground arith

-- `n` levels of recursion succeed exactly when the limit allows that many; deeper recursion ends
-- with the error of an exceeded limit. Either way the depth is afterwards as it was.
pub nested_lem {ℓ} :
    {A : Type ℓ} (a : A) (n : ℕ) (b : BudgetImpl)
    → b.depth_limit ≤ u32_max
    → ((nested n (pure a) b).0 ≡ within_depth a n b.depth_limit)
      × ((nested n (pure a) b).1.depth_limit ≡ b.depth_limit)
unfolding nested pure
nested_lem a zero b fits = (ground arith, refl)
nested_lem {A} a (suc n) b fits = (
  elim (zero_or_pos b.depth_limit) [
    | inl z ↦
        ap (λ (x : Result A × BudgetImpl). x.0) (with_limited_depth_zero (nested n (pure a)) b z)
        ∙ sym (within_depth-zero a n b.depth_limit z)
    | inr p ↦
        (with_limited_depth_lem (nested n (pure a)) b fits p (nested-KeepsDepth a n)).0
        ∙ (nested_lem a n (record b { depth_limit = b.depth_limit - 1 }) (omega arith)).0
        ∙ within_depth-suc a n b.depth_limit p
  ],
  nested-KeepsDepth a (suc n) b fits,
)
