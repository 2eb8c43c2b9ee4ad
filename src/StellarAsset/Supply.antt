-- ===== src/StellarAsset/Supply.antt =====
-- Transfers conserve the sum of the balances of any contracts among which payer and payee are.
use mathlib.Core.Path.{subst}
use rs_stellar_contract_env.Prelude.{
  sym, ap, ℕ, Bool, false, Option, none, some, List, [], ◌∷◌, ◌≡◌, ◌≢◌, refl, ◌+◌, ◌-◌, ◌≤◌, ◌==◌,
  ◌⊎◌, inl, inr, arith, Bool-cases,
}
use rs_stellar_contract_env.Prelude.Int.{pos, pos_part, i128_max}
use rs_stellar_contract_env.Error.{Result, ok}
use rs_stellar_contract_env.Storage.Ttl.{LedgerInfo}
use rs_stellar_contract_env.StellarAsset.{
  Address, contract_address, BalanceValue, DataValue, HostCalls, AccountFlags, required_flag,
}
use rs_stellar_contract_env.StellarAsset.Contract.{transfer}
use rs_stellar_contract_env.StellarAsset.Reaches.{Data, Reaches, IsHost, updated}
use rs_stellar_contract_env.StellarAsset.Moving.{holding, balance_key, opened}
use rs_stellar_contract_env.StellarAsset.Transfer.{transferred, Reaches-transfer}

-- The nonnegative amount of a balance, and 0 where there is none.
abbrev pub amount_in : Option DataValue → ℕ
amount_in none = 0
amount_in (some (DataValue.balance b)) = pos_part b.amount
amount_in (some (DataValue.allowance a)) = 0

abbrev pub total : List ℕ → Data → ℕ
total [] d = 0
total (id ∷ ids) d = amount_in (d (balance_key id)) + total ids d

abbrev pub Missing : ℕ → List ℕ → Type 0
Missing i [] = Unit
Missing i (id ∷ ids) = (i ≢ id) × Missing i ids

abbrev pub Occurs : ℕ → List ℕ → Type 0
Occurs i [] = ⊥
Occurs i (id ∷ ids) = (i ≡ id) ⊎ Occurs i ids

abbrev pub Distinct : List ℕ → Type 0
Distinct [] = Unit
Distinct (id ∷ ids) = Missing id ids × Distinct ids

total-Missing :
    (i : ℕ) (v : BalanceValue) (ids : List ℕ) (d : Data)
    → Missing i ids
    → total ids (updated (balance_key i) (DataValue.balance v) d) ≡ total ids d
total-Missing i v [] d h = refl
total-Missing i v (id ∷ ids) d h =
    let other : (i == id) ≡ false = ground (arith, h.0) in rw (other, total-Missing i v ids d h.1)

-- Writing a balance changes the total by the difference of the two amounts.
total_updated :
    (i : ℕ) (v : BalanceValue) (ids : List ℕ) (d : Data)
    → Distinct ids
    → Occurs i ids
    → total ids (updated (balance_key i) (DataValue.balance v) d) + amount_in (d (balance_key i))
      ≡ total ids d + pos_part v.amount
total_updated i v [] d s o = absurd o
total_updated i v (id ∷ ids) d s o = elim (Bool-cases (i == id)) [
  | inl e ↦
      let same : i ≡ id = ground arith in
      let kept = total-Missing i v ids d (subst (λ k. Missing k ids) (sym same) s.0) in
      let amount : amount_in (d (balance_key i)) ≡ amount_in (d (balance_key id)) =
        ap (λ k. amount_in (d (balance_key k))) same in
      rw (e, kept) (omega (arith, amount))
  | inr e ↦
      let rest =
        total_updated i v ids d s.1 (elim o [ inl t ↦ absurd (ground arith) | inr r ↦ r ]) in
      rw e (omega (arith, rest))
]

opened_amount :
    (flags : AccountFlags → Bool) (o : Option DataValue) (m : ℕ) (c : Bool)
    → opened flags o ≡ some (holding m c)
    → amount_in o ≡ m
opened_amount flags none m c h = elim (Bool-cases (flags required_flag)) [
  | inl t ↦ absurd (cc (h, t))
  | inr f ↦ cc (h, f)
]
opened_amount flags (some (DataValue.balance b)) m c h = elim (Bool-cases b.authorized) [
  | inl t ↦ cc (h, t)
  | inr f ↦ absurd (cc (h, f))
]
opened_amount flags (some (DataValue.allowance a)) m c h = absurd (cc h)

total_transferred :
    (i j x n m : ℕ) (b c : Bool) (d : Data) (ids : List ℕ)
    → i ≢ j
    → amount_in (d (balance_key i)) ≡ n
    → amount_in (d (balance_key j)) ≡ m
    → x ≤ n
    → Distinct ids
    → Occurs i ids
    → Occurs j ids
    → total ids (transferred i j x n m b c d) ≡ total ids d
total_transferred i j x n m b c d ids other g h l s oi oj =
    let spent = updated (balance_key i) (DataValue.balance (holding (n - x) b)) d in
    let first = total_updated i (holding (n - x) b) ids d s oi in
    let second = total_updated j (holding (m + x) c) ids spent s oj in
    let apart : (i == j) ≡ false = ground (arith, other) in
    let unchanged : amount_in (spent (balance_key j)) ≡ m = rw apart h in
    omega (arith, first, second, unchanged, g)

module _ {S : Type 0} (e : HostCalls S) (held : S → Data) (ledger : LedgerInfo)
    (flags : AccountFlags → Bool) (admin : Address) (auth : Address → Result (Unit {0}))
    (host : IsHost e held ledger flags admin auth) where
  -- On a host whose calls do what they are called for, an authorized transfer between two different
  -- contracts, of an amount that the payer's authorized balance has and that the payee may receive
  -- and has room for, succeeds and leaves the sum of the balances of any distinct contracts among
  -- which both are as it was.
  pub transfer_conserves :
      (i j x n m : ℕ) (b c : Bool) (d : Data) (ids : List ℕ)
      → auth (contract_address i) ≡ ok tt
      → i ≢ j
      → d (balance_key i) ≡ some (DataValue.balance (holding n b))
      → opened flags (d (balance_key j)) ≡ some (holding m c)
      → n ≤ i128_max
      → x ≤ n
      → m + x ≤ i128_max
      → Distinct ids
      → Occurs i ids
      → Occurs j ids
      → (d' : Data) × Reaches held
          (transfer e (contract_address i) (contract_address j) (pos x))
          d
          (ok tt)
          d'
        × (total ids d' ≡ total ids d)
  transfer_conserves i j x n m b c d ids a other g h fits l room s oi oj = (
    transferred i j x n m b c d,
    Reaches-transfer e held ledger flags admin auth host i j x n m b c d a other g h fits l room,
    total_transferred i j x n m b c d ids other (rw g)
        (opened_amount flags (d (balance_key j)) m c h) l s oi oj,
  )
