-- ===== src/StellarAsset/Transfer.antt =====
-- Transfers between contracts: the amount leaves one balance and arrives at the other, and nothing is
-- made or lost.
use rs_stellar_contract_env.Prelude.{
  ℕ, Bool, true, false, some, ◌≡◌, ◌≢◌, ◌+◌, ◌-◌, ◌≤◌, ◌<◌, arith, Bool-cases, inl, inr,
}
use rs_stellar_contract_env.Prelude.Int.{pos, ltb_ℤ, i128_max}
use rs_stellar_contract_env.Error.{Result, ok, err}
use rs_stellar_contract_env.Exec.{lift}
use rs_stellar_contract_env.Storage.Ttl.{LedgerInfo, max_live_until_ledger}
use rs_stellar_contract_env.StellarAsset.{
  balance_error, contract_error, Address, account, contract_address, DataKey, DataValue, as_balance,
  HostCalls, AccountFlags, Event,
}
use rs_stellar_contract_env.StellarAsset.Balance.{receive_balance, enough, spend_balance}
use rs_stellar_contract_env.StellarAsset.Allowance.{spend_allowance}
use rs_stellar_contract_env.StellarAsset.Contract.{
  check_nonnegative_amount, move_balance, transfer, transfer_from,
}
use rs_stellar_contract_env.StellarAsset.Reaches.{
  Data, Reaches, Reaches-lift, Reaches-step, Reaches-fail, IsHost, updated, same_key,
}
use rs_stellar_contract_env.StellarAsset.Granting.{granted}
use rs_stellar_contract_env.StellarAsset.Spending.{Reaches-spend_allowance}
use mathlib.Core.Path.{subst}
use rs_stellar_contract_env.StellarAsset.Moving.{
  holding, balance_key, opened, Reaches-receive, Reaches-spend, Reaches-spend_entry,
}

-- What a transfer of `x` leaves of the data: `n` was the payer's balance and `m` the payee's.
abbrev pub transferred : ℕ → ℕ → ℕ → ℕ → ℕ → Bool → Bool → Data → Data
transferred i j x n m b c d =
    updated (balance_key j) (DataValue.balance (holding (m + x) c))
      (updated (balance_key i) (DataValue.balance (holding (n - x) b)) d)

other_key : (i j : ℕ) → i ≢ j → same_key (balance_key i) (balance_key j) ≡ false
other_key i j h = ground arith

own_key : (i : ℕ) → same_key (balance_key i) (balance_key i) ≡ true
own_key i = ground arith

key_of_same : (i : ℕ) (k : DataKey) → same_key (balance_key i) k ≡ true → balance_key i ≡ k
key_of_same i (DataKey.balance (contract_address j)) h = let e : i ≡ j = ground arith in rw e
key_of_same i (DataKey.balance (account j)) h = absurd (cc h)
key_of_same i (DataKey.allowance a b) h = absurd (cc h)

-- Taking an amount off a balance and adding it again changes no entry.
transferred_self :
    (i x n : ℕ) (b : Bool) (d : Data) (k : DataKey)
    → d (balance_key i) ≡ some (DataValue.balance (holding n b))
    → x ≤ n
    → transferred i i x n (n - x) b b d k ≡ d k
transferred_self i x n b d k g l = elim (Bool-cases (same_key (balance_key i) k)) [
  | inl e ↦
      let back : n - x + x ≡ n = omega arith in
      let held_at : d k ≡ some (DataValue.balance (holding n b)) =
        subst (λ y. d y ≡ some (DataValue.balance (holding n b))) (key_of_same i k e) g in
      rw (e, held_at, back)
  | inr e ↦ rw e
]

nonnegative : (x : ℕ) → check_nonnegative_amount (pos x) ≡ ok tt
unfolding check_nonnegative_amount
nonnegative x = let n : ltb_ℤ (pos x) (pos 0) ≡ false = ground arith in rw n

module _ {S : Type 0} (e : HostCalls S) (held : S → Data) (ledger : LedgerInfo)
    (flags : AccountFlags → Bool) (admin : Address) (auth : Address → Result (Unit {0}))
    (host : IsHost e held ledger flags admin auth) where
  Reaches-move :
      (i j x n m : ℕ) (b c : Bool) (d : Data)
      → d (balance_key i) ≡ some (DataValue.balance (holding n b))
      → opened flags
          (updated (balance_key i) (DataValue.balance (holding (n - x) b)) d (balance_key j))
        ≡ some (holding m c)
      → n ≤ i128_max
      → x ≤ n
      → m + x ≤ i128_max
      → Reaches held
          (move_balance e (contract_address i) (contract_address j) (pos x))
          d
          (ok tt)
          (transferred i j x n m b c d)
  unfolding move_balance
  Reaches-move i j x n m b c d g h fits l room =
      Reaches-step held (e.clone_address (contract_address i)) _ (contract_address i)
        (host.clone_address (contract_address i) d)
        (Reaches-step held (spend_balance e (contract_address i) (pos x)) _ tt
          (Reaches-spend e held ledger flags admin auth host i x n b d g fits l)
          (Reaches-step held (e.clone_address (contract_address j)) _ (contract_address j)
            (host.clone_address (contract_address j) _)
            (Reaches-step held (receive_balance e (contract_address j) (pos x)) _ tt
              (Reaches-receive e held ledger flags admin auth host j x m c _ h room)
              (host.publish (Event.transfer (contract_address i) (contract_address j) (pos x)) _))))

  Reaches-transfer_move :
      (i j x : ℕ) (d d' : Data) (r : Result (Unit {0}))
      → auth (contract_address i) ≡ ok tt
      → Reaches held (move_balance e (contract_address i) (contract_address j) (pos x)) d r d'
      → Reaches held (transfer e (contract_address i) (contract_address j) (pos x)) d r d'
  unfolding transfer
  Reaches-transfer_move i j x d d' r a next =
      Reaches-step held (lift (check_nonnegative_amount (pos x))) _ tt
        (rw (nonnegative x) (Reaches-lift held (ok tt) d))
        (Reaches-step held (e.require_auth (contract_address i)) _ tt
          (rw a at (host.require_auth (contract_address i) d))
          (Reaches-step held e.extend_current_contract_instance_and_code_ttl _ tt
            (host.extend_instance d) next))

  -- On a host whose calls do what they are called for, where the payer has authorized it, a transfer
  -- between two different contracts takes the amount from the payer's authorized balance, which has
  -- it, and adds it to the payee's, which is authorized and has room, or is a new one where the
  -- asset needs no authorization. No other data change.
  pub Reaches-transfer :
      (i j x n m : ℕ) (b c : Bool) (d : Data)
      → auth (contract_address i) ≡ ok tt
      → i ≢ j
      → d (balance_key i) ≡ some (DataValue.balance (holding n b))
      → opened flags (d (balance_key j)) ≡ some (holding m c)
      → n ≤ i128_max
      → x ≤ n
      → m + x ≤ i128_max
      → Reaches held
          (transfer e (contract_address i) (contract_address j) (pos x))
          d
          (ok tt)
          (transferred i j x n m b c d)
  Reaches-transfer i j x n m b c d a other g h fits l room =
      Reaches-transfer_move i j x d _ (ok tt) a
        (Reaches-move i j x n m b c d g (rw (other_key i j other, h)) fits l room)

  -- On a host whose calls do what they are called for, an authorized transfer of a contract to
  -- itself, of an amount that its authorized balance has, leaves every entry of the data as it was.
  pub Reaches-transfer_self :
      (i x n : ℕ) (b : Bool) (d : Data)
      → auth (contract_address i) ≡ ok tt
      → d (balance_key i) ≡ some (DataValue.balance (holding n b))
      → n ≤ i128_max
      → x ≤ n
      → (d' : Data) × Reaches held
          (transfer e (contract_address i) (contract_address i) (pos x))
          d
          (ok tt)
          d'
        × ((k : DataKey) → d' k ≡ d k)
  Reaches-transfer_self i x n b d a g fits l = (
    transferred i i x n (n - x) b b d,
    Reaches-transfer_move i i x d _ (ok tt) a
        (Reaches-move i i x n (n - x) b b d g (rw (own_key i)) fits l (omega arith)),
    λ k. transferred_self i x n b d k g l,
  )

  -- On a host whose calls do what they are called for, an authorized transfer of more than the
  -- payer's authorized balance is the contract's error of a balance and changes no data.
  pub Reaches-transfer_refused :
      (i j x n : ℕ) (b : Bool) (d : Data)
      → auth (contract_address i) ≡ ok tt
      → d (balance_key i) ≡ some (DataValue.balance (holding n b))
      → n < x
      → Reaches held
          (transfer e (contract_address i) (contract_address j) (pos x))
          d
          (err (contract_error balance_error))
          d
  unfolding move_balance as_balance
  Reaches-transfer_refused i j x n b d a g less =
      let short : ltb_ℤ (pos n) (pos x) ≡ true = ground arith in
      let stops : Reaches held (lift (enough (pos n) (pos x))) d
          (err (contract_error balance_error)) d =
        rw short (Reaches-lift held (err (contract_error balance_error)) d) in
      Reaches-transfer_move i j x d d _ a (
        Reaches-step held (e.clone_address (contract_address i)) _ (contract_address i)
          (host.clone_address (contract_address i) d)
          (Reaches-fail held (spend_balance e (contract_address i) (pos x)) _
            (contract_error balance_error)
            (Reaches-spend_entry e held ledger flags admin auth host i x n b d d
              (err (contract_error balance_error)) g
              (Reaches-step held (lift (ok (holding n b))) _ (holding n b)
                (Reaches-lift held (ok (holding n b)) d)
                (Reaches-fail held (lift (enough (pos n) (pos x))) _ (contract_error balance_error)
                  stops)))))

  -- On a host whose calls do what they are called for, where a spender has authorized it, a
  -- `transfer_from` between two different contracts takes the amount off the spender's live
  -- allowance and off the owner's balance and adds it to the payee's, under the conditions of both.
  pub Reaches-transfer_from :
      (spender : Address) (i j x n m allowed live_until greatest : ℕ) (b c : Bool) (d : Data)
      → auth spender ≡ ok tt
      → max_live_until_ledger ledger ≡ ok greatest
      → live_until ≤ greatest
      → ledger.sequence_number ≤ live_until
      → d (DataKey.allowance (contract_address i) spender)
        ≡ some (DataValue.allowance (granted allowed live_until))
      → allowed ≤ i128_max
      → 0 < x
      → x ≤ allowed
      → i ≢ j
      → d (balance_key i) ≡ some (DataValue.balance (holding n b))
      → opened flags (d (balance_key j)) ≡ some (holding m c)
      → n ≤ i128_max
      → x ≤ n
      → m + x ≤ i128_max
      → Reaches held
          (transfer_from e spender (contract_address i) (contract_address j) (pos x))
          d
          (ok tt)
          (transferred i j x n m b c (
            updated
              (DataKey.allowance (contract_address i) spender)
              (DataValue.allowance (granted (allowed - x) live_until))
              d))
  unfolding transfer_from
  Reaches-transfer_from spender i j x n m allowed live_until greatest b c d a max_live h k g most p
        l other gi gj fits covers room =
      Reaches-step held (lift (check_nonnegative_amount (pos x))) _ tt
        (rw (nonnegative x) (Reaches-lift held (ok tt) d))
        (Reaches-step held (e.require_auth spender) _ tt (rw a at (host.require_auth spender d)) (
          Reaches-step held e.extend_current_contract_instance_and_code_ttl _ tt
            (host.extend_instance d)
            (Reaches-step held (e.clone_address (contract_address i)) _ (contract_address i)
              (host.clone_address (contract_address i) d)
              (Reaches-step held (spend_allowance e (contract_address i) spender (pos x)) _ tt
                (Reaches-spend_allowance e held ledger flags admin auth host (contract_address i)
                  spender x allowed live_until greatest d max_live h k g most p l)
                (Reaches-move i j x n m b c _ gi (rw (other_key i j other, gj)) fits covers
                  room)))))
