-- ===== src/StellarAsset/Moving.antt =====
-- The two halves of a transfer between contracts: what spending takes off a balance and what
-- receiving adds to one.
use rs_stellar_contract_env.Prelude.{
  ℕ, Bool, true, false, Option, none, some, ◌≡◌, ◌+◌, ◌-◌, ◌≤◌, if◌then◌else◌, arith, Bool-cases,
  inl, inr,
}
use rs_stellar_contract_env.Prelude.Int.{pos, ltb_ℤ, ◌+ℤ◌, i128_max}
use rs_stellar_contract_env.Error.{Result, ok, ok_or}
use rs_stellar_contract_env.Exec.{lift}
use rs_stellar_contract_env.Storage.Ttl.{LedgerInfo}
use rs_stellar_contract_env.StellarAsset.{
  overflow, contract_error, Address, contract_address, BalanceValue, DataKey, DataValue, persistent,
  as_balance, balance_ttl_threshold, balance_extend_amount, checked_add_ℤ, checked_sub_ℤ, HostCalls,
  AccountFlags, required_flag, clawback_enabled_flag,
}
use rs_stellar_contract_env.StellarAsset.Balance.{
  write_contract_balance, is_authorized, authorized_by, held_or_new, credit, receive_balance, debit,
  enough, spend_balance_no_authorization_check, spend_balance,
}
use rs_stellar_contract_env.StellarAsset.Reaches.{
  Data, Reaches, Reaches-pure, Reaches-lift, Reaches-step, IsHost, updated,
}
use rs_stellar_contract_env.StellarAsset.Spending.{checked_sub_lem}
use rs_stellar_contract_env.StellarAsset.Granting.{same_address_refl}

-- An authorized balance.
abbrev pub holding : ℕ → Bool → BalanceValue
holding amount clawback = record { amount = pos amount; authorized = true; clawback = clawback }

abbrev pub balance_key : ℕ → DataKey
balance_key id = DataKey.balance (contract_address id)

-- The balance that a payment arrives at: the authorized one that is there, or a new one where the
-- asset needs no authorization.
abbrev pub opened : (AccountFlags → Bool) → Option DataValue → Option BalanceValue
opened flags none =
    if flags required_flag
    then none
    else some (record { amount = pos 0; authorized = true; clawback = flags clawback_enabled_flag })
opened flags (some (DataValue.balance b)) = if b.authorized then some b else none
opened flags (some (DataValue.allowance a)) = none

checked_add_lem : (a x : ℕ) → a + x ≤ i128_max → checked_add_ℤ (pos a) (pos x) ≡ some (pos (a + x))
unfolding checked_add_ℤ ◌+ℤ◌
checked_add_lem a x h = ground arith

module _ {S : Type 0} (e : HostCalls S) (held : S → Data) (ledger : LedgerInfo)
    (flags : AccountFlags → Bool) (admin : Address) (auth : Address → Result (Unit {0}))
    (host : IsHost e held ledger flags admin auth) where
  Reaches-write :
      (id : ℕ) (b : BalanceValue) (d : Data)
      → Reaches held
          (write_contract_balance e (contract_address id) b)
          d
          (ok tt)
          (updated (balance_key id) (DataValue.balance b) d)
  unfolding write_contract_balance
  Reaches-write id b d =
      Reaches-step held (e.put_contract_data (balance_key id) (DataValue.balance b) persistent) _ tt
        (host.put (balance_key id) (DataValue.balance b) d)
        (host.extend (balance_key id) (DataValue.balance b) balance_ttl_threshold
          balance_extend_amount host.greatest_live_until.0
          (updated (balance_key id) (DataValue.balance b) d)
          (rw (same_address_refl (contract_address id))) host.greatest_live_until.1 (omega arith)
          host.balance_room)

  Reaches-authorized_by :
      (o : Option DataValue) (b : BalanceValue) (d : Data)
      → opened flags o ≡ some b
      → Reaches held (authorized_by e o) d (ok true) d
  unfolding as_balance
  Reaches-authorized_by none b d h =
      let free : flags required_flag ≡ false = elim (Bool-cases (flags required_flag)) [
        | inl t ↦ absurd (cc (h, t))
        | inr f ↦ f
      ] in
      Reaches-step held (e.is_asset_issuer_flag_set required_flag) _ (flags required_flag)
        (host.flag required_flag d) (rw free (Reaches-pure held true d))
  Reaches-authorized_by (some (DataValue.balance c)) b d h =
      let yes : c.authorized ≡ true = elim (Bool-cases c.authorized) [
        | inl t ↦ t
        | inr f ↦ absurd (cc (h, f))
      ] in
      Reaches-step held (lift (ok c)) _ c (Reaches-lift held (ok c) d)
        (rw (← yes) (Reaches-pure held c.authorized d))
  Reaches-authorized_by (some (DataValue.allowance a)) b d h = absurd (cc h)

  Reaches-held_or_new :
      (o : Option DataValue) (b : BalanceValue) (d : Data)
      → opened flags o ≡ some b
      → Reaches held (held_or_new e true o) d (ok b) d
  unfolding as_balance
  Reaches-held_or_new none b d h = elim (Bool-cases (flags required_flag)) [
    | inl t ↦ absurd (cc (h, t))
    | inr f ↦
        let new : record {
          amount = pos 0;
          authorized = true;
          clawback = flags clawback_enabled_flag;
        }
            ≡ b =
          cc (h, f) in
        Reaches-step held (e.is_asset_issuer_flag_set clawback_enabled_flag) _
          (flags clawback_enabled_flag) (host.flag clawback_enabled_flag d)
          (rw (← new) (Reaches-pure held _ d))
  ]
  Reaches-held_or_new (some (DataValue.balance c)) b d h = elim (Bool-cases c.authorized) [
    | inl t ↦ let same : c ≡ b = cc (h, t) in rw (← same) (Reaches-lift held (ok c) d)
    | inr f ↦ absurd (cc (h, f))
  ]
  Reaches-held_or_new (some (DataValue.allowance a)) b d h = absurd (cc h)

  Reaches-is_authorized :
      (id : ℕ) (b : BalanceValue) (d : Data)
      → opened flags (d (balance_key id)) ≡ some b
      → Reaches held (is_authorized e (contract_address id)) d (ok true) d
  unfolding is_authorized
  Reaches-is_authorized id b d h =
      Reaches-step held (e.try_get_contract_data (balance_key id) persistent) _ (d (balance_key id))
        (host.try_get (balance_key id) d) (Reaches-authorized_by (d (balance_key id)) b d h)

  pub Reaches-receive :
      (id x n : ℕ) (c : Bool) (d : Data)
      → opened flags (d (balance_key id)) ≡ some (holding n c)
      → n + x ≤ i128_max
      → Reaches held
          (receive_balance e (contract_address id) (pos x))
          d
          (ok tt)
          (updated (balance_key id) (DataValue.balance (holding (n + x) c)) d)
  unfolding receive_balance credit
  Reaches-receive id x n c d h fits =
      let sum = checked_add_lem n x fits in
      Reaches-step held (e.clone_address (contract_address id)) _ (contract_address id)
        (host.clone_address (contract_address id) d)
        (Reaches-step held (is_authorized e (contract_address id)) _ true
          (Reaches-is_authorized id (holding n c) d h)
          (Reaches-step held (e.clone_address (contract_address id)) _ (contract_address id)
            (host.clone_address (contract_address id) d)
            (Reaches-step held (e.try_get_contract_data (balance_key id) persistent) _
              (d (balance_key id)) (host.try_get (balance_key id) d)
              (Reaches-step held (held_or_new e true (d (balance_key id))) _ (holding n c)
                (Reaches-held_or_new (d (balance_key id)) (holding n c) d h)
                (Reaches-step held
                  (lift (ok_or (checked_add_ℤ (pos n) (pos x)) (contract_error overflow))) _
                  (pos (n + x)) (rw sum (Reaches-lift held (ok (pos (n + x))) d))
                  (Reaches-write id (holding (n + x) c) d))))))

  pub Reaches-spend_entry :
      (id x : ℕ) (n : ℕ) (c : Bool) (d d' : Data) (r : Result (Unit {0}))
      → d (balance_key id) ≡ some (DataValue.balance (holding n c))
      → Reaches held
          (debit e (contract_address id) (pos x) (some (DataValue.balance (holding n c))))
          d
          r
          d'
      → Reaches held (spend_balance e (contract_address id) (pos x)) d r d'
  unfolding spend_balance spend_balance_no_authorization_check
  Reaches-spend_entry id x n c d d' r g next =
      let found : opened flags (d (balance_key id)) ≡ some (holding n c) = rw g in
      Reaches-step held (e.clone_address (contract_address id)) _ (contract_address id)
        (host.clone_address (contract_address id) d)
        (Reaches-step held (is_authorized e (contract_address id)) _ true
          (Reaches-is_authorized id (holding n c) d found)
          (Reaches-step held (e.clone_address (contract_address id)) _ (contract_address id)
            (host.clone_address (contract_address id) d)
            (Reaches-step held (e.try_get_contract_data (balance_key id) persistent) _
              (some (DataValue.balance (holding n c))) (rw g at (host.try_get (balance_key id) d))
              next)))

  pub Reaches-spend :
      (id x n : ℕ) (c : Bool) (d : Data)
      → d (balance_key id) ≡ some (DataValue.balance (holding n c))
      → n ≤ i128_max
      → x ≤ n
      → Reaches held
          (spend_balance e (contract_address id) (pos x))
          d
          (ok tt)
          (updated (balance_key id) (DataValue.balance (holding (n - x) c)) d)
  unfolding as_balance
  Reaches-spend id x n c d g fits l =
      let covered : ltb_ℤ (pos n) (pos x) ≡ false = ground arith in
      let rest = checked_sub_lem n x fits l in
      let passes : Reaches held (lift (enough (pos n) (pos x))) d (ok tt) d =
        rw covered (Reaches-lift held (ok tt) d) in
      Reaches-spend_entry id x n c d _ (ok tt) g (
        Reaches-step held (lift (ok (holding n c))) _ (holding n c)
          (Reaches-lift held (ok (holding n c)) d)
          (Reaches-step held (lift (enough (pos n) (pos x))) _ tt passes (
            Reaches-step held
              (lift (ok_or (checked_sub_ℤ (pos n) (pos x)) (contract_error overflow))) _
              (pos (n - x)) (rw rest (Reaches-lift held (ok (pos (n - x))) d))
              (Reaches-write id (holding (n - x) c) d))))
