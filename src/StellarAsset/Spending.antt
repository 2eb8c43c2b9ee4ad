-- ===== src/StellarAsset/Spending.antt =====
-- Spending allowances: what is spent is taken off.
use rs_stellar_contract_env.Prelude.{
  ℕ, ◌⊎◌, inl, inr, ltb, Bool-cases, Bool, true, false, some, ◌≡◌, ◌-◌, ◌≤◌, ◌<◌, arith,
}
use rs_stellar_contract_env.Prelude.Int.{ℤ, pos, ltb_ℤ, ◌-ℤ◌, i128_max}
use rs_stellar_contract_env.Error.{Result, ok, err, ok_or}
use rs_stellar_contract_env.Exec.{lift}
use rs_stellar_contract_env.Storage.Ttl.{LedgerInfo, max_live_until_ledger}
use rs_stellar_contract_env.StellarAsset.{
  allowance_error, overflow, contract_error, Address, AllowanceValue, DataKey, DataValue, temporary,
  as_allowance, checked_sub_ℤ, HostCalls, get_contract_data, AccountFlags,
}
use rs_stellar_contract_env.StellarAsset.Allowance.{
  amount_at, updated_allowance, read_allowance, write_allowance_amount, spend_from, spend_allowance,
}
use rs_stellar_contract_env.StellarAsset.Reaches.{
  Data, Reaches, Reaches-lift, Reaches-step, IsHost, updated,
}
use rs_stellar_contract_env.StellarAsset.Granting.{
  granted, Reaches-write_updated, Reaches-read, granted_now,
}

pub checked_sub_lem :
    (a x : ℕ) → a ≤ i128_max → x ≤ a → checked_sub_ℤ (pos a) (pos x) ≡ some (pos (a - x))
unfolding checked_sub_ℤ ◌-ℤ◌
checked_sub_lem a x h l = ground arith

module _ {S : Type 0} (e : HostCalls S) (held : S → Data) (ledger : LedgerInfo)
    (flags : AccountFlags → Bool) (admin : Address) (auth : Address → Result (Unit {0}))
    (host : IsHost e held ledger flags admin auth) where
  Reaches-write_amount :
      (from spender : Address) (amount live_until greatest : ℕ) (d : Data) (held_now : ℕ)
      → max_live_until_ledger ledger ≡ ok greatest
      → live_until ≤ greatest
      → ledger.sequence_number ≤ live_until
      → d (DataKey.allowance from spender)
        ≡ some (DataValue.allowance (granted held_now live_until))
      → Reaches held (write_allowance_amount e from spender (pos amount)) d (ok tt) (
          updated
            (DataKey.allowance from spender)
            (DataValue.allowance (granted amount live_until))
            d)
  unfolding write_allowance_amount get_contract_data as_allowance updated_allowance
  Reaches-write_amount from spender amount live_until greatest d held_now m h k g =
      let raw = DataValue.allowance (granted held_now live_until) in
      Reaches-step held (e.clone_address from) _ from (host.clone_address from d) (
        Reaches-step held (e.clone_address spender) _ spender (host.clone_address spender d) (
          Reaches-step held (get_contract_data e (DataKey.allowance from spender) temporary) _ raw
            (Reaches-step held (e.try_get_contract_data (DataKey.allowance from spender) temporary)
              _ (some raw) (rw g at (host.try_get (DataKey.allowance from spender) d))
              (Reaches-lift held (ok raw) d))
            (Reaches-step held (lift (ok (granted held_now live_until))) _
              (granted held_now live_until) (Reaches-lift held (ok (granted held_now live_until)) d)
              (Reaches-write_updated e held ledger flags admin auth host from spender amount
                live_until greatest d (some live_until) m h k (λ l. absurd (omega (arith, l)))
                (rw g)))))

  Reaches-read_clones :
      (from spender : Address) (amount : ℤ) (d d' : Data) (held_now : AllowanceValue)
      (r : Result (Unit {0}))
      → d (DataKey.allowance from spender) ≡ some (DataValue.allowance held_now)
      → Reaches held
          (spend_from e from spender amount (amount_at ledger.sequence_number held_now))
          d
          r
          d'
      → Reaches held (spend_allowance e from spender amount) d r d'
  unfolding spend_allowance
  Reaches-read_clones from spender amount d d' held_now r g next =
      Reaches-step held (e.clone_address from) _ from (host.clone_address from d) (
        Reaches-step held (e.clone_address spender) _ spender (host.clone_address spender d) (
          Reaches-step held (read_allowance e from spender) _
            (amount_at ledger.sequence_number held_now)
            (Reaches-read e held ledger flags admin auth host from spender d held_now g) next))

  -- On a host whose calls do what they are called for, where a spender has a live allowance within
  -- an `i128` and the network's bounds, spending a positive amount of at most the allowance takes it
  -- off, keeps the allowance's last ledger, and changes nothing else.
  pub Reaches-spend_allowance :
      (from spender : Address) (amount held_now live_until greatest : ℕ) (d : Data)
      → max_live_until_ledger ledger ≡ ok greatest
      → live_until ≤ greatest
      → ledger.sequence_number ≤ live_until
      → d (DataKey.allowance from spender)
        ≡ some (DataValue.allowance (granted held_now live_until))
      → held_now ≤ i128_max
      → 0 < amount
      → amount ≤ held_now
      → Reaches held (spend_allowance e from spender (pos amount)) d (ok tt) (
          updated
            (DataKey.allowance from spender)
            (DataValue.allowance (granted (held_now - amount) live_until))
            d)
  unfolding spend_from
  Reaches-spend_allowance from spender amount held_now live_until greatest d m h k g fits p l =
      let enough : ltb_ℤ (pos held_now) (pos amount) ≡ false = ground arith in
      let positive : ltb_ℤ (pos 0) (pos amount) ≡ true = ground arith in
      let rest = checked_sub_lem held_now amount fits l in
      Reaches-read_clones from spender (pos amount) d _ (granted held_now live_until) (ok tt) g (
        rw (granted_now e held ledger flags admin auth host held_now live_until k, enough, positive)
          (Reaches-step held
            (lift (ok_or (checked_sub_ℤ (pos held_now) (pos amount)) (contract_error overflow))) _
            (pos (held_now - amount)) (rw rest (Reaches-lift held (ok (pos (held_now - amount))) d))
            (Reaches-write_amount from spender (held_now - amount) live_until greatest d held_now m
              h k g)))

  more_than_given :
      (amount held_now live_until : ℕ)
      → 0 < amount
      → (live_until < ledger.sequence_number) ⊎ (held_now < amount)
      → ltb_ℤ (amount_at ledger.sequence_number (granted held_now live_until)) (pos amount) ≡ true
  unfolding amount_at
  more_than_given amount held_now live_until p why =
      elim (Bool-cases (ltb live_until ledger.sequence_number)) [
        | inl past ↦ rw past (ground arith)
        | inr live ↦
            rw live (elim why [ inl past ↦ absurd (ground arith) | inr less ↦ ground arith ])
      ]

  -- On a host whose calls do what they are called for, spending a positive amount is the contract's
  -- error of an allowance and changes no data, where the allowance's last ledger has passed,
  -- whatever its amount, and where it is of less.
  pub Reaches-spend_refused :
      (from spender : Address) (amount held_now live_until : ℕ) (d : Data)
      → d (DataKey.allowance from spender)
        ≡ some (DataValue.allowance (granted held_now live_until))
      → 0 < amount
      → (live_until < ledger.sequence_number) ⊎ (held_now < amount)
      → Reaches held
          (spend_allowance e from spender (pos amount))
          d
          (err (contract_error allowance_error))
          d
  unfolding spend_from
  Reaches-spend_refused from spender amount held_now live_until d g p why =
      Reaches-read_clones from spender (pos amount) d d (granted held_now live_until)
        (err (contract_error allowance_error)) g
        (rw (more_than_given amount held_now live_until p why)
          (Reaches-lift held (err (contract_error allowance_error)) d))
