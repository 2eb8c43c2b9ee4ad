-- ===== src/StellarAsset/Granting.antt =====
-- Writing and reading allowances.
use rs_stellar_contract_env.Prelude.{
  ℕ, ◌+◌, saturating_add, saturating_sub, saturating_add-eq-min, u32_max, Bool, true, false, Option,
  none, some, ◌≡◌, refl, ◌≤◌, ◌<◌, ◌&&◌, ltb, arith, Bool-cases, inl, inr,
}
use rs_stellar_contract_env.Prelude.Int.{pos, ltb_ℤ}
use rs_stellar_contract_env.Error.{Result, ok}
use rs_stellar_contract_env.Exec.{lift, ◌>>◌}
use rs_stellar_contract_env.Storage.Ttl.{LedgerInfo, max_live_until_ledger}
use rs_stellar_contract_env.StellarAsset.{
  Address, account, contract_address, AllowanceValue, DataKey, DataValue, temporary, as_allowance,
  HostCalls, AccountFlags,
}
use rs_stellar_contract_env.StellarAsset.Allowance.{
  amount_at, check_live_until, updated_allowance, put_allowance, read_allowance, write_allowance,
  unwrap_or_zero,
}
use rs_stellar_contract_env.StellarAsset.Reaches.{
  Data, Reaches, Reaches-pure, Reaches-lift, Reaches-step, IsHost, updated, same_address, same_key,
}

pub same_address_refl : (a : Address) → same_address a a ≡ true
same_address_refl (account a) = ground arith
same_address_refl (contract_address a) = ground arith

pub same_key_refl :
    (a b : Address) → same_key (DataKey.allowance a b) (DataKey.allowance a b) ≡ true
same_key_refl a b = rw (same_address_refl a, same_address_refl b)

abbrev pub granted : ℕ → ℕ → AllowanceValue
granted amount live_until = record { amount = pos amount; live_until_ledger = live_until }

-- What stands at a key of allowances is one.
abbrev pub HoldsAllowance : Option DataValue → Type 0
HoldsAllowance none = Unit
HoldsAllowance (some (DataValue.allowance a)) = Unit
HoldsAllowance (some (DataValue.balance b)) = ⊥

check_live_until_lem :
    (li : LedgerInfo) (greatest amount live_until : ℕ)
    → max_live_until_ledger li ≡ ok greatest
    → live_until ≤ greatest
    → li.sequence_number ≤ live_until
    → check_live_until li (pos amount) live_until ≡ ok li.sequence_number
unfolding check_live_until
check_live_until_lem li greatest amount live_until m h k =
    let a : ltb greatest live_until ≡ false = ground arith in
    let b : ltb live_until li.sequence_number ≡ false = ground arith in
    rw (m, a, b) (elim (Bool-cases (ltb_ℤ (pos 0) (pos amount))) [ inl e ↦ rw e | inr e ↦ rw e ])

-- The ledgers for which an allowance is extended end right after its last one.
live_for_bound :
    (seq live_until : ℕ)
    → seq ≤ live_until
    → seq + saturating_add u32_max (saturating_sub live_until seq) 1 ≤ live_until + 1
live_for_bound seq live_until h =
    omega (arith, saturating_add-eq-min u32_max (saturating_sub live_until seq) 1)

module _ {S : Type 0} (e : HostCalls S) (held : S → Data) (ledger : LedgerInfo)
    (flags : AccountFlags → Bool) (admin : Address) (auth : Address → Result (Unit {0}))
    (host : IsHost e held ledger flags admin auth) where
  Reaches-put_allowance :
      (from spender : Address) (live_until amount greatest : ℕ) (old : Option ℕ) (d : Data)
      → max_live_until_ledger ledger ≡ ok greatest
      → ledger.sequence_number ≤ live_until
      → (unwrap_or_zero old < live_until → live_until < greatest)
      → Reaches held
          (put_allowance e
            (DataKey.allowance from spender)
            ledger.sequence_number
            live_until
            (some (granted amount live_until, old)))
          d
          (ok tt)
          (updated
            (DataKey.allowance from spender)
            (DataValue.allowance (granted amount live_until))
            d)
  Reaches-put_allowance from spender live_until amount greatest old d m k room =
      let key = DataKey.allowance from spender in
      let written = DataValue.allowance (granted amount live_until) in
      let live_for = saturating_add u32_max (saturating_sub live_until ledger.sequence_number) 1 in
      Reaches-step held
        (e.put_contract_data key (DataValue.allowance (granted amount live_until)) temporary) _ tt
        (host.put key (DataValue.allowance (granted amount live_until)) d)
        (elim (Bool-cases (ltb_ℤ (pos 0) (pos amount) && ltb (unwrap_or_zero old) live_until)) [
          | inl b ↦
              let longer : unwrap_or_zero old < live_until = ground arith in
              let within : ledger.sequence_number + live_for ≤ greatest =
                omega (arith, live_for_bound ledger.sequence_number live_until k, room longer) in
              rw b (
                host.extend key written live_for live_for greatest (updated key written d)
                  (rw (same_key_refl from spender)) m (omega arith) within)
          | inr b ↦ rw b (Reaches-pure held tt _)
        ])

  pub Reaches-write_updated :
      (from spender : Address) (amount live_until greatest : ℕ) (d : Data) (old : Option ℕ)
      → max_live_until_ledger ledger ≡ ok greatest
      → live_until ≤ greatest
      → ledger.sequence_number ≤ live_until
      → (unwrap_or_zero old < live_until → live_until < greatest)
      → updated_allowance (pos amount) live_until (d (DataKey.allowance from spender))
        ≡ ok (some (granted amount live_until, old))
      → Reaches held (write_allowance e from spender (pos amount) live_until) d (ok tt) (
          updated
            (DataKey.allowance from spender)
            (DataValue.allowance (granted amount live_until))
            d)
  unfolding write_allowance
  Reaches-write_updated from spender amount live_until greatest d old m h k room u =
      let key = DataKey.allowance from spender in
      Reaches-step held e.ledger_info _ ledger (host.ledger_info d) (
        Reaches-step held (lift (check_live_until ledger (pos amount) live_until)) _
          ledger.sequence_number
          (rw (check_live_until_lem ledger greatest amount live_until m h k)
            (Reaches-lift held (ok ledger.sequence_number) d))
          (Reaches-step held (e.try_get_contract_data key temporary) _ (d key) (host.try_get key d)
            (Reaches-step held (lift (updated_allowance (pos amount) live_until (d key))) _
              (some (granted amount live_until, old))
              (rw u (Reaches-lift held (ok (some (granted amount live_until, old))) d))
              (Reaches-put_allowance from spender live_until amount greatest old d m k room))))

  pub Reaches-read :
      (from spender : Address) (d : Data) (held_now : AllowanceValue)
      → d (DataKey.allowance from spender) ≡ some (DataValue.allowance held_now)
      → Reaches held
          (read_allowance e from spender)
          d
          (ok (amount_at ledger.sequence_number held_now))
          d
  unfolding read_allowance as_allowance
  Reaches-read from spender d held_now g =
      Reaches-step held (e.try_get_contract_data (DataKey.allowance from spender) temporary) _
        (some (DataValue.allowance held_now))
        (rw g at (host.try_get (DataKey.allowance from spender) d))
        (Reaches-step held (lift (ok held_now)) _ held_now (Reaches-lift held (ok held_now) d)
          (Reaches-step held e.ledger_info _ ledger (host.ledger_info d) (Reaches-pure held _ d)))

  pub granted_now :
      (amount live_until : ℕ)
      → ledger.sequence_number ≤ live_until
      → amount_at ledger.sequence_number (granted amount live_until) ≡ pos amount
  unfolding amount_at
  granted_now amount live_until h =
      let alive : ltb live_until ledger.sequence_number ≡ false = ground arith in rw alive

  updated_some :
      (amount live_until : ℕ) (o : Option DataValue)
      → 0 < amount
      → HoldsAllowance o
      → (old : Option ℕ) × (updated_allowance (pos amount) live_until o
          ≡ ok (some (granted amount live_until, old)))
  unfolding updated_allowance as_allowance
  updated_some amount live_until none p h =
      let positive : ltb_ℤ (pos 0) (pos amount) ≡ true = ground arith in (none, rw positive)
  updated_some amount live_until (some (DataValue.allowance a)) p h =
      (some a.live_until_ledger, refl)
  updated_some amount live_until (some (DataValue.balance b)) p h = absurd h

  -- On a host whose calls do what they are called for, a positive allowance that is written with a
  -- last ledger from the current one up to but not including the greatest lifetime, over another
  -- allowance or none, is what is read back, and only its entry has changed.
  pub Reaches-write_read :
      (from spender : Address) (amount live_until greatest : ℕ) (d : Data)
      → max_live_until_ledger ledger ≡ ok greatest
      → live_until < greatest
      → ledger.sequence_number ≤ live_until
      → 0 < amount
      → HoldsAllowance (d (DataKey.allowance from spender))
      → Reaches held
          (write_allowance e from spender (pos amount) live_until >> read_allowance e from spender)
          d
          (ok (pos amount))
          (updated
            (DataKey.allowance from spender)
            (DataValue.allowance (granted amount live_until))
            d)
  Reaches-write_read from spender amount live_until greatest d m h k p holds =
      let (old, u) = updated_some amount live_until (d (DataKey.allowance from spender)) p holds in
      Reaches-step held (write_allowance e from spender (pos amount) live_until) _ tt
        (Reaches-write_updated from spender amount live_until greatest d old m (omega arith) k
          (λ _. h) u)
        (rw (granted_now amount live_until k) at (
          Reaches-read from spender
            (updated (DataKey.allowance from spender)
              (DataValue.allowance (granted amount live_until)) d)
            (granted amount live_until) (rw (same_key_refl from spender))))
