-- ===== src/Tests/AssetRuns.antt =====
-- The contract's theorems at a host whose state is its data: contracts 1 and 2 hold balances and
-- contract 3 may spend 50 of the first.
use rs_stellar_contract_env.Prelude.{
  ℕ, ◌+◌, ◌≤◌, ◌∙◌, ltb, u32_max, if◌then◌else◌, Option, some, Bool, true, false, none, [], ◌∷◌,
  ◌≡◌, refl, ap, inl, inr, arith,
}
use rs_stellar_contract_env.Prelude.Int.{pos}
use rs_stellar_contract_env.Error.{
  Result, ok, err, fail, storage, missing_value, invalid_input, invalid_action,
}
use rs_stellar_contract_env.Exec.{◌>>◌}
use rs_stellar_contract_env.Storage.Ttl.{LedgerInfo, max_live_until_ledger}
use rs_stellar_contract_env.StellarAsset.{
  Address, account, contract_address, DataKey, DataValue, HostCalls, AccountFlags, allowance_error,
  balance_error, contract_error,
}
use rs_stellar_contract_env.StellarAsset.Allowance.{
  read_allowance, write_allowance, spend_allowance, amount_at,
}
use rs_stellar_contract_env.StellarAsset.Contract.{transfer, transfer_from}
use rs_stellar_contract_env.StellarAsset.Reaches.{Data, Reaches, IsHost, MayExtend, updated}
use rs_stellar_contract_env.StellarAsset.Granting.{granted, Reaches-write_read}
use rs_stellar_contract_env.StellarAsset.Spending.{Reaches-spend_allowance, Reaches-spend_refused}
use rs_stellar_contract_env.StellarAsset.Moving.{holding, balance_key}
use rs_stellar_contract_env.StellarAsset.Transfer.{
  transferred, Reaches-transfer, Reaches-transfer_self, Reaches-transfer_refused,
  Reaches-transfer_from,
}
use rs_stellar_contract_env.StellarAsset.Supply.{total, transfer_conserves}

abbrev ledger : LedgerInfo
ledger = record {
  sequence_number = 100;
  min_temp_entry_ttl = 16;
  min_persistent_entry_ttl = 50;
  max_entry_ttl = 1000;
}

abbrev no_flags : AccountFlags → Bool
no_flags f = false

abbrev issuer : Address
issuer = account 9

-- The latest ledger up to which an entry is extended: the greatest lifetime of temporary data.
abbrev latest : DataKey → ℕ
latest (DataKey.allowance _ _) = 1099
latest (DataKey.balance _) = u32_max

abbrev extension : DataKey → ℕ → ℕ → Option DataValue → Result (Unit {0})
extension k m n none = fail storage missing_value
extension k m n (some v) =
    if ltb n m
    then fail storage invalid_input
    else if ltb (latest k) (100 + n)
    then fail storage invalid_action
    else ok tt

abbrev host_calls : HostCalls Data
host_calls = record {
  clone_address = λ a d. (ok a, d);
  try_get_contract_data = λ k ty d. (ok (d k), d);
  put_contract_data = λ k v ty d. (ok tt, updated k v d);
  extend_contract_data_ttl = λ k ty m n d. (extension k m n (d k), d);
  extend_current_contract_instance_and_code_ttl = λ d. (ok tt, d);
  ledger_info = λ d. (ok ledger, d);
  require_auth = λ a d. (ok tt, d);
  publish = λ v d. (ok tt, d);
  read_administrator = λ d. (ok issuer, d);
  check_non_native = λ d. (ok tt, d);
  check_not_issuer = λ a d. (ok tt, d);
  is_asset_issuer_flag_set = λ f d. (ok (no_flags f), d);
  get_classic_balance = λ id d. (ok (pos 0), d);
  transfer_classic_balance = λ id amount d. (ok tt, d);
  is_account_authorized = λ id d. (ok true, d);
  set_authorization = λ id b d. (ok tt, d);
  check_clawbackable_account = λ id d. (ok tt, d);
}

abbrev itself : Data → Data
itself d = d

abbrev all_authorized : Address → Result (Unit {0})
all_authorized a = ok tt

greatest_lifetime : max_live_until_ledger ledger ≡ ok 1099
unfolding max_live_until_ledger
greatest_lifetime = refl

extension_lem :
    (k : DataKey) (v : DataValue) (m n greatest : ℕ)
    → max_live_until_ledger ledger ≡ ok greatest
    → m ≤ n
    → MayExtend k (100 + n) greatest
    → extension k m n (some v) ≡ ok tt
extension_lem (DataKey.allowance a b) v m n greatest g l h =
    let same : greatest ≡ 1099 = cc (g, greatest_lifetime) in ground arith
extension_lem (DataKey.balance a) v m n greatest g l h = ground arith

host_calls-IsHost : IsHost host_calls itself ledger no_flags issuer all_authorized
host_calls-IsHost = record {
  clone_address = λ a d s e. (refl, e);
  try_get = λ k d s e. (ap (λ t. ok (t k)) e, e);
  put = λ k v d s e. (refl, ap (updated k v) e);
  greatest_live_until = (1099, greatest_lifetime);
  balance_room = omega arith;
  extend = λ k v m n greatest d h g l may s e.
      (ap (extension k m n) (ap (λ t. t k) e ∙ h) ∙ extension_lem k v m n greatest g l may, e);
  extend_instance = λ d s e. (refl, e);
  ledger_info = λ d s e. (refl, e);
  require_auth = λ a d s e. (refl, e);
  publish = λ v d s e. (refl, e);
  administrator = λ d s e. (refl, e);
  flag = λ f d s e. (refl, e);
}

abbrev payer : Address
payer = contract_address 1

abbrev spender : Address
spender = contract_address 3

abbrev entries : Data
entries = updated (DataKey.allowance payer spender) (DataValue.allowance (granted 50 120)) (
    updated (balance_key 1) (DataValue.balance (holding 70 false))
      (updated (balance_key 2) (DataValue.balance (holding 5 true)) (λ k. none)))

Reaches-write_read_example :
    Reaches itself
      (write_allowance host_calls payer spender (pos 60) 130
        >> read_allowance host_calls payer spender)
      entries
      (ok (pos 60))
      (updated (DataKey.allowance payer spender) (DataValue.allowance (granted 60 130)) entries)
Reaches-write_read_example =
    Reaches-write_read host_calls itself ledger no_flags issuer all_authorized host_calls-IsHost
      payer spender 60 130 1099 entries greatest_lifetime (omega arith) (omega arith) (omega arith)
      tt

Reaches-spend_allowance_example :
    Reaches itself
      (spend_allowance host_calls payer spender (pos 20))
      entries
      (ok tt)
      (updated (DataKey.allowance payer spender) (DataValue.allowance (granted 30 120)) entries)
Reaches-spend_allowance_example =
    Reaches-spend_allowance host_calls itself ledger no_flags issuer all_authorized
      host_calls-IsHost payer spender 20 50 120 1099 entries greatest_lifetime (omega arith)
      (omega arith) refl (omega arith) (omega arith) (omega arith)

Reaches-spend_refused_example :
    Reaches itself
      (spend_allowance host_calls payer spender (pos 51))
      entries
      (err (contract_error allowance_error))
      entries
unfolding amount_at
Reaches-spend_refused_example =
    Reaches-spend_refused host_calls itself ledger no_flags issuer all_authorized host_calls-IsHost
      payer spender 51 50 120 entries refl (omega arith) (inr (omega arith))

Reaches-transfer_example :
    Reaches itself
      (transfer host_calls payer (contract_address 2) (pos 30))
      entries
      (ok tt)
      (transferred 1 2 30 70 5 false true entries)
Reaches-transfer_example =
    Reaches-transfer host_calls itself ledger no_flags issuer all_authorized host_calls-IsHost 1 2
      30 70 5 false true entries refl (λ e. absurd (omega arith)) refl refl (omega arith)
      (omega arith) (omega arith)

Reaches-transfer_self_example :
    (d : Data) × Reaches itself (transfer host_calls payer payer (pos 30)) entries (ok tt) d
    × ((k : DataKey) → d k ≡ entries k)
Reaches-transfer_self_example =
    Reaches-transfer_self host_calls itself ledger no_flags issuer all_authorized host_calls-IsHost
      1 30 70 false entries refl refl (omega arith) (omega arith)

Reaches-transfer_refused_example :
    Reaches itself
      (transfer host_calls payer (contract_address 2) (pos 71))
      entries
      (err (contract_error balance_error))
      entries
Reaches-transfer_refused_example =
    Reaches-transfer_refused host_calls itself ledger no_flags issuer all_authorized
      host_calls-IsHost 1 2 71 70 false entries refl refl (omega arith)

Reaches-transfer_from_example :
    Reaches itself
      (transfer_from host_calls spender payer (contract_address 2) (pos 30))
      entries
      (ok tt)
      (transferred 1 2 30 70 5 false true
        (updated (DataKey.allowance payer spender) (DataValue.allowance (granted 20 120)) entries))
Reaches-transfer_from_example =
    Reaches-transfer_from host_calls itself ledger no_flags issuer all_authorized host_calls-IsHost
      spender 1 2 30 70 5 50 120 1099 false true entries refl greatest_lifetime (omega arith)
      (omega arith) refl (omega arith) (omega arith) (omega arith) (λ e. absurd (omega arith)) refl
      refl (omega arith) (omega arith) (omega arith)

transfer_conserves_example :
    (d : Data) × Reaches itself
      (transfer host_calls payer (contract_address 2) (pos 30))
      entries
      (ok tt)
      d
    × (total (1 ∷ 2 ∷ []) d ≡ total (1 ∷ 2 ∷ []) entries)
transfer_conserves_example =
    transfer_conserves host_calls itself ledger no_flags issuer all_authorized host_calls-IsHost 1 2
      30 70 5 false true entries (1 ∷ 2 ∷ []) refl (λ e. absurd (omega arith)) refl refl
      (omega arith) (omega arith) (omega arith) ((λ e. absurd (omega arith), tt), (tt, tt))
      (inl refl) (inr (inl refl))
