-- ===== src/StellarAsset/Reaches.antt =====
-- What the contract promises is said on a host whose calls do what they are called for: a call
-- reads the data, changes one entry, or leaves the data as they are.
use rs_stellar_contract_env.Prelude.{
  ℕ, ◌+◌, ◌≤◌, u32_max, Bool, false, Option, some, ◌≡◌, refl, ◌==◌, ◌&&◌, if◌then◌else◌,
}
use rs_stellar_contract_env.Error.{HostError, Result, ok, err}
use rs_stellar_contract_env.Exec.{Exec, pure, lift, ◌>>=◌}
use rs_stellar_contract_env.Storage.Ttl.{LedgerInfo, max_live_until_ledger}
use rs_stellar_contract_env.StellarAsset.{
  Address, account, contract_address, DataKey, DataValue, StorageType, temporary, persistent,
  HostCalls, Event, AccountFlags, balance_extend_amount,
}

abbrev pub same_address : Address → Address → Bool
same_address (account a) (account b) = a == b
same_address (contract_address a) (contract_address b) = a == b
same_address a b = false

abbrev pub same_key : DataKey → DataKey → Bool
same_key (DataKey.allowance a b) (DataKey.allowance c d) = same_address a c && same_address b d
same_key (DataKey.balance a) (DataKey.balance b) = same_address a b
same_key k l = false

abbrev pub Data : Type 0
Data = DataKey → Option DataValue

-- The data with a value at a key.
abbrev pub updated : DataKey → DataValue → Data → Data
updated k v d l = if same_key k l then some v else d l

-- The lifetime class in which a key is kept.
abbrev pub class_of : DataKey → StorageType
class_of (DataKey.allowance _ _) = temporary
class_of (DataKey.balance _) = persistent

-- From every state with the data `d`, the method gives `r` and leaves the data `d'`.
abbrev pub Reaches : {S A : Type 0} → (S → Data) → Exec S A → Data → Result A → Data → Type 0
Reaches {S} held m d r d' = (s : S) → held s ≡ d → ((m s).0 ≡ r) × (held (m s).1 ≡ d')

module _ {S A : Type 0} (held : S → Data) where
  pub Reaches-pure : (a : A) (d : Data) → Reaches held (pure a) d (ok a) d
  unfolding pure
  Reaches-pure a d s e = (refl, e)

  pub Reaches-lift : (r : Result A) (d : Data) → Reaches held (lift r) d r d
  unfolding lift
  Reaches-lift r d s e = (refl, e)

module _ {S A B : Type 0} (held : S → Data) where
  pub Reaches-step :
      (m : Exec S A) (f : A → Exec S B) (a : A) {d d' d'' : Data} {r : Result B}
      → Reaches held m d (ok a) d'
      → Reaches held (f a) d' r d''
      → Reaches held (m >>= f) d r d''
  unfolding ◌>>=◌
  Reaches-step m f a hm hf s e = let (g, e') = hm s e in rw g (hf (m s).1 e')

  pub Reaches-fail :
      (m : Exec S A) (f : A → Exec S B) (x : HostError) {d d' : Data}
      → Reaches held m d (err x) d'
      → Reaches held (m >>= f) d (err x) d'
  unfolding ◌>>=◌
  Reaches-fail m f x hm s e = let (g, e') = hm s e in rw g (refl, e')

-- Up to which ledger the host extends the life of an entry: that of temporary data up to the
-- greatest lifetime, past which it is refused, and that of persistent data, which is cut there, as
-- far as a `u32` can tell.
abbrev pub MayExtend : DataKey → ℕ → ℕ → Type 0
MayExtend (DataKey.allowance _ _) wanted greatest = wanted ≤ greatest
MayExtend (DataKey.balance _) wanted greatest = wanted ≤ u32_max

-- Such a host, with the data of the live entries that its states hold, the ledger, the flags of the
-- asset's issuer, the administrator, and the answers to the authorizations that are asked for. The
-- greatest lifetime of its network is defined, and the extension of a balance from the current ledger
-- is a `u32`. It extends an entry that is there, by a threshold of at most the ledgers asked for.
pub record IsHost {S : Type 0} (e : HostCalls S) (held : S → Data) (ledger : LedgerInfo)
    (flags : AccountFlags → Bool) (admin : Address) (auth : Address → Result (Unit {0}))
    : Type 0 where
  pub clone_address : (a : Address) (d : Data) → Reaches held (e.clone_address a) d (ok a) d
  pub try_get :
      (k : DataKey) (d : Data)
      → Reaches held (e.try_get_contract_data k (class_of k)) d (ok (d k)) d
  pub put :
      (k : DataKey) (v : DataValue) (d : Data)
      → Reaches held (e.put_contract_data k v (class_of k)) d (ok tt) (updated k v d)
  pub greatest_live_until : (greatest : ℕ) × (max_live_until_ledger ledger ≡ ok greatest)
  pub balance_room : ledger.sequence_number + balance_extend_amount ≤ u32_max
  pub extend :
      (k : DataKey) (v : DataValue) (m n greatest : ℕ) (d : Data)
      → d k ≡ some v
      → max_live_until_ledger ledger ≡ ok greatest
      → m ≤ n
      → MayExtend k (ledger.sequence_number + n) greatest
      → Reaches held (e.extend_contract_data_ttl k (class_of k) m n) d (ok tt) d
  pub extend_instance :
      (d : Data) → Reaches held e.extend_current_contract_instance_and_code_ttl d (ok tt) d
  pub ledger_info : (d : Data) → Reaches held e.ledger_info d (ok ledger) d
  pub require_auth : (a : Address) (d : Data) → Reaches held (e.require_auth a) d (auth a) d
  pub publish : (v : Event) (d : Data) → Reaches held (e.publish v) d (ok tt) d
  pub administrator : (d : Data) → Reaches held e.read_administrator d (ok admin) d
  pub flag :
      (f : AccountFlags) (d : Data) → Reaches held (e.is_asset_issuer_flag_set f) d (ok (flags f)) d
