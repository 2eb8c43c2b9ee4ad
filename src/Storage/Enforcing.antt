-- ===== src/Storage/Enforcing.antt =====
-- Storage in enforcing mode, in soroban-env-host/src/storage.rs: reads of what the footprint lists.
use mathlib.Core.Path.{subst}
use rs_stellar_contract_env.Prelude.{◌≡◌, ◌≢◌, refl, ◌⊎◌, Option, none, some, Ordering, arith}
use rs_stellar_contract_env.Error.{ok, fail, storage, exceeded_limit, from_type_and_code}
use rs_stellar_contract_env.Exec.{lift}
use rs_stellar_contract_env.MeteredMap
use rs_stellar_contract_env.MeteredMap.{MeteredOrdMap, Ctx}
use rs_stellar_contract_env.MeteredMap.Refine.{IsContext}
use rs_stellar_contract_env.MeteredMap.Query.{Computes-get}
use rs_stellar_contract_env.Metered.{
  charged, asks, Runs, Runs-charged, Runs-asks, Runs-lift, Runs-step, Runs-fail,
}
use rs_stellar_contract_env.Storage.Ledger.{
  LedgerKey, EntryWithLiveUntil, check_supported_ledger_key_type,
}
use rs_stellar_contract_env.Storage.Access.{
  AccessType, read_only, enforcing, Storage, enforce_existing, prepare_read_only_access,
  prepare_in_mode, try_get_full,
}
use rs_stellar_contract_env.Storage.Footprint.{access, cached, IsValid, Runs-enforce_access}

module _ {P : Type 0} (cmp : LedgerKey P → LedgerKey P → Ordering) where
  -- A storage as `with_enforcing_footprint_and_map` is to be given it: every key of the footprint
  -- is in the map.
  pub record IsEnforcing (s : Storage P) : Type 0 where
    pub valid : IsValid cmp s
    pub mode : s.mode ≡ enforcing
    pub covered : (key : LedgerKey P) → access cmp s key ≢ none → cached cmp s key ≢ none

  -- Whether the footprint lists the key for an access.
  abbrev pub Allows : Storage P → LedgerKey P → AccessType → Type 0
  Allows s key ty = enforce_existing ty (access cmp s key) ≡ ok tt

pub enforce_fails :
    (ty : AccessType) (a : Option AccessType)
    → (enforce_existing ty a ≡ ok tt) ⊎ (enforce_existing ty a ≡ fail storage exceeded_limit)
unfolding enforce_existing
enforce_fails ty a = ground arith

pub present : {A : Type 0} (o : Option A) → o ≢ none → (a : A) × (o ≡ some a)
present none h = absurd (h refl)
present (some a) h = (a, refl)

module _ {P : Type 0} (accesses : Ctx (LedgerKey P) AccessType)
    (entries : Ctx (LedgerKey P) (Option (EntryWithLiveUntil P)))
    (cmp : LedgerKey P → LedgerKey P → Ordering) (access_context : IsContext accesses cmp)
    (entry_context : IsContext entries cmp) where
  Runs-prepare :
      (s : Storage P) (key : LedgerKey P)
      → IsEnforcing cmp s
      → Runs
          (prepare_read_only_access accesses entries key)
          s
          (enforce_existing read_only (access cmp s key))
          s
  unfolding prepare_read_only_access prepare_in_mode
  Runs-prepare s key v =
      Runs-step (asks (λ s. s.mode)) _ enforcing s
        (subst (λ m. Runs (asks (λ s. s.mode)) s (ok m) s) v.mode (Runs-asks (λ s. s.mode) s))
        (Runs-enforce_access accesses entries cmp access_context entry_context s key read_only
          v.valid)

  -- In enforcing mode, where the footprint lists a supported key, a read gives what the map holds
  -- at the key and leaves the storage as it was. A budget may stop it first with its own error; a
  -- free budget does not.
  pub Runs-try_get_full :
      (s : Storage P) (key : LedgerKey P) (held : Option (EntryWithLiveUntil P))
      → IsEnforcing cmp s
      → check_supported_ledger_key_type key ≡ ok tt
      → Allows cmp s key read_only
      → cached cmp s key ≡ some held
      → Runs (try_get_full accesses entries key) s (ok held) s
  unfolding try_get_full
  Runs-try_get_full s key held v supported allowed h = rw supported (
      Runs-step (lift (ok tt)) _ tt s (Runs-lift (ok tt) s) (
        Runs-step (prepare_read_only_access accesses entries key) _ tt s
          (rw allowed at (Runs-prepare s key v))
          (Runs-step (asks (λ s. s.map)) _ s.map s (Runs-asks (λ s. s.map) s) (
            Runs-step (charged (MeteredMap.get entries s.map key)) _ (some held) s
              (rw h at (
                Runs-charged _ _ s
                  (Computes-get entries cmp entry_context s.map key v.valid.map_sorted)))
              (Runs-lift (ok held) s)))))

  -- A key outside the footprint is refused with the error of an exceeded limit, and nothing changes.
  pub Runs-try_get_full_refused :
      (s : Storage P) (key : LedgerKey P)
      → IsEnforcing cmp s
      → check_supported_ledger_key_type key ≡ ok tt
      → access cmp s key ≡ none
      → Runs (try_get_full accesses entries key) s (fail storage exceeded_limit) s
  unfolding try_get_full
  Runs-try_get_full_refused s key v supported absent = rw supported (
      Runs-step (lift (ok tt)) _ tt s (Runs-lift (ok tt) s) (
        Runs-fail (prepare_read_only_access accesses entries key) _
          (from_type_and_code storage exceeded_limit)
          (unfold enforce_existing in rw absent at (Runs-prepare s key v))))
