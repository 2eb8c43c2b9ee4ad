-- ===== src/Storage/Writing.antt =====
-- Writes in enforcing mode, and reading back what was written.
use mathlib.Core.Path.{subst}
use rs_stellar_contract_env.Prelude.{◌≡◌, ◌≢◌, refl, ◌∙◌, Option, none, some, Ordering, arith}
use rs_stellar_contract_env.Error.{ok, fail, storage, exceeded_limit, from_type_and_code}
use rs_stellar_contract_env.Exec.{lift, ◌>>◌}
use rs_stellar_contract_env.MeteredMap.{Ctx}
use rs_stellar_contract_env.MeteredMap.Spec.{insert-IsSorted}
use rs_stellar_contract_env.MeteredMap.Laws.{lookup-insert, written}
use rs_stellar_contract_env.MeteredMap.Refine.{IsContext}
use rs_stellar_contract_env.Metered.{asks, Runs, Runs-asks, Runs-lift, Runs-step, Runs-fail}
use rs_stellar_contract_env.Storage.Ledger.{
  LedgerKey, EntryWithLiveUntil, check_supported_ledger_key_type,
}
use rs_stellar_contract_env.Storage.Access.{
  AccessType, read_only, read_write, enforcing, Storage, enforce_existing, enforce_access,
  try_get_full, access_for_write, put_opt, check_value,
}
use rs_stellar_contract_env.Storage.Footprint.{
  access, cached, with_entry, Runs-enforce_access, Runs-insert_entry, room_for_present,
}
use rs_stellar_contract_env.Storage.Enforcing.{IsEnforcing, present, Runs-try_get_full}

module _ {P : Type 0} (accesses : Ctx (LedgerKey P) AccessType)
    (entries : Ctx (LedgerKey P) (Option (EntryWithLiveUntil P)))
    (cmp : LedgerKey P → LedgerKey P → Ordering) (access_context : IsContext accesses cmp)
    (entry_context : IsContext entries cmp) where
  -- In enforcing mode, where the footprint lists a supported key for writing and the value is of
  -- a supported type, a write puts the value at the key. A budget may stop it first with its own
  -- error; a free budget does not.
  pub Runs-put_opt :
      (s : Storage P) (key : LedgerKey P) (val : Option (EntryWithLiveUntil P))
      → IsEnforcing cmp s
      → check_supported_ledger_key_type key ≡ ok tt
      → check_value val ≡ ok tt
      → access cmp s key ≡ some read_write
      → Runs (put_opt accesses entries key val) s (ok tt) (with_entry cmp s key val)
  unfolding put_opt access_for_write
  Runs-put_opt s key val v supported fits listed =
      let (old, o) = present (cached cmp s key) (v.covered key (λ e. cc (e, listed))) in
      rw (supported, fits)
        (Runs-step (lift (ok tt)) _ tt s (Runs-lift (ok tt) s) (
          Runs-step (lift (ok tt)) _ tt s (Runs-lift (ok tt) s) (
            Runs-step (asks (λ s. s.mode)) _ enforcing s
              (subst (λ m. Runs (asks (λ s. s.mode)) s (ok m) s) v.mode (Runs-asks (λ s. s.mode) s))
              (Runs-step (enforce_access accesses entries key read_write) _ tt s
                (unfold enforce_existing in
                  rw listed at (
                    Runs-enforce_access accesses entries cmp access_context entry_context s key
                      read_write v.valid))
                (Runs-insert_entry accesses entries cmp access_context entry_context s key val
                  v.valid
                  (room_for_present accesses entries cmp access_context entry_context s key val
                    v.valid o))))))

  enforced_write :
      (a : Option AccessType)
      → a ≢ some read_write
      → enforce_existing read_write a ≡ fail storage exceeded_limit
  unfolding enforce_existing
  enforced_write (some read_write) h = absurd (h refl)
  enforced_write (some read_only) h = refl
  enforced_write none h = refl

  -- In enforcing mode, where the footprint does not list a supported key for writing and the
  -- value is of a supported type, a write fails with the error of an exceeded limit and leaves
  -- the storage as it was. A budget may stop it first with its own error; a free budget does not.
  pub Runs-put_opt_refused :
      (s : Storage P) (key : LedgerKey P) (val : Option (EntryWithLiveUntil P))
      → IsEnforcing cmp s
      → check_supported_ledger_key_type key ≡ ok tt
      → check_value val ≡ ok tt
      → access cmp s key ≢ some read_write
      → Runs (put_opt accesses entries key val) s (fail storage exceeded_limit) s
  unfolding put_opt access_for_write
  Runs-put_opt_refused s key val v supported fits unlisted =
      rw (supported, fits)
        (Runs-step (lift (ok tt)) _ tt s (Runs-lift (ok tt) s) (
          Runs-step (lift (ok tt)) _ tt s (Runs-lift (ok tt) s) (
            Runs-step (asks (λ s. s.mode)) _ enforcing s
              (subst (λ m. Runs (asks (λ s. s.mode)) s (ok m) s) v.mode (Runs-asks (λ s. s.mode) s))
              (Runs-fail (enforce_access accesses entries key read_write) _
                (from_type_and_code storage exceeded_limit)
                (rw (enforced_write (access cmp s key) unlisted) at (
                  Runs-enforce_access accesses entries cmp access_context entry_context s key
                    read_write v.valid))))))

  written_not_none :
      (key j : LedgerKey P) (val : Option (EntryWithLiveUntil P))
      (old : Option (Option (EntryWithLiveUntil P)))
      → old ≢ none
      → written {V = Option (EntryWithLiveUntil P)} cmp key j (some val) old ≢ none
  written_not_none key j val none h e = h refl
  written_not_none key j val (some x) h e = ground arith

  -- A write of a key that is in the map keeps the storage as enforcing mode needs it.
  pub with_entry-IsEnforcing :
      (s : Storage P) (key : LedgerKey P) (val : Option (EntryWithLiveUntil P))
      {old : Option (EntryWithLiveUntil P)}
      → IsEnforcing cmp s
      → cached cmp s key ≡ some old
      → IsEnforcing cmp (with_entry cmp s key val)
  with_entry-IsEnforcing s key val v o = record {
    valid = record {
      footprint_sorted = v.valid.footprint_sorted;
      map_sorted = insert-IsSorted cmp entry_context.order key val s.map.map v.valid.map_sorted;
      footprint_length = v.valid.footprint_length;
      map_length =
          room_for_present accesses entries cmp access_context entry_context s key val v.valid o;
    };
    mode = v.mode;
    covered = λ j listed.
        rw (lookup-insert cmp entry_context.order key j val s.map.map)
          (written_not_none key j val (cached cmp s j) (v.covered j listed));
  }

  cached_self :
      (s : Storage P) (key : LedgerKey P) (val : Option (EntryWithLiveUntil P))
      → cached cmp (with_entry cmp s key val) key ≡ some val
  cached_self s key val =
      lookup-insert cmp entry_context.order key key val s.map.map
      ∙ rw (entry_context.order.same key, written)

  -- In enforcing mode, on a valid storage whose map has every key of the footprint, where the
  -- footprint lists a supported key for writing and the value is of a supported type: a write
  -- followed by a read of the same key gives the value written, or that there is none after a
  -- deletion, and leaves the storage with that value at the key. A budget may stop it first with
  -- its own error; a free budget does not.
  pub Runs-put_get :
      (s : Storage P) (key : LedgerKey P) (val : Option (EntryWithLiveUntil P))
      → IsEnforcing cmp s
      → check_supported_ledger_key_type key ≡ ok tt
      → check_value val ≡ ok tt
      → access cmp s key ≡ some read_write
      → Runs
          (put_opt accesses entries key val >> try_get_full accesses entries key)
          s
          (ok val)
          (with_entry cmp s key val)
  Runs-put_get s key val v supported fits listed =
      let (old, o) = present (cached cmp s key) (v.covered key (λ e. cc (e, listed))) in
      Runs-step (put_opt accesses entries key val) _ tt (with_entry cmp s key val)
        (Runs-put_opt s key val v supported fits listed)
        (Runs-try_get_full accesses entries cmp access_context entry_context
          (with_entry cmp s key val) key val (with_entry-IsEnforcing s key val v o) supported
          (unfold enforce_existing in rw listed) (cached_self s key val))
