-- ===== src/Storage/Recording.antt =====
-- `Footprint::record_access` of soroban-env-host/src/storage.rs, and what the footprint allows after
-- it.
use rs_stellar_contract_env.Prelude.{
  ◌≤◌, ◌≡◌, refl, ◌∙◌, Option, none, some, Ordering, length, u32_max,
}
use rs_stellar_contract_env.Error.{ok}
use rs_stellar_contract_env.Exec.{pure, lift, ◌>>◌}
use rs_stellar_contract_env.MeteredMap
use rs_stellar_contract_env.MeteredMap.{Ctx}
use rs_stellar_contract_env.MeteredMap.Spec
use rs_stellar_contract_env.MeteredMap.Spec.{insert-IsSorted}
use rs_stellar_contract_env.MeteredMap.Laws.{written, lookup-insert}
use rs_stellar_contract_env.MeteredMap.Refine.{IsContext}
use rs_stellar_contract_env.MeteredMap.Query.{Computes-get}
use rs_stellar_contract_env.MeteredMap.Write.{Computes-insert}
use rs_stellar_contract_env.Metered.{
  charged, asks, Runs, Runs-charged, Runs-asks, Runs-writes, Runs-lift, Runs-step,
}
use rs_stellar_contract_env.Storage.Ledger.{LedgerKey, EntryWithLiveUntil}
use rs_stellar_contract_env.Storage.Access.{
  AccessType, read_only, read_write, Storage, insert_access, record_existing, record_access,
  enforce_access, enforce_existing,
}
use rs_stellar_contract_env.Storage.Footprint.{access, IsValid, with_access, Runs-enforce_access}

-- The storage after an access to a key whose recorded access was `existing`.
abbrev pub recorded :
    {P : Type 0}
    → (LedgerKey P → LedgerKey P → Ordering)
    → Storage P
    → LedgerKey P
    → AccessType
    → Option AccessType
    → Storage P
recorded cmp s key read_write (some read_only) = with_access cmp s key read_write
recorded cmp s key ty (some _) = s
recorded cmp s key ty none = with_access cmp s key ty

module _ {P : Type 0} (accesses : Ctx (LedgerKey P) AccessType)
    (entries : Ctx (LedgerKey P) (Option (EntryWithLiveUntil P)))
    (cmp : LedgerKey P → LedgerKey P → Ordering) (access_context : IsContext accesses cmp)
    (entry_context : IsContext entries cmp) where
  Runs-insert_access :
      (s : Storage P) (key : LedgerKey P) (ty : AccessType)
      → IsValid cmp s
      → length (Spec.insert cmp key ty s.footprint.map) ≤ u32_max
      → Runs (insert_access accesses entries key ty) s (ok tt) (with_access cmp s key ty)
  unfolding insert_access
  Runs-insert_access s key ty v room =
      Runs-step (asks (λ s. s.footprint)) _ s.footprint s (Runs-asks (λ s. s.footprint) s) (
        Runs-step (charged (MeteredMap.insert accesses s.footprint key ty)) _
          (with_access cmp s key ty).footprint s
          (Runs-charged _ _ s (
            Computes-insert accesses cmp access_context s.footprint key ty v.footprint_sorted
              v.footprint_length room))
          (Runs-writes _ s))

  Runs-record_existing :
      (s : Storage P) (key : LedgerKey P) (ty : AccessType) (existing : Option AccessType)
      → IsValid cmp s
      → length (Spec.insert cmp key ty s.footprint.map) ≤ u32_max
      → Runs
          (record_existing accesses entries key ty existing)
          s
          (ok tt)
          (recorded cmp s key ty existing)
  unfolding record_existing pure lift
  Runs-record_existing s key read_only (some read_only) v room = Runs-lift (ok tt) s
  Runs-record_existing s key read_write (some read_only) v room =
      Runs-insert_access s key read_write v room
  Runs-record_existing s key read_only (some read_write) v room = Runs-lift (ok tt) s
  Runs-record_existing s key read_write (some read_write) v room = Runs-lift (ok tt) s
  Runs-record_existing s key read_only none v room = Runs-insert_access s key read_only v room
  Runs-record_existing s key read_write none v room = Runs-insert_access s key read_write v room

  Runs-record_access :
      (s : Storage P) (key : LedgerKey P) (ty : AccessType)
      → IsValid cmp s
      → length (Spec.insert cmp key ty s.footprint.map) ≤ u32_max
      → Runs
          (record_access accesses entries key ty)
          s
          (ok tt)
          (recorded cmp s key ty (access cmp s key))
  unfolding record_access
  Runs-record_access s key ty v room =
      Runs-step (asks (λ s. s.footprint)) _ s.footprint s (Runs-asks (λ s. s.footprint) s) (
        Runs-step (charged (MeteredMap.get accesses s.footprint key)) _ (access cmp s key) s
          (Runs-charged _ _ s
            (Computes-get accesses cmp access_context s.footprint key v.footprint_sorted))
          (Runs-record_existing s key ty (access cmp s key) v room))

  with_access-IsValid :
      (s : Storage P) (key : LedgerKey P) (ty : AccessType)
      → IsValid cmp s
      → length (Spec.insert cmp key ty s.footprint.map) ≤ u32_max
      → IsValid cmp (with_access cmp s key ty)
  with_access-IsValid s key ty v room = record {
    footprint_sorted =
        insert-IsSorted cmp access_context.order key ty s.footprint.map v.footprint_sorted;
    map_sorted = v.map_sorted;
    footprint_length = room;
    map_length = v.map_length;
  }

  recorded-IsValid :
      (s : Storage P) (key : LedgerKey P) (ty : AccessType) (existing : Option AccessType)
      → IsValid cmp s
      → length (Spec.insert cmp key ty s.footprint.map) ≤ u32_max
      → IsValid cmp (recorded cmp s key ty existing)
  recorded-IsValid s key read_only (some read_only) v room = v
  recorded-IsValid s key read_write (some read_only) v room =
      with_access-IsValid s key read_write v room
  recorded-IsValid s key read_only (some read_write) v room = v
  recorded-IsValid s key read_write (some read_write) v room = v
  recorded-IsValid s key read_only none v room = with_access-IsValid s key read_only v room
  recorded-IsValid s key read_write none v room = with_access-IsValid s key read_write v room

  access-with_access :
      (s : Storage P) (key : LedgerKey P) (ty : AccessType)
      → access cmp (with_access cmp s key ty) key ≡ some ty
  access-with_access s key ty =
      lookup-insert cmp access_context.order key key ty s.footprint.map
      ∙ rw (access_context.order.same key, written)

  allowed :
      (s : Storage P) (key : LedgerKey P) (ty : AccessType) (existing : Option AccessType)
      → access cmp s key ≡ existing
      → enforce_existing ty (access cmp (recorded cmp s key ty existing) key) ≡ ok tt
  unfolding enforce_existing
  allowed s key read_only (some read_only) h = rw h
  allowed s key read_write (some read_only) h = rw (access-with_access s key read_write)
  allowed s key read_only (some read_write) h = rw h
  allowed s key read_write (some read_write) h = rw h
  allowed s key read_only none h = rw (access-with_access s key read_only)
  allowed s key read_write none h = rw (access-with_access s key read_write)

  -- On a valid storage whose footprint has room for the key, the access that `record_access` records
  -- is allowed by `enforce_access` afterwards; the footprint then has the stronger of the access that
  -- it had and the new one. A budget may stop it first with its own error; a free budget does not.
  pub Runs-record_enforce :
      (s : Storage P) (key : LedgerKey P) (ty : AccessType)
      → IsValid cmp s
      → length (Spec.insert cmp key ty s.footprint.map) ≤ u32_max
      → Runs
          (record_access accesses entries key ty >> enforce_access accesses entries key ty)
          s
          (ok tt)
          (recorded cmp s key ty (access cmp s key))
  Runs-record_enforce s key ty v room =
      Runs-step (record_access accesses entries key ty) _ tt
        (recorded cmp s key ty (access cmp s key)) (Runs-record_access s key ty v room)
        (rw (allowed s key ty (access cmp s key) refl) at (
          Runs-enforce_access accesses entries cmp access_context entry_context _ key ty
            (recorded-IsValid s key ty (access cmp s key) v room)))
