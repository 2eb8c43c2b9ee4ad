-- ===== src/Storage/Footprint.antt =====
-- What the two maps of the storage hold, as functions of the key, and what the methods of the
-- footprint do to them.
use rs_stellar_contract_env.Prelude.{◌≤◌, ◌≡◌, Option, some, Ordering, length, u32_max}
use rs_stellar_contract_env.Error.{ok}
use rs_stellar_contract_env.MeteredMap
use rs_stellar_contract_env.MeteredMap.{MeteredOrdMap, Ctx}
use rs_stellar_contract_env.MeteredMap.Order.{IsSorted}
use rs_stellar_contract_env.MeteredMap.Spec
use rs_stellar_contract_env.MeteredMap.Laws.{length-insert}
use rs_stellar_contract_env.MeteredMap.Refine.{IsContext}
use rs_stellar_contract_env.MeteredMap.Query.{Computes-get}
use rs_stellar_contract_env.MeteredMap.Write.{Computes-insert}
use rs_stellar_contract_env.Metered.{
  charged, asks, Runs, Runs-charged, Runs-asks, Runs-lift, Runs-writes, Runs-step,
}
use rs_stellar_contract_env.Storage.Ledger.{LedgerKey, EntryWithLiveUntil}
use rs_stellar_contract_env.Storage.Access.{
  AccessType, Storage, enforce_existing, enforce_access, insert_entry,
}

module _ {P : Type 0} (cmp : LedgerKey P → LedgerKey P → Ordering) where
  -- The access that the footprint has for a key.
  abbrev pub access : Storage P → LedgerKey P → Option AccessType
  access s key = Spec.lookup cmp key s.footprint.map

  -- What the storage holds at a key: nothing yet, or that there is no entry, or the entry.
  abbrev pub cached : Storage P → LedgerKey P → Option (Option (EntryWithLiveUntil P))
  cached s key = Spec.lookup cmp key s.map.map

  -- Both maps are sorted, of at most 2^32 - 1 keys.
  pub record IsValid (s : Storage P) : Type 0 where
    pub footprint_sorted : IsSorted cmp s.footprint.map
    pub map_sorted : IsSorted cmp s.map.map
    pub footprint_length : length s.footprint.map ≤ u32_max
    pub map_length : length s.map.map ≤ u32_max

  -- The storage with a value written at a key.
  abbrev pub with_entry : Storage P → LedgerKey P → Option (EntryWithLiveUntil P) → Storage P
  with_entry s key val = record s { map = record { map = Spec.insert cmp key val s.map.map } }

  abbrev pub with_access : Storage P → LedgerKey P → AccessType → Storage P
  with_access s key ty = record s {
    footprint = record { map = Spec.insert cmp key ty s.footprint.map };
  }

module _ {P : Type 0} (accesses : Ctx (LedgerKey P) AccessType)
    (entries : Ctx (LedgerKey P) (Option (EntryWithLiveUntil P)))
    (cmp : LedgerKey P → LedgerKey P → Ordering) (access_context : IsContext accesses cmp)
    (entry_context : IsContext entries cmp) where
  pub Runs-enforce_access :
      (s : Storage P) (key : LedgerKey P) (ty : AccessType)
      → IsValid cmp s
      → Runs (enforce_access accesses entries key ty) s (enforce_existing ty (access cmp s key)) s
  unfolding enforce_access
  Runs-enforce_access s key ty v =
      Runs-step (asks (λ s. s.footprint)) _ s.footprint s (Runs-asks (λ s. s.footprint) s) (
        Runs-step (charged (MeteredMap.get accesses s.footprint key)) _ (access cmp s key) s
          (Runs-charged _ _ s
            (Computes-get accesses cmp access_context s.footprint key v.footprint_sorted))
          (Runs-lift _ s))

  -- Writing an entry where there is room.
  pub Runs-insert_entry :
      (s : Storage P) (key : LedgerKey P) (val : Option (EntryWithLiveUntil P))
      → IsValid cmp s
      → length (Spec.insert cmp key val s.map.map) ≤ u32_max
      → Runs (insert_entry accesses entries key val) s (ok tt) (with_entry cmp s key val)
  unfolding insert_entry
  Runs-insert_entry s key val v room =
      Runs-step (asks (λ s. s.map)) _ s.map s (Runs-asks (λ s. s.map) s) (
        Runs-step (charged (MeteredMap.insert entries s.map key val)) _
          (with_entry cmp s key val).map s
          (Runs-charged _ _ s (
            Computes-insert entries cmp entry_context s.map key val v.map_sorted v.map_length room))
          (Runs-writes _ s))

  -- A key that is in the map needs no room.
  pub room_for_present :
      (s : Storage P) (key : LedgerKey P) (val : Option (EntryWithLiveUntil P))
      {old : Option (EntryWithLiveUntil P)}
      → IsValid cmp s
      → cached cmp s key ≡ some old
      → length (Spec.insert cmp key val s.map.map) ≤ u32_max
  room_for_present s key val v h =
      rw (length-insert cmp entry_context.order key val s.map.map v.map_sorted) (rw h v.map_length)
