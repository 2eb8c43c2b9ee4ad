-- ===== src/Storage/Ttl/Extend.antt =====
-- `extend_ttl` of soroban-env-host/src/storage.rs in enforcing mode.
use rs_stellar_contract_env.Prelude.{
  ◌<◌, ℕ, ◌+◌, ◌-◌, ◌<◌, ◌≤◌, ◌≡◌, ◌⊎◌, leb, true, false, Option, some, Ordering, arith, ltb,
  if◌then◌else◌, Bool-cases, inl, inr,
}
use rs_stellar_contract_env.Error.{ok}
use rs_stellar_contract_env.Exec.{pure, lift}
use rs_stellar_contract_env.MeteredMap.{Ctx}
use rs_stellar_contract_env.MeteredMap.Refine.{IsContext}
use rs_stellar_contract_env.Metered.{Runs, Runs-lift, Runs-step}
use rs_stellar_contract_env.Storage.Ledger.{
  LedgerKey, LedgerEntry, EntryWithLiveUntil, check_supported_ledger_key_type,
}
use rs_stellar_contract_env.Storage.Access.{
  AccessType, read_only, Storage, try_get_full, get_with_live_until_ledger, insert_entry,
}
use rs_stellar_contract_env.Storage.Footprint.{
  cached, with_entry, Runs-insert_entry, room_for_present,
}
use rs_stellar_contract_env.Storage.Enforcing.{IsEnforcing, Allows, Runs-try_get_full}
use rs_stellar_contract_env.Storage.Ttl.{
  LedgerInfo, new_live_until, needs_extension, extend_entry, extend_ttl,
}

-- What an extension leaves, by the decision of the code.
abbrev extended :
    {P : Type 0}
    → (LedgerKey P → LedgerKey P → Ordering)
    → LedgerInfo
    → Storage P
    → LedgerKey P
    → ℕ
    → LedgerEntry P
    → ℕ
    → ℕ
    → Storage P
extended cmp li s key threshold entry old new =
    if needs_extension li old new threshold
    then with_entry cmp s key (some (entry, some new))
    else s

-- An entry whose lifetime has not ended is extended if that is longer, and if the old lifetime ends
-- within the threshold.
needs_extension_lem :
    (li : LedgerInfo) (old new threshold : ℕ)
    → li.sequence_number ≤ old
    → ((old < new)
        × (old ≤ li.sequence_number + threshold)
        × (needs_extension li old new threshold ≡ true))
      ⊎ (((new ≤ old) ⊎ (li.sequence_number + threshold < old))
          × (needs_extension li old new threshold ≡ false))
unfolding needs_extension
needs_extension_lem li old new threshold h = elim (Bool-cases (ltb old new)) [
  | inr e ↦ inr (inl (ground arith), rw e)
  | inl e ↦ elim (Bool-cases (leb (old - li.sequence_number) threshold)) [
    | inl f ↦ inl (ground arith, ground arith, rw (e, f))
    | inr f ↦ inr (inr (ground arith), rw (e, f))
  ]
]

module _ {P : Type 0} (accesses : Ctx (LedgerKey P) AccessType)
    (entries : Ctx (LedgerKey P) (Option (EntryWithLiveUntil P)))
    (cmp : LedgerKey P → LedgerKey P → Ordering) (access_context : IsContext accesses cmp)
    (entry_context : IsContext entries cmp) where
  Runs-extend :
      (li : LedgerInfo) (s : Storage P) (key : LedgerKey P) (threshold : ℕ) (entry : LedgerEntry P)
      (old new : ℕ)
      → IsEnforcing cmp s
      → cached cmp s key ≡ some (some (entry, some old))
      → Runs
          (if needs_extension li old new threshold
            then insert_entry accesses entries key (some (entry, some new))
            else pure tt)
          s
          (ok tt)
          (extended cmp li s key threshold entry old new)
  unfolding pure lift
  Runs-extend li s key threshold entry old new v h =
      elim (Bool-cases (needs_extension li old new threshold)) [
        | inl e ↦ rw e (
            Runs-insert_entry accesses entries cmp access_context entry_context s key
              (some (entry, some new)) v.valid
              (room_for_present accesses entries cmp access_context entry_context s key _ v.valid
                h))
        | inr e ↦ rw e (Runs-lift (ok tt) s)
      ]

  not_below : {a b : ℕ} → a ≤ b → ltb b a ≡ false
  not_below h = ground arith

  Runs-extended :
      (li : LedgerInfo) (s : Storage P) (key : LedgerKey P) (threshold extend_to : ℕ)
      (entry : LedgerEntry P) (old new : ℕ)
      → IsEnforcing cmp s
      → check_supported_ledger_key_type key ≡ ok tt
      → Allows cmp s key read_only
      → cached cmp s key ≡ some (some (entry, some old))
      → threshold ≤ extend_to
      → li.sequence_number ≤ old
      → new_live_until li key extend_to ≡ ok new
      → Runs
          (extend_ttl accesses entries li key threshold extend_to)
          s
          (ok tt)
          (extended cmp li s key threshold entry old new)
  unfolding extend_ttl extend_entry get_with_live_until_ledger
  Runs-extended li s key threshold extend_to entry old new v supported allowed h t l n =
      rw (supported, not_below t)
        (Runs-step (lift (ok tt)) _ tt s (Runs-lift (ok tt) s) (
          Runs-step (get_with_live_until_ledger accesses entries key) _ (entry, some old) s
            (Runs-step (try_get_full accesses entries key) _ (some (entry, some old)) s
              (Runs-try_get_full accesses entries cmp access_context entry_context s key _ v
                supported allowed h)
              (Runs-lift (ok (entry, some old)) s))
            (Runs-step (lift (ok old)) _ old s (Runs-lift (ok old) s) (
              rw (not_below l, n)
                (Runs-step (lift (ok new)) _ new s (Runs-lift (ok new) s)
                  (Runs-extend li s key threshold entry old new v h))))))

  -- In enforcing mode, for a supported key of the footprint with an entry whose lifetime has not
  -- ended, a threshold of at most the extension asked for, and a defined new lifetime: `extend_ttl`
  -- succeeds. Where the new lifetime is longer and the old one ends at most the threshold after the
  -- current ledger, the entry has the new one and nothing else is changed; otherwise the storage is
  -- as it was. A budget may stop it first with its own error; a free budget does not.
  pub Runs-extend_ttl :
      (li : LedgerInfo) (s : Storage P) (key : LedgerKey P) (threshold extend_to : ℕ)
      (entry : LedgerEntry P) (old new : ℕ)
      → IsEnforcing cmp s
      → check_supported_ledger_key_type key ≡ ok tt
      → Allows cmp s key read_only
      → cached cmp s key ≡ some (some (entry, some old))
      → threshold ≤ extend_to
      → li.sequence_number ≤ old
      → new_live_until li key extend_to ≡ ok new
      → ((old < new)
          × (old ≤ li.sequence_number + threshold)
          × Runs
              (extend_ttl accesses entries li key threshold extend_to)
              s
              (ok tt)
              (with_entry cmp s key (some (entry, some new))))
        ⊎ (((new ≤ old) ⊎ (li.sequence_number + threshold < old))
            × Runs (extend_ttl accesses entries li key threshold extend_to) s (ok tt) s)
  Runs-extend_ttl li s key threshold extend_to entry old new v supported allowed h t l n =
      let run =
        Runs-extended li s key threshold extend_to entry old new v supported allowed h t l n in
      elim (needs_extension_lem li old new threshold l) [
        | inl (gains, near, e) ↦ inl (gains, near, rw e at run)
        | inr (why, e) ↦ inr (why, rw e at run)
      ]
