-- ===== src/Tests/FrameRuns.antt =====
-- The theorems on frames at a host of numbers: the stack is empty, the storage has one contract, and
-- the authorization manager counts its frames.
use rs_stellar_contract_env.Prelude.{
  refl, ℕ, suc, ◌+◌, ◌-◌, true, if◌then◌else◌, Option, none, some, List, [], ◌∷◌, ◌≡◌, ◌==◌, ◌↔◌,
  length, ◌⊎◌, inl, inr,
}
use rs_stellar_contract_env.Error.{
  HostError, ok, err, fail, IsOk, value, invalid_input, from_contract_error,
}
use rs_stellar_contract_env.Exec.{Exec, pure, lift, ◌>>◌}
use rs_stellar_contract_env.Metered.{Metered}
use rs_stellar_contract_env.Budget.Defaults.{default_budget}
use rs_stellar_contract_env.Storage.Access.{put}
use rs_stellar_contract_env.Frame.Types.{
  World, Services, Host, Context, Frame, OnHost, ScContractInstance, stellar_asset,
  stellar_asset_contract,
}
use rs_stellar_contract_env.Frame.Stack.{contract_id, on_storage}
use rs_stellar_contract_env.Frame.Stays.{
  Stays, StaysWithin, Stays-bind, Stays-lift, Stays-on_storage,
}
use rs_stellar_contract_env.Frame.Pushing.{IsRolledBack}
use rs_stellar_contract_env.Frame.Run.{with_frame}
use rs_stellar_contract_env.Frame.Rollback.{with_frame-StaysWithin, with_frame_lem}
use rs_stellar_contract_env.Frame.Call.{
  callers, prohibited, self_allowed, check_reentry, call_n_internal,
}
use rs_stellar_contract_env.Frame.Reentry.{Acceptable, check_reentry_iff, call_n_internal_refused}
use rs_stellar_contract_env.Tests.Concrete.{plain, ranked}
use rs_stellar_contract_env.Tests.StorageRuns.{rank, host_storage, counter, counter_entry}

abbrev numbers : World
numbers = record {
  Hash = ℕ;
  Symbol = ℕ;
  Val = ℕ;
  Object = ℕ;
  HostFunctionType = ℕ;
  Module = ℕ;
  Code = ℕ;
  ScMap = ℕ;
  Payload = ℕ;
  Prng = ℕ;
  AuthManager = ℕ;
  AuthSnapshot = ℕ;
  ContractEvent = ℕ;
  DiagnosticEvent = ℕ;
}

-- The value 99 stands for an error value of a contract.
abbrev error_value : ℕ → Option HostError
error_value n = if n == 99 then some (from_contract_error 1) else none

abbrev count_push : Exec (Metered ℕ) ℕ
count_push s = (ok s.own, record s { own = suc s.own })

abbrev count_pop : Option ℕ → Exec (Metered ℕ) (Unit {0})
count_pop none s = (ok tt, record s { own = s.own - 1 })
count_pop (some n) s = (ok tt, record s { own = n })

abbrev services : Services numbers
services = record {
  accesses = ranked rank;
  entries = ranked rank;
  values = ranked (λ n. n);
  storage_map = plain 24;
  hash = plain 32;
  context = plain 100;
  ledger_key = plain 64;
  entry = plain 64;
  instance = plain 64;
  code = plain 64;
  val = plain 8;
  vec_size = 24;
  as_error = error_value;
  same_hash = ◌==◌;
  symbol_bytes = λ n. pure (n ∷ n ∷ []);
  push_frame = λ frame. count_push;
  pop_frame = count_pop;
  sub_prng = λ s. (ok (s.own + 1), s);
  host_map_to_scmap = λ m. pure (length m.map);
  scmap_to_host_vals = λ m. pure ((m, m) ∷ []);
  instance_key = λ id. id;
  code_key = λ id. id;
  new_instance = λ id instance. id;
  instance_of = λ p. some (record { executable = stellar_asset; storage = none });
  with_instance = λ instance p. p + 1;
  code_of = λ p. p;
  new_vm = λ id code. pure (record { contract_id = id; wasm_module = code });
  invoke_function_raw = λ vm func args. pure func;
  stellar_asset_call = λ func args. pure func;
}

count_pop-IsOk : (s : Metered ℕ) → IsOk (services.pop_frame none s).0
count_pop-IsOk s = tt

abbrev token : ScContractInstance numbers
token = record { executable = stellar_asset; storage = none }

abbrev frame : Frame numbers
frame = stellar_asset_contract 5 7 [] token

abbrev running : Context numbers
running = record { frame = frame; prng = none; storage = none }

abbrev start : List (Context numbers) → Metered (Host numbers)
start stack = record {
  own = record {
    context_stack = stack;
    storage = host_storage;
    events = record { vec = [] };
    authorization_manager = 0;
    base_prng = some 1;
    ledger = record {
      sequence_number = 100;
      min_temp_entry_ttl = 16;
      min_persistent_entry_ttl = 50;
      max_entry_ttl = 1000;
    };
  };
  funds = default_budget;
}

-- A body that writes an entry and then fails.
abbrev write_and_fail : OnHost numbers ℕ
write_and_fail =
    on_storage (put services.accesses services.entries counter (counter_entry 8) (some 120))
    >> lift (fail value invalid_input)

write_and_fail-Stays : Stays write_and_fail
write_and_fail-Stays = Stays-bind _ _ (Stays-on_storage _) λ u. Stays-lift _

with_frame-StaysWithin_example :
    StaysWithin
      (start (running ∷ [])).own
      (with_frame services frame write_and_fail (start (running ∷ []))).1.own
    × ((with_frame services frame write_and_fail (start (running ∷ []))).1.own.context_stack
        ≡ running ∷ [])
with_frame-StaysWithin_example =
    with_frame-StaysWithin services count_pop-IsOk frame write_and_fail write_and_fail-Stays
      (start (running ∷ []))

check_reentry_iff_example :
    (check_reentry services self_allowed 5 (running ∷ []) ≡ ok tt)
    ↔ Acceptable services self_allowed 5 (running ∷ [])
check_reentry_iff_example = check_reentry_iff services self_allowed 5 (running ∷ [])

call_n_internal_refused_example :
    let end = call_n_internal services 5 7 [] prohibited true (start (running ∷ [])) in
    ((e : HostError) × (end.0 ≡ err e)) × (end.1.own ≡ (start (running ∷ [])).own)
unfolding callers contract_id
call_n_internal_refused_example =
    call_n_internal_refused services 5 7 [] prohibited true (start (running ∷ []))
      (λ a. elim a [ inl e ↦ cc e | inr (inl h) ↦ cc (h.0 5 refl) | inr (inr h) ↦ cc h.0 ])

with_frame_lem_example :
    let end = with_frame services frame write_and_fail (start []) in
    ((v : ℕ) × (end.0 ≡ ok v) × (error_value v ≡ none))
    ⊎ (((e : HostError) × (end.0 ≡ err e)) × IsRolledBack (start []).own end.1.own)
with_frame_lem_example =
    with_frame_lem services count_pop-IsOk frame write_and_fail write_and_fail-Stays (start [])
