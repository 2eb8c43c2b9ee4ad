-- ===== src/Lib.antt =====
-- The core of the Soroban host environment: what bounds the work of a contract, which ledger entries
-- it may touch, how calls run and roll back, and the contract of a Stellar asset on top of them.
--
-- The parts and how they interact. The budget (soroban-env-host/src/budget.rs and
-- soroban-env-host/src/budget/) counts cpu instructions and memory bytes against limits: each
-- charge names a cost type, whose linear model gives the amount. Every container operation charges
-- it. The ordered map (soroban-env-host/src/host/metered_map.rs) is a sorted vector, and the metered
-- vector (soroban-env-host/src/host/metered_vector.rs) a plain one, that charges for each access,
-- comparison and copy, by way of the metered clone (soroban-env-host/src/host/metered_clone.rs). The
-- storage (soroban-env-host/src/storage.rs) keeps two maps, the footprint of allowed accesses and the
-- entries, and extends entry lifetimes within the bounds of
-- soroban-env-host/src/host/ledger_info_helper.rs. The frames (soroban-env-host/src/host/frame.rs,
-- soroban-env-host/src/host/data_helper.rs) run a call on a stack of contexts: pushing takes a
-- rollback point of the storage's map, the events (soroban-env-host/src/events/internal.rs) and the
-- authorizations, and popping drops it or writes it back. The Stellar asset contract
-- (soroban-env-host/src/builtin_contracts/stellar_asset_contract/) runs in such a frame and keeps
-- allowances and balances as contract data. The fees (soroban-env-host/src/fees.rs) price the
-- resources of a transaction and the rent of its entries. The small symbols
-- (soroban-env-common/src/symbol.rs) are the values that name functions and keys, of the tagged
-- values (soroban-env-common/src/val.rs, soroban-env-common/src/num.rs) that contracts and the host
-- exchange.
--
-- The files:
--   Prelude   lists, Boolean tests, machine words with their saturating and checked arithmetic
--   Error     the host's errors and results; Exec is fallible code that changes a state,
--             Exec/Computes is the rule book for code that computes a value while it is charged, and
--             Exec/Leads the one for code that takes a state to a result and a state
--   Budget    CostType, Model and Dimension are the cost types, cost models and counted resources;
--             Tracker, Charge and Defaults are `BudgetImpl`; Limits is `DepthLimiter`; Shadow is
--             shadow mode; Fuel and Wasmi are the fuel and the limits of the interpreter; Reset is
--             soroban-env-host/src/budget/util.rs
--   MeteredClone  the trait `MeteredClone` as a record, with its charges
--   MeteredMap    `MeteredOrdMap`: MeteredMap/Spec is the abstract reading entry by entry, and
--             Refine, Query, Write, Build and RoundTrip relate the code to it
--   MeteredVector  `MeteredVector`: MeteredVector/Charges, Parts, Laws, Lookup and Search are what
--             its methods compute
--   Metered   a component's state beside the budget that its methods charge
--   Storage   Ledger and Access are the keys, entries, `Footprint` and `Storage`; Footprint,
--             Enforcing, Writing and Recording are their theorems; Ttl is `extend_ttl`
--   Events    `InternalEventsBuffer`
--   Frame     Types, Stack, Instance, Run and Call are the contexts, `push_context`, `pop_context`
--             and `with_frame`, the instance storage, the running of a contract's function and
--             `call_n_internal`; Stays, Pushing, Popping, Rollback, Running and Reentry are their
--             theorems
--   StellarAsset   Allowance, Balance and Contract are allowance.rs, the balances of contracts in
--             balance.rs and the functions of contract.rs; Reaches, Granting, Spending, Moving,
--             Transfer and Supply are their theorems
--   Symbol    `SymbolSmall` and its iterator; Codes, RoundTrip and Decoding are their theorems
--   Val       the payloads, tags and constructors of `Val`; Numbers has `is_good` and the small numbers;
--             Tags and Representation are their theorems
--   FeeConfig and Fees  the rates, the fees and the rent; Bounds, Transaction, Rent and Write are
--             their theorems
--   Tests     concrete states and values to which the theorems are applied
--
-- How state and operations correspond. A method on `&mut self` is a function from the state to a
-- result and the next state; `?` is the bind of that monad. The host of the frames is a record of the
-- stack, the storage, the events and the authorizations beside the budget. Numbers are natural
-- numbers, or integers with a sign for `i64` and `i128`, with the width written out where the source
-- saturates, checks or wraps; `usize` is of 64 bits. An array that is indexed by the discriminant of
-- a cost type is a function of the type, so an index out of range does not arise.
--
-- Bounds and fuel. The binary searches of the map and of the vector run on fuel, one more than the
-- length: each round shortens the range, which starts as the whole vector. The iterator of a symbol
-- shifts a `u64` by six bits at most eleven times, after which it is 0, and yields at most ten
-- characters. The code of a contract, with the calls it makes in turn, is a service of the frames,
-- which need no fuel.
--
-- Free budgets. A statement that a method computes a value says two things: whatever the budget, the
-- method gives that value or an error of the budget; and on a free budget, whose models cost nothing,
-- it gives the value. The second part rules out a method that always fails.
--
-- Parameters. The comparison of keys, the cloning of entries and the declared sizes are parameters of
-- the map and the vector; the contents of ledger keys and entries come from the XDR definitions,
-- outside the repository, and are a type parameter; the interpreter's store is a parameter of the
-- fuel code. `num_integer::div_ceil` is a parameter of the fees, of which the theorems use that it
-- rounds up on a nonnegative numerator and a positive divisor. The frames take the authorization
-- manager, the virtual machine, the value conversions and the seeding of the generator as a record of
-- services. The conversions of numbers to the error types and codes of the XDR definitions are
-- parameters of what makes a value good. The asset contract takes the calls of the host that read and
-- write its data, its administrator and the balances of accounts as a record, and its theorems the
-- laws of a host that does what is asked: what is put under a key is what is read, and nothing else
-- changes; the life of an entry that is there is extended, of temporary data up to the greatest
-- lifetime of the network and of balances as far as a `u32` goes, which the host's ledger has room
-- for.
--
-- Not modelled: the `RefCell` around the budget, test builds and those with `recording_auth`,
-- diagnostic messages and printing; host objects and the host functions on them, the authorization
-- trees, the balances of classic accounts and trust lines, the interpreter, cryptography, values of
-- 256 bits and the conversion of values to XDR.
pub mod Budget
pub mod Error
pub mod Events
pub mod Exec
pub mod FeeConfig
pub mod Fees
pub mod Frame
pub mod Metered
pub mod MeteredClone
pub mod MeteredMap
pub mod MeteredVector
pub mod Prelude
pub mod StellarAsset
pub mod Storage
pub mod Symbol
pub mod Tests
pub mod Val
