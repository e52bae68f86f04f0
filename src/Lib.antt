-- ===== src/Lib.antt =====
-- Verification of the vanity name registry.
--
-- An account commits the hash of its id and a name, waits until the commit is in a block, and reveals
-- the name. An older claim displaces a younger one. A commit locks a fund of its account; commits and names expire.
--
-- The program's parts, and the files that model them:
-- - pallets/vanity-registry/src/lib.rs, the pallet. Registry/Types.antt has its types and its
--   `Config`; Registry.antt has the state (`LockPeriods`, `Owners`, the block number, the currency's
--   state and the deposited events), the helpers, the calls `commit`, `reveal`, `renew` and
--   `unregister`, and `on_finalize` with its two loops, each under the name that it has in the
--   source. A call is a function from a state to a result and a state; it is no transaction, so what
--   it writes before an error would stay. Registry/Transitions.antt has the calls as a relation
--   between states, by whose cases the proofs about all calls go. The theorems are below Registry:
--   Counting, Commits, Entries and Funds on the single writes, Calls and Outcomes on the branches of
--   the calls, Spec on what the calls promise of the storage's contents, Claims and FrontRunning on
--   who wins a name, Names on the fund behind a name, Hashing on the commits' hash, Expiry on the
--   end of a block, Writes on how often the maps and locks are written, Chain on all the states that
--   calls and ends of blocks reach (Protocol and Registration on how a name is registered, Renewal
--   and Aging on how it is kept, Replay on what the events tell, Wrapping on the end of the block
--   numbers), and Ledger on what depends on the order in which storage is iterated.
-- - pallets/vanity-registry/src/weights.rs: Weights.antt, with the `#[pallet::weight]` of each call.
-- - pallets/vanity-registry/src/benchmarking.rs: Benchmarks.antt, the set-up, the measured call and the
--   checks of the four benchmarks.
-- - pallets/vanity-registry/src/mock.rs: Mock.antt. Its tests run on the model in Registry/Tests.
-- - runtime/src/lib.rs: Runtime.antt, the constants, the version, the pallets and the configuration
--   of the registry; Runtime/Api.antt, what a node can ask of the runtime; Runtime/Benches.antt, the
--   benchmarks that are listed and dispatched; Runtime/Pallets.antt, the configurations of the
--   framework's pallets; Runtime/Load.antt and Runtime/Fees.antt, what the calls of a block weigh
--   and what a call costs.
-- - node/src/chain_spec.rs: ChainSpec.antt, keys of seeds, the genesis, and the two chains;
--   ChainSpec/Building.antt holds the genesis against the limits of the runtime.
-- - node/src/service.rs: Service.antt, the services as computations that add their effects to those so
--   far (Service/Effects.antt), Service/Plans with the effects that a configuration asks for, and
--   Service/Executor.antt.
-- - node/src/command.rs, node/src/cli.rs and node/src/main.rs: Command.antt, the names and the version that the
--   command line shows, and which chain and which service a run starts.
-- - node/src/rpc.rs: Rpc.antt, the methods that a full node serves.
-- The runtime hands its constants to the pallet as a `Config`, and calls the pallet's calls by
-- `dispatch` and its hook at the end of each block, which Registry/Chain.antt has as steps.
--
-- The framework's code is not in the repository. Its storage maps and its currency are records of
-- operations with the laws that their documentation states (Frame/Storage.antt, Frame/Currency.antt);
-- Frame/Maps.antt and Frame/Locks.antt fill these records by association lists, on which the tests run,
-- and Frame/Counted.antt adds counters of the writes to any that fill them.
-- The encodings, the hash and `ensure_signed` are fields of `Config`; key derivation is the record
-- `Keys`; the record `Host` says which effect of a service the framework refuses.
-- The order of an iteration over a map is left open. The macros of the benchmarks, the rpc handlers and
-- the modules behind the runtime API are records too; Frame/Configs.antt has what the framework's
-- pallets ask of a runtime, and the types and functions that a runtime answers with; these are records,
-- with laws where a theorem asks for them.
--
-- Bounds: a block number has `block_number_bits` bits and a balance `balance_bits`. `begin + period`
-- wraps, as in a build without overflow checks; where a theorem needs that it does not, it says so.
-- The product of `amount_to_lock` saturates. No definition needs fuel: the loops run over lists.
--
-- Not modelled: the checks of an extrinsic before its dispatch (signature, nonce, fee), which are
-- the framework's; the metadata and the encoding of the calls; the parsing of the command line; the
-- reads of storage, which are not counted; the handles that the services pass from one part of the
-- framework to the next; the build scripts.
pub mod Base
pub mod Frame
pub mod Registry
pub mod Weights
pub mod Mock
pub mod Runtime
pub mod ChainSpec
pub mod Service
pub mod Command
pub mod Benchmarks
pub mod Rpc
