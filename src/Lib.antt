-- ===== src/Lib.antt =====
-- The Solana Yield Adapter Standard: a dispatcher program that keeps a registry of adapters and
-- routes deposits, withdrawals and value queries to them, and the adapters, each of which turns a
-- routed call into one instruction of a lending, perpetuals or insurance protocol.
--
-- The parts and their files:
-- - Types, Solana: error codes, events and account records of every program (error.rs, event.rs,
--   state/*.rs), and what Solana and Anchor provide: keys, accounts, instructions, results with
--   `?`, the world that an instruction reads and writes, and Anchor's account checks, which take
--   and load the accounts one after the other. A public key is the number that its 32 bytes spell.
--   A world holds the dispatcher's adapters and registries by address (any other account shows in
--   its owner, lamports and data alone), the return data, and the events, the newest first. A
--   handler that fails leaves no world, since the runtime rolls the transaction back; an index or a
--   slice out of range is the error `panic`.
-- - Interface: crates/yield-adapter-interface/src/lib.rs (DepositArgs, WithdrawArgs,
--   AdapterStatus, set_return_u64, read_return_u64, the discriminators); Interface/Layout is
--   layout.rs. Interface/Status, ReturnData and Reads are about the encodings.
-- - Dispatcher: programs/dispatcher/src. State is constants.rs and state/, the other files beside
--   it are the six instructions, each with `try_accounts` (the `#[derive(Accounts)]` struct), the
--   handler's parts under their Rust names, and `process`, the two in sequence. Dispatcher/Outcomes
--   has a decision table for each of the six, its checks in order and the error of each;
--   Dispatcher/Routing is about the three routing instructions, Dispatcher/Lifecycle about
--   sequences of the six, Dispatcher/Directory about the accounts as a directory of adapters by
--   program and authority, and Dispatcher/Transactions about runs of whole transactions, which take
--   effect together or are rolled back.
-- - Adapters: programs/kamino-adapter, marginfi-adapter, jupiter-adapter, maple-adapter,
--   drift-adapter and mock-adapter. Each of the first five has Deposit, Withdraw and CurrentValue
--   for its three instructions; Deposits, Withdrawals and Values set them against tables of
--   requests that are written independently of the code, with the bytes of the discriminators
--   spelled out. Adapters/Standard is the interface that docs/adapter-standard.md asks of an
--   adapter, as operations with laws; the Standard file of each adapter fills it, and
--   Adapters/Venue collects the five.
-- - Integration: calls that go through the dispatcher into an adapter and its protocol. Deployment
--   says what it is for an adapter to be on the chain, Routed follows a call through any of the
--   five adapters, Mock through the mock adapter, Amounts follows the amount of a call, Limits
--   sends messages of the Maple adapter both ways, and Privileges sets the calls against the
--   runtime's rules on accounts, signatures and writes.
-- - Tests: concrete runs.
--
-- Parameters, for code outside the repository, with what is assumed of them:
-- - `Chain`: program-derived addresses, the clock and the creation of accounts by the system
--   program. `FindsByBump` says that the bump which find_program_address returns derives the
--   address which it returns; `CollisionFree` that seeds which differ as bytes, written one behind
--   the other, lead to different addresses of the dispatcher.
-- - `Invoke`: cross-program invocation. `KeepsAccounts` says that an invoked program leaves the
--   dispatcher's accounts alone (ownership, and no reentrancy); `Runs` says that the runtime runs
--   the program's entry point on the metas' merged privileges, with cleared return data.
-- - `to_vec` and `decode`: Borsh. `DepositLayout` and `WithdrawLayout` state its encoding of the
--   arguments; `Decodes` that what was encoded is decoded.
-- - `entry`: an adapter's entry point, which Anchor generates. `Deployed` (and `Answers` and
--   `Deposits` for one instruction) says that on an instruction's discriminator, with the arguments
--   as Borsh encodes them behind it, the instruction runs.
-- - `available_liquidity` (the reserve of klend_interface) and `token_amount` (Anchor's load of an
--   SPL token account), of which nothing is assumed.
--
-- Integers are natural numbers with the width written out where the source truncates or checks
-- it. Reads take the data's length to be below 2^64, as a `usize` is. The one loop of the programs
-- is a map over the remaining accounts, so there is no fuel. `IsDecoded` bounds the arguments of a
-- registration as their Borsh types do.
--
-- The checks that Anchor generates from the account structs are written out in Solana/Anchor, in
-- the order and with the error codes that Anchor documents.
--
-- Not modelled: the bytes of the dispatcher's own accounts (Anchor's serialisation), transfers of
-- lamports, rent and compute limits, logs by `msg!`, the TypeScript tests, the scripts and the
-- migrations.
pub mod Prelude
pub mod Solana
pub mod Types
pub mod Interface
pub mod Dispatcher
pub mod Adapters
pub mod Integration
pub mod Tests
