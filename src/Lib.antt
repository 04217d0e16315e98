-- ===== src/Lib.antt =====
-- Suban: the Soroban contracts of this repository that hold money.
--
-- The repository is a hub of contracts for the Soroban host (Rust, contracts/*/src/lib.rs), with
-- shared types and errors in crates/. A client calls one function of one contract; the host checks
-- the signatures that the function asks for, and undoes everything a call did if it returns an error
-- or panics. Contracts keep their state in their instance storage and move money through token
-- contracts, which are called like any other.
--
-- Which file models what
--
--   Host         a call: it returns a value and a storage, returns an error, or panics. `do` blocks
--                follow the order of the Rust statements; `fail_if` is an early `return Err`,
--                `panic_if` a panic or a failed assertion, `require_auth` the host's check. Arithmetic
--                is that of the release profile of Cargo.toml, which panics on overflow: the tests of
--                `i128`, `u32`, `u64` and `u128` are written out. `history` is the storage after any
--                sequence of calls, each with its own ledger, time and signatures; a call that does
--                not return leaves the storage as it found it, as the host does.
--   Tokens       token contracts (SEP-41) are a parameter: a type of states, `transfer`, `mint` and
--                `balance`. Where balances matter, `IsLedger` says what a transfer and a mint that go
--                through do to them; `ledger` is an instance that meets it. `Chain` is a contract's
--                storage beside the state of the tokens.
--   Dict, Int    maps under the keys of a storage as association lists; the integers for `i128`,
--                with Rust's truncating quotient.
--   Hub          crates/hub-types/src/lib.rs and crates/hub-errors/src/lib.rs, as far as used.
--   LpToken      contracts/lp-token/src/lib.rs: LpToken is the code; Balances and Supply are about the
--                sum of the balances, Effects about a delegated transfer.
--   CpmmPool     contracts/cpmm-pool/src/lib.rs: Store, Isqrt, Pricing, Liquidity (initialize,
--                add_liquidity, remove_liquidity) and Swap (swap, get_quote) are the code; Product, Amounts,
--                Shares, Deposits, Withdrawals, Quote, Payments, Solvency and History are about it.
--   Escrow       contracts/escrow/src/lib.rs: Store, Lifecycle (from initialize to the milestones) and
--                Payout (release_funds, refund, dispute, resolve) are the code. Steps is a state machine
--                of one escrow, apart from its storage; Moves, Refinement, Request and Transitions relate
--                the two; Books, History, Finality, Custody and Recovery are about sequences of steps.
--   BridgeMultisig  contracts/bridge-multisig/src/lib.rs: Store, Proposals (propose, approve,
--                execute_proposal, the circuit breaker) and Signers (initialize and administration) are the
--                code. Voting says what a vote does, Request and Effects reduce every request to a step, and
--                Quorum, Safety, History, Finality and Payments are about sequences of steps.
--   FeeRouter    contracts/fee-router/src/lib.rs: Router is the code; Split, Routes and Configs are about it.
--   UsdcVault    contracts/usdc-vault/src/lib.rs: Vault is the code; Accounts and Reserve are about it.
--   LendingPool  contracts/lending-pool/src/lib.rs: Store, Health (health factor and oracle), Lending,
--                Collateral, Admin and Queries are the code. Rates says at which rates a position is
--                secured, Values and Factor relate the health factor to it; Books and Effects say what
--                requests write, Request lists them; Debts, Security, Positions, Protection, Return and
--                History are about requests and sequences of them.
--   StrategyVault  contracts/strategy-vault/src/lib.rs: Vault is the code; Accounts lists the requests
--                and their effects on the shares, Par and Exit are about histories and withdrawals.
--   NodeStaking  contracts/node-staking/src/lib.rs: Staking is the code; Effects lists the requests and what
--                they write and pay, Stakes, Books and History are about the stakes, Surplus about the
--                balance of the contract.
--   LiquidityMining  contracts/liquidity-mining/src/lib.rs: Farm is the code; Effects says what requests
--                write, Claims is about claims and the query for them, Tallies and History about the stakes.
--   Stableswap  contracts/stableswap/src/lib.rs: Store, Curve (the iterations for D and y), Liquidity and
--                Swap are the code; Newton and Amounts bound what they compute, Books is about deposits
--                and withdrawals, Trades about swaps and quotes, History lists the requests.
--   Backstop     contracts/backstop/src/lib.rs: Module is the code, Claims is about its claims.
--
-- Each contract has a `Store` with a field for each of its `DataKey`s, `none` or a missing entry where
-- nothing was stored, and one function for each of its functions, under the same name. Tests runs the
-- contracts on concrete inputs.
--
-- Bounds and fuel
--
--   Addresses, ledgers and symbols that are only compared are natural numbers; the symbols that the code
--   compares with a text are strings, and a deposit id is its list of bytes. Storage reads of an
--   unsigned value give a natural number, and every sum, difference and product is tested against its width
--   where it is made. The loop of `isqrt` runs on fuel, as many rounds as its argument and one more, since
--   every round lowers the estimate. The iterations of `compute_d` and `compute_y` have the 256 rounds
--   that the code allows them. Every other loop is over a list.
--
-- What is not modelled
--
--   Events, which no contract reads; the lifetimes of storage entries, which the host charges for;
--   reentrancy, which the host refuses; queries that return a stored value. The other contracts of the
--   repository, its Solidity contract, its services, its libraries for clients and its front end have
--   no module here.
pub mod Base
pub mod Int
pub mod Dict
pub mod Host
pub mod Tokens
pub mod LpToken
pub mod CpmmPool
pub mod Hub
pub mod Escrow
pub mod Backstop
pub mod BridgeMultisig
pub mod FeeRouter
pub mod UsdcVault
pub mod LendingPool
pub mod Stableswap
pub mod StrategyVault
pub mod NodeStaking
pub mod LiquidityMining
