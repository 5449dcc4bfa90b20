-- ===== src/Lib.antt =====
-- A model of the percolator-stake program, a Solana staking vault whose liquidity providers insure a
-- wrapper market, with the theorems on its accounting.
--
-- The program. A pool account holds counters; a vault holds the collateral. A user deposits
-- collateral for LP shares and later burns shares for collateral, in a senior or a junior tranche.
-- The admin flushes collateral to the wrapper's insurance, which is a loss until it is returned or
-- recovered; junior bears it first. A surplus of the vault over the pool's value is a fee, split by
-- weight between the tranches. A floor keeps withdrawals of an epoch from draining the pool, and a
-- timelock stands before an increase of the cooldown.
--
-- The files, with the code they model:
--   Math, Math/*            src/math.rs: LP pricing with the virtual offset (Pricing), what it
--                           guarantees (RoundTrip), mul_div_floor (MulDiv), the split of losses and
--                           fees (Tranche), the high-water-mark floor (Hwm)
--   State, State/*          src/state.rs: StakePool and StakeDeposit as records, their methods; the
--                           bytes of _reserved under the same accessors (Layout)
--   Error, Error/Codes      src/error.rs: the errors, ProgramResult with its `?`, the numbers and
--                           the texts of error_hint
--   Instruction             src/instruction.rs: StakeInstruction and unpack, with a reference
--                           encoder (Pack)
--   SplToken, SplToken/*    src/spl_token.rs: the instructions sent to the token program, with their
--                           accounts and bytes, and the unpacking of its accounts (State)
--   Cpi, Cpi/*, Bytes       src/cpi.rs: the instructions sent to the wrapper
--   Runtime                 the parameter for what is not in the repository: accounts of other
--                           programs, invoke, program addresses, the system program
--   Processor/*             src/processor.rs, one function for each handler under its own name:
--                           Deposit (process_deposit, process_deposit_junior) and Withdraw, each with
--                           its Books for the pool and the record alone, Insurance
--                           (flush, return, recover), Accrual, Config (settings and timelocks),
--                           Resolution, Init (process_init_pool and the trading pool), Authority
--                           (bind, burn, rotate), Proxies (the wrapper's fees), Entry (process, with
--                           the accounts that each handler takes), and the validators they share
--                           (Guards)
--   Solvency, Solvency/*    the invariant of the counters and its proofs, the round trips, and what
--                           one tranche can do to the other; Vault is the abstract vault of two
--                           tranches, System the handlers as steps between a pool with its records
--                           and the entry as the choice of the step, Backing the tokens in the vault
--   Tests/*                 a concrete pool, runtimes and runs; Bank is a runtime that moves balances
--                           and keeps the laws of Solvency/Backing
--
-- How the state corresponds. A handler reads the pool and the record from its accounts and returns
-- the new ones with the ledger of the other programs' accounts, or an error; an error reverts the
-- transaction, so it carries no state. A long handler is split in the order of its statements into
-- helpers that its body calls. Integers are natural numbers with the checked, saturating and
-- wrapping operations of their width; a sum that the code takes in i128 is written as the terms
-- that count for it less those that count against it, which is exact since six u64 terms fit. The
-- settings that the code keeps in `_reserved` are fields of the record. A public key is a number.
--
-- Loops. The only loop is the long division of mul_div_floor, a recursion on its 256 rounds.
--
-- Composition. A state of the system is a pool with the list of its deposit records. A step is one
-- handler that succeeds on accounts that hold the pool and one record, with any ledger and any
-- signers; a record that does not exist yet is one of zero bytes. The dispatch of process
-- (src/processor.rs) is `serve`, by the decoded instruction, and Solvency/System/Cases hands the
-- outcome of each of its arms to a property of the outcomes. The handlers that write neither pool
-- nor record (bind, the two rotations, the fee proxies, the resolution of the wrapper's market) are
-- no step of the system; they change the ledger. The dispatch takes the accounts of an instruction
-- and its clock before it calls the handler, and a zero amount is refused before that as in the code;
-- where an instruction fails for several reasons at once, the code may report another of them.
--
-- Assumptions. Solvency/Backing/Laws names what the backing relies on in other programs: a program
-- changes no account that it is not given as writable; a transfer of the token program moves its
-- amount; the system program changes no account that has data; TopUpInsurance of the percolator
-- program, the one that the pool names, takes at most its amount, and its WithdrawInsuranceAsset pays
-- its amount to an account of its signer's. Nothing of the kind is taken of another program, which is
-- what the checks of the program accounts are for. The
-- token accounts pass from one instruction to the next there, and in all other modules they are
-- arbitrary.
--
-- What is not modelled: the logs; the bytes of the account fields in front of _reserved, which the
-- code reads by a cast; src/lib.rs and src/entrypoint.rs, which are glue; kani-proofs, which are
-- tests.
pub mod Prelude
pub mod Math
pub mod Error
pub mod Bytes
pub mod State
pub mod Runtime
pub mod SplToken
pub mod Cpi
pub mod Instruction
pub mod Processor
pub mod Solvency
mod Tests
