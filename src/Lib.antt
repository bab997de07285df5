-- ===== src/Lib.antt =====
-- The warehouse platform: deposits become receipts in a ledger, receipts are split by holds, pledges and
-- seizures, and every movement is logged as an event. On it stand the services of pledges, trades, loans,
-- release requests and liens, and the service of transaction PINs and one-time codes that guards them.
--
-- The program's parts and the files that model them:
--
--   Receipt             the enums and rows of prisma/schema.prisma (Receipt, InventoryEvent) and the
--                       filter groups of src/inventory/inventory.types.ts (deriveGroup, statusesForGroup)
--   Store               the tables, the exceptions of src/inventory/inventory.types.ts, the calls of
--                       the database client that the ledger makes, and actions on the tables
--   Transaction         withSerializableTx of src/inventory/inventory.tx.ts and runIdempotent of
--                       src/inventory/inventory-ledger.service.ts
--   Suffix              baseReceiptNumber, nextSuffix, existingChildSuffixes of src/inventory/inventory.tx.ts
--   Ledger/Call         what the methods share: event, loadOrThrow's lock, byEvent, affected, assertHeld
--   Ledger/Rows         the methods that rewrite one row: approveReceipt, rejectReceipt, approveHold,
--                       release, consume, transitionPledgeToLien, transferOwnership, expire
--   Ledger/Deposit, Ledger/Partition, Ledger/Hold, Ledger/Collateral
--                       deposit; partition; hold; releasePartial, seize, transferAndRelease
--   Ledger/History      runs of the service: calls of the methods one after the other
--   Ledger/HoldCase, Ledger/HoldRuns, Ledger/HoldReplay
--                       a hold that is granted, and its repetition with the same key
--   Pledges             the tables, errors and actions of src/pledges/pledges.service.ts
--   Pledges/Encumbrance, Pledges/Create, Pledges/Decide, Pledges/Expiry
--                       getReceiptEncumbrance; createPledge; cancelPledge, acceptPledge, rejectPledge;
--                       expireStalePledges
--   Pledges/Steps, Pledges/Decisions, Pledges/Stale, Pledges/Life
--                       the statuses of pledges by the steps, the requests and the timer;
--                       Pledges/Sums: sums of the encumbrance
--   Service             actions on the tables of a service: a step answers, refuses, reads or writes;
--                       Service/Keeps, Ends, Grants, Undone: what an action keeps of the tables, leaves behind,
--                       shows when it succeeds, and undoes when it refuses, by its steps; Service/Rows and
--                       Service/Evolves: queries on a table, and how its rows change their status
--   Security            the users, codes and helpers of src/security/security.service.ts
--   Security/Otp, Security/Pin, Security/Gate
--                       requestTransactionOtp and consumeOtp; the PIN and the two-factor switch;
--                       assertTransactionAuth
--   Security/Tables, Security/Invariant, Security/Codes, Security/Once, Security/Guarded
--                       the invariant of the accounts, the text of a code, its single use, the gate
--   Desk                the tables of the services below, their refusals, their calls of the ledger and
--                       of the accounts
--   Trades              src/trades/trades.service.ts: createTrade, settleTrade, cancelTrade; Trades/Settled:
--                       a sale
--   Loans, Loans/Edit   src/loans/loans.service.ts: calculateLoan, createLoan, approveLoan, rejectLoan,
--                       repayLoan; editLoan. Loans/Schedule, Loans/Scheduled: the payments of a loan;
--                       Loans/Steps, Loans/Life: its statuses
--   Releases, Releases/Decide
--                       src/release-requests/release-requests.service.ts: createReleaseRequest,
--                       cancelReleaseRequest; approveReleaseRequest, rejectReleaseRequest
--   Releases/Force      forceReleaseLien of src/admin-liens/admin-liens.service.ts
--   Releases/Checks, Releases/Keeps, Releases/Quiet
--                       what the steps show, and what they leave alone
--   Releases/Approved, Releases/Collateral, Releases/Bounds, Releases/Life
--                       an approval; what remains of the liens; the statuses of release requests
--   Grading             scoreSample of src/grading/grading.scorer.ts; Grading/Worst: the grade it computes
--   Transaction/Fresh   a method of the ledger under a new key
--   Recon               verifyAll of src/inventory/inventory.recon.ts; Recon/Sound, Recon/Exact: when it passes
--   Balance             the invariant: ids are unique, parents are the SPLIT rows, quantities are
--                       positive, children sum up to their parent and leaves to their root
--
-- A method of the ledger is a function of a Call (what comes from outside), an ActorCtx, its arguments and
-- the tables; it returns the result or the error beside the tables. runIdempotent reads the event with the
-- key first and reconstructs the result from the tables when there is one; otherwise the work runs in a
-- transaction, whose error restores the tables. The audit reads the same tables.
-- The pledge service calls the ledger's methods and keeps two tables of its own; each call of the ledger is a
-- transaction of its own, so what it wrote stays when a later step of the request fails. The same holds for
-- the services of trades, loans, release requests and liens, with one exception that the source makes:
-- settleTrade writes the trade inside the transaction of transferAndRelease, so the trades are a table of the
-- ledger's transactions (Db in Store). createTrade and createLoan call assertTransactionAuth, and
-- approveReleaseRequest calls consumeOtp, before they call the ledger.
--
-- Parameters: what the pledge service reads from the tables of users, organisations, links and prices
-- and the answer of the check of a one-time code (Lookups in Pledges), the hashes, random numbers and
-- the mail queue of the security service (Crypto and Moment in Security; randomInt(0, max) is taken to
-- answer a number below max, IsRandomInt in Security/Codes), the arithmetic of JavaScript numbers in
-- loans (Floats in Desk) and in the scorer (Measures in Grading), what the other services read from
-- the tables of users, financiers and assignments, and the number that a Float column holds for a
-- decimal (Outside in Desk), the ids of new rows, the clock, the number of a deposit that names none,
-- and `column`, the rounding of a quantity that the NUMERIC column of the database makes. Quantities
-- are integers in a unit small enough for every value that occurs. The one law of `column` that is
-- used is that the difference of two values that it keeps is kept too (IsColumn in Balance);
-- quantities of requests are taken to be values that it keeps. A transaction is one step, as
-- SERIALIZABLE isolation promises, and an error restores the tables from before it, as the database
-- client documents; the list `aborted` of a call names the tables that other transactions leave while
-- an attempt is aborted, so interleavings are orders of these steps. The retries are those of the
-- source, three, and no other loop needs a bound: all recursion is on lists, on the number of padding
-- zeros or of grades, and on fuel for the digits of a number, which n + 1 rounds are enough for since
-- each divides it by ten.
--
-- Not modelled: sleep and backoff, the search for error codes in the text of an error, the texts of
-- messages and masked addresses, notifications and the log of activities, createdAt and updatedAt, the
-- deprecated columns of a receipt, lists and projections, reconcileRoot, withdrawals and the other services
-- that call the ledger, queries, controllers, authentication, files and email.
pub mod Prelude
pub mod Receipt
pub mod Store
pub mod Suffix
pub mod Transaction
pub mod Balance
pub mod Ledger
pub mod Service
pub mod Security
pub mod Pledges
pub mod Recon
pub mod Samples
pub mod Tests
pub mod TestsPledges
pub mod Desk
pub mod Trades
pub mod Loans
pub mod Releases
pub mod Grading
pub mod TestsSecurity
pub mod TestsDesk
pub mod TestsGrading
