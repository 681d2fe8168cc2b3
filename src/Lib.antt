-- ===== src/Lib.antt =====
-- A model of the core of the GatherGo backend: what a checkout charges, how it holds, sells and refunds
-- places, how creators are paid out, how volunteers fill roles, and how food banks hand out meals.
--
-- Parts and files
--   Pricing: src/modules/transaction-reference/payment-pricing.util.ts. Fees has the fee rules and their
--     bearers (calculatePlatformFeeKobo, getProviderFeeRule, estimateProviderFeeKobo, ...), Summary the
--     charge and buildPricingSummary, Config getCheckoutPricingConfig, Recorded the four resolvers of a
--     payment's stored figures. Estimate, Convergence, Totals and Recorded/Laws hold the proofs.
--   Checkout: src/modules/checkout. Inventory is checkout-inventory.ts; Create, Complete, Lifecycle and
--     Capacity are checkout.service.ts (create and findReplay; complete; claimInitialization,
--     finishInitialization, initializationFailed, cancel and expireHolds; assertCapacity). Issuance is
--     its private issue with planIssuance and issue of src/modules/ticket/ticket.service.ts and issue of
--     src/modules/registration/registration.service.ts. Edits has the quantity edits of
--     src/modules/event-ticket/event-ticket.service.ts and src/modules/event/event.service.ts.
--     Settlement, Replay, Exact, Keys, Holds and Cancelled hold proofs on single calls, Stock the
--     invariant of the stock.
--   Volunteer: src/modules/volunteer. Summary is volunteer.util.ts, Service and Progress are
--     volunteer.service.ts. Capacity, Updates, Statuses and Totals hold the proofs.
--   FoodBank: src/modules/food-bank. Windows is collection-windows.ts, Policy collection-policy.ts,
--     Service food-bank.service.ts. Passes and Search hold the proofs.
--     Settings is food-bank-settings.ts, and Seats and Room hold its proof.
--   Wallet: src/modules/wallet/service/wallet.service.ts. Standing is backfillCreatorTransactions and
--     resetUnsuccessfulSettlementStatuses, Release syncCreatorSettlementStatus and
--     applyBasicKycSettlementCap, Settle and Create createSettlement and completeSettlement, Kyc the
--     statuses of a verification, Names evaluateSettlementNameMatch. Ledger, Reach, Cap, Kyc/Approval and
--     Names/Symmetry hold the proofs.
--   Worker: src/modules/checkout/checkout.worker.ts, and confirmManualRefund of
--     src/modules/transaction-reference/transaction-reference.service.ts. Jobs is deliverConfirmations,
--     Refunds processRefunds and manual. Once, Runs, Proof and Delivery hold the proofs.
--   Badges: src/modules/badge. The catalog, Progress (badge-progress.ts) and Service (badge.service.ts);
--     Awards and Reconciled hold the proofs.
--   RateLimit: src/common/guards/rate-limit.guard.ts, with its proofs in Window.
--   Base: results and tables, which all parts share. Each part has its Tests.
--
-- How they interact: a checkout carries a PricingSummary in its metadata, and what `complete` stores is
-- read back by the resolvers of Recorded. Issuing, cancelling, quantity edits and volunteer and food
-- bank calls all lock the row of the event first, so the calls on one event run one after another; a
-- handler is a function from the database to an error or the new database with its answer, and a
-- history is a list of such calls. The settlement of a payment reads its stored figures by the resolvers
-- of Recorded. A settlement's creation writes before its transaction, so there a call is a function from
-- the database to the database with an answer or an error (Base/Calls). Workers that run side by side
-- share the rows: their claims compare what was read with what stands, and a history interleaves claims,
-- submissions and writes in any order; the outcome of a settlement is recorded for any earlier reading.
--
-- State: a database is a record of tables, a table a list of rows, or a function from an id where only
-- one row is read or written. A call that throws changes nothing, as a transaction rolls back. Ids and
-- times are natural numbers, amounts whole kobo, rates whole basis points; where the source takes a
-- difference that may be negative the guard is written as a comparison of sums. A transaction's row
-- holds its reservation, refund and whether it has a fulfilment job, whose keys are its id.
--
-- Bounds and fuel: the charge loop has the source's twelve attempts; Pricing/Convergence is about
-- whether it has settled by then. The search for a collection window has as fuel the milliseconds
-- between its first start and the event's end: every step moves on by at least one, so the loop ends
-- before the fuel does.
-- The settings hold a window length of at least five minutes.
--
-- The back-off of a delivery is a power of two with an exponent of at most seven.
--
-- Parameters for code that is not here: the answers of the payment provider to a worker, what a delivery
-- throws, the text of a number or a time, the queries of what a user has done, the random code of a ticket, the test of an idempotency key's
-- form, the rounding of a percentage, the calendar of a time zone, new ids, and the time of a call.
--
-- Not modelled: the profiles of creators and the providers of identities and payments, donations, the
-- scanner, carpools, feeds and search, users and authentication, dashboards, messages and mail; the
-- read-only listings and the format of answers; environment values that are not whole numbers; the
-- constant texts of answers; the percentage of a badge, which is a quotient in floating point; the
-- normalization of names by regular expressions; a clash of two random codes.
pub mod Base
pub mod Pricing
pub mod Volunteer
pub mod Checkout
pub mod FoodBank
pub mod Wallet
pub mod Worker
pub mod Badges
pub mod RateLimit
