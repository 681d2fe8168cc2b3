-- ===== src/Worker.antt =====
-- The checkout worker: modules/checkout/checkout.worker.ts, and confirmManualRefund of
-- modules/transaction-reference/transaction-reference.service.ts. The rows that several workers claim
-- from each other: fulfilment jobs and refunds, both by the transaction's id. A refund's row has the
-- provider and the refunded state of its transaction with it.
pub mod Jobs
pub mod Refunds
pub mod Once
pub mod Runs
pub mod Proof
pub mod Delivery
mod Tests
use Prim.Native.String.{String}
use gathergo_backend.Base.{
  ℕ, ◌+◌, ◌*◌, ◌^◌, min, Bool, true, false, not, ◌&&◌, ◌||◌, Option, none, some, leb, ◌==◌,
}
use gathergo_backend.Pricing.Fees.{PaymentProvider}

pub data JobStatus : Type 0 where
  pending processing completed : JobStatus

pub record FulfillmentJob : Type 0 where
  pub status : JobStatus
  pub attempts : ℕ
  pub next_attempt_at : ℕ
  pub lease_expires_at : Option ℕ
  pub last_error : Option String

pub data RefundStatus : Type 0 where
  requested processing manual_required refunded : RefundStatus

pub record Refund : Type 0 where
  pub amount_kobo : ℕ
  pub status : RefundStatus
  pub provider_transaction_id : Option String
  pub provider_refund_id : Option ℕ
  pub attempts : ℕ
  pub next_attempt_at : ℕ
  pub lease_expires_at : Option ℕ
  pub last_error : Option String
  pub confirmed_reference : Option String
  pub confirmed_at : Option ℕ
  pub payment_provider : PaymentProvider
  pub transaction_refunded : Bool

-- A lease that has run out, where `none` is null.
abbrev pub lease_over : ℕ → Option ℕ → Bool
lease_over now none = false
lease_over now (some at) = leb at now

abbrev pub no_lease : Option ℕ → Bool
no_lease none = true
no_lease (some at) = false
