-- ===== src/Wallet.antt =====
-- The wallet's settlements: modules/wallet/service/wallet.service.ts. The rows of the database that
-- they read and write: payments with the creator of their event, payout profiles by the creator's id
-- with the metadata of their verification, settlement records by id, and allocations. Ids are numbers,
-- times milliseconds and amounts whole kobo, natural numbers.
pub mod Standing
pub mod Release
pub mod Settle
pub mod Create
pub mod Ledger
pub mod Reach
pub mod Cap
pub mod Kyc
pub mod Names
mod Tests
use Prim.Native.String.{String}
use text.Mathlib.Text.{◌==◌ as str_eq}
use gathergo_backend.Base.{
  ℕ, Bool, true, false, not, ◌&&◌, ◌||◌, Option, none, some, List, map, ◌==◌, if◌then◌else◌, any,
}
use gathergo_backend.Pricing.Recorded.{RecordedPayment, RecordedKey, JsonValue}
use gathergo_backend.Checkout.{
  TransactionStatus, SettlementStatus, settlement_ready, settled, RiskStatus, clear,
}

-- A `TransactionReference` as the wallet reads it. The type of the payment and the texts, which no
-- operation here reads, are left out.
pub record Payment : Type 0 where
  pub id : ℕ
  pub created_at : ℕ
  pub creator_id : Option ℕ
  pub event_creator_id : Option ℕ
  pub recorded : RecordedPayment
  pub status : TransactionStatus
  pub settlement_status : SettlementStatus
  pub risk_status : RiskStatus
  pub settled_at : Option ℕ

pub data ProfileStatus : Type 0 where
  not_started account_provided account_verified pending_kyc : ProfileStatus
  review_required active rejected restricted : ProfileStatus

pub record PayoutProfile : Type 0 where
  pub status : ProfileStatus
  pub bank_name : Option String
  pub account_name : Option String
  pub account_number : Option String
  pub metadata : JsonValue
  pub verification_metadata : Option JsonValue

pub data SettlementRecordStatus : Type 0 where
  pending processing success failed cancelled : SettlementRecordStatus

-- The reference, the destination and the note of an outcome, which no operation reads, are left out.
pub record SettlementRecord : Type 0 where
  pub creator_id : ℕ
  pub amount : ℕ
  pub status : SettlementRecordStatus
  pub processed_at : Option ℕ

pub record Allocation : Type 0 where
  pub settlement_id : ℕ
  pub payment_id : ℕ
  pub amount : ℕ

pub record Db : Type 0 where
  pub payments : List Payment
  pub profiles : ℕ → Option PayoutProfile
  pub settlements : ℕ → Option SettlementRecord
  pub allocations : List Allocation

pub data WalletError : Type 0 where
  account_disabled change_password admin_required : WalletError
  profile_not_found profile_not_active destination_incomplete bad_expectation : WalletError
  nothing_ready eligibility_changed payment_changed : WalletError
  settlement_not_found not_reversible settlement_changed : WalletError
  invalid_pricing : RecordedKey → WalletError

abbrev pub is_active : ProfileStatus → Bool
is_active active = true
is_active _ = false

abbrev pub is_success : TransactionStatus → Bool
is_success TransactionStatus.success = true
is_success _ = false

abbrev pub is_clear : RiskStatus → Bool
is_clear clear = true
is_clear _ = false

abbrev pub is_ready : SettlementStatus → Bool
is_ready settlement_ready = true
is_ready _ = false

abbrev pub is_settled : SettlementStatus → Bool
is_settled settled = true
is_settled _ = false

-- PROCESSING or SETTLED.
abbrev pub is_committed : SettlementStatus → Bool
is_committed SettlementStatus.processing = true
is_committed settled = true
is_committed _ = false

abbrev pub is_paid : SettlementRecordStatus → Bool
is_paid SettlementRecordStatus.success = true
is_paid _ = false

abbrev pub for_creator : ℕ → Option ℕ → Bool
for_creator creator none = false
for_creator creator (some c) = c == creator

abbrev pub of_creator : ℕ → Payment → Bool
of_creator creator p = for_creator creator p.creator_id

abbrev pub is_allocated : List Allocation → Payment → Bool
is_allocated allocations p = any (λ a. a.payment_id == p.id) allocations

abbrev pub with_settlement : SettlementStatus → Payment → Payment
with_settlement s p = record p { settlement_status = s }

-- `updateMany`.
abbrev pub update_many : (Payment → Bool) → (Payment → Payment) → List Payment → List Payment
update_many test change payments = map (λ p. if test p then change p else p) payments

abbrev pub on_payments : (List Payment → List Payment) → Db → Db
on_payments f db = record db { payments = f db.payments }
