-- ===== src/Checkout.antt =====
-- Checkout of tickets and registrations: modules/checkout, with the parts of modules/ticket and
-- modules/registration that it calls inside its transactions. The rows of the database that they read
-- and write. Ids are numbers and times are milliseconds. A reservation, a refund and a fulfilment job
-- have the transaction's id for their primary key, so they stand in the transaction's row.
pub mod Inventory
pub mod Issuance
pub mod Capacity
pub mod Create
pub mod Complete
pub mod Lifecycle
pub mod Edits
pub mod Settlement
pub mod Holds
pub mod Keys
pub mod Cancelled
pub mod Replay
pub mod Exact
pub mod Stock
mod Tests
use Prim.Native.String.{String}
use gathergo_backend.Base.{ℕ, Bool, true, false, ◌||◌, Option, none, some, List, ◌++◌, map, ◌==◌}
use gathergo_backend.Pricing.Fees.{PaymentProvider}
use gathergo_backend.Pricing.Summary.{PricingSummary}
use gathergo_backend.Pricing.Recorded.{JsonValue}
use gathergo_backend.Volunteer.{RegistrationType}

pub data PaymentType : Type 0 where
  ticket registration donation : PaymentType

pub data TransactionStatus : Type 0 where
  success pending failed awaiting_transfer expired refund_required refunded : TransactionStatus

pub data ReservationStatus : Type 0 where
  held confirmed lapsed cancelled : ReservationStatus

pub data InitializationStatus : Type 0 where
  not_started initializing ready initialization_failed : InitializationStatus

pub data SettlementStatus : Type 0 where
  not_ready held_kyc held_risk settlement_ready processing settled settlement_failed :
      SettlementStatus

pub data RiskStatus : Type 0 where
  clear review hold blocked : RiskStatus

pub record Event : Type 0 where
  pub creator_id : ℕ
  pub end_date : ℕ
  pub registration_type : RegistrationType
  pub registration_attendees : Option ℕ
  pub registration_fee : Option ℕ

-- `price_kobo` is `Math.round((updatedPrice ?? price) * 100)`.
pub record EventTicket : Type 0 where
  pub event_id : ℕ
  pub price_kobo : ℕ
  pub quantity : ℕ
  pub sold : ℕ
  pub is_visible : Bool

pub record PurchasedTicketItem : Type 0 where
  pub event_ticket_id : ℕ
  pub quantity : ℕ
  pub ticket_name : String

pub record PaidTicketItem : Type 0 where
  pub item : PurchasedTicketItem
  pub total_price_kobo : ℕ

pub data SponsorshipStatus : Type 0 where
  pending_payment pending_assignment : SponsorshipStatus

pub record Sponsorship : Type 0 where
  pub sponsorship_note : Option String
  pub status : SponsorshipStatus

-- A list that is left out is empty. A sponsorship has the beneficiary type SPONSORED. The texts and the
-- client's context, which no operation here reads, are left out.
pub record CheckoutMetadata : Type 0 where
  pub pricing : PricingSummary
  pub paid_tickets : List PaidTicketItem
  pub free_tickets : List PurchasedTicketItem
  pub provider_instructions : Option JsonValue
  pub sponsorship : Option Sponsorship

abbrev pub checkout_ticket_items : CheckoutMetadata → List PurchasedTicketItem
checkout_ticket_items metadata = map (λ p. p.item) metadata.paid_tickets ++ metadata.free_tickets

pub record ReservationItem : Type 0 where
  pub event_ticket_id : ℕ
  pub quantity : ℕ

pub record Reservation : Type 0 where
  pub status : ReservationStatus
  pub expires_at : ℕ
  pub items : List ReservationItem

pub data CheckoutError : Type 0 where
  invalid_key bad_quantity key_reused event_not_found record_not_found : CheckoutError
  checkout_not_found already_processed unique_violation : CheckoutError
  active_checkout : ℕ → CheckoutError
  no_registrations registration_price_changed no_tickets needs_review : CheckoutError
  wrong_event_ticket ticket_price_changed : CheckoutError
  event_ended already_registered registration_full not_on_sale sold_out : CheckoutError

-- The errors of the class `CapacityUnavailableException`.
abbrev pub is_unavailable : CheckoutError → Bool
is_unavailable event_ended = true
is_unavailable already_registered = true
is_unavailable registration_full = true
is_unavailable not_on_sale = true
is_unavailable sold_out = true
is_unavailable _ = false

pub data RefundReason : Type 0 where
  amount_differs checkout_cancelled : RefundReason
  unavailable : CheckoutError → RefundReason

pub record Refund : Type 0 where
  pub amount_kobo : ℕ
  pub reason : RefundReason
  pub provider_transaction_id : Option String

-- A `TransactionReference` with its reservation, its refund and whether it has a fulfilment job.
pub record Transaction : Type 0 where
  pub id : ℕ
  pub user_id : ℕ
  pub event_id : Option ℕ
  pub amount : ℕ
  pub platform_fee : ℕ
  pub provider_fee : ℕ
  pub creator_payable : ℕ
  pub metadata : CheckoutMetadata
  pub status : TransactionStatus
  pub payment_provider : PaymentProvider
  pub payment_type : PaymentType
  pub settlement_status : SettlementStatus
  pub risk_status : RiskStatus
  pub provider_reference : Option String
  pub provider_payload : Option JsonValue
  pub fulfilled_at : Option ℕ
  pub idempotency_key : Option String
  pub request_hash : Option String
  pub payment_url : Option String
  pub initialization_status : InitializationStatus
  pub initialization_started_at : Option ℕ
  pub reservation : Option Reservation
  pub refund : Option Refund
  pub has_job : Bool

-- `${transaction.id}:${eventTicketId}:${n}`: the ids hold no colon, so the parts can be read back.
pub record FulfillmentKey : Type 0 where
  pub transaction_id : ℕ
  pub event_ticket_id : ℕ
  pub number : ℕ

pub record Ticket : Type 0 where
  pub event_ticket_id : ℕ
  pub user_id : ℕ
  pub transaction_id : ℕ
  pub qr_code : String
  pub fulfillment_key : Option FulfillmentKey

-- `is_active`: the status is the text `active`.
pub record Registration : Type 0 where
  pub event_id : ℕ
  pub user_id : ℕ
  pub transaction_id : ℕ
  pub qr_code : String
  pub is_active : Bool

-- Events and event tickets are keyed by their ids.
pub record Db : Type 0 where
  pub events : ℕ → Option Event
  pub event_tickets : ℕ → Option EventTicket
  pub transactions : List Transaction
  pub tickets : List Ticket
  pub registrations : List Registration

abbrev pub is_held : ReservationStatus → Bool
is_held held = true
is_held confirmed = false
is_held lapsed = false
is_held cancelled = false

abbrev pub is_confirmed : ReservationStatus → Bool
is_confirmed held = false
is_confirmed confirmed = true
is_confirmed lapsed = false
is_confirmed cancelled = false

abbrev pub is_registration : PaymentType → Bool
is_registration ticket = false
is_registration registration = true
is_registration donation = false

abbrev pub is_ticket : PaymentType → Bool
is_ticket ticket = true
is_ticket registration = false
is_ticket donation = false

-- PENDING or AWAITING_TRANSFER.
abbrev pub is_pending : TransactionStatus → Bool
is_pending pending = true
is_pending awaiting_transfer = true
is_pending _ = false

abbrev pub is_sponsored : CheckoutMetadata → Bool
is_sponsored metadata = elim metadata.sponsorship [ none ↦ false | some s ↦ true ]

abbrev pub has_id : ℕ → Transaction → Bool
has_id id t = t.id == id
