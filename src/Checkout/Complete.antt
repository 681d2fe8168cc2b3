-- ===== src/Checkout/Complete.antt =====
-- `complete` of checkout.service.ts: a collected payment is turned into passes, or into a refund.
use Prim.Native.String.{String}
use gathergo_backend.Base.{
  ℕ, Bool, true, false, Option, none, some, List, ◌==◌, if◌then◌else◌, Result, ok, err, throw_if,
  or_throw, ◌>>=◌, ◌>>◌, find, update_first,
}
use gathergo_backend.Pricing.Summary.{PricingSummary}
use gathergo_backend.Pricing.Recorded.{JsonValue}
use gathergo_backend.Checkout.{
  TransactionStatus, success, refund_required, refunded, SettlementStatus, held_risk,
  settlement_failed, RiskStatus, clear, lapsed, cancelled, Sponsorship, pending_assignment,
  Reservation, RefundReason, amount_differs, checkout_cancelled, unavailable, Refund, Transaction,
  FulfillmentKey, Db, CheckoutError, checkout_not_found, unique_violation, is_unavailable, is_held,
  has_id,
}
use gathergo_backend.Checkout.Inventory.{lock_checkout_event}
use gathergo_backend.Checkout.Issuance.{PlanItem, issue}
use gathergo_backend.Checkout.Capacity.{assert_capacity}

-- A provider reference that is left out keeps the stored one.
pub record CollectedCheckoutInput : Type 0 where
  pub transaction_id : ℕ
  pub amount_kobo : ℕ
  pub provider_reference : Option (Option String)
  pub provider_transaction_id : Option String
  pub provider_payload : JsonValue
  pub provider_fee_kobo : ℕ
  pub settlement_status : SettlementStatus
  pub pricing : PricingSummary

abbrev pub is_settled : TransactionStatus → Bool
is_settled success = true
is_settled refund_required = true
is_settled refunded = true
is_settled _ = false

abbrev pub is_cancelled : Option Reservation → Bool
is_cancelled none = false
is_cancelled (some r) = elim r.status [ cancelled ↦ true | _ ↦ false ]

-- The two tests of the reason, the later one last.
unfoldable pub first_reason : Transaction → (amount_kobo : ℕ) → Option RefundReason
first_reason t amount_kobo =
    if is_cancelled t.reservation
    then some checkout_cancelled
    else if t.amount == amount_kobo
    then none
    else some amount_differs

pub data Outcome : Type 0 where
  fulfil : List PlanItem → Outcome
  give_back : RefundReason → Outcome

-- The `try` around `assertCapacity`: only a lack of capacity is caught.
abbrev pub catch_unavailable : Result CheckoutError (List PlanItem) → Result CheckoutError Outcome
catch_unavailable (ok plan) = ok (fulfil plan)
catch_unavailable (err e) = if is_unavailable e then ok (give_back (unavailable e)) else err e

abbrev pub judge_from :
    Option RefundReason → Result CheckoutError (List PlanItem) → Result CheckoutError Outcome
judge_from (some reason) plan = ok (give_back reason)
judge_from none plan = catch_unavailable plan

unfoldable pub judge :
    Db → (event_id : ℕ) → Transaction → (amount_kobo now : ℕ) → Result CheckoutError Outcome
unfolding first_reason assert_capacity
judge db event_id t amount_kobo now =
    judge_from (first_reason t amount_kobo) (assert_capacity db event_id t now false)

abbrev pub or_keep {ℓ} : {A : Type ℓ} → Option A → A → A
or_keep none old = old
or_keep (some new) old = new

-- A reservation that is HELD is EXPIRED.
abbrev pub lapse : Option Reservation → Option Reservation
lapse none = none
lapse (some r) = if is_held r.status then some (record r { status = lapsed }) else some r

unfoldable pub with_refund : CollectedCheckoutInput → RefundReason → Transaction → Transaction
with_refund input reason t = record t {
  amount = input.amount_kobo;
  platform_fee = 0;
  provider_fee = input.provider_fee_kobo;
  creator_payable = 0;
  status = refund_required;
  settlement_status = settlement_failed;
  provider_reference = or_keep input.provider_reference t.provider_reference;
  provider_payload = some input.provider_payload;
  reservation = lapse t.reservation;
  refund = some (record {
    amount_kobo = input.amount_kobo;
    reason = reason;
    provider_transaction_id = input.provider_transaction_id;
  });
}

abbrev pub is_clear : RiskStatus → Bool
is_clear clear = true
is_clear _ = false

abbrev pub assign_sponsorship : Option Sponsorship → Option Sponsorship
assign_sponsorship none = none
assign_sponsorship (some s) = some (record s { status = pending_assignment })

-- The update at the end, of the row as `issue` leaves it: the metadata is that of the record read.
unfoldable pub with_success : CollectedCheckoutInput → (now : ℕ) → Transaction → Transaction
with_success input now t = record t {
  amount = input.amount_kobo;
  platform_fee = input.pricing.platform_fee_kobo;
  provider_fee = input.pricing.provider_fee_kobo;
  creator_payable = input.pricing.creator_payable_kobo;
  metadata = record (t.metadata) {
    pricing = input.pricing;
    sponsorship = assign_sponsorship t.metadata.sponsorship;
  };
  status = success;
  settlement_status = if is_clear t.risk_status then input.settlement_status else held_risk;
  provider_reference = or_keep input.provider_reference t.provider_reference;
  provider_payload = some input.provider_payload;
  fulfilled_at = some now;
}

-- The row is written once and answered.
abbrev pub write_transaction : Db → ℕ → (Transaction → Transaction) → Db
write_transaction db id f = record db { transactions = update_first (has_id id) f db.transactions }

abbrev pub has_refund : Option Refund → Bool
has_refund none = false
has_refund (some r) = true

-- The refund's primary key is the transaction's id.
unfoldable pub settle :
    (code : FulfillmentKey → String)
    → Db
    → (event_id : ℕ) → Transaction
    → CollectedCheckoutInput
    → (now : ℕ) → Outcome
    → Result CheckoutError (Db × Transaction)
unfolding issue with_refund with_success find update_first
settle code db event_id t input now (give_back reason) = do
  throw_if (has_refund t.refund) unique_violation
  ok (write_transaction db t.id (with_refund input reason), with_refund input reason t)
settle code db event_id t input now (fulfil plan) = do
  issued ← issue code db event_id t plan now
  let done = write_transaction issued t.id (with_success input now)
  r ← or_throw (find (has_id t.id) done.transactions) checkout_not_found
  ok (done, r)

unfoldable pub complete_open :
    (code : FulfillmentKey → String)
    → Db
    → (event_id : ℕ) → Transaction
    → CollectedCheckoutInput
    → (now : ℕ) → Result CheckoutError (Db × Transaction)
unfolding judge settle
complete_open code db event_id t input now = do
  outcome ← judge db event_id t input.amount_kobo now
  settle code db event_id t input now outcome

-- The locks make the record that is read under them the one that is written.
unfoldable pub complete :
    (code : FulfillmentKey → String)
    → Db
    → CollectedCheckoutInput
    → (now : ℕ) → Result CheckoutError (Db × Transaction)
unfolding complete_open find
complete code db input now = do
  t ← or_throw (find (has_id input.transaction_id) db.transactions) checkout_not_found
  event_id ← or_throw t.event_id checkout_not_found
  event ← lock_checkout_event db event_id
  if is_settled t.status then ok (db, t) else complete_open code db event_id t input now
