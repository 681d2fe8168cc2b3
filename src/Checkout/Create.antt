-- ===== src/Checkout/Create.antt =====
-- `validateQuantity`, `findReplay` and `create` of checkout.service.ts.
use Prim.Native.String.{String}
use text.Mathlib.Text.{◌==◌ as str_eq}
use gathergo_backend.Base.{
  ℕ, ◌+◌, ◌-◌, ◌*◌, ◌^◌, Bool, true, false, not, ◌&&◌, ◌||◌, Option, none, some, List, [], ◌∷◌,
  ◌++◌, ltb, ◌==◌, if◌then◌else◌, Result, ok, err, throw_if, or_throw, ◌>>=◌, ◌>>◌, any, find,
  update_first,
}
use gathergo_backend.Pricing.Fees.{PaymentProvider}
use gathergo_backend.Checkout.{
  PaymentType, TransactionStatus, success, not_started, ready, SettlementStatus, RiskStatus,
  PurchasedTicketItem, CheckoutMetadata, checkout_ticket_items, ReservationItem, held, Transaction,
  FulfillmentKey, Db, CheckoutError, invalid_key, bad_quantity, key_reused, record_not_found,
  active_checkout, unique_violation, is_ticket, has_id,
}
use gathergo_backend.Checkout.Inventory.{lock_checkout_event, holds_now, is_event}
use gathergo_backend.Checkout.Issuance.{PlanItem, issue}
use gathergo_backend.Checkout.Capacity.{assert_capacity}

-- The service's configuration, and what it takes from libraries: the test of the key's form
-- (`isUUID`), and the random code that is drawn for a new ticket or registration.
pub record Config : Type 0 where
  pub hold_seconds : ℕ
  pub max_tickets : ℕ
  pub is_uuid : String → Bool
  pub code : FulfillmentKey → String

abbrev pub total_quantity : List PurchasedTicketItem → ℕ
total_quantity [] = 0
total_quantity (i ∷ items) = i.quantity + total_quantity items

abbrev pub is_bad_item : PurchasedTicketItem → Bool
is_bad_item i = ltb (2 ^ 53 - 1) i.quantity || ltb i.quantity 1

abbrev pub is_empty : List PurchasedTicketItem → Bool
is_empty [] = true
is_empty (i ∷ items) = false

unfoldable pub validate_quantity :
    (max_tickets : ℕ) → List PurchasedTicketItem → Result CheckoutError (Unit {0})
unfolding any
validate_quantity max_tickets items =
    throw_if (is_empty items || any is_bad_item items || ltb max_tickets (total_quantity items))
      bad_quantity

abbrev pub eq_text : Option String → String → Bool
eq_text none s = false
eq_text (some t) s = str_eq t s

-- The unique key of a checkout: the user with the idempotency key.
abbrev pub has_checkout_key : (user_id : ℕ) → (key : String) → Transaction → Bool
has_checkout_key user_id key t = t.user_id == user_id && eq_text t.idempotency_key key

abbrev pub same_request : String → Transaction → Result CheckoutError Transaction
same_request hash t = if eq_text t.request_hash hash then ok t else err key_reused

-- `findReplay`, where no record is no error.
abbrev pub replay_of : String → Option Transaction → Result CheckoutError (Option Transaction)
replay_of hash none = ok none
replay_of hash (some t) = same_request hash t >>= λ t. ok (some t)

unfoldable pub find_replay :
    Config → Db → (user_id : ℕ) → (key hash : String) → Result CheckoutError (Option Transaction)
unfolding find
find_replay config db user_id key hash = do
  throw_if (not (config.is_uuid key)) invalid_key
  replay_of hash (find (has_checkout_key user_id key) db.transactions)

pub record CheckoutData : Type 0 where
  pub amount : ℕ
  pub platform_fee : ℕ
  pub provider_fee : ℕ
  pub creator_payable : ℕ
  pub status : TransactionStatus
  pub settlement_status : SettlementStatus
  pub risk_status : RiskStatus

pub record CreateCheckoutInput : Type 0 where
  pub user_id : ℕ
  pub event_id : ℕ
  pub idempotency_key : String
  pub request_hash : String
  pub payment_type : PaymentType
  pub provider : PaymentProvider
  pub metadata : CheckoutMetadata
  pub fields : CheckoutData

-- `transactionReference.create`, with the schema's defaults; the database gives the id.
abbrev pub new_transaction : CreateCheckoutInput → ℕ → Transaction
new_transaction input id = record {
  id = id;
  user_id = input.user_id;
  event_id = some input.event_id;
  amount = input.fields.amount;
  platform_fee = input.fields.platform_fee;
  provider_fee = input.fields.provider_fee;
  creator_payable = input.fields.creator_payable;
  metadata = input.metadata;
  status = input.fields.status;
  payment_provider = input.provider;
  payment_type = input.payment_type;
  settlement_status = input.fields.settlement_status;
  risk_status = input.fields.risk_status;
  provider_reference = none;
  provider_payload = none;
  fulfilled_at = none;
  idempotency_key = some input.idempotency_key;
  request_hash = some input.request_hash;
  payment_url = none;
  initialization_status = not_started;
  initialization_started_at = none;
  reservation = none;
  refund = none;
  has_job = false;
}

-- A checkout of the user for the event that holds its reservation.
abbrev pub is_active_checkout : (user_id event_id now : ℕ) → Transaction → Bool
is_active_checkout user_id event_id now t =
    t.user_id == user_id
    && is_event t.event_id event_id
    && elim t.reservation [ none ↦ false | some r ↦ holds_now now r ]

abbrev pub assert_no_active : Option Transaction → Result CheckoutError (Unit {0})
assert_no_active none = ok tt
assert_no_active (some t) = err (active_checkout t.id)

abbrev pub reserve_items : List PlanItem → List ReservationItem
reserve_items [] = []
reserve_items (p ∷ plan) =
    record { event_ticket_id = p.event_ticket_id; quantity = p.quantity_to_issue }
    ∷ reserve_items plan

abbrev pub is_for : ℕ → PlanItem → Bool
is_for event_ticket_id p = p.event_ticket_id == event_ticket_id

-- The reservation's items are unique in their event ticket.
unfoldable pub repeats_ticket : List PlanItem → Bool
unfolding any
repeats_ticket [] = false
repeats_ticket (p ∷ plan) = any (is_for p.event_ticket_id) plan || repeats_ticket plan

abbrev pub with_hold : (expires_at : ℕ) → List PlanItem → Transaction → Transaction
with_hold expires_at plan t = record t {
  reservation =
      some (record { status = held; expires_at = expires_at; items = reserve_items plan });
}

abbrev pub with_free_success : ℕ → Transaction → Transaction
with_free_success now t = record t {
  status = success;
  fulfilled_at = some now;
  initialization_status = ready;
}

-- The last read of the record.
abbrev pub answer : Db → ℕ → Result CheckoutError (Db × Transaction)
answer db id = or_throw (find (has_id id) db.transactions) record_not_found >>= λ t. ok (db, t)

-- A checkout with nothing to pay is issued at once.
unfoldable pub finish_create :
    Config
    → Db
    → CreateCheckoutInput
    → (now id : ℕ) → List PlanItem
    → Result CheckoutError (Db × Transaction)
unfolding issue find update_first
finish_create config db input now id plan =
    let paid = ltb 0 input.fields.amount in
    let expires_at = now + (if paid then config.hold_seconds * 1000 else 0) in
    let reserved : Db = record db {
      transactions = update_first (has_id id) (with_hold expires_at plan) db.transactions;
    } in
    if paid then answer reserved id else (do
      let t = with_hold expires_at plan (new_transaction input id)
      issued ← issue config.code reserved input.event_id t plan now
      answer
          (record issued {
            transactions = update_first (has_id id) (with_free_success now) issued.transactions;
          })
          id)

-- `create` once no replay is found.
unfoldable pub create_new :
    Config → Db → CreateCheckoutInput → (now id : ℕ) → Result CheckoutError (Db × Transaction)
unfolding finish_create assert_capacity repeats_ticket find
create_new config db input now id = do
  event ← lock_checkout_event db input.event_id
  assert_no_active (find (is_active_checkout input.user_id input.event_id now) db.transactions)
  let t = new_transaction input id
  let opened : Db = record db { transactions = db.transactions ++ t ∷ [] }
  plan ← assert_capacity opened input.event_id t now true
  throw_if (repeats_ticket plan) unique_violation
  finish_create config opened input now id plan

abbrev pub check_items : Config → CreateCheckoutInput → Result CheckoutError (Unit {0})
check_items config input =
    if is_ticket input.payment_type
    then validate_quantity config.max_tickets (checkout_ticket_items input.metadata)
    else ok tt

abbrev pub create_or_replay :
    Config
    → Db
    → CreateCheckoutInput
    → (now id : ℕ) → Option Transaction
    → Result CheckoutError (Db × Transaction)
create_or_replay config db input now id none = create_new config db input now id
create_or_replay config db input now id (some t) =
    same_request input.request_hash t >>= λ t. ok (db, t)

unfoldable pub create :
    Config → Db → CreateCheckoutInput → (now id : ℕ) → Result CheckoutError (Db × Transaction)
unfolding validate_quantity create_new find
create config db input now id = do
  throw_if (not (config.is_uuid input.idempotency_key)) invalid_key
  check_items config input
  create_or_replay config db input now id
      (find (has_checkout_key input.user_id input.idempotency_key) db.transactions)
