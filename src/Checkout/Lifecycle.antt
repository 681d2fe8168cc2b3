-- ===== src/Checkout/Lifecycle.antt =====
-- The rest of checkout.service.ts that writes: the payment's initialization, cancelling, and the
-- expiry of holds.
use Prim.Native.String.{String}
use gathergo_backend.Base.{
  ℕ, Bool, true, false, ◌&&◌, ◌||◌, Option, none, some, map, leb, ◌==◌, if◌then◌else◌, Result, ok,
  throw_if, or_throw, ◌>>=◌, ◌>>◌, find, update_first,
}
use gathergo_backend.Pricing.Recorded.{JsonValue}
use gathergo_backend.Checkout.{
  expired, InitializationStatus, not_started, initializing, ready, initialization_failed, lapsed,
  cancelled, Reservation, Transaction, Db, CheckoutError, record_not_found, checkout_not_found,
  already_processed, is_held, is_pending, has_id,
}
use gathergo_backend.Checkout.Inventory.{lock_checkout_event}
use gathergo_backend.Checkout.Complete.{or_keep, lapse, has_refund, write_transaction}

abbrev pub is_not_started : InitializationStatus → Bool
is_not_started not_started = true
is_not_started initializing = false
is_not_started ready = false
is_not_started initialization_failed = false

abbrev pub can_claim : Transaction → Bool
can_claim t = is_not_started t.initialization_status && is_pending t.status

abbrev pub claim : ℕ → Transaction → Transaction
claim now t =
    if can_claim t
    then record t { initialization_status = initializing; initialization_started_at = some now }
    else t

abbrev pub claimed : Option Transaction → Bool
claimed none = false
claimed (some t) = can_claim t

-- The answer is whether the one row was updated.
unfoldable pub claim_initialization : Db → (id now : ℕ) → Db × Bool
unfolding find update_first
claim_initialization db id now =
    (write_transaction db id (claim now), claimed (find (has_id id) db.transactions))

-- A field that is left out keeps what is stored, but the instructions are set to null.
pub record InitializationInput : Type 0 where
  pub payment_url : Option String
  pub provider_reference : Option (Option String)
  pub provider_payload : Option JsonValue
  pub instructions : Option JsonValue

abbrev pub or_keep_payload : Option JsonValue → Option JsonValue → Option JsonValue
or_keep_payload none old = old
or_keep_payload (some new) old = some new

abbrev pub with_initialization : InitializationInput → Transaction → Transaction
with_initialization input t = record t {
  metadata = record (t.metadata) { provider_instructions = input.instructions };
  provider_reference = or_keep input.provider_reference t.provider_reference;
  provider_payload = or_keep_payload input.provider_payload t.provider_payload;
  payment_url = input.payment_url;
  initialization_status = ready;
}

unfoldable pub finish_initialization :
    Db → (id : ℕ) → InitializationInput → Result CheckoutError (Db × Transaction)
unfolding find update_first
finish_initialization db id input = do
  t ← or_throw (find (has_id id) db.transactions) record_not_found
  ok (write_transaction db id (with_initialization input), with_initialization input t)

abbrev pub fail_initialization : Transaction → Transaction
fail_initialization t =
    if is_pending t.status
    then record t {
      status = expired;
      initialization_status = initialization_failed;
      reservation = lapse t.reservation;
    }
    else record t { reservation = lapse t.reservation }

unfoldable pub initialization_fails : Db → (id : ℕ) → Db
unfolding update_first
initialization_fails db id = write_transaction db id fail_initialization

abbrev pub with_cancellation : Reservation → Transaction → Transaction
with_cancellation r t = record t {
  status = expired;
  reservation = some (record r { status = cancelled });
}

abbrev pub is_some {ℓ} : {A : Type ℓ} → Option A → Bool
is_some none = false
is_some (some a) = true

abbrev pub owned_by : (id user_id : ℕ) → Transaction → Bool
owned_by id user_id t = t.id == id && t.user_id == user_id

unfoldable pub cancel : Db → (id user_id : ℕ) → Result CheckoutError (Db × Transaction)
unfolding find update_first
cancel db id user_id = do
  t ← or_throw (find (owned_by id user_id) db.transactions) checkout_not_found
  event_id ← or_throw t.event_id checkout_not_found
  r ← or_throw t.reservation checkout_not_found
  event ← lock_checkout_event db event_id
  throw_if (is_some t.fulfilled_at || has_refund t.refund) already_processed
  ok (write_transaction db id (with_cancellation r), with_cancellation r t)

-- HELD with `expiresAt <= now`.
abbrev pub is_overdue : ℕ → Reservation → Bool
is_overdue now r = is_held r.status && leb r.expires_at now

abbrev pub has_overdue : ℕ → Option Reservation → Bool
has_overdue now none = false
has_overdue now (some r) = is_overdue now r

-- The first update of `expireHolds` writes the transactions, the second their reservations.
abbrev pub expire_status : ℕ → Transaction → Transaction
expire_status now t =
    if is_pending t.status && has_overdue now t.reservation
    then record t { status = expired }
    else t

abbrev pub lapse_overdue : ℕ → Option Reservation → Option Reservation
lapse_overdue now none = none
lapse_overdue now (some r) =
    if is_overdue now r then some (record r { status = lapsed }) else some r

abbrev pub expire_reservation : ℕ → Transaction → Transaction
expire_reservation now t = record t { reservation = lapse_overdue now t.reservation }

unfoldable pub expire_holds : Db → (now : ℕ) → Db
expire_holds db now = record db {
  transactions = map (expire_reservation now) (map (expire_status now) db.transactions);
}
