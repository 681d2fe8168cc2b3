-- ===== src/Checkout/Capacity.antt =====
-- `assertCapacity` of checkout.service.ts: what must hold before a checkout holds or takes anything.
use gathergo_backend.Base.{
  ℕ, ◌+◌, ◌*◌, Bool, true, false, not, ◌&&◌, ◌||◌, Option, none, some, List, [], ◌∷◌, ltb, leb,
  ◌==◌, if◌then◌else◌, or_else, Result, ok, err, throw_if, or_throw, ◌>>=◌, ◌>>◌, any, find,
}
use gathergo_backend.Volunteer.{RegistrationType}
use gathergo_backend.Checkout.{
  Event, EventTicket, PaidTicketItem, checkout_ticket_items, Transaction, Registration, Db,
  CheckoutError, record_not_found, no_registrations, registration_price_changed, no_tickets,
  wrong_event_ticket, ticket_price_changed, event_ended, already_registered, registration_full,
  not_on_sale, sold_out, is_registration, is_sponsored,
}
use gathergo_backend.Checkout.Inventory.{
  reserved_ticket_quantity, registration_occupancy, books_event,
}
use gathergo_backend.Checkout.Issuance.{PlanItem, plan_issuance, registered_by}

abbrev pub takes_registrations : RegistrationType → Bool
takes_registrations RegistrationType.registration = true
takes_registrations RegistrationType.ticket = false
takes_registrations RegistrationType.donation = false
takes_registrations RegistrationType.volunteer = false
takes_registrations RegistrationType.foodbank = false

abbrev pub sells_tickets : RegistrationType → Bool
sells_tickets RegistrationType.registration = false
sells_tickets RegistrationType.ticket = true
sells_tickets RegistrationType.donation = false
sells_tickets RegistrationType.volunteer = false
sells_tickets RegistrationType.foodbank = false

abbrev pub is_full : Option ℕ → ℕ → Bool
is_full none occupied = false
is_full (some attendees) occupied = leb attendees occupied

abbrev pub books_user : (event_id user_id : ℕ) → Registration → Bool
books_user event_id user_id r = books_event event_id r && r.user_id == user_id

unfoldable pub assert_registration :
    Db
    → (event_id : ℕ) → Event
    → Transaction
    → (now : ℕ) → (check_price : Bool) → Result CheckoutError (Unit {0})
unfolding registration_occupancy any
assert_registration db event_id event t now check_price = do
  throw_if (not (is_sponsored t.metadata) && any (books_user event_id t.user_id) db.registrations)
      already_registered
  throw_if
      (is_full event.registration_attendees (registration_occupancy db event_id now (some t.id)))
      registration_full
  throw_if
      (check_price
        && not (or_else event.registration_fee 0 * 100 == t.metadata.pricing.gross_amount_kobo))
      registration_price_changed

abbrev pub is_paid_item : ℕ → PaidTicketItem → Bool
is_paid_item event_ticket_id p = p.item.event_ticket_id == event_ticket_id

-- `price !== (paidItem ? totalPriceKobo / quantity : 0)`: the quotient of whole numbers is the whole
-- price exactly where the product is the total, and with no quantity it is no number.
abbrev pub price_differs : ℕ → Option PaidTicketItem → Bool
price_differs price none = not (price == 0)
price_differs price (some p) =
    p.item.quantity == 0 || not (price * p.item.quantity == p.total_price_kobo)

-- The ticket of the event, as the first test of the loop asks.
abbrev pub ticket_of_event : ℕ → Option EventTicket → Result CheckoutError EventTicket
ticket_of_event event_id none = err wrong_event_ticket
ticket_of_event event_id (some k) = if k.event_id == event_id then ok k else err wrong_event_ticket

-- `quantity - sold - held < wanted`, where the difference may be negative.
abbrev pub lacks_stock : EventTicket → (reserved wanted : ℕ) → Bool
lacks_stock k reserved wanted = ltb k.quantity (k.sold + reserved + wanted)

unfoldable pub assert_item :
    Db
    → (event_id : ℕ) → Transaction
    → (now : ℕ) → (check_price : Bool) → PlanItem
    → Result CheckoutError (Unit {0})
unfolding reserved_ticket_quantity find
assert_item db event_id t now check_price p = do
  k ← ticket_of_event event_id (db.event_tickets p.event_ticket_id)
  throw_if (check_price && not k.is_visible) not_on_sale
  throw_if
      (lacks_stock k (reserved_ticket_quantity db.transactions p.event_ticket_id now (some t.id))
        p.quantity_to_issue)
      sold_out
  throw_if
      (check_price
        && price_differs k.price_kobo
            (find (is_paid_item p.event_ticket_id) t.metadata.paid_tickets))
      ticket_price_changed

unfoldable pub assert_items :
    Db
    → (event_id : ℕ) → Transaction
    → (now : ℕ) → (check_price : Bool) → List PlanItem
    → Result CheckoutError (Unit {0})
unfolding assert_item
assert_items db event_id t now check_price [] = ok tt
assert_items db event_id t now check_price (p ∷ plan) = do
  assert_item db event_id t now check_price p
  assert_items db event_id t now check_price plan

-- A registration that the transaction has already ends the check.
abbrev pub registration_plan :
    Db
    → (event_id : ℕ) → Event
    → Transaction
    → (now : ℕ) → (check_price : Bool) → Result CheckoutError (List PlanItem)
registration_plan db event_id event t now check_price = do
  throw_if (not (takes_registrations event.registration_type)) no_registrations
  if any (registered_by t.id) db.registrations
      then ok []
      else (assert_registration db event_id event t now check_price >> ok [])

abbrev pub ticket_plan :
    Db
    → (event_id : ℕ) → Event
    → Transaction
    → (now : ℕ) → (check_price : Bool) → Result CheckoutError (List PlanItem)
ticket_plan db event_id event t now check_price = do
  throw_if (not (sells_tickets event.registration_type)) no_tickets
  plan ← plan_issuance db.tickets t.id (checkout_ticket_items t.metadata)
  assert_items db event_id t now check_price plan
  ok plan

unfoldable pub assert_capacity :
    Db
    → (event_id : ℕ) → Transaction
    → (now : ℕ) → (check_price : Bool) → Result CheckoutError (List PlanItem)
unfolding assert_registration assert_items plan_issuance any
assert_capacity db event_id t now check_price = do
  event ← or_throw (db.events event_id) record_not_found
  throw_if (leb event.end_date now) event_ended
  if is_registration t.payment_type
      then registration_plan db event_id event t now check_price
      else ticket_plan db event_id event t now check_price
