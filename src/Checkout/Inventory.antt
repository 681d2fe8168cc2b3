-- ===== src/Checkout/Inventory.antt =====
-- checkout-inventory.ts: what is reserved and booked, and the guards of capacity edits.
use gathergo_backend.Base.{
  ℕ, ◌+◌, Bool, false, not, ◌&&◌, Option, none, some, List, [], ◌∷◌, ltb, ◌==◌, if◌then◌else◌,
  Result, throw_if, or_throw, count_if,
}
use gathergo_backend.Checkout.{
  Event, Transaction, Reservation, ReservationItem, Registration, Db, CheckoutError,
  event_not_found, is_held, is_confirmed, is_registration, is_sponsored,
}

-- `SELECT … FOR UPDATE`: the transactions on one event's row run one after another.
abbrev pub lock_checkout_event : Db → ℕ → Result CheckoutError Event
lock_checkout_event db event_id = or_throw (db.events event_id) event_not_found

-- HELD with `expiresAt > now`.
abbrev pub holds_now : ℕ → Reservation → Bool
holds_now now r = is_held r.status && ltb now r.expires_at

unfoldable pub item_quantity : ℕ → List ReservationItem → ℕ
item_quantity event_ticket_id [] = 0
item_quantity event_ticket_id (i ∷ items) =
    (if i.event_ticket_id == event_ticket_id then i.quantity else 0)
    + item_quantity event_ticket_id items

abbrev pub held_quantity : (event_ticket_id now : ℕ) → Option Reservation → ℕ
held_quantity event_ticket_id now none = 0
held_quantity event_ticket_id now (some r) =
    if holds_now now r then item_quantity event_ticket_id r.items else 0

-- The transaction that an optional id excludes.
abbrev pub is_excluded : Option ℕ → Transaction → Bool
is_excluded none t = false
is_excluded (some id) t = t.id == id

-- The sum over the reservation items of the ticket, by the transactions that hold them.
unfoldable pub reserved_ticket_quantity :
    List Transaction → (event_ticket_id now : ℕ) → Option ℕ → ℕ
unfolding item_quantity
reserved_ticket_quantity [] event_ticket_id now exclude = 0
reserved_ticket_quantity (t ∷ ts) event_ticket_id now exclude =
    (if is_excluded exclude t then 0 else held_quantity event_ticket_id now t.reservation)
    + reserved_ticket_quantity ts event_ticket_id now exclude

pub data CapacityError : Type 0 where
  tickets_reserved : ℕ → CapacityError
  spaces_taken : ℕ → CapacityError
  event_missing ticket_missing : CapacityError
  not_of_event not_creator : CapacityError

unfoldable pub assert_ticket_capacity_edit :
    Db → (event_ticket_id remaining now : ℕ) → Result CapacityError (Unit {0})
unfolding reserved_ticket_quantity
assert_ticket_capacity_edit db event_ticket_id remaining now =
    let reserved = reserved_ticket_quantity db.transactions event_ticket_id now none in
    throw_if (ltb remaining reserved) (tickets_reserved reserved)

abbrev pub is_event : Option ℕ → ℕ → Bool
is_event none event_id = false
is_event (some id) event_id = id == event_id

abbrev pub books_event : ℕ → Registration → Bool
books_event event_id r = r.event_id == event_id && r.is_active

abbrev pub sponsors_event : ℕ → Transaction → Bool
sponsors_event event_id t = elim t.reservation [
  | none ↦ false
  | some r ↦
      is_confirmed r.status
      && is_event t.event_id event_id
      && is_registration t.payment_type
      && is_sponsored t.metadata
]

abbrev pub holds_event : (event_id now : ℕ) → Option ℕ → Transaction → Bool
holds_event event_id now exclude t = elim t.reservation [
  | none ↦ false
  | some r ↦
      not (is_excluded exclude t)
      && holds_now now r
      && is_event t.event_id event_id
      && is_registration t.payment_type
]

unfoldable pub registration_occupancy : Db → (event_id now : ℕ) → Option ℕ → ℕ
unfolding count_if
registration_occupancy db event_id now exclude =
    count_if (books_event event_id) db.registrations
    + count_if (sponsors_event event_id) db.transactions
    + count_if (holds_event event_id now exclude) db.transactions

unfoldable pub assert_registration_capacity_edit :
    Db → (event_id capacity now : ℕ) → Result CapacityError (Unit {0})
unfolding registration_occupancy
assert_registration_capacity_edit db event_id capacity now =
    let occupied = registration_occupancy db event_id now none in
    throw_if (ltb capacity occupied) (spaces_taken occupied)
