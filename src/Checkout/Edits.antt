-- ===== src/Checkout/Edits.antt =====
-- Edits of an event ticket's quantity: the transactions of event-ticket.service.ts and of the event
-- update in event.service.ts that go through `assertTicketCapacityEdit`.
use gathergo_backend.Base.{
  ℕ, ◌+◌, Bool, not, ◌==◌, none, ltb, Result, ok, throw_if, or_throw, ◌>>=◌, ◌>>◌, put,
}
use gathergo_backend.Checkout.{EventTicket, Db}
use gathergo_backend.Checkout.Inventory.{
  CapacityError, tickets_reserved, event_missing, ticket_missing, not_of_event, not_creator,
  reserved_ticket_quantity, assert_ticket_capacity_edit,
}

-- A ticket of the event whose edit is going on: `quantity = sold + remaining`. The other columns of
-- the edit are left out.
unfoldable pub set_remaining :
    Db → (event_id event_ticket_id remaining now : ℕ) → Result CapacityError Db
unfolding assert_ticket_capacity_edit
set_remaining db event_id event_ticket_id remaining now = do
  k ← or_throw (db.event_tickets event_ticket_id) ticket_missing
  throw_if (not (k.event_id == event_id)) not_of_event
  assert_ticket_capacity_edit db event_ticket_id remaining now
  ok (record db {
    event_tickets =
        put db.event_tickets event_ticket_id (record k { quantity = k.sold + remaining });
  })

-- The guard's `remaining` is `quantity - sold`, and a negative one is less than what is reserved.
abbrev pub lacks_room : EventTicket → (reserved quantity : ℕ) → Bool
lacks_room k reserved quantity = ltb quantity (k.sold + reserved)

unfoldable pub set_quantity :
    Db → (event_ticket_id user_id quantity now : ℕ) → Result CapacityError Db
unfolding reserved_ticket_quantity
set_quantity db event_ticket_id user_id quantity now = do
  k ← or_throw (db.event_tickets event_ticket_id) ticket_missing
  event ← or_throw (db.events k.event_id) event_missing
  throw_if (not (event.creator_id == user_id)) not_creator
  let reserved = reserved_ticket_quantity db.transactions event_ticket_id now none
  throw_if (lacks_room k reserved quantity) (tickets_reserved reserved)
  ok (record db {
    event_tickets = put db.event_tickets event_ticket_id (record k { quantity = quantity });
  })
