-- ===== src/Checkout/Issuance.antt =====
-- What is issued: `planIssuance` and `issue` of ticket.service.ts, `issue` of registration.service.ts,
-- and the private `issue` of checkout.service.ts.
use Prim.Native.String.{String}
use gathergo_backend.Base.{
  ℕ, zero, suc, ◌+◌, ◌-◌, Bool, true, false, ◌&&◌, Option, none, some, List, [], ◌∷◌, ◌++◌, ltb,
  ◌==◌, if◌then◌else◌, Result, ok, err, throw_if, ◌>>=◌, ◌>>◌, count_if, any, update_first,
}
use gathergo_backend.Checkout.{
  EventTicket, PurchasedTicketItem, Reservation, confirmed, Transaction, Ticket, FulfillmentKey,
  Registration, Db, CheckoutError, needs_review, unique_violation, is_ticket, is_sponsored, has_id,
}

pub record PlanItem : Type 0 where
  pub event_ticket_id : ℕ
  pub quantity : ℕ
  pub already_issued : ℕ
  pub quantity_to_issue : ℕ

abbrev pub is_issued : (transaction_id event_ticket_id : ℕ) → Ticket → Bool
is_issued transaction_id event_ticket_id t =
    t.transaction_id == transaction_id && t.event_ticket_id == event_ticket_id

unfoldable pub plan_item :
    List Ticket → (transaction_id : ℕ) → PurchasedTicketItem → Result CheckoutError PlanItem
unfolding count_if
plan_item tickets transaction_id item =
    let already = count_if (is_issued transaction_id item.event_ticket_id) tickets in
    if ltb item.quantity already
    then err needs_review
    else ok (record {
      event_ticket_id = item.event_ticket_id;
      quantity = item.quantity;
      already_issued = already;
      quantity_to_issue = item.quantity - already;
    })

unfoldable pub plan_issuance :
    List Ticket
    → (transaction_id : ℕ) → List PurchasedTicketItem
    → Result CheckoutError (List PlanItem)
unfolding plan_item
plan_issuance tickets transaction_id [] = ok []
plan_issuance tickets transaction_id (item ∷ items) = do
  p ← plan_item tickets transaction_id item
  ps ← plan_issuance tickets transaction_id items
  ok (p ∷ ps)

-- The rows of one item: `code` is the random code that is drawn for each.
unfoldable pub new_tickets :
    (code : FulfillmentKey → String)
    → Transaction
    → (event_ticket_id already count : ℕ) → List Ticket
new_tickets code t event_ticket_id already zero = []
new_tickets code t event_ticket_id already (suc count) =
    let key : FulfillmentKey = record {
      transaction_id = t.id;
      event_ticket_id = event_ticket_id;
      number = already + 1;
    } in
    let first : Ticket = record {
      event_ticket_id = event_ticket_id;
      user_id = t.user_id;
      transaction_id = t.id;
      qr_code = code key;
      fulfillment_key = some key;
    } in
    first ∷ new_tickets code t event_ticket_id (already + 1) count

unfoldable pub tickets_of_plan :
    (code : FulfillmentKey → String) → Transaction → List PlanItem → List Ticket
unfolding new_tickets
tickets_of_plan code t [] = []
tickets_of_plan code t (p ∷ plan) =
    new_tickets code t p.event_ticket_id p.already_issued p.quantity_to_issue
    ++ tickets_of_plan code t plan

abbrev pub eq_key : FulfillmentKey → FulfillmentKey → Bool
eq_key a b =
    a.transaction_id == b.transaction_id
    && a.event_ticket_id == b.event_ticket_id
    && a.number == b.number

abbrev pub has_key : Option FulfillmentKey → Ticket → Bool
has_key none t = false
has_key (some k) t = elim t.fulfillment_key [ none ↦ false | some k' ↦ eq_key k k' ]

-- `createMany` under the unique `fulfillmentKey`, row by row. The random codes are unique too; that two
-- of them are equal is left out.
unfoldable pub create_tickets : List Ticket → List Ticket → Result CheckoutError (List Ticket)
unfolding any
create_tickets table [] = ok table
create_tickets table (t ∷ ts) =
    let rest = create_tickets (table ++ t ∷ []) ts in
    if any (has_key t.fulfillment_key) table then err unique_violation else rest

-- `sold: { increment }` for each planned item with something to issue.
abbrev pub add_sold : PlanItem → (ℕ → Option EventTicket) → ℕ → Option EventTicket
add_sold p tickets k =
    if k == p.event_ticket_id
    then elim (tickets k) [
      | none ↦ none
      | some t ↦ some (record t { sold = t.sold + p.quantity_to_issue })
    ]
    else tickets k

unfoldable pub add_all_sold : List PlanItem → (ℕ → Option EventTicket) → ℕ → Option EventTicket
add_all_sold [] tickets = tickets
add_all_sold (p ∷ plan) tickets =
    add_all_sold plan (if ltb 0 p.quantity_to_issue then add_sold p tickets else tickets)

unfoldable pub issue_tickets :
    (code : FulfillmentKey → String) → Db → Transaction → List PlanItem → Result CheckoutError Db
unfolding tickets_of_plan create_tickets add_all_sold
issue_tickets code db t plan = do
  table ← create_tickets db.tickets (tickets_of_plan code t plan)
  ok (record db { tickets = table; event_tickets = add_all_sold plan db.event_tickets })

abbrev pub registered_by : ℕ → Registration → Bool
registered_by transaction_id r = r.transaction_id == transaction_id

-- A transaction that has a registration gets no other.
unfoldable pub issue_registration :
    (code : FulfillmentKey → String) → Db → (event_id : ℕ) → Transaction → Db
unfolding any
issue_registration code db event_id t =
    let key : FulfillmentKey = record {
      transaction_id = t.id;
      event_ticket_id = event_id;
      number = 0;
    } in
    let row : Registration = record {
      event_id = event_id;
      user_id = t.user_id;
      transaction_id = t.id;
      qr_code = code key;
      is_active = true;
    } in
    if any (registered_by t.id) db.registrations
    then db
    else record db { registrations = db.registrations ++ row ∷ [] }

-- The upsert of the reservation.
abbrev pub confirm_reservation : ℕ → Option Reservation → Option Reservation
confirm_reservation now none = some (record { status = confirmed; expires_at = now; items = [] })
confirm_reservation now (some r) = some (record r { status = confirmed })

abbrev pub with_confirmation : ℕ → Transaction → Transaction
with_confirmation now t = record t {
  reservation = confirm_reservation now t.reservation;
  has_job = true;
}

abbrev pub hand_out :
    (code : FulfillmentKey → String)
    → Db
    → (event_id : ℕ) → Transaction
    → List PlanItem
    → Result CheckoutError Db
hand_out code db event_id t plan =
    if is_ticket t.payment_type
    then issue_tickets code db t plan
    else if is_sponsored t.metadata
    then ok db
    else ok (issue_registration code db event_id t)

-- The job's primary key is the transaction's id.
unfoldable pub issue :
    (code : FulfillmentKey → String)
    → Db
    → (event_id : ℕ) → Transaction
    → List PlanItem
    → (now : ℕ) → Result CheckoutError Db
unfolding issue_tickets issue_registration update_first
issue code db event_id t plan now = do
  db' ← hand_out code db event_id t plan
  throw_if t.has_job unique_violation
  ok (record db' {
    transactions = update_first (has_id t.id) (with_confirmation now) db'.transactions;
  })
