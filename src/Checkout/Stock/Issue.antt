-- ===== src/Checkout/Stock/Issue.antt =====
-- Issuing by a plan that fits, and the stock.
use Prim.Native.String.{String}
use gathergo_backend.Base.{
  ℕ, ◌+◌, ◌≤◌, ◌≡◌, refl, ◌⊎◌, inl, inr, none, some, List, arith, Bool-cases, ok, throw_if, ◌>>=◌,
  >>=-eq-ok, >>-eq-ok, Result-cases, ok-eq-ok, subst, any, find, update_first,
}
use gathergo_backend.Checkout.{
  EventTicket, Transaction, FulfillmentKey, Db, CheckoutError, unique_violation, is_ticket, has_id,
  is_sponsored,
}
use gathergo_backend.Checkout.Inventory.{reserved_ticket_quantity}
use gathergo_backend.Checkout.Issuance.{
  PlanItem, create_tickets, tickets_of_plan, add_all_sold, issue_tickets, issue_registration,
  hand_out, with_confirmation, issue, registered_by,
}
use gathergo_backend.Checkout.Stock.{HasDistinctIds, IsStocked}
use gathergo_backend.Checkout.Stock.Sums.{reserved-update_first}
use gathergo_backend.Checkout.Stock.Plan.{Fits, add_all_sold-Sells}

-- What `hand_out` does to the tables that the stock depends on.
abbrev HandsOut : Db → List PlanItem → Db → Type 0
HandsOut db plan mid =
    (mid.events ≡ db.events)
    × (mid.transactions ≡ db.transactions)
    × ((mid.event_tickets ≡ db.event_tickets)
        ⊎ (mid.event_tickets ≡ add_all_sold plan db.event_tickets))

issue_tickets-HandsOut :
    (code : FulfillmentKey → String) (db : Db) (t : Transaction) (plan : List PlanItem) (mid : Db)
    → issue_tickets code db t plan ≡ ok mid
    → HandsOut db plan mid
unfolding issue_tickets ◌>>=◌
issue_tickets-HandsOut code db t plan mid e =
    elim (Result-cases (create_tickets db.tickets (tickets_of_plan code t plan))) [
      | inl (table, made) ↦ ground (arith, made)
      | inr (error, failed) ↦ ground (arith, failed)
    ]

issue_registration-HandsOut :
    (code : FulfillmentKey → String) (db : Db) (event_id : ℕ) (t : Transaction)
    (plan : List PlanItem)
    → HandsOut db plan (issue_registration code db event_id t)
unfolding issue_registration
issue_registration-HandsOut code db event_id t plan =
    elim (Bool-cases (any (registered_by t.id) db.registrations)) [
      | inl had ↦ rw had (refl, refl, inl refl)
      | inr new ↦ rw new (refl, refl, inl refl)
    ]

hand_out-HandsOut :
    (code : FulfillmentKey → String) (db : Db) (event_id : ℕ) (t : Transaction)
    (plan : List PlanItem) (mid : Db)
    → hand_out code db event_id t plan ≡ ok mid
    → HandsOut db plan mid
hand_out-HandsOut code db event_id t plan mid e = elim (Bool-cases (is_ticket t.payment_type)) [
  | inl selling ↦ issue_tickets-HandsOut code db t plan mid (cc)
  | inr other ↦ elim (Bool-cases (is_sponsored t.metadata)) [
    | inl given ↦ ground arith
    | inr unsponsored ↦
        subst (HandsOut db plan)
          (ok-eq-ok {E = CheckoutError} (issue_registration code db event_id t) mid (ground arith))
          (issue_registration-HandsOut code db event_id t plan)
  ]
]

-- The reservation stops to count as what it reserves is sold.
Fits-issued :
    (db mid : Db) (plan : List PlanItem) (now : ℕ) (t found : Transaction)
    → HasDistinctIds db.transactions
    → find (has_id t.id) db.transactions ≡ some found
    → Fits now db t.id plan
    → mid.transactions ≡ db.transactions
    → (mid.event_tickets ≡ db.event_tickets)
      ⊎ (mid.event_tickets ≡ add_all_sold plan db.event_tickets)
    → (k : ℕ) (ticket : EventTicket) → mid.event_tickets k ≡ some ticket
    → ticket.sold
        + reserved_ticket_quantity
            (update_first (has_id t.id) (with_confirmation now) mid.transactions)
            k
            now
            none
      ≤ ticket.quantity
Fits-issued db mid plan now t found distinct here fits rows (inl same) k ticket sold = rw rows (
    ground (
      arith,
      found.reservation,
      reserved-update_first k now t.id (with_confirmation now) db.transactions found distinct here,
      fits k ticket (cc),
    ))
Fits-issued db mid plan now t found distinct here fits rows (inr same) k ticket sold =
    let (old, found', counted, quantity) = add_all_sold-Sells plan db.event_tickets k ticket (cc) in
    rw rows (
      ground (
        arith,
        reserved-update_first k now t.id (with_confirmation now) db.transactions found distinct
            here,
        fits k old found',
      ))

pub issue-IsStocked :
    (code : FulfillmentKey → String) (db : Db) (event_id : ℕ) (t found : Transaction)
    (plan : List PlanItem) (now : ℕ) (db' : Db)
    → HasDistinctIds db.transactions
    → find (has_id t.id) db.transactions ≡ some found
    → Fits now db t.id plan
    → issue code db event_id t plan now ≡ ok db'
    → IsStocked now db'
      × (db'.transactions ≡ update_first (has_id t.id) (with_confirmation now) db.transactions)
unfolding issue
issue-IsStocked code db event_id t found plan now db' distinct here fits e =
    let (mid, handed, rest) = >>=-eq-ok (hand_out code db event_id t plan) _ e in
    let (_, last) =
      >>-eq-ok (throw_if t.has_job unique_violation)
        (ok (record mid {
          transactions = update_first (has_id t.id) (with_confirmation now) mid.transactions;
        }))
        rest in
    let (_, rows, tables) = hand_out-HandsOut code db event_id t plan mid handed in
    subst
      (λ x.
        IsStocked now x
        × (x.transactions ≡ update_first (has_id t.id) (with_confirmation now) db.transactions))
      (ok-eq-ok _ db' last)
      (
        λ k ticket sold.
            Fits-issued db mid plan now t found distinct here fits rows tables k ticket sold,
        rw rows refl,
      )

-- The rows that issuing leaves.
pub issue-rows :
    (code : FulfillmentKey → String) (db : Db) (event_id : ℕ) (t : Transaction)
    (plan : List PlanItem) (now : ℕ) (db' : Db)
    → issue code db event_id t plan now ≡ ok db'
    → (db'.events ≡ db.events)
      × (db'.transactions ≡ update_first (has_id t.id) (with_confirmation now) db.transactions)
unfolding issue
issue-rows code db event_id t plan now db' e =
    let (mid, handed, rest) = >>=-eq-ok (hand_out code db event_id t plan) _ e in
    let (_, last) =
      >>-eq-ok (throw_if t.has_job unique_violation)
        (ok (record mid {
          transactions = update_first (has_id t.id) (with_confirmation now) mid.transactions;
        }))
        rest in
    let (events, rows, tables) = hand_out-HandsOut code db event_id t plan mid handed in
    subst
      (λ x.
        (x.events ≡ db.events)
        × (x.transactions ≡ update_first (has_id t.id) (with_confirmation now) db.transactions))
      (ok-eq-ok _ db' last) (events, rw rows refl)
