-- ===== src/Checkout/Exact.antt =====
-- The tickets that a plan issues, counted by transaction and event ticket.
use Prim.Native.String.{String}
use gathergo_backend.Base.{
  ℕ, zero, suc, ◌+◌, ◌≡◌, refl, ◌∙◌, inl, inr, false, some, List, [], ◌∷◌, ◌++◌, arith, ◌==◌,
  if◌then◌else◌, Result-cases, ok, ◌>>=◌, count_if, count_if-append, find, find-cons,
}
use gathergo_backend.Checkout.{PurchasedTicketItem, Transaction, Ticket, FulfillmentKey, Db}
use gathergo_backend.Checkout.Issuance.{
  PlanItem, is_issued, plan_item, plan_issuance, new_tickets, tickets_of_plan, create_tickets,
  issue_tickets,
}
use gathergo_backend.Checkout.Stock.{is_item_for, repeats_item}
use gathergo_backend.Checkout.Stock.Plan.{planned, planned_unrepeated}
use gathergo_backend.Checkout.Stock.Checks.{plan-cons, plan-any, plan_item-id}

module _ (code : FulfillmentKey → String) (t : Transaction) (k : ℕ) where
  count-new_tickets :
      (event_ticket_id already count : ℕ)
      → count_if (is_issued t.id k) (new_tickets code t event_ticket_id already count)
        ≡ (if event_ticket_id == k then count else 0)
  unfolding count_if new_tickets
  count-new_tickets e already zero = ground arith
  count-new_tickets e already (suc count) = ground (arith, count-new_tickets e (already + 1) count)

  count-tickets_of_plan :
      (plan : List PlanItem)
      → count_if (is_issued t.id k) (tickets_of_plan code t plan) ≡ planned k plan
  unfolding count_if tickets_of_plan planned
  count-tickets_of_plan [] = refl
  count-tickets_of_plan (p ∷ plan) = omega (
    arith,
    count_if-append (is_issued t.id k)
        (new_tickets code t p.event_ticket_id p.already_issued p.quantity_to_issue)
        (tickets_of_plan code t plan),
    count-new_tickets p.event_ticket_id p.already_issued p.quantity_to_issue,
    count-tickets_of_plan plan,
  )

  count-create_tickets :
      (table ts table' : List Ticket)
      → create_tickets table ts ≡ ok table'
      → count_if (is_issued t.id k) table'
        ≡ count_if (is_issued t.id k) table + count_if (is_issued t.id k) ts
  unfolding count_if create_tickets
  count-create_tickets table [] table' e = ground arith
  count-create_tickets table (x ∷ ts) table' e = ground (
    arith,
    count-create_tickets (table ++ x ∷ []) ts table',
    count_if-append (is_issued t.id k) table (x ∷ []),
  )

  count-issue_tickets :
      (db db' : Db) (plan : List PlanItem)
      → issue_tickets code db t plan ≡ ok db'
      → count_if (is_issued t.id k) db'.tickets
        ≡ count_if (is_issued t.id k) db.tickets + planned k plan
  unfolding issue_tickets ◌>>=◌
  count-issue_tickets db db' plan e =
      elim (Result-cases (create_tickets db.tickets (tickets_of_plan code t plan))) [
        | inr (error, failed) ↦ ground (arith, failed)
        | inl (table, made) ↦ ground (
          arith,
          made,
          count-tickets_of_plan plan,
          count-create_tickets db.tickets (tickets_of_plan code t plan) table made,
        )
      ]

  plan_item-completes :
      (tickets : List Ticket) (item : PurchasedTicketItem) (p : PlanItem)
      → plan_item tickets t.id item ≡ ok p
      → count_if (is_issued t.id item.event_ticket_id) tickets + p.quantity_to_issue ≡ item.quantity
  unfolding plan_item
  plan_item-completes tickets item p e = ground arith

  -- The plan makes up for what each item lacks.
  plan-completes :
      (tickets : List Ticket) (items : List PurchasedTicketItem) (plan : List PlanItem)
      (item : PurchasedTicketItem)
      → plan_issuance tickets t.id items ≡ ok plan
      → repeats_item items ≡ false
      → find (is_item_for k) items ≡ some item
      → count_if (is_issued t.id k) tickets + planned k plan ≡ item.quantity
  unfolding planned find
  plan-completes tickets [] plan item e once found = ground arith
  plan-completes tickets (x ∷ items) plan item e once found =
      let (p, ps, one, rest, same) = plan-cons tickets t.id x items plan e in
      elim (find-cons (is_item_for k) x items item found) [
        | inl (hit, this) ↦ ground (
          arith,
          planned_unrepeated k ps,
          plan-any k tickets t.id items ps rest,
          plan_item-id tickets t.id x p one,
          plan_item-completes tickets x p one,
        )
        | inr (miss, later) ↦ ground (
          arith,
          plan_item-id tickets t.id x p one,
          plan-completes tickets items ps item rest (ground (arith, once)) later,
        )
      ]

  -- If the items name each event ticket once and `planIssuance` answers a plan for them, then after
  -- `issue` has issued by it the transaction has, of the ticket of any item, exactly the item's
  -- quantity, with what it had been issued before.
  pub issue_tickets-exact :
      (db db' : Db) (items : List PurchasedTicketItem) (plan : List PlanItem)
      (item : PurchasedTicketItem)
      → plan_issuance db.tickets t.id items ≡ ok plan
      → repeats_item items ≡ false
      → find (is_item_for k) items ≡ some item
      → issue_tickets code db t plan ≡ ok db'
      → count_if (is_issued t.id k) db'.tickets ≡ item.quantity
  issue_tickets-exact db db' items plan item planned_ok once found issued =
      count-issue_tickets db db' plan issued
      ∙ plan-completes db.tickets items plan item planned_ok once found
