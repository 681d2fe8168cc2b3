-- ===== src/Checkout/Stock/Plan.antt =====
-- Plans of `assertCapacity` against the stock.
use gathergo_backend.Base.{
  ℕ, ◌+◌, ◌≤◌, ◌≡◌, refl, inl, inr, Bool, false, Option, some, List, [], ◌∷◌, arith, ltb, ◌==◌,
  if◌then◌else◌, Option-cases, ok, ◌>>=◌, ◌>>◌, any,
}
use gathergo_backend.Checkout.{EventTicket, Transaction, Db}
use gathergo_backend.Checkout.Inventory.{item_quantity, reserved_ticket_quantity}
use gathergo_backend.Checkout.Issuance.{PlanItem, add_sold, add_all_sold}
use gathergo_backend.Checkout.Capacity.{assert_item, assert_items}
use gathergo_backend.Checkout.Create.{is_for, repeats_ticket, reserve_items}
use gathergo_backend.Checkout.Stock.{IsStocked}
use gathergo_backend.Checkout.Stock.Sums.{reserved-exclude-le}

-- What the plan issues of a ticket.
unfoldable pub planned : ℕ → List PlanItem → ℕ
planned k [] = 0
planned k (p ∷ plan) = (if p.event_ticket_id == k then p.quantity_to_issue else 0) + planned k plan

-- The plan fits beside what is sold and what the other transactions reserve.
abbrev pub Fits : ℕ → Db → ℕ → List PlanItem → Type 0
Fits now db id plan =
    (k : ℕ) (ticket : EventTicket)
    → db.event_tickets k ≡ some ticket
    → ticket.sold + reserved_ticket_quantity db.transactions k now (some id) + planned k plan
      ≤ ticket.quantity

pub planned_unrepeated :
    (k : ℕ) (plan : List PlanItem) → any (is_for k) plan ≡ false → planned k plan ≡ 0
unfolding planned any
planned_unrepeated k [] h = refl
planned_unrepeated k (p ∷ plan) h = ground (arith, planned_unrepeated k plan)

module _ (now : ℕ) (db : Db) (event_id : ℕ) (t : Transaction) (check_price : Bool) where
  assert_item-fits :
      (p : PlanItem) (u : Unit {0}) (ticket : EventTicket)
      → assert_item db event_id t now check_price p ≡ ok u
      → db.event_tickets p.event_ticket_id ≡ some ticket
      → ticket.sold
          + reserved_ticket_quantity db.transactions p.event_ticket_id now (some t.id)
          + p.quantity_to_issue
        ≤ ticket.quantity
  unfolding assert_item ◌>>=◌ ◌>>◌
  assert_item-fits p u ticket e found = ground (arith, found)

  assert_items-split :
      (p : PlanItem) (plan : List PlanItem) (u : Unit {0})
      → assert_items db event_id t now check_price (p ∷ plan) ≡ ok u
      → (assert_item db event_id t now check_price p ≡ ok tt)
        × (assert_items db event_id t now check_price plan ≡ ok u)
  unfolding assert_items ◌>>=◌ ◌>>◌
  assert_items-split p plan u e = ground arith

  pub assert_items-Fits :
      (plan : List PlanItem) (u : Unit {0})
      → IsStocked now db
      → assert_items db event_id t now check_price plan ≡ ok u
      → repeats_ticket plan ≡ false
      → Fits now db t.id plan
  unfolding planned repeats_ticket
  assert_items-Fits [] u stocked e once k ticket found =
      omega (arith, stocked k ticket found, reserved-exclude-le k now (some t.id) db.transactions)
  assert_items-Fits (p ∷ plan) u stocked e once k ticket found =
      let (first, rest) = assert_items-split p plan u e in
      ground (
        arith,
        assert_item-fits p tt ticket first,
        assert_items-Fits plan u stocked rest (ground arith) k ticket found,
        planned_unrepeated k plan,
      )

pub item_quantity-reserve_items :
    (k : ℕ) (plan : List PlanItem) → item_quantity k (reserve_items plan) ≡ planned k plan
unfolding item_quantity planned
item_quantity-reserve_items k [] = refl
item_quantity-reserve_items k (p ∷ plan) = omega (arith, item_quantity-reserve_items k plan)

abbrev pub Sells : (ℕ → Option EventTicket) → ℕ → ℕ → EventTicket → Type 0
Sells tickets k count new =
    (old : EventTicket) × (tickets k ≡ some old)
    × (new.sold ≡ old.sold + count)
    × (new.quantity ≡ old.quantity)

add_one_sold :
    (p : PlanItem) (tickets : ℕ → Option EventTicket) (k : ℕ) (new : EventTicket)
    → (if ltb 0 p.quantity_to_issue then add_sold p tickets else tickets) k ≡ some new
    → Sells tickets k (if p.event_ticket_id == k then p.quantity_to_issue else 0) new
add_one_sold p tickets k new e = elim (Option-cases (tickets k)) [
  | inl missing ↦ ground (arith, missing)
  | inr (old, found) ↦ (old, found, ground (arith, found), ground (arith, found))
]

-- The sold counts after the plan is issued.
pub add_all_sold-Sells :
    (plan : List PlanItem) (tickets : ℕ → Option EventTicket) (k : ℕ) (new : EventTicket)
    → add_all_sold plan tickets k ≡ some new
    → Sells tickets k (planned k plan) new
unfolding add_all_sold planned
add_all_sold-Sells [] tickets k new e = (new, e, omega arith, refl)
add_all_sold-Sells (p ∷ plan) tickets k new e =
    let (mid, found, sold, quantity) = add_all_sold-Sells plan _ k new e in
    let (old, found', sold', quantity') = add_one_sold p tickets k mid found in
    (old, found', omega arith, omega arith)
