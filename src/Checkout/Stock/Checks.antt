-- ===== src/Checkout/Stock/Checks.antt =====
-- `assertCapacity`, the plan that it answers and the items of the checkout.
use gathergo_backend.Base.{
  ℕ, ◌≡◌, refl, ◌∙◌, ◌⊎◌, inl, inr, Bool, true, false, List, [], ◌∷◌, arith, leb, Option-cases,
  Bool-cases, Result-cases, ok, ◌>>=◌, ◌>>◌, any,
}
use gathergo_backend.Checkout.{
  Event, PurchasedTicketItem, checkout_ticket_items, Transaction, Ticket, Db, is_registration,
}
use gathergo_backend.Checkout.Issuance.{PlanItem, plan_item, plan_issuance}
use gathergo_backend.Checkout.Capacity.{
  assert_items, registration_plan, ticket_plan, assert_capacity,
}
use gathergo_backend.Checkout.Create.{is_for, repeats_ticket}
use gathergo_backend.Checkout.Stock.{HasDistinctItems, IsStocked, is_item_for, repeats_item}
use gathergo_backend.Checkout.Stock.Plan.{Fits, assert_items-Fits}

pub plan_item-id :
    (tickets : List Ticket) (id : ℕ) (item : PurchasedTicketItem) (p : PlanItem)
    → plan_item tickets id item ≡ ok p
    → p.event_ticket_id ≡ item.event_ticket_id
unfolding plan_item
plan_item-id tickets id item p e = ground arith

pub plan-cons :
    (tickets : List Ticket) (id : ℕ) (item : PurchasedTicketItem) (items : List PurchasedTicketItem)
    (plan : List PlanItem)
    → plan_issuance tickets id (item ∷ items) ≡ ok plan
    → (p : PlanItem) × (ps : List PlanItem) × (plan_item tickets id item ≡ ok p)
      × (plan_issuance tickets id items ≡ ok ps)
      × (plan ≡ p ∷ ps)
unfolding plan_issuance ◌>>=◌
plan-cons tickets id item items plan e = elim (Result-cases (plan_item tickets id item)) [
  | inr (error, failed) ↦ ground (arith, failed)
  | inl (p, made) ↦ elim (Result-cases (plan_issuance tickets id items)) [
    | inr (error, failed) ↦ ground (arith, made, failed)
    | inl (ps, rest) ↦ (p, ps, made, rest, ground (arith, made, rest))
  ]
]

pub plan-any :
    (k : ℕ) (tickets : List Ticket) (id : ℕ) (items : List PurchasedTicketItem)
    (plan : List PlanItem)
    → plan_issuance tickets id items ≡ ok plan
    → any (is_for k) plan ≡ any (is_item_for k) items
unfolding any plan_issuance
plan-any k tickets id [] plan e = ground arith
plan-any k tickets id (item ∷ items) plan e =
    let (p, ps, one, rest, same) = plan-cons tickets id item items plan e in
    rw (same, plan_item-id tickets id item p one, plan-any k tickets id items ps rest) refl

plan-repeats :
    (tickets : List Ticket) (id : ℕ) (items : List PurchasedTicketItem) (plan : List PlanItem)
    → plan_issuance tickets id items ≡ ok plan
    → repeats_ticket plan ≡ repeats_item items
unfolding repeats_ticket plan_issuance
plan-repeats tickets id [] plan e = ground arith
plan-repeats tickets id (item ∷ items) plan e =
    let (p, ps, one, rest, same) = plan-cons tickets id item items plan e in
    rw
      (
        same,
        plan_item-id tickets id item p one,
        plan-any item.event_ticket_id tickets id items ps rest,
        plan-repeats tickets id items ps rest,
      )
      refl

module _ (db : Db) (event_id : ℕ) (t : Transaction) (now : ℕ) (check_price : Bool) where
  ticket_plan-parts :
      (event : Event) (plan : List PlanItem)
      → ticket_plan db event_id event t now check_price ≡ ok plan
      → (plan_issuance db.tickets t.id (checkout_ticket_items t.metadata) ≡ ok plan)
        × (assert_items db event_id t now check_price plan ≡ ok tt)
  unfolding ◌>>=◌ ◌>>◌
  ticket_plan-parts event plan e =
      elim (Result-cases (plan_issuance db.tickets t.id (checkout_ticket_items t.metadata))) [
        | inr (error, failed) ↦ ground (arith, failed)
        | inl (p, made) ↦ elim (Result-cases (assert_items db event_id t now check_price p)) [
          | inr (error, failed) ↦ ground (arith, made, failed)
          | inl (tt, passed) ↦ ground (arith, made, passed)
        ]
      ]

  registration_plan-empty :
      (event : Event) (plan : List PlanItem)
      → registration_plan db event_id event t now check_price ≡ ok plan
      → plan ≡ []
  unfolding ◌>>=◌ ◌>>◌
  registration_plan-empty event plan e = ground arith

  abbrev Checked : List PlanItem → Type 0
  Checked plan =
      ((is_registration t.payment_type ≡ true) × (plan ≡ []))
      ⊎ ((is_registration t.payment_type ≡ false)
          × (plan_issuance db.tickets t.id (checkout_ticket_items t.metadata) ≡ ok plan)
          × (assert_items db event_id t now check_price plan ≡ ok tt))

  assert_capacity-Checked :
      (plan : List PlanItem)
      → assert_capacity db event_id t now check_price ≡ ok plan
      → Checked plan
  unfolding assert_capacity ◌>>=◌ ◌>>◌
  assert_capacity-Checked plan e = elim (Option-cases (db.events event_id)) [
    | inl missing ↦ ground (arith, missing)
    | inr (event, found) ↦ elim (Bool-cases (leb event.end_date now)) [
      | inl ended ↦ ground (arith, found, ended)
      | inr ongoing ↦ elim (Bool-cases (is_registration t.payment_type)) [
        | inl kind ↦
            inl (kind, registration_plan-empty event plan (ground (arith, found, ongoing, kind)))
        | inr kind ↦
            let (made, passed) =
              ticket_plan-parts event plan (ground (arith, found, ongoing, kind)) in
            inr (kind, made, passed)
      ]
    ]
  ]

  pub assert_capacity-Fits :
      (plan : List PlanItem)
      → IsStocked now db
      → assert_capacity db event_id t now check_price ≡ ok plan
      → repeats_ticket plan ≡ false
      → Fits now db t.id plan
  unfolding repeats_ticket assert_items
  assert_capacity-Fits plan stocked e once = elim (assert_capacity-Checked plan e) [
    | inl (_, none_planned) ↦
        rw none_planned (assert_items-Fits now db event_id t check_price [] tt stocked refl refl)
    | inr (_, _, passed) ↦
        assert_items-Fits now db event_id t check_price plan tt stocked passed once
  ]

  -- The items that are checked are those that are planned.
  pub assert_capacity-repeats :
      (plan : List PlanItem)
      → assert_capacity db event_id t now check_price ≡ ok plan
      → is_registration t.payment_type ≡ false
      → repeats_ticket plan ≡ repeats_item (checkout_ticket_items t.metadata)
  assert_capacity-repeats plan e kind = elim (assert_capacity-Checked plan e) [
    | inl (other, _) ↦ ground (arith, kind)
    | inr (_, made, _) ↦ plan-repeats db.tickets t.id (checkout_ticket_items t.metadata) plan made
  ]

  -- A registration has nothing planned, and other checkouts no ticket twice.
  pub assert_capacity-once :
      (plan : List PlanItem)
      → assert_capacity db event_id t now check_price ≡ ok plan
      → HasDistinctItems t
      → repeats_ticket plan ≡ false
  unfolding repeats_ticket
  assert_capacity-once plan e distinct = elim (assert_capacity-Checked plan e) [
    | inl (_, none_planned) ↦ rw none_planned refl
    | inr (kind, made, _) ↦
        plan-repeats db.tickets t.id (checkout_ticket_items t.metadata) plan made ∙ distinct kind
  ]
