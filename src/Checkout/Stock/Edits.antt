-- ===== src/Checkout/Stock/Edits.antt =====
-- The stock invariant under edits of a quantity.
use gathergo_backend.Base.{
  ℕ, ◌+◌, ◌≤◌, ◌≡◌, inl, inr, none, arith, Option-cases, ok, ◌>>=◌, ◌>>◌, put, subst, ok-eq-ok,
}
use gathergo_backend.Checkout.{EventTicket, Db}
use gathergo_backend.Checkout.Inventory.{
  CapacityError, reserved_ticket_quantity, assert_ticket_capacity_edit,
}
use gathergo_backend.Checkout.Edits.{set_remaining, set_quantity}
use gathergo_backend.Checkout.Stock.{Inv}

module _ (now : ℕ) (db : Db) (id : ℕ) (ticket : EventTicket) where
  -- A ticket that is written with room for what is reserved of it.
  put-Inv :
      ticket.sold + reserved_ticket_quantity db.transactions id now none ≤ ticket.quantity
      → Inv now db
      → Inv now (record db { event_tickets = put db.event_tickets id ticket })
  put-Inv room inv = record {
    distinct = inv.distinct;
    itemized = inv.itemized;
    stocked = λ k new found. ground (arith, inv.stocked k new, room);
  }

module _ (now : ℕ) (db : Db) (id : ℕ) where
  pub set_remaining-Inv :
      (event_id remaining : ℕ) (db' : Db)
      → Inv now db
      → set_remaining db event_id id remaining now ≡ ok db'
      → Inv now db'
  unfolding set_remaining assert_ticket_capacity_edit ◌>>=◌ ◌>>◌
  set_remaining-Inv event_id remaining db' inv e = elim (Option-cases (db.event_tickets id)) [
    | inl missing ↦ ground (arith, missing)
    | inr (k, found) ↦
        subst (Inv now) (ok-eq-ok {E = CapacityError} _ db' (ground (arith, found))) (
          put-Inv now db id (record k { quantity = k.sold + remaining }) (ground (arith, found))
            inv)
  ]

  pub set_quantity-Inv :
      (user_id quantity : ℕ) (db' : Db)
      → Inv now db
      → set_quantity db id user_id quantity now ≡ ok db'
      → Inv now db'
  unfolding set_quantity ◌>>=◌ ◌>>◌
  set_quantity-Inv user_id quantity db' inv e = elim (Option-cases (db.event_tickets id)) [
    | inl missing ↦ ground (arith, missing)
    | inr (k, found) ↦
        subst (Inv now) (ok-eq-ok {E = CapacityError} _ db' (ground (arith, found)))
          (put-Inv now db id (record k { quantity = quantity }) (ground (arith, found)) inv)
  ]
