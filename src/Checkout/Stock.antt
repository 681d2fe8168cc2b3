-- ===== src/Checkout/Stock.antt =====
-- The stock of tickets: the invariant that bounds what is sold and what is reserved.
pub mod Sums
pub mod Plan
pub mod Issue
pub mod Checks
pub mod Writes
pub mod Completes
pub mod Creates
pub mod Edits
pub mod Reach
use gathergo_backend.Base.{
  ℕ, ◌+◌, ◌≤◌, ◌≡◌, Bool, true, false, ◌||◌, Option, none, some, List, [], ◌∷◌, ◌==◌, All, any,
}
use gathergo_backend.Checkout.{
  EventTicket, PurchasedTicketItem, checkout_ticket_items, Transaction, Db, is_registration,
}
use gathergo_backend.Checkout.Inventory.{reserved_ticket_quantity}

abbrev pub IsFresh : ℕ → List Transaction → Type 0
IsFresh id ts = All (λ t. (t.id == id) ≡ false) ts

abbrev pub HasDistinctIds : List Transaction → Type 0
HasDistinctIds [] = Unit
HasDistinctIds (t ∷ ts) = IsFresh t.id ts × HasDistinctIds ts

abbrev pub is_item_for : ℕ → PurchasedTicketItem → Bool
is_item_for event_ticket_id i = i.event_ticket_id == event_ticket_id

abbrev pub repeats_item : List PurchasedTicketItem → Bool
repeats_item [] = false
repeats_item (i ∷ items) = any (is_item_for i.event_ticket_id) items || repeats_item items

-- A checkout that is not a registration names each event ticket once.
abbrev pub HasDistinctItems : Transaction → Type 0
HasDistinctItems t =
    is_registration t.payment_type ≡ false → repeats_item (checkout_ticket_items t.metadata) ≡ false

abbrev pub IsStocked : ℕ → Db → Type 0
IsStocked now db =
    (event_ticket_id : ℕ) (k : EventTicket)
    → db.event_tickets event_ticket_id ≡ some k
    → k.sold + reserved_ticket_quantity db.transactions event_ticket_id now none ≤ k.quantity

pub record Inv (now : ℕ) (db : Db) : Type 0 where
  pub distinct : HasDistinctIds db.transactions
  pub itemized : All HasDistinctItems db.transactions
  pub stocked : IsStocked now db
