-- ===== src/Checkout/Stock/Reach.antt =====
-- Histories of checkouts, payments, cancellations, expiries and quantity edits.
use gathergo_backend.Base.{ℕ, ◌+◌, ◌≤◌, ◌≡◌, Option, none, some, [], ok, Keeps-ok, arith}
use gathergo_backend.Checkout.{Event, EventTicket, Transaction, Db}
use gathergo_backend.Checkout.Inventory.{reserved_ticket_quantity}
use gathergo_backend.Checkout.Complete.{CollectedCheckoutInput, complete}
use gathergo_backend.Checkout.Create.{Config, CreateCheckoutInput, create}
use gathergo_backend.Checkout.Lifecycle.{
  claim_initialization, InitializationInput, finish_initialization, initialization_fails, cancel,
  expire_holds,
}
use gathergo_backend.Checkout.Edits.{set_remaining, set_quantity}
use gathergo_backend.Checkout.Stock.{IsFresh, Inv}
use gathergo_backend.Checkout.Stock.Writes.{
  later-Inv, claim_initialization-Inv, finish_initialization-Inv, initialization_fails-Inv,
  cancel-Inv, expire_holds-Inv,
}
use gathergo_backend.Checkout.Stock.Completes.{complete-Inv}
use gathergo_backend.Checkout.Stock.Creates.{create-Inv}
use gathergo_backend.Checkout.Stock.Edits.{set_remaining-Inv, set_quantity-Inv}

-- A call at one time that answers, or an edit of events elsewhere. A call that throws changes nothing.
pub data Step (config : Config) (now : ℕ) (db : Db) (db' : Db) : Type 0 where
  creates :
      (input : CreateCheckoutInput) (id : ℕ) (t : Transaction)
      → IsFresh id db.transactions
      → create config db input now id ≡ ok (db', t)
      → Step config now db db'
  completes :
      (input : CollectedCheckoutInput) (t : Transaction)
      → complete config.code db input now ≡ ok (db', t)
      → Step config now db db'
  claims : (id : ℕ) → db' ≡ (claim_initialization db id now).0 → Step config now db db'
  initializes :
      (id : ℕ) (input : InitializationInput) (t : Transaction)
      → finish_initialization db id input ≡ ok (db', t)
      → Step config now db db'
  fails : (id : ℕ) → db' ≡ initialization_fails db id → Step config now db db'
  cancels :
      (id user_id : ℕ) (t : Transaction)
      → cancel db id user_id ≡ ok (db', t)
      → Step config now db db'
  expires : db' ≡ expire_holds db now → Step config now db db'
  sets_remaining :
      (event_id id remaining : ℕ)
      → set_remaining db event_id id remaining now ≡ ok db'
      → Step config now db db'
  sets_quantity :
      (id user_id quantity : ℕ)
      → set_quantity db id user_id quantity now ≡ ok db'
      → Step config now db db'
  edits_events :
      (events : ℕ → Option Event) → db' ≡ record db { events = events } → Step config now db db'

-- What is reached at a time: each call at the time of the one before it, or later.
pub data Reach (config : Config) (start : Db) : ℕ → Db → Type 0 where
  here : (now : ℕ) → Reach config start now start
  next :
      {now later : ℕ} {db db' : Db}
      → Reach config start now db
      → now ≤ later
      → Step config later db db'
      → Reach config start later db'

event-Inv :
    (now : ℕ) (db : Db) (events : ℕ → Option Event)
    → Inv now db
    → Inv now (record db { events = events })
event-Inv now db events inv = record {
  distinct = inv.distinct;
  itemized = inv.itemized;
  stocked = inv.stocked;
}

module _ (config : Config) where
  Step-Inv : (now : ℕ) (db db' : Db) → Step config now db db' → Inv now db → Inv now db'
  Step-Inv now db db' (creates input id t fresh r) inv =
      Keeps-ok (Inv now) _ _ (create-Inv config now id input db fresh inv) r
  Step-Inv now db db' (completes input t r) inv =
      Keeps-ok (Inv now) _ _ (complete-Inv config.code now input db inv) r
  Step-Inv now db db' (claims id e) inv = rw e (claim_initialization-Inv now now db id inv)
  Step-Inv now db db' (initializes id input t r) inv =
      Keeps-ok (Inv now) _ _ (finish_initialization-Inv now db id input inv) r
  Step-Inv now db db' (fails id e) inv = rw e (initialization_fails-Inv now db id inv)
  Step-Inv now db db' (cancels id user_id t r) inv =
      Keeps-ok (Inv now) _ _ (cancel-Inv now db id user_id inv) r
  Step-Inv now db db' (expires e) inv = rw e (expire_holds-Inv now now db inv)
  Step-Inv now db db' (sets_remaining event_id id remaining r) inv =
      set_remaining-Inv now db id event_id remaining db' inv r
  Step-Inv now db db' (sets_quantity id user_id quantity r) inv =
      set_quantity-Inv now db id user_id quantity db' inv r
  Step-Inv now db db' (edits_events events e) inv = rw e (event-Inv now db events inv)

  Reach-Inv :
      (start : Db)
      → ((now : ℕ) → Inv now start)
      → {now : ℕ} {db : Db} → Reach config start now db
      → Inv now db
  Reach-Inv start inv (here now) = inv now
  Reach-Inv start inv (next {now} {later} {db} {db'} r le st) =
      Step-Inv later db db' st (later-Inv now later db le (Reach-Inv start inv r))

start-Inv :
    (start : Db)
    → start.transactions ≡ []
    → ((id : ℕ) (k : EventTicket) → start.event_tickets id ≡ some k → k.sold ≤ k.quantity)
    → (now : ℕ) → Inv now start
unfolding reserved_ticket_quantity
start-Inv start e within now = record {
  distinct = rw e tt;
  itemized = rw e tt;
  stocked = λ id k found. rw e (omega (arith, within id k found));
}

-- From a database with no transactions, in which no ticket is sold beyond its quantity: after any
-- calls of the service at times that do not decrease (checkouts under fresh ids, collected payments,
-- initializations, their failures, cancellations, expiries), with edits of quantities and of events in
-- between, no ticket has more sold and reserved than its quantity.
pub Reach-never_oversold :
    (config : Config) (start db : Db) (now id : ℕ) (k : EventTicket)
    → start.transactions ≡ []
    → ((id : ℕ) (k : EventTicket) → start.event_tickets id ≡ some k → k.sold ≤ k.quantity)
    → Reach config start now db
    → db.event_tickets id ≡ some k
    → k.sold + reserved_ticket_quantity db.transactions id now none ≤ k.quantity
Reach-never_oversold config start db now id k e within r found =
    (Reach-Inv config start (start-Inv start e within) r).stocked id k found
