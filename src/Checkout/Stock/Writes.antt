-- ===== src/Checkout/Stock/Writes.antt =====
-- The stock invariant under writes by which no row reserves more: the payment's initialization, its
-- failure, cancelling, the expiry of holds, refunds and the last update of `complete`.
use gathergo_backend.Base.{
  ℕ, ◌≤◌, ◌≡◌, refl, inl, inr, ◌&&◌, List, [], ◌∷◌, arith, Bool-cases, map, Keeps, kept, Keeps->>=,
  Keeps->>, All, All-update_first,
}
use gathergo_backend.Checkout.{Transaction, RefundReason, Reservation, Db, is_pending, has_id}
use gathergo_backend.Checkout.Inventory.{held_quantity}
use gathergo_backend.Checkout.Complete.{
  CollectedCheckoutInput, with_refund, with_success, write_transaction,
}
use gathergo_backend.Checkout.Lifecycle.{
  can_claim, has_overdue, claim, claim_initialization, InitializationInput, with_initialization,
  finish_initialization, fail_initialization, initialization_fails, with_cancellation, cancel,
  expire_status, expire_reservation, expire_holds,
}
use gathergo_backend.Checkout.Stock.{HasDistinctItems, Inv}
use gathergo_backend.Checkout.Stock.Sums.{
  reserved-update_first-le, reserved-map-le, reserved-later-le, distinct-update_first, distinct-map,
}

pub record IsLowering (now : ℕ) (f : Transaction → Transaction) : Type 0 where
  pub same_id : (t : Transaction) → (f t).id ≡ t.id
  pub same_items : (t : Transaction) → HasDistinctItems t → HasDistinctItems (f t)
  pub lowers :
      (k : ℕ) (t : Transaction)
      → held_quantity k now (f t).reservation ≤ held_quantity k now t.reservation

pub write-Inv :
    (now : ℕ) (db : Db) (id : ℕ) (f : Transaction → Transaction)
    → IsLowering now f
    → Inv now db
    → Inv now (write_transaction db id f)
write-Inv now db id f low inv = record {
  distinct = distinct-update_first f low.same_id (has_id id) db.transactions inv.distinct;
  itemized =
      All-update_first HasDistinctItems (has_id id) f db.transactions (λ t _. low.same_items t)
        inv.itemized;
  stocked = λ k ticket found. omega (
    arith,
    inv.stocked k ticket found,
    reserved-update_first-le k now (has_id id) f db.transactions (low.lowers k),
  );
}

All-map :
    (f : Transaction → Transaction) (ts : List Transaction)
    → ((t : Transaction) → HasDistinctItems t → HasDistinctItems (f t))
    → All HasDistinctItems ts
    → All HasDistinctItems (map f ts)
All-map f [] keep h = h
All-map f (t ∷ ts) keep (h, hs) = (keep t h, All-map f ts keep hs)

map-Inv :
    (now : ℕ) (db : Db) (f : Transaction → Transaction)
    → IsLowering now f
    → Inv now db
    → Inv now (record db { transactions = map f db.transactions })
map-Inv now db f low inv = record {
  distinct = distinct-map f low.same_id db.transactions inv.distinct;
  itemized = All-map f db.transactions low.same_items inv.itemized;
  stocked = λ k ticket found.
      omega
        (arith, inv.stocked k ticket found, reserved-map-le k now f db.transactions (low.lowers k));
}

-- Time alone ends holds.
pub later-Inv : (now later : ℕ) (db : Db) → now ≤ later → Inv now db → Inv later db
later-Inv now later db h inv = record {
  distinct = inv.distinct;
  itemized = inv.itemized;
  stocked = λ k ticket found.
      omega (arith, inv.stocked k ticket found, reserved-later-le k now later db.transactions h);
}

module _ (now at : ℕ) where
  claim-IsLowering : IsLowering now (claim at)
  claim-IsLowering = record {
    same_id = λ t. ground arith;
    same_items =
        λ t h. elim (Bool-cases (can_claim t)) [ inl free ↦ rw free h | inr taken ↦ rw taken h ];
    lowers = λ k t. ground arith;
  }

  pub claim_initialization-Inv :
      (db : Db) (id : ℕ) → Inv now db → Inv now (claim_initialization db id at).0
  unfolding claim_initialization
  claim_initialization-Inv db id inv = write-Inv now db id (claim at) claim-IsLowering inv

  expire_status-IsLowering : IsLowering now (expire_status at)
  expire_status-IsLowering = record {
    same_id = λ t. ground arith;
    same_items = λ t h. elim (Bool-cases (is_pending t.status && has_overdue at t.reservation)) [
      | inl over ↦ rw over h
      | inr live ↦ rw live h
    ];
    lowers = λ k t. ground arith;
  }

  expire_reservation-IsLowering : IsLowering now (expire_reservation at)
  expire_reservation-IsLowering = record {
    same_id = λ t. refl;
    same_items = λ t h. h;
    lowers = λ k t. ground (arith, t.reservation);
  }

  pub expire_holds-Inv : (db : Db) → Inv now db → Inv now (expire_holds db at)
  unfolding expire_holds
  expire_holds-Inv db inv =
      map-Inv now (record db { transactions = map (expire_status at) db.transactions })
        (expire_reservation at) expire_reservation-IsLowering
        (map-Inv now db (expire_status at) expire_status-IsLowering inv)

module _ (now : ℕ) where
  pub refund-IsLowering :
      (input : CollectedCheckoutInput) (reason : RefundReason)
      → IsLowering now (with_refund input reason)
  unfolding with_refund
  refund-IsLowering input reason = record {
    same_id = λ t. refl;
    same_items = λ t h. h;
    lowers = λ k t. ground (arith, t.reservation);
  }

  pub success-IsLowering :
      (input : CollectedCheckoutInput) (at : ℕ) → IsLowering now (with_success input at)
  unfolding with_success
  success-IsLowering input at = record {
    same_id = λ t. refl;
    same_items = λ t h. h;
    lowers = λ k t. omega arith;
  }

  initialization-IsLowering :
      (input : InitializationInput) → IsLowering now (with_initialization input)
  initialization-IsLowering input = record {
    same_id = λ t. refl;
    same_items = λ t h. h;
    lowers = λ k t. omega arith;
  }

  failure-IsLowering : IsLowering now fail_initialization
  failure-IsLowering = record {
    same_id = λ t. ground arith;
    same_items = λ t h. elim (Bool-cases (is_pending t.status)) [
      | inl waiting ↦ rw waiting h
      | inr done ↦ rw done h
    ];
    lowers = λ k t. ground (arith, t.reservation);
  }

  cancellation-IsLowering : (r : Reservation) → IsLowering now (with_cancellation r)
  cancellation-IsLowering r = record {
    same_id = λ t. refl;
    same_items = λ t h. h;
    lowers = λ k t. omega arith;
  }

  pub finish_initialization-Inv :
      (db : Db) (id : ℕ) (input : InitializationInput)
      → Inv now db
      → Keeps (Inv now) (finish_initialization db id input)
  unfolding finish_initialization
  finish_initialization-Inv db id input inv = Keeps->>= _ _ λ t found.
      kept _ (write-Inv now db id (with_initialization input) (initialization-IsLowering input) inv)

  pub initialization_fails-Inv :
      (db : Db) (id : ℕ) → Inv now db → Inv now (initialization_fails db id)
  unfolding initialization_fails
  initialization_fails-Inv db id inv =
      write-Inv now db id fail_initialization failure-IsLowering inv

  pub cancel-Inv : (db : Db) (id user_id : ℕ) → Inv now db → Keeps (Inv now) (cancel db id user_id)
  unfolding cancel
  cancel-Inv db id user_id inv = Keeps->>= _ _ λ t found. Keeps->>= _ _ λ event_id known.
      Keeps->>= _ _ λ r reserved. Keeps->>= _ _ λ event locked.
        Keeps->> _ _ λ fresh.
          kept _ (write-Inv now db id (with_cancellation r) (cancellation-IsLowering r) inv)
