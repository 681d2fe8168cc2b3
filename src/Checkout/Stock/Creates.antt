-- ===== src/Checkout/Stock/Creates.antt =====
-- The stock invariant under `create`.
use gathergo_backend.Base.{
  ℕ, ◌+◌, ◌*◌, ◌≡◌, refl, sym, ◌∙◌, true, Option, none, some, List, [], ◌∷◌, ◌++◌, arith, ltb,
  ==_iff, if◌then◌else◌, throw_if-eq-ok, Keeps, kept, Keeps->>=, Keeps->>, Keeps-if, find,
  find-update_first, find-append_last, update_first, All, All-append, All-update_first,
}
use gathergo_backend.Checkout.{Transaction, Db, has_id}
use gathergo_backend.Checkout.Inventory.{reserved_ticket_quantity}
use gathergo_backend.Checkout.Issuance.{PlanItem}
use gathergo_backend.Checkout.Create.{
  Config, CreateCheckoutInput, new_transaction, with_hold, with_free_success, answer, finish_create,
  create_new, create_or_replay, has_checkout_key, create,
}
use gathergo_backend.Checkout.Stock.{HasDistinctItems, HasDistinctIds, IsFresh, IsStocked, Inv}
use gathergo_backend.Checkout.Stock.Sums.{
  reserved-append, reserved-update_first, reserved_excluded-update_first, distinct-update_first,
  distinct-append_one,
}
use gathergo_backend.Checkout.Stock.Plan.{Fits, item_quantity-reserve_items}
use gathergo_backend.Checkout.Stock.Checks.{assert_capacity-Fits, assert_capacity-repeats}
use gathergo_backend.Checkout.Stock.Completes.{issue-Inv}
use gathergo_backend.Checkout.Stock.Writes.{IsLowering, write-Inv}

pub fresh-find : (id : ℕ) (ts : List Transaction) → IsFresh id ts → find (has_id id) ts ≡ none
unfolding find
fresh-find id [] h = refl
fresh-find id (t ∷ ts) (h, hs) = rw h (fresh-find id ts hs)

answer-Inv : (now id : ℕ) (db : Db) → Inv now db → Keeps (Inv now) (answer db id)
answer-Inv now id db inv = Keeps->>= _ _ λ t found. kept _ inv

module _ (config : Config) (now id : ℕ) (input : CreateCheckoutInput) where
  abbrev fresh_row : Transaction
  fresh_row = new_transaction input id

  abbrev opened : Db → Db
  opened db = record db { transactions = db.transactions ++ fresh_row ∷ [] }

  abbrev held_by : ℕ → List PlanItem → Db → Db
  held_by expires_at plan db = record db {
    transactions = update_first (has_id id) (with_hold expires_at plan) db.transactions;
  }

  opened-found :
      (db : Db)
      → IsFresh id db.transactions
      → find (has_id id) (opened db).transactions ≡ some fresh_row
  opened-found db fresh =
      find-append_last (has_id id) db.transactions fresh_row (fresh-find id db.transactions fresh)
        ((==_iff id id).1 refl)

  opened-distinct :
      (db : Db)
      → IsFresh id db.transactions
      → HasDistinctIds db.transactions
      → HasDistinctIds (opened db).transactions
  opened-distinct db fresh distinct = distinct-append_one db.transactions fresh_row distinct fresh

  opened-IsStocked : (db : Db) → IsStocked now db → IsStocked now (opened db)
  unfolding reserved_ticket_quantity
  opened-IsStocked db stocked k ticket found =
      omega
        (arith, stocked k ticket found, reserved-append k now none db.transactions (fresh_row ∷ []))

  -- What is held is at most what the plan has shown to fit.
  held-Inv :
      (db : Db) (expires_at : ℕ) (plan : List PlanItem)
      → HasDistinctIds db.transactions
      → All HasDistinctItems db.transactions
      → find (has_id id) db.transactions ≡ some fresh_row
      → Fits now db id plan
      → Inv now (held_by expires_at plan db)
  held-Inv db expires_at plan distinct itemized here fits = record {
    distinct =
        distinct-update_first (with_hold expires_at plan) (λ t. refl) (has_id id) db.transactions
          distinct;
    itemized =
        All-update_first HasDistinctItems (has_id id) (with_hold expires_at plan) db.transactions
          (λ t _ h. h) itemized;
    stocked = λ k ticket found. ground (
      arith,
      fits k ticket found,
      item_quantity-reserve_items k plan,
      reserved-update_first k now id (with_hold expires_at plan) db.transactions fresh_row distinct
          here,
    );
  }

  held-Fits :
      (db : Db) (expires_at : ℕ) (plan : List PlanItem)
      → Fits now db id plan
      → Fits now (held_by expires_at plan db) id plan
  held-Fits db expires_at plan fits k ticket found =
      rw
        (reserved_excluded-update_first k now id (with_hold expires_at plan) db.transactions
          (λ t. refl))
        (fits k ticket found)

  free-IsLowering : IsLowering now (with_free_success now)
  free-IsLowering = record {
    same_id = λ t. refl;
    same_items = λ t h. h;
    lowers = λ k t. omega arith;
  }

  finish_create-Inv :
      (db : Db) (plan : List PlanItem)
      → HasDistinctIds db.transactions
      → All HasDistinctItems db.transactions
      → find (has_id id) db.transactions ≡ some fresh_row
      → Fits now db id plan
      → Keeps (Inv now) (finish_create config db input now id plan)
  unfolding finish_create
  finish_create-Inv db plan distinct itemized here fits =
      let expires_at =
        now + (if ltb 0 input.fields.amount then config.hold_seconds * 1000 else 0) in
      let held_now = held-Inv db expires_at plan distinct itemized here fits in
      Keeps-if (ltb 0 input.fields.amount) _ _
        (λ paid. answer-Inv now id (held_by expires_at plan db) held_now)
        (λ free. Keeps->>= _ _ λ issued got. answer-Inv now id _ (
          write-Inv now issued id (with_free_success now) free-IsLowering (
            issue-Inv config.code (held_by expires_at plan db) input.event_id
              (with_hold expires_at plan fresh_row) (with_hold expires_at plan fresh_row) plan now
              issued held_now.distinct held_now.itemized
              (find-update_first (has_id id) (with_hold expires_at plan) db.transactions fresh_row
                ((==_iff id id).1 refl) here)
              (held-Fits db expires_at plan fits) got)))

  create_new-Inv :
      (db : Db)
      → IsFresh id db.transactions
      → Inv now db
      → Keeps (Inv now) (create_new config db input now id)
  unfolding create_new
  create_new-Inv db fresh inv = Keeps->>= _ _ λ event locked. Keeps->> _ _ λ idle.
      Keeps->>= _ _ λ plan checked. Keeps->> _ _ λ once.
        finish_create-Inv (opened db) plan (opened-distinct db fresh inv.distinct)
          (All-append HasDistinctItems db.transactions (fresh_row ∷ []) inv.itemized (
            λ kind.
                sym (
                  assert_capacity-repeats (opened db) input.event_id fresh_row now true plan checked
                    kind)
                ∙ throw_if-eq-ok _ _ once,
            tt,
          ))
          (opened-found db fresh)
          (assert_capacity-Fits (opened db) input.event_id fresh_row now true plan
            (opened-IsStocked db inv.stocked) checked (throw_if-eq-ok _ _ once))

  create_or_replay-Inv :
      (db : Db) (found : Option Transaction)
      → IsFresh id db.transactions
      → Inv now db
      → Keeps (Inv now) (create_or_replay config db input now id found)
  create_or_replay-Inv db none fresh inv = create_new-Inv db fresh inv
  create_or_replay-Inv db (some t) fresh inv = Keeps->>= _ _ λ t' same. kept _ inv

  pub create-Inv :
      (db : Db)
      → IsFresh id db.transactions
      → Inv now db
      → Keeps (Inv now) (create config db input now id)
  unfolding create
  create-Inv db fresh inv = Keeps->> _ _ λ key. Keeps->> _ _ λ items.
      create_or_replay-Inv db
        (find (has_checkout_key input.user_id input.idempotency_key) db.transactions) fresh inv
