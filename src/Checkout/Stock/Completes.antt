-- ===== src/Checkout/Stock/Completes.antt =====
-- The stock invariant under issuing and `complete`.
use Prim.Native.String.{String}
use gathergo_backend.Base.{
  ℕ, ◌≡◌, refl, sym, inl, inr, false, some, List, arith, ==_iff, Option-cases, Result-cases, ok,
  or_throw-eq-ok, Keeps, kept, Keeps->>=, Keeps->>, Keeps-if, subst, find, find-test, All, All-find,
  All-update_first,
}
use gathergo_backend.Checkout.{Transaction, FulfillmentKey, Db, has_id}
use gathergo_backend.Checkout.Issuance.{PlanItem, with_confirmation, issue}
use gathergo_backend.Checkout.Capacity.{assert_capacity}
use gathergo_backend.Checkout.Complete.{
  CollectedCheckoutInput, Outcome, fulfil, give_back, first_reason, judge, with_refund,
  with_success, settle, complete_open, complete,
}
use gathergo_backend.Checkout.Stock.{HasDistinctItems, HasDistinctIds, Inv}
use gathergo_backend.Checkout.Stock.Sums.{distinct-update_first}
use gathergo_backend.Checkout.Stock.Plan.{Fits}
use gathergo_backend.Checkout.Stock.Issue.{issue-IsStocked}
use gathergo_backend.Checkout.Stock.Checks.{assert_capacity-Fits, assert_capacity-once}
use gathergo_backend.Checkout.Stock.Writes.{write-Inv, refund-IsLowering, success-IsLowering}

pub issue-Inv :
    (code : FulfillmentKey → String) (db : Db) (event_id : ℕ) (t found : Transaction)
    (plan : List PlanItem) (now : ℕ) (db' : Db)
    → HasDistinctIds db.transactions
    → All HasDistinctItems db.transactions
    → find (has_id t.id) db.transactions ≡ some found
    → Fits now db t.id plan
    → issue code db event_id t plan now ≡ ok db'
    → Inv now db'
issue-Inv code db event_id t found plan now db' distinct itemized here fits e =
    let (stocked, rows) =
      issue-IsStocked code db event_id t found plan now db' distinct here fits e in
    record {
      distinct = rw rows (
          distinct-update_first (with_confirmation now) (λ t. refl) (has_id t.id) db.transactions
            distinct);
      itemized = rw rows (
          All-update_first HasDistinctItems (has_id t.id) (with_confirmation now) db.transactions
            (λ t _ h. h) itemized);
      stocked = stocked;
    }

judge-fulfil :
    (db : Db) (event_id : ℕ) (t : Transaction) (amount_kobo now : ℕ) (plan : List PlanItem)
    → judge db event_id t amount_kobo now ≡ ok (fulfil plan)
    → assert_capacity db event_id t now false ≡ ok plan
unfolding judge
judge-fulfil db event_id t amount_kobo now plan e =
    elim (Option-cases (first_reason t amount_kobo)) [
      | inr (reason, given) ↦ ground (arith, given)
      | inl sound ↦ elim (Result-cases (assert_capacity db event_id t now false)) [
        | inl (p, passed) ↦ ground (arith, sound, passed)
        | inr (error, failed) ↦ ground (arith, sound, failed)
      ]
    ]

-- The row that is found by an id has it.
find-own :
    (db : Db) (t : Transaction) (id : ℕ)
    → find (has_id id) db.transactions ≡ some t
    → find (has_id t.id) db.transactions ≡ some t
find-own db t id e =
    subst (λ n. find (has_id n) db.transactions ≡ some t)
      (sym ((==_iff t.id id).0 (find-test (has_id id) db.transactions t e))) e

module _ (code : FulfillmentKey → String) (now : ℕ) (input : CollectedCheckoutInput) where
  settle-Inv :
      (db : Db) (event_id : ℕ) (t : Transaction) (outcome : Outcome)
      → Inv now db
      → find (has_id t.id) db.transactions ≡ some t
      → judge db event_id t input.amount_kobo now ≡ ok outcome
      → Keeps (Inv now) (settle code db event_id t input now outcome)
  unfolding settle
  settle-Inv db event_id t (give_back reason) inv here judged = Keeps->> _ _ λ unrefunded.
      kept _
        (write-Inv now db t.id (with_refund input reason) (refund-IsLowering now input reason) inv)
  settle-Inv db event_id t (fulfil plan) inv here judged =
      let checked = judge-fulfil db event_id t input.amount_kobo now plan judged in
      let once =
        assert_capacity-once db event_id t now false plan checked
          (All-find HasDistinctItems (has_id t.id) db.transactions t inv.itemized here) in
      let fits = assert_capacity-Fits db event_id t now false plan inv.stocked checked once in
      Keeps->>= _ _ λ issued got. Keeps->>= _ _ λ r found. kept _ (
        write-Inv now issued t.id (with_success input now) (success-IsLowering now input now)
          (issue-Inv code db event_id t t plan now issued inv.distinct inv.itemized here fits got))

  pub complete-Inv : (db : Db) → Inv now db → Keeps (Inv now) (complete code db input now)
  unfolding complete complete_open
  complete-Inv db inv = Keeps->>= _ _ λ t found. Keeps->>= _ _ λ event_id known.
      Keeps->>= _ _ λ event locked.
        Keeps-if _ (ok (db, t)) (complete_open code db event_id t input now) (λ settled. kept _ inv)
          (λ open_. Keeps->>= _ _ λ outcome judged.
            settle-Inv db event_id t outcome inv
              (find-own db t input.transaction_id (or_throw-eq-ok _ _ found)) judged)
