-- ===== src/Checkout/Settlement.antt =====
-- The two ends of a collected payment in `complete`.
use Prim.Native.String.{String}
use gathergo_backend.Base.{
  some-eq-some, ℕ, ◌≡◌, refl, sym, ◌∙◌, inl, inr, ◌⊎◌, false, Option, none, some, List, arith,
  ==_iff, if◌then◌else◌, Result-cases, ok, or_throw, or_throw-eq-ok, ◌>>=◌, ◌>>◌, >>=-eq-ok,
  ok-eq-ok, subst, find, find-test, find-update_first,
}
use gathergo_backend.Checkout.{
  Event, Transaction, refund_required, success, Refund, RefundReason, FulfillmentKey, Db,
  CheckoutError, checkout_not_found, has_id,
}
use gathergo_backend.Checkout.Inventory.{lock_checkout_event}
use gathergo_backend.Checkout.Issuance.{PlanItem, with_confirmation, issue}
use gathergo_backend.Checkout.Stock.Issue.{issue-rows}
use gathergo_backend.Checkout.Capacity.{assert_capacity}
use gathergo_backend.Checkout.Complete.{
  CollectedCheckoutInput, Outcome, fulfil, give_back, first_reason, is_settled, is_cancelled,
  with_refund, with_success, judge, settle, complete_open, complete, write_transaction,
}

abbrev pub refund_amount : Option Refund → Option ℕ
refund_amount none = none
refund_amount (some r) = some r.amount_kobo

module _ (code : FulfillmentKey → String) (now : ℕ) (input : CollectedCheckoutInput) where
  pub complete-parts :
      (db db' : Db) (t' : Transaction)
      → complete code db input now ≡ ok (db', t')
      → (t : Transaction) × (event_id : ℕ) × (event : Event) × (find
            (has_id input.transaction_id)
            db.transactions
          ≡ some t)
        × (t.event_id ≡ some event_id)
        × (db.events event_id ≡ some event)
        × ((if is_settled t.status then ok (db, t) else complete_open code db event_id t input now)
            ≡ ok (db', t'))
  unfolding complete
  complete-parts db db' t' e =
      let (t, found, e1) =
        >>=-eq-ok (or_throw (find (has_id input.transaction_id) db.transactions) _) _ e in
      let (event_id, known, e2) = >>=-eq-ok (or_throw t.event_id _) _ e1 in
      let (event, locked, e3) = >>=-eq-ok (lock_checkout_event db event_id) _ e2 in
      (
        t,
        event_id,
        event,
        or_throw-eq-ok _ _ found,
        or_throw-eq-ok _ _ known,
        or_throw-eq-ok _ _ locked,
        e3,
      )

  abbrev GivenBack : Db → Db → Transaction → RefundReason → Transaction → Type 0
  GivenBack db db' t reason t' =
      (t' ≡ with_refund input reason t)
      × (db' ≡ write_transaction db t.id (with_refund input reason))

  pub settle_refund :
      (db db' : Db) (event_id : ℕ) (t t' : Transaction) (reason : RefundReason)
      → settle code db event_id t input now (give_back reason) ≡ ok (db', t')
      → GivenBack db db' t reason t'
  unfolding settle ◌>>=◌ ◌>>◌
  settle_refund db db' event_id t t' reason e = ground arith

  pub settle_success :
      (db db' : Db) (event_id : ℕ) (t t' : Transaction) (plan : List PlanItem)
      → find (has_id t.id) db.transactions ≡ some t
      → settle code db event_id t input now (fulfil plan) ≡ ok (db', t')
      → (t' ≡ with_success input now (with_confirmation now t))
        × (db'.events ≡ db.events)
        × (find (has_id t.id) db'.transactions ≡ some t')
  unfolding settle
  settle_success db db' event_id t t' plan here e =
      let (issued, got, e1) = >>=-eq-ok (issue code db event_id t plan now) _ e in
      let (events, rows) = issue-rows code db event_id t plan now issued got in
      let (r, found, last) =
        >>=-eq-ok
          (or_throw
            (find (has_id t.id)
              (write_transaction issued t.id (with_success input now)).transactions)
            checkout_not_found)
          _ e1 in
      let row = with_success input now (with_confirmation now t) in
      let own = (==_iff t.id t.id).1 refl in
      let at_issued : find (has_id t.id) issued.transactions ≡ some (with_confirmation now t) =
        rw rows
          (find-update_first (has_id t.id) (with_confirmation now) db.transactions t own here) in
      let at_done =
        find-update_first (has_id t.id) (with_success input now) issued.transactions
          (with_confirmation now t) own at_issued in
      subst
        (λ x.
          (x.1 ≡ row) × (x.0.events ≡ db.events) × (find (has_id t.id) x.0.transactions ≡ some x.1))
        {y = (db', t')} (ok-eq-ok {E = CheckoutError} _ _ last)
        (
          some-eq-some r row (sym (or_throw-eq-ok _ _ found) ∙ at_done),
          events,
          or_throw-eq-ok _ _ found,
        )

  judge_reason :
      (db : Db) (event_id : ℕ) (t : Transaction) (plan : List PlanItem)
      → judge db event_id t input.amount_kobo now ≡ ok (fulfil plan)
      → (t.amount ≡ input.amount_kobo) × (is_cancelled t.reservation ≡ false)
  unfolding judge first_reason
  judge_reason db event_id t plan e =
      elim (Result-cases (assert_capacity db event_id t now false)) [
        | inl (p, passed) ↦ ground (arith, passed)
        | inr (error, failed) ↦ ground (arith, failed)
      ]

  complete_open-parts :
      (db db' : Db) (event_id : ℕ) (t t' : Transaction)
      → complete_open code db event_id t input now ≡ ok (db', t')
      → (outcome : Outcome) × (judge db event_id t input.amount_kobo now ≡ ok outcome)
        × (settle code db event_id t input now outcome ≡ ok (db', t'))
  unfolding complete_open
  complete_open-parts db db' event_id t t' e = >>=-eq-ok _ _ e

  -- Paid for what was asked, and not cancelled.
  abbrev IsFulfilled : Transaction → Transaction → Type 0
  IsFulfilled t t' =
      (t'.status ≡ success)
      × (t'.fulfilled_at ≡ some now)
      × (t.amount ≡ input.amount_kobo)
      × (is_cancelled t.reservation ≡ false)

  abbrev IsGivenBack : Db → Db → Transaction → Type 0
  IsGivenBack db db' t' =
      (t'.status ≡ refund_required)
      × (refund_amount t'.refund ≡ some input.amount_kobo)
      × (t'.creator_payable ≡ 0)
      × (db'.tickets ≡ db.tickets)
      × (db'.registrations ≡ db.registrations)
      × (db'.event_tickets ≡ db.event_tickets)

  settled-outcome :
      (db db' : Db) (event_id : ℕ) (t t' : Transaction) (outcome : Outcome)
      → find (has_id t.id) db.transactions ≡ some t
      → judge db event_id t input.amount_kobo now ≡ ok outcome
      → settle code db event_id t input now outcome ≡ ok (db', t')
      → IsFulfilled t t' ⊎ IsGivenBack db db' t'
  unfolding with_refund with_success
  settled-outcome db db' event_id t t' (fulfil plan) here judged e =
      let (row, _, _) = settle_success db db' event_id t t' plan here e in
      let (paid, kept_) = judge_reason db event_id t plan judged in
      inl (rw row refl, rw row refl, paid, kept_)
  settled-outcome db db' event_id t t' (give_back reason) here judged e =
      let (row, left) = settle_refund db db' event_id t t' reason e in
      inr (rw row refl, rw row refl, rw row refl, rw left refl, rw left refl, rw left refl)

  pub find-own :
      (db : Db) (t : Transaction)
      → find (has_id input.transaction_id) db.transactions ≡ some t
      → t.id ≡ input.transaction_id
  find-own db t e =
      (==_iff t.id input.transaction_id).0
        (find-test (has_id input.transaction_id) db.transactions t e)

  pub complete-open :
      (db db' : Db) (t t' : Transaction)
      → find (has_id input.transaction_id) db.transactions ≡ some t
      → is_settled t.status ≡ false
      → complete code db input now ≡ ok (db', t')
      → (event_id : ℕ) × (event : Event) × (outcome : Outcome) × (t.event_id ≡ some event_id)
        × (db.events event_id ≡ some event)
        × (find (has_id t.id) db.transactions ≡ some t)
        × (judge db event_id t input.amount_kobo now ≡ ok outcome)
        × (settle code db event_id t input now outcome ≡ ok (db', t'))
  complete-open db db' t t' here unsettled e =
      let (s, event_id, event, found, known, locked, rest) = complete-parts db db' t' e in
      let same = some-eq-some s t (sym found ∙ here) in
      let at_row =
        subst
          (λ x.
            (if is_settled x.status then ok (db, x) else complete_open code db event_id x input now)
            ≡ ok (db', t'))
          same rest in
      let opened =
        subst
          (λ b.
            (if b then ok (db, t) else complete_open code db event_id t input now) ≡ ok (db', t'))
          unsettled at_row in
      let (outcome, judged, settled) = complete_open-parts db db' event_id t t' opened in
      (
        event_id,
        event,
        outcome,
        subst (λ x. x.event_id ≡ some event_id) same known,
        locked,
        subst (λ n. find (has_id n) db.transactions ≡ some t) (sym (find-own db t here)) here,
        judged,
        settled,
      )

  -- A collected payment of an open checkout that `complete` answers has one of two ends. Either the
  -- checkout is fulfilled at this time, and then the payment is the amount that was asked and the
  -- reservation was not cancelled. Or a refund of the whole payment is owed, the creator is owed
  -- nothing, and no ticket, registration or sold count has changed.
  pub complete_outcome :
      (db db' : Db) (t t' : Transaction)
      → find (has_id input.transaction_id) db.transactions ≡ some t
      → is_settled t.status ≡ false
      → complete code db input now ≡ ok (db', t')
      → IsFulfilled t t' ⊎ IsGivenBack db db' t'
  complete_outcome db db' t t' here unsettled e =
      let (event_id, event, outcome, _, _, own, judged, settled) =
        complete-open db db' t t' here unsettled e in
      settled-outcome db db' event_id t t' outcome own judged settled
