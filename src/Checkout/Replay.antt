-- ===== src/Checkout/Replay.antt =====
-- `complete` on a checkout that is settled.
use Prim.Native.String.{String}
use gathergo_backend.Base.{
  ℕ, ◌≡◌, refl, ap, ◌∙◌, inl, inr, true, some, ==_iff, if◌then◌else◌, Bool-cases, ok, ◌>>=◌,
  ok-eq-ok, subst, find, find-update_first,
}
use gathergo_backend.Checkout.{Event, Transaction, FulfillmentKey, Db, CheckoutError, has_id}
use gathergo_backend.Checkout.Complete.{
  CollectedCheckoutInput, Outcome, fulfil, give_back, is_settled, with_refund, with_success, settle,
  complete_open, complete,
}
use gathergo_backend.Checkout.Settlement.{
  complete-parts, settle_refund, settle_success, find-own, complete-open,
}

module _ (code : FulfillmentKey → String) (now : ℕ) (input : CollectedCheckoutInput) where
  -- A delivered payment that is settled is answered as it stands.
  complete_settled :
      (db : Db) (t : Transaction) (event_id : ℕ) (event : Event)
      → find (has_id input.transaction_id) db.transactions ≡ some t
      → t.event_id ≡ some event_id
      → db.events event_id ≡ some event
      → is_settled t.status ≡ true
      → complete code db input now ≡ ok (db, t)
  unfolding complete ◌>>=◌
  complete_settled db t event_id event found known locked settled =
      rw (found, known, locked, settled) refl

  abbrev IsLeft : Db → Transaction → ℕ → Event → Type 0
  IsLeft db' t' event_id event =
      (find (has_id input.transaction_id) db'.transactions ≡ some t')
      × (t'.event_id ≡ some event_id)
      × (db'.events event_id ≡ some event)
      × (is_settled t'.status ≡ true)

  settle-leaves :
      (db db' : Db) (event_id : ℕ) (t t' : Transaction) (outcome : Outcome)
      → find (has_id t.id) db.transactions ≡ some t
      → settle code db event_id t input now outcome ≡ ok (db', t')
      → (find (has_id t.id) db'.transactions ≡ some t')
        × (t'.event_id ≡ t.event_id)
        × (is_settled t'.status ≡ true)
        × (db'.events ≡ db.events)
  unfolding with_refund with_success
  settle-leaves db db' event_id t t' (fulfil plan) here e =
      let (row, events, found) = settle_success code now input db db' event_id t t' plan here e in
      (found, rw row refl, rw row refl, events)
  settle-leaves db db' event_id t t' (give_back reason) here e =
      let (row, left) = settle_refund code now input db db' event_id t t' reason e in
      (
        rw (row, left)
            (find-update_first (has_id t.id) (with_refund input reason) db.transactions t
              ((==_iff t.id t.id).1 refl) here),
        rw row refl,
        rw row refl,
        rw left refl,
      )

  -- What any call leaves is settled, in place, with its event.
  complete-leaves :
      (db db' : Db) (t' : Transaction)
      → complete code db input now ≡ ok (db', t')
      → (event_id : ℕ) × (event : Event) × IsLeft db' t' event_id event
  complete-leaves db db' t' e =
      let (t, event_id, event, found, known, locked, rest) =
        complete-parts code now input db db' t' e in
      (
        event_id,
        event,
        elim (Bool-cases (is_settled t.status)) [
          | inl settled ↦
              let still =
                subst
                  (λ b.
                    (if b then ok (db, t) else complete_open code db event_id t input now)
                    ≡ ok (db', t'))
                  settled rest in
              subst
                (λ x.
                  (find (has_id input.transaction_id) x.0.transactions ≡ some x.1)
                  × (x.1.event_id ≡ some event_id)
                  × (x.0.events event_id ≡ some event)
                  × (is_settled x.1.status ≡ true))
                {y = (db', t')} (ok-eq-ok {E = CheckoutError} _ _ still)
                (found, known, locked, settled)
          | inr unsettled ↦
              let (event_id', event', outcome, known', locked', own, judged, settled) =
                complete-open code now input db db' t t' found unsettled e in
              let (left, owned, ended, events) =
                settle-leaves db db' event_id' t t' outcome own settled in
              (
                subst (λ n. find (has_id n) db'.transactions ≡ some t')
                    (find-own code now input db t found) left,
                owned ∙ known,
                (ap (λ f. f event_id) events) ∙ locked,
                ended,
              )
        ],
      )

-- A collected payment is settled once: after `complete` has answered, each later call for the same
-- checkout, whatever the payload and the time, answers the same row and changes nothing.
pub complete_twice :
    (code : FulfillmentKey → String) (db db' : Db) (input again : CollectedCheckoutInput)
    (now later : ℕ) (t' : Transaction)
    → again.transaction_id ≡ input.transaction_id
    → complete code db input now ≡ ok (db', t')
    → complete code db' again later ≡ ok (db', t')
complete_twice code db db' input again now later t' same e =
    let (event_id, event, (found, known, locked, settled)) =
      complete-leaves code now input db db' t' e in
    complete_settled code later again db' t' event_id event (rw same found) known locked settled
