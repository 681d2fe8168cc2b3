-- ===== src/Checkout/Keys.antt =====
-- The idempotency key of `create`.
use Prim.Native.String.{String}
use text.Mathlib.TextPositions.{eq_refl}
use gathergo_backend.Base.{
  some-eq-some, ℕ, ◌+◌, ◌*◌, ◌≡◌, refl, sym, ap, ◌∙◌, inl, inr, Bool, true, false, not, some, List,
  [], ◌∷◌, ◌++◌, arith, ltb, ==_iff, if◌then◌else◌, Option-cases, ok, throw_if, or_throw,
  or_throw-eq-ok, throw_if-eq-ok, ◌>>=◌, ◌>>◌, >>=-eq-ok, >>-eq-ok, if-cases, ok-eq-ok, subst, find,
  find-append_last, update_first,
}
use gathergo_backend.Checkout.{
  Transaction, Db, CheckoutError, invalid_key, record_not_found, unique_violation, has_id,
}
use gathergo_backend.Checkout.Inventory.{lock_checkout_event}
use gathergo_backend.Checkout.Issuance.{PlanItem, with_confirmation, issue}
use gathergo_backend.Checkout.Capacity.{assert_capacity}
use gathergo_backend.Checkout.Create.{
  Config, CreateCheckoutInput, new_transaction, with_hold, with_free_success, repeats_ticket,
  eq_text, has_checkout_key, is_active_checkout, assert_no_active, answer, finish_create,
  create_new, create_or_replay, check_items, create,
}
use gathergo_backend.Checkout.Stock.{IsFresh}
use gathergo_backend.Checkout.Stock.Creates.{fresh-find}
use gathergo_backend.Checkout.Stock.Issue.{issue-rows}

update_first-last :
    (id : ℕ) (f : Transaction → Transaction) (ts : List Transaction) (t : Transaction)
    → IsFresh id ts
    → has_id id t ≡ true
    → update_first (has_id id) f (ts ++ t ∷ []) ≡ ts ++ f t ∷ []
unfolding update_first
update_first-last id f [] t fresh own = rw own refl
update_first-last id f (x ∷ ts) t (h, fresh) own =
    rw h (ap (λ us. x ∷ us) (update_first-last id f ts t fresh own))

answer-row :
    (db db' : Db) (id : ℕ) (t' : Transaction)
    → answer db id ≡ ok (db', t')
    → (db' ≡ db) × (find (has_id id) db.transactions ≡ some t')
answer-row db db' id t' e =
    let (t, found, last) =
      >>=-eq-ok (or_throw (find (has_id id) db.transactions) record_not_found) _ e in
    let same = ok-eq-ok {E = CheckoutError} (db, t) (db', t') last in
    (ap (λ x. x.0) (sym same), or_throw-eq-ok _ _ found ∙ ap (λ x. some x.1) same)

module _ (config : Config) (now id : ℕ) (input : CreateCheckoutInput) where
  -- The rows of before, and the one row of the request.
  abbrev Appends : List Transaction → Db → Transaction → Type 0
  Appends ts db' t' =
      (db'.transactions ≡ ts ++ t' ∷ [])
      × (t'.user_id ≡ input.user_id)
      × (t'.idempotency_key ≡ some input.idempotency_key)
      × (t'.request_hash ≡ some input.request_hash)

  answer-Appends :
      (ts : List Transaction) (db db' : Db) (row t' : Transaction)
      → IsFresh id ts
      → has_id id row ≡ true
      → Appends ts db row
      → answer db id ≡ ok (db', t')
      → Appends ts db' t'
  answer-Appends ts db db' row t' fresh own (rows, user, key, hash) e =
      let (same, found) = answer-row db db' id t' e in
      let last = find-append_last (has_id id) ts row (fresh-find id ts fresh) own in
      let this = some-eq-some row t' (sym last ∙ ap (find (has_id id)) (sym rows) ∙ found) in
      subst (λ r. Appends ts db' r) this (ap (λ x. x.transactions) same ∙ rows, user, key, hash)

  finish_create-Appends :
      (ts : List Transaction) (db db' : Db) (plan : List PlanItem) (t' : Transaction)
      → IsFresh id ts
      → db.transactions ≡ ts ++ new_transaction input id ∷ []
      → finish_create config db input now id plan ≡ ok (db', t')
      → Appends ts db' t'
  unfolding finish_create
  finish_create-Appends ts db db' plan t' fresh rows e =
      let row = new_transaction input id in
      let own = (==_iff id id).1 refl in
      let paid = ltb 0 input.fields.amount in
      let held_row = with_hold (now + (if paid then config.hold_seconds * 1000 else 0)) plan in
      let reserved : Db = record db {
        transactions = update_first (has_id id) held_row db.transactions;
      } in
      let reserved_rows : reserved.transactions ≡ ts ++ held_row row ∷ [] =
        ap (update_first (has_id id) held_row) rows
        ∙ update_first-last id held_row ts row fresh own in
      elim (if-cases paid _ _ (ok (db', t')) e) [
        | inl (_, answered) ↦
            answer-Appends ts reserved db' (held_row row) t' fresh own
              (reserved_rows, refl, refl, refl) answered
        | inr (_, free) ↦
            let (issued, got, answered) =
              >>=-eq-ok (issue config.code reserved input.event_id (held_row row) plan now) _
                free in
            let (_, issued_rows) =
              issue-rows config.code reserved input.event_id (held_row row) plan now issued got in
            let confirmed_row = with_confirmation now (held_row row) in
            let last_rows =
              ap (update_first (has_id id) (with_free_success now)) (
                issued_rows
                ∙ ap (update_first (has_id id) (with_confirmation now)) reserved_rows
                ∙ update_first-last id (with_confirmation now) ts (held_row row) fresh own)
              ∙ update_first-last id (with_free_success now) ts confirmed_row fresh own in
            answer-Appends ts
              (record issued {
                transactions = update_first (has_id id) (with_free_success now) issued.transactions;
              })
              db' (with_free_success now confirmed_row) t' fresh own (last_rows, refl, refl, refl)
              answered
      ]

  create_new-Appends :
      (db db' : Db) (t' : Transaction)
      → IsFresh id db.transactions
      → create_new config db input now id ≡ ok (db', t')
      → Appends db.transactions db' t'
  unfolding create_new
  create_new-Appends db db' t' fresh e =
      let (event, locked, e1) = >>=-eq-ok (lock_checkout_event db input.event_id) _ e in
      let (idle, e2) =
        >>-eq-ok
          (assert_no_active
            (find (is_active_checkout input.user_id input.event_id now) db.transactions))
          _ e1 in
      let t = new_transaction input id in
      let opened : Db = record db { transactions = db.transactions ++ t ∷ [] } in
      let (plan, checked, e3) = >>=-eq-ok (assert_capacity opened input.event_id t now true) _ e2 in
      let (once, e4) = >>-eq-ok (throw_if (repeats_ticket plan) unique_violation) _ e3 in
      finish_create-Appends db.transactions opened db' plan t' fresh refl e4

not-false : (b : Bool) → not b ≡ false → b ≡ true
not-false b e = ground arith

keyed :
    (user_id : ℕ) (key : String) (t : Transaction)
    → t.user_id ≡ user_id
    → t.idempotency_key ≡ some key
    → has_checkout_key user_id key t ≡ true
keyed user_id key t user keyed_ =
    rw (user, keyed_, eq_refl key, (==_iff user_id user_id).1 refl) refl

create_replays :
    (config : Config) (db : Db) (input : CreateCheckoutInput) (now id : ℕ) (t : Transaction)
    → config.is_uuid input.idempotency_key ≡ true
    → check_items config input ≡ ok tt
    → find (has_checkout_key input.user_id input.idempotency_key) db.transactions ≡ some t
    → eq_text t.request_hash input.request_hash ≡ true
    → create config db input now id ≡ ok (db, t)
unfolding create ◌>>=◌ ◌>>◌
create_replays config db input now id t key items found same = rw (key, items, found, same) refl

replay-parts :
    (config : Config) (db db' : Db) (input : CreateCheckoutInput) (now id : ℕ) (t t' : Transaction)
    → create_or_replay config db input now id (some t) ≡ ok (db', t')
    → (eq_text t.request_hash input.request_hash ≡ true) × (db' ≡ db) × (t' ≡ t)
unfolding ◌>>=◌
replay-parts config db db' input now id t t' e = ground arith

-- A checkout that is created once is not created again: with a fresh id, after `create` has answered,
-- each later call with the same input, whatever its time and new id, answers the same row and changes
-- nothing.
pub create_twice :
    (config : Config) (db db' : Db) (input : CreateCheckoutInput) (now later id id' : ℕ)
    (t' : Transaction)
    → IsFresh id db.transactions
    → create config db input now id ≡ ok (db', t')
    → create config db' input later id' ≡ ok (db', t')
unfolding create
create_twice config db db' input now later id id' t' fresh e =
    let key = has_checkout_key input.user_id input.idempotency_key in
    let (uuid, e1) =
      >>-eq-ok (throw_if (not (config.is_uuid input.idempotency_key)) invalid_key) _ e in
    let (items, e2) = >>-eq-ok (check_items config input) _ e1 in
    let is_key : config.is_uuid input.idempotency_key ≡ true =
      not-false _ (throw_if-eq-ok _ _ uuid) in
    elim (Option-cases (find key db.transactions)) [
      | inl new ↦
          let (rows, user, key_, hash) =
            create_new-Appends config now id input db db' t' fresh
              (subst (λ o. create_or_replay config db input now id o ≡ ok (db', t')) new e2) in
          create_replays config db' input later id' t' is_key items
            (ap (find key) rows
              ∙ find-append_last key db.transactions t' new
                  (keyed input.user_id input.idempotency_key t' user key_))
            (rw hash (eq_refl input.request_hash))
      | inr (t, had) ↦
          let (same, unchanged, row) =
            replay-parts config db db' input now id t t'
              (subst (λ o. create_or_replay config db input now id o ≡ ok (db', t')) had e2) in
          create_replays config db' input later id' t' is_key items
            (ap (λ d. find key d.transactions) unchanged ∙ had ∙ ap (λ x. some x) (sym row))
            (subst (λ x. eq_text x.request_hash input.request_hash ≡ true) (sym row) same)
    ]
