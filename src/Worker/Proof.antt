-- ===== src/Worker/Proof.antt =====
-- When a refund counts as done.
use Prim.Native.String.{String}
use text.Mathlib.Text.{◌==◌ as str_eq}
use gathergo_backend.Base.{
  ℕ, ◌≡◌, ◌⊎◌, refl, sym, ◌∙◌, inl, inr, Bool, true, false, not, ◌||◌, Option, none, some, List,
  ◌==◌, ==_iff, Bool-cases, Option-cases, Result-cases, ok, find, find-test, arith,
}
use gathergo_backend.Worker.{Refund}
use gathergo_backend.Worker.Refunds.{
  Refunds, claim, change, submitted, manual, settle, PaystackRefund, Answers, Texts, awaited,
  is_paystack, is_blank, is_same_refund, submit, after_claim, process_one,
}

abbrev pub is_done : Option Refund → Bool
is_done none = false
is_done (some r) = r.transaction_refunded

change-not_done :
    (id : ℕ) (f : Refund → Refund) (rows : Refunds)
    → ((r : Refund) → (f r).transaction_refunded ≡ r.transaction_refunded)
    → is_done (change id f rows id) ≡ is_done (rows id)
change-not_done id f rows keeps = elim (Option-cases (rows id)) [
  | inl missing ↦ ground (arith, missing)
  | inr (r, found) ↦ ground (arith, found, keeps r)
]

manual-not_done :
    (at id : ℕ) (error : String) (rows : Refunds)
    → is_done (manual at id error rows id) ≡ is_done (rows id)
unfolding manual
manual-not_done at id error rows = change-not_done id _ rows (λ r. ground arith)

claim-not_done :
    (at id : ℕ) (seen : Refund) (rows : Refunds)
    → is_done ((claim id at seen rows).0 id) ≡ is_done (rows id)
unfolding claim
claim-not_done at id seen rows = elim (Option-cases (rows id)) [
  | inl missing ↦ ground (arith, missing)
  | inr (r, found) ↦ ground (arith, found)
]

settle-done :
    (show : ℕ → String) (other : String → String) (at id : ℕ) (item : PaystackRefund)
    (rows : Refunds)
    → is_done (rows id) ≡ false
    → is_done (settle show other at id item rows id) ≡ true
    → str_eq item.status "processed" ≡ true
unfolding settle
settle-done show other at id item rows open' done =
    elim (Bool-cases (str_eq item.status "processed")) [
      | inl hit ↦ hit
      | inr miss ↦
          elim (Bool-cases (str_eq item.status "pending" || str_eq item.status "processing")) [
            | inl waits ↦ ground (
              arith,
              rw (miss, waits) at done,
              change-not_done id (awaited item) rows (λ r. refl),
              open',
            )
            | inr fails ↦ ground (
              arith,
              rw (miss, fails) at done,
              manual-not_done at id (other item.status) rows,
              open',
            )
          ]
    ]

-- The provider has the refund: it lists one of the amount in naira, or made it on the first attempt.
abbrev pub HasRefund : Refund → Answers → PaystackRefund → Type 0
HasRefund r answers item =
    (str_eq item.status "processed" ≡ true)
    × (((items : List PaystackRefund) × (answers.listed ≡ ok items)
          × (find (is_same_refund r.amount_kobo) items ≡ some item)
          × (item.amount ≡ r.amount_kobo))
        ⊎ ((answers.created ≡ ok item) × (r.attempts ≡ 0)))

module _ (texts : Texts) (at id : ℕ) (answers : Answers) where
  submit-done :
      (rows : Refunds)
      → is_done (rows id) ≡ false
      → is_done (submit texts at id answers rows id) ≡ true
      → (item : PaystackRefund) × (answers.created ≡ ok item)
        × (str_eq item.status "processed" ≡ true)
  unfolding submit
  submit-done rows open' done =
      let marked = change-not_done id submitted rows (λ r. refl) ∙ open' in
      elim (Result-cases answers.created) [
        | inl (item, made) ↦ (
          item,
          made,
          settle-done texts.show texts.other_status at id item (change id submitted rows) marked
              (rw (submit, made) at done),
        )
        | inr (error, threw) ↦
            let kept = manual-not_done at id error (change id submitted rows) in
            let absurd = sym (rw (submit, threw) at done) ∙ kept ∙ marked in cc
      ]

  after_claim-done :
      (seen : Refund) (rows : Refunds)
      → is_done (rows id) ≡ false
      → is_done ((after_claim texts at id answers seen rows).0 id) ≡ true
      → (item : PaystackRefund) × HasRefund seen answers item
  unfolding after_claim
  after_claim-done seen rows open' done =
      let by_hand =
        not (is_paystack seen.payment_provider) || is_blank seen.provider_transaction_id in
      elim (Bool-cases by_hand) [
        | inl hit ↦
            let kept = manual-not_done at id texts.operator_refunds rows in
            let absurd = sym (rw (after_claim, hit) at done) ∙ kept ∙ open' in cc
        | inr miss ↦ elim (Result-cases answers.listed) [
          | inr (error, threw) ↦
              let kept = manual-not_done at id error rows in
              let absurd = sym (rw (after_claim, miss, threw) at done) ∙ kept ∙ open' in cc
          | inl (items, listed) ↦
              elim (Option-cases (find (is_same_refund seen.amount_kobo) items)) [
                | inr (item, found) ↦
                    let test = find-test (is_same_refund seen.amount_kobo) items item found in
                    (
                      item,
                      (
                        settle-done texts.show texts.other_status at id item rows open'
                            (rw (after_claim, miss, listed, found) at done),
                        inl (items, listed, found, ground (arith, test)),
                      ),
                    )
                | inl missing ↦ elim (Bool-cases (seen.attempts == 0)) [
                  | inl first ↦
                      let (item, made, processed') =
                        submit-done rows open'
                          (rw (after_claim, miss, listed, missing, first) at done) in
                      (item, (processed', inr (made, (==_iff seen.attempts 0).0 first)))
                  | inr later ↦
                      let kept = manual-not_done at id texts.none_found rows in
                      let absurd =
                        sym (rw (after_claim, miss, listed, missing, later) at done)
                        ∙ kept
                        ∙ open' in
                      cc
                ]
              ]
        ]
      ]

  -- A run of the worker marks a refund's transaction REFUNDED only on the provider's word: where the row
  -- that it read was not refunded and the row after it is, the provider has answered a refund that is
  -- processed, one in its list with the amount of this refund, or the one that it made at the first
  -- attempt.
  pub process_one-refunded :
      (seen r : Refund) (rows : Refunds)
      → rows id ≡ some r
      → r.transaction_refunded ≡ false
      → is_done ((process_one texts at id answers seen rows).0 id) ≡ true
      → (item : PaystackRefund) × HasRefund seen answers item
  unfolding process_one
  process_one-refunded seen r rows found open' done =
      let still = claim-not_done at id seen rows ∙ rw found open' in
      elim (Bool-cases (claim id at seen rows).1) [
        | inl won ↦
            after_claim-done seen (claim id at seen rows).0 still (rw (process_one, won) at done)
        | inr lost ↦ let absurd = sym (rw (process_one, lost) at done) ∙ still in cc
      ]
