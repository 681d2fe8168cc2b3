-- ===== src/Worker/Runs.antt =====
-- The worker's own run over a refund is such a history.
use gathergo_backend.Base.{
  ℕ, ◌≡◌, refl, inl, inr, Bool, false, not, ◌||◌, List, [], ◌∷◌, ◌==◌, ==_iff, if◌then◌else◌,
  Bool-cases, Option-cases, Result-cases, find, arith,
}
use gathergo_backend.Worker.{Refund}
use gathergo_backend.Worker.Refunds.{
  Refunds, claim, change, submitted, Answers, Texts, is_paystack, is_blank, is_same_refund, submit,
  after_claim, process_one,
}
use gathergo_backend.Worker.Once.{
  Claim, Shared, claims, submits, drops, settles, holds, Reach, here, next,
}

abbrev shared : Refunds → List Claim → List ℕ → Shared
shared rows under_way submissions = record {
  rows = rows;
  claims = under_way;
  submissions = submissions;
}

module _ (texts : Texts) (at id : ℕ) (answers : Answers) (under_way : List Claim) where
  submit-Reach :
      (start : Shared) (rows : Refunds) (submissions : List ℕ)
      → Reach start (shared (change id submitted rows) under_way submissions)
      → Reach start (shared (submit texts at id answers rows) under_way submissions)
  unfolding submit
  submit-Reach start rows submissions reached = elim (Result-cases answers.created) [
    | inl (item, made) ↦
        rw made (next reached (settles texts.show texts.other_status at id item refl))
    | inr (error, threw) ↦ rw threw (next reached (holds at id error refl))
  ]

  abbrev log : Bool → List ℕ → List ℕ
  log done submissions = if done then id ∷ submissions else submissions

  after_claim-Reach :
      (start : Shared) (seen : Refund) (rows : Refunds) (submissions : List ℕ)
      → Reach start
          (shared rows (record { id = id; attempts = seen.attempts } ∷ under_way) submissions)
      → Reach start (
          shared
            (after_claim texts at id answers seen rows).0
            under_way
            (log (after_claim texts at id answers seen rows).1 submissions))
  unfolding after_claim
  after_claim-Reach start seen rows submissions reached =
      let c : Claim = record { id = id; attempts = seen.attempts } in
      let dropped = next reached (drops [] under_way c refl refl) in
      elim (Bool-cases
        (not (is_paystack seen.payment_provider) || is_blank seen.provider_transaction_id)) [
          | inl by_hand ↦ rw by_hand (next dropped (holds at id texts.operator_refunds refl))
          | inr by_provider ↦ rw by_provider (elim (Result-cases answers.listed) [
            | inr (error, threw) ↦ rw threw (next dropped (holds at id error refl))
            | inl (items, listed) ↦
                rw listed (elim (Option-cases (find (is_same_refund seen.amount_kobo) items)) [
                  | inr (item, found) ↦
                      rw found
                        (next dropped (settles texts.show texts.other_status at id item refl))
                  | inl missing ↦ rw missing (elim (Bool-cases (seen.attempts == 0)) [
                    | inl first ↦ rw first (
                        submit-Reach start rows (id ∷ submissions) (
                          next reached
                            (submits [] under_way c refl ((==_iff seen.attempts 0).0 first) refl)))
                    | inr later ↦ rw later (next dropped (holds at id texts.none_found refl))
                  ])
                ])
          ])
        ]

  claim-lost :
      (seen : Refund) (rows : Refunds)
      → (claim id at seen rows).1 ≡ false
      → (claim id at seen rows).0 ≡ rows
  unfolding claim
  claim-lost seen rows lost = elim (Option-cases (rows id)) [
    | inl missing ↦ ground (arith, missing)
    | inr (r, found) ↦ ground (arith, lost, found)
  ]

  -- The worker's handler refines the interleaved steps: what it leaves of a refund that it has read, and
  -- whether it has submitted it, is reached by a claim and by the steps of that claim, whatever the
  -- provider answers.
  pub process_one-Reach :
      (seen : Refund) (rows : Refunds) (submissions : List ℕ)
      → Reach (shared rows under_way submissions) (
          shared
            (process_one texts at id answers seen rows).0
            under_way
            (log (process_one texts at id answers seen rows).1 submissions))
  unfolding process_one
  process_one-Reach seen rows submissions = elim (Bool-cases (claim id at seen rows).1) [
    | inl won ↦ rw won (
        after_claim-Reach (shared rows under_way submissions) seen (claim id at seen rows).0
          submissions (next here (claims id at seen won refl)))
    | inr lost ↦ rw (lost, claim-lost seen rows lost) here
  ]
