-- ===== src/Wallet/Cap/Sums.antt =====
-- Sums over payments under a filter, an order and the write of a row.
use gathergo_backend.Base.{
  ℕ, ◌+◌, ◌≤◌, ◌≡◌, ◌∙◌, refl, inl, inr, Bool, true, some, List, [], ◌∷◌, if◌then◌else◌, Bool-cases,
  arith, All, find, find-cons, update_first,
}
use gathergo_backend.Wallet.{Payment}
use gathergo_backend.Wallet.Release.{
  sum_payable_where, filter, is_earlier, insert_by_creation, order_by_creation,
}

abbrev pub weight : (Payment → Bool) → Payment → ℕ
weight test p = if test p then p.recorded.creator_payable else 0

pub sum-update_first :
    (q p : Payment → Bool) (f : Payment → Payment) (xs : List Payment) (a : Payment)
    → find p xs ≡ some a
    → sum_payable_where q (update_first p f xs) + weight q a
      ≡ sum_payable_where q xs + weight q (f a)
unfolding sum_payable_where find update_first
sum-update_first q p f [] a e = cc
sum-update_first q p f (x ∷ xs) a e = elim (find-cons p x xs a e) [
  | inl (here, same) ↦ rw (here, same) (omega arith)
  | inr (miss, later) ↦ rw miss (omega (arith, sum-update_first q p f xs a later))
]

sum-insert :
    (q : Payment → Bool) (p : Payment) (ps : List Payment)
    → sum_payable_where q (insert_by_creation p ps) ≡ weight q p + sum_payable_where q ps
unfolding sum_payable_where insert_by_creation
sum-insert q p [] = refl
sum-insert q p (x ∷ xs) = elim (Bool-cases (is_earlier p x)) [
  | inl before ↦ rw before refl
  | inr after ↦ rw after (omega (arith, sum-insert q p xs))
]

pub sum-order :
    (q : Payment → Bool) (ps : List Payment)
    → sum_payable_where q (order_by_creation ps) ≡ sum_payable_where q ps
unfolding sum_payable_where order_by_creation
sum-order q [] = refl
sum-order q (p ∷ ps) = sum-insert q p (order_by_creation ps) ∙ rw (sum-order q ps) refl

-- A sum is at most the sum over one test and that over the rows of another, where each row that counts
-- passes one of these.
pub sum-split :
    (q q' keep : Payment → Bool) (ps : List Payment)
    → All (λ p. weight q p ≤ weight q' p + (if keep p then weight q p else 0)) ps
    → sum_payable_where q ps ≤ sum_payable_where q' ps + sum_payable_where q (filter keep ps)
unfolding sum_payable_where filter
sum-split q q' keep [] h = omega arith
sum-split q q' keep (p ∷ ps) (h, hs) = elim (Bool-cases (keep p)) [
  | inl hit ↦ rw hit (omega (arith, rw hit at h, sum-split q q' keep ps hs))
  | inr miss ↦ rw miss (omega (arith, rw miss at h, sum-split q q' keep ps hs))
]

-- Rows of a narrower filter.
pub All-narrow :
    (P : Payment → Type 0) (wide narrow : Payment → Bool) (ps : List Payment)
    → ((p : Payment) → narrow p ≡ true → wide p ≡ true)
    → All P (filter wide ps)
    → All P (filter narrow ps)
unfolding filter
All-narrow P wide narrow [] go h = tt
All-narrow P wide narrow (p ∷ ps) go h = elim (Bool-cases (narrow p)) [
  | inl hit ↦
      let (here, later) = rw (go p hit) at h in rw hit (here, All-narrow P wide narrow ps go later)
  | inr miss ↦ elim (Bool-cases (wide p)) [
    | inl other ↦ rw miss (All-narrow P wide narrow ps go ((rw other at h).1))
    | inr none' ↦ rw miss (All-narrow P wide narrow ps go (rw none' at h))
  ]
]
