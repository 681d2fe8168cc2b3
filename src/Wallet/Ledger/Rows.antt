-- ===== src/Wallet/Ledger/Rows.antt =====
-- Tests, orders and updates of the payments, row by row.
use gathergo_backend.Base.{
  ℕ, ◌≡◌, refl, inl, inr, Bool, true, false, List, [], ◌∷◌, if◌then◌else◌, ◌==◌, Bool-cases, All,
  Distinct, Distinct-map, ==-sym,
}
use gathergo_backend.Wallet.{Payment, update_many}
use gathergo_backend.Wallet.Release.{filter, is_earlier, insert_by_creation, order_by_creation}
use gathergo_backend.Wallet.Ledger.{payment_key}

module _ (P : Payment → Type 0) where
  pub All-filter : (test : Payment → Bool) (ps : List Payment) → All P ps → All P (filter test ps)
  unfolding filter
  All-filter test [] h = tt
  All-filter test (p ∷ ps) (h, hs) = elim (Bool-cases (test p)) [
    | inl hit ↦ rw hit (h, All-filter test ps hs)
    | inr miss ↦ rw miss (All-filter test ps hs)
  ]

  All-insert : (p : Payment) (qs : List Payment) → P p → All P qs → All P (insert_by_creation p qs)
  unfolding insert_by_creation
  All-insert p [] h hs = (h, tt)
  All-insert p (q ∷ qs) h (k, ks) = elim (Bool-cases (is_earlier p q)) [
    | inl hit ↦ rw hit (h, (k, ks))
    | inr miss ↦ rw miss (k, All-insert p qs h ks)
  ]

  pub All-order : (ps : List Payment) → All P ps → All P (order_by_creation ps)
  unfolding order_by_creation
  All-order [] h = tt
  All-order (p ∷ ps) (h, hs) = All-insert p (order_by_creation ps) h (All-order ps hs)

pub All-filter_test :
    (test : Payment → Bool) (ps : List Payment) → All (λ p. test p ≡ true) (filter test ps)
unfolding filter
All-filter_test test [] = tt
All-filter_test test (p ∷ ps) = elim (Bool-cases (test p)) [
  | inl hit ↦ rw hit (hit, All-filter_test test ps)
  | inr miss ↦ rw miss (All-filter_test test ps)
]

pub Distinct-filter :
    (test : Payment → Bool) (ps : List Payment)
    → Distinct payment_key ps
    → Distinct payment_key (filter test ps)
unfolding filter
Distinct-filter test [] h = tt
Distinct-filter test (p ∷ ps) (h, hs) = elim (Bool-cases (test p)) [
  | inl hit ↦ rw hit (All-filter _ test ps h, Distinct-filter test ps hs)
  | inr miss ↦ rw miss (Distinct-filter test ps hs)
]

All-flip :
    (k : ℕ) (ps : List Payment)
    → All (λ q. (k == q.id) ≡ false) ps
    → All (λ q. (q.id == k) ≡ false) ps
All-flip k [] h = tt
All-flip k (p ∷ ps) (h, hs) = (==-sym payment_key k p.id h, All-flip k ps hs)

Distinct-insert :
    (p : Payment) (qs : List Payment)
    → All (λ q. (p.id == q.id) ≡ false) qs
    → Distinct payment_key qs
    → Distinct payment_key (insert_by_creation p qs)
unfolding insert_by_creation
Distinct-insert p [] h d = (tt, tt)
Distinct-insert p (q ∷ qs) (h, hs) (d, ds) = elim (Bool-cases (is_earlier p q)) [
  | inl hit ↦ rw hit ((h, hs), (d, ds))
  | inr miss ↦
      rw miss (All-insert _ p qs (==-sym payment_key p.id q.id h) d, Distinct-insert p qs hs ds)
]

pub Distinct-order :
    (ps : List Payment) → Distinct payment_key ps → Distinct payment_key (order_by_creation ps)
unfolding order_by_creation
Distinct-order [] h = tt
Distinct-order (p ∷ ps) (h, hs) =
    Distinct-insert p (order_by_creation ps) (All-order _ ps h) (Distinct-order ps hs)

-- An `updateMany` whose rows keep their ids.
module _ (test : Payment → Bool) (change : Payment → Payment)
    (keeps : (p : Payment) → (change p).id ≡ p.id) where
  update-key : (p : Payment) → (if test p then change p else p).id ≡ p.id
  update-key p = elim (Bool-cases (test p)) [ inl hit ↦ rw hit (keeps p) | inr miss ↦ rw miss refl ]

  pub update_many-Distinct :
      (ps : List Payment)
      → Distinct payment_key ps
      → Distinct payment_key (update_many test change ps)
  update_many-Distinct ps h = Distinct-map payment_key _ update-key ps h

  -- Each row that is changed is changed rightly, and so are the others as they stand.
  pub update_many-All :
      (P Q : Payment → Type 0) (ps : List Payment)
      → ((p : Payment) → test p ≡ true → P p → Q (change p))
      → ((p : Payment) → test p ≡ false → P p → Q p)
      → All P ps
      → All Q (update_many test change ps)
  update_many-All P Q [] go stay h = tt
  update_many-All P Q (p ∷ ps) go stay (h, hs) = elim (Bool-cases (test p)) [
    | inl hit ↦ rw hit (go p hit h, update_many-All P Q ps go stay hs)
    | inr miss ↦ rw miss (stay p miss h, update_many-All P Q ps go stay hs)
  ]
