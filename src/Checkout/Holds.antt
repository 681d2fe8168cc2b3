-- ===== src/Checkout/Holds.antt =====
-- The expiry of holds and the claim of an initialization.
use gathergo_backend.Base.{
  ℕ, ◌≡◌, refl, ap, inl, inr, false, some, List, [], ◌∷◌, arith, ◌==◌, Bool-cases, find,
  update_first,
}
use gathergo_backend.Checkout.{Transaction, Db, has_id}
use gathergo_backend.Checkout.Lifecycle.{
  can_claim, claim, claimed, claim_initialization, expire_status, expire_reservation,
}

module _ (now : ℕ) where
  abbrev expire : Transaction → Transaction
  expire t = expire_reservation now (expire_status now t)

claim-spent : (now : ℕ) (t : Transaction) → claimed (some (claim now t)) ≡ false
claim-spent now t = ground arith

claim-found :
    (id now : ℕ) (ts : List Transaction)
    → claimed (find (has_id id) (update_first (has_id id) (claim now) ts)) ≡ false
unfolding find update_first
claim-found id now [] = refl
claim-found id now (t ∷ ts) = ground (arith, claim-found id now ts)

claim-idle :
    (id now later : ℕ) (ts : List Transaction)
    → update_first (has_id id) (claim later) (update_first (has_id id) (claim now) ts)
      ≡ update_first (has_id id) (claim now) ts
unfolding update_first
claim-idle id now later [] = refl
claim-idle id now later (t ∷ ts) = elim (Bool-cases (t.id == id)) [
  | inr miss ↦ rw (miss, miss) (ap (λ us. t ∷ us) (claim-idle id now later ts))
  | inl hit ↦ elim (Bool-cases (can_claim t)) [
    | inl free ↦ rw (hit, free, hit) refl
    | inr spent ↦ rw (hit, spent, hit, spent) refl
  ]
]

-- A checkout's initialization is claimed at most once: whatever a first claim answers, a second answers
-- false and changes nothing.
pub claim_initialization-once :
    (db : Db) (id now later : ℕ)
    → ((claim_initialization (claim_initialization db id now).0 id later).1 ≡ false)
      × ((claim_initialization (claim_initialization db id now).0 id later).0.transactions
          ≡ (claim_initialization db id now).0.transactions)
unfolding claim_initialization
claim_initialization-once db id now later =
    (claim-found id now db.transactions, claim-idle id now later db.transactions)
