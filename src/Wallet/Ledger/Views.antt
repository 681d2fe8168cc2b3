-- ===== src/Wallet/Ledger/Views.antt =====
-- What the ledger reads of the payments, and that it depends on nothing else of them.
use gathergo_backend.Base.{
  ℕ, ◌≡◌, ◌∙◌, sym, ap, subst, Bool, false, List, [], ◌∷◌, map, ◌==◌, All, Distinct,
}
use gathergo_backend.Wallet.{Payment, Db, is_settled}
use gathergo_backend.Wallet.Ledger.{payment_key, paid_out, Inv}

-- All that the ledger reads of a payment.
abbrev pub view : Payment → ℕ × Bool
view p = (p.id, is_settled p.settlement_status)

abbrev pub SameViews : List Payment → List Payment → Type 0
SameViews ps qs = map view ps ≡ map view qs

cons-view :
    (p q : Payment) (ps qs : List Payment)
    → SameViews (p ∷ ps) (q ∷ qs)
    → (p.id ≡ q.id)
      × (is_settled p.settlement_status ≡ is_settled q.settlement_status)
      × SameViews ps qs
cons-view p q ps qs e = (cc, cc, cc)

views-All_key :
    (k : ℕ) (ps qs : List Payment)
    → SameViews ps qs
    → All (λ p. (k == p.id) ≡ false) ps
    → All (λ p. (k == p.id) ≡ false) qs
views-All_key k [] [] e h = tt
views-All_key k [] (q ∷ qs) e h = cc
views-All_key k (p ∷ ps) [] e h = cc
views-All_key k (p ∷ ps) (q ∷ qs) e (h, hs) =
    let (id, _, later) = cons-view p q ps qs e in (rw id at h, views-All_key k ps qs later hs)

pub views-Distinct :
    (ps qs : List Payment) → SameViews ps qs → Distinct payment_key ps → Distinct payment_key qs
views-Distinct [] [] e h = tt
views-Distinct [] (q ∷ qs) e h = cc
views-Distinct (p ∷ ps) [] e h = cc
views-Distinct (p ∷ ps) (q ∷ qs) e (h, hs) =
    let (id, _, later) = cons-view p q ps qs e in
    (
      subst (λ k. All (λ x. (k == x.id) ≡ false) qs) id (views-All_key p.id ps qs later h),
      views-Distinct ps qs later hs,
    )

views-agree :
    (paid : ℕ → Bool) (ps qs : List Payment)
    → SameViews ps qs
    → All (λ p. is_settled p.settlement_status ≡ paid p.id) ps
    → All (λ p. is_settled p.settlement_status ≡ paid p.id) qs
views-agree paid [] [] e h = tt
views-agree paid [] (q ∷ qs) e h = cc
views-agree paid (p ∷ ps) [] e h = cc
views-agree paid (p ∷ ps) (q ∷ qs) e (h, hs) =
    let (id, same, later) = cons-view p q ps qs e in
    (sym same ∙ h ∙ ap paid id, views-agree paid ps qs later hs)

pub views-Inv :
    (db : Db) (qs : List Payment)
    → SameViews db.payments qs
    → Inv db
    → Inv (record db { payments = qs })
views-Inv db qs e (dp, da, sums, agree) = (
  views-Distinct db.payments qs e dp,
  da,
  sums,
  views-agree (λ id. paid_out db.settlements db.allocations id) db.payments qs e agree,
)
