-- ===== src/Wallet/Ledger/Loops.antt =====
-- The loop of the basic tier's cap: the payments that it has read are those of the table until it has
-- written them.
use gathergo_backend.Base.{
  ℕ, ◌+◌, ◌≡◌, ◌∙◌, refl, sym, inl, inr, Bool, true, false, some, List, [], ◌∷◌, ◌==◌,
  if◌then◌else◌, Result-cases, arith, All, All-both, Distinct, All-find_own, find-update_other,
  map-update_first, find, update_first, leb,
}
use gathergo_backend.Pricing.Recorded.{resolve_creator_payable_kobo}
use gathergo_backend.Wallet.{Payment}
use gathergo_backend.Wallet.Standing.{Config, lift}
use gathergo_backend.Wallet.Release.{
  filter, order_by_creation, is_capped, release, has_payment_id, release_all,
}
use gathergo_backend.Wallet.Ledger.{payment_key}
use gathergo_backend.Wallet.Ledger.Rows.{
  All-filter, All-order, All-filter_test, Distinct-filter, Distinct-order,
}
use gathergo_backend.Wallet.Ledger.Views.{view, SameViews}

module _ (config : Config) (creator now : ℕ) where
  abbrev IsCurrent : List Payment → Payment → Type 0
  IsCurrent payments t =
      (find (has_payment_id t.id) payments ≡ some t) × (is_capped creator t ≡ true)

  abbrev pub Loop : List Payment → List Payment → Type 0
  Loop ts payments = Distinct payment_key ts × All (IsCurrent payments) ts

  pub start-Loop :
      (payments : List Payment)
      → Distinct payment_key payments
      → Loop (order_by_creation (filter (is_capped creator) payments)) payments
  start-Loop payments d =
      let found = All-find_own payment_key payments d in
      let test = is_capped creator in
      (
        Distinct-order (filter test payments) (Distinct-filter test payments d),
        All-order (IsCurrent payments) (filter test payments) (
            All-both _ _ (filter test payments)
              (All-filter (λ t. find (has_payment_id t.id) payments ≡ some t) test payments found)
              (All-filter_test test payments)),
      )

  release-id : (released : Bool) (p : Payment) → (release config now released p).id ≡ p.id
  unfolding release
  release-id released p = ground arith

  pub release-view :
      (released : Bool) (t : Payment)
      → is_capped creator t ≡ true
      → view (release config now released t) ≡ view t
  unfolding release
  release-view true t capped = ground (arith, capped)
  release-view false t capped = ground (arith, capped)

  abbrev pub write : Bool → Payment → List Payment → List Payment
  write released t payments =
      update_first (has_payment_id t.id) (release config now released) payments

  later-IsCurrent :
      (released : Bool) (t : Payment) (ts payments : List Payment)
      → All (λ u. (t.id == u.id) ≡ false) ts
      → All (IsCurrent payments) ts
      → All (IsCurrent (write released t payments)) ts
  later-IsCurrent released t [] payments d h = tt
  later-IsCurrent released t (u ∷ ts) payments (d, ds) ((found, capped), hs) = (
    (
      find-update_other payment_key (release config now released) (release-id released) u.id t.id
            payments d
          ∙ found,
      capped,
    ),
    later-IsCurrent released t ts payments ds hs,
  )

  pub next-Loop :
      (released : Bool) (t : Payment) (ts payments : List Payment)
      → Loop (t ∷ ts) payments
      → Loop ts (write released t payments)
  next-Loop released t ts payments ((d, ds), (h, hs)) =
      (ds, later-IsCurrent released t ts payments d hs)

  pub release_all-view :
      (ts : List Payment) (committed : ℕ) (payments : List Payment)
      → Loop ts payments
      → SameViews payments (release_all config now committed ts payments).0
  unfolding release_all
  release_all-view [] committed payments h = refl
  release_all-view (t ∷ ts) committed payments h =
      elim (Result-cases (lift (resolve_creator_payable_kobo config.env t.recorded))) [
        | inr (_, failed) ↦ rw (release_all, failed) refl
        | inl (payable, priced) ↦
            let released = leb (committed + payable) config.cap_kobo in
            let committed' = if released then committed + payable else committed in
            let (found, capped) = h.1.0 in
            let one =
              map-update_first view (has_payment_id t.id) (release config now released) payments t
                found (release-view released t capped) in
            rw (release_all, priced)
              (sym one
                ∙ release_all-view ts committed' (write released t payments)
                    (next-Loop released t ts payments h))
      ]
