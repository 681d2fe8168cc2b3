-- ===== src/Wallet/Cap.antt =====
-- The exposure of a creator of the basic tier: what is ready, in processing or settled.
pub mod Sums
pub mod Stored
pub mod Refreshed
use gathergo_backend.Base.{
  ℕ, ◌+◌, ◌≤◌, ◌≡◌, ◌∙◌, refl, sym, ap, subst, inl, inr, Bool, true, false, not, ◌&&◌, Option, none,
  some, List, [], ◌∷◌, ◌==◌, max, if◌then◌else◌, Bool-cases, ok, arith, All, Distinct, update_first,
  leb,
}
use gathergo_backend.Pricing.Fees.{Env}
use gathergo_backend.Pricing.Recorded.{resolve_creator_payable_kobo}
use gathergo_backend.Wallet.{Payment, Db, is_success, is_clear, is_ready, of_creator}
use gathergo_backend.Wallet.Standing.{Config, lift}
use gathergo_backend.Wallet.Release.{
  sum_payable_where, filter, order_by_creation, is_committed_to, is_exposed_to, is_capped, release,
  has_payment_id, release_all, apply_basic_cap,
}
use gathergo_backend.Wallet.Ledger.{payment_key}
use gathergo_backend.Wallet.Ledger.Loops.{Loop, start-Loop, next-Loop, write}
use gathergo_backend.Wallet.Ledger.Rows.{All-filter, All-order}
use gathergo_backend.Wallet.Cap.Sums.{weight, sum-update_first, sum-order, sum-split, All-narrow}

-- The column holds what the payment resolves to.
abbrev pub IsStored : Env → Payment → Type 0
IsStored env p = lift (resolve_creator_payable_kobo env p.recorded) ≡ ok p.recorded.creator_payable

-- A payment that is ready has no risk.
abbrev pub has_risk : ℕ → Payment → Bool
has_risk creator p =
    of_creator creator p
    && is_success p.status
    && is_ready p.settlement_status
    && not (is_clear p.risk_status)

module _ (config : Config) (creator now : ℕ) where
  release-exposed :
      (released : Bool) (t : Payment)
      → is_capped creator t ≡ true
      → weight (is_exposed_to creator) (release config now released t)
        ≡ (if released then t.recorded.creator_payable else 0)
  unfolding release
  release-exposed true t capped = ground (arith, capped)
  release-exposed false t capped = ground (arith, capped)

  release-committed :
      (released : Bool) (t : Payment)
      → is_capped creator t ≡ true
      → weight (is_committed_to creator) (release config now released t)
        ≡ weight (is_committed_to creator) t
  unfolding release
  release-committed true t capped = ground (arith, capped)
  release-committed false t capped = ground (arith, capped)

  abbrev exposure : List Payment → ℕ
  exposure ps = sum_payable_where (is_exposed_to creator) ps

  abbrev committed_of : List Payment → ℕ
  committed_of ps = sum_payable_where (is_committed_to creator) ps

  -- One payment released or held: the bound of what is exposed moves with what is committed.
  one-bound :
      (released : Bool) (t : Payment) (ts payments : List Payment) (committed n : ℕ)
      → Loop config creator now (t ∷ ts) payments
      → n ≡ t.recorded.creator_payable
      → exposure payments ≤ committed + (weight (is_exposed_to creator) t + exposure ts)
      → (exposure (write config creator now released t payments)
          ≤ (if released then committed + n else committed) + exposure ts)
        × (committed_of (write config creator now released t payments) ≡ committed_of payments)
  one-bound released t ts payments committed n h same e =
      let (found, capped) = h.1.0 in
      let after = release config now released in
      let moved =
        sum-update_first (is_exposed_to creator) (has_payment_id t.id) after payments t found in
      let kept =
        sum-update_first (is_committed_to creator) (has_payment_id t.id) after payments t found in
      let now_exposed = release-exposed released t capped in
      (
        elim (Bool-cases released) [
          | inl yes' ↦ rw yes' (omega (arith, e, same, rw yes' at moved, rw yes' at now_exposed))
          | inr no' ↦ rw no' (omega (arith, e, same, rw no' at moved, rw no' at now_exposed))
        ],
        omega (arith, kept, release-committed released t capped),
      )

  within-cap :
      (committed n bound : ℕ)
      → committed ≤ bound
      → config.cap_kobo ≤ bound
      → (if leb (committed + n) config.cap_kobo then committed + n else committed) ≤ bound
  within-cap committed n bound h k = ground (arith, h, k)

  pub release_all-bound :
      (ts : List Payment) (committed bound : ℕ) (payments : List Payment)
      → Loop config creator now ts payments
      → All (IsStored config.env) ts
      → exposure payments ≤ committed + exposure ts
      → committed ≤ bound
      → config.cap_kobo ≤ bound
      → (exposure (release_all config now committed ts payments).0 ≤ bound)
        × (committed_of (release_all config now committed ts payments).0 ≡ committed_of payments)
  unfolding release_all sum_payable_where
  release_all-bound [] committed bound payments h k e within cap = (omega (arith, e, within), refl)
  release_all-bound (t ∷ ts) committed bound payments h (stored, k) e within cap =
      let n = t.recorded.creator_payable in
      let released = leb (committed + n) config.cap_kobo in
      let (less, same) = one-bound released t ts payments committed n h refl e in
      let (result, still) =
        release_all-bound ts (if released then committed + n else committed) bound
          (write config creator now released t payments)
          (next-Loop config creator now released t ts payments h) k less
          (within-cap committed n bound within cap) cap in
      rw (release_all, stored) (result, still ∙ same)

  exposed-split :
      (ps : List Payment)
      → All (λ p. has_risk creator p ≡ false) ps
      → All
          (λ p.
            weight (is_exposed_to creator) p
            ≤ weight (is_committed_to creator) p
              + (if is_capped creator p then weight (is_exposed_to creator) p else 0))
          ps
  exposed-split [] h = tt
  exposed-split (p ∷ ps) (h, hs) = (ground (arith, h), exposed-split ps hs)

  -- After the cap of the basic tier has been applied to payments whose columns hold what they resolve
  -- to, and of which none that is ready has a risk, the exposure of the creator is at most the cap, or
  -- what was in processing or settled where that is more; and that is as it was.
  pub apply_basic_cap-bound :
      (db : Db)
      → Distinct payment_key db.payments
      → All (IsStored config.env) (filter (of_creator creator) db.payments)
      → All (λ p. has_risk creator p ≡ false) db.payments
      → let after = (apply_basic_cap config creator now db).0.payments in
        (exposure after ≤ max config.cap_kobo (committed_of after))
        × (committed_of after ≡ committed_of db.payments)
  unfolding apply_basic_cap
  apply_basic_cap-bound db distinct stored clear' =
      let capped = filter (is_capped creator) db.payments in
      let committed = committed_of db.payments in
      let split =
        sum-split (is_exposed_to creator) (is_committed_to creator) (is_capped creator) db.payments
          (exposed-split db.payments clear') in
      let (result, still) =
        release_all-bound (order_by_creation capped) committed (max config.cap_kobo committed)
          db.payments (start-Loop config creator now db.payments distinct)
          (All-order _ capped (
            All-narrow (IsStored config.env) (of_creator creator) (is_capped creator) db.payments
              (λ p e. ground (arith, e)) stored))
          (rw (sum-order (is_exposed_to creator) capped) split) (omega arith) (omega arith) in
      (rw still result, still)
