-- ===== src/Wallet/Cap/Refreshed.antt =====
-- The refresh of a creator of the basic tier as a whole.
use gathergo_backend.Base.{
  ℕ, ◌≤◌, ◌≡◌, ◌∙◌, refl, inl, inr, Bool, true, false, some, List, [], ◌∷◌, max, Bool-cases, ok,
  arith, All, Distinct,
}
use gathergo_backend.Base.Calls.{then_call, then_call-eq-ok}
use gathergo_backend.Checkout.{SettlementStatus}
use gathergo_backend.Wallet.{
  Payment, PayoutProfile, ProfileStatus, Db, is_active, of_creator, with_settlement, update_many,
  on_payments,
}
use gathergo_backend.Wallet.Standing.{
  Config, basic, resolve_kyc_tier, backfill_creator_transactions, reset_unsuccessful,
}
use gathergo_backend.Wallet.Release.{
  sum_payable_where, filter, is_committed_to, calculate_basic_kyc_exposure_kobo, hold_risky,
  apply_basic_cap, sync_tier, sync_profile, sync_after_backfill, sync_creator_settlement_status,
  status_or_none, refresh_creator_settlement_status,
}
use gathergo_backend.Wallet.Ledger.{payment_key}
use gathergo_backend.Wallet.Ledger.Rows.{update_many-Distinct}
use gathergo_backend.Wallet.Ledger.Views.{views-Distinct}
use gathergo_backend.Wallet.Ledger.Syncs.{backfill_rows-view}
use gathergo_backend.Wallet.Cap.{IsStored, has_risk, apply_basic_cap-bound}
use gathergo_backend.Wallet.Cap.Stored.{backfill_rows-IsStored}

module _ (config : Config) (creator now : ℕ) where
  held-IsStored :
      (test : Payment → Bool) (s : SettlementStatus) (ps : List Payment)
      → All (IsStored config.env) (filter (of_creator creator) ps)
      → All
          (IsStored config.env)
          (filter (of_creator creator) (update_many test (with_settlement s) ps))
  unfolding filter
  held-IsStored test s [] h = tt
  held-IsStored test s (p ∷ ps) h = elim (Bool-cases (test p)) [
    | inl hit ↦ rw hit (elim (Bool-cases (of_creator creator p)) [
      | inl own ↦ let (here, later) = rw own at h in rw own (here, held-IsStored test s ps later)
      | inr other ↦ rw other (held-IsStored test s ps (rw other at h))
    ])
    | inr miss ↦ rw miss (elim (Bool-cases (of_creator creator p)) [
      | inl own ↦ let (here, later) = rw own at h in rw own (here, held-IsStored test s ps later)
      | inr other ↦ rw other (held-IsStored test s ps (rw other at h))
    ])
  ]

  hold_risky-clear :
      (ps : List Payment) → All (λ p. has_risk creator p ≡ false) (hold_risky creator ps)
  unfolding hold_risky
  hold_risky-clear [] = tt
  hold_risky-clear (p ∷ ps) = (ground arith, hold_risky-clear ps)

  -- What the refresh leaves before the cap is applied.
  abbrev held : List Payment → List Payment
  held ps = hold_risky creator (reset_unsuccessful creator ps)

  held-ready :
      (ps : List Payment)
      → Distinct payment_key ps
      → All (IsStored config.env) (filter (of_creator creator) ps)
      → Distinct payment_key (held ps)
        × All (IsStored config.env) (filter (of_creator creator) (held ps))
        × All (λ p. has_risk creator p ≡ false) (held ps)
  unfolding hold_risky reset_unsuccessful
  held-ready ps d stored = (
    update_many-Distinct _ _ (λ p. refl) _ (update_many-Distinct _ _ (λ p. refl) ps d),
    held-IsStored _ _ _ (held-IsStored _ _ ps stored),
    hold_risky-clear (reset_unsuccessful creator ps),
  )

  backfill-profiles :
      (db : Db)
      → (backfill_creator_transactions config creator db).0.profiles creator ≡ db.profiles creator
  unfolding backfill_creator_transactions
  backfill-profiles db = refl

  sync-held :
      (s : Db) (profile : PayoutProfile) (status : ProfileStatus)
      → s.profiles creator ≡ some profile
      → is_active status ≡ true
      → resolve_kyc_tier (some profile) ≡ basic
      → sync_after_backfill config creator status now s
        ≡ apply_basic_cap config creator now (on_payments held s)
  unfolding then_call sync_after_backfill sync_profile sync_tier
  sync-held s profile status known active tier = rw (active, known, tier) refl

  refresh-held :
      (db : Db) (profile : PayoutProfile)
      → db.profiles creator ≡ some profile
      → is_active profile.status ≡ true
      → resolve_kyc_tier (some profile) ≡ basic
      → (refresh_creator_settlement_status config creator now db).1 ≡ ok tt
      → ((backfill_creator_transactions config creator db).1 ≡ ok tt)
        × (refresh_creator_settlement_status config creator now db
            ≡ apply_basic_cap config creator now
                (on_payments held (backfill_creator_transactions config creator db).0))
  unfolding refresh_creator_settlement_status sync_creator_settlement_status
  refresh-held db profile known active tier done =
      let status = status_or_none (db.profiles creator) in
      let (_, filled, opened) =
        then_call-eq-ok (λ _. sync_after_backfill config creator status now)
          (backfill_creator_transactions config creator db) done in
      (
        filled,
        opened
            ∙ sync-held (backfill_creator_transactions config creator db).0 profile status
                (backfill-profiles db ∙ known) (rw known active) tier,
      )

  -- A refresh that ends without an error, of a creator with an active profile of the basic tier, leaves
  -- an exposure of at most the cap, or of what is in processing or settled where that is more.
  pub refresh_basic-capped :
      (db : Db) (profile : PayoutProfile)
      → Distinct payment_key db.payments
      → db.profiles creator ≡ some profile
      → is_active profile.status ≡ true
      → resolve_kyc_tier (some profile) ≡ basic
      → (refresh_creator_settlement_status config creator now db).1 ≡ ok tt
      → let after = (refresh_creator_settlement_status config creator now db).0.payments in
        calculate_basic_kyc_exposure_kobo after creator
        ≤ max config.cap_kobo (sum_payable_where (is_committed_to creator) after)
  unfolding calculate_basic_kyc_exposure_kobo backfill_creator_transactions
  refresh_basic-capped db profile distinct known active tier done =
      let (filled, opened) = refresh-held db profile known active tier done in
      let rows = (backfill_creator_transactions config creator db).0.payments in
      let view = backfill_rows-view config.env (db.profiles creator) creator db.payments in
      let (d, stored, safe) =
        held-ready rows (views-Distinct db.payments rows view distinct)
          (backfill_rows-IsStored config.env (db.profiles creator) creator db.payments filled) in
      let bound =
        apply_basic_cap-bound config creator now
          (on_payments held (backfill_creator_transactions config creator db).0) d stored safe in
      rw opened bound.0
