-- ===== src/Wallet/Ledger/Syncs.antt =====
-- The synchronization of a creator's payments keeps the ledger: it settles nothing and unsettles
-- nothing.
use gathergo_backend.Base.{
  ℕ, ◌≡◌, refl, sym, ap, inl, inr, Bool, true, false, Option, List, [], ◌∷◌, if◌then◌else◌,
  Bool-cases, Result-cases, ok, arith, Distinct, map-same,
}
use gathergo_backend.Base.Calls.{then_call, then_call-keeps, writes}
use gathergo_backend.Pricing.Fees.{Env}
use gathergo_backend.Pricing.Recorded.{
  resolve_creator_payable_kobo, resolve_platform_fee_kobo, resolve_charged_amount_kobo,
}
use gathergo_backend.Checkout.{SettlementStatus}
use gathergo_backend.Wallet.{
  Payment, PayoutProfile, ProfileStatus, Db, is_active, is_settled, with_settlement, update_many,
  on_payments,
}
use gathergo_backend.Wallet.Standing.{
  Config, lift, KycTier, full, basic, no_tier, resolve_kyc_tier, inferred_status, backfill_payment,
  to_backfill, backfill_rows, backfill_creator_transactions, reset_unsuccessful,
}
use gathergo_backend.Wallet.Release.{
  apply_basic_cap, hold_risky, make_ready, hold_kyc, sync_tier, sync_profile, sync_after_backfill,
  sync_creator_settlement_status, refresh_creator_settlement_status,
}
use gathergo_backend.Wallet.Ledger.{payment_key}
use gathergo_backend.Wallet.Ledger.Loops.{start-Loop, release_all-view}
use gathergo_backend.Wallet.Ledger.Views.{view, SameViews}

-- An `updateMany` of payments that are not settled, to a status that is not SETTLED.
waiting-view :
    (test : Payment → Bool) (s : SettlementStatus) (ps : List Payment)
    → is_settled s ≡ false
    → ((p : Payment) → test p ≡ true → is_settled p.settlement_status ≡ false)
    → SameViews ps (update_many test (with_settlement s) ps)
waiting-view test s ps unsettled waiting = sym (map-same view _ ps one)
  where
    one : (p : Payment) → view (if test p then with_settlement s p else p) ≡ view p
    one p = elim (Bool-cases (test p)) [
      | inl hit ↦ rw (hit, unsettled, waiting p hit) refl
      | inr miss ↦ rw miss refl
    ]

reset-view : (creator : ℕ) (ps : List Payment) → SameViews ps (reset_unsuccessful creator ps)
unfolding reset_unsuccessful
reset-view creator ps = waiting-view _ _ ps refl (λ p hit. ground (arith, hit))

hold_risky-view : (creator : ℕ) (ps : List Payment) → SameViews ps (hold_risky creator ps)
unfolding hold_risky
hold_risky-view creator ps = waiting-view _ _ ps refl (λ p hit. ground (arith, hit))

make_ready-view : (creator : ℕ) (ps : List Payment) → SameViews ps (make_ready creator ps)
unfolding make_ready
make_ready-view creator ps = waiting-view _ _ ps refl (λ p hit. ground (arith, hit))

hold_kyc-view : (creator : ℕ) (ps : List Payment) → SameViews ps (hold_kyc creator ps)
unfolding hold_kyc
hold_kyc-view creator ps = waiting-view _ _ ps refl (λ p hit. ground (arith, hit))

inferred-view :
    (profile : Option PayoutProfile) (p : Payment)
    → is_settled (inferred_status profile p) ≡ is_settled p.settlement_status
unfolding inferred_status
inferred-view profile p = ground arith

backfill_payment-view :
    (env : Env) (profile : Option PayoutProfile) (p q : Payment)
    → backfill_payment env profile p ≡ ok q
    → view q ≡ view p
unfolding backfill_payment
backfill_payment-view env profile p q e =
    elim (Result-cases (lift (resolve_platform_fee_kobo env p.recorded))) [
      | inr (_, f) ↦ ground (arith, f)
      | inl (fee, f) ↦ elim (Result-cases (lift (resolve_creator_payable_kobo env p.recorded))) [
        | inr (_, g) ↦ ground (arith, f, g)
        | inl (payable, g) ↦ elim (Result-cases (lift (resolve_charged_amount_kobo p.recorded))) [
          | inr (_, h) ↦ ground (arith, f, g, h)
          | inl (charged, h) ↦
              let (id, status) : (q.id ≡ p.id) × (q.settlement_status ≡ inferred_status profile p) =
                (ground (arith, f, g, h), ground (arith, f, g, h)) in
              rw (id, status, inferred-view profile p) refl
        ]
      ]
    ]

pub backfill_rows-view :
    (env : Env) (profile : Option PayoutProfile) (creator : ℕ) (ps : List Payment)
    → SameViews ps (backfill_rows env profile creator ps).0
unfolding backfill_rows
backfill_rows-view env profile creator [] = refl
backfill_rows-view env profile creator (p ∷ ps) =
    let later = backfill_rows-view env profile creator ps in
    elim (Bool-cases (to_backfill creator p)) [
      | inr other ↦ rw other (ap (λ vs. view p ∷ vs) later)
      | inl own ↦ elim (Result-cases (backfill_payment env profile p)) [
        | inl (q, e) ↦
            rw (own, e, backfill_payment-view env profile p q e) (ap (λ vs. view p ∷ vs) later)
        | inr (_, e) ↦ rw (own, e) refl
      ]
    ]

-- What the ledger shows stays as it is, and so does all that does not depend on the payments.
module _ (P : Db → Type 0) (keyed : (db : Db) → P db → Distinct payment_key db.payments)
    (closed : (db : Db) (qs : List Payment)
      → SameViews db.payments qs
      → P db
      → P (record db { payments = qs }))
    (config : Config) (creator now : ℕ) where
  apply_basic_cap-keeps : (db : Db) → P db → P (apply_basic_cap config creator now db).0
  unfolding apply_basic_cap
  apply_basic_cap-keeps db h =
      closed db _
        (release_all-view config creator now _ _ db.payments
          (start-Loop config creator now db.payments (keyed db h)))
        h

  pub backfill-keeps : (db : Db) → P db → P (backfill_creator_transactions config creator db).0
  unfolding backfill_creator_transactions
  backfill-keeps db h =
      closed db _ (backfill_rows-view config.env (db.profiles creator) creator db.payments) h

  sync_tier-keeps : (tier : KycTier) (db : Db) → P db → P (sync_tier config creator now tier db).0
  unfolding sync_tier
  sync_tier-keeps full db h = closed db _ (make_ready-view creator db.payments) h
  sync_tier-keeps basic db h = apply_basic_cap-keeps db h
  sync_tier-keeps no_tier db h = closed db _ (hold_kyc-view creator db.payments) h

  sync_profile-keeps :
      (active : Bool) (db : Db) → P db → P (sync_profile config creator now active db).0
  unfolding sync_profile then_call
  sync_profile-keeps true db h =
      sync_tier-keeps (resolve_kyc_tier (db.profiles creator)) (on_payments (hold_risky creator) db)
        (closed db _ (hold_risky-view creator db.payments) h)
  sync_profile-keeps false db h = closed db _ (hold_kyc-view creator db.payments) h

  pub sync-keeps :
      (status : ProfileStatus) (db : Db)
      → P db
      → P (sync_creator_settlement_status config creator status now db).0
  unfolding sync_creator_settlement_status sync_after_backfill
  sync-keeps status db h =
      then_call-keeps P _ (backfill_creator_transactions config creator db) (backfill-keeps db h)
        (λ _ s k.
          then_call-keeps P _ (writes (on_payments (reset_unsuccessful creator)) s)
            (closed s _ (reset-view creator s.payments) k)
            (λ _ s k. sync_profile-keeps (is_active status) s k))

  pub refresh-keeps :
      (db : Db) → P db → P (refresh_creator_settlement_status config creator now db).0
  unfolding refresh_creator_settlement_status
  refresh-keeps db h = sync-keeps _ db h
