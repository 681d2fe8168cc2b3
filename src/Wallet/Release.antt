-- ===== src/Wallet/Release.antt =====
-- Lines 3896 to 4042 and 4265 to 4281 of wallet.service.ts: which payments of a creator are ready for settlement, by the
-- tier of the creator, with the cap of the basic tier.
use gathergo_backend.Base.{
  ℕ, ◌+◌, Bool, true, false, not, ◌&&◌, ◌||◌, Option, none, some, List, [], ◌∷◌, ltb, leb, ◌==◌,
  if◌then◌else◌, Result, ok, err, update_first,
}
use gathergo_backend.Base.Calls.{Call, ◌>>◌, writes}
use gathergo_backend.Pricing.Recorded.{
  JsonValue, null, number, whole, str, object, end, property, resolve_creator_payable_kobo,
}
use gathergo_backend.Checkout.{
  SettlementStatus, not_ready, held_kyc, held_risk, settlement_ready, processing, settled,
}
use gathergo_backend.Wallet.{
  Payment, PayoutProfile, ProfileStatus, Db, WalletError, is_active, is_success, is_clear,
  is_committed, of_creator, with_settlement, update_many, on_payments,
}
use gathergo_backend.Wallet.Standing.{
  Config, lift, normalize_json_object, set_property, KycTier, basic, full, no_tier,
  resolve_kyc_tier, backfill_creator_transactions, reset_unsuccessful,
}

-- `_sum` of `creatorPayable`, over the payments that pass a test.
unfoldable pub sum_payable_where : (Payment → Bool) → List Payment → ℕ
sum_payable_where test [] = 0
sum_payable_where test (p ∷ ps) =
    (if test p then p.recorded.creator_payable else 0) + sum_payable_where test ps

unfoldable pub filter : (Payment → Bool) → List Payment → List Payment
filter test [] = []
filter test (p ∷ ps) = let rest = filter test ps in if test p then p ∷ rest else rest

abbrev pub is_earlier : Payment → Payment → Bool
is_earlier p q = ltb p.created_at q.created_at || (p.created_at == q.created_at && ltb p.id q.id)

unfoldable pub insert_by_creation : Payment → List Payment → List Payment
insert_by_creation p [] = p ∷ []
insert_by_creation p (q ∷ qs) =
    let rest = insert_by_creation p qs in if is_earlier p q then p ∷ q ∷ qs else q ∷ rest

-- `orderBy: [{ createdAt: 'asc' }, { id: 'asc' }]`.
unfoldable pub order_by_creation : List Payment → List Payment
order_by_creation [] = []
order_by_creation (p ∷ ps) = insert_by_creation p (order_by_creation ps)

abbrev pub is_releasable : SettlementStatus → Bool
is_releasable held_kyc = true
is_releasable held_risk = true
is_releasable not_ready = true
is_releasable settlement_ready = true
is_releasable _ = false

abbrev pub is_committed_to : ℕ → Payment → Bool
is_committed_to creator p =
    of_creator creator p && is_success p.status && is_committed p.settlement_status

abbrev is_exposed : SettlementStatus → Bool
is_exposed settlement_ready = true
is_exposed processing = true
is_exposed settled = true
is_exposed _ = false

abbrev pub is_exposed_to : ℕ → Payment → Bool
is_exposed_to creator p =
    of_creator creator p && is_success p.status && is_exposed p.settlement_status

unfoldable pub calculate_basic_kyc_exposure_kobo : List Payment → ℕ → ℕ
calculate_basic_kyc_exposure_kobo payments creator =
    sum_payable_where (is_exposed_to creator) payments

abbrev pub is_capped : ℕ → Payment → Bool
is_capped creator p =
    of_creator creator p
    && is_success p.status
    && is_clear p.risk_status
    && is_releasable p.settlement_status

abbrev tier_hold : Config → ℕ → Bool → JsonValue
tier_hold config now true = null
tier_hold config now false = object (
    property "reason" (str "BASIC_TIER_CAP_REACHED") (
      property "capKobo" (number (whole config.cap_kobo))
        (property "evaluatedAt" (str (config.iso now)) end)))

abbrev pub next_status : Bool → SettlementStatus
next_status true = settlement_ready
next_status false = held_kyc

abbrev same_status : SettlementStatus → Bool → Bool
same_status settlement_ready released = released
same_status held_kyc released = not released
same_status _ released = false

-- The write of one payment, none where it has the status already.
unfoldable pub release : Config → ℕ → Bool → Payment → Payment
unfolding normalize_json_object set_property
release config now released p = if same_status p.settlement_status released then p else record p {
  settlement_status = next_status released;
  recorded = record p.recorded {
    metadata = object (
        set_property "tierHold" (tier_hold config now released)
          (normalize_json_object p.recorded.metadata));
  };
}

abbrev pub has_payment_id : ℕ → Payment → Bool
has_payment_id id p = p.id == id

-- The loop over the payments that were read, from what is committed so far.
unfoldable pub release_all :
    Config
    → (now committed : ℕ) → List Payment
    → List Payment
    → List Payment × Result WalletError (Unit {0})
release_all config now committed [] payments = (payments, ok tt)
release_all config now committed (t ∷ ts) payments =
    elim (lift (resolve_creator_payable_kobo config.env t.recorded)) [
      | err e ↦ (payments, err e)
      | ok payable ↦
          let released = leb (committed + payable) config.cap_kobo in
          let committed' = if released then committed + payable else committed in
          release_all config now committed' ts
            (update_first (has_payment_id t.id) (release config now released) payments)
    ]

unfoldable pub apply_basic_cap : Config → (creator now : ℕ) → Call WalletError Db (Unit {0})
apply_basic_cap config creator now db =
    let committed = sum_payable_where (is_committed_to creator) db.payments in
    let clear_payments = order_by_creation (filter (is_capped creator) db.payments) in
    let (rows, r) = release_all config now committed clear_payments db.payments in
    (record db { payments = rows }, r)

abbrev risk_can_hold : SettlementStatus → Bool
risk_can_hold held_kyc = true
risk_can_hold settlement_ready = true
risk_can_hold not_ready = true
risk_can_hold _ = false

abbrev can_become_ready : SettlementStatus → Bool
can_become_ready held_kyc = true
can_become_ready held_risk = true
can_become_ready not_ready = true
can_become_ready _ = false

abbrev kyc_can_hold : SettlementStatus → Bool
kyc_can_hold settlement_ready = true
kyc_can_hold held_risk = true
kyc_can_hold _ = false

unfoldable pub hold_risky : ℕ → List Payment → List Payment
hold_risky creator payments =
    update_many
      (λ p.
        of_creator creator p
        && is_success p.status
        && risk_can_hold p.settlement_status
        && not (is_clear p.risk_status))
      (with_settlement held_risk) payments

unfoldable pub make_ready : ℕ → List Payment → List Payment
make_ready creator payments =
    update_many
      (λ p.
        of_creator creator p
        && is_success p.status
        && can_become_ready p.settlement_status
        && is_clear p.risk_status)
      (with_settlement settlement_ready) payments

unfoldable pub hold_kyc : ℕ → List Payment → List Payment
hold_kyc creator payments =
    update_many
      (λ p. of_creator creator p && is_success p.status && kyc_can_hold p.settlement_status)
      (with_settlement held_kyc) payments

-- What an active profile does by its tier; without a tier the payments are held.
unfoldable pub sync_tier : Config → (creator now : ℕ) → KycTier → Call WalletError Db (Unit {0})
sync_tier config creator now full = writes (on_payments (make_ready creator))
sync_tier config creator now basic = apply_basic_cap config creator now
sync_tier config creator now no_tier = writes (on_payments (hold_kyc creator))

unfoldable pub sync_profile : Config → (creator now : ℕ) → Bool → Call WalletError Db (Unit {0})
sync_profile config creator now true = do
  writes (on_payments (hold_risky creator))
  λ db. sync_tier config creator now (resolve_kyc_tier (db.profiles creator)) db
sync_profile config creator now false = writes (on_payments (hold_kyc creator))

unfoldable pub sync_after_backfill :
    Config → (creator : ℕ) → ProfileStatus → (now : ℕ) → Call WalletError Db (Unit {0})
sync_after_backfill config creator status now = do
  writes (on_payments (reset_unsuccessful creator))
  sync_profile config creator now (is_active status)

unfoldable pub sync_creator_settlement_status :
    Config → (creator : ℕ) → ProfileStatus → (now : ℕ) → Call WalletError Db (Unit {0})
sync_creator_settlement_status config creator status now = do
  backfill_creator_transactions config creator
  sync_after_backfill config creator status now

abbrev pub status_or_none : Option PayoutProfile → ProfileStatus
status_or_none none = ProfileStatus.not_started
status_or_none (some profile) = profile.status

unfoldable pub refresh_creator_settlement_status :
    Config → (creator now : ℕ) → Call WalletError Db (Unit {0})
refresh_creator_settlement_status config creator now db =
    sync_creator_settlement_status config creator (status_or_none (db.profiles creator)) now db
