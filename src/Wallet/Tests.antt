-- ===== src/Wallet/Tests.antt =====
-- Runs of the settlements on small data.
use Prim.Native.String.{String}
use gathergo_backend.Base.{
  ℕ, ◌+◌, ◌++◌, ◌≡◌, ◌≤◌, refl, true, false, none, some, List, [], ◌∷◌, ok, err, ◌>>◌, ◌>>=◌, All,
  max, put, arith, not, ◌||◌, if◌then◌else◌, ◌==◌, any, update_first, count_if,
}
use gathergo_backend.Base.Calls.{then_call, commit}
use gathergo_backend.Pricing.Fees.{
  ProviderEnv, calculate_platform_fee_kobo, get_platform_fixed_fee_kobo, get_platform_fee_bps,
}
use gathergo_backend.Pricing.Recorded.{
  JsonValue, null, str, object, end, property, json_object, get_property, recorded_kobo,
  resolve_charged_amount_kobo, resolve_gross_amount_kobo, resolve_platform_fee_kobo,
  resolve_creator_payable_kobo,
}
use gathergo_backend.Checkout.{
  TransactionStatus, SettlementStatus, held_kyc, settlement_ready, settled, RiskStatus, clear,
  review,
}
use gathergo_backend.Wallet.{
  Payment, PayoutProfile, active, SettlementRecord, SettlementRecordStatus, Db, is_settled,
  not_reversible,
}
use gathergo_backend.Wallet.Standing.{
  Config, normalize_json_object, set_property, resolve_kyc_tier, basic, inferred_status,
  backfill_payment, backfill_rows, backfill_creator_transactions, reset_unsuccessful,
}
use gathergo_backend.Wallet.Release.{
  sum_payable_where, filter, insert_by_creation, order_by_creation, is_committed_to,
  calculate_basic_kyc_exposure_kobo, release, release_all, apply_basic_cap, hold_risky, make_ready,
  sync_tier, sync_profile, sync_after_backfill, sync_creator_settlement_status,
  refresh_creator_settlement_status,
}
use gathergo_backend.Wallet.Settle.{
  DashboardActor, assert_admin, load_ready_settlement_transactions, sum_payable, allocate, set_size,
  mem, allocation_ids, CreateSettlement, prepare_settlement, complete_read, complete_settlement,
}
use gathergo_backend.Wallet.Create.{create_settlement}
use gathergo_backend.Wallet.Ledger.{sum_allocated, Inv}
use gathergo_backend.Wallet.Reach.{
  here, next, creates, refreshes, Reach-sound_ledger, Reach-paid_final,
}
use gathergo_backend.Wallet.Kyc.{
  verified, in_progress, business, Checks, matched, mismatch, to_basic, to_full,
  can_auto_approve_kyc_tier, derive_verification_workflow_status,
}
use gathergo_backend.Wallet.Kyc.Approval.{full-approval}
use gathergo_backend.Wallet.Names.{
  shared_count, set_size as set_size_of_names, first, last, match_tokens,
}
use gathergo_backend.Wallet.Names.Symmetry.{match_tokens-sym}
use gathergo_backend.Wallet.Cap.Refreshed.{refresh_basic-capped}

abbrev no_provider : ProviderEnv
no_provider = record {
  fee_bps = none;
  fixed_fee = none;
  waiver_below = none;
  fee_cap = none;
  fee_bearer = none;
}

abbrev config : Config
config = record {
  env = record {
    platform_fee_bps = none;
    platform_fixed_fee = none;
    paystack_env = no_provider;
    alat_env = no_provider;
    checkout_provider_fee_bearer = none;
    checkout_platform_fee_bearer = none;
    settlement_fee_bearer = none;
  };
  cap_kobo = 1000;
  iso = λ now. "2026-01-01T00:00:00.000Z";
}

abbrev paid_payment : (id at payable : ℕ) → RiskStatus → SettlementStatus → Payment
paid_payment id at payable risk standing = record {
  id = id;
  created_at = at;
  creator_id = some 7;
  event_creator_id = some 7;
  recorded = record {
    amount = 2000;
    metadata = null;
    platform_fee = 100;
    provider_fee = 30;
    creator_payable = payable;
  };
  status = TransactionStatus.success;
  settlement_status = standing;
  risk_status = risk;
  settled_at = none;
}

abbrev profile : JsonValue → PayoutProfile
profile metadata = record {
  status = active;
  bank_name = some "Bank";
  account_name = some "Ada";
  account_number = some "0123456789";
  metadata = metadata;
  verification_metadata = none;
}

abbrev tier : String → JsonValue
tier name = object (property "kycTier" (str name) end)

abbrev admin : DashboardActor
admin = record { is_active_account = true; must_change_password = false; is_admin = true }

abbrev any_payments : CreateSettlement
any_payments = record {
  expected_amount_kobo = none;
  expected_transaction_count = none;
  transaction_ids = [];
}

abbrev start : Db
start = record {
  payments =
      paid_payment 2 20 500 clear held_kyc
      ∷ paid_payment 1 10 900 clear held_kyc
      ∷ paid_payment 3 30 50 review settlement_ready
      ∷ [];
  profiles = λ k. if k == 7 then some (profile (tier "FULL")) else none;
  settlements = λ k. none;
  allocations = [];
}

abbrev created : Db
created = (create_settlement config 7 1 any_payments admin 50 start).0

start-Inv : Inv start
unfolding sum_allocated any
start-Inv =
    (((refl, (refl, tt)), ((refl, tt), (tt, tt))), tt, λ id r e. cc, (refl, (refl, (refl, tt))))

Reach-sound_ledger_example : Inv created
Reach-sound_ledger_example =
    Reach-sound_ledger config start created
      (next here (creates 7 1 any_payments admin 50 (refl, tt) refl)) start-Inv

-- The two clear payments are settled together, the risky one is held.
created-amount :
    (create_settlement config 7 1 any_payments admin 50 start).1
    ≡ ok (record {
      creator_id = 7;
      amount = 1400;
      status = SettlementRecordStatus.pending;
      processed_at = none;
    })
unfolding create_settlement assert_admin then_call commit backfill_creator_transactions
    backfill_rows backfill_payment resolve_platform_fee_kobo resolve_creator_payable_kobo
    resolve_charged_amount_kobo resolve_gross_amount_kobo recorded_kobo json_object get_property
    normalize_json_object set_property inferred_status resolve_kyc_tier
    sync_creator_settlement_status sync_after_backfill reset_unsuccessful sync_profile hold_risky
    sync_tier make_ready prepare_settlement load_ready_settlement_transactions filter
    order_by_creation insert_by_creation sum_payable allocate set_size any count_if
    calculate_platform_fee_kobo get_platform_fixed_fee_kobo get_platform_fee_bps ◌>>◌ ◌>>=◌
created-amount = refl

abbrev paid_record : SettlementRecord
paid_record = record {
  creator_id = 7;
  amount = 500;
  status = SettlementRecordStatus.success;
  processed_at = some 40;
}

abbrev paid_start : Db
paid_start = record start {
  payments = paid_payment 2 20 500 clear settled ∷ paid_payment 1 10 900 clear held_kyc ∷ [];
  settlements = put (λ k. none) 1 paid_record;
  allocations = record { settlement_id = 1; payment_id = 2; amount = 500 } ∷ [];
}

-- A success is not reversed.
complete_paid :
    complete_settlement paid_start 1 SettlementRecordStatus.failed admin 60 ≡ err not_reversible
unfolding complete_settlement assert_admin complete_read ◌>>◌ ◌>>=◌
complete_paid = refl

paid-Inv : Inv paid_start
unfolding sum_allocated any
paid-Inv = (((refl, tt), (tt, tt)), (tt, tt), λ id r e. ground (arith, e), (refl, (refl, tt)))

abbrev refreshed : Db
refreshed = (refresh_creator_settlement_status config 7 60 paid_start).0

Reach-paid_final_example :
    (refreshed.settlements 1 ≡ some paid_record)
    × (sum_allocated 1 refreshed.allocations ≡ 500)
    × All
        (λ p.
          (not (mem p.id (allocation_ids 1 refreshed.allocations))
            || is_settled p.settlement_status)
          ≡ true)
        refreshed.payments
Reach-paid_final_example =
    Reach-paid_final config 1 paid_record refl paid_start refreshed paid-Inv refl
      (next here (refreshes 7 60 refl))

abbrev basic_start : Db
basic_start = record start {
  profiles = λ k. if k == 7 then some (profile (tier "BASIC")) else none;
}

tier-basic : resolve_kyc_tier (some (profile (tier "BASIC"))) ≡ basic
unfolding resolve_kyc_tier get_property normalize_json_object
tier-basic = refl

refreshed-ok : (refresh_creator_settlement_status config 7 60 basic_start).1 ≡ ok tt
unfolding refresh_creator_settlement_status then_call backfill_creator_transactions backfill_rows
    backfill_payment resolve_platform_fee_kobo resolve_creator_payable_kobo
    resolve_charged_amount_kobo resolve_gross_amount_kobo recorded_kobo json_object get_property
    normalize_json_object set_property inferred_status resolve_kyc_tier
    sync_creator_settlement_status sync_after_backfill reset_unsuccessful sync_profile hold_risky
    sync_tier apply_basic_cap release_all release update_first filter order_by_creation
    insert_by_creation sum_payable_where calculate_platform_fee_kobo get_platform_fixed_fee_kobo
    get_platform_fee_bps
refreshed-ok = refl

refresh_basic-capped_example :
    calculate_basic_kyc_exposure_kobo
      (refresh_creator_settlement_status config 7 60 basic_start).0.payments
      7
    ≤ max 1000 (
        sum_payable_where
          (is_committed_to 7)
          (refresh_creator_settlement_status config 7 60 basic_start).0.payments)
refresh_basic-capped_example =
    refresh_basic-capped config 7 60 basic_start (profile (tier "BASIC"))
      ((refl, (refl, tt)), ((refl, tt), (tt, tt))) refl refl tier-basic refreshed-ok

abbrev all_done : Checks
all_done = record {
  ownership = business;
  business_status = some verified;
  identity_status = some verified;
  liveness_status = some verified;
}

approved : can_auto_approve_kyc_tier to_full all_done (some matched) none ≡ true
unfolding can_auto_approve_kyc_tier
approved = refl

full-approval_example :
    (can_auto_approve_kyc_tier to_basic all_done (some matched) none ≡ true)
    × (derive_verification_workflow_status all_done ≡ in_progress)
full-approval_example = full-approval all_done (some matched) none approved

-- A token that repeats counts each time.
repeated_token :
    (match_tokens ("ADA" ∷ "ADA" ∷ "ADA" ∷ "BELLO" ∷ []) ("ADA" ∷ "OBI" ∷ []) ≡ matched)
    × (match_tokens ("ADA" ∷ "OBI" ∷ []) ("ADA" ∷ "ADA" ∷ "ADA" ∷ "BELLO" ∷ []) ≡ mismatch)
unfolding match_tokens first last set_size_of_names count_if any
repeated_token = (refl, refl)

abbrev ada : List String
ada = "ADA" ∷ "OBI" ∷ []

abbrev ada_bello : List String
ada_bello = "ADA" ∷ "N" ∷ "BELLO" ∷ []

match_tokens-sym_example :
    (set_size_of_names (ada ++ ada_bello) + shared_count ada ada_bello ≡ 5)
    × (match_tokens ada ada_bello ≡ match_tokens ada_bello ada)
unfolding any
match_tokens-sym_example =
    match_tokens-sym ada ada_bello (refl, (refl, tt)) (refl, (refl, (refl, tt)))
