-- ===== src/Wallet/Standing.antt =====
-- Lines 104 to 122, 3896 to 3972, 4044 to 4148 and 4180 to 4201 of wallet.service.ts: the stored
-- figures of a creator's payments and the status of their settlement. None of it is one transaction.
use Prim.Native.String.{String}
use text.Mathlib.Text.{◌==◌ as str_eq}
use gathergo_backend.Base.{
  ℕ, Bool, true, false, not, ◌&&◌, Option, none, some, List, [], ◌∷◌, ◌==◌, if◌then◌else◌, or_else,
  Result, ok, err,
}
use gathergo_backend.Base.Calls.{Call}
use gathergo_backend.Pricing.Fees.{Env}
use gathergo_backend.Pricing.Recorded.{
  Result as Priced, ok as priced, invalid_recorded_pricing, whole, JsonValue, null, bool, number,
  str, object, JsonObject, end, property, get_property, is_kobo, resolve_charged_amount_kobo,
  resolve_platform_fee_kobo, resolve_creator_payable_kobo,
}
use gathergo_backend.Checkout.{SettlementStatus, not_ready, held_kyc, held_risk, settlement_ready}
use gathergo_backend.Wallet.{
  Payment, PayoutProfile, Db, WalletError, invalid_pricing, is_active, is_success, is_clear,
  for_creator, of_creator, with_settlement, update_many,
}

-- `cap_kobo` is BASIC_KYC_SETTLEMENT_CAP_KOBO; `iso` is `toISOString` of a time.
pub record Config : Type 0 where
  pub env : Env
  pub cap_kobo : ℕ
  pub iso : ℕ → String

abbrev pub lift : {A : Type 0} → Priced A → Result WalletError A
lift (priced a) = ok a
lift (invalid_recorded_pricing key) = err (invalid_pricing key)

unfoldable pub normalize_json_object : JsonValue → JsonObject
normalize_json_object (object o) = o
normalize_json_object _ = end

-- `{ ...o, [key]: value }`.
unfoldable pub set_property : String → JsonValue → JsonObject → JsonObject
set_property key value end = property key value end
set_property key value (property k v rest) =
    let others = set_property key value rest in
    if str_eq k key then property k value rest else property k v others

pub data KycTier : Type 0 where
  no_tier basic full : KycTier

abbrev truthy : JsonValue → Bool
truthy null = false
truthy (bool b) = b
truthy (number (whole n)) = not (n == 0)
truthy (str s) = not (str_eq s "")
truthy _ = true

-- `a || b`.
abbrev or_json : Option JsonValue → Option JsonValue → Option JsonValue
or_json none b = b
or_json (some v) b = if truthy v then some v else b

abbrev tier_of : Option JsonValue → KycTier
tier_of (some (str s)) =
    if str_eq s "FULL" then full else if str_eq s "BASIC" then basic else no_tier
tier_of _ = no_tier

unfoldable pub resolve_kyc_tier : Option PayoutProfile → KycTier
unfolding normalize_json_object get_property
resolve_kyc_tier none = no_tier
resolve_kyc_tier (some profile) =
    let verification = normalize_json_object (or_else profile.verification_metadata null) in
    let payout = normalize_json_object profile.metadata in
    tier_of (
      or_json (get_property "kycTier" verification) (
        or_json (get_property "approvedTier" verification)
          (or_json (get_property "kycTier" payout) (get_property "approvedTier" payout))))

abbrev pub is_full : KycTier → Bool
is_full full = true
is_full _ = false

abbrev pub profile_is_active : Option PayoutProfile → Bool
profile_is_active none = false
profile_is_active (some profile) = is_active profile.status

-- The status that a payment infers from the profile of its creator and its risk.
unfoldable pub inferred_status : Option PayoutProfile → Payment → SettlementStatus
unfolding resolve_kyc_tier
inferred_status profile p =
    let active = profile_is_active profile in
    let should_be_ready = active && is_full (resolve_kyc_tier profile) && is_clear p.risk_status in
    let should_hold_risk = active && not (is_clear p.risk_status) in
    let waiting =
      if should_be_ready
      then settlement_ready
      else if should_hold_risk
      then held_risk
      else held_kyc in
    if not (is_success p.status)
    then p.settlement_status
    else elim p.settlement_status [ not_ready ↦ waiting | held_kyc ↦ waiting | other ↦ other ]

abbrev pub has_unit : JsonValue → Bool
has_unit metadata = is_kobo (get_property "amountUnit" (normalize_json_object metadata))

abbrev pub with_unit : JsonValue → JsonValue
with_unit metadata =
    if has_unit metadata
    then metadata
    else object (set_property "amountUnit" (str "KOBO") (normalize_json_object metadata))

abbrev pub or_option : Option ℕ → Option ℕ → Option ℕ
or_option none b = b
or_option (some a) b = some a

abbrev pub backfilled :
    Option PayoutProfile → Payment → (platform_fee payable charged : ℕ) → Payment
backfilled profile p platform_fee payable charged = record p {
  creator_id = or_option p.creator_id p.event_creator_id;
  recorded = record p.recorded {
    amount = charged;
    metadata = with_unit p.recorded.metadata;
    platform_fee = platform_fee;
    creator_payable = payable;
  };
  settlement_status = inferred_status profile p;
}

-- The update of one payment, which writes only the columns that differ.
unfoldable pub backfill_payment : Env → Option PayoutProfile → Payment → Result WalletError Payment
unfolding normalize_json_object set_property get_property
backfill_payment env profile p = elim (lift (resolve_platform_fee_kobo env p.recorded)) [
  | err e ↦ err e
  | ok platform_fee ↦ elim (lift (resolve_creator_payable_kobo env p.recorded)) [
    | err e ↦ err e
    | ok payable ↦ elim (lift (resolve_charged_amount_kobo p.recorded)) [
      | err e ↦ err e
      | ok charged ↦ ok (backfilled profile p platform_fee payable charged)
    ]
  ]
]

-- A payment of the creator, or one without a creator for an event of theirs.
abbrev pub to_backfill : ℕ → Payment → Bool
to_backfill creator p = elim p.creator_id [
  | some c ↦ c == creator
  | none ↦ for_creator creator p.event_creator_id
]

-- One payment after the other, and an error ends it there.
unfoldable pub backfill_rows :
    Env → Option PayoutProfile → ℕ → List Payment → List Payment × Result WalletError (Unit {0})
backfill_rows env profile creator [] = ([], ok tt)
backfill_rows env profile creator (p ∷ ps) =
    let (qs, r) = backfill_rows env profile creator ps in
    if to_backfill creator p
    then elim (backfill_payment env profile p) [ ok q ↦ (q ∷ qs, r) | err e ↦ (p ∷ ps, err e) ]
    else (p ∷ qs, r)

unfoldable pub backfill_creator_transactions : Config → ℕ → Call WalletError Db (Unit {0})
backfill_creator_transactions config creator db =
    let (rows, r) = backfill_rows config.env (db.profiles creator) creator db.payments in
    (record db { payments = rows }, r)

abbrev is_waiting : SettlementStatus → Bool
is_waiting settlement_ready = true
is_waiting held_kyc = true
is_waiting held_risk = true
is_waiting _ = false

unfoldable pub reset_unsuccessful : ℕ → List Payment → List Payment
reset_unsuccessful creator payments =
    update_many
      (λ p. of_creator creator p && not (is_success p.status) && is_waiting p.settlement_status)
      (with_settlement not_ready) payments
