-- ===== src/Pricing/Summary.antt =====
-- The buyer's charge and the price summary: lines 88 to 105 and 261 to 347 of payment-pricing.util.ts.
use gathergo_backend.Base.{
  ℕ, zero, suc, ◌+◌, ◌-◌, Bool, true, false, Option, none, ◌==◌, if◌then◌else◌, or_else,
}
use gathergo_backend.Pricing.Fees.{
  FeeBearer, buyer, creator, platform, PaymentProvider, Env, calculate_platform_fee_kobo,
  estimate_provider_fee_kobo, get_platform_fee_bps, get_platform_fixed_fee_kobo,
  get_platform_fee_bearer, get_provider_fee_bearer,
}

abbrev pub is_buyer : FeeBearer → Bool
is_buyer buyer = true
is_buyer creator = false
is_buyer platform = false

abbrev pub is_creator : FeeBearer → Bool
is_creator buyer = false
is_creator creator = true
is_creator platform = false

-- The loop of `resolveEstimatedChargeAmountKobo`, with the attempts that are left: `floor` is the
-- base with the buyer's platform fee, `fee` the estimate of the provider's fee on a charge.
unfoldable pub attempt_charge : ℕ → (ℕ → ℕ) → ℕ → ℕ → ℕ
attempt_charge zero fee floor charge = charge
attempt_charge (suc attempts) fee floor charge =
    let next = floor + fee charge in
    let rest = attempt_charge attempts fee floor next in if next == charge then charge else rest

unfoldable pub resolve_estimated_charge_amount_kobo :
    Env → (base buyer_platform_fee : ℕ) → PaymentProvider → FeeBearer → ℕ
unfolding attempt_charge
resolve_estimated_charge_amount_kobo env base buyer_platform_fee provider bearer =
    let charge = base + buyer_platform_fee in
    let rest = attempt_charge 12 (estimate_provider_fee_kobo env provider) charge charge in
    if is_buyer bearer then (if charge == 0 then charge else rest) else charge

-- An amount in naira: the given kobo over 100, not rounded.
pub data Naira : Type 0 where
  over_100 : ℕ → Naira

pub record PricingSummary : Type 0 where
  pub gross_amount_kobo : ℕ
  pub gross_amount_naira : Naira
  pub charge_amount_kobo : ℕ
  pub charge_amount_naira : Naira
  pub buyer_fee_total_kobo : ℕ
  pub buyer_fee_total_naira : Naira
  pub buyer_provider_fee_kobo : ℕ
  pub buyer_platform_fee_kobo : ℕ
  pub provider_fee_kobo : ℕ
  pub platform_fee_kobo : ℕ
  pub creator_borne_provider_fee_kobo : ℕ
  pub creator_borne_platform_fee_kobo : ℕ
  pub creator_payable_kobo : ℕ
  pub creator_payable_naira : Naira
  pub platform_fee_fixed_kobo : ℕ
  pub platform_fee_bps : ℕ

pub record Overrides : Type 0 where
  pub charge_amount_kobo : Option ℕ
  pub provider_fee_kobo : Option ℕ

abbrev pub no_overrides : Overrides
no_overrides = record { charge_amount_kobo = none; provider_fee_kobo = none }

unfoldable pub build_pricing_summary : Env → ℕ → PaymentProvider → Overrides → PricingSummary
build_pricing_summary env base provider overrides =
    let platform_fee = calculate_platform_fee_kobo env base in
    let provider_bearer = get_provider_fee_bearer env provider in
    let platform_bearer = get_platform_fee_bearer env in
    let buyer_platform_fee = if is_buyer platform_bearer then platform_fee else 0 in
    let charge =
      or_else overrides.charge_amount_kobo (
        resolve_estimated_charge_amount_kobo env base buyer_platform_fee provider
          provider_bearer) in
    let provider_fee =
      or_else overrides.provider_fee_kobo (estimate_provider_fee_kobo env provider charge) in
    let buyer_provider_fee =
      if is_buyer provider_bearer then charge - base - buyer_platform_fee else 0 in
    let creator_platform_fee = if is_creator platform_bearer then platform_fee else 0 in
    let creator_provider_fee = if is_creator provider_bearer then provider_fee else 0 in
    let buyer_fee_total = buyer_platform_fee + buyer_provider_fee in
    let creator_payable = base - creator_platform_fee - creator_provider_fee in
    record {
      gross_amount_kobo = base;
      gross_amount_naira = over_100 base;
      charge_amount_kobo = charge;
      charge_amount_naira = over_100 charge;
      buyer_fee_total_kobo = buyer_fee_total;
      buyer_fee_total_naira = over_100 buyer_fee_total;
      buyer_provider_fee_kobo = buyer_provider_fee;
      buyer_platform_fee_kobo = buyer_platform_fee;
      provider_fee_kobo = provider_fee;
      platform_fee_kobo = platform_fee;
      creator_borne_provider_fee_kobo = creator_provider_fee;
      creator_borne_platform_fee_kobo = creator_platform_fee;
      creator_payable_kobo = creator_payable;
      creator_payable_naira = over_100 creator_payable;
      platform_fee_fixed_kobo = get_platform_fixed_fee_kobo env;
      platform_fee_bps = get_platform_fee_bps env;
    }
