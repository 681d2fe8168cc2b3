-- ===== src/Pricing/Tests.antt =====
-- Prices of one order in an environment with the default rules, and of a payment with no record.
use gathergo_backend.Base.{
  ℕ, ◌+◌, ◌≤◌, ◌≡◌, ◌≢◌, refl, max, true, false, none, some, [], ◌∷◌, arith, any,
}
use gathergo_backend.Pricing.Fees.{
  buyer, platform, paystack, ProviderEnv, Env, default_rule, get_provider_fee_rule,
  get_provider_fee_bearer, get_platform_fee_bearer, calculate_platform_fee_kobo,
  estimate_provider_fee_kobo,
}
use gathergo_backend.Pricing.Summary.{
  over_100, PricingSummary, Overrides, no_overrides, build_pricing_summary,
  resolve_estimated_charge_amount_kobo,
}
use gathergo_backend.Pricing.Estimate.{resolve_bounds}
use gathergo_backend.Pricing.Convergence.{resolve-IsFixed_of_default}
use gathergo_backend.Pricing.Totals.{summary-charge, summary-conserves, summary_collected}
use gathergo_backend.Pricing.Config.{config_of, get_checkout_pricing_config, get_config-charge}
use gathergo_backend.Pricing.Recorded.{
  null, object, JsonObject, end, property, RecordedPayment, get_property, json_object, ok,
  resolve_charged_amount_kobo, resolve_gross_amount_kobo, resolve_platform_fee_kobo,
  resolve_creator_payable_kobo,
}
use gathergo_backend.Pricing.Recorded.Laws.{summary_json, resolve-summary_json, resolve_unrecorded}

abbrev unset : ProviderEnv
unset = record {
  fee_bps = none;
  fixed_fee = none;
  waiver_below = none;
  fee_cap = none;
  fee_bearer = none;
}

abbrev env : Env
env = record {
  platform_fee_bps = none;
  platform_fixed_fee = none;
  paystack_env = unset;
  alat_env = unset;
  checkout_provider_fee_bearer = none;
  checkout_platform_fee_bearer = none;
  settlement_fee_bearer = none;
}

-- An order of 5000 naira: 125 naira for the platform and 179.57 for the provider.
charge_of_order : resolve_estimated_charge_amount_kobo env 500000 12500 paystack buyer ≡ 530457
unfolding resolve_estimated_charge_amount_kobo estimate_provider_fee_kobo get_provider_fee_rule
charge_of_order = refl

default_paystack : get_provider_fee_rule env paystack ≡ default_rule paystack
unfolding get_provider_fee_rule
default_paystack = refl

buyer_pays_provider : get_provider_fee_bearer env paystack ≡ buyer
unfolding get_provider_fee_bearer
buyer_pays_provider = refl

not_platform_provider : get_provider_fee_bearer env paystack ≢ platform
unfolding get_provider_fee_bearer
not_platform_provider e = ground arith

not_platform_platform : get_platform_fee_bearer env ≢ platform
unfolding get_platform_fee_bearer
not_platform_platform e = ground arith

covered :
    (build_pricing_summary env 500000 paystack no_overrides).creator_borne_platform_fee_kobo
      + (build_pricing_summary env 500000 paystack no_overrides).creator_borne_provider_fee_kobo
    ≤ 500000
unfolding build_pricing_summary get_provider_fee_bearer get_platform_fee_bearer
covered = omega arith

resolve-IsFixed_of_default_example :
    resolve_estimated_charge_amount_kobo env 500000 12500 paystack buyer
    ≡ 500000
      + 12500
      + estimate_provider_fee_kobo env paystack
          (resolve_estimated_charge_amount_kobo env 500000 12500 paystack buyer)
resolve-IsFixed_of_default_example =
    resolve-IsFixed_of_default env 500000 12500 paystack default_paystack

summary-conserves_example :
    (build_pricing_summary env 500000 paystack no_overrides).charge_amount_kobo
    ≡ (build_pricing_summary env 500000 paystack no_overrides).creator_payable_kobo
      + (build_pricing_summary env 500000 paystack no_overrides).platform_fee_kobo
      + (build_pricing_summary env 500000 paystack no_overrides).provider_fee_kobo
summary-conserves_example =
    summary-conserves env 500000 paystack default_paystack not_platform_provider
      not_platform_platform covered

resolve_bounds_example :
    (500000 + 12500 ≤ resolve_estimated_charge_amount_kobo env 500000 12500 paystack buyer)
    × (resolve_estimated_charge_amount_kobo env 500000 12500 paystack buyer
        ≤ 500000
          + 12500
          + estimate_provider_fee_kobo env paystack
              (resolve_estimated_charge_amount_kobo env 500000 12500 paystack buyer))
resolve_bounds_example = resolve_bounds env 500000 12500 paystack buyer

summary-charge_example :
    ((build_pricing_summary env 500000 paystack no_overrides).charge_amount_kobo
      ≡ (build_pricing_summary env 500000 paystack no_overrides).gross_amount_kobo
        + (build_pricing_summary env 500000 paystack no_overrides).buyer_fee_total_kobo)
    × ((build_pricing_summary env 500000 paystack no_overrides).buyer_provider_fee_kobo
        ≤ (build_pricing_summary env 500000 paystack no_overrides).provider_fee_kobo)
    × ((build_pricing_summary env 500000 paystack no_overrides).creator_payable_kobo
        ≤ (build_pricing_summary env 500000 paystack no_overrides).gross_amount_kobo)
summary-charge_example = summary-charge env 500000 paystack

abbrev collected : Overrides
collected = record { charge_amount_kobo = some 530500; provider_fee_kobo = some 17950 }

summary_collected_example :
    ((build_pricing_summary env 500000 paystack collected).gross_amount_kobo
        + (build_pricing_summary env 500000 paystack collected).buyer_fee_total_kobo
      ≡ max 530500 (
          (build_pricing_summary env 500000 paystack collected).gross_amount_kobo
          + (build_pricing_summary env 500000 paystack collected).buyer_platform_fee_kobo))
    × ((build_pricing_summary env 500000 paystack collected).charge_amount_kobo ≡ 530500)
    × ((build_pricing_summary env 500000 paystack collected).provider_fee_kobo ≡ 17950)
summary_collected_example = summary_collected env 500000 530500 17950 paystack buyer_pays_provider

-- The creator bears the fees of Paystack and of the platform.
abbrev creator_pays : Env
creator_pays = record env {
  checkout_provider_fee_bearer = some "creator";
  checkout_platform_fee_bearer = some "creator";
}

creator_pays-fixed :
    (get_checkout_pricing_config creator_pays (paystack ∷ [])).buyer_total_may_vary_by_provider
    ≡ false
unfolding get_checkout_pricing_config any get_platform_fee_bearer get_provider_fee_bearer
creator_pays-fixed = refl

paystack_offered :
    (config_of (get_checkout_pricing_config creator_pays (paystack ∷ [])) paystack).available ≡ true
unfolding get_checkout_pricing_config any
paystack_offered = refl

get_config-charge_example :
    ((build_pricing_summary creator_pays 500000 paystack no_overrides).charge_amount_kobo ≡ 500000)
    × ((build_pricing_summary creator_pays 500000 paystack no_overrides).buyer_fee_total_kobo ≡ 0)
get_config-charge_example =
    get_config-charge creator_pays (paystack ∷ []) paystack 500000 creator_pays-fixed
      paystack_offered

abbrev order_summary : PricingSummary
order_summary = record {
  gross_amount_kobo = 500000;
  gross_amount_naira = over_100 500000;
  charge_amount_kobo = 530457;
  charge_amount_naira = over_100 530457;
  buyer_fee_total_kobo = 30457;
  buyer_fee_total_naira = over_100 30457;
  buyer_provider_fee_kobo = 17957;
  buyer_platform_fee_kobo = 12500;
  provider_fee_kobo = 17957;
  platform_fee_kobo = 12500;
  creator_borne_provider_fee_kobo = 0;
  creator_borne_platform_fee_kobo = 0;
  creator_payable_kobo = 500000;
  creator_payable_naira = over_100 500000;
  platform_fee_fixed_kobo = 12500;
  platform_fee_bps = 0;
}

-- The model's own price of the order.
prices_order : build_pricing_summary env 500000 paystack no_overrides ≡ order_summary
unfolding build_pricing_summary resolve_estimated_charge_amount_kobo estimate_provider_fee_kobo
    get_provider_fee_rule calculate_platform_fee_kobo get_provider_fee_bearer
    get_platform_fee_bearer
prices_order = refl

abbrev recorded_metadata : JsonObject
recorded_metadata = property "pricing" (object (summary_json order_summary)) end

abbrev recorded_payment : RecordedPayment
recorded_payment = record {
  amount = 530457;
  metadata = object recorded_metadata;
  platform_fee = 0;
  provider_fee = 0;
  creator_payable = 0;
}

resolve-summary_json_example :
    (resolve_gross_amount_kobo recorded_payment ≡ ok 500000)
    × (resolve_charged_amount_kobo recorded_payment ≡ ok 530457)
    × (resolve_platform_fee_kobo env recorded_payment ≡ ok 12500)
    × (resolve_creator_payable_kobo env recorded_payment ≡ ok 500000)
unfolding json_object get_property
resolve-summary_json_example =
    resolve-summary_json env recorded_payment recorded_metadata order_summary refl refl
      (omega arith) (omega arith) (omega arith) (omega arith)

abbrev old_payment : RecordedPayment
old_payment = record {
  amount = 5000;
  metadata = null;
  platform_fee = 0;
  provider_fee = 0;
  creator_payable = 0;
}

resolve_unrecorded_example :
    (gross fee payable : ℕ) × (resolve_charged_amount_kobo old_payment ≡ ok gross)
    × (resolve_gross_amount_kobo old_payment ≡ ok gross)
    × (resolve_platform_fee_kobo env old_payment ≡ ok fee)
    × (resolve_creator_payable_kobo env old_payment ≡ ok payable)
    × (payable + fee + old_payment.provider_fee ≡ max gross (fee + old_payment.provider_fee))
unfolding json_object
resolve_unrecorded_example = resolve_unrecorded env old_payment refl refl refl
