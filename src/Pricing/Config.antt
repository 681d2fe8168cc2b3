-- ===== src/Pricing/Config.antt =====
-- `getCheckoutPricingConfig`: lines 107 to 133 and 349 to 402 of payment-pricing.util.ts. The constant texts of the
-- answer (the currency, the unit, `appliesTo`, the settlement note) are left out.
use gathergo_backend.Base.{ℕ, ◌≡◌, Bool, true, false, ◌||◌, Option, none, List, [], ◌∷◌, arith, any}
use gathergo_backend.Pricing.Fees.{
  FeeBearer, PaymentProvider, paystack, alat_transfer, ProviderFeeRule, Env,
  get_platform_fixed_fee_kobo, get_provider_fee_rule, get_provider_fee_bearer,
  get_platform_fee_bearer, get_settlement_fee_bearer,
}
use gathergo_backend.Pricing.Summary.{
  is_buyer, no_overrides, build_pricing_summary, resolve_estimated_charge_amount_kobo,
}

pub record ProviderConfig : Type 0 where
  pub rule : ProviderFeeRule
  pub available : Bool
  pub fee_bearer : FeeBearer

pub record CheckoutPricingConfig : Type 0 where
  pub provider_fee_bearer : FeeBearer
  pub platform_fee_bearer : FeeBearer
  pub settlement_fee_bearer : FeeBearer
  pub buyer_total_may_vary_by_provider : Bool
  pub platform_percentage_bps : ℕ
  pub platform_fixed_fee_kobo : ℕ
  pub platform_cap_kobo : Option ℕ
  pub paystack_config : ProviderConfig
  pub alat_config : ProviderConfig

-- `config.providers[provider]`
abbrev pub config_of : CheckoutPricingConfig → PaymentProvider → ProviderConfig
config_of c paystack = c.paystack_config
config_of c alat_transfer = c.alat_config

abbrev pub eq_provider : PaymentProvider → PaymentProvider → Bool
eq_provider paystack paystack = true
eq_provider alat_transfer alat_transfer = true
eq_provider _ _ = false

-- A list that is empty, like one that is not given, stands for both providers.
abbrev pub available_list : List PaymentProvider → List PaymentProvider
available_list [] = paystack ∷ alat_transfer ∷ []
available_list (p ∷ ps) = p ∷ ps

abbrev first_or_paystack : List PaymentProvider → PaymentProvider
first_or_paystack [] = paystack
first_or_paystack (p ∷ ps) = p

unfoldable pub get_checkout_pricing_config : Env → List PaymentProvider → CheckoutPricingConfig
unfolding any
get_checkout_pricing_config env given =
    let available = available_list given in
    let config = λ (p : PaymentProvider).
      let c : ProviderConfig = record {
        rule = get_provider_fee_rule env p;
        available = any (eq_provider p) available;
        fee_bearer = get_provider_fee_bearer env p;
      } in
      c in
    record {
      provider_fee_bearer = get_provider_fee_bearer env (first_or_paystack available);
      platform_fee_bearer = get_platform_fee_bearer env;
      settlement_fee_bearer = get_settlement_fee_bearer env;
      buyer_total_may_vary_by_provider =
          is_buyer (get_platform_fee_bearer env)
          || any (λ p. is_buyer (get_provider_fee_bearer env p)) available;
      platform_percentage_bps = 0;
      platform_fixed_fee_kobo = get_platform_fixed_fee_kobo env;
      platform_cap_kobo = none;
      paystack_config = config paystack;
      alat_config = config alat_transfer;
    }

any-false_at :
    (test : PaymentProvider → Bool) (p : PaymentProvider) (ps : List PaymentProvider)
    → any (eq_provider p) ps ≡ true
    → any test ps ≡ false
    → test p ≡ false
unfolding any
any-false_at test p [] h e = ground arith
any-false_at test paystack (paystack ∷ ps) h e = ground (arith, e)
any-false_at test paystack (alat_transfer ∷ ps) h e =
    any-false_at test paystack ps h (ground (arith, e))
any-false_at test alat_transfer (paystack ∷ ps) h e =
    any-false_at test alat_transfer ps h (ground (arith, e))
any-false_at test alat_transfer (alat_transfer ∷ ps) h e = ground (arith, e)

-- Where the configuration says that the buyer's total does not vary by provider, the price summary of
-- each available provider, with no overrides, charges just the base and shows the buyer no fee.
pub get_config-charge :
    (env : Env) (given : List PaymentProvider) (provider : PaymentProvider) (base : ℕ)
    → (get_checkout_pricing_config env given).buyer_total_may_vary_by_provider ≡ false
    → (config_of (get_checkout_pricing_config env given) provider).available ≡ true
    → let s = build_pricing_summary env base provider no_overrides in
      (s.charge_amount_kobo ≡ base) × (s.buyer_fee_total_kobo ≡ 0)
unfolding get_checkout_pricing_config build_pricing_summary resolve_estimated_charge_amount_kobo
get_config-charge env given paystack base fixed offered =
    let free =
      any-false_at (λ p. is_buyer (get_provider_fee_bearer env p)) paystack (available_list given)
        offered (ground (arith, fixed)) in
    ground (arith, fixed, free)
get_config-charge env given alat_transfer base fixed offered =
    let free =
      any-false_at (λ p. is_buyer (get_provider_fee_bearer env p)) alat_transfer
        (available_list given) offered (ground (arith, fixed)) in
    ground (arith, fixed, free)
