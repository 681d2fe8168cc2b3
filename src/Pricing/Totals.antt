-- ===== src/Pricing/Totals.antt =====
-- What the figures of a price summary add up to.
use gathergo_backend.Base.{ℕ, ◌+◌, ◌≤◌, ◌≡◌, ◌≢◌, some, max, arith}
use gathergo_backend.Pricing.Fees.{
  PaymentProvider, FeeBearer, buyer, platform, Env, default_rule, get_provider_fee_rule,
  get_provider_fee_bearer, get_platform_fee_bearer, calculate_platform_fee_kobo,
}
use gathergo_backend.Pricing.Summary.{
  no_overrides, build_pricing_summary, resolve_estimated_charge_amount_kobo,
}
use gathergo_backend.Pricing.Estimate.{resolve_bounds}
use gathergo_backend.Pricing.Convergence.{resolve-IsFixed_of_default}

resolve_of_ne_buyer :
    (env : Env) (base fee : ℕ) (provider : PaymentProvider) (bearer : FeeBearer)
    → bearer ≢ buyer
    → resolve_estimated_charge_amount_kobo env base fee provider bearer ≡ base + fee
unfolding resolve_estimated_charge_amount_kobo
resolve_of_ne_buyer env base fee provider bearer h = ground arith

-- With no overrides the charge is the gross amount with the fees that the summary shows the buyer,
-- and the buyer's share of the provider's fee is at most that fee.
pub summary-charge :
    (env : Env) (base : ℕ) (provider : PaymentProvider)
    → let s = build_pricing_summary env base provider no_overrides in
      (s.charge_amount_kobo ≡ s.gross_amount_kobo + s.buyer_fee_total_kobo)
      × (s.buyer_provider_fee_kobo ≤ s.provider_fee_kobo)
      × (s.creator_payable_kobo ≤ s.gross_amount_kobo)
unfolding build_pricing_summary
summary-charge env base provider = ground (
  arith,
  resolve_bounds env base (calculate_platform_fee_kobo env base) provider
      (get_provider_fee_bearer env provider),
  resolve_bounds env base 0 provider (get_provider_fee_bearer env provider),
  resolve_of_ne_buyer env base 0 provider (get_provider_fee_bearer env provider),
  resolve_of_ne_buyer env base (calculate_platform_fee_kobo env base) provider
      (get_provider_fee_bearer env provider),
)

-- With no overrides, where the provider's rule is the default one, neither fee is the platform's to
-- bear and the base covers what the creator bears, every kobo of the charge goes to the creator, to
-- the platform's fee or to the provider's fee.
pub summary-conserves :
    (env : Env) (base : ℕ) (provider : PaymentProvider)
    → get_provider_fee_rule env provider ≡ default_rule provider
    → get_provider_fee_bearer env provider ≢ platform
    → get_platform_fee_bearer env ≢ platform
    → (build_pricing_summary env base provider no_overrides).creator_borne_platform_fee_kobo
        + (build_pricing_summary env base provider no_overrides).creator_borne_provider_fee_kobo
      ≤ base
    → let s = build_pricing_summary env base provider no_overrides in
      s.charge_amount_kobo ≡ s.creator_payable_kobo + s.platform_fee_kobo + s.provider_fee_kobo
unfolding build_pricing_summary
summary-conserves env base provider e h k covered = ground (
  arith,
  resolve-IsFixed_of_default env base (calculate_platform_fee_kobo env base) provider e,
  resolve-IsFixed_of_default env base 0 provider e,
  resolve_of_ne_buyer env base 0 provider (get_provider_fee_bearer env provider),
  resolve_of_ne_buyer env base (calculate_platform_fee_kobo env base) provider
      (get_provider_fee_bearer env provider),
)

-- With a collected charge and a collected provider fee, where the buyer bears the provider's fee, the
-- gross amount with the buyer's fees is the collected charge, or the gross amount with the buyer's
-- platform fee if less was collected; the summary keeps the two collected figures.
pub summary_collected :
    (env : Env) (base charge fee : ℕ) (provider : PaymentProvider)
    → get_provider_fee_bearer env provider ≡ buyer
    → let s =
        build_pricing_summary env base provider
          (record { charge_amount_kobo = some charge; provider_fee_kobo = some fee }) in
      (s.gross_amount_kobo + s.buyer_fee_total_kobo
        ≡ max charge (s.gross_amount_kobo + s.buyer_platform_fee_kobo))
      × (s.charge_amount_kobo ≡ charge)
      × (s.provider_fee_kobo ≡ fee)
unfolding build_pricing_summary
summary_collected env base charge fee provider e = ground arith
