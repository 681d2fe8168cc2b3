-- ===== src/Pricing/Estimate.antt =====
-- The provider's fee as a function of the charge, and the loop that adds it to the buyer's charge.
use gathergo_backend.Base.{ℕ, zero, suc, ◌+◌, ◌*◌, ◌≤◌, ◌≡◌, arith}
use gathergo_backend.Pricing.Fees.{
  PaymentProvider, FeeBearer, ProviderFeeRule, Env, round_bps, fixed_part, rule_fee,
  get_provider_fee_rule, estimate_provider_fee_kobo,
}
use gathergo_backend.Pricing.Summary.{attempt_charge, resolve_estimated_charge_amount_kobo}

abbrev pub IsMonotone : (ℕ → ℕ) → Type 0
IsMonotone f = (a b : ℕ) → a ≤ b → f a ≤ f b

round_bps_mono : (r : ℕ) (a b : ℕ) → a ≤ b → round_bps (a * r) ≤ round_bps (b * r)
round_bps_mono r a b h = let m : a * r ≤ b * r = grind arith in omega arith

fixed_part_mono : (rule : ProviderFeeRule) → IsMonotone (fixed_part rule)
fixed_part_mono rule a b h = ground arith

pub rule_fee_mono : (rule : ProviderFeeRule) → IsMonotone (rule_fee rule)
unfolding rule_fee
rule_fee_mono rule a b h =
    ground (arith, round_bps_mono rule.percentage_bps a b h, fixed_part_mono rule a b h)

pub estimate_mono :
    (env : Env) (provider : PaymentProvider) → IsMonotone (estimate_provider_fee_kobo env provider)
unfolding estimate_provider_fee_kobo
estimate_mono env provider a b h =
    ground (arith, rule_fee_mono (get_provider_fee_rule env provider) a b h)

-- With a fee that grows with the charge, the loop stays between the floor and the floor with the fee
-- on its result, whatever the number of attempts.
pub attempt_charge_bounds :
    (n : ℕ) (fee : ℕ → ℕ) (floor charge : ℕ)
    → IsMonotone fee
    → floor ≤ charge
    → charge ≤ floor + fee charge
    → (floor ≤ attempt_charge n fee floor charge)
      × (attempt_charge n fee floor charge ≤ floor + fee (attempt_charge n fee floor charge))
unfolding attempt_charge
attempt_charge_bounds zero fee floor charge mono low high = (low, high)
attempt_charge_bounds (suc n) fee floor charge mono low high = ground (
  arith,
  mono charge (floor + fee charge) high,
  attempt_charge_bounds n fee floor (floor + fee charge) mono,
)

abbrev pub IsFixed : (ℕ → ℕ) → ℕ → ℕ → Type 0
IsFixed fee floor c = c ≡ floor + fee c

-- One more attempt settles where the fewer attempts from the next charge do.
pub attempt-suc-IsFixed :
    (n : ℕ) (fee : ℕ → ℕ) (floor c : ℕ)
    → IsFixed fee floor (attempt_charge n fee floor (floor + fee c))
    → IsFixed fee floor (attempt_charge (suc n) fee floor c)
unfolding attempt_charge
attempt-suc-IsFixed n fee floor c h = ground arith

pub attempt-IsFixed_of_IsFixed :
    (n : ℕ) (fee : ℕ → ℕ) (floor c : ℕ)
    → IsFixed fee floor c
    → IsFixed fee floor (attempt_charge n fee floor c)
unfolding attempt_charge
attempt-IsFixed_of_IsFixed zero fee floor c h = h
attempt-IsFixed_of_IsFixed (suc n) fee floor c h = ground arith

-- The buyer's charge covers the base and the buyer's platform fee, and adds at most the provider's
-- estimated fee on that charge, for every setting of the environment.
pub resolve_bounds :
    (env : Env) (base buyer_platform_fee : ℕ) (provider : PaymentProvider) (bearer : FeeBearer)
    → let floor = base + buyer_platform_fee in
      let charge =
        resolve_estimated_charge_amount_kobo env base buyer_platform_fee provider bearer in
      (floor ≤ charge) × (charge ≤ floor + estimate_provider_fee_kobo env provider charge)
unfolding resolve_estimated_charge_amount_kobo
resolve_bounds env base fee provider bearer = ground (
  arith,
  attempt_charge_bounds 12 (estimate_provider_fee_kobo env provider) (base + fee) (base + fee)
      (estimate_mono env provider),
)
