-- ===== src/Pricing/Fees.antt =====
-- Fees and who bears them: lines 78 to 259 of payment-pricing.util.ts.
-- Amounts are whole kobo and rates whole basis points, both natural numbers. The process environment
-- is an argument: a numeric variable is the number that its text denotes, and `none` where it is
-- unset or empty; a text variable is its text.
use Prim.Native.Char.{code}
use Prim.Native.String.{String}
use gathergo_backend.Base.{
  ℕ, ◌+◌, ◌*◌, ◌/◌, ◌-◌, min, Bool, true, false, ◌&&◌, Option, none, some, List, [], ◌∷◌, map, ltb,
  leb, ◌==◌, if◌then◌else◌, or_else,
}

pub data FeeBearer : Type 0 where
  buyer creator platform : FeeBearer

pub data PaymentProvider : Type 0 where
  paystack alat_transfer : PaymentProvider

pub record ProviderFeeRule : Type 0 where
  pub percentage_bps : ℕ
  pub fixed_fee_kobo : ℕ
  pub fixed_fee_waiver_below_kobo : Option ℕ
  pub cap_kobo : Option ℕ

pub record ProviderEnv : Type 0 where
  pub fee_bps : Option ℕ
  pub fixed_fee : Option ℕ
  pub waiver_below : Option ℕ
  pub fee_cap : Option ℕ
  pub fee_bearer : Option String

pub record Env : Type 0 where
  pub platform_fee_bps : Option ℕ
  pub platform_fixed_fee : Option ℕ
  pub paystack_env : ProviderEnv
  pub alat_env : ProviderEnv
  pub checkout_provider_fee_bearer : Option String
  pub checkout_platform_fee_bearer : Option String
  pub settlement_fee_bearer : Option String

abbrev pub provider_env : Env → PaymentProvider → ProviderEnv
provider_env env paystack = env.paystack_env
provider_env env alat_transfer = env.alat_env

abbrev pub default_rule : PaymentProvider → ProviderFeeRule
default_rule paystack = record {
  percentage_bps = 150;
  fixed_fee_kobo = 10000;
  fixed_fee_waiver_below_kobo = some 250000;
  cap_kobo = some 200000;
}
default_rule alat_transfer = record {
  percentage_bps = 50;
  fixed_fee_kobo = 0;
  fixed_fee_waiver_below_kobo = none;
  cap_kobo = some 150000;
}

-- `n || null` on a number.
abbrev pub or_null : ℕ → Option ℕ
or_null n = if n == 0 then none else some n

-- `Math.round(n / 10000)` for a natural number n: a half is rounded up.
abbrev pub round_bps : ℕ → ℕ
round_bps n = (n + 5000) / 10000

unfoldable pub get_platform_fee_bps : Env → ℕ
get_platform_fee_bps env = or_else env.platform_fee_bps 0

unfoldable pub get_platform_fixed_fee_kobo : Env → ℕ
get_platform_fixed_fee_kobo env = or_else env.platform_fixed_fee 12500

unfoldable pub calculate_platform_fee_kobo : Env → ℕ → ℕ
unfolding get_platform_fee_bps get_platform_fixed_fee_kobo
calculate_platform_fee_kobo env base_amount_kobo =
    if base_amount_kobo == 0
    then 0
    else let fixed_fee_kobo = get_platform_fixed_fee_kobo env in
      if ltb 0 fixed_fee_kobo
      then fixed_fee_kobo
      else round_bps (base_amount_kobo * get_platform_fee_bps env)

unfoldable pub get_provider_fee_rule : Env → PaymentProvider → ProviderFeeRule
get_provider_fee_rule env provider =
    let defaults = default_rule provider in
    let vars = provider_env env provider in
    record {
      percentage_bps = or_else vars.fee_bps defaults.percentage_bps;
      fixed_fee_kobo = or_else vars.fixed_fee defaults.fixed_fee_kobo;
      fixed_fee_waiver_below_kobo =
          or_null (or_else vars.waiver_below (or_else defaults.fixed_fee_waiver_below_kobo 0));
      cap_kobo = or_null (or_else vars.fee_cap (or_else defaults.cap_kobo 0));
    }

-- `rule.fixedFeeWaiverBelowKobo && charged < rule.fixedFeeWaiverBelowKobo ? 0 : rule.fixedFeeKobo`
abbrev pub fixed_part : ProviderFeeRule → ℕ → ℕ
fixed_part rule charged = elim rule.fixed_fee_waiver_below_kobo [
  | none ↦ rule.fixed_fee_kobo
  | some w ↦ if ltb charged w then 0 else rule.fixed_fee_kobo
]

-- `estimateProviderFeeKobo` below its first lines, where the rule is at hand.
unfoldable pub rule_fee : ProviderFeeRule → ℕ → ℕ
rule_fee rule charged =
    let uncapped_fee = round_bps (charged * rule.percentage_bps) + fixed_part rule charged in
    elim rule.cap_kobo [ none ↦ uncapped_fee | some cap_kobo ↦ min uncapped_fee cap_kobo ]

unfoldable pub estimate_provider_fee_kobo : Env → PaymentProvider → ℕ → ℕ
unfolding rule_fee
estimate_provider_fee_kobo env provider charged_amount_kobo =
    if charged_amount_kobo == 0
    then 0
    else rule_fee (get_provider_fee_rule env provider) charged_amount_kobo

-- `toUpperCase` on a code point. No letter outside ASCII has an upper case that spells part of one
-- of the three words that the result is compared with.
abbrev upper : ℕ → ℕ
upper c = if leb b'a' c && leb c b'z' then c - 32 else c

abbrev codes : String → List ℕ
codes String.[] = []
codes (String.◌∷◌ c s) = code c ∷ codes s

abbrev eq_codes : List ℕ → List ℕ → Bool
eq_codes [] [] = true
eq_codes (a ∷ as') (b ∷ bs) = a == b && eq_codes as' bs
eq_codes _ _ = false

-- A text variable under `||`: unset and empty are false.
abbrev or_text : Option String → Option String → Option String
or_text none other = other
or_text (some String.[]) other = other
or_text (some (String.◌∷◌ c s)) other = some (String.◌∷◌ c s)

unfoldable pub parse_fee_bearer : Option String → FeeBearer → FeeBearer
parse_fee_bearer none fallback = fallback
parse_fee_bearer (some value) fallback =
    let normalized_value = map upper (codes value) in
    if eq_codes normalized_value (codes "BUYER")
    then buyer
    else if eq_codes normalized_value (codes "CREATOR")
    then creator
    else if eq_codes normalized_value (codes "PLATFORM")
    then platform
    else fallback

abbrev pub shared_bearer : Env → PaymentProvider → Option String
shared_bearer env paystack = env.checkout_provider_fee_bearer
shared_bearer env alat_transfer = none

unfoldable pub get_provider_fee_bearer : Env → PaymentProvider → FeeBearer
unfolding parse_fee_bearer
get_provider_fee_bearer env provider =
    parse_fee_bearer (or_text (provider_env env provider).fee_bearer (shared_bearer env provider))
      buyer

unfoldable pub get_platform_fee_bearer : Env → FeeBearer
unfolding parse_fee_bearer
get_platform_fee_bearer env = parse_fee_bearer env.checkout_platform_fee_bearer buyer

unfoldable pub get_settlement_fee_bearer : Env → FeeBearer
unfolding parse_fee_bearer
get_settlement_fee_bearer env = parse_fee_bearer env.settlement_fee_bearer platform
