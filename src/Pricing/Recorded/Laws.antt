-- ===== src/Pricing/Recorded/Laws.antt =====
-- What is read back from the metadata that a checkout stores, and of a payment with no stored figures.
use gathergo_backend.Base.{
  ℕ, ◌+◌, ◌-◌, ◌*◌, ◌/◌, ◌%◌, ◌≤◌, ◌≡◌, max, none, some, arith, ◌==◌, if◌then◌else◌,
}
use gathergo_backend.Pricing.Fees.{Env, calculate_platform_fee_kobo}
use gathergo_backend.Pricing.Summary.{PricingSummary, Naira, over_100}
use gathergo_backend.Pricing.Recorded.{
  Number, whole, fraction, JsonValue, number, object, JsonObject, end, property, json_object,
  get_property, max_safe_integer, ok, RecordedKey, gross_amount_kobo, charge_amount_kobo,
  creator_payable_kobo, platform_fee_kobo, is_kobo, bind_option, recorded_kobo, RecordedPayment,
  resolve_charged_amount_kobo, resolve_gross_amount_kobo, resolve_platform_fee_kobo,
  resolve_creator_payable_kobo,
}

abbrev naira_number : Naira → Number
naira_number (over_100 kobo) = if kobo % 100 == 0 then whole (kobo / 100) else fraction

abbrev kobo_number : ℕ → JsonValue
kobo_number n = number (whole n)

abbrev naira : Naira → JsonValue
naira n = number (naira_number n)

abbrev creator_json : PricingSummary → JsonObject
creator_json s =
    property "creatorBorneProviderFeeKobo" (kobo_number s.creator_borne_provider_fee_kobo) (
      property "creatorBornePlatformFeeKobo" (kobo_number s.creator_borne_platform_fee_kobo) (
        property "creatorPayableKobo" (kobo_number s.creator_payable_kobo) (
          property "creatorPayableNaira" (naira s.creator_payable_naira) (
            property "platformFeeFixedKobo" (kobo_number s.platform_fee_fixed_kobo)
              (property "platformFeeBps" (kobo_number s.platform_fee_bps) end)))))

-- The JSON of a price summary, with the source's keys in the source's order.
pub summary_json : PricingSummary → JsonObject
summary_json s = property "grossAmountKobo" (kobo_number s.gross_amount_kobo) (
    property "grossAmountNaira" (naira s.gross_amount_naira) (
      property "chargeAmountKobo" (kobo_number s.charge_amount_kobo) (
        property "chargeAmountNaira" (naira s.charge_amount_naira) (
          property "buyerFeeTotalKobo" (kobo_number s.buyer_fee_total_kobo) (
            property "buyerFeeTotalNaira" (naira s.buyer_fee_total_naira) (
              property "buyerProviderFeeKobo" (kobo_number s.buyer_provider_fee_kobo) (
                property "buyerPlatformFeeKobo" (kobo_number s.buyer_platform_fee_kobo) (
                  property "providerFeeKobo" (kobo_number s.provider_fee_kobo) (
                    property "platformFeeKobo" (kobo_number s.platform_fee_kobo)
                      (creator_json s))))))))))

abbrev figure : PricingSummary → RecordedKey → ℕ
figure s gross_amount_kobo = s.gross_amount_kobo
figure s charge_amount_kobo = s.charge_amount_kobo
figure s creator_payable_kobo = s.creator_payable_kobo
figure s platform_fee_kobo = s.platform_fee_kobo

recorded_kobo-summary_json :
    (metadata : JsonObject) (s : PricingSummary) (key : RecordedKey)
    → get_property "pricing" metadata ≡ some (object (summary_json s))
    → figure s key ≤ max_safe_integer
    → recorded_kobo (object metadata) key ≡ ok (some (figure s key))
unfolding recorded_kobo summary_json
recorded_kobo-summary_json m s gross_amount_kobo p h = rw p (ground arith)
recorded_kobo-summary_json m s charge_amount_kobo p h = rw p (ground arith)
recorded_kobo-summary_json m s creator_payable_kobo p h = rw p (ground arith)
recorded_kobo-summary_json m s platform_fee_kobo p h = rw p (ground arith)

-- Once a price summary stands under `pricing` in a payment's metadata, with its four figures within
-- JavaScript's safe integers, the four resolvers give those figures back, whatever the payment's
-- columns and the environment hold.
pub resolve-summary_json :
    (env : Env) (payment : RecordedPayment) (metadata : JsonObject) (s : PricingSummary)
    → payment.metadata ≡ object metadata
    → get_property "pricing" metadata ≡ some (object (summary_json s))
    → s.gross_amount_kobo ≤ max_safe_integer
    → s.charge_amount_kobo ≤ max_safe_integer
    → s.platform_fee_kobo ≤ max_safe_integer
    → s.creator_payable_kobo ≤ max_safe_integer
    → (resolve_gross_amount_kobo payment ≡ ok s.gross_amount_kobo)
      × (resolve_charged_amount_kobo payment ≡ ok s.charge_amount_kobo)
      × (resolve_platform_fee_kobo env payment ≡ ok s.platform_fee_kobo)
      × (resolve_creator_payable_kobo env payment ≡ ok s.creator_payable_kobo)
unfolding resolve_gross_amount_kobo resolve_charged_amount_kobo resolve_platform_fee_kobo
    resolve_creator_payable_kobo
resolve-summary_json env payment metadata s e p g c f y = (
  rw (e, recorded_kobo-summary_json metadata s gross_amount_kobo p g),
  rw (e, recorded_kobo-summary_json metadata s charge_amount_kobo p c),
  rw (e, recorded_kobo-summary_json metadata s platform_fee_kobo p f),
  rw (e, recorded_kobo-summary_json metadata s creator_payable_kobo p y),
)

recorded_kobo_of_none :
    (metadata : JsonValue) (key : RecordedKey)
    → bind_option (bind_option (json_object metadata) (get_property "pricing")) json_object ≡ none
    → recorded_kobo metadata key ≡ ok none
unfolding recorded_kobo
recorded_kobo_of_none metadata key e = rw e

-- A payment whose metadata holds no object under `pricing`, and whose fee and payable columns are
-- zero, always resolves: the creator's payable with the estimated platform fee and the provider's fee
-- is the gross amount, or the two fees where they exceed it, and the gross amount is the charge.
pub resolve_unrecorded :
    (env : Env) (payment : RecordedPayment)
    → bind_option (bind_option (json_object payment.metadata) (get_property "pricing")) json_object
      ≡ none
    → payment.platform_fee ≡ 0
    → payment.creator_payable ≡ 0
    → (gross fee payable : ℕ) × (resolve_charged_amount_kobo payment ≡ ok gross)
      × (resolve_gross_amount_kobo payment ≡ ok gross)
      × (resolve_platform_fee_kobo env payment ≡ ok fee)
      × (resolve_creator_payable_kobo env payment ≡ ok payable)
      × (payable + fee + payment.provider_fee ≡ max gross (fee + payment.provider_fee))
unfolding resolve_gross_amount_kobo resolve_charged_amount_kobo resolve_platform_fee_kobo
    resolve_creator_payable_kobo
resolve_unrecorded env payment e f y =
    let kobo = is_kobo (bind_option (json_object payment.metadata) (get_property "amountUnit")) in
    let gross : ℕ = if kobo then payment.amount else payment.amount * 100 in
    let fee = calculate_platform_fee_kobo env gross in
    let absent = recorded_kobo_of_none payment.metadata in
    (
      gross,
      fee,
      gross - fee - payment.provider_fee,
      rw (absent charge_amount_kobo e),
      rw (absent gross_amount_kobo e, absent charge_amount_kobo e),
      rw (absent platform_fee_kobo e, absent gross_amount_kobo e, absent charge_amount_kobo e, f),
      rw (
        absent creator_payable_kobo e,
        absent platform_fee_kobo e,
        absent gross_amount_kobo e,
        absent charge_amount_kobo e,
        f,
        y,
      ),
      omega arith,
    )
