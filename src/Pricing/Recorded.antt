-- ===== src/Pricing/Recorded.antt =====
-- The figures of a recorded payment: lines 5 to 76 of payment-pricing.util.ts. A stored figure of the
-- metadata comes first, then the columns of the payment, then a fresh estimate of the platform's fee.
-- `amount`, `platformFee`, `providerFee` and `creatorPayable` are integer columns, natural numbers here.
pub mod Laws
use Prim.Native.String.{String}
use text.Mathlib.Text.{◌==◌ as str_eq}
use gathergo_backend.Base.{
  ℕ, ◌+◌, ◌-◌, ◌*◌, ◌^◌, ◌≤◌, ◌<◌, ◌≡◌, refl, Bool, true, false, Option, none, some, List, [], ◌∷◌,
  arith, ltb, leb, if◌then◌else◌,
}
use gathergo_backend.Pricing.Fees.{Env, calculate_platform_fee_kobo}
use gathergo_backend.Pricing.Summary.{PricingSummary}

-- A number of JSON: an integer, negative ones by their size, or a fraction, whose value is not read.
pub data Number : Type 0 where
  whole : ℕ → Number
  minus : ℕ → Number
  fraction : Number

mutual
  pub data JsonValue : Type 0 where
    null : JsonValue
    bool : Bool → JsonValue
    number : Number → JsonValue
    str : String → JsonValue
    array : Items → JsonValue
    object : JsonObject → JsonValue

  pub data Items : Type 0 where
    nil : Items
    cons : JsonValue → Items → Items

  pub data JsonObject : Type 0 where
    end : JsonObject
    property : String → JsonValue → JsonObject → JsonObject

unfoldable pub json_object : JsonValue → Option JsonObject
json_object (object o) = some o
json_object _ = none

-- `o[key]`, where `none` is undefined.
unfoldable pub get_property : String → JsonObject → Option JsonValue
get_property key end = none
get_property key (property k v rest) = if str_eq k key then some v else get_property key rest

pub data RecordedKey : Type 0 where
  gross_amount_kobo charge_amount_kobo creator_payable_kobo platform_fee_kobo : RecordedKey

abbrev pub key_text : RecordedKey → String
key_text gross_amount_kobo = "grossAmountKobo"
key_text charge_amount_kobo = "chargeAmountKobo"
key_text creator_payable_kobo = "creatorPayableKobo"
key_text platform_fee_kobo = "platformFeeKobo"

-- The exception names the key in its message.
pub data Result (A : Type 0) : Type 0 where
  ok : A → Result A
  invalid_recorded_pricing : RecordedKey → Result A

infixl 5 ◌>>=◌
abbrev pub ◌>>=◌ : {A B : Type 0} → Result A → (A → Result B) → Result B
ok a >>= f = f a
invalid_recorded_pricing k >>= f = invalid_recorded_pricing k

abbrev pub max_safe_integer : ℕ
max_safe_integer = 2 ^ 53 - 1

abbrev checked_kobo : RecordedKey → JsonValue → Result (Option ℕ)
checked_kobo key (number (whole n)) =
    if leb n max_safe_integer then ok (some n) else invalid_recorded_pricing key
checked_kobo key _ = invalid_recorded_pricing key

abbrev pub bind_option {ℓ κ} : {A : Type ℓ} {B : Type κ} → Option A → (A → Option B) → Option B
bind_option none f = none
bind_option (some a) f = f a

abbrev checked_or_absent : RecordedKey → Option JsonValue → Result (Option ℕ)
checked_or_absent key none = ok none
checked_or_absent key (some value) = checked_kobo key value

unfoldable pub recorded_kobo : JsonValue → RecordedKey → Result (Option ℕ)
unfolding json_object get_property
recorded_kobo metadata key =
    let pricing =
      bind_option (bind_option (json_object metadata) (get_property "pricing")) json_object in
    checked_or_absent key (bind_option pricing (get_property (key_text key)))

pub record RecordedPayment : Type 0 where
  pub amount : ℕ
  pub metadata : JsonValue
  pub platform_fee : ℕ
  pub provider_fee : ℕ
  pub creator_payable : ℕ

-- `recorded ?? rest`: the rest is evaluated, and may throw, only where nothing is recorded.
abbrev recorded_or : Option ℕ → Result ℕ → Result ℕ
recorded_or (some n) rest = ok n
recorded_or none rest = rest

abbrev pub is_kobo : Option JsonValue → Bool
is_kobo (some (str unit)) = str_eq unit "KOBO"
is_kobo _ = false

unfoldable pub resolve_charged_amount_kobo : RecordedPayment → Result ℕ
unfolding json_object get_property
resolve_charged_amount_kobo payment = do
  recorded ← recorded_kobo payment.metadata charge_amount_kobo
  recorded_or recorded (
      ok (
        if is_kobo (bind_option (json_object payment.metadata) (get_property "amountUnit"))
        then payment.amount
        else payment.amount * 100))

unfoldable pub resolve_gross_amount_kobo : RecordedPayment → Result ℕ
resolve_gross_amount_kobo payment = do
  recorded ← recorded_kobo payment.metadata gross_amount_kobo
  recorded_or recorded (resolve_charged_amount_kobo payment)

unfoldable pub resolve_platform_fee_kobo : Env → RecordedPayment → Result ℕ
resolve_platform_fee_kobo env payment = do
  recorded ← recorded_kobo payment.metadata platform_fee_kobo
  recorded_or recorded (
      if ltb 0 payment.platform_fee
      then ok payment.platform_fee
      else (resolve_gross_amount_kobo payment >>= λ gross.
          ok (calculate_platform_fee_kobo env gross)))

-- The truncated difference of the numbers is `Math.max(difference, 0)`.
unfoldable pub resolve_creator_payable_kobo : Env → RecordedPayment → Result ℕ
resolve_creator_payable_kobo env payment = do
  recorded ← recorded_kobo payment.metadata creator_payable_kobo
  recorded_or recorded (
      if ltb 0 payment.creator_payable then ok payment.creator_payable else (do
        gross ← resolve_gross_amount_kobo payment
        fee ← resolve_platform_fee_kobo env payment
        ok (gross - fee - payment.provider_fee)))
