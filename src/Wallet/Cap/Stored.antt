-- ===== src/Wallet/Cap/Stored.antt =====
-- The columns after a backfill hold what the payment then resolves to.
use Prim.Native.String.{String}
use text.Mathlib.Text.{◌==◌ as str_eq}
use text.Mathlib.TextEquality.{eq_iff}
use gathergo_backend.Base.{
  ℕ, ◌≡◌, refl, sym, ap, subst, inl, inr, Bool, true, false, Option, none, some, List, [], ◌∷◌,
  Bool-cases, arith, Result-cases, ok-eq-ok, ok, All,
}
use gathergo_backend.Pricing.Fees.{Env}
use gathergo_backend.Pricing.Recorded.{
  Result as Priced, ok as priced, invalid_recorded_pricing, RecordedKey, gross_amount_kobo,
  charge_amount_kobo, creator_payable_kobo, platform_fee_kobo, RecordedPayment, JsonValue, null,
  bool, number, str, array, object, JsonObject, end, property, json_object, get_property,
  bind_option, is_kobo, recorded_kobo, resolve_charged_amount_kobo, resolve_gross_amount_kobo,
  resolve_platform_fee_kobo, resolve_creator_payable_kobo,
}
use gathergo_backend.Wallet.{Payment, PayoutProfile, WalletError, of_creator}
use gathergo_backend.Wallet.Release.{filter}
use gathergo_backend.Wallet.Standing.{
  lift, normalize_json_object, set_property, has_unit, with_unit, backfilled, backfill_payment,
  to_backfill, backfill_rows,
}
use gathergo_backend.Wallet.Cap.{IsStored}

get-set_other :
    (k key : String) (v : JsonValue) (o : JsonObject)
    → str_eq k key ≡ false
    → get_property key (set_property k v o) ≡ get_property key o
unfolding get_property set_property
get-set_other k key v end e = rw e refl
get-set_other k key v (property j w rest) e = elim (Bool-cases (str_eq j k)) [
  | inl hit ↦
      let same = (eq_iff j k).0 hit in
      let other = subst (λ x. str_eq x key ≡ false) (sym same) e in rw hit (rw other refl)
  | inr miss ↦ rw miss (rw (get-set_other k key v rest e) refl)
]

get-set_same :
    (k : String) (v : JsonValue) (o : JsonObject) → get_property k (set_property k v o) ≡ some v
unfolding get_property set_property
get-set_same k v end = rw ((eq_iff k k).1 refl) refl
get-set_same k v (property j w rest) = elim (Bool-cases (str_eq j k)) [
  | inl hit ↦ rw hit (rw hit refl)
  | inr miss ↦ rw miss (rw miss (get-set_same k v rest))
]

abbrev unit_of : JsonValue → Bool
unit_of metadata = is_kobo (bind_option (json_object metadata) (get_property "amountUnit"))

abbrev marked : JsonObject → JsonValue
marked o = object (set_property "amountUnit" (str "KOBO") o)

marked-unit : (o : JsonObject) → unit_of (marked o) ≡ true
unfolding json_object
marked-unit o = rw (get-set_same "amountUnit" (str "KOBO") o) refl

marked-recorded :
    (o : JsonObject) (key : RecordedKey)
    → recorded_kobo (marked o) key ≡ recorded_kobo (object o) key
unfolding recorded_kobo json_object
marked-recorded o key = rw (get-set_other "amountUnit" "pricing" (str "KOBO") o refl) refl

unit_of-with_unit : (m : JsonValue) → unit_of (with_unit m) ≡ true
unfolding json_object normalize_json_object get_property
unit_of-with_unit (object o) = elim (Bool-cases (has_unit (object o))) [
  | inl has ↦ rw has has
  | inr lacks ↦ rw lacks (marked-unit o)
]
unit_of-with_unit null = marked-unit end
unit_of-with_unit (bool b) = marked-unit end
unit_of-with_unit (number n) = marked-unit end
unit_of-with_unit (str s) = marked-unit end
unit_of-with_unit (array a) = marked-unit end

marked-end : (key : RecordedKey) → recorded_kobo (marked end) key ≡ priced none
unfolding recorded_kobo json_object get_property set_property
marked-end key = refl

recorded-with_unit :
    (m : JsonValue) (key : RecordedKey) → recorded_kobo (with_unit m) key ≡ recorded_kobo m key
unfolding normalize_json_object get_property recorded_kobo json_object
recorded-with_unit (object o) key = elim (Bool-cases (has_unit (object o))) [
  | inl has ↦ rw has refl
  | inr lacks ↦ rw lacks (marked-recorded o key)
]
recorded-with_unit null key = marked-end key
recorded-with_unit (bool b) key = marked-end key
recorded-with_unit (number n) key = marked-end key
recorded-with_unit (str s) key = marked-end key
recorded-with_unit (array a) key = marked-end key

-- The columns are written as they resolve, the metadata keeps its figures and its unit is KOBO.
module _ (env : Env) (a b : RecordedPayment)
    (figures : (key : RecordedKey) → recorded_kobo b.metadata key ≡ recorded_kobo a.metadata key)
    (unit' : unit_of b.metadata ≡ true) (provider : b.provider_fee ≡ a.provider_fee)
    (fee payable charged : ℕ) (fees : resolve_platform_fee_kobo env a ≡ priced fee)
    (payables : resolve_creator_payable_kobo env a ≡ priced payable)
    (charges : resolve_charged_amount_kobo a ≡ priced charged) (amount : b.amount ≡ charged)
    (stored_fee : b.platform_fee ≡ fee) (stored : b.creator_payable ≡ payable) where
  charged-again : resolve_charged_amount_kobo b ≡ priced charged
  unfolding resolve_charged_amount_kobo
  charged-again = ground (arith, figures charge_amount_kobo, unit', charges, amount)

  gross-again : resolve_gross_amount_kobo b ≡ resolve_gross_amount_kobo a
  unfolding resolve_gross_amount_kobo
  gross-again = rw (figures gross_amount_kobo, charged-again, charges) refl

  fee-again : resolve_platform_fee_kobo env b ≡ priced fee
  unfolding resolve_platform_fee_kobo
  fee-again = ground (arith, figures platform_fee_kobo, gross-again, fees, stored_fee)

  pub payable-again : resolve_creator_payable_kobo env b ≡ priced b.creator_payable
  unfolding resolve_creator_payable_kobo
  payable-again = ground (
    arith,
    figures creator_payable_kobo,
    gross-again,
    fee-again,
    fees,
    payables,
    stored,
    provider,
  )

lift-eq-ok : {A : Type 0} (r : Priced A) (a : A) → lift r ≡ ok a → r ≡ priced a
lift-eq-ok (priced b) a e = ap priced (ok-eq-ok {E = WalletError} b a e)
lift-eq-ok (invalid_recorded_pricing key) a e = cc

backfill_payment-parts :
    (env : Env) (profile : Option PayoutProfile) (p q : Payment)
    → backfill_payment env profile p ≡ ok q
    → (fee : ℕ) × (payable : ℕ) × (charged : ℕ) × (lift (resolve_platform_fee_kobo env p.recorded)
        ≡ ok fee)
      × (lift (resolve_creator_payable_kobo env p.recorded) ≡ ok payable)
      × (lift (resolve_charged_amount_kobo p.recorded) ≡ ok charged)
      × (backfilled profile p fee payable charged ≡ q)
unfolding backfill_payment
backfill_payment-parts env profile p q e =
    elim (Result-cases (lift (resolve_platform_fee_kobo env p.recorded))) [
      | inr (_, f) ↦ ground (arith, f)
      | inl (fee, f) ↦ elim (Result-cases (lift (resolve_creator_payable_kobo env p.recorded))) [
        | inr (_, g) ↦ ground (arith, f, g)
        | inl (payable, g) ↦ elim (Result-cases (lift (resolve_charged_amount_kobo p.recorded))) [
          | inr (_, h) ↦ ground (arith, f, g, h)
          | inl (charged, h) ↦ (
            fee,
            payable,
            charged,
            f,
            g,
            h,
            ok-eq-ok {E = WalletError} _ q (rw (backfill_payment, f, g, h) at e),
          )
        ]
      ]
    ]

backfill_payment-IsStored :
    (env : Env) (profile : Option PayoutProfile) (p q : Payment)
    → backfill_payment env profile p ≡ ok q
    → IsStored env q
backfill_payment-IsStored env profile p q e =
    let (fee, payable, charged, f, g, h, same) = backfill_payment-parts env profile p q e in
    let new = backfilled profile p fee payable charged in
    subst (IsStored env) same (
      ap lift (
        payable-again env p.recorded new.recorded (recorded-with_unit p.recorded.metadata)
          (unit_of-with_unit p.recorded.metadata) refl fee payable charged (lift-eq-ok _ fee f)
          (lift-eq-ok _ payable g) (lift-eq-ok _ charged h) refl refl refl))

-- A backfill that ends without an error leaves each payment of the creator as it resolves.
pub backfill_rows-IsStored :
    (env : Env) (profile : Option PayoutProfile) (creator : ℕ) (ps : List Payment)
    → (backfill_rows env profile creator ps).1 ≡ ok tt
    → All (IsStored env) (filter (of_creator creator) (backfill_rows env profile creator ps).0)
unfolding backfill_rows filter
backfill_rows-IsStored env profile creator [] e = tt
backfill_rows-IsStored env profile creator (p ∷ ps) e = elim (Bool-cases (to_backfill creator p)) [
  | inr other ↦
      let foreign : of_creator creator p ≡ false = ground (arith, other) in
      rw other (rw foreign (backfill_rows-IsStored env profile creator ps (rw other at e)))
  | inl own ↦ elim (Result-cases (backfill_payment env profile p)) [
    | inr (_, failed) ↦ let absurd = rw (own, failed) at e in cc
    | inl (q, made) ↦
        let later = backfill_rows-IsStored env profile creator ps (rw (own, made) at e) in
        rw (own, made)
          (elim (Bool-cases (of_creator creator q)) [
            | inl hit ↦ rw hit (backfill_payment-IsStored env profile p q made, later)
            | inr miss ↦ rw miss later
          ])
  ]
]
