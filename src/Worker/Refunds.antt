-- ===== src/Worker/Refunds.antt =====
-- Lines 97 to 211 of checkout.worker.ts, and lines 888 to 919 of transaction-reference.service.ts: the
-- refunds. What the provider answers is an argument: `none` where its call throws.
use Prim.Native.String.{String}
use text.Mathlib.Text.{◌==◌ as str_eq}
use gathergo_backend.Base.{
  ℕ, ◌+◌, Bool, true, false, not, ◌&&◌, ◌||◌, Option, none, some, List, leb, ◌==◌, if◌then◌else◌,
  put, find, Result, ok, err, throw_if, or_throw, ◌>>=◌, ◌>>◌,
}
use gathergo_backend.Pricing.Fees.{PaymentProvider, paystack}
use gathergo_backend.Worker.{
  RefundStatus, requested, manual_required, refunded, Refund, lease_over, no_lease,
}

abbrev is_open : RefundStatus → Bool
is_open refunded = false
is_open _ = true

-- The condition of the read.
unfoldable pub is_due : ℕ → Refund → Bool
is_due now r =
    is_open r.status
    && leb r.next_attempt_at now
    && (no_lease r.lease_expires_at || lease_over now r.lease_expires_at)

abbrev pub same_status : RefundStatus → RefundStatus → Bool
same_status requested requested = true
same_status RefundStatus.processing RefundStatus.processing = true
same_status manual_required manual_required = true
same_status refunded refunded = true
same_status _ _ = false

abbrev pub Refunds : Type 0
Refunds = ℕ → Option Refund

-- A refund of the provider, with its amount in kobo.
pub record PaystackRefund : Type 0 where
  pub id : ℕ
  pub amount : ℕ
  pub currency : String
  pub status : String

abbrev pub claimed : ℕ → Refund → Refund
claimed at r = record r {
  attempts = r.attempts + 1;
  lease_expires_at = some (at + 120000);
  next_attempt_at = at + 60000;
}

-- The claim of a refund as it was read: the rows after it, and whether one was changed.
unfoldable pub claim : (id at : ℕ) → Refund → Refunds → Refunds × Bool
claim id at seen rows = elim (rows id) [
  | none ↦ (rows, false)
  | some r ↦
      if r.attempts == seen.attempts && same_status r.status seen.status
      then (put rows id (claimed at r), true)
      else (rows, false)
]

abbrev pub change : ℕ → (Refund → Refund) → Refunds → Refunds
change id f rows = elim (rows id) [ none ↦ rows | some r ↦ put rows id (f r) ]

abbrev held_for_operator : ℕ → String → Refund → Refund
held_for_operator at error r = if not (is_open r.status) then r else record r {
  status = manual_required;
  lease_expires_at = none;
  last_error = some error;
  next_attempt_at = at + 300000;
}

-- `manual`.
unfoldable pub manual : (at id : ℕ) → String → Refunds → Refunds
manual at id error rows = change id (held_for_operator at error) rows

abbrev pub submitted : Refund → Refund
submitted r = record r { status = RefundStatus.processing }

-- `String(id)` of the provider's number is an argument.
abbrev processed : (show : ℕ → String) → (at : ℕ) → PaystackRefund → Refund → Refund
processed show at item r = record r {
  status = refunded;
  provider_refund_id = some item.id;
  lease_expires_at = none;
  confirmed_at = some at;
  confirmed_reference = some (show item.id);
  last_error = none;
  transaction_refunded = true;
}

abbrev pub awaited : PaystackRefund → Refund → Refund
awaited item r = record r {
  status = RefundStatus.processing;
  provider_refund_id = some item.id;
  lease_expires_at = none;
  last_error = none;
}

-- What the worker writes for the refund that the provider has.
unfoldable pub settle :
    (show : ℕ → String)
    → (other : String → String) → (at id : ℕ) → PaystackRefund
    → Refunds
    → Refunds
unfolding manual
settle show other at id item rows =
    if str_eq item.status "processed"
    then change id (processed show at item) rows
    else if str_eq item.status "pending" || str_eq item.status "processing"
    then change id (awaited item) rows
    else manual at id (other item.status) rows

abbrev pub is_same_refund : ℕ → PaystackRefund → Bool
is_same_refund amount item = item.amount == amount && str_eq item.currency "NGN"

-- The answers of the provider to the list and to the creation, and the messages of what they throw.
pub record Answers : Type 0 where
  pub listed : Result String (List PaystackRefund)
  pub created : Result String PaystackRefund

pub record Texts : Type 0 where
  pub show : ℕ → String
  pub other_status : String → String
  pub operator_refunds : String
  pub none_found : String

abbrev pub is_paystack : PaymentProvider → Bool
is_paystack paystack = true
is_paystack _ = false

abbrev pub is_blank : Option String → Bool
is_blank none = true
is_blank (some s) = str_eq s ""

-- The creation at the provider, which the row shows before it.
unfoldable pub submit : Texts → (at id : ℕ) → Answers → Refunds → Refunds
unfolding settle manual
submit texts at id answers rows =
    let marked = change id submitted rows in
    elim answers.created [
      | err error ↦ manual at id error marked
      | ok item ↦ settle texts.show texts.other_status at id item marked
    ]

-- After the claim: the rows, and whether a refund was submitted to the provider.
unfoldable pub after_claim : Texts → (at id : ℕ) → Answers → Refund → Refunds → Refunds × Bool
unfolding submit
after_claim texts at id answers seen rows =
    if not (is_paystack seen.payment_provider) || is_blank seen.provider_transaction_id
    then (manual at id texts.operator_refunds rows, false)
    else elim answers.listed [
      | err error ↦ (manual at id error rows, false)
      | ok items ↦ elim (find (is_same_refund seen.amount_kobo) items) [
        | some item ↦ (settle texts.show texts.other_status at id item rows, false)
        | none ↦
            if seen.attempts == 0
            then (submit texts at id answers rows, true)
            else (manual at id texts.none_found rows, false)
      ]
    ]

-- One refund that was read.
unfoldable pub process_one : Texts → (at id : ℕ) → Answers → Refund → Refunds → Refunds × Bool
unfolding claim after_claim
process_one texts at id answers seen rows =
    let (next, won) = claim id at seen rows in
    if won then after_claim texts at id answers seen next else (next, false)

pub data ConfirmError : Type 0 where
  reference_required no_manual_confirmation : ConfirmError

abbrev is_manual : RefundStatus → Bool
is_manual manual_required = true
is_manual _ = false

abbrev awaits_confirmation : Refund → Result ConfirmError Refund
awaits_confirmation r = if is_manual r.status then ok r else err no_manual_confirmation

-- The row of a refund that an operator has confirmed.
abbrev pub confirmed : ℕ → String → Refund → Refund
confirmed at reference r = record r {
  status = refunded;
  confirmed_reference = some reference;
  confirmed_at = some at;
  transaction_refunded = true;
}

-- For an active administrator, with the trimmed reference and whether it has three characters.
unfoldable pub confirm_manual_refund :
    (at id : ℕ) → String → Bool → Refunds → Result ConfirmError (Refunds × Refund)
confirm_manual_refund at id reference is_long rows = do
  throw_if (not is_long) reference_required
  found ← or_throw (rows id) no_manual_confirmation
  r ← awaits_confirmation found
  ok (put rows id (confirmed at reference r), confirmed at reference r)
