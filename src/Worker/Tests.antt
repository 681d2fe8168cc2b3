-- ===== src/Worker/Tests.antt =====
-- Runs of the worker on one job and one refund.
use Prim.Native.String.{String}
use gathergo_backend.Base.{
  ℕ, ◌≤◌, ◌≡◌, ◌⊎◌, refl, Bool, true, false, none, some, [], ◌∷◌, ◌==◌, if◌then◌else◌, count_if,
  find, Result, ok, err,
}
use gathergo_backend.Pricing.Fees.{paystack}
use gathergo_backend.Worker.{pending, FulfillmentJob, requested, Refund}
use gathergo_backend.Worker.Jobs.{Jobs, claim, backoff, deliver_one}
use gathergo_backend.Worker.Refunds.{
  Refunds, PaystackRefund, Answers, Texts, claim as claim_refund, settle, submit, after_claim,
  process_one,
}
use gathergo_backend.Worker.Once.{Shared, Reach, Reach-submitted_once}
use gathergo_backend.Worker.Runs.{process_one-Reach}
use gathergo_backend.Worker.Proof.{HasRefund, is_done, process_one-refunded}
use gathergo_backend.Worker.Delivery.{Delivered, Retried, deliver_one-ends}

abbrev job : FulfillmentJob
job = record {
  status = pending;
  attempts = 2;
  next_attempt_at = 100;
  lease_expires_at = none;
  last_error = none;
}

abbrev jobs : Jobs
jobs id = if id == 5 then some job else none

first_claim : (claim 5 150 job jobs).1 ≡ true
unfolding claim
first_claim = refl

abbrev no_mail : ℕ → Result String (Unit {0})
no_mail id = err "no mail"

deliver_one-ends_example :
    (after : FulfillmentJob) × (deliver_one no_mail 150 5 job jobs 5 ≡ some after)
    × (after.attempts ≡ 3)
    × (((no_mail 5 ≡ ok tt) × Delivered after)
        ⊎ ((error : String) × (no_mail 5 ≡ err error) × Retried 150 after))
deliver_one-ends_example = deliver_one-ends no_mail 150 5 jobs job refl

third_wait : backoff 2 ≡ 120000
unfolding backoff
third_wait = refl

longest_wait : backoff 50 ≡ 3600000
unfolding backoff
longest_wait = refl

abbrev refund : Refund
refund = record {
  amount_kobo = 9000;
  status = requested;
  provider_transaction_id = some "tx-1";
  provider_refund_id = none;
  attempts = 0;
  next_attempt_at = 100;
  lease_expires_at = none;
  last_error = none;
  confirmed_reference = none;
  confirmed_at = none;
  payment_provider = paystack;
  transaction_refunded = false;
}

abbrev refunds : Refunds
refunds id = if id == 4 then some refund else none

abbrev texts : Texts
texts = record {
  show = λ n. "id";
  other_status = λ s. s;
  operator_refunds = "refund by hand";
  none_found = "check the provider";
}

-- The provider knows nothing of the refund, and makes and processes it.
abbrev made : Answers
made = record {
  listed = ok [];
  created = ok (record { id = 77; amount = 9000; currency = "NGN"; status = "processed" });
}

abbrev after : Refunds × Bool
after = process_one texts 150 4 made refund refunds

abbrev start : Shared
start = record { rows = refunds; claims = []; submissions = [] }

process_one-Reach_example :
    Reach start
      (record { rows = after.0; claims = []; submissions = if after.1 then 4 ∷ [] else [] })
process_one-Reach_example = process_one-Reach texts 150 4 made [] refund refunds []

Reach-submitted_once_example : count_if (λ k. k == 4) (if after.1 then 4 ∷ [] else []) ≤ 1
Reach-submitted_once_example =
    Reach-submitted_once refunds
      (record { rows = after.0; claims = []; submissions = if after.1 then 4 ∷ [] else [] }) 4
      (process_one-Reach texts 150 4 made [] refund refunds [])

refunded_run : is_done (after.0 4) ≡ true
unfolding process_one after_claim submit settle claim_refund find
refunded_run = refl

process_one-refunded_example : (item : PaystackRefund) × HasRefund refund made item
process_one-refunded_example =
    process_one-refunded texts 150 4 made refund refund refunds refl refl refunded_run
