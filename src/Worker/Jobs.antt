-- ===== src/Worker/Jobs.antt =====
-- Lines 37 to 95 of checkout.worker.ts: the delivery of confirmations.
use Prim.Native.String.{String}
use gathergo_backend.Base.{
  ℕ, ◌+◌, ◌*◌, ◌^◌, min, Bool, true, false, ◌&&◌, Option, none, some, List, [], ◌∷◌, leb, ◌==◌,
  if◌then◌else◌, put, Result, ok, err,
}
use gathergo_backend.Worker.{JobStatus, pending, completed, FulfillmentJob, lease_over}

-- The condition of the read.
unfoldable pub is_due : ℕ → FulfillmentJob → Bool
is_due now job = leb job.next_attempt_at now && elim job.status [
  | pending ↦ true
  | JobStatus.processing ↦ lease_over now job.lease_expires_at
  | completed ↦ false
]

abbrev pub same_status : JobStatus → JobStatus → Bool
same_status pending pending = true
same_status JobStatus.processing JobStatus.processing = true
same_status completed completed = true
same_status _ _ = false

abbrev pub Jobs : Type 0
Jobs = ℕ → Option FulfillmentJob

abbrev pub claimed : ℕ → FulfillmentJob → FulfillmentJob
claimed at job = record job {
  status = JobStatus.processing;
  attempts = job.attempts + 1;
  lease_expires_at = some (at + 120000);
}

abbrev matches : FulfillmentJob → Option FulfillmentJob → Bool
matches seen none = false
matches seen (some job) = same_status job.status seen.status && job.attempts == seen.attempts

-- The claim of a job as it was read: its rows after it, and whether one was changed.
unfoldable pub claim : (id at : ℕ) → FulfillmentJob → Jobs → Jobs × Bool
claim id at seen jobs = elim (jobs id) [
  | none ↦ (jobs, false)
  | some job ↦
      if matches seen (some job) then (put jobs id (claimed at job), true) else (jobs, false)
]

unfoldable pub backoff : ℕ → ℕ
backoff attempts = min 3600000 (30000 * 2 ^ min attempts 7)

abbrev pub delivered : FulfillmentJob → FulfillmentJob
delivered job = record job { status = completed; lease_expires_at = none; last_error = none }

abbrev pub failed : (at attempts : ℕ) → String → FulfillmentJob → FulfillmentJob
failed at attempts error job = record job {
  status = pending;
  lease_expires_at = none;
  last_error = some error;
  next_attempt_at = at + backoff attempts;
}

abbrev pub change : ℕ → (FulfillmentJob → FulfillmentJob) → Jobs → Jobs
change id f jobs = elim (jobs id) [ none ↦ jobs | some job ↦ put jobs id (f job) ]

-- The delivery of one job that was read: `deliver` is the notification or the registration of the
-- sponsorship, which the worker picks by the transaction, with the message of what it throws.
unfoldable pub deliver_one :
    (deliver : ℕ → Result String (Unit {0})) → (at : ℕ) → (id : ℕ) → FulfillmentJob → Jobs → Jobs
unfolding claim
deliver_one deliver at id seen jobs =
    let (rows, won) = claim id at seen jobs in
    if won
    then elim (deliver id) [
      | ok _ ↦ change id delivered rows
      | err error ↦ change id (failed at seen.attempts error) rows
    ]
    else rows

-- The jobs that were read, one after the other.
unfoldable pub deliver_confirmations :
    (deliver : ℕ → Result String (Unit {0})) → (at : ℕ) → List (ℕ × FulfillmentJob) → Jobs → Jobs
unfolding deliver_one
deliver_confirmations deliver at [] jobs = jobs
deliver_confirmations deliver at ((id, seen) ∷ rest) jobs =
    deliver_confirmations deliver at rest (deliver_one deliver at id seen jobs)
