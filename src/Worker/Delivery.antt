-- ===== src/Worker/Delivery.antt =====
-- A claim of a job, and what a delivery leaves of it.
use Prim.Native.String.{String}
use gathergo_backend.Base.{
  ℕ, zero, suc, ◌+◌, ◌^◌, ◌≤◌, ◌≡◌, ◌⊎◌, refl, inl, inr, min, true, false, some, ==_iff, leb,
  Option-cases, Result-cases, Result, ok, err, arith,
}
use gathergo_backend.Worker.{JobStatus, pending, completed, FulfillmentJob}
use gathergo_backend.Worker.Jobs.{
  Jobs, is_due, same_status, claim, claimed, backoff, change, delivered, failed, deliver_one,
}

-- Of several workers that have read one job in one state, only one wins it: once a claim of what was
-- read has changed the row, another claim of the same reading does not.
pub claim-once :
    (id at later : ℕ) (seen : FulfillmentJob) (jobs : Jobs)
    → (claim id at seen jobs).1 ≡ true
    → (claim id later seen (claim id at seen jobs).0).1 ≡ false
unfolding claim
claim-once id at later seen jobs won = elim (Option-cases (jobs id)) [
  | inl missing ↦ ground (arith, missing)
  | inr (job, found) ↦ ground (arith, won, found)
]

pow_pos : (n : ℕ) → 1 ≤ 2 ^ n
pow_pos zero = omega arith
pow_pos (suc n) = omega (arith, pow_pos n)

backoff_bounds : (attempts : ℕ) → (30000 ≤ backoff attempts) × (backoff attempts ≤ 3600000)
unfolding backoff
backoff_bounds attempts = (omega (arith, pow_pos (min attempts 7)), omega arith)

same_self : (s : JobStatus) → same_status s s ≡ true
same_self pending = refl
same_self JobStatus.processing = refl
same_self completed = refl

claim-own :
    (id at : ℕ) (jobs : Jobs) (job : FulfillmentJob)
    → jobs id ≡ some job
    → ((claim id at job jobs).1 ≡ true) × ((claim id at job jobs).0 id ≡ some (claimed at job))
unfolding claim
claim-own id at jobs job found =
    let same = same_self job.status in
    let count = (==_iff job.attempts job.attempts).1 refl in
    let own = (==_iff id id).1 refl in
    (rw (claim, found, same, count) refl, rw (claim, found, same, count, own) refl)

change-own :
    (id : ℕ) (f : FulfillmentJob → FulfillmentJob) (jobs : Jobs) (job : FulfillmentJob)
    → jobs id ≡ some job
    → change id f jobs id ≡ some (f job)
change-own id f jobs job found = let own = (==_iff id id).1 refl in ground (arith, found, own)

-- What the delivery of a job leaves, by whether the notification threw. Delivered, it is never due
-- again. Failed, it is due again from a back-off of half a minute to an hour later.
abbrev pub Delivered : FulfillmentJob → Type 0
Delivered job = (job.status ≡ completed) × ((now : ℕ) → is_due now job ≡ false)

abbrev pub Retried : ℕ → FulfillmentJob → Type 0
Retried at job =
    (wait : ℕ) × (30000 ≤ wait)
    × (wait ≤ 3600000)
    × ((now : ℕ) → is_due now job ≡ leb (at + wait) now)

-- The delivery of a job as it stands counts an attempt. Where the notification succeeds the job is
-- COMPLETED and is not due at any time. Where it throws the job is due again, after a wait of half a
-- minute to an hour and not before.
pub deliver_one-ends :
    (deliver : ℕ → Result String (Unit {0})) (at id : ℕ) (jobs : Jobs) (job : FulfillmentJob)
    → jobs id ≡ some job
    → (after : FulfillmentJob) × (deliver_one deliver at id job jobs id ≡ some after)
      × (after.attempts ≡ job.attempts + 1)
      × (((deliver id ≡ ok tt) × Delivered after)
          ⊎ ((error : String) × (deliver id ≡ err error) × Retried at after))
unfolding deliver_one is_due
deliver_one-ends deliver at id jobs job found =
    let (won, row) = claim-own id at jobs job found in
    let rows = (claim id at job jobs).0 in
    elim (Result-cases (deliver id)) [
      | inl (u, sent) ↦ (
        delivered (claimed at job),
        rw (won, sent) (change-own id delivered rows (claimed at job) row),
        refl,
        inl (sent, (refl, λ now. ground arith)),
      )
      | inr (error, threw) ↦ (
        failed at job.attempts error (claimed at job),
        rw (won, threw) (change-own id (failed at job.attempts error) rows (claimed at job) row),
        refl,
        inr (
          error,
          threw,
          (
            backoff job.attempts,
            (backoff_bounds job.attempts).0,
            (backoff_bounds job.attempts).1,
            λ now. ground arith,
          ),
        ),
      )
    ]
