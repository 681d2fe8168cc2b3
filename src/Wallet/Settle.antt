-- ===== src/Wallet/Settle.antt =====
-- Lines 3590 to 3608 and 3672 to 3894 of wallet.service.ts, and assertDashboardAccess of
-- dashboard-auth.policy.ts: the creation of a settlement and the record of its outcome.
use Prim.Native.String.{String}
use text.Mathlib.Text.{◌==◌ as str_eq}
use gathergo_backend.Base.{
  ℕ, ◌+◌, Bool, true, false, not, ◌&&◌, ◌||◌, Option, none, some, List, [], ◌∷◌, ◌++◌, map, ltb,
  ◌==◌, if◌then◌else◌, Result, ok, err, or_throw, throw_if, ◌>>=◌, ◌>>◌, any, length, count_if, put,
}
use gathergo_backend.Pricing.Fees.{Env}
use gathergo_backend.Pricing.Recorded.{resolve_creator_payable_kobo}
use gathergo_backend.Checkout.{SettlementStatus, settlement_ready, settled}
use gathergo_backend.Wallet.{
  Payment, PayoutProfile, SettlementRecordStatus, SettlementRecord, Allocation, Db, WalletError,
  account_disabled, change_password, admin_required, profile_not_found, profile_not_active,
  destination_incomplete, bad_expectation, nothing_ready, eligibility_changed, payment_changed,
  settlement_not_found, not_reversible, settlement_changed, is_active, is_success, is_clear,
  is_ready, is_paid, of_creator, is_allocated, update_many,
}
use gathergo_backend.Wallet.Standing.{Config, lift}
use gathergo_backend.Wallet.Release.{filter, order_by_creation}

pub record DashboardActor : Type 0 where
  pub is_active_account : Bool
  pub must_change_password : Bool
  pub is_admin : Bool

-- With ADMIN for the required role.
unfoldable pub assert_admin : DashboardActor → Result WalletError (Unit {0})
assert_admin actor = do
  throw_if (not actor.is_active_account) account_disabled
  throw_if actor.must_change_password change_password
  throw_if (not actor.is_admin) admin_required

abbrev pub mem : ℕ → List ℕ → Bool
mem id ids = any (λ k. k == id) ids

abbrev pub is_requested : List ℕ → Payment → Bool
is_requested [] p = true
is_requested (k ∷ ks) p = mem p.id (k ∷ ks)

-- The conditions that the read and the claim share.
abbrev pub is_eligible : ℕ → List Allocation → Payment → Bool
is_eligible creator allocations p =
    of_creator creator p
    && is_success p.status
    && is_ready p.settlement_status
    && is_clear p.risk_status
    && ltb 0 p.recorded.creator_payable
    && not (is_allocated allocations p)

-- A list of ids that is left out is empty.
unfoldable pub load_ready_settlement_transactions : Db → ℕ → List ℕ → List Payment
unfolding filter order_by_creation
load_ready_settlement_transactions db creator ids =
    order_by_creation
      (filter (λ p. is_eligible creator db.allocations p && is_requested ids p) db.payments)

unfoldable pub sum_payable : Env → List Payment → Result WalletError ℕ
sum_payable env [] = ok 0
sum_payable env (p ∷ ps) = do
  payable ← lift (resolve_creator_payable_kobo env p.recorded)
  rest ← sum_payable env ps
  ok (payable + rest)

unfoldable pub allocate : Env → ℕ → List Payment → Result WalletError (List Allocation)
allocate env id [] = ok []
allocate env id (p ∷ ps) = do
  payable ← lift (resolve_creator_payable_kobo env p.recorded)
  rest ← allocate env id ps
  ok (record { settlement_id = id; payment_id = p.id; amount = payable } ∷ rest)

-- `new Set(ids).size`.
unfoldable pub set_size : List ℕ → ℕ
set_size [] = 0
set_size (k ∷ ks) = (if mem k ks then 0 else 1) + set_size ks

pub record CreateSettlement : Type 0 where
  pub expected_amount_kobo : Option ℕ
  pub expected_transaction_count : Option ℕ
  pub transaction_ids : List ℕ

abbrev is_some : Option ℕ → Bool
is_some none = false
is_some (some n) = true

abbrev differs_from : Option ℕ → ℕ → Bool
differs_from none n = false
differs_from (some m) n = not (m == n)

abbrev lacks_requested : List ℕ → List Payment → Bool
lacks_requested [] rows = false
lacks_requested (k ∷ ks) rows = not (length rows == set_size (k ∷ ks))

-- An expected amount comes with an expected count.
abbrev pub is_stale : CreateSettlement → ℕ → List Payment → Bool
is_stale input total rows =
    lacks_requested input.transaction_ids rows
    || (is_some input.expected_amount_kobo
        && (differs_from input.expected_amount_kobo total
            || not (elim input.expected_transaction_count [
              | none ↦ false
              | some n ↦ n == length rows
            ])))

abbrev ids_of : List Payment → List ℕ
ids_of rows = map (λ p. p.id) rows

abbrev pub is_claimable : ℕ → List Allocation → List Payment → Payment → Bool
is_claimable creator allocations rows p =
    mem p.id (ids_of rows) && is_eligible creator allocations p

abbrev pub claim_payment : Payment → Payment
claim_payment p = record p { settlement_status = SettlementStatus.processing }

abbrev pub no_rows : List Payment → Bool
no_rows [] = true
no_rows _ = false

abbrev pub pending_settlement : (creator total : ℕ) → SettlementRecord
pending_settlement creator total = record {
  creator_id = creator;
  amount = total;
  status = SettlementRecordStatus.pending;
  processed_at = none;
}

-- The writes of a settlement over the payments that were read.
abbrev pub prepared : (creator id : ℕ) → Db → List Payment → (total : ℕ) → List Allocation → Db
prepared creator id db rows total allocations = record db {
  payments = update_many (is_claimable creator db.allocations rows) claim_payment db.payments;
  settlements = put db.settlements id (pending_settlement creator total);
  allocations = db.allocations ++ allocations;
}

-- The transaction of `createSettlement`, with the id that the database gives the record.
unfoldable pub prepare_settlement :
    Config → (creator id : ℕ) → CreateSettlement → Db → Result WalletError (Db × SettlementRecord)
prepare_settlement config creator id input db =
    let rows = load_ready_settlement_transactions db creator input.transaction_ids in
    let claimed = count_if (is_claimable creator db.allocations rows) db.payments in
    do
      throw_if (no_rows rows) nothing_ready
      total ← sum_payable config.env rows
      throw_if (is_stale input total rows) eligibility_changed
      throw_if (not (claimed == length rows)) payment_changed
      allocations ← allocate config.env id rows
      ok (prepared creator id db rows total allocations, pending_settlement creator total)

-- `!text`.
abbrev is_blank : Option String → Bool
is_blank none = true
is_blank (some s) = str_eq s ""

abbrev pub find_active : Db → ℕ → Result WalletError PayoutProfile
find_active db creator = do
  profile ← or_throw (db.profiles creator) profile_not_found
  throw_if (not (is_active profile.status)) profile_not_active
  ok profile

abbrev differ : Bool → Bool → Bool
differ true b = not b
differ false b = b

abbrev pub assert_destination : PayoutProfile → CreateSettlement → Result WalletError (Unit {0})
assert_destination profile input = do
  throw_if
      (is_blank profile.bank_name
        || is_blank profile.account_name
        || is_blank profile.account_number)
      destination_incomplete
  throw_if (differ (is_some input.expected_amount_kobo) (is_some input.expected_transaction_count))
      bad_expectation

abbrev pub allocation_ids : ℕ → List Allocation → List ℕ
allocation_ids id [] = []
allocation_ids id (a ∷ rest) =
    let ids = allocation_ids id rest in if a.settlement_id == id then a.payment_id ∷ ids else ids

-- The three ends of an outcome: settled, released, or reserved again.
abbrev pub outcome_status : SettlementRecordStatus → SettlementStatus
outcome_status SettlementRecordStatus.success = settled
outcome_status SettlementRecordStatus.failed = settlement_ready
outcome_status SettlementRecordStatus.cancelled = settlement_ready
outcome_status SettlementRecordStatus.pending = SettlementStatus.processing
outcome_status SettlementRecordStatus.processing = SettlementStatus.processing

abbrev settled_at : SettlementRecordStatus → ℕ → Option ℕ
settled_at SettlementRecordStatus.success now = some now
settled_at _ now = none

abbrev processed_at : SettlementRecordStatus → ℕ → Option ℕ
processed_at SettlementRecordStatus.pending now = none
processed_at _ now = some now

abbrev pub with_outcome : SettlementRecordStatus → ℕ → Payment → Payment
with_outcome status now p = record p {
  settlement_status = outcome_status status;
  settled_at = settled_at status now;
}

abbrev pub same_record_status : SettlementRecordStatus → SettlementRecordStatus → Bool
same_record_status SettlementRecordStatus.pending SettlementRecordStatus.pending = true
same_record_status SettlementRecordStatus.processing SettlementRecordStatus.processing = true
same_record_status SettlementRecordStatus.success SettlementRecordStatus.success = true
same_record_status SettlementRecordStatus.failed SettlementRecordStatus.failed = true
same_record_status SettlementRecordStatus.cancelled SettlementRecordStatus.cancelled = true
same_record_status _ _ = false

abbrev pub write_outcome :
    Db
    → (id : ℕ) → SettlementRecord
    → List ℕ
    → SettlementRecordStatus
    → (now : ℕ) → Db × SettlementRecord
write_outcome db id current ids status now =
    let updated = record current { status = status; processed_at = processed_at status now } in
    (
      record db {
        payments = update_many (λ p. mem p.id ids) (with_outcome status now) db.payments;
        settlements = put db.settlements id updated;
      },
      updated,
    )

-- The transaction of `completeSettlement`: `seen` and `ids` are the record and its allocations as they
-- were read before it, and a record whose status has changed since is a conflict.
unfoldable pub record_outcome :
    Db
    → (id : ℕ) → (seen : SettlementRecord) → (ids : List ℕ) → SettlementRecordStatus
    → (now : ℕ) → Result WalletError (Db × SettlementRecord)
record_outcome db id seen ids status now = do
  current ← or_throw (db.settlements id) settlement_changed
  throw_if (not (same_record_status current.status seen.status)) settlement_changed
  ok (write_outcome db id current ids status now)

-- What `completeSettlement` does with the record that it has read.
unfoldable pub complete_read :
    Db
    → (id : ℕ) → (seen : SettlementRecord) → (ids : List ℕ) → SettlementRecordStatus
    → (now : ℕ) → Result WalletError (Db × SettlementRecord)
unfolding record_outcome
complete_read db id seen ids status now =
    if is_paid seen.status
    then (if is_paid status then ok (db, seen) else err not_reversible)
    else record_outcome db id seen ids status now

unfoldable pub complete_settlement :
    Db
    → (id : ℕ) → SettlementRecordStatus
    → DashboardActor
    → (now : ℕ) → Result WalletError (Db × SettlementRecord)
unfolding assert_admin complete_read
complete_settlement db id status actor now = do
  assert_admin actor
  settlement ← or_throw (db.settlements id) settlement_not_found
  complete_read db id settlement (allocation_ids id db.allocations) status now
