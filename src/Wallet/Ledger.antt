-- ===== src/Wallet/Ledger.antt =====
-- What the allocations say of the settlements and of the payments.
pub mod Rows
pub mod Views
pub mod Loops
pub mod Shares
pub mod Outcomes
pub mod Syncs
pub mod Prepares
use gathergo_backend.Base.{
  ℕ, ◌+◌, ◌≡◌, Bool, true, false, ◌&&◌, Option, none, some, List, [], ◌∷◌, if◌then◌else◌, ◌==◌, any,
  All, Distinct,
}
use gathergo_backend.Wallet.{Payment, SettlementRecord, Allocation, Db, is_settled, is_paid}

abbrev pub paid_record : Option SettlementRecord → Bool
paid_record none = false
paid_record (some r) = is_paid r.status

-- The payment is allocated to a settlement that has succeeded.
abbrev pub paid_out : (ℕ → Option SettlementRecord) → List Allocation → ℕ → Bool
paid_out settlements allocations id =
    any (λ a. a.payment_id == id && paid_record (settlements a.settlement_id)) allocations

unfoldable pub sum_allocated : ℕ → List Allocation → ℕ
sum_allocated id [] = 0
sum_allocated id (a ∷ rest) =
    (if a.settlement_id == id then a.amount else 0) + sum_allocated id rest

abbrev pub payment_key : Payment → ℕ
payment_key p = p.id

abbrev pub allocation_key : Allocation → ℕ
allocation_key a = a.payment_id

-- The payments have different ids; no payment is allocated twice; a settlement's amount is the sum of
-- its allocations; and a payment is settled just where it is allocated to a settlement that succeeded.
abbrev pub Inv : Db → Type 0
Inv db =
    Distinct payment_key db.payments
    × Distinct allocation_key db.allocations
    × ((id : ℕ) (r : SettlementRecord)
        → db.settlements id ≡ some r
        → sum_allocated id db.allocations ≡ r.amount)
    × All (λ p. is_settled p.settlement_status ≡ paid_out db.settlements db.allocations p.id)
        db.payments

-- The database gives a record an id that neither a record nor an allocation has.
abbrev pub IsFresh : ℕ → Db → Type 0
IsFresh id db =
    (db.settlements id ≡ none) × All (λ a. (a.settlement_id == id) ≡ false) db.allocations
