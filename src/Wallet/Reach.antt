-- ===== src/Wallet/Reach.antt =====
-- Histories of settlements: creations, outcomes and refreshes, with what other services do between.
use gathergo_backend.Base.{
  ℕ, ◌≡◌, ◌∙◌, not, ◌||◌, refl, sym, subst, inl, inr, true, false, Option, some, List, [], ◌∷◌,
  ◌==◌, Bool-cases, ok, Keeps, Keeps-imp, All, Distinct,
}
use gathergo_backend.Base.Calls.{then_call-ends, commit-keeps, reads}
use gathergo_backend.Wallet.{
  Payment, PayoutProfile, SettlementRecord, SettlementRecordStatus, Db, is_settled, is_paid,
}
use gathergo_backend.Wallet.Standing.{Config, backfill_creator_transactions}
use gathergo_backend.Wallet.Release.{
  sync_creator_settlement_status, refresh_creator_settlement_status,
}
use gathergo_backend.Wallet.Settle.{
  DashboardActor, assert_admin, CreateSettlement, find_active, assert_destination,
  prepare_settlement, mem, allocation_ids, complete_read,
}
use gathergo_backend.Wallet.Create.{create_settlement}
use gathergo_backend.Wallet.Ledger.{paid_out, sum_allocated, payment_key, Inv, IsFresh}
use gathergo_backend.Wallet.Ledger.Views.{SameViews, views-Inv}
use gathergo_backend.Wallet.Ledger.Shares.{mem-paid}
use gathergo_backend.Wallet.Ledger.Outcomes.{complete_read-Inv, complete_read-final}
use gathergo_backend.Wallet.Ledger.Syncs.{backfill-keeps, sync-keeps, refresh-keeps}
use gathergo_backend.Wallet.Ledger.Prepares.{Grown, prepare_settlement-Keeps}

-- A creation or a refresh, also one that throws; a record of an outcome, of a settlement as some earlier
-- read saw it; a payment that arrives unsettled; and an edit of payments or profiles elsewhere that
-- settles and unsettles nothing.
pub data Step (config : Config) (db : Db) (db' : Db) : Type 0 where
  creates :
      (creator id : ℕ) (input : CreateSettlement) (actor : DashboardActor) (now : ℕ)
      → IsFresh id db
      → db' ≡ (create_settlement config creator id input actor now db).0
      → Step config db db'
  completes :
      (id : ℕ) (seen : SettlementRecord) (status : SettlementRecordStatus) (now : ℕ)
      (answer : SettlementRecord)
      → complete_read db id seen (allocation_ids id db.allocations) status now ≡ ok (db', answer)
      → Step config db db'
  refreshes :
      (creator now : ℕ)
      → db' ≡ (refresh_creator_settlement_status config creator now db).0
      → Step config db db'
  arrives :
      (p : Payment)
      → is_settled p.settlement_status ≡ false
      → paid_out db.settlements db.allocations p.id ≡ false
      → All (λ q. (p.id == q.id) ≡ false) db.payments
      → db' ≡ record db { payments = p ∷ db.payments }
      → Step config db db'
  edits_payments :
      (ps : List Payment)
      → SameViews db.payments ps
      → db' ≡ record db { payments = ps }
      → Step config db db'
  edits_profiles :
      (profiles : ℕ → Option PayoutProfile)
      → db' ≡ record db { profiles = profiles }
      → Step config db db'

pub data Reach (config : Config) (start : Db) : Db → Type 0 where
  here : Reach config start start
  next : {db db' : Db} → Reach config start db → Step config db db' → Reach config start db'

-- What holds before a creation and is kept by its writes outside the transaction.
module _ (P Q : Db → Type 0) (weaken : (db : Db) → Q db → P db)
    (keyed : (db : Db) → Q db → Distinct payment_key db.payments)
    (closed : (db : Db) (qs : List Payment)
      → SameViews db.payments qs
      → Q db
      → Q (record db { payments = qs }))
    (config : Config) (creator id : ℕ) (input : CreateSettlement) (actor : DashboardActor) (now : ℕ)
    (prepare : (db : Db) → Q db → Keeps P (prepare_settlement config creator id input db)) where
  create_settlement-ends :
      (db : Db) → Q db → P (create_settlement config creator id input actor now db).0
  unfolding create_settlement
  create_settlement-ends db h =
      then_call-ends P Q _ (reads (λ _. assert_admin actor) db) weaken h λ _ s h.
        then_call-ends P Q _ (backfill_creator_transactions config creator s) weaken
          (backfill-keeps Q keyed closed config creator now s h)
          λ _ s h.
            then_call-ends P Q _ (reads (λ db. find_active db creator) s) weaken h λ profile s h.
              then_call-ends P Q _
                (sync_creator_settlement_status config creator profile.status now s) weaken
                (sync-keeps Q keyed closed config creator now profile.status s h)
                λ _ s h.
                  then_call-ends P Q _ (reads (λ _. assert_destination profile input) s) weaken h
                    λ _ s h.
                      commit-keeps P s (prepare_settlement config creator id input s) (weaken s h)
                        (prepare s h)

Step-Inv : (config : Config) (db db' : Db) → Step config db db' → Inv db → Inv db'
Step-Inv config db db' (creates creator id input actor now fresh e) h = subst Inv (sym e) (
    create_settlement-ends Inv (λ s. Inv s × IsFresh id s) (λ s k. k.0) (λ s k. k.0.0)
      (λ s qs same k. (views-Inv s qs same k.0, k.1)) config creator id input actor now
      (λ s k.
        Keeps-imp (Grown s) Inv (prepare_settlement config creator id input s) (λ _ g. g.0)
          (prepare_settlement-Keeps config creator id input s k.1 k.0))
      db (h, fresh))
Step-Inv config db db' (completes id seen status now answer e) h =
    complete_read-Inv db id seen status now (db', answer) e h
Step-Inv config db db' (refreshes creator now e) h =
    subst Inv (sym e) (refresh-keeps Inv (λ s k. k.0) views-Inv config creator now db h)
Step-Inv config db db' (arrives p unsettled unpaid fresh e) (dp, da, sums, agree) =
    subst Inv (sym e) ((fresh, dp), da, sums, (unsettled ∙ sym unpaid, agree))
Step-Inv config db db' (edits_payments ps same e) h = subst Inv (sym e) (views-Inv db ps same h)
Step-Inv config db db' (edits_profiles profiles e) h = subst Inv (sym e) h

-- In whatever is reached from a sound ledger the ledger is sound: no two payments have one id, no
-- payment is allocated twice, the amount of each settlement is the sum of its allocations, and a
-- payment is SETTLED just where it is allocated to a settlement that has succeeded.
pub Reach-sound_ledger :
    (config : Config) (start db : Db) → Reach config start db → Inv start → Inv db
Reach-sound_ledger config start db here h = h
Reach-sound_ledger config start db (next r s) h =
    Step-Inv config _ db s (Reach-sound_ledger config start _ r h)

-- A settlement that has succeeded, as it was at first.
abbrev IsKept : ℕ → SettlementRecord → Db → Type 0
IsKept id r db = Inv db × (db.settlements id ≡ some r)

module _ (config : Config) (id : ℕ) (r : SettlementRecord) (paid : is_paid r.status ≡ true) where
  prepare-IsKept :
      (creator new : ℕ) (input : CreateSettlement) (db : Db)
      → IsFresh new db
      → IsKept id r db
      → Keeps (IsKept id r) (prepare_settlement config creator new input db)
  prepare-IsKept creator new input db fresh (h, known) =
      Keeps-imp (Grown db) (IsKept id r) (prepare_settlement config creator new input db)
        (λ s g. (g.0, g.1 id r known))
        (prepare_settlement-Keeps config creator new input db fresh h)

  Step-IsKept : (db db' : Db) → Step config db db' → IsKept id r db → IsKept id r db'
  Step-IsKept db db' (creates creator new input actor now fresh e) h = subst (IsKept id r) (sym e) (
      create_settlement-ends (IsKept id r) (λ s. IsKept id r s × IsFresh new s) (λ s k. k.0)
        (λ s k. k.0.0.0) (λ s qs same k. ((views-Inv s qs same k.0.0, k.0.1), k.1)) config creator
        new input actor now (λ s k. prepare-IsKept creator new input s k.1 k.0) db (h, fresh))
  Step-IsKept db db' (completes k seen status now answer e) (h, known) = (
    complete_read-Inv db k seen status now (db', answer) e h,
    complete_read-final db k seen status now (db', answer) id r e known paid,
  )
  Step-IsKept db db' (refreshes creator now e) h = subst (IsKept id r) (sym e) (
      refresh-keeps (IsKept id r) (λ s k. k.0.0) (λ s qs same k. (views-Inv s qs same k.0, k.1))
        config creator now db h)
  Step-IsKept db db' (arrives p unsettled unpaid fresh e) (h, known) =
      (Step-Inv config db db' (arrives p unsettled unpaid fresh e) h, rw e known)
  Step-IsKept db db' (edits_payments ps same e) (h, known) =
      (Step-Inv config db db' (edits_payments ps same e) h, rw e known)
  Step-IsKept db db' (edits_profiles profiles e) (h, known) =
      (Step-Inv config db db' (edits_profiles profiles e) h, rw e known)

  Reach-IsKept : (start db : Db) → Reach config start db → IsKept id r start → IsKept id r db
  Reach-IsKept start db here h = h
  Reach-IsKept start db (next reached s) h = Step-IsKept _ db s (Reach-IsKept start _ reached h)

  All-settled :
      (db : Db) (ps : List Payment)
      → db.settlements id ≡ some r
      → All (λ p. is_settled p.settlement_status ≡ paid_out db.settlements db.allocations p.id) ps
      → All
          (λ p.
            (not (mem p.id (allocation_ids id db.allocations)) || is_settled p.settlement_status)
            ≡ true)
          ps
  All-settled db [] known h = tt
  All-settled db (p ∷ ps) known (h, hs) =
      elim (Bool-cases (mem p.id (allocation_ids id db.allocations))) [
        | inr other ↦ (rw other refl, All-settled db ps known hs)
        | inl own ↦
            let settled = h ∙ mem-paid db.settlements id r p.id db.allocations known paid own in
            (rw (own, settled) refl, All-settled db ps known hs)
      ]

  -- A settlement that has succeeded is final, whatever was read of it before: in all that is reached
  -- from then on its record is the same, its allocations sum to its amount, and each payment that is
  -- allocated to it is SETTLED.
  pub Reach-paid_final :
      (start db : Db)
      → Inv start
      → start.settlements id ≡ some r
      → Reach config start db
      → (db.settlements id ≡ some r)
        × (sum_allocated id db.allocations ≡ r.amount)
        × All
            (λ p.
              (not (mem p.id (allocation_ids id db.allocations)) || is_settled p.settlement_status)
              ≡ true)
            db.payments
  Reach-paid_final start db h known reached =
      let (sound, still) = Reach-IsKept start db reached (h, known) in
      (still, sound.2 id r still, All-settled db db.payments still sound.3)
