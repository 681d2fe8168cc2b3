-- ===== src/Wallet/Ledger/Outcomes.antt =====
-- The record of an outcome keeps the ledger.
use gathergo_backend.Base.{
  ℕ, ◌≡◌, ◌∙◌, refl, sym, ap, subst, inl, inr, true, false, some, List, ◌==◌, ==_iff, Bool-cases,
  ok, or_throw, or_throw-eq-ok, throw_if, throw_if-eq-ok, not, >>=-eq-ok, >>-eq-ok, ok-eq-ok,
  some-eq-some, arith,
}
use gathergo_backend.Wallet.{
  SettlementRecord, SettlementRecordStatus, Db, WalletError, settlement_changed, is_settled,
  is_paid,
}
use gathergo_backend.Wallet.Settle.{
  mem, allocation_ids, outcome_status, with_outcome, write_outcome, record_outcome, complete_read,
  same_record_status,
}
use gathergo_backend.Wallet.Ledger.{paid_out, sum_allocated, Inv}
use gathergo_backend.Wallet.Ledger.Rows.{update_many-Distinct, update_many-All}
use gathergo_backend.Wallet.Ledger.Shares.{put-hit, put-miss, paid_out-put}

outcome-settles :
    (status : SettlementRecordStatus) → is_settled (outcome_status status) ≡ is_paid status
outcome-settles SettlementRecordStatus.pending = refl
outcome-settles SettlementRecordStatus.processing = refl
outcome-settles SettlementRecordStatus.success = refl
outcome-settles SettlementRecordStatus.failed = refl
outcome-settles SettlementRecordStatus.cancelled = refl

write_outcome-Inv :
    (db : Db) (id : ℕ) (current : SettlementRecord) (status : SettlementRecordStatus) (now : ℕ)
    → db.settlements id ≡ some current
    → Inv db
    → Inv (write_outcome db id current (allocation_ids id db.allocations) status now).0
write_outcome-Inv db id current status now known (dp, da, sums, agree) =
    let ids = allocation_ids id db.allocations in
    let updated = (write_outcome db id current ids status now).1 in
    let write = paid_out-put db.settlements id updated db.allocations in
    (
      update_many-Distinct (λ p. mem p.id ids) (with_outcome status now) (λ p. refl) db.payments dp,
      da,
      λ k r e. elim (Bool-cases (k == id)) [
        | inl hit ↦
            let own = some-eq-some updated r (put-hit db.settlements id k updated hit e) in
            subst (λ j. sum_allocated j db.allocations ≡ r.amount) (sym ((==_iff k id).0 hit))
              (sums id current known ∙ ap (λ x. x.amount) own)
        | inr miss ↦ sums k r (put-miss db.settlements id k updated miss e)
      ],
      update_many-All (λ p. mem p.id ids) (with_outcome status now) (λ p. refl)
          (λ p. is_settled p.settlement_status ≡ paid_out db.settlements db.allocations p.id) _
          db.payments (λ p hit h. outcome-settles status ∙ sym (write p.id da ∙ rw hit refl))
          (λ p miss h. h ∙ sym (write p.id da ∙ rw miss refl)) agree,
    )

pub record_outcome-parts :
    (db : Db) (id : ℕ) (seen : SettlementRecord) (ids : List ℕ) (status : SettlementRecordStatus)
    (now : ℕ) {x : Db × SettlementRecord}
    → record_outcome db id seen ids status now ≡ ok x
    → (current : SettlementRecord) × (db.settlements id ≡ some current)
      × (same_record_status current.status seen.status ≡ true)
      × (write_outcome db id current ids status now ≡ x)
unfolding record_outcome
record_outcome-parts db id seen ids status now {x = x} e =
    let (current, known, e1) = >>=-eq-ok (or_throw (db.settlements id) settlement_changed) _ e in
    let (same, e2) =
      >>-eq-ok (throw_if (not (same_record_status current.status seen.status)) settlement_changed) _
        e1 in
    (
      current,
      or_throw-eq-ok _ _ known,
      ground (arith, throw_if-eq-ok _ _ same),
      ok-eq-ok {E = WalletError} _ x e2,
    )

-- A call that has read a settlement that succeeded answers it and changes nothing.
pub paid-stays :
    (db : Db) (id : ℕ) (seen : SettlementRecord) (status : SettlementRecordStatus) (now : ℕ)
    (x : Db × SettlementRecord)
    → is_paid seen.status ≡ true
    → complete_read db id seen (allocation_ids id db.allocations) status now ≡ ok x
    → (db, seen) ≡ x
unfolding complete_read
paid-stays db id seen status now x paid e = elim (Bool-cases (is_paid status)) [
  | inl again ↦ ok-eq-ok {E = WalletError} (db, seen) x (rw (paid, again) at e)
  | inr reversal ↦ let refused = rw (paid, reversal) at e in cc
]

-- `seen` is any record that was read: the allocations of a settlement are written once, with it.
pub complete_read-Inv :
    (db : Db) (id : ℕ) (seen : SettlementRecord) (status : SettlementRecordStatus) (now : ℕ)
    (x : Db × SettlementRecord)
    → complete_read db id seen (allocation_ids id db.allocations) status now ≡ ok x
    → Inv db
    → Inv x.0
unfolding complete_read
complete_read-Inv db id seen status now x e h = elim (Bool-cases (is_paid seen.status)) [
  | inl paid ↦ subst (λ y. Inv y.0) (paid-stays db id seen status now x paid e) h
  | inr unpaid ↦
      let (current, known, _, same) =
        record_outcome-parts db id seen (allocation_ids id db.allocations) status now
          (rw unpaid at e) in
      subst (λ y. Inv y.0) same (write_outcome-Inv db id current status now known h)
]

same-paid :
    (s t : SettlementRecordStatus)
    → same_record_status s t ≡ true
    → is_paid s ≡ true
    → is_paid t ≡ false
    → false ≡ true
same-paid s t same paid unpaid = ground (arith, same, paid, unpaid)

-- The record of a settlement that has succeeded is final.
pub complete_read-final :
    (db : Db) (id : ℕ) (seen : SettlementRecord) (status : SettlementRecordStatus) (now : ℕ)
    (x : Db × SettlementRecord) (k : ℕ) (r : SettlementRecord)
    → complete_read db id seen (allocation_ids id db.allocations) status now ≡ ok x
    → db.settlements k ≡ some r
    → is_paid r.status ≡ true
    → x.0.settlements k ≡ some r
unfolding complete_read
complete_read-final db id seen status now x k r e known paid =
    elim (Bool-cases (is_paid seen.status)) [
      | inl seen_paid ↦
          subst (λ y. y.0.settlements k ≡ some r) (paid-stays db id seen status now x seen_paid e)
            known
      | inr unpaid ↦
          let ids = allocation_ids id db.allocations in
          let (current, here, same, written) =
            record_outcome-parts db id seen ids status now (rw unpaid at e) in
          let updated = (write_outcome db id current ids status now).1 in
          subst (λ y. y.0.settlements k ≡ some r) written
            (elim (Bool-cases (k == id)) [
              | inr miss ↦ rw miss known
              | inl hit ↦
                  let at_id = subst (λ j. db.settlements j ≡ some r) ((==_iff k id).0 hit) known in
                  let own = some-eq-some current r (sym here ∙ at_id) in
                  let absurd = same-paid current.status seen.status same (rw own paid) unpaid in cc
            ])
    ]
