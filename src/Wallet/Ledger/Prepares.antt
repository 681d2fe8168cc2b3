-- ===== src/Wallet/Ledger/Prepares.antt =====
-- The preparation of a settlement keeps the ledger.
use gathergo_backend.Base.{
  ℕ, ◌≡◌, ◌∙◌, refl, sym, ap, subst, inl, inr, true, false, ◌&&◌, none, some, List, ◌++◌, ◌==◌,
  ==_iff, Bool-cases, arith, ok, some-eq-some, Keeps, Keeps->>=, Keeps->>, kept, All, All-imp,
  All-swap, All-any-false, Distinct, Distinct-append, put,
}
use gathergo_backend.Wallet.{Payment, SettlementRecord, Allocation, Db, is_settled}
use gathergo_backend.Wallet.Standing.{Config}
use gathergo_backend.Wallet.Release.{filter}
use gathergo_backend.Wallet.Settle.{
  is_eligible, is_requested, load_ready_settlement_transactions, sum_payable, allocate,
  CreateSettlement, is_claimable, claim_payment, pending_settlement, prepared, prepare_settlement,
}
use gathergo_backend.Wallet.Ledger.{
  paid_out, sum_allocated, payment_key, allocation_key, Inv, IsFresh,
}
use gathergo_backend.Wallet.Ledger.Rows.{
  All-order, All-filter_test, Distinct-filter, Distinct-order, update_many-Distinct,
  update_many-All,
}
use gathergo_backend.Wallet.Ledger.Shares.{
  allocate-All, allocate-Distinct, allocate-sum, sum_allocated-append, sum_allocated-none,
  paid_out-fresh, put-hit, put-miss,
}

module _ (config : Config) (creator id : ℕ) (ids : List ℕ) (db : Db) where
  abbrev rows : List Payment
  rows = load_ready_settlement_transactions db creator ids

  pub rows-eligible : All (λ p. is_eligible creator db.allocations p ≡ true) rows
  unfolding load_ready_settlement_transactions
  rows-eligible =
      let test = λ (p : Payment). is_eligible creator db.allocations p && is_requested ids p in
      All-order (λ p. is_eligible creator db.allocations p ≡ true) (filter test db.payments)
        (All-imp (λ p. test p ≡ true) _ (λ p e. ground (arith, e)) (filter test db.payments)
          (All-filter_test test db.payments))

  rows-Distinct : Distinct payment_key db.payments → Distinct payment_key rows
  unfolding load_ready_settlement_transactions
  rows-Distinct d = Distinct-order _ (Distinct-filter _ db.payments d)

  rows-unallocated : All (λ p. All (λ a. (a.payment_id == p.id) ≡ false) db.allocations) rows
  rows-unallocated =
      All-imp _ _
        (λ p e. All-any-false (λ a. a.payment_id == p.id) db.allocations (ground (arith, e))) rows
        rows-eligible

  module _ (new : List Allocation) (total : ℕ) (shared : allocate config.env id rows ≡ ok new)
      (summed : sum_payable config.env rows ≡ ok total) (fresh : IsFresh id db) (h : Inv db) where
    abbrev old : List Allocation
    old = db.allocations

    new-own : (k : ℕ) → (id == k) ≡ true → All (λ a. (a.settlement_id == k) ≡ true) new
    new-own k e =
        allocate-All config.env id _ rows new shared (All-imp _ _ (λ p h n. e) rows rows-eligible)

    new-others : (k : ℕ) → (id == k) ≡ false → All (λ a. (a.settlement_id == k) ≡ false) new
    new-others k e =
        allocate-All config.env id _ rows new shared (All-imp _ _ (λ p h n. e) rows rows-eligible)

    apart : All (λ x. All (λ y. (x.payment_id == y.payment_id) ≡ false) new) old
    apart =
        All-swap (λ x y. (x.payment_id == y.payment_id) ≡ false) old new
          (allocate-All config.env id (λ y. All (λ x. (x.payment_id == y.payment_id) ≡ false) old)
            rows new shared (All-imp _ _ (λ p h n. h) rows rows-unallocated))

    prepared-sums :
        (k : ℕ) (r : SettlementRecord)
        → put db.settlements id (pending_settlement creator total) k ≡ some r
        → sum_allocated k (old ++ new) ≡ r.amount
    prepared-sums k r e = elim (Bool-cases (k == id)) [
      | inl hit ↦
          let own =
            some-eq-some (pending_settlement creator total) r
              (put-hit db.settlements id k (pending_settlement creator total) hit e) in
          let none' = sum_allocated-none id old fresh.1 in
          let all = allocate-sum config.env id rows new total shared summed in
          let amount : total ≡ r.amount = ap (λ x. x.amount) own in
          subst (λ j. sum_allocated j (old ++ new) ≡ r.amount) (sym ((==_iff k id).0 hit))
            (omega (arith, sum_allocated-append id old new, none', all, amount))
      | inr miss ↦
          let kept =
            h.2 k r (put-miss db.settlements id k (pending_settlement creator total) miss e) in
          let none' = sum_allocated-none k new (new-others k (ground (arith, miss))) in
          omega (arith, sum_allocated-append k old new, none', kept)
    ]

    pub prepared-Inv : Inv (prepared creator id db rows total new)
    prepared-Inv = (
      update_many-Distinct (is_claimable creator old rows) claim_payment (λ p. refl) db.payments
          h.0,
      Distinct-append allocation_key old new h.1
          (allocate-Distinct config.env id rows new shared (rows-Distinct h.0)) apart,
      prepared-sums,
      update_many-All (is_claimable creator old rows) claim_payment (λ p. refl)
          (λ p. is_settled p.settlement_status ≡ paid_out db.settlements old p.id) _ db.payments
          (λ p hit agree. unsettled p hit ∙ agree ∙ sym (fresh_paid p.id))
          (λ p miss agree. agree ∙ sym (fresh_paid p.id)) h.3,
    )
      where
        fresh_paid :
            (payment : ℕ)
            → paid_out
                (put db.settlements id (pending_settlement creator total))
                (old ++ new)
                payment
              ≡ paid_out db.settlements old payment
        fresh_paid payment =
            paid_out-fresh db.settlements id (pending_settlement creator total) old new payment refl
              fresh.1 (new-own id ((==_iff id id).1 refl))

        unsettled :
            (p : Payment)
            → is_claimable creator old rows p ≡ true
            → false ≡ is_settled p.settlement_status
        unsettled p hit = ground (arith, hit)

-- The ledger, and each record that stood before.
abbrev pub Grown : Db → Db → Type 0
Grown db s =
    Inv s × ((k : ℕ) (r : SettlementRecord) → db.settlements k ≡ some r → s.settlements k ≡ some r)

put-fresh :
    (db : Db) (id : ℕ) (new : SettlementRecord)
    → IsFresh id db
    → (k : ℕ) (r : SettlementRecord) → db.settlements k ≡ some r
    → put db.settlements id new k ≡ some r
put-fresh db id new fresh k r known = elim (Bool-cases (k == id)) [
  | inl hit ↦
      let missing = subst (λ j. db.settlements j ≡ none) (sym ((==_iff k id).0 hit)) fresh.0 in
      let both = sym known ∙ missing in cc
  | inr miss ↦ rw miss known
]

pub prepare_settlement-Keeps :
    (config : Config) (creator id : ℕ) (input : CreateSettlement) (db : Db)
    → IsFresh id db
    → Inv db
    → Keeps (Grown db) (prepare_settlement config creator id input db)
unfolding prepare_settlement
prepare_settlement-Keeps config creator id input db fresh h = Keeps->> _ _ λ _.
    Keeps->>= _ _ λ total summed. Keeps->> _ _ λ _. Keeps->> _ _ λ _. Keeps->>= _ _ λ new shared.
      kept _ (
        prepared-Inv config creator id input.transaction_ids db new total shared summed fresh h,
        put-fresh db id (pending_settlement creator total) fresh,
      )
