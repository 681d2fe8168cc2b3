-- ===== src/Wallet/Ledger/Shares.antt =====
-- The allocations that a settlement makes, and which payments are paid out after a write.
use gathergo_backend.Base.{
  ℕ, ◌+◌, ◌≡◌, ◌∙◌, refl, sym, subst, inl, inr, Bool, true, false, ◌&&◌, Option, some, List, [],
  ◌∷◌, ◌++◌, if◌then◌else◌, ◌==◌, ==_iff, Bool-cases, ok, >>=-eq-ok, ok-eq-ok, any, any-false,
  any-append, any-same, All, All-imp, or_false, or_true, and_false, Distinct, put, arith,
}
use gathergo_backend.Pricing.Fees.{Env}
use gathergo_backend.Pricing.Recorded.{resolve_creator_payable_kobo}
use gathergo_backend.Wallet.{Payment, SettlementRecord, Allocation, WalletError, is_paid}
use gathergo_backend.Wallet.Standing.{lift}
use gathergo_backend.Wallet.Settle.{sum_payable, allocate, mem, allocation_ids}
use gathergo_backend.Wallet.Ledger.{
  paid_record, paid_out, sum_allocated, payment_key, allocation_key,
}

module _ (env : Env) (id : ℕ) where
  abbrev share : Payment → ℕ → Allocation
  share p n = record { settlement_id = id; payment_id = p.id; amount = n }

  allocate-cons :
      (p : Payment) (ps : List Payment) (shares : List Allocation)
      → allocate env id (p ∷ ps) ≡ ok shares
      → (n : ℕ) × (rest : List Allocation) × (lift (resolve_creator_payable_kobo env p.recorded)
          ≡ ok n)
        × (allocate env id ps ≡ ok rest)
        × ((share p n ∷ rest) ≡ shares)
  unfolding allocate
  allocate-cons p ps shares e =
      let (n, priced, e1) = >>=-eq-ok (lift (resolve_creator_payable_kobo env p.recorded)) _ e in
      let (rest, got, e2) = >>=-eq-ok (allocate env id ps) _ e1 in
      (n, rest, priced, got, ok-eq-ok {E = WalletError} _ _ e2)

  allocate-nil : (shares : List Allocation) → allocate env id [] ≡ ok shares → [] ≡ shares
  unfolding allocate
  allocate-nil shares e = ok-eq-ok {E = WalletError} [] shares e

  pub allocate-All :
      (P : Allocation → Type 0) (ps : List Payment) (shares : List Allocation)
      → allocate env id ps ≡ ok shares
      → All (λ p. (n : ℕ) → P (share p n)) ps
      → All P shares
  allocate-All P [] shares e h = subst (All P) (allocate-nil shares e) tt
  allocate-All P (p ∷ ps) shares e (h, hs) =
      let (n, rest, _, got, same) = allocate-cons p ps shares e in
      subst (All P) same (h n, allocate-All P ps rest got hs)

  pub allocate-Distinct :
      (ps : List Payment) (shares : List Allocation)
      → allocate env id ps ≡ ok shares
      → Distinct payment_key ps
      → Distinct allocation_key shares
  allocate-Distinct [] shares e h = subst (Distinct allocation_key) (allocate-nil shares e) tt
  allocate-Distinct (p ∷ ps) shares e (h, hs) =
      let (n, rest, _, got, same) = allocate-cons p ps shares e in
      subst (Distinct allocation_key) same (
        allocate-All (λ a. (p.id == a.payment_id) ≡ false) ps rest got
            (All-imp (λ q. (p.id == q.id) ≡ false) _ (λ q h n. h) ps h),
        allocate-Distinct ps rest got hs,
      )

  pub allocate-sum :
      (ps : List Payment) (shares : List Allocation) (total : ℕ)
      → allocate env id ps ≡ ok shares
      → sum_payable env ps ≡ ok total
      → sum_allocated id shares ≡ total
  unfolding sum_allocated sum_payable
  allocate-sum [] shares total e f =
      subst (λ xs. sum_allocated id xs ≡ total) (allocate-nil shares e)
        (ok-eq-ok {E = WalletError} 0 total f)
  allocate-sum (p ∷ ps) shares total e f =
      let (n, rest, priced, got, same) = allocate-cons p ps shares e in
      let (m, priced', f1) = >>=-eq-ok (lift (resolve_creator_payable_kobo env p.recorded)) _ f in
      let (later, summed, f2) = >>=-eq-ok (sum_payable env ps) _ f1 in
      let step = allocate-sum ps rest later got summed in
      let figure = ok-eq-ok {E = WalletError} n m (sym priced ∙ priced') in
      let sum = ok-eq-ok {E = WalletError} (m + later) total f2 in
      let own = (==_iff id id).1 refl in
      subst (λ xs. sum_allocated id xs ≡ total) same (rw own (omega (arith, step, figure, sum)))

pub sum_allocated-append :
    (id : ℕ) (xs ys : List Allocation)
    → sum_allocated id (xs ++ ys) ≡ sum_allocated id xs + sum_allocated id ys
unfolding sum_allocated
sum_allocated-append id [] ys = omega arith
sum_allocated-append id (x ∷ xs) ys = omega (arith, sum_allocated-append id xs ys)

pub sum_allocated-none :
    (id : ℕ) (xs : List Allocation)
    → All (λ a. (a.settlement_id == id) ≡ false) xs
    → sum_allocated id xs ≡ 0
unfolding sum_allocated
sum_allocated-none id [] h = refl
sum_allocated-none id (x ∷ xs) (h, hs) = rw h (omega (arith, sum_allocated-none id xs hs))

abbrev pays : (ℕ → Option SettlementRecord) → ℕ → Allocation → Bool
pays settlements payment a = a.payment_id == payment && paid_record (settlements a.settlement_id)

put-unpaid :
    (settlements : ℕ → Option SettlementRecord) (id : ℕ) (r : SettlementRecord) (payment : ℕ)
    → is_paid r.status ≡ false
    → (a : Allocation) → (a.settlement_id == id) ≡ true
    → pays (put settlements id r) payment a ≡ false
put-unpaid settlements id r payment unpaid a e =
    rw (e, unpaid) (and_false (a.payment_id == payment))

-- A pending record of a fresh id, with allocations of its own, pays nothing out.
pub paid_out-fresh :
    (settlements : ℕ → Option SettlementRecord) (id : ℕ) (r : SettlementRecord)
    (old new : List Allocation) (payment : ℕ)
    → is_paid r.status ≡ false
    → All (λ a. (a.settlement_id == id) ≡ false) old
    → All (λ a. (a.settlement_id == id) ≡ true) new
    → paid_out (put settlements id r) (old ++ new) payment ≡ paid_out settlements old payment
paid_out-fresh settlements id r old new payment unpaid fresh own =
    let written = pays (put settlements id r) payment in
    let before =
      any-same written (pays settlements payment) old (All-imp _ _ (λ a e. rw e refl) old fresh) in
    let own_unpaid =
      any-false written new
        (All-imp _ _ (λ a e. put-unpaid settlements id r payment unpaid a e) new own) in
    any-append written old new
    ∙ rw (before, own_unpaid) (or_false (any (pays settlements payment) old))

none-mem :
    (id payment : ℕ) (allocations : List Allocation)
    → All (λ a. (a.payment_id == payment) ≡ false) allocations
    → mem payment (allocation_ids id allocations) ≡ false
unfolding any
none-mem id payment [] h = refl
none-mem id payment (a ∷ rest) (h, hs) = elim (Bool-cases (a.settlement_id == id)) [
  | inl own ↦ rw own (rw h (none-mem id payment rest hs))
  | inr other ↦ rw other (none-mem id payment rest hs)
]

none-paid :
    (settlements : ℕ → Option SettlementRecord) (payment : ℕ) (allocations : List Allocation)
    → All (λ a. (a.payment_id == payment) ≡ false) allocations
    → paid_out settlements allocations payment ≡ false
none-paid settlements payment allocations h =
    any-false _ allocations (All-imp _ _ (λ a e. rw e refl) allocations h)

-- A write of one settlement's record decides for the payments that are allocated to it, and leaves the
-- others as they were.
pub paid_out-put :
    (settlements : ℕ → Option SettlementRecord) (id : ℕ) (r : SettlementRecord)
    (allocations : List Allocation) (payment : ℕ)
    → Distinct allocation_key allocations
    → paid_out (put settlements id r) allocations payment ≡ (
        if mem payment (allocation_ids id allocations)
        then is_paid r.status
        else paid_out settlements allocations payment)
unfolding any
paid_out-put settlements id r [] payment d = refl
paid_out-put settlements id r (a ∷ rest) payment (d, ds) =
    elim (Bool-cases (a.payment_id == payment)) [
      | inr miss ↦ elim (Bool-cases (a.settlement_id == id)) [
        | inl own ↦ rw (own, miss) (paid_out-put settlements id r rest payment ds)
        | inr other ↦ rw (other, miss) (paid_out-put settlements id r rest payment ds)
      ]
      | inl hit ↦
          let none' : All (λ b. (b.payment_id == payment) ≡ false) rest =
            All-imp (λ b. (a.payment_id == b.payment_id) ≡ false) _ (λ b e. ground (arith, hit, e))
              rest d in
          elim (Bool-cases (a.settlement_id == id)) [
            | inl own ↦
                rw (own, hit)
                  (rw (none-paid (put settlements id r) payment rest none')
                    (or_false (is_paid r.status)))
            | inr other ↦
                rw (other, hit)
                  (rw
                    (
                      none-paid (put settlements id r) payment rest none',
                      none-mem id payment rest none',
                      none-paid settlements payment rest none',
                    )
                    refl)
          ]
    ]

pub put-hit :
    (table : ℕ → Option SettlementRecord) (id k : ℕ) (new : SettlementRecord)
    {o : Option SettlementRecord}
    → (k == id) ≡ true
    → put table id new k ≡ o
    → some new ≡ o
put-hit table id k new hit e = rw hit at e

pub put-miss :
    (table : ℕ → Option SettlementRecord) (id k : ℕ) (new : SettlementRecord)
    {o : Option SettlementRecord}
    → (k == id) ≡ false
    → put table id new k ≡ o
    → table k ≡ o
put-miss table id k new miss e = rw miss at e

-- The payments of a settlement that succeeded are paid out.
pub mem-paid :
    (settlements : ℕ → Option SettlementRecord) (id : ℕ) (r : SettlementRecord) (payment : ℕ)
    (allocations : List Allocation)
    → settlements id ≡ some r
    → is_paid r.status ≡ true
    → mem payment (allocation_ids id allocations) ≡ true
    → paid_out settlements allocations payment ≡ true
unfolding any
mem-paid settlements id r payment [] known paid e = e
mem-paid settlements id r payment (a ∷ rest) known paid e =
    elim (Bool-cases (a.settlement_id == id)) [
      | inr other ↦
          rw (mem-paid settlements id r payment rest known paid (rw other at e))
            (or_true (pays settlements payment a))
      | inl own ↦
          let same = (==_iff a.settlement_id id).0 own in
          elim (Bool-cases (a.payment_id == payment)) [
            | inl hit ↦ rw (hit, same, known, paid) refl
            | inr miss ↦
                rw (mem-paid settlements id r payment rest known paid (rw (own, miss) at e))
                  (or_true (pays settlements payment a))
          ]
    ]
