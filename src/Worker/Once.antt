-- ===== src/Worker/Once.antt =====
-- Several workers over the same refunds: each claims, asks the provider and writes at its own pace.
use gathergo_backend.Base.{
  ℕ, ◌+◌, ◌≤◌, ◌≡◌, refl, sym, subst, inl, inr, Bool, true, ◌&&◌, ◌||◌, Option, none, some, List,
  [], ◌∷◌, ◌++◌, ◌==◌, ==_iff, Bool-cases, Option-cases, put, bit, count_if, count_if-append, arith,
}
use Prim.Native.String.{String}
use text.Mathlib.Text.{◌==◌ as str_eq}
use gathergo_backend.Worker.{Refund}
use gathergo_backend.Worker.Refunds.{
  Refunds, claim, change, submitted, manual, settle, PaystackRefund, confirmed,
}

-- A claim whose worker has neither submitted nor ended, with the attempts that it had read.
pub record Claim : Type 0 where
  pub id : ℕ
  pub attempts : ℕ

-- The rows, the claims under way, and the refunds that were submitted to the provider.
pub record Shared : Type 0 where
  pub rows : Refunds
  pub claims : List Claim
  pub submissions : List ℕ

pub data Step (s : Shared) (s' : Shared) : Type 0 where
  -- A worker claims a refund, as some earlier read saw it.
  claims :
      (id at : ℕ) (seen : Refund)
      → (claim id at seen s.rows).1 ≡ true
      → s' ≡ record s {
        rows = (claim id at seen s.rows).0;
        claims = record { id = id; attempts = seen.attempts } ∷ s.claims;
      }
      → Step s s'
  -- The worker of a first attempt submits the refund.
  submits :
      (xs ys : List Claim) (c : Claim)
      → s.claims ≡ xs ++ c ∷ ys
      → c.attempts ≡ 0
      → s' ≡ record {
        rows = change c.id submitted s.rows;
        claims = xs ++ ys;
        submissions = c.id ∷ s.submissions;
      }
      → Step s s'
  drops :
      (xs ys : List Claim) (c : Claim)
      → s.claims ≡ xs ++ c ∷ ys
      → s' ≡ record s { claims = xs ++ ys }
      → Step s s'
  -- The writes of what the provider answered, and of what an operator has to do.
  settles :
      (show : ℕ → String) (other : String → String) (at id : ℕ) (item : PaystackRefund)
      → s' ≡ record s { rows = settle show other at id item s.rows }
      → Step s s'
  holds :
      (at id : ℕ) (error : String) → s' ≡ record s { rows = manual at id error s.rows } → Step s s'
  confirms :
      (at id : ℕ) (reference : String)
      → s' ≡ record s { rows = change id (confirmed at reference) s.rows }
      → Step s s'
  -- A refund that is requested.
  arrives :
      (id : ℕ) (r : Refund)
      → s.rows id ≡ none
      → s' ≡ record s { rows = put s.rows id r }
      → Step s s'

pub data Reach (start : Shared) : Shared → Type 0 where
  here : Reach start start
  next : {s s' : Shared} → Reach start s → Step s s' → Reach start s'

-- Whether a first attempt at the refund is still to be made.
abbrev fresh : Option Refund → ℕ
fresh none = 1
fresh (some r) = bit (r.attempts == 0)

abbrev is_first : ℕ → Claim → Bool
is_first id c = c.id == id && c.attempts == 0

abbrev pub budget : ℕ → Shared → ℕ
budget id s =
    count_if (λ k. k == id) s.submissions + count_if (is_first id) s.claims + fresh (s.rows id)

change-fresh :
    (id : ℕ) (f : Refund → Refund) (rows : Refunds) (k : ℕ)
    → ((r : Refund) → (f r).attempts ≡ r.attempts)
    → fresh (change id f rows k) ≡ fresh (rows k)
change-fresh id f rows k keeps = elim (Option-cases (rows id)) [
  | inl missing ↦ ground (arith, missing)
  | inr (r, found) ↦ elim (Bool-cases (k == id)) [
    | inl hit ↦
        let same = subst (λ j. rows j ≡ some r) (sym ((==_iff k id).0 hit)) found in
        ground (arith, found, hit, same, keeps r)
    | inr miss ↦ ground (arith, found, miss)
  ]
]

manual-fresh :
    (at id : ℕ) (error : String) (rows : Refunds) (k : ℕ)
    → fresh (manual at id error rows k) ≡ fresh (rows k)
unfolding manual
manual-fresh at id error rows k = change-fresh id _ rows k (λ r. ground arith)

settle-fresh :
    (show : ℕ → String) (other : String → String) (at id : ℕ) (item : PaystackRefund)
    (rows : Refunds) (k : ℕ)
    → fresh (settle show other at id item rows k) ≡ fresh (rows k)
unfolding settle
settle-fresh show other at id item rows k = elim (Bool-cases (str_eq item.status "processed")) [
  | inl done ↦ rw done (change-fresh id _ rows k (λ r. refl))
  | inr more ↦ elim (Bool-cases (str_eq item.status "pending" || str_eq item.status "processing")) [
    | inl waits ↦ rw (more, waits) (change-fresh id _ rows k (λ r. refl))
    | inr fails ↦ rw (more, fails) (manual-fresh at id (other item.status) rows k)
  ]
]

-- Whoever claims takes over the first attempt.
claim-fresh :
    (id at : ℕ) (seen : Refund) (rows : Refunds) (k : ℕ)
    → (claim id at seen rows).1 ≡ true
    → bit (is_first k (record { id = id; attempts = seen.attempts }))
        + fresh ((claim id at seen rows).0 k)
      ≤ fresh (rows k)
unfolding claim
claim-fresh id at seen rows k won = elim (Option-cases (rows id)) [
  | inl missing ↦ ground (arith, missing)
  | inr (r, found) ↦ elim (Bool-cases (k == id)) [
    | inl hit ↦
        let same = subst (λ j. rows j ≡ some r) (sym ((==_iff k id).0 hit)) found in
        ground (arith, won, found, hit, same)
    | inr miss ↦ ground (arith, won, found, miss)
  ]
]

count-middle :
    (q : Claim → Bool) (xs ys : List Claim) (c : Claim)
    → count_if q (xs ++ c ∷ ys) ≡ count_if q (xs ++ ys) + bit (q c)
unfolding count_if
count-middle q xs ys c = omega (arith, count_if-append q xs (c ∷ ys), count_if-append q xs ys)

submit-budget :
    (s : Shared) (xs ys : List Claim) (c : Claim) (id : ℕ)
    → s.claims ≡ xs ++ c ∷ ys
    → c.attempts ≡ 0
    → budget id (record {
      rows = change c.id submitted s.rows;
      claims = xs ++ ys;
      submissions = c.id ∷ s.submissions;
    })
      ≡ budget id s
unfolding count_if
submit-budget s xs ys c id e first =
    let moved = count-middle (is_first id) xs ys c in
    let row = change-fresh c.id submitted s.rows id (λ r. refl) in
    let own : bit (is_first id c) ≡ bit (c.id == id) = rw first (ground arith) in
    rw e (omega (arith, moved, row, own))

drop-budget :
    (s : Shared) (xs ys : List Claim) (c : Claim) (id : ℕ)
    → s.claims ≡ xs ++ c ∷ ys
    → budget id (record s { claims = xs ++ ys }) ≤ budget id s
drop-budget s xs ys c id e = rw e (omega (arith, count-middle (is_first id) xs ys c))

put-fresh :
    (id : ℕ) (r : Refund) (rows : Refunds) (k : ℕ)
    → rows id ≡ none
    → fresh (put rows id r k) ≤ fresh (rows k)
put-fresh id r rows k missing = elim (Bool-cases (k == id)) [
  | inl hit ↦
      let same = subst (λ j. rows j ≡ none) (sym ((==_iff k id).0 hit)) missing in
      rw (hit, same) (ground arith)
  | inr miss ↦ rw miss (omega arith)
]

start-budget :
    (rows : Refunds) (id : ℕ)
    → budget id (record { rows = rows; claims = []; submissions = [] }) ≤ 1
unfolding count_if
start-budget rows id = elim (Option-cases (rows id)) [
  | inl missing ↦ rw missing (omega arith)
  | inr (r, found) ↦ rw found (ground arith)
]

Step-budget : (id : ℕ) (s s' : Shared) → Step s s' → budget id s ≤ 1 → budget id s' ≤ 1
unfolding count_if
Step-budget id s s' (claims k at seen won e) h =
    rw e (omega (arith, h, claim-fresh k at seen s.rows id won))
Step-budget id s s' (submits xs ys c e first f) h =
    rw f (omega (arith, h, submit-budget s xs ys c id e first))
Step-budget id s s' (drops xs ys c e f) h = rw f (omega (arith, h, drop-budget s xs ys c id e))
Step-budget id s s' (settles show other at k item e) h =
    rw e (omega (arith, h, settle-fresh show other at k item s.rows id))
Step-budget id s s' (holds at k error e) h =
    rw e (omega (arith, h, manual-fresh at k error s.rows id))
Step-budget id s s' (confirms at k reference e) h =
    rw e (omega (arith, h, change-fresh k (confirmed at reference) s.rows id (λ r. refl)))
Step-budget id s s' (arrives k r missing e) h =
    rw e (omega (arith, h, put-fresh k r s.rows id missing))

Reach-budget : (id : ℕ) (start s : Shared) → Reach start s → budget id start ≤ 1 → budget id s ≤ 1
Reach-budget id start s here h = h
Reach-budget id start s (next r step) h = Step-budget id _ s step (Reach-budget id start _ r h)

-- However many workers run and however their claims, calls and writes interleave, a refund is submitted
-- to the payment provider at most once.
pub Reach-submitted_once :
    (rows : Refunds) (s : Shared) (id : ℕ)
    → Reach (record { rows = rows; claims = []; submissions = [] }) s
    → count_if (λ k. k == id) s.submissions ≤ 1
unfolding count_if
Reach-submitted_once rows s id reached =
    let bound = Reach-budget id _ s reached (start-budget rows id) in omega (arith, bound)
