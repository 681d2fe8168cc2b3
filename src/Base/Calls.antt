-- ===== src/Base/Calls.antt =====
-- Calls that keep what they wrote before an error: a handler with writes outside a transaction.
use mathlib.Core.Path.{◌≡◌, refl}
use gathergo_backend.Base.Results.{Result, ok, err, Keeps, kept}

abbrev pub Call : Type 0 → Type 0 → Type 0 → Type 0
Call E S A = S → S × Result E A

module _ {E S : Type 0} where
  unfoldable pub then_call : {A B : Type 0} → (A → Call E S B) → S × Result E A → S × Result E B
  then_call k (s, ok a) = k a s
  then_call k (s, err e) = (s, err e)

  infixl 5 ◌>>=◌ ◌>>◌
  abbrev pub ◌>>=◌ : {A B : Type 0} → Call E S A → (A → Call E S B) → Call E S B
  m >>= k = λ s. then_call k (m s)

  abbrev pub ◌>>◌ : {B : Type 0} → Call E S (Unit {0}) → Call E S B → Call E S B
  m >> n = m >>= λ _. n

  -- A read or a check, which writes nothing.
  abbrev pub reads : {A : Type 0} → (S → Result E A) → Call E S A
  reads f s = (s, f s)

  -- A write that cannot fail.
  abbrev pub writes : (S → S) → Call E S (Unit {0})
  writes f s = (f s, ok tt)

  unfoldable pub commit : {A : Type 0} → S → Result E (S × A) → S × Result E A
  commit s (ok (s', a)) = (s', ok a)
  commit s (err e) = (s, err e)

  -- `$transaction`: all of its writes, or none where it throws.
  abbrev pub transaction : {A : Type 0} → (S → Result E (S × A)) → Call E S A
  transaction f s = commit s (f s)

  module _ (P : S → Type 0) where
    pub then_call-keeps :
        {A B : Type 0} (k : A → Call E S B) (r : S × Result E A)
        → P r.0
        → ((a : A) (s : S) → P s → P (k a s).0)
        → P (then_call k r).0
    unfolding then_call
    then_call-keeps k (s, ok a) h go = go a s h
    then_call-keeps k (s, err e) h go = h

    -- From what holds before the step, where that implies what holds after an error.
    pub then_call-ends :
        {A B : Type 0} (Q : S → Type 0) (k : A → Call E S B) (r : S × Result E A)
        → ((s : S) → Q s → P s)
        → Q r.0
        → ((a : A) (s : S) → Q s → P (k a s).0)
        → P (then_call k r).0
    unfolding then_call
    then_call-ends Q k (s, ok a) weaken h go = go a s h
    then_call-ends Q k (s, err e) weaken h go = weaken s h

    pub commit-keeps :
        {A : Type 0} (s : S) (r : Result E (S × A)) → P s → Keeps P r → P (commit s r).0
    unfolding commit
    commit-keeps s (ok x) h (kept _ k) = k
    commit-keeps s (err e) h k = h

  -- A call that answers has gone through each of its steps.
  pub then_call-eq-ok :
      {A B : Type 0} (k : A → Call E S B) (r : S × Result E A) {b : B}
      → (then_call k r).1 ≡ ok b
      → (a : A) × (r.1 ≡ ok a) × (then_call k r ≡ k a r.0)
  unfolding then_call
  then_call-eq-ok k (s, ok a) e = (a, refl, refl)
  then_call-eq-ok k (s, err e') e = cc
