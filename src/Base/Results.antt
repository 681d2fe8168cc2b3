-- ===== src/Base/Results.antt =====
-- Results with errors as values; a handler that fails changes nothing, as a transaction rolls back.
use mathlib.Core.Path.{◌≡◌, refl, subst}
use gathergo_backend.Base.Tests.{if◌then◌else◌}
use mathlib.Core.Logic.{◌⊎◌, inl, inr}
use mathlib.Core.Bool.{Bool, true, false}
use mathlib.Core.Option.{Option, none, some}

pub data Result (E A : Type 0) : Type 0 where
  ok : A → Result E A
  err : E → Result E A

infixl 5 ◌>>=◌ ◌>>◌
unfoldable pub ◌>>=◌ : {E A B : Type 0} → Result E A → (A → Result E B) → Result E B
ok a >>= f = f a
err e >>= f = err e

unfoldable pub ◌>>◌ : {E B : Type 0} → Result E (Unit {0}) → Result E B → Result E B
m >> k = m >>= λ _. k

-- `if (test) throw e`.
abbrev pub throw_if : {E : Type 0} → Bool → E → Result E (Unit {0})
throw_if true e = err e
throw_if false e = ok tt

abbrev pub or_throw : {E A : Type 0} → Option A → E → Result E A
or_throw none e = err e
or_throw (some a) e = ok a

-- What a call that answers leaves behind: a call that throws changes nothing.
pub data Keeps {E S A : Type 0} (P : S → Type 0) : Result E (S × A) → Type 0 where
  kept : (x : S × A) → P x.0 → Keeps P (ok x)
  threw : (e : E) → Keeps P (err e)

pub Keeps-imp :
    {E S A : Type 0} (P Q : S → Type 0) (r : Result E (S × A))
    → ((s : S) → P s → Q s)
    → Keeps P r
    → Keeps Q r
Keeps-imp P Q (ok x) go (kept _ h) = kept x (go x.0 h)
Keeps-imp P Q (err e) go (threw _) = threw e

-- Step by step through a handler.
pub Keeps->>= :
    {E S A X : Type 0} {P : S → Type 0} (m : Result E X) (k : X → Result E (S × A))
    → ((x : X) → m ≡ ok x → Keeps P (k x))
    → Keeps P (m >>= k)
unfolding ◌>>=◌
Keeps->>= (ok x) k go = go x refl
Keeps->>= (err e) k go = threw e

pub Keeps-if :
    {E S A : Type 0} {P : S → Type 0} (b : Bool) (x y : Result E (S × A))
    → (b ≡ true → Keeps P x)
    → (b ≡ false → Keeps P y)
    → Keeps P (if b then x else y)
Keeps-if true x y h k = h refl
Keeps-if false x y h k = k refl

-- The same for a step that only checks.
pub Keeps->> :
    {E S A : Type 0} {P : S → Type 0} (m : Result E (Unit {0})) (r : Result E (S × A))
    → (m ≡ ok tt → Keeps P r)
    → Keeps P (m >> r)
unfolding ◌>>◌ ◌>>=◌
Keeps->> (ok tt) r go = go refl
Keeps->> (err e) r go = threw e

pub Keeps-ok :
    {E S A : Type 0} (P : S → Type 0) (r : Result E (S × A)) (x : S × A)
    → Keeps P r
    → r ≡ ok x
    → P x.0
Keeps-ok P (ok y) x (kept _ h) e = subst P (cc) h
Keeps-ok P (err e') x k e = cc

pub or_throw-eq-ok :
    {E A : Type 0} (o : Option A) (e : E) {a : A} → or_throw o e ≡ ok a → o ≡ some a
or_throw-eq-ok none e h = cc
or_throw-eq-ok (some a) e h = cc

pub throw_if-eq-ok :
    {E : Type 0} (b : Bool) (e : E) {u : Unit {0}} → throw_if b e ≡ ok u → b ≡ false
throw_if-eq-ok true e h = cc
throw_if-eq-ok false e h = refl

-- Inversion of a step that answers.
pub >>=-eq-ok :
    {E A B : Type 0} (m : Result E A) (k : A → Result E B) {b : B}
    → (m >>= k) ≡ ok b
    → (a : A) × (m ≡ ok a) × (k a ≡ ok b)
unfolding ◌>>=◌
>>=-eq-ok (ok a) k h = (a, refl, h)
>>=-eq-ok (err e) k h = cc

pub >>-eq-ok :
    {E B : Type 0} (m : Result E (Unit {0})) (r : Result E B) {b : B}
    → (m >> r) ≡ ok b
    → (m ≡ ok tt) × (r ≡ ok b)
unfolding ◌>>◌ ◌>>=◌
>>-eq-ok (ok tt) r h = (refl, h)
>>-eq-ok (err e) r h = cc

pub Result-cases :
    {E A : Type 0} (r : Result E A) → ((a : A) × (r ≡ ok a)) ⊎ ((e : E) × (r ≡ err e))
Result-cases (ok a) = inl (a, refl)
Result-cases (err e) = inr (e, refl)

pub ok-eq-ok : {E A : Type 0} (a b : A) → ◌≡◌ {A = Result E A} (ok a) (ok b) → a ≡ b
ok-eq-ok a b e = cc
