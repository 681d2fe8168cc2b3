-- ===== src/Base/Tables.antt =====
-- Database tables: rows in a list, or a function from a primary key to its row.
use Prim.Native.Nat.{ℕ, ◌+◌}
use mathlib.Core.Path.{◌≡◌}
use mathlib.Core.Logic.{inl, inr, ◌⊎◌}
use mathlib.Core.Bool.{Bool, true, false}
use mathlib.Core.List.{List, [], ◌∷◌, ◌++◌}
use mathlib.Core.Option.{Option, none, some}
use native.Mathlib.Omega.{arith}
use gathergo_backend.Base.Tests.{if◌then◌else◌, ◌==◌, Bool-cases}
use gathergo_backend.Base.Lists.{count_if, find}

abbrev pub All {ℓ κ} : {A : Type ℓ} → (A → Type κ) → List A → Type κ
All P [] = Unit
All P (x ∷ xs) = P x × All P xs

-- A table with a primary key, and the write of one row.
abbrev pub put {ℓ} : {A : Type ℓ} → (ℕ → Option A) → ℕ → A → ℕ → Option A
put rows key row k = if k == key then some row else rows k

abbrev pub bit : Bool → ℕ
bit b = if b then 1 else 0

module _ {ℓ} {A : Type ℓ} where
  -- The write of the one row that a unique key selects: the first that passes the test.
  unfoldable pub update_first : (A → Bool) → (A → A) → List A → List A
  update_first p f [] = []
  update_first p f (x ∷ xs) = if p x then f x ∷ xs else x ∷ update_first p f xs

  pub find-cons :
      (p : A → Bool) (x : A) (xs : List A) (a : A)
      → find p (x ∷ xs) ≡ some a
      → ((p x ≡ true) × (x ≡ a)) ⊎ ((p x ≡ false) × (find p xs ≡ some a))
  unfolding find
  find-cons p x xs a e = ground arith

  pub count_if-update_first :
      (q p : A → Bool) (f : A → A) (xs : List A) (a : A)
      → find p xs ≡ some a
      → count_if q (update_first p f xs) + bit (q a) ≡ count_if q xs + bit (q (f a))
  unfolding count_if find update_first
  count_if-update_first q p f [] a e = ground arith
  count_if-update_first q p f (x ∷ xs) a e = elim (find-cons p x xs a e) [
    | inl (here, same) ↦ rw (here, same) (omega arith)
    | inr (miss, later) ↦ rw miss (omega (arith, count_if-update_first q p f xs a later))
  ]

  pub count_if-append :
      (q : A → Bool) (xs ys : List A) → count_if q (xs ++ ys) ≡ count_if q xs + count_if q ys
  unfolding count_if
  count_if-append q [] ys = omega arith
  count_if-append q (x ∷ xs) ys = omega (arith, count_if-append q xs ys)

  module _ {κ} (P : A → Type κ) where
    pub All-update_first :
        (p : A → Bool) (f : A → A) (xs : List A)
        → ((a : A) → p a ≡ true → P a → P (f a))
        → All P xs
        → All P (update_first p f xs)
    unfolding update_first
    All-update_first p f [] keep h = h
    All-update_first p f (x ∷ xs) keep (h, hs) = elim (Bool-cases (p x)) [
      | inl here ↦ rw here (keep x here h, hs)
      | inr later ↦ rw later (h, All-update_first p f xs keep hs)
    ]

    pub All-append : (xs ys : List A) → All P xs → All P ys → All P (xs ++ ys)
    All-append [] ys h k = k
    All-append (x ∷ xs) ys (h, hs) k = (h, All-append xs ys hs k)

    pub All-find : (p : A → Bool) (xs : List A) (a : A) → All P xs → find p xs ≡ some a → P a
    unfolding find
    All-find p [] a h e = cc
    All-find p (x ∷ xs) a (h, hs) e = elim (find-cons p x xs a e) [
      | inl (here, same) ↦ rw (← same) h
      | inr (miss, later) ↦ All-find p xs a hs later
    ]

  pub find-test : (p : A → Bool) (xs : List A) (a : A) → find p xs ≡ some a → p a ≡ true
  unfolding find
  find-test p [] a e = ground arith
  find-test p (x ∷ xs) a e = ground (arith, find-test p xs a)

  -- A change of the selected row that leaves it selected.
  pub find-update_first :
      (p : A → Bool) (f : A → A) (xs : List A) (a : A)
      → p (f a) ≡ true
      → find p xs ≡ some a
      → find p (update_first p f xs) ≡ some (f a)
  unfolding find update_first
  find-update_first p f [] a h e = cc
  find-update_first p f (x ∷ xs) a h e = elim (find-cons p x xs a e) [
    | inl (here, same) ↦ rw here (rw same (rw h))
    | inr (miss, later) ↦ rw miss (rw miss (find-update_first p f xs a h later))
  ]

  pub find-append_last :
      (p : A → Bool) (xs : List A) (a : A)
      → find p xs ≡ none
      → p a ≡ true
      → find p (xs ++ a ∷ []) ≡ some a
  unfolding find
  find-append_last p [] a e h = rw h
  find-append_last p (x ∷ xs) a e h = elim (Bool-cases (p x)) [
    | inl here ↦ ground (arith, here)
    | inr miss ↦ rw miss (find-append_last p xs a (ground (arith, miss)) h)
  ]

  pub All-find-none : (p : A → Bool) (xs : List A) → find p xs ≡ none → All (λ a. p a ≡ false) xs
  unfolding find
  All-find-none p [] e = tt
  All-find-none p (x ∷ xs) e = elim (Bool-cases (p x)) [
    | inl here ↦ ground (arith, here)
    | inr miss ↦ (miss, All-find-none p xs (ground (arith, miss)))
  ]
