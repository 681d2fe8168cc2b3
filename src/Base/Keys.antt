-- ===== src/Base/Keys.antt =====
-- Rows with a unique key, and what holds of all rows of a table.
use Prim.Native.Nat.{ℕ}
use mathlib.Core.Path.{◌≡◌, refl, sym, subst}
use mathlib.Core.Logic.{inl, inr}
use mathlib.Core.Bool.{Bool, true, false, ◌&&◌, ◌||◌}
use mathlib.Core.List.{List, [], ◌∷◌, ◌++◌, map}
use mathlib.Core.Option.{some}
use native.Mathlib.Omega.{arith}
use gathergo_backend.Base.Tests.{◌==◌, Bool-cases, ==_iff}
use gathergo_backend.Base.Lists.{find, any}
use gathergo_backend.Base.Tables.{All, update_first, find-cons}

pub or_false : (b : Bool) → (b || false) ≡ b
or_false true = refl
or_false false = refl

pub or_true : (b : Bool) → (b || true) ≡ true
or_true true = refl
or_true false = refl

pub and_false : (b : Bool) → (b && false) ≡ false
and_false true = refl
and_false false = refl

module _ {A : Type 0} where
  pub All-imp : (P Q : A → Type 0) → ((a : A) → P a → Q a) → (xs : List A) → All P xs → All Q xs
  All-imp P Q go [] h = tt
  All-imp P Q go (x ∷ xs) (h, hs) = (go x h, All-imp P Q go xs hs)

  pub All-both : (P Q : A → Type 0) (xs : List A) → All P xs → All Q xs → All (λ a. P a × Q a) xs
  All-both P Q [] h k = tt
  All-both P Q (x ∷ xs) (h, hs) (k, ks) = ((h, k), All-both P Q xs hs ks)

  module _ {B : Type 0} (R : A → B → Type 0) where
    All-heads :
        (x : A) (xs : List A) (ys : List B)
        → All (λ y. R x y × All (λ z. R z y) xs) ys
        → All (R x) ys × All (λ y. All (λ z. R z y) xs) ys
    All-heads x xs [] h = (tt, tt)
    All-heads x xs (y ∷ ys) ((h, k), hs) =
        let (here, later) = All-heads x xs ys hs in ((h, here), (k, later))

    pub All-swap :
        (xs : List A) (ys : List B) → All (λ y. All (λ x. R x y) xs) ys → All (λ x. All (R x) ys) xs
    All-swap [] ys h = tt
    All-swap (x ∷ xs) ys h = let (here, later) = All-heads x xs ys h in (here, All-swap xs ys later)

  pub any-false : (q : A → Bool) (xs : List A) → All (λ x. q x ≡ false) xs → any q xs ≡ false
  unfolding any
  any-false q [] h = refl
  any-false q (x ∷ xs) (h, hs) = rw h (any-false q xs hs)

  pub All-any-false : (q : A → Bool) (xs : List A) → any q xs ≡ false → All (λ x. q x ≡ false) xs
  unfolding any
  All-any-false q [] e = tt
  All-any-false q (x ∷ xs) e = elim (Bool-cases (q x)) [
    | inl hit ↦ ground (arith, hit)
    | inr miss ↦ (miss, All-any-false q xs (ground (arith, miss)))
  ]

  pub any-append : (q : A → Bool) (xs ys : List A) → any q (xs ++ ys) ≡ (any q xs || any q ys)
  unfolding any
  any-append q [] ys = refl
  any-append q (x ∷ xs) ys = elim (Bool-cases (q x)) [
    | inl hit ↦ rw hit refl
    | inr miss ↦ rw miss (any-append q xs ys)
  ]

  pub any-same : (p q : A → Bool) (xs : List A) → All (λ x. p x ≡ q x) xs → any p xs ≡ any q xs
  unfolding any
  any-same p q [] h = refl
  any-same p q (x ∷ xs) (h, hs) = rw (h, any-same p q xs hs) refl

  -- A write of the row that is found.
  pub All-update_found :
      (P : A → Type 0) (p : A → Bool) (f : A → A) (xs : List A) (a : A)
      → find p xs ≡ some a
      → P (f a)
      → All P xs
      → All P (update_first p f xs)
  unfolding find update_first
  All-update_found P p f [] a e new h = tt
  All-update_found P p f (x ∷ xs) a e new (h, hs) = elim (find-cons p x xs a e) [
    | inl (here, same) ↦ rw here (subst (λ b. P (f b)) (sym same) new, hs)
    | inr (miss, later) ↦ rw miss (h, All-update_found P p f xs a later new hs)
  ]

  -- What a write of the row that is found leaves alone.
  pub map-update_first :
      {B : Type 0} (view : A → B) (p : A → Bool) (f : A → A) (xs : List A) (a : A)
      → find p xs ≡ some a
      → view (f a) ≡ view a
      → map view (update_first p f xs) ≡ map view xs
  unfolding find update_first
  map-update_first view p f [] a e same = refl
  map-update_first view p f (x ∷ xs) a e same = elim (find-cons p x xs a e) [
    | inl (here, eq) ↦ rw here (rw eq (rw same refl))
    | inr (miss, later) ↦ rw miss (rw (map-update_first view p f xs a later same) refl)
  ]

  pub map-same :
      {B : Type 0} (view : A → B) (f : A → A) (xs : List A)
      → ((x : A) → view (f x) ≡ view x)
      → map view (map f xs) ≡ map view xs
  map-same view f [] same = refl
  map-same view f (x ∷ xs) same = rw (same x, map-same view f xs same) refl

  module _ (key : A → ℕ) where
    -- No two rows have one key.
    abbrev pub Distinct : List A → Type 0
    Distinct [] = Unit
    Distinct (x ∷ xs) = All (λ y. (key x == key y) ≡ false) xs × Distinct xs

    pub ==-sym : (m n : ℕ) → (m == n) ≡ false → (n == m) ≡ false
    ==-sym m n e = ground arith

    pub Distinct-append :
        (xs ys : List A)
        → Distinct xs
        → Distinct ys
        → All (λ x. All (λ y. (key x == key y) ≡ false) ys) xs
        → Distinct (xs ++ ys)
    Distinct-append [] ys dx dy h = dy
    Distinct-append (x ∷ xs) ys (d, dx) dy (h, hs) =
        (All-both_lists xs ys d h, Distinct-append xs ys dx dy hs)
      where
        All-both_lists :
            (us vs : List A)
            → All (λ y. (key x == key y) ≡ false) us
            → All (λ y. (key x == key y) ≡ false) vs
            → All (λ y. (key x == key y) ≡ false) (us ++ vs)
        All-both_lists [] vs h k = k
        All-both_lists (u ∷ us) vs (h, hs) k = (h, All-both_lists us vs hs k)

    module _ (f : A → A) (keeps : (x : A) → key (f x) ≡ key x) where
      All-map_key :
          (k : ℕ) (xs : List A)
          → All (λ y. (k == key y) ≡ false) xs
          → All (λ y. (k == key y) ≡ false) (map f xs)
      All-map_key k [] h = tt
      All-map_key k (x ∷ xs) (h, hs) = (rw (keeps x) h, All-map_key k xs hs)

      pub Distinct-map : (xs : List A) → Distinct xs → Distinct (map f xs)
      Distinct-map [] h = tt
      Distinct-map (x ∷ xs) (h, hs) = (rw (keeps x) (All-map_key (key x) xs h), Distinct-map xs hs)

      All-update_key :
          (p : A → Bool) (k : ℕ) (xs : List A)
          → All (λ y. (k == key y) ≡ false) xs
          → All (λ y. (k == key y) ≡ false) (update_first p f xs)
      unfolding update_first
      All-update_key p k [] h = tt
      All-update_key p k (x ∷ xs) (h, hs) = elim (Bool-cases (p x)) [
        | inl here ↦ rw here (rw (keeps x) h, hs)
        | inr miss ↦ rw miss (h, All-update_key p k xs hs)
      ]

      pub Distinct-update_first :
          (p : A → Bool) (xs : List A) → Distinct xs → Distinct (update_first p f xs)
      unfolding update_first
      Distinct-update_first p [] h = tt
      Distinct-update_first p (x ∷ xs) (h, hs) = elim (Bool-cases (p x)) [
        | inl here ↦ rw here (rw (keeps x) h, hs)
        | inr miss ↦ rw miss (All-update_key p (key x) xs h, Distinct-update_first p xs hs)
      ]

      -- The row of another key is as before.
      pub find-update_other :
          (k j : ℕ) (xs : List A)
          → (j == k) ≡ false
          → find (λ x. key x == k) (update_first (λ x. key x == j) f xs) ≡ find (λ x. key x == k) xs
      unfolding find update_first
      find-update_other k j [] e = refl
      find-update_other k j (x ∷ xs) e = elim (Bool-cases (key x == j)) [
        | inl here ↦
            let same = (==_iff (key x) j).0 here in rw here (rw (keeps x) (rw same (rw e refl)))
        | inr miss ↦ rw miss (rw (find-update_other k j xs e) refl)
      ]

    -- By its key each row finds itself.
    find-own_cons :
        (x : A) (xs ys : List A)
        → All (λ y. (key x == key y) ≡ false) ys
        → All (λ y. find (λ z. key z == key y) xs ≡ some y) ys
        → All (λ y. find (λ z. key z == key y) (x ∷ xs) ≡ some y) ys
    unfolding find
    find-own_cons x xs [] h k = tt
    find-own_cons x xs (y ∷ ys) (h, hs) (k, ks) = (rw h k, find-own_cons x xs ys hs ks)

    pub All-find_own :
        (xs : List A) → Distinct xs → All (λ x. find (λ z. key z == key x) xs ≡ some x) xs
    unfolding find
    All-find_own [] h = tt
    All-find_own (x ∷ xs) (h, hs) =
        (rw ((==_iff (key x) (key x)).1 refl) refl, find-own_cons x xs xs h (All-find_own xs hs))
