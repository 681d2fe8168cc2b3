-- ===== src/Checkout/Stock/Sums.antt =====
-- How the reserved quantity changes with the transactions and with time.
use gathergo_backend.Base.{
  ℕ, ◌+◌, ◌≤◌, ◌≡◌, refl, inl, inr, Bool, Option, none, some, List, [], ◌∷◌, ◌++◌, arith, ==_iff,
  Bool-cases, find, find-cons, subst, update_first, map,
}
use gathergo_backend.Checkout.{Transaction, has_id}
use gathergo_backend.Checkout.Inventory.{held_quantity, reserved_ticket_quantity}
use gathergo_backend.Checkout.Stock.{IsFresh, HasDistinctIds}

module _ (k now : ℕ) where
  abbrev pub reserved : List Transaction → Option ℕ → ℕ
  reserved ts exclude = reserved_ticket_quantity ts k now exclude

  pub reserved_fresh :
      (id : ℕ) (ts : List Transaction) → IsFresh id ts → reserved ts (some id) ≡ reserved ts none
  unfolding reserved_ticket_quantity
  reserved_fresh id [] h = refl
  reserved_fresh id (t ∷ ts) (h, hs) = ground (arith, reserved_fresh id ts hs)

  pub reserved-exclude-le :
      (exclude : Option ℕ) (ts : List Transaction) → reserved ts exclude ≤ reserved ts none
  unfolding reserved_ticket_quantity
  reserved-exclude-le exclude [] = omega arith
  reserved-exclude-le exclude (t ∷ ts) = ground (arith, reserved-exclude-le exclude ts)

  pub reserved-append :
      (exclude : Option ℕ) (ts us : List Transaction)
      → reserved (ts ++ us) exclude ≡ reserved ts exclude + reserved us exclude
  unfolding reserved_ticket_quantity
  reserved-append exclude [] us = omega arith
  reserved-append exclude (t ∷ ts) us = omega (arith, reserved-append exclude ts us)

  pub reserved-update_first :
      (id : ℕ) (f : Transaction → Transaction) (ts : List Transaction) (t : Transaction)
      → HasDistinctIds ts
      → find (has_id id) ts ≡ some t
      → reserved (update_first (has_id id) f ts) none
        ≡ reserved ts (some id) + held_quantity k now (f t).reservation
  unfolding reserved_ticket_quantity find update_first
  reserved-update_first id f [] t d e = cc
  reserved-update_first id f (x ∷ ts) t (fresh, d) e = elim (find-cons (has_id id) x ts t e) [
    | inl (hit, same) ↦
        let own = subst (λ n. IsFresh n ts) ((==_iff x.id id).0 hit) fresh in
        rw (hit, same) (omega (arith, reserved_fresh id ts own))
    | inr (miss, later) ↦ rw miss (omega (arith, reserved-update_first id f ts t d later))
  ]

  pub reserved_excluded-update_first :
      (id : ℕ) (f : Transaction → Transaction) (ts : List Transaction)
      → ((t : Transaction) → (f t).id ≡ t.id)
      → reserved (update_first (has_id id) f ts) (some id) ≡ reserved ts (some id)
  unfolding reserved_ticket_quantity update_first
  reserved_excluded-update_first id f [] same = refl
  reserved_excluded-update_first id f (t ∷ ts) same =
      ground (arith, same t, reserved_excluded-update_first id f ts same)

  -- A row-by-row change under which no row holds more.
  pub reserved-map-le :
      (f : Transaction → Transaction) (ts : List Transaction)
      → ((t : Transaction)
          → held_quantity k now (f t).reservation ≤ held_quantity k now t.reservation)
      → reserved (map f ts) none ≤ reserved ts none
  unfolding reserved_ticket_quantity
  reserved-map-le f [] h = omega arith
  reserved-map-le f (t ∷ ts) h = omega (arith, h t, reserved-map-le f ts h)

  pub reserved-update_first-le :
      (p : Transaction → Bool) (f : Transaction → Transaction) (ts : List Transaction)
      → ((t : Transaction)
          → held_quantity k now (f t).reservation ≤ held_quantity k now t.reservation)
      → reserved (update_first p f ts) none ≤ reserved ts none
  unfolding reserved_ticket_quantity update_first
  reserved-update_first-le p f [] h = omega arith
  reserved-update_first-le p f (t ∷ ts) h = ground (arith, h t, reserved-update_first-le p f ts h)

  pub reserved-later-le :
      (later : ℕ) (ts : List Transaction)
      → now ≤ later
      → reserved_ticket_quantity ts k later none ≤ reserved ts none
  unfolding reserved_ticket_quantity
  reserved-later-le later [] h = omega arith
  reserved-later-le later (t ∷ ts) h = ground (arith, reserved-later-le later ts h)

-- The ids of the rows under changes that keep them.
module _ (f : Transaction → Transaction) (same : (t : Transaction) → (f t).id ≡ t.id) where
  IsFresh-update_first :
      (id : ℕ) (p : Transaction → Bool) (ts : List Transaction)
      → IsFresh id ts
      → IsFresh id (update_first p f ts)
  unfolding update_first
  IsFresh-update_first id p [] h = tt
  IsFresh-update_first id p (t ∷ ts) (h, hs) =
      ground (arith, same t, IsFresh-update_first id p ts hs)

  pub distinct-update_first :
      (p : Transaction → Bool) (ts : List Transaction)
      → HasDistinctIds ts
      → HasDistinctIds (update_first p f ts)
  unfolding update_first
  distinct-update_first p [] h = tt
  distinct-update_first p (t ∷ ts) (h, hs) = elim (Bool-cases (p t)) [
    | inl here ↦ rw (here, same t) (h, hs)
    | inr miss ↦ rw miss (IsFresh-update_first t.id p ts h, distinct-update_first p ts hs)
  ]

  IsFresh-map : (id : ℕ) (ts : List Transaction) → IsFresh id ts → IsFresh id (map f ts)
  IsFresh-map id [] h = tt
  IsFresh-map id (t ∷ ts) (h, hs) = (rw (same t) h, IsFresh-map id ts hs)

  pub distinct-map : (ts : List Transaction) → HasDistinctIds ts → HasDistinctIds (map f ts)
  distinct-map [] h = tt
  distinct-map (t ∷ ts) (h, hs) = (rw (same t) (IsFresh-map t.id ts h), distinct-map ts hs)

IsFresh-append :
    (id : ℕ) (ts us : List Transaction) → IsFresh id ts → IsFresh id us → IsFresh id (ts ++ us)
IsFresh-append id [] us h k = k
IsFresh-append id (t ∷ ts) us (h, hs) k = (h, IsFresh-append id ts us hs k)

pub distinct-append_one :
    (ts : List Transaction) (t : Transaction)
    → HasDistinctIds ts
    → IsFresh t.id ts
    → HasDistinctIds (ts ++ t ∷ [])
distinct-append_one [] t h fresh = (tt, tt)
distinct-append_one (u ∷ ts) t (h, hs) (new, fresh) =
    (IsFresh-append u.id ts (t ∷ []) h (ground arith, tt), distinct-append_one ts t hs fresh)
