-- ===== src/Wallet/Names/Symmetry.antt =====
-- The match does not depend on which of the two names is which.
use Prim.Native.String.{String}
use text.Mathlib.Text.{◌==◌ as str_eq}
use text.Mathlib.TextEquality.{eq_iff}
use gathergo_backend.Base.{
  ◌+◌, ◌≡◌, ◌∙◌, refl, sym, subst, inl, inr, Bool, true, false, ◌&&◌, List, [], ◌∷◌, ◌++◌,
  Bool-cases, any, any-append, count_if, bit, length, arith,
}
use gathergo_backend.Wallet.Names.{
  includes, shared_count, set_size, first, last, match_tokens, is_first_last_match,
  is_transposed_match,
}

str_eq-sym : (s t : String) → str_eq s t ≡ str_eq t s
str_eq-sym s t = elim (Bool-cases (str_eq s t)) [
  | inl hit ↦ let same = (eq_iff s t).0 hit in hit ∙ sym ((eq_iff t s).1 (sym same))
  | inr miss ↦ elim (Bool-cases (str_eq t s)) [
    | inl hit ↦
        let same = (eq_iff t s).0 hit in let absurd = sym miss ∙ (eq_iff s t).1 (sym same) in cc
    | inr none' ↦ miss ∙ sym none'
  ]
]

-- No token stands twice.
abbrev pub HasNoRepeats : List String → Type 0
HasNoRepeats [] = Unit
HasNoRepeats (t ∷ ts) = (includes ts t ≡ false) × HasNoRepeats ts

-- One more token of the other list is shared once, where this list has it.
shared-cons :
    (x : String) (ys xs : List String)
    → HasNoRepeats xs
    → includes ys x ≡ false
    → shared_count xs (x ∷ ys) ≡ bit (includes xs x) + shared_count xs ys
unfolding count_if any
shared-cons x ys [] h e = omega arith
shared-cons x ys (z ∷ zs) (fresh, h) e = elim (Bool-cases (str_eq x z)) [
  | inl hit ↦
      let same = (eq_iff x z).0 hit in
      let other = (eq_iff z x).1 (sym same) in
      let no_z : includes ys z ≡ false = subst (λ t. includes ys t ≡ false) same e in
      let no_x : includes zs x ≡ false = subst (λ t. includes zs t ≡ false) (sym same) fresh in
      rw (hit, other, no_z) (omega (arith, rw no_x at (shared-cons x ys zs h e)))
  | inr miss ↦
      let other = sym (str_eq-sym x z) ∙ miss in
      rw (miss, other) (omega (arith, shared-cons x ys zs h e))
]

shared-nil : (xs : List String) → shared_count xs [] ≡ 0
unfolding count_if any
shared-nil [] = refl
shared-nil (x ∷ xs) = omega (arith, shared-nil xs)

shared-sym :
    (xs ys : List String)
    → HasNoRepeats xs
    → HasNoRepeats ys
    → shared_count xs ys ≡ shared_count ys xs
unfolding count_if
shared-sym [] ys h k = sym (shared-nil ys)
shared-sym (x ∷ xs) ys (fresh, h) k =
    sym (shared-cons x xs ys k fresh ∙ rw (shared-sym xs ys h k) refl)

set-size : (ys : List String) → HasNoRepeats ys → set_size ys ≡ length ys
unfolding set_size
set-size [] h = refl
set-size (y ∷ ys) (fresh, h) = rw fresh (omega (arith, set-size ys h))

-- The tokens of both, those that are shared counted once more, are the tokens of each.
set_size-append :
    (xs ys : List String)
    → HasNoRepeats xs
    → HasNoRepeats ys
    → set_size (xs ++ ys) + shared_count xs ys ≡ length xs + length ys
unfolding set_size count_if
set_size-append [] ys h k = omega (arith, set-size ys k)
set_size-append (x ∷ xs) ys (fresh, h) k =
    let both : includes (xs ++ ys) x ≡ includes ys x =
      any-append (λ t. str_eq t x) xs ys ∙ rw fresh refl in
    elim (Bool-cases (includes ys x)) [
      | inl shared ↦ rw (both, shared) (omega (arith, set_size-append xs ys h k))
      | inr own ↦ rw (both, own) (omega (arith, set_size-append xs ys h k))
    ]

and_comm : (a b : Bool) → (a && b) ≡ (b && a)
and_comm true true = refl
and_comm true false = refl
and_comm false true = refl
and_comm false false = refl

first_last-sym : (xs ys : List String) → is_first_last_match xs ys ≡ is_first_last_match ys xs
first_last-sym xs ys = rw (str_eq-sym (first xs) (first ys), str_eq-sym (last xs) (last ys)) refl

transposed-sym : (xs ys : List String) → is_transposed_match xs ys ≡ is_transposed_match ys xs
transposed-sym xs ys =
    rw (str_eq-sym (first xs) (last ys), str_eq-sym (last xs) (first ys))
      (and_comm (str_eq (last ys) (first xs)) (str_eq (first ys) (last xs)))

-- For two names in which no token repeats, the score is the share of the common tokens among all of
-- them, and the verdict does not depend on which of the two is the account's and which the verified
-- name.
pub match_tokens-sym :
    (xs ys : List String)
    → HasNoRepeats xs
    → HasNoRepeats ys
    → (set_size (xs ++ ys) + shared_count xs ys ≡ length xs + length ys)
      × (match_tokens xs ys ≡ match_tokens ys xs)
unfolding match_tokens
match_tokens-sym xs ys h k =
    let shared = shared-sym xs ys h k in
    let all = set_size-append xs ys h k in
    let all' = set_size-append ys xs k h in
    let same : set_size (xs ++ ys) ≡ set_size (ys ++ xs) = omega (arith, shared, all, all') in
    (all, rw (first_last-sym xs ys, transposed-sym xs ys, shared, same) refl)
