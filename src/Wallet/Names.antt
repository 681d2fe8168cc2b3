-- ===== src/Wallet/Names.antt =====
-- Lines 5955 to 6021 of wallet.service.ts: the match of the name of a bank account and a verified name,
-- over their tokens. `normalizeNameTokens` is an argument; the texts of reasons are left out.
pub mod Symmetry
use Prim.Native.String.{String}
use text.Mathlib.Text.{◌==◌ as str_eq}
use gathergo_backend.Base.{
  ℕ, ◌+◌, ◌*◌, Bool, true, false, not, ◌&&◌, ◌||◌, Option, none, some, List, [], ◌∷◌, ◌++◌, leb,
  if◌then◌else◌, any, count_if, ◌==◌,
}
use gathergo_backend.Wallet.Kyc.{
  NameMatchStatus, not_checked, matched, review_required, mismatch, AccountOwnership, is_business,
}

abbrev pub includes : List String → String → Bool
includes tokens token = any (λ t. str_eq t token) tokens

-- `sharedTokens.length`.
abbrev pub shared_count : List String → List String → ℕ
shared_count tokens others = count_if (includes others) tokens

-- `new Set(tokens).size`.
unfoldable pub set_size : List String → ℕ
set_size [] = 0
set_size (t ∷ ts) = (if includes ts t then 0 else 1) + set_size ts

unfoldable pub first : List String → String
first [] = ""
first (t ∷ ts) = t

unfoldable pub last : List String → String
last [] = ""
last (t ∷ []) = t
last (t ∷ u ∷ us) = last (u ∷ us)

abbrev pub is_first_last_match : List String → List String → Bool
is_first_last_match xs ys = str_eq (first xs) (first ys) && str_eq (last xs) (last ys)

abbrev pub is_transposed_match : List String → List String → Bool
is_transposed_match xs ys = str_eq (first xs) (last ys) && str_eq (last xs) (first ys)

-- The score is the number of shared tokens over that of all of them: four fifths and nine twentieths
-- are compared by the products.
abbrev pub score_at_least_0_8 : List String → List String → Bool
score_at_least_0_8 xs ys = leb (4 * set_size (xs ++ ys)) (5 * shared_count xs ys)

abbrev pub score_at_least_0_45 : List String → List String → Bool
score_at_least_0_45 xs ys = leb (9 * set_size (xs ++ ys)) (20 * shared_count xs ys)

-- Two lists of tokens that are not empty.
unfoldable pub match_tokens : List String → List String → NameMatchStatus
match_tokens xs ys =
    if is_first_last_match xs ys || is_transposed_match xs ys || score_at_least_0_8 xs ys
    then matched
    else if score_at_least_0_45 xs ys
    then review_required
    else mismatch

abbrev pub compare_tokens : List String → List String → NameMatchStatus
compare_tokens [] ys = not_checked
compare_tokens (x ∷ xs) [] = not_checked
compare_tokens (x ∷ xs) (y ∷ ys) = match_tokens (x ∷ xs) (y ∷ ys)

abbrev text_or_blank : Option String → String
text_or_blank none = ""
text_or_blank (some s) = s

unfoldable pub evaluate_settlement_name_match :
    (normalize_name_tokens : String → List String)
    → AccountOwnership
    → (account_name verified_full_name verified_business_name : Option String) → NameMatchStatus
unfolding match_tokens
evaluate_settlement_name_match normalize ownership account full company =
    let source = text_or_blank (if is_business ownership then company else full) in
    let name = text_or_blank account in
    if str_eq name "" || str_eq source ""
    then not_checked
    else compare_tokens (normalize name) (normalize source)
