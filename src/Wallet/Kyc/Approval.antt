-- ===== src/Wallet/Kyc/Approval.antt =====
-- When a tier is approved without an operator.
use gathergo_backend.Base.{
  ◌≡◌, refl, Bool, true, false, Option, List, [], ◌∷◌, arith, any, Bool-cases, inl, inr,
}
use gathergo_backend.Wallet.Kyc.{
  KycStatus, in_progress, Checks, NameMatchStatus, is_rejected, is_pending, is_submitted,
  is_verified, all_verified, relevant_statuses, to_basic, to_full,
  derive_verification_workflow_status, can_auto_approve_kyc_tier,
}

verified-none :
    (test : Option KycStatus → Bool) (statuses : List (Option KycStatus))
    → ((s : Option KycStatus) → is_verified s ≡ true → test s ≡ false)
    → all_verified statuses ≡ true
    → any test statuses ≡ false
unfolding any
verified-none test [] excluded e = refl
verified-none test (s ∷ rest) excluded e = elim (Bool-cases (is_verified s)) [
  | inl good ↦ rw (excluded s good) (verified-none test rest excluded (rw good at e))
  | inr bad ↦ let absurd = rw bad at e in cc
]

full-verified :
    (checks : Checks) (name_match : Option NameMatchStatus) (dedup : Option KycStatus)
    → can_auto_approve_kyc_tier to_full checks name_match dedup ≡ true
    → all_verified (relevant_statuses checks) ≡ true
unfolding can_auto_approve_kyc_tier
full-verified checks name_match dedup e =
    elim (Bool-cases (all_verified (relevant_statuses checks))) [
      | inl good ↦ good
      | inr bad ↦ let absurd = rw bad at e in cc
    ]

-- What is approved for the full tier is approved for the basic tier as well, and then the verification
-- is neither rejected nor waiting for the provider or an operator.
pub full-approval :
    (checks : Checks) (name_match : Option NameMatchStatus) (dedup : Option KycStatus)
    → can_auto_approve_kyc_tier to_full checks name_match dedup ≡ true
    → (can_auto_approve_kyc_tier to_basic checks name_match dedup ≡ true)
      × (derive_verification_workflow_status checks ≡ in_progress)
unfolding derive_verification_workflow_status can_auto_approve_kyc_tier
full-approval checks name_match dedup e =
    let good = full-verified checks name_match dedup e in
    let statuses = relevant_statuses checks in
    (
      ground (arith, e, good),
      rw
          (
            verified-none is_rejected statuses (λ s h. ground (arith, h)) good,
            verified-none is_pending statuses (λ s h. ground (arith, h)) good,
            verified-none is_submitted statuses (λ s h. ground (arith, h)) good,
          )
          refl,
    )
