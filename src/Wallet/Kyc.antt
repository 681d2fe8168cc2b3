-- ===== src/Wallet/Kyc.antt =====
-- Lines 5246 to 5259, 5649 to 5876 (but 5826 to 5846) and 6181 to 6199 of wallet.service.ts: the status of a verification
-- from what the provider of identities answers. The texts of reasons are left out.
pub mod Approval
use Prim.Native.String.{String}
use text.Mathlib.Text.{◌==◌ as str_eq}
use gathergo_backend.Base.{
  Bool, true, false, not, ◌&&◌, ◌||◌, Option, none, some, List, [], ◌∷◌, if◌then◌else◌, any,
}
use gathergo_backend.Wallet.{ProfileStatus}
use gathergo_backend.Wallet.Standing.{KycTier}

pub data KycStatus : Type 0 where
  not_started in_progress pending_provider submitted verified rejected expired : KycStatus

pub data AccountOwnership : Type 0 where
  unknown personal business : AccountOwnership

pub data NameMatchStatus : Type 0 where
  not_checked matched review_required mismatch : NameMatchStatus

pub data ProviderState : Type 0 where
  state_verified state_pending state_failed : ProviderState

-- The texts that count as pending.
abbrev pending_texts : List String
pending_texts =
    "pending" ∷ "processing" ∷ "in_progress" ∷ "in progress" ∷ "queued" ∷ "submitted" ∷ "accepted"
    ∷ "awaiting_provider" ∷ "retrying" ∷ []

-- Of the lower-case text of the status, empty where there is none.
unfoldable pub resolve_dikript_verification_state : String → ProviderState
resolve_dikript_verification_state normalized =
    if str_eq normalized "verified" || str_eq normalized "complete"
    then state_verified
    else if any (λ s. str_eq s normalized) pending_texts
    then state_pending
    else if str_eq normalized ""
    then state_pending
    else state_failed

-- The status of a check from the state of the answer and whether the answer refutes what was given.
abbrev check_status : ProviderState → Bool → KycStatus
check_status state_pending refuted = pending_provider
check_status state_failed refuted = rejected
check_status state_verified refuted = if refuted then rejected else verified

abbrev is_blank : Option String → Bool
is_blank none = true
is_blank (some s) = str_eq s ""

-- An answer of the provider to a check of an identity: the lower-case status, the upper-case result of
-- the match, and the names of the record.
pub record IdentityAnswer : Type 0 where
  pub status : String
  pub match_status : String
  pub firstname : Option String
  pub lastname : Option String

unfoldable pub resolve_dikript_identity_status : IdentityAnswer → KycStatus
unfolding resolve_dikript_verification_state
resolve_dikript_identity_status answer =
    check_status (resolve_dikript_verification_state answer.status) (
      str_eq answer.match_status "NO_MATCH"
      || is_blank answer.firstname
      || is_blank answer.lastname)

-- Of a business, with the lower-case result of the check of its registration.
pub record BusinessAnswer : Type 0 where
  pub status : String
  pub cac_check : String
  pub company_name : Option String

unfoldable pub resolve_dikript_business_status : BusinessAnswer → KycStatus
unfolding resolve_dikript_verification_state
resolve_dikript_business_status answer =
    check_status (resolve_dikript_verification_state answer.status)
      (not (str_eq answer.cac_check "verified") || is_blank answer.company_name)

-- Of a face.
pub record FaceAnswer : Type 0 where
  pub status : String
  pub is_match : Option Bool

abbrev is_true : Option Bool → Bool
is_true none = false
is_true (some b) = b

unfoldable pub resolve_dikript_face_verification_status : FaceAnswer → KycStatus
unfolding resolve_dikript_verification_state
resolve_dikript_face_verification_status answer =
    check_status (resolve_dikript_verification_state answer.status) (not (is_true answer.is_match))

-- The statuses of the checks of a creator, none where there was none.
pub record Checks : Type 0 where
  pub ownership : AccountOwnership
  pub business_status : Option KycStatus
  pub identity_status : Option KycStatus
  pub liveness_status : Option KycStatus

abbrev pub is_business : AccountOwnership → Bool
is_business business = true
is_business _ = false

abbrev pub relevant_statuses : Checks → List (Option KycStatus)
relevant_statuses checks =
    if is_business checks.ownership
    then checks.business_status ∷ checks.identity_status ∷ checks.liveness_status ∷ []
    else checks.identity_status ∷ checks.liveness_status ∷ []

abbrev pub is_rejected : Option KycStatus → Bool
is_rejected (some rejected) = true
is_rejected _ = false

abbrev pub is_pending : Option KycStatus → Bool
is_pending (some pending_provider) = true
is_pending _ = false

abbrev pub is_submitted : Option KycStatus → Bool
is_submitted (some submitted) = true
is_submitted _ = false

abbrev pub is_verified : Option KycStatus → Bool
is_verified (some verified) = true
is_verified _ = false

unfoldable pub derive_verification_workflow_status : Checks → KycStatus
derive_verification_workflow_status checks =
    let statuses = relevant_statuses checks in
    if any is_rejected statuses
    then rejected
    else if any is_pending statuses
    then pending_provider
    else if any is_submitted statuses
    then submitted
    else in_progress

unfoldable pub derive_payout_state : KycStatus → KycStatus × ProfileStatus
derive_payout_state verified = (verified, ProfileStatus.active)
derive_payout_state rejected = (rejected, ProfileStatus.review_required)
derive_payout_state pending_provider = (pending_provider, ProfileStatus.pending_kyc)
derive_payout_state _ = (in_progress, ProfileStatus.pending_kyc)

pub data TargetTier : Type 0 where
  to_basic to_full : TargetTier

abbrev pub required_statuses : TargetTier → Checks → List (Option KycStatus)
required_statuses to_full checks = relevant_statuses checks
required_statuses to_basic checks =
    if is_business checks.ownership
    then checks.business_status ∷ []
    else checks.identity_status ∷ []

abbrev pub all_verified : List (Option KycStatus) → Bool
all_verified [] = true
all_verified (s ∷ rest) = is_verified s && all_verified rest

abbrev is_matched : Option NameMatchStatus → Bool
is_matched (some matched) = true
is_matched _ = false

unfoldable pub can_auto_approve_kyc_tier :
    TargetTier → Checks → Option NameMatchStatus → Option KycStatus → Bool
can_auto_approve_kyc_tier target checks name_match dedup =
    all_verified (required_statuses target checks)
    && is_matched name_match
    && not (is_submitted dedup)
    && not (is_rejected dedup)

-- A profile's status, none where there is no profile.
unfoldable pub derive_kyc_status_from_payout_profile : Option ProfileStatus → KycStatus
derive_kyc_status_from_payout_profile (some ProfileStatus.active) = verified
derive_kyc_status_from_payout_profile (some ProfileStatus.rejected) = rejected
derive_kyc_status_from_payout_profile (some ProfileStatus.pending_kyc) = in_progress
derive_kyc_status_from_payout_profile (some ProfileStatus.review_required) = in_progress
derive_kyc_status_from_payout_profile _ = not_started

pub data KycStep : Type 0 where
  step_completed step_failed step_review step_pending : KycStep

unfoldable pub map_kyc_status_to_step : KycStatus → KycStep
map_kyc_status_to_step verified = step_completed
map_kyc_status_to_step rejected = step_failed
map_kyc_status_to_step submitted = step_review
map_kyc_status_to_step _ = step_pending
