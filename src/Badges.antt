-- ===== src/Badges.antt =====
-- Achievements: badge.catalog.ts, badge-progress.ts and badge.service.ts of modules/badge. What a user has
-- done, which `activity` queries, is an argument; the texts and the percentage, a quotient in floating
-- point, are left out.
pub mod Progress
pub mod Service
pub mod Awards
pub mod Reconciled
mod Tests
use gathergo_backend.Base.{ℕ, Bool, true, false, Option, List, [], ◌∷◌}

pub data BadgeCode : Type 0 where
  first_gather familiar_face helping_hand time_giver gather_maker : BadgeCode
  impact_storyteller first_gift community_backer steady_giver : BadgeCode

pub data BadgeCategory : Type 0 where
  attending volunteering hosting giving : BadgeCategory

pub data BadgeMetric : Type 0 where
  attendance volunteer_events volunteer_minutes hosted_events : BadgeMetric
  impact_reports donations donated_events donation_months : BadgeMetric

pub record BadgeDefinition : Type 0 where
  pub code : BadgeCode
  pub category : BadgeCategory
  pub metric : BadgeMetric
  pub target : ℕ

abbrev badge : BadgeCode → BadgeCategory → BadgeMetric → ℕ → BadgeDefinition
badge code category metric target = record {
  code = code;
  category = category;
  metric = metric;
  target = target;
}

abbrev pub badge_catalog : List BadgeDefinition
badge_catalog =
    badge first_gather attending attendance 1
    ∷ badge familiar_face attending attendance 5
    ∷ badge helping_hand volunteering volunteer_events 1
    ∷ badge time_giver volunteering volunteer_minutes 600
    ∷ badge gather_maker hosting hosted_events 1
    ∷ badge impact_storyteller hosting impact_reports 1
    ∷ badge first_gift giving donations 1
    ∷ badge community_backer giving donated_events 3
    ∷ badge steady_giver giving donation_months 3
    ∷ []

-- The order of the catalog, which tells two codes apart.
abbrev pub code_number : BadgeCode → ℕ
code_number first_gather = 0
code_number familiar_face = 1
code_number helping_hand = 2
code_number time_giver = 3
code_number gather_maker = 4
code_number impact_storyteller = 5
code_number first_gift = 6
code_number community_backer = 7
code_number steady_giver = 8

pub record BadgeContribution : Type 0 where
  pub at : ℕ
  pub amount : ℕ

abbrev pub BadgeActivity : Type 0
BadgeActivity = BadgeMetric → List BadgeContribution

-- A row of a user, without the user.
pub record UserBadge : Type 0 where
  pub earned_at : Option ℕ
  pub is_public : Bool
