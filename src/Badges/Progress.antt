-- ===== src/Badges/Progress.antt =====
-- `badgeProgress` of badge-progress.ts.
use gathergo_backend.Base.{
  ℕ, ◌+◌, ◌-◌, min, Option, none, some, List, [], ◌∷◌, ltb, leb, if◌then◌else◌,
}
use gathergo_backend.Badges.{BadgeDefinition, BadgeContribution, BadgeActivity}

unfoldable pub insert_by_time : BadgeContribution → List BadgeContribution → List BadgeContribution
insert_by_time c [] = c ∷ []
insert_by_time c (d ∷ ds) =
    let rest = insert_by_time c ds in if leb c.at d.at then c ∷ d ∷ ds else d ∷ rest

-- The sort by time, which keeps the order of equal times.
unfoldable pub sort_by_time : List BadgeContribution → List BadgeContribution
sort_by_time [] = []
sort_by_time (c ∷ cs) = insert_by_time c (sort_by_time cs)

abbrev pub award : (target total at : ℕ) → Option ℕ → Option ℕ
award target total at none = if leb target total then some at else none
award target total at (some earned) = some earned

-- The loop: the total, and when it first reached the target.
unfoldable pub tally : (target total : ℕ) → Option ℕ → List BadgeContribution → ℕ × Option ℕ
tally target total earned [] = (total, earned)
tally target total earned (c ∷ cs) =
    tally target (total + c.amount) (award target (total + c.amount) c.at earned) cs

pub data BadgeStatus : Type 0 where
  locked in_progress is_earned : BadgeStatus

pub record BadgeProgress : Type 0 where
  pub status : BadgeStatus
  pub earned_at : Option ℕ
  pub current : ℕ
  pub remaining : ℕ

abbrev status_of : Option ℕ → ℕ → BadgeStatus
status_of (some at) current = is_earned
status_of none current = if ltb 0 current then in_progress else locked

unfoldable pub badge_progress : BadgeDefinition → BadgeActivity → BadgeProgress
unfolding tally sort_by_time
badge_progress badge activity =
    let (total, earned) = tally badge.target 0 none (sort_by_time (activity badge.metric)) in
    let current = min total badge.target in
    record {
      status = status_of earned current;
      earned_at = earned;
      current = current;
      remaining = badge.target - current;
    }
