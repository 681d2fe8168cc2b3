-- ===== src/Badges/Tests.antt =====
-- Badges of a user who has been to five events.
use gathergo_backend.Base.{
  ℕ, ◌≤◌, ◌<◌, ◌≡◌, ◌⊎◌, refl, true, false, none, some, [], ◌∷◌, All, err, arith,
}
use gathergo_backend.Badges.{
  familiar_face, steady_giver, attending, attendance, BadgeDefinition, badge_catalog, BadgeActivity,
}
use gathergo_backend.Badges.Progress.{insert_by_time, sort_by_time, tally, badge_progress}
use gathergo_backend.Badges.Service.{
  UserBadges, saved_date, evaluate, reconcile_all, reconcile, only_earned, set_visibility,
  get_public,
}
use gathergo_backend.Badges.Awards.{sum_all, sum_until, sum_before, badge_progress-earned}
use gathergo_backend.Badges.Reconciled.{IsAwarded, reconcile_twice, get_public-earned}

abbrev five_events : BadgeActivity
five_events attendance =
    record { at = 50; amount = 1 }
    ∷ record { at = 10; amount = 1 }
    ∷ record { at = 30; amount = 1 }
    ∷ record { at = 20; amount = 1 }
    ∷ record { at = 40; amount = 1 }
    ∷ []
five_events _ = []

abbrev face : BadgeDefinition
face = record { code = familiar_face; category = attending; metric = attendance; target = 5 }

abbrev no_rows : UserBadges
no_rows code = none

-- A badge that was saved as earned at a later time than the fifth event.
abbrev saved_rows : UserBadges
saved_rows familiar_face = some (record { earned_at = some 70; is_public = false })
saved_rows _ = none

-- The saved date stays.
face_kept : saved_date (reconcile saved_rows five_events familiar_face) ≡ some 70
unfolding reconcile reconcile_all evaluate badge_progress tally sort_by_time insert_by_time
face_kept = refl

face_earned : (badge_progress face five_events).earned_at ≡ some 50
unfolding badge_progress tally sort_by_time insert_by_time
face_earned = refl

-- What is not earned cannot be shown.
hidden_gift : set_visibility no_rows five_events steady_giver true ≡ err only_earned
unfolding set_visibility reconcile reconcile_all evaluate badge_progress tally sort_by_time
    insert_by_time
hidden_gift = refl

badge_progress-earned_example :
    (((badge_progress face five_events).earned_at ≡ none) × (sum_all (five_events attendance) < 5))
    ⊎ ((at : ℕ) × ((badge_progress face five_events).earned_at ≡ some at)
        × (5 ≤ sum_until at (five_events attendance))
        × (sum_before at (five_events attendance) < 5))
badge_progress-earned_example = badge_progress-earned face five_events (omega arith)

reconcile_twice_example :
    All (IsAwarded saved_rows five_events) badge_catalog
    × All
        (λ d.
          reconcile (reconcile saved_rows five_events) five_events d.code
          ≡ reconcile saved_rows five_events d.code)
        badge_catalog
reconcile_twice_example = reconcile_twice saved_rows five_events

get_public-earned_example :
    All (λ d. d.target ≤ sum_all (five_events d.metric)) (get_public no_rows five_events)
get_public-earned_example = get_public-earned no_rows five_events
