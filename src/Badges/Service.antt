-- ===== src/Badges/Service.antt =====
-- `reconcile`, `setVisibility` and `getPublic` of badge.service.ts, for one user whose row is locked. The
-- rows of the user are a function from the code.
use gathergo_backend.Base.{
  ℕ, Bool, true, false, not, Option, none, some, List, [], ◌∷◌, ◌==◌, if◌then◌else◌, Result, ok,
  err, or_else,
}
use gathergo_backend.Badges.{
  BadgeCode, BadgeCategory, giving, BadgeDefinition, badge_catalog, code_number, BadgeActivity,
  UserBadge,
}
use gathergo_backend.Badges.Progress.{badge_progress}

abbrev pub UserBadges : Type 0
UserBadges = BadgeCode → Option UserBadge

abbrev pub same_code : BadgeCode → BadgeCode → Bool
same_code a b = code_number a == code_number b

abbrev pub put_badge : UserBadges → BadgeCode → UserBadge → UserBadges
put_badge rows code row c = if same_code c code then some row else rows c

abbrev pub saved_date : Option UserBadge → Option ℕ
saved_date none = none
saved_date (some row) = row.earned_at

-- The award date: the one that is saved, where the badge is still earned.
abbrev pub award_date : Option ℕ → Option UserBadge → Option ℕ
award_date none saved = none
award_date (some at) saved = some (or_else (saved_date saved) at)

unfoldable pub evaluate : UserBadges → BadgeActivity → BadgeDefinition → Option ℕ
unfolding badge_progress
evaluate saved activity definition =
    award_date (badge_progress definition activity).earned_at (saved definition.code)

-- The `updateMany` that takes back what is not earned any more; a row without a date is as before.
abbrev without_date : Option UserBadge → Option UserBadge
without_date none = none
without_date (some row) = some (record row { earned_at = none })

abbrev is_giving : BadgeCategory → Bool
is_giving giving = true
is_giving _ = false

-- The `upsert` of a badge that is earned.
abbrev with_date : BadgeCategory → ℕ → Option UserBadge → UserBadge
with_date category at none = record { earned_at = some at; is_public = not (is_giving category) }
with_date category at (some row) = record row { earned_at = some at }

abbrev pub written : BadgeCategory → Option ℕ → Option UserBadge → Option UserBadge
written category none row = without_date row
written category (some at) row = some (with_date category at row)

-- The row of one definition: the writes touch the row of its code only.
abbrev reconcile_one : UserBadges → BadgeActivity → BadgeDefinition → UserBadges → UserBadges
reconcile_one saved activity definition rows code =
    if same_code code definition.code
    then written definition.category (evaluate saved activity definition) (rows code)
    else rows code

unfoldable pub reconcile_all :
    UserBadges → BadgeActivity → List BadgeDefinition → UserBadges → UserBadges
reconcile_all saved activity [] rows = rows
reconcile_all saved activity (d ∷ ds) rows =
    reconcile_all saved activity ds (reconcile_one saved activity d rows)

unfoldable pub reconcile : UserBadges → BadgeActivity → UserBadges
unfolding reconcile_all evaluate
reconcile rows activity = reconcile_all rows activity badge_catalog rows

pub data BadgeError : Type 0 where
  only_earned : BadgeError

-- A badge of the collection that `reconcile` answers is earned where its row has a date.
unfoldable pub set_visibility :
    UserBadges → BadgeActivity → BadgeCode → Bool → Result BadgeError UserBadges
unfolding reconcile
set_visibility rows activity code is_public =
    let after = reconcile rows activity in
    elim (after code) [
      | none ↦ err only_earned
      | some row ↦ elim row.earned_at [
        | none ↦ err only_earned
        | some at ↦ ok (put_badge after code (record row { is_public = is_public }))
      ]
    ]

abbrev pub is_shown : Option UserBadge → Bool
is_shown none = false
is_shown (some row) = elim row.earned_at [ none ↦ false | some at ↦ row.is_public ]

-- The badges that `getPublic` shows, in the order of the catalog.
unfoldable pub shown : UserBadges → List BadgeDefinition → List BadgeDefinition
shown rows [] = []
shown rows (d ∷ ds) = let rest = shown rows ds in if is_shown (rows d.code) then d ∷ rest else rest

unfoldable pub get_public : UserBadges → BadgeActivity → List BadgeDefinition
unfolding reconcile shown
get_public rows activity = shown (reconcile rows activity) badge_catalog
