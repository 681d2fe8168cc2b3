-- ===== src/Badges/Reconciled.antt =====
-- What the rows of a user hold after they were reconciled.
use gathergo_backend.Base.{
  ℕ, ◌≤◌, ◌<◌, ◌≡◌, ◌∙◌, refl, sym, subst, inl, inr, true, false, Option, none, some, List, [], ◌∷◌,
  leb, Bool-cases, Option-cases, All, arith, ◌⊎◌,
}
use gathergo_backend.Badges.{
  BadgeCategory, BadgeDefinition, badge_catalog, BadgeActivity, BadgeContribution, UserBadge,
}
use gathergo_backend.Badges.Progress.{badge_progress}
use gathergo_backend.Badges.Service.{
  UserBadges, saved_date, award_date, evaluate, written, is_shown, shown, reconcile_all, reconcile,
  get_public,
}
use gathergo_backend.Badges.Awards.{
  sum_all, sum_until, sum_before, sum_where-le, badge_progress-earned,
}

-- The row of each definition of the catalog is the one that its own evaluation writes.
catalog-written :
    (rows : UserBadges) (activity : BadgeActivity)
    → All
        (λ d.
          reconcile rows activity d.code
          ≡ written d.category (evaluate rows activity d) (rows d.code))
        badge_catalog
unfolding reconcile reconcile_all
catalog-written rows activity =
    (refl, (refl, (refl, (refl, (refl, (refl, (refl, (refl, (refl, tt)))))))))

written-date :
    (category : BadgeCategory) (date : Option ℕ) (row : Option UserBadge)
    → saved_date (written category date row) ≡ date
written-date category none none = refl
written-date category none (some row) = refl
written-date category (some at) none = refl
written-date category (some at) (some row) = refl

written_twice :
    (category : BadgeCategory) (earned : Option ℕ) (row : Option UserBadge)
    → let after = written category (award_date earned row) row in
      written category (award_date earned after) after ≡ after
written_twice category none none = refl
written_twice category none (some row) = refl
written_twice category (some at) none = refl
written_twice category (some at) (some row) = ground arith

undated : (row : Option UserBadge) → saved_date row ≡ none → is_shown row ≡ true → true ≡ false
undated none e h = cc
undated (some row) e h = ground (arith, e, h)

All-targets : All (λ d. 0 < d.target) badge_catalog
All-targets = (
  omega arith,
  (
    omega arith,
    (
      omega arith,
      (omega arith, (omega arith, (omega arith, (omega arith, (omega arith, (omega arith, tt)))))),
    ),
  ),
)

-- An award date, by what was done and the row as it was before: none where the sum is short of the
-- target; otherwise the date of that row or, where it has none, the time of the first sum to reach it.
abbrev IsDated : List BadgeContribution → (target : ℕ) → Option UserBadge → Option ℕ → Type 0
IsDated done target row date =
    ((date ≡ none) × (sum_all done < target))
    ⊎ ((at : ℕ) × (date ≡ some at)
        × (target ≤ sum_all done)
        × ((saved_date row ≡ some at)
            ⊎ ((saved_date row ≡ none)
                × (target ≤ sum_until at done)
                × (sum_before at done < target))))

abbrev pub IsAwarded : UserBadges → BadgeActivity → BadgeDefinition → Type 0
IsAwarded rows activity d =
    IsDated (activity d.metric) d.target (rows d.code) (saved_date (reconcile rows activity d.code))

module _ (rows : UserBadges) (activity : BadgeActivity) where
  dates :
      (ds : List BadgeDefinition)
      → All
          (λ d.
            reconcile rows activity d.code
            ≡ written d.category (evaluate rows activity d) (rows d.code))
          ds
      → All
          (λ d.
            saved_date (reconcile rows activity d.code)
            ≡ award_date (badge_progress d activity).earned_at (rows d.code))
          ds
  unfolding evaluate
  dates [] h = tt
  dates (d ∷ ds) (h, hs) =
      (rw h (written-date d.category (evaluate rows activity d) (rows d.code)), dates ds hs)

  twice :
      (ds : List BadgeDefinition)
      → All
          (λ d.
            reconcile rows activity d.code
            ≡ written d.category (evaluate rows activity d) (rows d.code))
          ds
      → All
          (λ d.
            reconcile (reconcile rows activity) activity d.code
            ≡ written d.category
                (evaluate (reconcile rows activity) activity d)
                (reconcile rows activity d.code))
          ds
      → All
          (λ d.
            reconcile (reconcile rows activity) activity d.code ≡ reconcile rows activity d.code)
          ds
  unfolding evaluate
  twice [] h k = tt
  twice (d ∷ ds) (h, hs) (k, ks) = (
    k
        ∙ subst
            (λ row.
              written d.category (award_date (badge_progress d activity).earned_at row) row ≡ row)
            (sym h) (written_twice d.category (badge_progress d activity).earned_at (rows d.code)),
    twice ds hs ks,
  )

  earned-saved :
      (done : List BadgeContribution) (target : ℕ) (earned : Option ℕ) (row : Option UserBadge)
      → ((earned ≡ none) × (sum_all done < target))
        ⊎ ((at : ℕ) × (earned ≡ some at)
            × (target ≤ sum_until at done)
            × (sum_before at done < target))
      → IsDated done target row (award_date earned row)
  earned-saved done target earned row (inl (none', low)) = inl (rw none' refl, low)
  earned-saved done target earned row (inr (at, some', high, low)) =
      let all = sum_where-le (λ t. leb t at) done in
      elim (Option-cases (saved_date row)) [
        | inl new ↦ inr (at, rw (some', new) refl, omega (arith, high, all), inr (new, high, low))
        | inr (old, kept) ↦ inr (old, rw (some', kept) refl, omega (arith, high, all), inl kept)
      ]

  awards :
      (ds : List BadgeDefinition)
      → All (λ d. 0 < d.target) ds
      → All
          (λ d.
            saved_date (reconcile rows activity d.code)
            ≡ award_date (badge_progress d activity).earned_at (rows d.code))
          ds
      → All (IsAwarded rows activity) ds
  awards [] pos h = tt
  awards (d ∷ ds) (pos, rest) (h, hs) = (
    subst (IsDated (activity d.metric) d.target (rows d.code)) (sym h) (
        earned-saved (activity d.metric) d.target (badge_progress d activity).earned_at
          (rows d.code) (badge_progress-earned d activity pos)),
    awards ds rest hs,
  )

  -- After a user's rows were reconciled, a badge of the catalog has no award date just where all that was
  -- done is short of its target. Otherwise its date is the one that was saved before or, where none was
  -- saved, the time at which the sum of what was done first reached the target. To reconcile the rows
  -- again for the same activity changes no badge.
  pub reconcile_twice :
      All (IsAwarded rows activity) badge_catalog
      × All
          (λ d.
            reconcile (reconcile rows activity) activity d.code ≡ reconcile rows activity d.code)
          badge_catalog
  reconcile_twice = (
    awards badge_catalog All-targets (dates badge_catalog (catalog-written rows activity)),
    twice badge_catalog (catalog-written rows activity)
        (catalog-written (reconcile rows activity) activity),
  )

  abbrev IsDone : BadgeDefinition → Type 0
  IsDone d = d.target ≤ sum_all (activity d.metric)

  shown-IsDone :
      (ds : List BadgeDefinition)
      → All (λ d. 0 < d.target) ds
      → All
          (λ d.
            saved_date (reconcile rows activity d.code)
            ≡ award_date (badge_progress d activity).earned_at (rows d.code))
          ds
      → All IsDone (shown (reconcile rows activity) ds)
  unfolding shown
  shown-IsDone [] pos h = tt
  shown-IsDone (d ∷ ds) (pos, rest) (h, hs) =
      elim (Bool-cases (is_shown (reconcile rows activity d.code))) [
        | inr hidden ↦ rw hidden (shown-IsDone ds rest hs)
        | inl open' ↦ rw open' (elim (badge_progress-earned d activity pos) [
          | inl (none', low) ↦
              let absurd = undated (reconcile rows activity d.code) (h ∙ rw none' refl) open' in cc
          | inr (at, some', high, low) ↦ (
            omega (arith, high, sum_where-le (λ t. leb t at) (activity d.metric)),
            shown-IsDone ds rest hs,
          )
        ])
      ]

  -- A user's public profile shows only badges of which all that the user has done reaches the target.
  pub get_public-earned :
      All (λ d. d.target ≤ sum_all (activity d.metric)) (get_public rows activity)
  unfolding get_public
  get_public-earned =
      shown-IsDone badge_catalog All-targets (dates badge_catalog (catalog-written rows activity))
