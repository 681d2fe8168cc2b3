-- ===== src/Badges/Awards.antt =====
-- When a badge counts as earned, by sums over what was done.
use gathergo_backend.Base.{
  ℕ, ◌+◌, ◌≤◌, ◌<◌, ◌≡◌, ◌∙◌, ◌⊎◌, ◌↔◌, refl, sym, inl, inr, Bool, true, Option, none, some, List,
  [], ◌∷◌, ltb, leb, if◌then◌else◌, Bool-cases, All, arith,
}
use gathergo_backend.Badges.{BadgeDefinition, BadgeContribution, BadgeActivity}
use gathergo_backend.Badges.Progress.{insert_by_time, sort_by_time, award, tally, badge_progress}

-- The amounts of the contributions whose time passes a test.
unfoldable pub sum_where : (ℕ → Bool) → List BadgeContribution → ℕ
sum_where test [] = 0
sum_where test (c ∷ cs) = (if test c.at then c.amount else 0) + sum_where test cs

abbrev pub sum_all : List BadgeContribution → ℕ
sum_all cs = sum_where (λ t. true) cs

-- Up to a time, and before it.
abbrev pub sum_until : ℕ → List BadgeContribution → ℕ
sum_until at cs = sum_where (λ t. leb t at) cs

abbrev pub sum_before : ℕ → List BadgeContribution → ℕ
sum_before at cs = sum_where (λ t. ltb t at) cs

pub sum_where-le : (test : ℕ → Bool) (cs : List BadgeContribution) → sum_where test cs ≤ sum_all cs
unfolding sum_where
sum_where-le test [] = omega arith
sum_where-le test (c ∷ cs) = ground (arith, sum_where-le test cs)

sum-insert :
    (test : ℕ → Bool) (c : BadgeContribution) (cs : List BadgeContribution)
    → sum_where test (insert_by_time c cs) ≡ (if test c.at then c.amount else 0) + sum_where test cs
unfolding sum_where insert_by_time
sum-insert test c [] = refl
sum-insert test c (d ∷ ds) = elim (Bool-cases (leb c.at d.at)) [
  | inl before ↦ rw before refl
  | inr after ↦ rw after (omega (arith, sum-insert test c ds))
]

sum-sort :
    (test : ℕ → Bool) (cs : List BadgeContribution)
    → sum_where test (sort_by_time cs) ≡ sum_where test cs
unfolding sum_where sort_by_time
sum-sort test [] = refl
sum-sort test (c ∷ cs) = sum-insert test c (sort_by_time cs) ∙ rw (sum-sort test cs) refl

abbrev IsFrom : ℕ → List BadgeContribution → Type 0
IsFrom at cs = All (λ c. at ≤ c.at) cs

abbrev IsSorted : List BadgeContribution → Type 0
IsSorted [] = Unit
IsSorted (c ∷ cs) = IsFrom c.at cs × IsSorted cs

IsFrom-weaken : (m n : ℕ) (cs : List BadgeContribution) → m ≤ n → IsFrom n cs → IsFrom m cs
IsFrom-weaken m n [] h k = tt
IsFrom-weaken m n (c ∷ cs) h (k, ks) = (omega (arith, h, k), IsFrom-weaken m n cs h ks)

insert-IsFrom :
    (m : ℕ) (c : BadgeContribution) (cs : List BadgeContribution)
    → m ≤ c.at
    → IsFrom m cs
    → IsFrom m (insert_by_time c cs)
unfolding insert_by_time
insert-IsFrom m c [] h k = (h, tt)
insert-IsFrom m c (d ∷ ds) h (k, ks) = elim (Bool-cases (leb c.at d.at)) [
  | inl before ↦ rw before (h, (k, ks))
  | inr after ↦ rw after (k, insert-IsFrom m c ds h ks)
]

insert-IsSorted :
    (c : BadgeContribution) (cs : List BadgeContribution)
    → IsSorted cs
    → IsSorted (insert_by_time c cs)
unfolding insert_by_time
insert-IsSorted c [] h = (tt, tt)
insert-IsSorted c (d ∷ ds) (h, hs) = elim (Bool-cases (leb c.at d.at)) [
  | inl before ↦
      let less : c.at ≤ d.at = ground (arith, before) in
      rw before ((less, IsFrom-weaken c.at d.at ds less h), (h, hs))
  | inr after ↦
      let less : d.at ≤ c.at = ground (arith, after) in
      rw after (insert-IsFrom d.at c ds less h, insert-IsSorted c ds hs)
]

sort-IsSorted : (cs : List BadgeContribution) → IsSorted (sort_by_time cs)
unfolding sort_by_time
sort-IsSorted [] = tt
sort-IsSorted (c ∷ cs) = insert-IsSorted c (sort_by_time cs) (sort-IsSorted cs)

none-before : (at : ℕ) (cs : List BadgeContribution) → IsFrom at cs → sum_before at cs ≡ 0
unfolding sum_where
none-before at [] h = refl
none-before at (c ∷ cs) (h, hs) = ground (arith, h, none-before at cs hs)

tally-earned :
    (target total at : ℕ) (cs : List BadgeContribution)
    → (tally target total (some at) cs).1 ≡ some at
unfolding tally
tally-earned target total at [] = refl
tally-earned target total at (c ∷ cs) = tally-earned target (total + c.amount) at cs

tally-total :
    (target total : ℕ) (earned : Option ℕ) (cs : List BadgeContribution)
    → (tally target total earned cs).0 ≡ total + sum_all cs
unfolding tally sum_where
tally-total target total earned [] = omega arith
tally-total target total earned (c ∷ cs) =
    omega (
      arith,
      tally-total target (total + c.amount) (award target (total + c.amount) c.at earned) cs,
    )

-- Of a sorted list, from a total that is short of the target.
abbrev Short : (target total : ℕ) → Option ℕ → List BadgeContribution → Type 0
Short target total earned cs = (earned ≡ none) × (total + sum_all cs < target)

abbrev Reached : (target total : ℕ) → Option ℕ → List BadgeContribution → Type 0
Reached target total earned cs =
    (at : ℕ) × (earned ≡ some at)
    × (target ≤ total + sum_until at cs)
    × (total + sum_before at cs < target)

tally-from :
    (m target total at : ℕ) (cs : List BadgeContribution)
    → IsFrom m cs
    → (tally target total none cs).1 ≡ some at
    → m ≤ at
unfolding tally
tally-from m target total at [] h e = cc
tally-from m target total at (c ∷ cs) (h, hs) e =
    elim (Bool-cases (leb target (total + c.amount))) [
      | inl hit ↦
          let same = sym (tally-earned target (total + c.amount) c.at cs) ∙ rw (tally, hit) at e in
          ground (arith, same, h)
      | inr miss ↦ tally-from m target (total + c.amount) at cs hs (rw (tally, miss) at e)
    ]

tally-ends :
    (target total : ℕ) (cs : List BadgeContribution)
    → total < target
    → IsSorted cs
    → Short target total (tally target total none cs).1 cs
      ⊎ Reached target total (tally target total none cs).1 cs
unfolding tally sum_where
tally-ends target total [] less h = inl (refl, omega (arith, less))
tally-ends target total (c ∷ cs) less (h, hs) = elim (Bool-cases (leb target (total + c.amount))) [
  | inl hit ↦
      let zero_before = none-before c.at cs h in
      let got : (tally target total none (c ∷ cs)).1 ≡ some c.at =
        rw (tally, hit) (tally-earned target (total + c.amount) c.at cs) in
      inr (c.at, got, ground (arith, hit), ground (arith, less, zero_before))
  | inr miss ↦
      let short : total + c.amount < target = ground (arith, miss) in
      rw (tally, miss)
        (elim (tally-ends target (total + c.amount) cs short hs) [
          | inl (none', low) ↦ inl (none', omega (arith, low))
          | inr (at, some', high, low) ↦
              let from = tally-from c.at target (total + c.amount) at cs h some' in
              inr (at, some', ground (arith, high, from), ground (arith, low, from))
        ])
]

-- A badge with a target above zero is not earned while all that was done is short of the target.
-- Otherwise it is earned at the time at which the sum of what was done first reached the target: what was
-- done up to then reaches it, and what was done before then does not. The order in which it is given does
-- not matter.
pub badge_progress-earned :
    (definition : BadgeDefinition) (activity : BadgeActivity)
    → 0 < definition.target
    → let done = activity definition.metric in
      let earned = (badge_progress definition activity).earned_at in
      ((earned ≡ none) × (sum_all done < definition.target))
      ⊎ ((at : ℕ) × (earned ≡ some at)
          × (definition.target ≤ sum_until at done)
          × (sum_before at done < definition.target))
unfolding badge_progress
badge_progress-earned definition activity pos =
    let done = activity definition.metric in
    elim (tally-ends definition.target 0 (sort_by_time done) pos (sort-IsSorted done)) [
      | inl (none', low) ↦ inl (none', omega (arith, low, sum-sort (λ t. true) done))
      | inr (at, some', high, low) ↦ inr (
        at,
        some',
        omega (arith, high, sum-sort (λ t. leb t at) done),
        omega (arith, low, sum-sort (λ t. ltb t at) done),
      )
    ]

-- What is done and what is left of a badge add up to its target, and nothing is left just where all that
-- was done reaches the target.
pub badge_progress-remaining :
    (definition : BadgeDefinition) (activity : BadgeActivity)
    → let progress = badge_progress definition activity in
      (progress.current + progress.remaining ≡ definition.target)
      × ((definition.target ≤ sum_all (activity definition.metric)) ↔ (progress.remaining ≡ 0))
unfolding badge_progress
badge_progress-remaining definition activity =
    let done = activity definition.metric in
    let total = tally-total definition.target 0 none (sort_by_time done) in
    let same = sum-sort (λ t. true) done in
    (omega arith, ((λ h. omega (arith, total, same, h)), (λ h. omega (arith, total, same, h))))
