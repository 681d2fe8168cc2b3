-- ===== src/Volunteer/Totals.antt =====
-- What the summary of an event's volunteering adds up to.
use gathergo_backend.Base.{
  ℕ, ◌+◌, ◌≤◌, ◌<◌, ◌≡◌, List, [], ◌∷◌, arith, length, count_if, if◌then◌else◌, or_else, All, map,
  bit, ◌⊎◌, inl, inr,
}
use gathergo_backend.Volunteer.{
  completed, eq_status, is_occupied, VolunteerRole, EventVolunteer, occupies, occupancy,
}
use gathergo_backend.Volunteer.Summary.{
  Counts, Tally, tally, tally_one, total_capacity, summarize_volunteering, no_counts,
}

abbrev pub sum_counts : Counts → ℕ
sum_counts c =
    c.applied_count + c.accepted_count + c.declined_count + c.withdrawn_count + c.checked_in_count
    + c.completed_count

tally_sum :
    (vs : List EventVolunteer) (t : Tally)
    → sum_counts (tally vs t).counts ≡ sum_counts t.counts + length vs
unfolding tally tally_one
tally_sum [] t = omega arith
tally_sum (v ∷ vs) t = ground (arith, tally_sum vs (tally_one v t))

tally_places :
    (vs : List EventVolunteer) (t : Tally)
    → let c = (tally vs t).counts in
      let d = t.counts in
      c.accepted_count + c.checked_in_count + c.completed_count
      ≡ d.accepted_count
        + d.checked_in_count
        + d.completed_count
        + count_if (λ v. is_occupied v.status) vs
unfolding tally tally_one count_if
tally_places [] t = omega arith
tally_places (v ∷ vs) t = ground (arith, tally_places vs (tally_one v t))

-- The minutes that the organiser confirmed, of the volunteers whose work is confirmed.
pub confirmed_sum : List EventVolunteer → ℕ
confirmed_sum [] = 0
confirmed_sum (v ∷ vs) =
    (if eq_status v.status completed then or_else v.confirmed_minutes 0 else 0) + confirmed_sum vs

tally_minutes :
    (vs : List EventVolunteer) (t : Tally)
    → (tally vs t).confirmed_minutes ≡ t.confirmed_minutes + confirmed_sum vs
unfolding tally tally_one confirmed_sum
tally_minutes [] t = omega arith
tally_minutes (v ∷ vs) t = ground (arith, tally_minutes vs (tally_one v t))

-- The six counts add up to the number of volunteers, the confirmed places are those whose status takes
-- a place, and the minutes are those of the volunteers whose work is confirmed.
pub summary_totals :
    (round_percent : ℕ → ℕ → ℕ) (roles : List VolunteerRole) (vs : List EventVolunteer)
    → let s = summarize_volunteering round_percent roles vs in
      (sum_counts s.counts ≡ length vs)
      × (s.confirmed_places ≡ count_if (λ v. is_occupied v.status) vs)
      × (s.confirmed_minutes ≡ confirmed_sum vs)
unfolding summarize_volunteering
summary_totals round_percent roles vs =
    let start : Tally = record { counts = no_counts; confirmed_minutes = 0 } in
    (
      omega (arith, tally_sum vs start),
      omega (arith, tally_places vs start),
      omega (arith, tally_minutes vs start),
    )

-- The places taken in the listed roles together.
places : List (ℕ × VolunteerRole) → List EventVolunteer → ℕ
places [] vs = 0
places ((id, role) ∷ rs) vs = occupancy id vs + places rs vs

abbrev pub IsListed : List (ℕ × VolunteerRole) → ℕ → Type 0
IsListed [] id = ⊥
IsListed ((k, role) ∷ rs) id = (k ≡ id) ⊎ IsListed rs id

abbrev bits : List (ℕ × VolunteerRole) → EventVolunteer → ℕ
bits [] v = 0
bits ((id, role) ∷ rs) v = bit (occupies id v) + bits rs v

places-cons :
    (rs : List (ℕ × VolunteerRole)) (v : EventVolunteer) (vs : List EventVolunteer)
    → places rs (v ∷ vs) ≡ bits rs v + places rs vs
unfolding places occupancy count_if
places-cons [] v vs = omega arith
places-cons ((id, role) ∷ rs) v vs = omega (arith, places-cons rs v vs)

listed-bit :
    (rs : List (ℕ × VolunteerRole)) (v : EventVolunteer)
    → IsListed rs v.role_id
    → bit (is_occupied v.status) ≤ bits rs v
listed-bit [] v h = absurd h
listed-bit ((id, role) ∷ rs) v (inl e) = ground arith
listed-bit ((id, role) ∷ rs) v (inr h) = omega (arith, listed-bit rs v h)

count-le-places :
    (rs : List (ℕ × VolunteerRole)) (vs : List EventVolunteer)
    → All (λ v. IsListed rs v.role_id) vs
    → count_if (λ v. is_occupied v.status) vs ≤ places rs vs
unfolding count_if
count-le-places rs [] h = omega arith
count-le-places rs (v ∷ vs) (h, hs) =
    omega (arith, places-cons rs v vs, listed-bit rs v h, count-le-places rs vs hs)

places-le-capacity :
    (rs : List (ℕ × VolunteerRole)) (vs : List EventVolunteer) (total : ℕ)
    → All (λ r. occupancy r.0 vs ≤ r.1.capacity) rs
    → places rs vs + total ≤ total_capacity (map (λ r. r.1) rs) total
unfolding places total_capacity
places-le-capacity [] vs total h = omega arith
places-le-capacity ((id, role) ∷ rs) vs total (h, hs) =
    omega (arith, places-le-capacity rs vs (total + role.capacity) hs)

-- Where every volunteer's role is among the event's roles and no role is over its capacity, the
-- confirmed places are at most the capacity; and the recruitment progress is at most 100 percent, if
-- the rounded percentage grows with the numerator and is 100 for equal numbers above zero.
pub summary_progress :
    (round_percent : ℕ → ℕ → ℕ) (rs : List (ℕ × VolunteerRole)) (vs : List EventVolunteer)
    → ((a a' b : ℕ) → a ≤ a' → round_percent a b ≤ round_percent a' b)
    → ((b : ℕ) → 0 < b → round_percent b b ≡ 100)
    → All (λ v. IsListed rs v.role_id) vs
    → All (λ r. occupancy r.0 vs ≤ r.1.capacity) rs
    → let s = summarize_volunteering round_percent (map (λ r. r.1) rs) vs in
      (s.confirmed_places ≤ s.capacity) × (s.recruitment_progress ≤ 100)
unfolding summarize_volunteering
summary_progress round_percent rs vs mono full h k =
    let t = (tally vs (record { counts = no_counts; confirmed_minutes = 0 })).counts in
    let places = t.accepted_count + t.checked_in_count + t.completed_count in
    let capacity = total_capacity (map (λ (r : ℕ × VolunteerRole). r.1) rs) 0 in
    let bound : places ≤ capacity = omega (
      arith,
      tally_places vs (record { counts = no_counts; confirmed_minutes = 0 }),
      count-le-places rs vs h,
      places-le-capacity rs vs 0 k,
    ) in
    (bound, ground (arith, mono places capacity capacity bound, full capacity))
