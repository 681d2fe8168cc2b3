-- ===== src/Volunteer/Summary.antt =====
-- volunteer.util.ts: the summary of an event's volunteering, and what makes an event take volunteers.
use gathergo_backend.Base.{
  ℕ, ◌+◌, not, List, [], ◌∷◌, ltb, if◌then◌else◌, or_else, Result, throw_if, ◌>>◌,
}
use gathergo_backend.Volunteer.{
  VolunteerStatus, applied, accepted, declined, withdrawn, checked_in, completed, eq_status,
  is_volunteer_type, Event, VolunteerRole, EventVolunteer, is_missing,
}

pub record Counts : Type 0 where
  pub applied_count : ℕ
  pub accepted_count : ℕ
  pub declined_count : ℕ
  pub withdrawn_count : ℕ
  pub checked_in_count : ℕ
  pub completed_count : ℕ

abbrev pub no_counts : Counts
no_counts = record {
  applied_count = 0;
  accepted_count = 0;
  declined_count = 0;
  withdrawn_count = 0;
  checked_in_count = 0;
  completed_count = 0;
}

-- `counts[status] += 1`
unfoldable pub add_count : VolunteerStatus → Counts → Counts
add_count applied c = record c { applied_count = c.applied_count + 1 }
add_count accepted c = record c { accepted_count = c.accepted_count + 1 }
add_count declined c = record c { declined_count = c.declined_count + 1 }
add_count withdrawn c = record c { withdrawn_count = c.withdrawn_count + 1 }
add_count checked_in c = record c { checked_in_count = c.checked_in_count + 1 }
add_count completed c = record c { completed_count = c.completed_count + 1 }

pub record Tally : Type 0 where
  pub counts : Counts
  pub confirmed_minutes : ℕ

unfoldable pub tally_one : EventVolunteer → Tally → Tally
unfolding add_count
tally_one v t = record {
  counts = add_count v.status t.counts;
  confirmed_minutes =
      if eq_status v.status completed
      then t.confirmed_minutes + or_else v.confirmed_minutes 0
      else t.confirmed_minutes;
}

-- The loop over the volunteers, from the left.
unfoldable pub tally : List EventVolunteer → Tally → Tally
tally [] t = t
tally (v ∷ vs) t = tally vs (tally_one v t)

unfoldable pub total_capacity : List VolunteerRole → ℕ → ℕ
total_capacity [] total = total
total_capacity (r ∷ rs) total = total_capacity rs (total + r.capacity)

-- The hours are the minutes over 60, not rounded, and stand for themselves as minutes.
pub record Volunteering : Type 0 where
  pub counts : Counts
  pub capacity : ℕ
  pub confirmed_places : ℕ
  pub attended : ℕ
  pub confirmed_minutes : ℕ
  pub recruitment_progress : ℕ

-- `round_percent a b` is `Math.round((a / b) * 100)`, which JavaScript computes in floating point: an
-- argument.
unfoldable pub summarize_volunteering :
    (round_percent : ℕ → ℕ → ℕ) → List VolunteerRole → List EventVolunteer → Volunteering
unfolding tally tally_one total_capacity
summarize_volunteering round_percent volunteer_roles volunteers =
    let t = tally volunteers (record { counts = no_counts; confirmed_minutes = 0 }) in
    let capacity = total_capacity volunteer_roles 0 in
    let counts = t.counts in
    let confirmed_places =
      counts.accepted_count + counts.checked_in_count + counts.completed_count in
    record {
      counts = counts;
      capacity = capacity;
      confirmed_places = confirmed_places;
      attended = counts.checked_in_count + counts.completed_count;
      confirmed_minutes = t.confirmed_minutes;
      recruitment_progress = if ltb 0 capacity then round_percent confirmed_places capacity else 0;
    }

pub data EventError : Type 0 where
  not_volunteer_event not_physical no_impact_story : EventError

unfoldable pub assert_volunteer_event : Event → Result EventError (Unit {0})
unfolding is_missing
assert_volunteer_event event = do
  throw_if (not (is_volunteer_type event.registration_type)) not_volunteer_event
  throw_if (not event.is_physical_event) not_physical
  throw_if (is_missing event.impact_description) no_impact_story
