-- ===== src/Volunteer/Tests.antt =====
-- One event with one role, from an application to confirmed work.
use native.Mathlib.Nat.{div-eq_of_lt, div-mul-le_self, le-div_iff_mul-le, mul-add-div_right}
use gathergo_backend.Base.{
  ℕ, ◌+◌, ◌*◌, ◌/◌, ◌≤◌, ◌≡◌, ◌≢◌, refl, inl, inr, ◌<◌, true, none, some, List, [], ◌∷◌, arith,
  ◌==◌, Bool-cases, if◌then◌else◌, ok, ◌>>=◌, ◌>>◌, find, count_if, length,
}
use gathergo_backend.Volunteer.{
  applied, accepted, checked_in, completed, is_occupied, RegistrationType, Event, VolunteerRole,
  EventVolunteer, Db, occupancy,
}
use gathergo_backend.Volunteer.Service.{apply}
use gathergo_backend.Volunteer.Progress.{accept, review_application, complete}
use gathergo_backend.Volunteer.Summary.{summarize_volunteering, assert_volunteer_event}
use gathergo_backend.Volunteer.Capacity.Reach.{here, next, Step, Reach-within_capacity}
use gathergo_backend.Volunteer.Statuses.{
  Move, reviews, completes, status-Move, complete_hours, completed-final,
}
use gathergo_backend.Volunteer.Updates.{IsStored}
use gathergo_backend.Volunteer.Totals.{summary_totals, summary_progress, sum_counts, confirmed_sum}

abbrev cleanup : Event
cleanup = record {
  creator_id = 9;
  start_date = 1000000;
  end_date = 8200000;
  registration_type = RegistrationType.volunteer;
  is_physical_event = true;
  impact_description = some "A clean beach";
}

abbrev sorter : VolunteerRole
sorter = record {
  event_id = 1;
  title = "Sorter";
  description = "Sorts";
  capacity = 1;
  requires_approval = true;
  is_open = true;
}

abbrev start : Db
start = record {
  events = λ k. if k == 1 then some cleanup else none;
  roles = λ k. if k == 5 then some sorter else none;
  volunteers = [];
}

abbrev application : EventVolunteer
application = record {
  id = 30;
  event_id = 1;
  role_id = 5;
  user_id = 20;
  status = applied;
  note = none;
  checked_in_at = none;
  completed_at = none;
  confirmed_minutes = none;
  confirmed_by_id = none;
}

abbrev with : EventVolunteer → Db
with a = record start { volunteers = a ∷ [] }

applies_once : apply start 1 5 20 none 500 30 ≡ ok (with application, application)
unfolding apply occupancy assert_volunteer_event ◌>>=◌ ◌>>◌
applies_once = refl

abbrev admitted : EventVolunteer
admitted = record application { status = accepted }

accepts_once :
    review_application (with application) 1 30 9 accept 600 ≡ ok (with admitted, admitted)
unfolding review_application occupancy assert_volunteer_event ◌>>=◌ ◌>>◌
accepts_once = refl

abbrev present : EventVolunteer
present = record admitted { status = checked_in; checked_in_at = some 1000000 }

abbrev worked : EventVolunteer
worked = record present {
  status = completed;
  completed_at = some 8200000;
  confirmed_minutes = some 120;
  confirmed_by_id = some 9;
}

confirms : complete (with present) 1 30 9 120 8200000 ≡ ok (with worked, worked)
unfolding complete ◌>>=◌ ◌>>◌
confirms = refl

confirms_again : complete (with worked) 1 30 9 120 9000000 ≡ ok (with worked, worked)
unfolding complete ◌>>=◌ ◌>>◌
confirms_again = refl

Reach-within_capacity_example : occupancy 5 (admitted ∷ []) ≤ 1
Reach-within_capacity_example =
    Reach-within_capacity start (with admitted) 5 sorter refl
      (next (next here (Step.applies 1 5 20 none 500 30 application applies_once))
        (Step.reviews 1 30 9 accept 600 admitted accepts_once))
      refl

status-Move_example :
    Move 9 600 application admitted × IsStored (with application) (with admitted) 1 30 31 admitted
unfolding find
status-Move_example =
    status-Move (with application) 1 30 9 600 application refl (with admitted) admitted
      (reviews accept) 31 (omega arith) accepts_once

complete_hours_example :
    (at : ℕ) × (present.checked_in_at ≡ some at)
    × (present.status ≡ checked_in)
    × (at + 120 * 60000 ≤ cleanup.end_date)
    × (cleanup.end_date ≤ 8200000)
    × (cleanup.creator_id ≡ 9)
    × (worked.confirmed_minutes ≡ some 120)
    × (worked.completed_at ≡ some 8200000)
    × (worked.confirmed_by_id ≡ some 9)
unfolding find
complete_hours_example =
    complete_hours (with present) 1 30 9 8200000 present refl (with worked) worked cleanup 120 refl
      present_unfinished confirms
  where
    present_unfinished : present.status ≢ completed
    present_unfinished e = ground arith

completed-final_example :
    (minutes : ℕ) × (completes 120 ≡ completes minutes)
    × (worked.confirmed_minutes ≡ some minutes)
    × (with worked ≡ with worked)
    × (worked ≡ worked)
unfolding find
completed-final_example =
    completed-final (with worked) 1 30 9 9000000 worked (with worked) worked (completes 120) refl
      refl confirms_again

-- A rounded percentage, a half rounded up.
abbrev rounded : ℕ → ℕ → ℕ
rounded a b = if b == 0 then 0 else (a * 200 + b) / (b * 2)

abbrev both : List EventVolunteer
both = worked ∷ application ∷ []

summary_totals_example :
    (sum_counts (summarize_volunteering rounded (sorter ∷ []) both).counts ≡ length both)
    × ((summarize_volunteering rounded (sorter ∷ []) both).confirmed_places
        ≡ count_if (λ v. is_occupied v.status) both)
    × ((summarize_volunteering rounded (sorter ∷ []) both).confirmed_minutes ≡ confirmed_sum both)
summary_totals_example = summary_totals rounded (sorter ∷ []) both

rounded_mono : (a a' b : ℕ) → a ≤ a' → rounded a b ≤ rounded a' b
rounded_mono a a' b h = elim (Bool-cases (b == 0)) [
  | inl none' ↦ ground (arith, none')
  | inr some' ↦ rw some' (
      (le-div_iff_mul-le {k = b * 2} (ground (arith, some'))).1
        (omega (arith, div-mul-le_self (a * 200 + b) (b * 2))))
]

rounded_full : (b : ℕ) → 0 < b → rounded b b ≡ 100
rounded_full b h = ground (
  arith,
  mul-add-div_right {m = b * 2} (omega arith) 100 b,
  div-eq_of_lt {n = b} {m = b * 2} (omega arith),
)

summary_progress_example :
    ((summarize_volunteering rounded (sorter ∷ []) both).confirmed_places
      ≤ (summarize_volunteering rounded (sorter ∷ []) both).capacity)
    × ((summarize_volunteering rounded (sorter ∷ []) both).recruitment_progress ≤ 100)
unfolding occupancy
summary_progress_example =
    summary_progress rounded ((5, sorter) ∷ []) both rounded_mono rounded_full
      (inl refl, (inl refl, tt)) (omega arith, tt)
