-- ===== src/Volunteer/Progress.antt =====
-- volunteer.service.ts, from `review` on: how an application moves on once it is made.
use gathergo_backend.Base.{
  ℕ, ◌-◌, ◌/◌, Bool, false, not, ◌&&◌, ◌||◌, Option, none, some, ltb, leb, ◌==◌, if◌then◌else◌,
  Result, ok, err, throw_if, ◌>>=◌, ◌>>◌, find, update_first,
}
use gathergo_backend.Volunteer.{
  VolunteerStatus, applied, accepted, declined, withdrawn, checked_in, completed, eq_status, Event,
  EventVolunteer, Db, occupancy,
}
use gathergo_backend.Volunteer.Service.{
  VolunteerError, not_own_application, role_closed, role_full, not_pending, cannot_withdraw,
  outside_event, not_accepted, event_not_over, already_confirmed, not_checked_in, too_many_minutes,
  assert_event, assert_owner, assert_recruiting, get_event, get_role, get_application,
  update_application,
}

-- The two statuses that a review may give.
pub data Review : Type 0 where
  accept decline : Review

abbrev pub review_status : Review → VolunteerStatus
review_status accept = accepted
review_status decline = declined

-- A place is needed only where the application is accepted.
unfoldable pub assert_place :
    Db → (event_id role_id : ℕ) → Review → Result VolunteerError (Unit {0})
assert_place db event_id role_id decline = ok tt
assert_place db event_id role_id accept = do
  role ← get_role db event_id role_id
  throw_if (not role.is_open) role_closed
  throw_if (leb role.capacity (occupancy role_id db.volunteers)) role_full

abbrev pub with_status : VolunteerStatus → EventVolunteer → EventVolunteer
with_status status a = record a { status = status }

unfoldable pub review_pending :
    Db
    → (event_id application_id : ℕ) → EventVolunteer
    → Review
    → Result VolunteerError (Db × EventVolunteer)
review_pending db event_id application_id a review = do
  throw_if (not (eq_status a.status applied)) not_pending
  assert_place db event_id a.role_id review
  ok (update_application db application_id a (with_status (review_status review)))

unfoldable pub review_application :
    Db
    → (event_id application_id user_id : ℕ) → Review
    → (now : ℕ) → Result VolunteerError (Db × EventVolunteer)
unfolding find update_first assert_place review_pending
review_application db event_id application_id user_id review now = do
  event ← get_event db event_id
  assert_owner event user_id
  assert_event event
  assert_recruiting event now
  a ← get_application db event_id application_id
  if eq_status a.status (review_status review)
      then ok (db, a)
      else review_pending db event_id application_id a review

unfoldable pub withdraw_standing :
    Db → Event → ℕ → EventVolunteer → (now : ℕ) → Result VolunteerError (Db × EventVolunteer)
withdraw_standing db event application_id a now = do
  assert_recruiting event now
  throw_if (not (eq_status a.status applied) && not (eq_status a.status accepted)) cannot_withdraw
  ok (update_application db application_id a (with_status withdrawn))

unfoldable pub withdraw :
    Db → (event_id application_id user_id now : ℕ) → Result VolunteerError (Db × EventVolunteer)
unfolding find update_first withdraw_standing
withdraw db event_id application_id user_id now = do
  event ← get_event db event_id
  a ← get_application db event_id application_id
  throw_if (not (a.user_id == user_id)) not_own_application
  if eq_status a.status withdrawn
      then ok (db, a)
      else withdraw_standing db event application_id a now

unfoldable pub check_in_accepted :
    Db → ℕ → EventVolunteer → (now : ℕ) → Result VolunteerError (Db × EventVolunteer)
check_in_accepted db application_id a now = do
  throw_if (not (eq_status a.status accepted)) not_accepted
  ok (
      update_application db application_id a
        (λ b. record b { status = checked_in; checked_in_at = some now }))

unfoldable pub check_in :
    Db → (event_id application_id user_id now : ℕ) → Result VolunteerError (Db × EventVolunteer)
unfolding find update_first check_in_accepted
check_in db event_id application_id user_id now = do
  event ← get_event db event_id
  assert_owner event user_id
  throw_if (ltb now event.start_date || leb event.end_date now) outside_event
  a ← get_application db event_id application_id
  if eq_status a.status checked_in then ok (db, a) else check_in_accepted db application_id a now

abbrev pub has_minutes : Option ℕ → ℕ → Bool
has_minutes none minutes = false
has_minutes (some n) minutes = n == minutes

-- The minutes between check-in and the end, rounded down: below zero, and so below the confirmed
-- minutes, where the event was moved to end before the check-in.
abbrev pub exceeds_available : (end_date checked_in_at confirmed_minutes : ℕ) → Bool
exceeds_available end_date checked_in_at confirmed_minutes =
    ltb end_date checked_in_at || ltb ((end_date - checked_in_at) / 60000) confirmed_minutes

unfoldable pub confirm_work :
    Db
    → Event
    → ℕ
    → EventVolunteer
    → (user_id confirmed_minutes now : ℕ) → Option ℕ
    → Result VolunteerError (Db × EventVolunteer)
confirm_work db event application_id a user_id minutes now none = err not_checked_in
confirm_work db event application_id a user_id minutes now (some checked_in_at) = do
  throw_if (not (eq_status a.status checked_in)) not_checked_in
  throw_if (exceeds_available event.end_date checked_in_at minutes) too_many_minutes
  ok (
      update_application db application_id a (λ b. record b {
        status = completed;
        completed_at = some now;
        confirmed_minutes = some minutes;
        confirmed_by_id = some user_id;
      }))

unfoldable pub complete :
    Db
    → (event_id application_id user_id confirmed_minutes now : ℕ)
    → Result VolunteerError (Db × EventVolunteer)
unfolding find update_first confirm_work
complete db event_id application_id user_id minutes now = do
  event ← get_event db event_id
  assert_owner event user_id
  throw_if (ltb now event.end_date) event_not_over
  a ← get_application db event_id application_id
  if eq_status a.status completed
      then (if has_minutes a.confirmed_minutes minutes then ok (db, a) else err already_confirmed)
      else confirm_work db event application_id a user_id minutes now a.checked_in_at
