-- ===== src/Volunteer/Service.antt =====
-- volunteer.service.ts: each handler is a function from the database to the new one with its answer,
-- or to the exception, which rolls the transaction back. `withEvent` locks the event's row, so the
-- handlers of one event run one after another. `now` is the clock's reading in the handler, `id` the
-- identifier that the database gives to a row that is created.
use Prim.Native.String.{String}
use gathergo_backend.Base.{
  ℕ, Bool, true, false, not, ◌&&◌, ◌||◌, Option, none, some, [], ◌∷◌, ◌++◌, ltb, leb, ◌==◌,
  if◌then◌else◌, or_else, Result, ok, err, throw_if, or_throw, ◌>>=◌, ◌>>◌, find, update_first, put,
}
use gathergo_backend.Volunteer.{
  VolunteerStatus, applied, accepted, declined, withdrawn, eq_status, Event, VolunteerRole,
  EventVolunteer, Db, occupancy,
}
use gathergo_backend.Volunteer.Summary.{EventError, assert_volunteer_event}

pub data VolunteerError : Type 0 where
  event_not_found role_not_found application_not_found : VolunteerError
  not_owner not_own_application : VolunteerError
  not_recruiting organiser_cannot_apply role_closed role_full already_applied : VolunteerError
  capacity_below_places not_pending cannot_withdraw : VolunteerError
  outside_event not_accepted event_not_over already_confirmed not_checked_in : VolunteerError
  too_many_minutes : VolunteerError
  event_error : EventError → VolunteerError

abbrev pub of_event_error : {A : Type 0} → Result EventError A → Result VolunteerError A
of_event_error (ok a) = ok a
of_event_error (err e) = err (event_error e)

abbrev pub assert_event : Event → Result VolunteerError (Unit {0})
assert_event event = of_event_error (assert_volunteer_event event)

abbrev pub assert_owner : Event → ℕ → Result VolunteerError (Unit {0})
assert_owner event user_id = throw_if (not (event.creator_id == user_id)) not_owner

abbrev pub assert_recruiting : Event → ℕ → Result VolunteerError (Unit {0})
assert_recruiting event now = throw_if (leb event.start_date now) not_recruiting

abbrev pub get_event : Db → ℕ → Result VolunteerError Event
get_event db event_id = or_throw (db.events event_id) event_not_found

-- `findFirst({ where: { id, eventId } })` on a primary key.
abbrev pub in_event : ℕ → VolunteerRole → Option VolunteerRole
in_event event_id role = if role.event_id == event_id then some role else none

abbrev pub find_role : Db → ℕ → ℕ → Option VolunteerRole
find_role db event_id role_id = elim (db.roles role_id) [
  | none ↦ none
  | some role ↦ in_event event_id role
]

abbrev pub get_role : Db → ℕ → ℕ → Result VolunteerError VolunteerRole
get_role db event_id role_id = or_throw (find_role db event_id role_id) role_not_found

abbrev pub has_id : ℕ → EventVolunteer → Bool
has_id id a = a.id == id

abbrev pub application_in_event : ℕ → EventVolunteer → Option EventVolunteer
application_in_event event_id a = if a.event_id == event_id then some a else none

abbrev pub find_application : Db → ℕ → ℕ → Option EventVolunteer
find_application db event_id id = elim (find (has_id id) db.volunteers) [
  | none ↦ none
  | some a ↦ application_in_event event_id a
]

abbrev pub get_application : Db → ℕ → ℕ → Result VolunteerError EventVolunteer
get_application db event_id id = or_throw (find_application db event_id id) application_not_found

-- `eventVolunteer.update({ where: { id }, data })`, with the row that it answers.
abbrev pub update_application :
    Db → ℕ → EventVolunteer → (EventVolunteer → EventVolunteer) → Db × EventVolunteer
update_application db id a f =
    (record db { volunteers = update_first (has_id id) f db.volunteers }, f a)

pub record CreateVolunteerRoleDto : Type 0 where
  pub title : String
  pub description : String
  pub capacity : ℕ
  pub requires_approval : Option Bool

pub record UpdateVolunteerRoleDto : Type 0 where
  pub title : Option String
  pub description : Option String
  pub capacity : Option ℕ
  pub requires_approval : Option Bool
  pub is_open : Option Bool

-- The two columns that the request leaves out have the default true.
unfoldable pub create_role :
    Db
    → (event_id user_id : ℕ) → CreateVolunteerRoleDto
    → (now id : ℕ) → Result VolunteerError (Db × VolunteerRole)
create_role db event_id user_id dto now id = do
  event ← get_event db event_id
  assert_owner event user_id
  assert_event event
  assert_recruiting event now
  let role : VolunteerRole = record {
    event_id = event_id;
    title = dto.title;
    description = dto.description;
    capacity = dto.capacity;
    requires_approval = or_else dto.requires_approval true;
    is_open = true;
  }
  ok (record db { roles = put db.roles id role }, role)

abbrev pub capacity_too_low : Option ℕ → ℕ → Bool
capacity_too_low none occupied = false
capacity_too_low (some capacity) occupied = ltb capacity occupied

unfoldable pub update_role :
    Db
    → (event_id role_id user_id : ℕ) → UpdateVolunteerRoleDto
    → (now : ℕ) → Result VolunteerError (Db × VolunteerRole)
update_role db event_id role_id user_id dto now = do
  event ← get_event db event_id
  assert_owner event user_id
  assert_event event
  assert_recruiting event now
  role ← get_role db event_id role_id
  throw_if (capacity_too_low dto.capacity (occupancy role_id db.volunteers)) capacity_below_places
  let role' : VolunteerRole = record {
    event_id = role.event_id;
    title = or_else dto.title role.title;
    description = or_else dto.description role.description;
    capacity = or_else dto.capacity role.capacity;
    requires_approval = or_else dto.requires_approval role.requires_approval;
    is_open = or_else dto.is_open role.is_open;
  }
  ok (record db { roles = put db.roles role_id role' }, role')

-- The unique key of an application.
abbrev pub of_user : (event_id user_id : ℕ) → EventVolunteer → Bool
of_user event_id user_id a = a.event_id == event_id && a.user_id == user_id

abbrev pub is_over : VolunteerStatus → Bool
is_over s = eq_status s withdrawn || eq_status s declined

abbrev pub initial_status : VolunteerRole → VolunteerStatus
initial_status role = if role.requires_approval then applied else accepted

abbrev pub new_application :
    (event_id role_id user_id : ℕ) → VolunteerStatus → Option String → ℕ → EventVolunteer
new_application event_id role_id user_id status note id = record {
  id = id;
  event_id = event_id;
  role_id = role_id;
  user_id = user_id;
  status = status;
  note = note;
  checked_in_at = none;
  completed_at = none;
  confirmed_minutes = none;
  confirmed_by_id = none;
}

-- The upsert of `apply`: a new row, or the old one with a new role, note and status.
abbrev pub upsert_application :
    Db
    → (event_id role_id user_id : ℕ) → VolunteerStatus
    → Option String
    → ℕ
    → Option EventVolunteer
    → Db × EventVolunteer
upsert_application db event_id role_id user_id status note id none =
    let a = new_application event_id role_id user_id status note id in
    (record db { volunteers = db.volunteers ++ a ∷ [] }, a)
upsert_application db event_id role_id user_id status note id (some existing) =
    let f = λ (a : EventVolunteer).
      let a' : EventVolunteer = record a { role_id = role_id; note = note; status = status } in
      a' in
    (record db { volunteers = update_first (of_user event_id user_id) f db.volunteers }, f existing)

unfoldable pub admit_application :
    Db
    → (event_id role_id user_id : ℕ) → VolunteerRole
    → Option String
    → ℕ
    → Option EventVolunteer
    → Result VolunteerError (Db × EventVolunteer)
admit_application db event_id role_id user_id role note id existing = do
  throw_if (leb role.capacity (occupancy role_id db.volunteers)) role_full
  ok (upsert_application db event_id role_id user_id (initial_status role) note id existing)

-- An application that is neither withdrawn nor declined stands: for the same role it is the answer.
unfoldable pub apply_again :
    Db
    → (event_id role_id user_id : ℕ) → VolunteerRole
    → Option String
    → ℕ
    → Option EventVolunteer
    → Result VolunteerError (Db × EventVolunteer)
apply_again db event_id role_id user_id role note id none =
    admit_application db event_id role_id user_id role note id none
apply_again db event_id role_id user_id role note id (some a) =
    if not (is_over a.status)
    then (if a.role_id == role_id then ok (db, a) else err already_applied)
    else admit_application db event_id role_id user_id role note id (some a)

unfoldable pub apply :
    Db
    → (event_id role_id user_id : ℕ) → Option String
    → (now id : ℕ) → Result VolunteerError (Db × EventVolunteer)
unfolding find update_first admit_application apply_again
apply db event_id role_id user_id note now id = do
  event ← get_event db event_id
  assert_event event
  assert_recruiting event now
  throw_if (event.creator_id == user_id) organiser_cannot_apply
  role ← get_role db event_id role_id
  throw_if (not role.is_open) role_closed
  apply_again db event_id role_id user_id role note id
      (find (of_user event_id user_id) db.volunteers)
