-- ===== src/Volunteer/Capacity/Reach.antt =====
-- Histories of calls of the volunteer service, with event edits of other services in between.
use Prim.Native.String.{String}
use gathergo_backend.Base.{ℕ, ◌≤◌, ◌≡◌, Option, none, some, [], ok, Keeps-ok, arith}
use gathergo_backend.Volunteer.{Event, VolunteerRole, EventVolunteer, Db, occupancy}
use gathergo_backend.Volunteer.Service.{
  apply, CreateVolunteerRoleDto, UpdateVolunteerRoleDto, create_role, update_role,
}
use gathergo_backend.Volunteer.Progress.{Review, review_application, withdraw, check_in, complete}
use gathergo_backend.Volunteer.Capacity.{Inv}
use gathergo_backend.Volunteer.Capacity.Calls.{review-Inv, withdraw-Inv, check_in-Inv, complete-Inv}
use gathergo_backend.Volunteer.Capacity.Roles.{apply-Inv, create_role-Inv, update_role-Inv}

-- A call that answers, or an edit of events elsewhere. A call that throws changes nothing.
pub data Step (db : Db) (db' : Db) : Type 0 where
  creates :
      (event_id user_id : ℕ) (dto : CreateVolunteerRoleDto) (now id : ℕ) (role : VolunteerRole)
      → db.roles id ≡ none
      → create_role db event_id user_id dto now id ≡ ok (db', role)
      → Step db db'
  updates :
      (event_id role_id user_id : ℕ) (dto : UpdateVolunteerRoleDto) (now : ℕ) (role : VolunteerRole)
      → update_role db event_id role_id user_id dto now ≡ ok (db', role)
      → Step db db'
  applies :
      (event_id role_id user_id : ℕ) (note : Option String) (now id : ℕ) (a : EventVolunteer)
      → apply db event_id role_id user_id note now id ≡ ok (db', a)
      → Step db db'
  reviews :
      (event_id id user_id : ℕ) (r : Review) (now : ℕ) (a : EventVolunteer)
      → review_application db event_id id user_id r now ≡ ok (db', a)
      → Step db db'
  withdraws :
      (event_id id user_id now : ℕ) (a : EventVolunteer)
      → withdraw db event_id id user_id now ≡ ok (db', a)
      → Step db db'
  checks_in :
      (event_id id user_id now : ℕ) (a : EventVolunteer)
      → check_in db event_id id user_id now ≡ ok (db', a)
      → Step db db'
  completes :
      (event_id id user_id minutes now : ℕ) (a : EventVolunteer)
      → complete db event_id id user_id minutes now ≡ ok (db', a)
      → Step db db'
  edits_events : (events : ℕ → Option Event) → db' ≡ record db { events = events } → Step db db'

pub data Reach (start : Db) : Db → Type 0 where
  here : Reach start start
  next : {db db' : Db} → Reach start db → Step db db' → Reach start db'

edit-Inv : (db : Db) (events : ℕ → Option Event) → Inv db → Inv (record db { events = events })
edit-Inv db events inv = record { linked = inv.linked; within = inv.within }

Step-Inv : (db db' : Db) → Step db db' → Inv db → Inv db'
Step-Inv db db' (creates e u dto now id role fresh r) inv =
    Keeps-ok Inv _ _ (create_role-Inv db e u dto now id fresh inv) r
Step-Inv db db' (updates e k u dto now role r) inv =
    Keeps-ok Inv _ _ (update_role-Inv db e k u dto now inv) r
Step-Inv db db' (applies e k u note now id a r) inv =
    Keeps-ok Inv _ _ (apply-Inv db e k u note now id inv) r
Step-Inv db db' (reviews e id u review now a r) inv =
    Keeps-ok Inv _ _ (review-Inv db e id u review now inv) r
Step-Inv db db' (withdraws e id u now a r) inv = Keeps-ok Inv _ _ (withdraw-Inv db e id u now inv) r
Step-Inv db db' (checks_in e id u now a r) inv = Keeps-ok Inv _ _ (check_in-Inv db e id u now inv) r
Step-Inv db db' (completes e id u minutes now a r) inv =
    Keeps-ok Inv _ _ (complete-Inv db e id u minutes now inv) r
Step-Inv db db' (edits_events events e) inv = rw e (edit-Inv db events inv)

Reach-Inv : {start db : Db} → Inv start → Reach start db → Inv db
Reach-Inv inv here = inv
Reach-Inv inv (next {db} {db'} r st) = Step-Inv db db' st (Reach-Inv inv r)

start-Inv : (start : Db) → start.volunteers ≡ [] → Inv start
unfolding occupancy
start-Inv start e = record { linked = rw e tt; within = λ id role r. rw e (omega arith) }

-- From a database with no volunteers, whatever handlers of the service answer in whatever order, with
-- new roles under unused identifiers and with any edits of events in between: no role has more
-- accepted, checked-in and completed volunteers than its capacity.
pub Reach-within_capacity :
    (start db : Db) (id : ℕ) (role : VolunteerRole)
    → start.volunteers ≡ []
    → Reach start db
    → db.roles id ≡ some role
    → occupancy id db.volunteers ≤ role.capacity
Reach-within_capacity start db id role e r there =
    (Reach-Inv (start-Inv start e) r).within id role there
