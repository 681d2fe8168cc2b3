-- ===== src/Volunteer.antt =====
-- Volunteering at events: modules/volunteer. The rows of the database that its service reads and
-- writes. Ids are numbers, times are milliseconds; `createdAt` and `updatedAt` are left out.
pub mod Summary
pub mod Service
pub mod Progress
pub mod Capacity
pub mod Updates
pub mod Statuses
pub mod Totals
mod Tests
use Prim.Native.Char.{code}
use Prim.Native.String
use Prim.Native.String.{String}
use gathergo_backend.Base.{
  ℕ, Bool, true, false, ◌&&◌, ◌||◌, Option, none, some, List, ◌==◌, leb, count_if,
}

pub data VolunteerStatus : Type 0 where
  applied accepted declined withdrawn checked_in completed : VolunteerStatus

abbrev pub eq_status : VolunteerStatus → VolunteerStatus → Bool
eq_status applied applied = true
eq_status accepted accepted = true
eq_status declined declined = true
eq_status withdrawn withdrawn = true
eq_status checked_in checked_in = true
eq_status completed completed = true
eq_status _ _ = false

-- `occupiedVolunteerStatuses`
abbrev pub is_occupied : VolunteerStatus → Bool
is_occupied s = eq_status s accepted || eq_status s checked_in || eq_status s completed

pub data RegistrationType : Type 0 where
  ticket registration donation volunteer foodbank : RegistrationType

abbrev pub is_volunteer_type : RegistrationType → Bool
is_volunteer_type volunteer = true
is_volunteer_type ticket = false
is_volunteer_type registration = false
is_volunteer_type donation = false
is_volunteer_type foodbank = false

pub record Event : Type 0 where
  pub creator_id : ℕ
  pub start_date : ℕ
  pub end_date : ℕ
  pub registration_type : RegistrationType
  pub is_physical_event : Bool
  pub impact_description : Option String

pub record VolunteerRole : Type 0 where
  pub event_id : ℕ
  pub title : String
  pub description : String
  pub capacity : ℕ
  pub requires_approval : Bool
  pub is_open : Bool

pub record EventVolunteer : Type 0 where
  pub id : ℕ
  pub event_id : ℕ
  pub role_id : ℕ
  pub user_id : ℕ
  pub status : VolunteerStatus
  pub note : Option String
  pub checked_in_at : Option ℕ
  pub completed_at : Option ℕ
  pub confirmed_minutes : Option ℕ
  pub confirmed_by_id : Option ℕ

-- Events and roles are keyed by their ids.
pub record Db : Type 0 where
  pub events : ℕ → Option Event
  pub roles : ℕ → Option VolunteerRole
  pub volunteers : List EventVolunteer

-- The white space that `trim` removes.
abbrev is_space : ℕ → Bool
is_space c =
    (leb 9 c && leb c 13)
    || c == 32
    || c == 160
    || c == 5760
    || (leb 8192 c && leb c 8202)
    || c == 8232
    || c == 8233
    || c == 8239
    || c == 8287
    || c == 12288
    || c == 65279

unfoldable pub is_blank : String → Bool
is_blank String.[] = true
is_blank (String.◌∷◌ c s) = is_space (code c) && is_blank s

-- `!text?.trim()`
unfoldable pub is_missing : Option String → Bool
unfolding is_blank
is_missing none = true
is_missing (some s) = is_blank s

abbrev pub occupies : ℕ → EventVolunteer → Bool
occupies role_id a = a.role_id == role_id && is_occupied a.status

-- `occupancy`: the applications that hold a place in a role.
unfoldable pub occupancy : ℕ → List EventVolunteer → ℕ
unfolding count_if
occupancy role_id = count_if (occupies role_id)
