-- ===== src/Volunteer/Capacity.antt =====
-- The capacity invariant of volunteer roles.
pub mod Calls
pub mod Roles
pub mod Reach
use Prim.Native.String.{String}
use gathergo_backend.Base.{
  ℕ, suc, ◌+◌, ◌≤◌, ◌<◌, ◌≡◌, ◌≢◌, refl, ◌⊎◌, inl, inr, Bool, true, false, not, ◌&&◌, ◌||◌, Option,
  none, some, List, [], ◌∷◌, ◌++◌, arith, leb, ltb, ◌==◌, if◌then◌else◌, Bool-cases, Option-cases,
  count_if, find, update_first, put, bit, All, All-update_first, All-append, All-find, find-test,
  count_if-update_first, count_if-append, ==_iff,
}
use gathergo_backend.Volunteer.{
  VolunteerStatus, is_occupied, Event, VolunteerRole, EventVolunteer, Db, occupies, occupancy,
}

abbrev pub IsLinked : (ℕ → Option VolunteerRole) → EventVolunteer → Type 0
IsLinked roles a =
    (role : VolunteerRole) × (roles a.role_id ≡ some role) × (role.event_id ≡ a.event_id)

-- Every application is for a role of its event (a foreign key of the schema), and no role has more
-- places taken than its capacity.
pub record Inv (db : Db) : Type 0 where
  pub linked : All (IsLinked db.roles) db.volunteers
  pub within :
      (id : ℕ) (role : VolunteerRole)
      → db.roles id ≡ some role
      → occupancy id db.volunteers ≤ role.capacity

-- The new row `b` takes no place, or keeps the old row's, or there is one free.
abbrev pub HasPlace : Db → EventVolunteer → EventVolunteer → Type 0
HasPlace db a b =
    (is_occupied b.status ≡ false)
    ⊎ ((is_occupied a.status ≡ true) × (a.role_id ≡ b.role_id))
    ⊎ ((role : VolunteerRole) × (db.roles b.role_id ≡ some role)
        × (occupancy b.role_id db.volunteers < role.capacity))

module _ (db : Db) (inv : Inv db) where
  within_update :
      (p : EventVolunteer → Bool) (f : EventVolunteer → EventVolunteer) (a : EventVolunteer)
      → find p db.volunteers ≡ some a
      → HasPlace db a (f a)
      → (id : ℕ) (role : VolunteerRole) → db.roles id ≡ some role
      → occupancy id (update_first p f db.volunteers) ≤ role.capacity
  unfolding occupancy
  within_update p f a e place id role r =
      ground
        (arith, inv.within id role r, count_if-update_first (occupies id) p f db.volunteers a e)

  pub update-Inv :
      (p : EventVolunteer → Bool) (f : EventVolunteer → EventVolunteer) (a : EventVolunteer)
      → find p db.volunteers ≡ some a
      → ((b : EventVolunteer) → p b ≡ true → IsLinked db.roles b → IsLinked db.roles (f b))
      → HasPlace db a (f a)
      → Inv (record db { volunteers = update_first p f db.volunteers })
  update-Inv p f a e keep place = record {
    linked = All-update_first (IsLinked db.roles) p f db.volunteers keep inv.linked;
    within = within_update p f a e place;
  }

  pub insert-Inv :
      (b : EventVolunteer)
      → IsLinked db.roles b
      → HasPlace db (record b { status = VolunteerStatus.applied }) b
      → Inv (record db { volunteers = db.volunteers ++ b ∷ [] })
  unfolding occupancy count_if
  insert-Inv b link place = record {
    linked = All-append (IsLinked db.roles) db.volunteers (b ∷ []) inv.linked (link, tt);
    within = λ id role r.
        ground (arith, inv.within id role r, count_if-append (occupies id) db.volunteers (b ∷ []));
  }
