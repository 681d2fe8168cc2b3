-- ===== src/Volunteer/Capacity/Calls.antt =====
-- The capacity invariant under reviews, withdrawals, check-ins and confirmations.
use gathergo_backend.Base.{
  ℕ, ◌<◌, ◌≡◌, refl, inl, inr, true, not, Option, none, some, arith, Option-cases, find, ok, Keeps,
  kept, threw, Keeps->>=, Keeps->>, Keeps-if, throw_if, or_throw-eq-ok, ◌>>=◌, ◌>>◌,
}
use gathergo_backend.Volunteer.{
  VolunteerStatus, accepted, withdrawn, checked_in, completed, eq_status, is_occupied, Event,
  VolunteerRole, EventVolunteer, Db, occupancy,
}
use gathergo_backend.Volunteer.Service.{
  find_application, find_role, has_id, update_application, not_accepted, not_checked_in,
}
use gathergo_backend.Volunteer.Progress.{
  Review, accept, decline, review_status, assert_place, with_status, review_pending,
  review_application, withdraw, check_in, complete, confirm_work, has_minutes,
}
use gathergo_backend.Volunteer.Capacity.{IsLinked, Inv, HasPlace, update-Inv}

find_application-found :
    (db : Db) (event_id id : ℕ) (a : EventVolunteer)
    → find_application db event_id id ≡ some a
    → (find (has_id id) db.volunteers ≡ some a) × (a.event_id ≡ event_id)
find_application-found db event_id id a e = ground arith

pub find_role-found :
    (db : Db) (event_id id : ℕ) (role : VolunteerRole)
    → find_role db event_id id ≡ some role
    → (db.roles id ≡ some role) × (role.event_id ≡ event_id)
find_role-found db event_id id role e = ground arith

-- A change of an application that keeps its role and event, and takes no place that is not free.
change-Inv :
    (db : Db) (event_id id : ℕ) (a : EventVolunteer) (f : EventVolunteer → EventVolunteer)
    → Inv db
    → find_application db event_id id ≡ some a
    → ((b : EventVolunteer) → IsLinked db.roles b → IsLinked db.roles (f b))
    → HasPlace db a (f a)
    → Inv (update_application db id a f).0
change-Inv db event_id id a f inv found keep place =
    update-Inv db inv (has_id id) f a (find_application-found db event_id id a found).0
      (λ b _. keep b) place

place-lt :
    (db : Db) (event_id role_id : ℕ) (u : Unit {0})
    → assert_place db event_id role_id accept ≡ ok u
    → (role : VolunteerRole) × (db.roles role_id ≡ some role)
      × (occupancy role_id db.volunteers < role.capacity)
unfolding assert_place ◌>>=◌ ◌>>◌
place-lt db event_id role_id u e = elim (Option-cases (db.roles role_id)) [
  | inl missing ↦ ground arith
  | inr (role, found) ↦ (role, found, ground arith)
]

review-place :
    (db : Db) (event_id : ℕ) (a : EventVolunteer) (r : Review) (u : Unit {0})
    → assert_place db event_id a.role_id r ≡ ok u
    → HasPlace db a (with_status (review_status r) a)
unfolding assert_place ◌>>=◌ ◌>>◌
review-place db event_id a accept u e = inr (inr (place-lt db event_id a.role_id u e))
review-place db event_id a decline u e = inl refl

review_pending-Inv :
    (db : Db) (event_id id : ℕ) (a : EventVolunteer) (r : Review)
    → Inv db
    → find_application db event_id id ≡ some a
    → Keeps Inv (review_pending db event_id id a r)
unfolding review_pending
review_pending-Inv db event_id id a r inv found = Keeps->> _ _ λ _. Keeps->> _ _ λ placed. kept _ (
    change-Inv db event_id id a _ inv found (λ b link. link)
      (review-place db event_id a r tt placed))

pub review-Inv :
    (db : Db) (event_id id user_id : ℕ) (r : Review) (now : ℕ)
    → Inv db
    → Keeps Inv (review_application db event_id id user_id r now)
unfolding review_application
review-Inv db event_id id user_id r now inv = Keeps->>= _ _ λ event _. Keeps->> _ _ λ _.
    Keeps->> _ _ λ _. Keeps->> _ _ λ _. Keeps->>= _ _ λ a got.
      Keeps-if (eq_status a.status (review_status r)) (ok (db, a)) _ (λ _. kept _ inv)
        λ _.
          review_pending-Inv db event_id id a r inv
            (or_throw-eq-ok (find_application db event_id id) _ got)

pub withdraw-Inv :
    (db : Db) (event_id id user_id now : ℕ)
    → Inv db
    → Keeps Inv (withdraw db event_id id user_id now)
unfolding withdraw
withdraw-Inv db event_id id user_id now inv = Keeps->>= _ _ λ event _. Keeps->>= _ _ λ a got.
    Keeps->> _ _ λ _.
      Keeps-if (eq_status a.status withdrawn) (ok (db, a)) _ (λ _. kept _ inv)
        λ _. Keeps->> _ _ λ _. Keeps->> _ _ λ _. kept _ (
          change-Inv db event_id id a _ inv (or_throw-eq-ok (find_application db event_id id) _ got)
            (λ b link. link) (inl refl))

accepted-is_occupied : (s : VolunteerStatus) → eq_status s accepted ≡ true → is_occupied s ≡ true
accepted-is_occupied s e = ground arith

pub check_in-Inv :
    (db : Db) (event_id id user_id now : ℕ)
    → Inv db
    → Keeps Inv (check_in db event_id id user_id now)
unfolding check_in
check_in-Inv db event_id id user_id now inv = Keeps->>= _ _ λ event _. Keeps->> _ _ λ _.
    Keeps->> _ _ λ _. Keeps->>= _ _ λ a got.
      Keeps-if (eq_status a.status checked_in) (ok (db, a)) _ (λ _. kept _ inv)
        λ _. Keeps->> _ _ λ standing. kept _ (
          change-Inv db event_id id a _ inv (or_throw-eq-ok (find_application db event_id id) _ got)
            (λ b link. link) (inr (inl (held a.status standing, refl))))
  where
    held :
        (s : VolunteerStatus)
        → throw_if (not (eq_status s accepted)) not_accepted ≡ ok tt
        → is_occupied s ≡ true
    held s e = ground arith

confirm_work-Inv :
    (db : Db) (event_id : ℕ) (event : Event) (id : ℕ) (a : EventVolunteer) (user_id minutes now : ℕ)
    (checked : Option ℕ)
    → Inv db
    → find_application db event_id id ≡ some a
    → Keeps Inv (confirm_work db event id a user_id minutes now checked)
unfolding confirm_work
confirm_work-Inv db event_id event id a user_id minutes now none inv found = threw _
confirm_work-Inv db event_id event id a user_id minutes now (some at) inv found =
    Keeps->> _ _ λ standing. Keeps->> _ _ λ _. kept _ (
      change-Inv db event_id id a _ inv found (λ b link. link)
        (inr (inl (held a.status standing, refl))))
  where
    held :
        (s : VolunteerStatus)
        → throw_if (not (eq_status s checked_in)) not_checked_in ≡ ok tt
        → is_occupied s ≡ true
    held s e = ground arith

pub complete-Inv :
    (db : Db) (event_id id user_id minutes now : ℕ)
    → Inv db
    → Keeps Inv (complete db event_id id user_id minutes now)
unfolding complete
complete-Inv db event_id id user_id minutes now inv = Keeps->>= _ _ λ event _. Keeps->> _ _ λ _.
    Keeps->> _ _ λ _. Keeps->>= _ _ λ a got.
      Keeps-if (eq_status a.status completed) _ _
        (λ _.
          Keeps-if (has_minutes a.confirmed_minutes minutes) (ok (db, a)) _ (λ _. kept _ inv)
            (λ _. threw _))
        λ _.
          confirm_work-Inv db event_id event id a user_id minutes now a.checked_in_at inv
            (or_throw-eq-ok (find_application db event_id id) _ got)
