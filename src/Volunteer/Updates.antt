-- ===== src/Volunteer/Updates.antt =====
-- What each call on an application writes: the row it is given back and the table it leaves.
use gathergo_backend.Base.{
  ℕ, ◌≡◌, ◌≢◌, refl, ◌⊎◌, inl, inr, true, ◌==◌, some, arith, Option-cases, ok, ◌>>=◌, ◌>>◌, find,
  find-test, find-update_first, find-update_other,
}
use gathergo_backend.Volunteer.{
  applied, accepted, withdrawn, checked_in, completed, EventVolunteer, Db,
}
use gathergo_backend.Volunteer.Service.{has_id, find_application, update_application}
use gathergo_backend.Volunteer.Progress.{
  Review, review_status, with_status, review_application, withdraw, check_in, complete,
}

-- The application is stored as the answer says; the row of the other id, the events and the roles are
-- as they were.
abbrev pub IsStored : (db db' : Db) (event_id id other : ℕ) → EventVolunteer → Type 0
IsStored db db' event_id id other b =
    (find_application db' event_id id ≡ some b)
    × (find (has_id other) db'.volunteers ≡ find (has_id other) db.volunteers)
    × (db'.events ≡ db.events)
    × (db'.roles ≡ db.roles)

find_application-find :
    (db : Db) (event_id id : ℕ) (a : EventVolunteer)
    → find_application db event_id id ≡ some a
    → (find (has_id id) db.volunteers ≡ some a) × ((a.event_id == event_id) ≡ true)
find_application-find db event_id id a e = elim (Option-cases (find (has_id id) db.volunteers)) [
  | inl missing ↦ ground (arith, missing)
  | inr (b, found) ↦ (ground (arith, found), ground (arith, found))
]

-- A write that leaves the two ids of each row alone.
pub update-IsStored :
    (db : Db) (event_id id other : ℕ) (a : EventVolunteer) (f : EventVolunteer → EventVolunteer)
    → ((x : EventVolunteer) → (f x).id ≡ x.id)
    → ((x : EventVolunteer) → (f x).event_id ≡ x.event_id)
    → find_application db event_id id ≡ some a
    → other ≢ id
    → IsStored db (update_application db id a f).0 event_id id other (f a)
update-IsStored db event_id id other a f keeps same e ne =
    let (found, here) = find_application-find db event_id id a e in
    let own : has_id id (f a) ≡ true = rw (keeps a) (find-test (has_id id) db.volunteers a found) in
    (
      rw (find_application, find-update_first (has_id id) f db.volunteers a own found)
          (rw (same a) (rw here refl)),
      find-update_other (λ x. x.id) f keeps other id db.volunteers (ground arith),
      refl,
      refl,
    )

module _ (db : Db) (event_id id user_id now : ℕ) (a : EventVolunteer)
    (found : find_application db event_id id ≡ some a) (db' : Db) (b : EventVolunteer) where
  -- The answer of a call that changes nothing, or writes the application with `f`.
  abbrev pub Ends : (EventVolunteer → EventVolunteer) → Type 0 → Type 0
  Ends f Guard =
      ((db' ≡ db) × (b ≡ a)) ⊎ (Guard × (db' ≡ (update_application db id a f).0) × (b ≡ f a))

  pub review-Ends :
      (r : Review)
      → review_application db event_id id user_id r now ≡ ok (db', b)
      → Ends (with_status (review_status r)) (a.status ≡ applied)
  unfolding review_application ◌>>=◌ ◌>>◌
  review-Ends r e = ground (arith, found)

  pub withdraw-Ends :
      withdraw db event_id id user_id now ≡ ok (db', b)
      → Ends (with_status withdrawn) ((a.status ≡ applied) ⊎ (a.status ≡ accepted))
  unfolding withdraw ◌>>=◌ ◌>>◌
  withdraw-Ends e = ground (arith, found)

  pub check_in-Ends :
      check_in db event_id id user_id now ≡ ok (db', b)
      → Ends (λ x. record x { status = checked_in; checked_in_at = some now }) (a.status ≡ accepted)
  unfolding check_in ◌>>=◌ ◌>>◌
  check_in-Ends e = ground (arith, found)

  pub complete-Ends :
      (minutes : ℕ)
      → complete db event_id id user_id minutes now ≡ ok (db', b)
      → Ends
          (λ x. record x {
            status = completed;
            completed_at = some now;
            confirmed_minutes = some minutes;
            confirmed_by_id = some user_id;
          })
          (a.status ≡ checked_in)
  unfolding complete ◌>>=◌ ◌>>◌
  complete-Ends minutes e = ground (arith, found)
