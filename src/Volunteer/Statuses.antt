-- ===== src/Volunteer/Statuses.antt =====
-- How the status of an application moves.
use gathergo_backend.Base.{
  ℕ, ◌+◌, ◌*◌, ◌≤◌, ◌≡◌, ◌≢◌, refl, ◌⊎◌, inl, inr, some, arith, Option-cases, Result, ok, ◌>>=◌,
  ◌>>◌,
}
use gathergo_backend.Volunteer.{
  applied, accepted, declined, withdrawn, checked_in, completed, Event, EventVolunteer, Db,
}
use gathergo_backend.Volunteer.Service.{find_application, VolunteerError}
use gathergo_backend.Volunteer.Progress.{
  Review, accept, decline, review_status, with_status, review_application, withdraw, check_in,
  complete,
}
use gathergo_backend.Volunteer.Updates.{
  Ends, IsStored, update-IsStored, review-Ends, withdraw-Ends, check_in-Ends, complete-Ends,
}

-- The moves of an application: what each changes of its row, by whom and when.
pub data Move (user_id now : ℕ) : EventVolunteer → EventVolunteer → Type 0 where
  stays : (a : EventVolunteer) → Move user_id now a a
  accepts :
      (a : EventVolunteer)
      → a.status ≡ applied
      → Move user_id now a (record a { status = accepted })
  declines :
      (a : EventVolunteer)
      → a.status ≡ applied
      → Move user_id now a (record a { status = declined })
  withdraws :
      (a : EventVolunteer)
      → (a.status ≡ applied) ⊎ (a.status ≡ accepted)
      → Move user_id now a (record a { status = withdrawn })
  arrives :
      (a : EventVolunteer)
      → a.status ≡ accepted
      → Move user_id now a (record a { status = checked_in; checked_in_at = some now })
  finishes :
      (a : EventVolunteer) (minutes : ℕ)
      → a.status ≡ checked_in
      → Move user_id now a (record a {
        status = completed;
        completed_at = some now;
        confirmed_minutes = some minutes;
        confirmed_by_id = some user_id;
      })

-- A call on an application that has been made.
pub data Call : Type 0 where
  reviews : Review → Call
  withdraws : Call
  checks_in : Call
  completes : ℕ → Call

abbrev pub run :
    Call → Db → (event_id id user_id now : ℕ) → Result VolunteerError (Db × EventVolunteer)
run (reviews r) db event_id id user_id now = review_application db event_id id user_id r now
run withdraws db event_id id user_id now = withdraw db event_id id user_id now
run checks_in db event_id id user_id now = check_in db event_id id user_id now
run (completes minutes) db event_id id user_id now = complete db event_id id user_id minutes now

module _ (db : Db) (event_id id user_id now : ℕ) (a : EventVolunteer)
    (found : find_application db event_id id ≡ some a) (db' : Db) (b : EventVolunteer) where
  -- What a call promises of an application and of another id.
  abbrev IsMoved : ℕ → Type 0
  IsMoved other = Move user_id now a b × IsStored db db' event_id id other b

  Ends-IsMoved :
      (f : EventVolunteer → EventVolunteer) (Guard : Type 0) (other : ℕ)
      → ((x : EventVolunteer) → (f x).id ≡ x.id)
      → ((x : EventVolunteer) → (f x).event_id ≡ x.event_id)
      → other ≢ id
      → (Guard → Move user_id now a (f a))
      → Ends db event_id id user_id now a found db' b f Guard
      → IsMoved other
  Ends-IsMoved f Guard other keeps same ne move (inl (e, g)) =
      rw (e, g) (stays a, (found, refl, refl, refl))
  Ends-IsMoved f Guard other keeps same ne move (inr (guard, e, g)) =
      rw (e, g) (move guard, update-IsStored db event_id id other a f keeps same found ne)

  review-Move :
      (r : Review) → a.status ≡ applied → Move user_id now a (with_status (review_status r) a)
  review-Move accept e = accepts a e
  review-Move decline e = declines a e

  -- Whatever a review, a withdrawal, a check-in or a confirmation answers for an application of the
  -- event is that application as it was, or moved along one of the allowed moves with no column
  -- changed but those of the move. The table then holds it as it is answered; the application of any
  -- other id is as it was, and so are the events and the roles.
  pub status-Move :
      (c : Call) (other : ℕ)
      → other ≢ id
      → run c db event_id id user_id now ≡ ok (db', b)
      → Move user_id now a b × IsStored db db' event_id id other b
  status-Move (reviews r) other ne e =
      Ends-IsMoved _ _ other (λ x. refl) (λ x. refl) ne (review-Move r)
        (review-Ends db event_id id user_id now a found db' b r e)
  status-Move withdraws other ne e =
      Ends-IsMoved _ _ other (λ x. refl) (λ x. refl) ne (Move.withdraws a)
        (withdraw-Ends db event_id id user_id now a found db' b e)
  status-Move checks_in other ne e =
      Ends-IsMoved _ _ other (λ x. refl) (λ x. refl) ne (arrives a)
        (check_in-Ends db event_id id user_id now a found db' b e)
  status-Move (completes minutes) other ne e =
      Ends-IsMoved _ _ other (λ x. refl) (λ x. refl) ne (finishes a minutes)
        (complete-Ends db event_id id user_id now a found db' b minutes e)

  -- Work that is confirmed for the first time is confirmed after the event's end, of a volunteer who
  -- is checked in, for no more minutes than lie between the check-in and the end, and it is recorded
  -- with the organiser and the time.
  pub complete_hours :
      (event : Event) (minutes : ℕ)
      → db.events event_id ≡ some event
      → a.status ≢ completed
      → complete db event_id id user_id minutes now ≡ ok (db', b)
      → (at : ℕ) × (a.checked_in_at ≡ some at)
        × (a.status ≡ checked_in)
        × (at + minutes * 60000 ≤ event.end_date)
        × (event.end_date ≤ now)
        × (event.creator_id ≡ user_id)
        × (b.confirmed_minutes ≡ some minutes)
        × (b.completed_at ≡ some now)
        × (b.confirmed_by_id ≡ some user_id)
  unfolding complete ◌>>=◌ ◌>>◌
  complete_hours event minutes here fresh e = elim (Option-cases a.checked_in_at) [
    | inl none' ↦ ground (arith, found)
    | inr (at, checked) ↦ (
      at,
      checked,
      ground (arith, found),
      ground (arith, found),
      ground (arith, found),
      ground (arith, found),
      ground (arith, found),
      ground (arith, found),
      ground (arith, found),
    )
  ]

-- A confirmed application is final: of the calls on it only a confirmation answers, and that only for
-- the minutes that are recorded, with the application as it stands and nothing changed.
pub completed-final :
    (db : Db) (event_id id user_id now : ℕ) (a : EventVolunteer) (db' : Db) (b : EventVolunteer)
    (c : Call)
    → find_application db event_id id ≡ some a
    → a.status ≡ completed
    → run c db event_id id user_id now ≡ ok (db', b)
    → (minutes : ℕ) × (c ≡ completes minutes)
      × (a.confirmed_minutes ≡ some minutes)
      × (db' ≡ db)
      × (b ≡ a)
unfolding review_application withdraw check_in complete ◌>>=◌ ◌>>◌
completed-final db event_id id user_id now a db' b (reviews accept) found done e =
    ground (arith, found, done)
completed-final db event_id id user_id now a db' b (reviews decline) found done e =
    ground (arith, found, done)
completed-final db event_id id user_id now a db' b withdraws found done e =
    ground (arith, found, done)
completed-final db event_id id user_id now a db' b checks_in found done e =
    ground (arith, found, done)
completed-final db event_id id user_id now a db' b (completes minutes) found done e = (
  minutes,
  refl,
  ground (arith, found, done),
  ground (arith, found, done),
  ground (arith, found, done),
)
