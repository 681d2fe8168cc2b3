-- ===== src/FoodBank/Service.antt =====
-- food-bank.service.ts: the calls that write passes and the state of the collection.
use gathergo_backend.Base.{
  ℕ, ◌+◌, ◌-◌, Bool, true, false, not, ◌&&◌, ◌||◌, Option, none, some, List, [], ◌∷◌, ◌++◌, map,
  ltb, leb, ◌==◌, if◌then◌else◌, Result, ok, err, throw_if, or_throw, ◌>>=◌, ◌>>◌, find,
  update_first, put,
}
use gathergo_backend.FoodBank.{CollectionStatus, Event, MealPass, Db}
use gathergo_backend.FoodBank.Windows.{
  CollectionSettings, Slot, Window, get_count, next_collection_window,
}
use gathergo_backend.FoodBank.Policy.{
  CollectionAvailability, collection_availability, MealStatus, ready, meal_status,
}

pub data FoodBankError : Type 0 where
  event_missing not_foodbank settings_missing no_windows pass_missing : FoodBankError
  not_organiser collection_changed wrong_day not_open still_open past_day : FoodBankError
  not_ready : MealStatus → FoodBankError

abbrev pub foodbank_only : Event → Result FoodBankError Event
foodbank_only event = if event.is_foodbank then ok event else err not_foodbank

-- `lockCheckoutEvent`, then `event`.
abbrev pub get_event : Db → ℕ → Result FoodBankError Event
get_event db event_id = or_throw (db.events event_id) event_missing >>= foodbank_only

abbrev pub in_event : ℕ → MealPass → Bool
in_event event_id p = p.event_id == event_id

abbrev pub of_user : (event_id user_id : ℕ) → MealPass → Bool
of_user event_id user_id p = p.event_id == event_id && p.user_id == user_id

-- One more pass in the entry of its start, or a new entry.
unfoldable pub add_to_slot : ℕ → List Slot → List Slot
unfolding get_count
add_to_slot start [] = record { collection_start = start; count = 1 } ∷ []
add_to_slot start (s ∷ slots) =
    let rest = add_to_slot start slots in
    elim (get_count slots start) [
      | some n ↦ s ∷ rest
      | none ↦
          if s.collection_start == start then record s { count = s.count + 1 } ∷ slots else s ∷ rest
    ]

-- `groupBy` on the start of the window.
unfoldable pub group_by_start : ℕ → List MealPass → List Slot
unfolding add_to_slot
group_by_start event_id [] = []
group_by_start event_id (p ∷ passes) =
    let rest = group_by_start event_id passes in
    if in_event event_id p then add_to_slot p.collection_start rest else rest

abbrev pub is_closed : CollectionStatus → Bool
is_closed CollectionStatus.closed = true
is_closed _ = false

abbrev pub is_open : CollectionStatus → Bool
is_open CollectionStatus.open_ = true
is_open _ = false

abbrev pub settings_of : Event → Result FoodBankError CollectionSettings
settings_of event = do
  total ← or_throw event.total_meals settings_missing
  capacity ← or_throw event.slot_capacity settings_missing
  minutes ← or_throw event.slot_minutes settings_missing
  ok (record {
    start_date = event.start_date;
    end_date = event.end_date;
    total_meals = total;
    slot_capacity = capacity;
    slot_minutes = minutes;
  })

abbrev pub new_pass : (event_id user_id id : ℕ) → Window → MealPass
new_pass event_id user_id id window = record {
  id = id;
  event_id = event_id;
  user_id = user_id;
  collection_start = window.start;
  collection_end = window.end_;
  is_used = false;
  collected_at = none;
  collected_by = none;
}

abbrev pub grant : Db → MealPass → Db
grant db pass = record db { passes = db.passes ++ pass ∷ [] }

-- `null` is no pass, and changes nothing.
abbrev pub grant_window :
    Db → (event_id user_id id : ℕ) → Option Window → Result FoodBankError (Db × Option MealPass)
grant_window db event_id user_id id none = ok (db, none)
grant_window db event_id user_id id (some window) =
    ok (grant db (new_pass event_id user_id id window), some (new_pass event_id user_id id window))

unfoldable pub allocate_new :
    Db → Event → (event_id user_id now id : ℕ) → Result FoodBankError (Db × Option MealPass)
unfolding group_by_start next_collection_window
allocate_new db event event_id user_id now id = do
  settings ← settings_of event
  grant_window db event_id user_id id
      (next_collection_window settings (group_by_start event_id db.passes) now)

abbrev pub allocate_or_find :
    Db
    → Event
    → (event_id user_id now id : ℕ) → Option MealPass
    → Result FoodBankError (Db × Option MealPass)
allocate_or_find db event event_id user_id now id (some pass) = ok (db, some pass)
allocate_or_find db event event_id user_id now id none =
    if leb event.end_date now || is_closed event.collection_status
    then ok (db, none)
    else allocate_new db event event_id user_id now id

-- `allocate`, which is also `grantForDonation`.
unfoldable pub allocate :
    Db → (event_id user_id now id : ℕ) → Result FoodBankError (Db × Option MealPass)
unfolding allocate_new find
allocate db event_id user_id now id = do
  event ← get_event db event_id
  allocate_or_find db event event_id user_id now id (find (of_user event_id user_id) db.passes)

abbrev pub pass_of : Db × Option MealPass → Result FoodBankError (Db × MealPass)
pass_of (db, none) = err no_windows
pass_of (db, some pass) = ok (db, pass)

unfoldable pub claim : Db → (event_id user_id now id : ℕ) → Result FoodBankError (Db × MealPass)
unfolding allocate
claim db event_id user_id now id = allocate db event_id user_id now id >>= pass_of

-- `assertManage`
abbrev pub assert_manage :
    Event → (user_id expected_updated_at : ℕ) → Result FoodBankError (Unit {0})
assert_manage event user_id expected_updated_at = do
  throw_if (not (event.creator_id == user_id)) not_organiser
  throw_if (not (event.updated_at == expected_updated_at)) collection_changed

abbrev pub off_day : CollectionAvailability → Bool
off_day CollectionAvailability.upcoming = true
off_day CollectionAvailability.ended = true
off_day _ = false

abbrev pub is_paused : CollectionStatus → Bool
is_paused CollectionStatus.paused = true
is_paused _ = false

-- The database stamps `updatedAt`.
unfoldable pub update_collection :
    (local_day : ℕ → ℕ)
    → Db
    → (event_id user_id expected_updated_at : ℕ) → CollectionStatus
    → (now : ℕ) → Result FoodBankError (Db × Event)
unfolding collection_availability
update_collection local_day db event_id user_id expected_updated_at status now = do
  event ← get_event db event_id
  assert_manage event user_id expected_updated_at
  throw_if (is_open status && off_day (collection_availability local_day event now)) wrong_day
  throw_if (is_paused status && not (is_open event.collection_status)) not_open
  let updated = record event { collection_status = status; updated_at = now }
  ok (record db { events = put db.events event_id updated }, updated)

-- A shift by `new - old`, which may be negative; the sum is not below zero for times that exist.
abbrev pub shifted : (old new time : ℕ) → ℕ
shifted old new time = time + new - old

abbrev pub shift_unused : (event_id old new : ℕ) → MealPass → MealPass
shift_unused event_id old new p =
    if in_event event_id p && not p.is_used
    then record p {
      collection_start = shifted old new p.collection_start;
      collection_end = shifted old new p.collection_end;
    }
    else p

unfoldable pub reschedule :
    (local_day : ℕ → ℕ)
    → Db
    → (event_id user_id expected_updated_at start_date now : ℕ) → Result FoodBankError (Db × Event)
reschedule local_day db event_id user_id expected_updated_at start_date now = do
  event ← get_event db event_id
  assert_manage event user_id expected_updated_at
  throw_if (is_open event.collection_status) still_open
  throw_if (ltb (local_day start_date) (local_day now)) past_day
  let updated = record event {
    start_date = start_date;
    end_date = shifted event.start_date start_date event.end_date;
    collection_status = CollectionStatus.not_started;
    updated_at = now;
  }
  if start_date == event.start_date
      then ok (db, event)
      else ok (
        record db {
          events = put db.events event_id updated;
          passes = map (shift_unused event_id event.start_date start_date) db.passes;
        },
        updated,
      )

abbrev pub is_ready : MealStatus → Bool
is_ready ready = true
is_ready _ = false

abbrev pub has_pass_id : ℕ → MealPass → Bool
has_pass_id id p = p.id == id

abbrev pub with_collection : (staff_id now : ℕ) → MealPass → MealPass
with_collection staff_id now p = record p {
  is_used = true;
  collected_at = some now;
  collected_by = some staff_id;
}

-- Under the event's lock the pass that is read is the one that `updateMany` finds unused.
unfoldable pub redeem :
    (local_day : ℕ → ℕ) → Db → (id staff_id now : ℕ) → Result FoodBankError (Db × MealPass)
unfolding meal_status find update_first
redeem local_day db id staff_id now = do
  pass ← or_throw (find (has_pass_id id) db.passes) pass_missing
  event ← or_throw (db.events pass.event_id) event_missing
  throw_if (not (is_ready (meal_status local_day event pass now)))
      (not_ready (meal_status local_day event pass now))
  ok (
    record db { passes = update_first (has_pass_id id) (with_collection staff_id now) db.passes },
    record pass { is_used = true },
  )
