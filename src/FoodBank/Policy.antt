-- ===== src/FoodBank/Policy.antt =====
-- collection-policy.ts. `local_day` stands for the calendar of the event's time zone: the day of a
-- time, where later days have greater numbers.
use gathergo_backend.Base.{ℕ, ltb, leb, if◌then◌else◌}
use gathergo_backend.FoodBank.{CollectionStatus, Event, MealPass}

pub data CollectionAvailability : Type 0 where
  upcoming not_started open_ paused closed ended : CollectionAvailability

abbrev pub availability_of : CollectionStatus → CollectionAvailability
availability_of CollectionStatus.not_started = CollectionAvailability.not_started
availability_of CollectionStatus.open_ = CollectionAvailability.open_
availability_of CollectionStatus.paused = CollectionAvailability.paused
availability_of CollectionStatus.closed = CollectionAvailability.closed

unfoldable pub collection_availability :
    (local_day : ℕ → ℕ) → Event → (now : ℕ) → CollectionAvailability
collection_availability local_day event now =
    if ltb (local_day now) (local_day event.start_date)
    then upcoming
    else if ltb (local_day event.end_date) (local_day now)
    then ended
    else availability_of event.collection_status

pub data MealStatus : Type 0 where
  collected ready : MealStatus
  unavailable : CollectionAvailability → MealStatus

pub data Arrival : Type 0 where
  early on_time late : Arrival

abbrev pub ready_or : CollectionAvailability → MealStatus
ready_or CollectionAvailability.open_ = ready
ready_or availability = unavailable availability

unfoldable pub meal_status : (local_day : ℕ → ℕ) → Event → MealPass → (now : ℕ) → MealStatus
unfolding collection_availability
meal_status local_day event pass now =
    if pass.is_used then collected else ready_or (collection_availability local_day event now)

unfoldable pub arrival : MealPass → (now : ℕ) → Arrival
arrival pass now =
    if ltb now pass.collection_start
    then early
    else if leb pass.collection_end now
    then late
    else on_time
