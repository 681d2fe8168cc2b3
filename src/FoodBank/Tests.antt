-- ===== src/FoodBank/Tests.antt =====
-- One food bank with two windows of one meal each.
use gathergo_backend.Base.{
  ◌+◌, ◌*◌, ◌/◌, ◌-◌, ◌≤◌, ◌<◌, ◌≡◌, refl, true, false, none, some, List, [], ◌∷◌, ◌==◌,
  if◌then◌else◌, arith, ok, err, ◌>>=◌, ◌>>◌, find, count_if, min,
}
use gathergo_backend.FoodBank.{CollectionStatus, Event, MealPass, Db}
use gathergo_backend.FoodBank.Windows.{
  CollectionSettings, Slot, Window, reserved, next_collection_window,
}
use gathergo_backend.FoodBank.Policy.{collected}
use gathergo_backend.FoodBank.Service.{not_ready, in_event, allocate, claim, no_windows, redeem}
use gathergo_backend.FoodBank.Search.{next_window-full}
use gathergo_backend.FoodBank.Settings.{Settings, assert_food_bank_settings}
use gathergo_backend.FoodBank.Room.{assert-room}
use gathergo_backend.FoodBank.Passes.{count_at, starts_at, allocate-IsWithin, redeem-once}

abbrev bank : Event
bank = record {
  creator_id = 9;
  is_foodbank = true;
  start_date = 1000;
  end_date = 121000;
  updated_at = 0;
  collection_status = CollectionStatus.open_;
  total_meals = some 2;
  slot_capacity = some 1;
  slot_minutes = some 1;
}

abbrev settings : CollectionSettings
settings = record {
  start_date = 1000;
  end_date = 121000;
  total_meals = 2;
  slot_capacity = 1;
  slot_minutes = 1;
}

abbrev first_pass : MealPass
first_pass = record {
  id = 1;
  event_id = 3;
  user_id = 20;
  collection_start = 1000;
  collection_end = 61000;
  is_used = false;
  collected_at = none;
  collected_by = none;
}

abbrev second_pass : MealPass
second_pass = record first_pass {
  id = 2;
  user_id = 21;
  collection_start = 61000;
  collection_end = 121000;
}

abbrev with_passes : List MealPass → Db
with_passes ps = record { events = λ k. if k == 3 then some bank else none; passes = ps }

-- The first window is full, so the second is given.
grants :
    allocate (with_passes (first_pass ∷ [])) 3 21 500 2
    ≡ ok (with_passes (first_pass ∷ second_pass ∷ []), some second_pass)
unfolding allocate ◌>>=◌
grants = refl

runs_out : claim (with_passes (first_pass ∷ second_pass ∷ [])) 3 22 500 3 ≡ err no_windows
unfolding claim ◌>>=◌
runs_out = refl

abbrev used_pass : MealPass
used_pass = record first_pass { is_used = true; collected_at = some 2000; collected_by = some 9 }

redeems :
    redeem (λ t. 0) (with_passes (first_pass ∷ [])) 1 9 2000
    ≡ ok (with_passes (used_pass ∷ []), record first_pass { is_used = true })
unfolding redeem ◌>>=◌ ◌>>◌
redeems = refl

allocate-IsWithin_example :
    (count_if (in_event 3) (first_pass ∷ second_pass ∷ []) ≤ 2)
    × (count_if (starts_at 3 61000) (first_pass ∷ second_pass ∷ []) ≤ 1)
    × (1000 + (500 - 1000) / (1 * 60000) * (1 * 60000) ≤ 61000)
    × (61000 < 121000)
    × (121000 ≤ 121000)
unfolding find ◌>>=◌
allocate-IsWithin_example =
    allocate-IsWithin (with_passes (first_pass ∷ [])) (with_passes (first_pass ∷ second_pass ∷ []))
      bank settings 3 21 500 2 second_pass refl refl refl grants

redeem-once_example :
    redeem (λ t. 0) (with_passes (used_pass ∷ [])) 1 8 3000 ≡ err (not_ready collected)
redeem-once_example =
    redeem-once (λ t. 0) (with_passes (first_pass ∷ [])) (with_passes (used_pass ∷ [])) 1 9 2000 8
      3000 (record first_pass { is_used = true }) redeems

-- Three meals, of which two fill both windows.
abbrev third_left : CollectionSettings
third_left = record settings { total_meals = 3 }

abbrev both_full : List Slot
both_full =
    record { collection_start = 1000; count = 1 }
    ∷ record { collection_start = 61000; count = 1 }
    ∷ []

next_window-full_example : 1 ≤ count_at both_full (1000 + 1 * 60000)
unfolding next_collection_window
next_window-full_example =
    next_window-full third_left both_full 500 1 (omega arith) (omega arith) refl (omega arith)

-- A day's food bank: 32 windows of a quarter of an hour, four meals each.
abbrev day : Settings
day = record {
  is_foodbank = true;
  is_physical_event = true;
  is_single = true;
  start_date = 0;
  end_date = 28800000;
  total_meals = some 100;
  slot_capacity = some 4;
  slot_minutes = some 15;
}

day_accepted : assert_food_bank_settings day ≡ ok tt
unfolding assert_food_bank_settings ◌>>=◌ ◌>>◌
day_accepted = refl

-- The first window is full.
abbrev first_full : List Slot
first_full = record { collection_start = 0; count = 4 } ∷ []

assert-room_example :
    (w : Window) × (next_collection_window
        (record {
          start_date = 0;
          end_date = 28800000;
          total_meals = 100;
          slot_capacity = 4;
          slot_minutes = 15;
        })
        first_full
        0
      ≡ some w)
    × (count_at first_full w.start < 4)
    × (0 ≤ w.start)
    × (w.start < 28800000)
    × (w.end_ ≡ min (w.start + 15 * 60000) 28800000)
    × (5 ≤ 15)
    × (15 ≤ 120)
unfolding reserved
assert-room_example =
    assert-room day 100 4 15 first_full 0 refl refl refl refl day_accepted (omega arith)
      (omega arith)
