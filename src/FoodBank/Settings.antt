-- ===== src/FoodBank/Settings.antt =====
-- `assertFoodBankSettings` of food-bank-settings.ts. The numbers are integers; `dates` of an event whose
-- end lies before its start leave no window.
use gathergo_backend.Base.{
  ℕ, ◌+◌, ◌-◌, ◌*◌, ◌/◌, Bool, true, false, not, ◌||◌, Option, none, some, ltb, if◌then◌else◌,
  Result, throw_if, or_throw, ◌>>=◌, ◌>>◌,
}

pub record Settings : Type 0 where
  pub is_foodbank : Bool
  pub is_physical_event : Bool
  pub is_single : Bool
  pub start_date : ℕ
  pub end_date : ℕ
  pub total_meals : Option ℕ
  pub slot_capacity : Option ℕ
  pub slot_minutes : Option ℕ

pub data SettingsError : Type 0 where
  only_for_food_banks needs_venue_and_one_range invalid_windows too_few_windows : SettingsError

abbrev is_set : Option ℕ → Bool
is_set none = false
is_set (some n) = true

-- `Math.ceil(difference / (minutes * 60000))`, for some minutes.
abbrev pub window_count : (start_date end_date minutes : ℕ) → ℕ
window_count start_date end_date minutes =
    (end_date - start_date + (minutes * 60000 - 1)) / (minutes * 60000)

abbrev is_out_of_bounds : (total capacity minutes : ℕ) → Bool
is_out_of_bounds total capacity minutes =
    ltb total 1
    || ltb 1000000 total
    || ltb capacity 1
    || ltb 10000 capacity
    || ltb total capacity
    || ltb minutes 5
    || ltb 120 minutes

abbrev assert_windows : Settings → (total capacity minutes : ℕ) → Result SettingsError (Unit {0})
assert_windows event total capacity minutes = do
  throw_if (is_out_of_bounds total capacity minutes) invalid_windows
  let windows = window_count event.start_date event.end_date minutes
  throw_if (ltb windows 1 || ltb (windows * capacity) total) too_few_windows

unfoldable pub assert_food_bank_settings : Settings → Result SettingsError (Unit {0})
assert_food_bank_settings event =
    if not event.is_foodbank
    then throw_if
        (is_set event.total_meals || is_set event.slot_capacity || is_set event.slot_minutes)
        only_for_food_banks
    else (do
      throw_if (not event.is_physical_event || not event.is_single) needs_venue_and_one_range
      total ← or_throw event.total_meals invalid_windows
      capacity ← or_throw event.slot_capacity invalid_windows
      minutes ← or_throw event.slot_minutes invalid_windows
      assert_windows event total capacity minutes)
