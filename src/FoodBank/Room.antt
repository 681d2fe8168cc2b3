-- ===== src/FoodBank/Room.antt =====
-- What settings that are accepted promise to the search for windows.
use gathergo_backend.Base.{
  ℕ, zero, suc, ◌+◌, ◌-◌, ◌*◌, ◌/◌, ◌≤◌, ◌<◌, ◌≡◌, ◌≢◌, true, none, some, List, min, inl, inr, sym,
  subst, Option-cases, arith, ok, ◌>>=◌, ◌>>◌,
}
use native.Mathlib.Nat.{div-mul-le_self, zero-div, mul-le-mul_right}
use gathergo_backend.FoodBank.Windows.{
  CollectionSettings, Slot, Window, reserved, duration_of, first_start, next_collection_window,
}
use gathergo_backend.FoodBank.Passes.{count_at, next-IsWindow}
use gathergo_backend.FoodBank.Search.{next_window-full}
use gathergo_backend.FoodBank.Seats.{full-reserved, next-ends}
use gathergo_backend.FoodBank.Settings.{Settings, window_count, assert_food_bank_settings}

ceil_before :
    (d length : ℕ)
    → 0 < length
    → 1 ≤ (d + (length - 1)) / length
    → ((d + (length - 1)) / length - 1) * length < d
ceil_before d length pos one =
    let q = (d + (length - 1)) / length in
    let less = div-mul-le_self (d + (length - 1)) length in
    let step : (q - 1) * length + length ≡ q * length = pred_times q length one in
    omega (arith, less, step, pos)
  where
    pred_times : (q l : ℕ) → 1 ≤ q → (q - 1) * l + l ≡ q * l
    pred_times zero l h = omega arith
    pred_times (suc q) l h = grind arith

first_early :
    (bank : CollectionSettings) (now : ℕ)
    → now ≤ bank.start_date
    → first_start bank now ≡ bank.start_date
first_early bank now early =
    let none' : now - bank.start_date ≡ 0 = omega (arith, early) in
    rw none' (rw (zero-div (duration_of bank)) (omega arith))

module _ (event : Settings) (total capacity minutes : ℕ) (is_bank : event.is_foodbank ≡ true)
    (total' : event.total_meals ≡ some total) (capacity' : event.slot_capacity ≡ some capacity)
    (minutes' : event.slot_minutes ≡ some minutes)
    (e : assert_food_bank_settings event ≡ ok tt) where
  some-window : 1 ≤ window_count event.start_date event.end_date minutes
  unfolding assert_food_bank_settings ◌>>=◌ ◌>>◌
  some-window = ground (arith, is_bank, total', capacity', minutes', e)

  some-minutes : 5 ≤ minutes
  unfolding assert_food_bank_settings ◌>>=◌ ◌>>◌
  some-minutes = ground (arith, is_bank, total', capacity', minutes', e)

  last-window :
      event.start_date
        + (window_count event.start_date event.end_date minutes - 1) * (minutes * 60000)
      < event.end_date
  last-window =
      let before =
        ceil_before (event.end_date - event.start_date) (minutes * 60000)
          (omega (arith, some-minutes)) some-window in
      omega (arith, before)

  some-room : total ≤ window_count event.start_date event.end_date minutes * capacity
  unfolding assert_food_bank_settings ◌>>=◌ ◌>>◌
  some-room = ground (arith, is_bank, total', capacity', minutes', e)

  some-limit : minutes ≤ 120
  unfolding assert_food_bank_settings ◌>>=◌ ◌>>◌
  some-limit = ground (arith, is_bank, total', capacity', minutes', e)

  before-end :
      (k : ℕ)
      → k < window_count event.start_date event.end_date minutes
      → event.start_date + k * (minutes * 60000) < event.end_date
  before-end k less =
      let most : k ≤ window_count event.start_date event.end_date minutes - 1 =
        omega (arith, less) in
      omega (arith, last-window, mul-le-mul_right (minutes * 60000) most)

  -- The settings as the search reads them.
  abbrev bank : CollectionSettings
  bank = record {
    start_date = event.start_date;
    end_date = event.end_date;
    total_meals = total;
    slot_capacity = capacity;
    slot_minutes = minutes;
  }

  some-found :
      (slots : List Slot) (now : ℕ)
      → reserved slots < total
      → now ≤ event.start_date
      → next_collection_window bank slots now ≢ none
  some-found slots now left early missing =
      let first : first_start bank now ≡ event.start_date = first_early bank now early in
      let full : (k : ℕ)
          → k < window_count event.start_date event.end_date minutes
          → capacity ≤ count_at slots (event.start_date + k * (minutes * 60000)) =
        λ k less.
          subst (λ t. capacity ≤ count_at slots (t + k * (minutes * 60000))) first
            (next_window-full bank slots now k (omega (arith, some-minutes)) left missing (
              subst (λ t. t + k * (minutes * 60000) < event.end_date) (sym first)
                (before-end k less))) in
      let seats =
        full-reserved slots event.start_date (minutes * 60000) capacity
          (window_count event.start_date event.end_date minutes) (omega (arith, some-minutes))
          full in
      omega (arith, seats, some-room, left)

-- Where settings of a food bank are accepted and fewer passes are reserved than it has meals, a search
-- up to its start finds a window that has room: it begins in the bank's time, and ends five minutes to
-- two hours later, as the settings say, or with the bank if that is earlier.
pub assert-room :
    (event : Settings) (total capacity minutes : ℕ) (slots : List Slot) (now : ℕ)
    → event.is_foodbank ≡ true
    → event.total_meals ≡ some total
    → event.slot_capacity ≡ some capacity
    → event.slot_minutes ≡ some minutes
    → assert_food_bank_settings event ≡ ok tt
    → reserved slots < total
    → now ≤ event.start_date
    → (w : Window) × (next_collection_window
          (record {
            start_date = event.start_date;
            end_date = event.end_date;
            total_meals = total;
            slot_capacity = capacity;
            slot_minutes = minutes;
          })
          slots
          now
        ≡ some w)
      × (count_at slots w.start < capacity)
      × (event.start_date ≤ w.start)
      × (w.start < event.end_date)
      × (w.end_ ≡ min (w.start + minutes * 60000) event.end_date)
      × (5 ≤ minutes)
      × (minutes ≤ 120)
assert-room event total capacity minutes slots now is_bank total' capacity' minutes' e left early =
    let b = bank event total capacity minutes is_bank total' capacity' minutes' e in
    elim (Option-cases (next_collection_window b slots now)) [
      | inl missing ↦ absurd (
          some-found event total capacity minutes is_bank total' capacity' minutes' e slots now left
            early missing)
      | inr (w, found) ↦
          let (_, inside) = next-IsWindow b slots now w found in
          (
            w,
            found,
            inside.3,
            omega (arith, inside.0),
            inside.1,
            next-ends b slots now w found,
            some-minutes event total capacity minutes is_bank total' capacity' minutes' e,
            some-limit event total capacity minutes is_bank total' capacity' minutes' e,
          )
    ]
