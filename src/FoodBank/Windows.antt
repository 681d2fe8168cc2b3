-- ===== src/FoodBank/Windows.antt =====
-- `nextCollectionWindow` of collection-windows.ts.
use gathergo_backend.Base.{
  ℕ, zero, suc, ◌+◌, ◌-◌, ◌*◌, ◌/◌, min, Bool, Option, none, some, List, [], ◌∷◌, ltb, leb, ◌==◌,
  if◌then◌else◌, or_else,
}

-- The settings that hold a number of minutes above zero.
pub record CollectionSettings : Type 0 where
  pub start_date : ℕ
  pub end_date : ℕ
  pub total_meals : ℕ
  pub slot_capacity : ℕ
  pub slot_minutes : ℕ

pub record Slot : Type 0 where
  pub collection_start : ℕ
  pub count : ℕ

pub record Window : Type 0 where
  pub start : ℕ
  pub end_ : ℕ

unfoldable pub reserved : List Slot → ℕ
reserved [] = 0
reserved (s ∷ slots) = s.count + reserved slots

-- `counts.get(start)`: of two entries with one key a `Map` keeps the later.
unfoldable pub get_count : List Slot → ℕ → Option ℕ
get_count [] start = none
get_count (s ∷ slots) start = elim (get_count slots start) [
  | some n ↦ some n
  | none ↦ if s.collection_start == start then some s.count else none
]

abbrev pub has_room : CollectionSettings → List Slot → ℕ → Bool
has_room event slots start = ltb (or_else (get_count slots start) 0) event.slot_capacity

abbrev pub duration_of : CollectionSettings → ℕ
duration_of event = event.slot_minutes * 60000

-- The loop over window starts; the end is at most `fuel` steps away.
unfoldable pub search_window : ℕ → CollectionSettings → List Slot → ℕ → Option Window
unfolding get_count
search_window zero event slots start = none
search_window (suc fuel) event slots start =
    let rest = search_window fuel event slots (start + duration_of event) in
    if ltb start event.end_date
    then (if has_room event slots start
        then some (record { start = start; end_ = min (start + duration_of event) event.end_date })
        else rest)
    else none

-- `Math.max(0, Math.floor(difference / duration))`: zero before the start.
abbrev pub first_start : CollectionSettings → (now : ℕ) → ℕ
first_start event now =
    event.start_date + (now - event.start_date) / duration_of event * duration_of event

unfoldable pub next_collection_window : CollectionSettings → List Slot → (now : ℕ) → Option Window
unfolding reserved search_window
next_collection_window event slots now =
    if leb event.total_meals (reserved slots)
    then none
    else search_window (event.end_date - first_start event now) event slots (first_start event now)
