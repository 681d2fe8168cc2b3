-- ===== src/FoodBank/Search.antt =====
-- The windows that the search for a collection window looks at.
use gathergo_backend.Base.{
  ℕ, List, sym, zero, suc, ◌+◌, ◌*◌, ◌-◌, ◌≤◌, ◌<◌, ◌≡◌, inl, inr, none, arith, leb, subst,
  Bool-cases,
}
use gathergo_backend.FoodBank.Windows.{
  CollectionSettings, Slot, duration_of, reserved, search_window, first_start,
  next_collection_window,
}
use gathergo_backend.FoodBank.Passes.{count_at}

pub step_over : (start n d : ℕ) → start + suc n * d ≡ start + d + n * d
step_over start n d = omega arith

module _ (event : CollectionSettings) (slots : List Slot) (long : 0 < duration_of event) where
  search-first :
      (fuel start : ℕ)
      → event.end_date ≤ start + fuel
      → start < event.end_date
      → search_window fuel event slots start ≡ none
      → event.slot_capacity ≤ count_at slots start
  unfolding search_window
  search-first zero start enough before e = omega arith
  search-first (suc fuel) start enough before e = ground arith

  search-later :
      (fuel start : ℕ)
      → start < event.end_date
      → search_window (suc fuel) event slots start ≡ none
      → search_window fuel event slots (start + duration_of event) ≡ none
  unfolding search_window
  search-later fuel start before e = ground arith

  search-full :
      (fuel n start : ℕ)
      → event.end_date ≤ start + fuel
      → start + n * duration_of event < event.end_date
      → search_window fuel event slots start ≡ none
      → event.slot_capacity ≤ count_at slots (start + n * duration_of event)
  search-full fuel zero start enough before e =
      subst (λ t. event.slot_capacity ≤ count_at slots t) (omega arith)
        (search-first fuel start enough (omega arith) e)
  search-full zero (suc n) start enough before e = omega arith
  search-full (suc fuel) (suc n) start enough before e =
      let d = duration_of event in
      subst (λ t. event.slot_capacity ≤ count_at slots t) (sym (step_over start n d))
        (search-full fuel n (start + d) (omega arith)
          (subst (λ t. t < event.end_date) (step_over start n d) before)
          (search-later fuel start (omega (arith, step_over start n d)) e))

-- If `nextCollectionWindow` finds no window while meals are left and windows have a length, then every
-- window of the event, from the one of this time on, holds its full number of passes.
pub next_window-full :
    (event : CollectionSettings) (slots : List Slot) (now n : ℕ)
    → 0 < event.slot_minutes
    → reserved slots < event.total_meals
    → next_collection_window event slots now ≡ none
    → first_start event now + n * duration_of event < event.end_date
    → event.slot_capacity ≤ count_at slots (first_start event now + n * duration_of event)
unfolding next_collection_window
next_window-full event slots now n long left e before =
    let first = first_start event now in
    search-full event slots (omega arith) (event.end_date - first) n first (omega arith) before
      (elim (Bool-cases (leb event.total_meals (reserved slots))) [
        | inl full ↦ ground (arith, full)
        | inr free ↦ ground (arith, free)
      ])
