-- ===== src/FoodBank/Seats.antt =====
-- The passes of different windows together are no more than all passes that are reserved.
use gathergo_backend.Base.{
  ℕ, zero, suc, ◌+◌, ◌-◌, ◌*◌, ◌≤◌, ◌<◌, ◌≡◌, refl, min, inl, inr, some, List, [], ◌∷◌, ◌==◌, arith,
  if◌then◌else◌, Option-cases, Bool-cases, leb,
}
use gathergo_backend.FoodBank.Windows.{
  CollectionSettings, Slot, Window, get_count, reserved, duration_of, search_window, first_start,
  next_collection_window,
}
use gathergo_backend.FoodBank.Passes.{count_at}
use gathergo_backend.FoodBank.Search.{step_over}

-- The passes of the first `n` windows, and of these what stands at one time.
unfoldable sum_counts : List Slot → (start d n : ℕ) → ℕ
unfolding get_count
sum_counts slots start d zero = 0
sum_counts slots start d (suc n) = count_at slots (start + n * d) + sum_counts slots start d n

unfoldable hits : (count at start d n : ℕ) → ℕ
hits count at start d zero = 0
hits count at start d (suc n) = (if at == start + n * d then count else 0) + hits count at start d n

hits_past : (count at start d n : ℕ) → 0 < d → start + n * d ≤ at → hits count at start d n ≡ 0
unfolding hits
hits_past count at start d zero pos past = refl
hits_past count at start d (suc n) pos past =
    let step = step_over start n d in
    let before = hits_past count at start d n pos (omega (arith, past, step)) in
    ground (arith, before, step, past, pos)

hits-le : (count at start d n : ℕ) → 0 < d → hits count at start d n ≤ count
unfolding hits
hits-le count at start d zero pos = omega arith
hits-le count at start d (suc n) pos =
    let rest = hits-le count at start d n pos in
    let past = hits_past count at start d n pos in ground (arith, rest, past)

count_at-cons :
    (s : Slot) (slots : List Slot) (k : ℕ)
    → count_at (s ∷ slots) k ≤ (if s.collection_start == k then s.count else 0) + count_at slots k
unfolding get_count
count_at-cons s slots k = elim (Option-cases (get_count slots k)) [
  | inl new ↦ ground (arith, new)
  | inr (n, had) ↦ ground (arith, had)
]

sum_counts-nil : (start d n : ℕ) → sum_counts [] start d n ≡ 0
unfolding sum_counts get_count
sum_counts-nil start d zero = refl
sum_counts-nil start d (suc n) = omega (arith, sum_counts-nil start d n)

sum_counts-cons :
    (s : Slot) (slots : List Slot) (start d n : ℕ)
    → sum_counts (s ∷ slots) start d n
      ≤ hits s.count s.collection_start start d n + sum_counts slots start d n
unfolding sum_counts hits
sum_counts-cons s slots start d zero = omega arith
sum_counts-cons s slots start d (suc n) =
    omega (arith, sum_counts-cons s slots start d n, count_at-cons s slots (start + n * d))

sum_counts-reserved :
    (slots : List Slot) (start d n : ℕ) → 0 < d → sum_counts slots start d n ≤ reserved slots
unfolding reserved
sum_counts-reserved [] start d n pos = omega (arith, sum_counts-nil start d n)
sum_counts-reserved (s ∷ slots) start d n pos = omega (
  arith,
  sum_counts-cons s slots start d n,
  hits-le s.count s.collection_start start d n pos,
  sum_counts-reserved slots start d n pos,
)

full-sum_counts :
    (slots : List Slot) (start d capacity n : ℕ)
    → ((k : ℕ) → k < n → capacity ≤ count_at slots (start + k * d))
    → n * capacity ≤ sum_counts slots start d n
unfolding sum_counts
full-sum_counts slots start d capacity zero full = omega arith
full-sum_counts slots start d capacity (suc n) full = omega (
  arith,
  full n (omega arith),
  full-sum_counts slots start d capacity n (λ k less. full k (omega (arith, less))),
)

-- Windows that are all full hold their capacity each.
pub full-reserved :
    (slots : List Slot) (start d capacity n : ℕ)
    → 0 < d
    → ((k : ℕ) → k < n → capacity ≤ count_at slots (start + k * d))
    → n * capacity ≤ reserved slots
full-reserved slots start d capacity n pos full =
    omega (
      arith,
      full-sum_counts slots start d capacity n full,
      sum_counts-reserved slots start d n pos,
    )

-- A window that is found ends a whole duration after its start, or with the bank if that is earlier.
search-ends :
    (fuel : ℕ) (event : CollectionSettings) (slots : List Slot) (start : ℕ) (w : Window)
    → search_window fuel event slots start ≡ some w
    → w.end_ ≡ min (w.start + duration_of event) event.end_date
unfolding search_window
search-ends zero event slots start w e = ground arith
search-ends (suc fuel) event slots start w e =
    ground (arith, search-ends fuel event slots (start + duration_of event) w)

pub next-ends :
    (event : CollectionSettings) (slots : List Slot) (now : ℕ) (w : Window)
    → next_collection_window event slots now ≡ some w
    → w.end_ ≡ min (w.start + duration_of event) event.end_date
unfolding next_collection_window
next-ends event slots now w e =
    search-ends (event.end_date - first_start event now) event slots (first_start event now) w
      (elim (Bool-cases (leb event.total_meals (reserved slots))) [
        | inl full ↦ ground (arith, full)
        | inr free ↦ ground (arith, free)
      ])
