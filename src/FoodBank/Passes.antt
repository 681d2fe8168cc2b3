-- ===== src/FoodBank/Passes.antt =====
-- Meal passes against the meals, the windows and the uses of a pass.
use gathergo_backend.Base.{
  some-eq-some, ℕ, zero, suc, ◌+◌, ◌-◌, ◌≤◌, ◌<◌, ◌≡◌, refl, sym, ap, subst, ◌∙◌, inl, inr, Bool,
  true, false, not, ◌&&◌, ◌||◌, none, some, List, [], ◌∷◌, ◌++◌, arith, leb, ◌==◌, if◌then◌else◌,
  or_else, Option-cases, Bool-cases, ok, err, throw_if, or_throw, ◌>>=◌, ◌>>◌, >>=-eq-ok, >>-eq-ok,
  ok-eq-ok, or_throw-eq-ok, count_if, count_if-append, find, find-test, find-update_first,
  update_first,
}
use gathergo_backend.FoodBank.{Event, MealPass, Db}
use gathergo_backend.FoodBank.Windows.{
  CollectionSettings, Slot, Window, reserved, get_count, duration_of, search_window, first_start,
  next_collection_window,
}
use gathergo_backend.FoodBank.Policy.{collected, meal_status}
use gathergo_backend.FoodBank.Service.{
  FoodBankError, event_missing, pass_missing, is_ready, not_ready, in_event, of_user, add_to_slot,
  group_by_start, is_closed, settings_of, new_pass, grant, grant_window, allocate_new, allocate,
  has_pass_id, with_collection, redeem,
}

abbrev pub starts_at : (event_id start : ℕ) → MealPass → Bool
starts_at event_id start p = p.event_id == event_id && p.collection_start == start

abbrev pub count_at : List Slot → ℕ → ℕ
count_at slots k = or_else (get_count slots k) 0

reserved-add :
    (start : ℕ) (slots : List Slot) → reserved (add_to_slot start slots) ≡ reserved slots + 1
unfolding reserved add_to_slot
reserved-add start [] = refl
reserved-add start (s ∷ slots) = elim (Option-cases (get_count slots start)) [
  | inl new ↦ ground (arith, new, reserved-add start slots)
  | inr (n, had) ↦ ground (arith, had, reserved-add start slots)
]

get_count-add :
    (start k : ℕ) (slots : List Slot)
    → get_count (add_to_slot start slots) k
      ≡ (if start == k then some (count_at slots k + 1) else get_count slots k)
unfolding get_count add_to_slot
get_count-add start k [] = refl
get_count-add start k (s ∷ slots) = elim (Option-cases (get_count slots start)) [
  | inl new ↦ ground (arith, new, get_count-add start k slots)
  | inr (n, had) ↦ ground (arith, had, get_count-add start k slots)
]

reserved-group :
    (event_id : ℕ) (ps : List MealPass)
    → reserved (group_by_start event_id ps) ≡ count_if (in_event event_id) ps
unfolding reserved group_by_start count_if
reserved-group event_id [] = refl
reserved-group event_id (p ∷ ps) = ground (
  arith,
  reserved-group event_id ps,
  reserved-add p.collection_start (group_by_start event_id ps),
)

count_at-group :
    (event_id k : ℕ) (ps : List MealPass)
    → count_at (group_by_start event_id ps) k ≡ count_if (starts_at event_id k) ps
unfolding get_count group_by_start count_if
count_at-group event_id k [] = refl
count_at-group event_id k (p ∷ ps) = ground (
  arith,
  count_at-group event_id k ps,
  get_count-add p.collection_start k (group_by_start event_id ps),
)

abbrev pub IsWindow : CollectionSettings → List Slot → ℕ → Window → Type 0
IsWindow event slots start w =
    (start ≤ w.start)
    × (w.start < event.end_date)
    × (w.end_ ≤ event.end_date)
    × (count_at slots w.start < event.slot_capacity)

search-IsWindow :
    (fuel : ℕ) (event : CollectionSettings) (slots : List Slot) (start : ℕ) (w : Window)
    → search_window fuel event slots start ≡ some w
    → IsWindow event slots start w
unfolding search_window
search-IsWindow zero event slots start w e = ground arith
search-IsWindow (suc fuel) event slots start w e =
    ground (arith, search-IsWindow fuel event slots (start + duration_of event) w)

pub next-IsWindow :
    (event : CollectionSettings) (slots : List Slot) (now : ℕ) (w : Window)
    → next_collection_window event slots now ≡ some w
    → (reserved slots < event.total_meals) × IsWindow event slots (first_start event now) w
unfolding next_collection_window
next-IsWindow event slots now w e = elim (Bool-cases (leb event.total_meals (reserved slots))) [
  | inl full ↦ ground (arith, full)
  | inr free ↦ (
    ground (arith, free),
    search-IsWindow (event.end_date - first_start event now) event slots (first_start event now) w
        (ground (arith, free)),
  )
]

-- A pass of this start for the event, appended to the others.
granted-counts :
    (event_id user_id id : ℕ) (w : Window) (ps : List MealPass)
    → (count_if (in_event event_id) (ps ++ new_pass event_id user_id id w ∷ [])
        ≡ count_if (in_event event_id) ps + 1)
      × (count_if (starts_at event_id w.start) (ps ++ new_pass event_id user_id id w ∷ [])
          ≡ count_if (starts_at event_id w.start) ps + 1)
unfolding count_if
granted-counts event_id user_id id w ps =
    let pass = new_pass event_id user_id id w in
    (
      ground (arith, count_if-append (in_event event_id) ps (pass ∷ [])),
      ground (arith, count_if-append (starts_at event_id w.start) ps (pass ∷ [])),
    )

abbrev pub IsWithin : CollectionSettings → ℕ → ℕ → Db → MealPass → Type 0
IsWithin settings event_id now db' pass =
    (count_if (in_event event_id) db'.passes ≤ settings.total_meals)
    × (count_if (starts_at event_id pass.collection_start) db'.passes ≤ settings.slot_capacity)
    × (first_start settings now ≤ pass.collection_start)
    × (pass.collection_start < settings.end_date)
    × (pass.collection_end ≤ settings.end_date)

grant-IsWithin :
    (db db' : Db) (settings : CollectionSettings) (event_id user_id now id : ℕ) (pass : MealPass)
    → grant_window db event_id user_id id
        (next_collection_window settings (group_by_start event_id db.passes) now)
      ≡ ok (db', some pass)
    → IsWithin settings event_id now db' pass
grant-IsWithin db db' settings event_id user_id now id pass e =
    elim (Option-cases (next_collection_window settings (group_by_start event_id db.passes) now)) [
      | inl full ↦ ground (arith, full)
      | inr (w, found) ↦
          let (room, (from, before, until, free)) =
            next-IsWindow settings (group_by_start event_id db.passes) now w found in
          let (total, window) = granted-counts event_id user_id id w db.passes in
          let total_before = reserved-group event_id db.passes in
          let window_before = count_at-group event_id w.start db.passes in
          let same =
            ok-eq-ok {E = FoodBankError}
              (grant db (new_pass event_id user_id id w), some (new_pass event_id user_id id w))
              (db', some pass)
              (subst (λ o. grant_window db event_id user_id id o ≡ ok (db', some pass)) found e) in
          let this = some-eq-some (new_pass event_id user_id id w) pass (ap (λ x. x.1) same) in
          subst (λ x. IsWithin settings event_id now x pass) (ap (λ x. x.0) same)
            (subst
              (λ p. IsWithin settings event_id now (grant db (new_pass event_id user_id id w)) p)
              this (omega arith, omega arith, from, before, until))
    ]

allocate-run :
    (db : Db) (event : Event) (event_id user_id now id : ℕ)
    → db.events event_id ≡ some event
    → event.is_foodbank ≡ true
    → find (of_user event_id user_id) db.passes ≡ none
    → (leb event.end_date now || is_closed event.collection_status) ≡ false
    → allocate db event_id user_id now id ≡ allocate_new db event event_id user_id now id
unfolding allocate ◌>>=◌
allocate-run db event event_id user_id now id known foodbank new running =
    rw (known, foodbank, new, running) refl

-- A new meal pass that `allocate` grants: with it the event has at most its total of meals, the
-- pass's window has at most its capacity of passes, and the window starts no earlier than the one of
-- this time and before the event's end, and it ends by then.
pub allocate-IsWithin :
    (db db' : Db) (event : Event) (settings : CollectionSettings) (event_id user_id now id : ℕ)
    (pass : MealPass)
    → db.events event_id ≡ some event
    → settings_of event ≡ ok settings
    → find (of_user event_id user_id) db.passes ≡ none
    → allocate db event_id user_id now id ≡ ok (db', some pass)
    → IsWithin settings event_id now db' pass
unfolding allocate allocate_new ◌>>=◌
allocate-IsWithin db db' event settings event_id user_id now id pass known set new e =
    grant-IsWithin db db' settings event_id user_id now id pass
      (elim (Bool-cases event.is_foodbank) [
        | inr other ↦ ground (arith, known, other)
        | inl foodbank ↦
            elim (Bool-cases (leb event.end_date now || is_closed event.collection_status)) [
              | inl over ↦ ground (arith, known, foodbank, new, over)
              | inr running ↦
                  subst
                    (λ r.
                      (r >>= λ s.
                      grant_window db event_id user_id id
                        (next_collection_window s (group_by_start event_id db.passes) now))
                      ≡ ok (db', some pass))
                    set
                    (sym (allocate-run db event event_id user_id now id known foodbank new running)
                      ∙ e)
            ]
      ])

redeem_used :
    (local_day : ℕ → ℕ) (db : Db) (id staff_id now : ℕ) (pass : MealPass) (event : Event)
    → find (has_pass_id id) db.passes ≡ some pass
    → db.events pass.event_id ≡ some event
    → pass.is_used ≡ true
    → redeem local_day db id staff_id now ≡ err (not_ready collected)
unfolding redeem meal_status ◌>>=◌ ◌>>◌
redeem_used local_day db id staff_id now pass event found known used = rw (found, known, used) refl

-- A meal is collected once: after `redeem` has answered for a pass, each later call for it fails with
-- the status that the meal is collected.
pub redeem-once :
    (local_day : ℕ → ℕ) (db db' : Db) (id staff_id now staff_id' later : ℕ) (p : MealPass)
    → redeem local_day db id staff_id now ≡ ok (db', p)
    → redeem local_day db' id staff_id' later ≡ err (not_ready collected)
unfolding redeem
redeem-once local_day db db' id staff_id now staff_id' later p e =
    let (pass, found, e1) =
      >>=-eq-ok (or_throw (find (has_pass_id id) db.passes) pass_missing) _ e in
    let (event, known, e2) = >>=-eq-ok (or_throw (db.events pass.event_id) event_missing) _ e1 in
    let (ready_, last) =
      >>-eq-ok
        (throw_if (not (is_ready (meal_status local_day event pass now)))
          (not_ready (meal_status local_day event pass now)))
        (ok (
          record db {
            passes = update_first (has_pass_id id) (with_collection staff_id now) db.passes;
          },
          record pass { is_used = true },
        ))
        e2 in
    let here = or_throw-eq-ok _ _ found in
    let after =
      find-update_first (has_pass_id id) (with_collection staff_id now) db.passes pass
        (find-test (has_pass_id id) db.passes pass here) here in
    subst (λ x. redeem local_day x.0 id staff_id' later ≡ err (not_ready collected)) {y = (db', p)}
      (ok-eq-ok {E = FoodBankError} _ (db', p) last)
      (redeem_used local_day
        (record db {
          passes = update_first (has_pass_id id) (with_collection staff_id now) db.passes;
        })
        id staff_id' later (with_collection staff_id now pass) event after
        (or_throw-eq-ok _ _ known) refl)
