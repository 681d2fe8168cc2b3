-- ===== src/RateLimit/Window.antt =====
-- How many requests of one key a window lets through.
use gathergo_backend.Base.{
  ℕ, ◌+◌, ◌-◌, ◌*◌, ◌≤◌, ◌<◌, ◌≡◌, refl, sym, subst, inl, inr, Bool, true, false, Option, none,
  some, List, [], ◌∷◌, ltb, ==_iff, if◌then◌else◌, Bool-cases, All, arith,
}
use gathergo_backend.RateLimit.{
  RateLimitOptions, RateBucket, Buckets, new_bucket, current_bucket, blocked, is_blocked, counted,
  can_activate, admitted,
}

-- What one request leaves of a bucket whose window is not over.
bucket-after :
    (options : RateLimitOptions) (key now : ℕ) (buckets : Buckets) (b : RateBucket)
    → buckets key ≡ some b
    → now ≤ b.reset_at
    → (after : RateBucket) × ((can_activate (some options) key now buckets).0 key ≡ some after)
      × (after.reset_at ≡ b.reset_at)
      × ((if (can_activate (some options) key now buckets).1 then 1 else 0)
            + (options.max - after.count)
          ≤ options.max - b.count)
unfolding can_activate
bucket-after options key now buckets b found open' =
    let running : ltb b.reset_at now ≡ false = ground (arith, open') in
    let own = (==_iff key key).1 refl in
    elim (Bool-cases (is_blocked now b.blocked_until)) [
      | inl hit ↦
          (b, ground (arith, found, running, hit), refl, ground (arith, found, running, hit))
      | inr miss ↦ elim (Bool-cases (ltb options.max (b.count + 1))) [
        | inl over ↦ (
          record b {
            count = b.count + 1;
            blocked_until = some (now + options.cooldown_sec * 1000);
          },
          ground (arith, found, running, miss, over, own),
          refl,
          ground (arith, found, running, miss, over),
        )
        | inr under ↦ (
          counted b,
          ground (arith, found, running, miss, under, own),
          refl,
          ground (arith, found, running, miss, under),
        )
      ]
    ]

within-window :
    (options : RateLimitOptions) (key : ℕ) (times : List ℕ) (buckets : Buckets) (b : RateBucket)
    → buckets key ≡ some b
    → All (λ t. t ≤ b.reset_at) times
    → admitted options key times buckets ≤ options.max - b.count
unfolding admitted
within-window options key [] buckets b found h = omega arith
within-window options key (now ∷ times) buckets b found (h, hs) =
    let (after, found', same, less) = bucket-after options key now buckets b found h in
    let rest =
      within-window options key times (can_activate (some options) key now buckets).0 after found'
        (subst (λ r. All (λ t. t ≤ r) times) (sym same) hs) in
    omega (arith, less, rest)

-- A request of a key without a bucket, or with one whose window is over.
abbrev pub opens_window : ℕ → Option RateBucket → Bool
opens_window now none = true
opens_window now (some b) = ltb b.reset_at now

opens-current :
    (options : RateLimitOptions) (now : ℕ) (o : Option RateBucket)
    → opens_window now o ≡ true
    → current_bucket options now o ≡ new_bucket options now
opens-current options now none h = refl
opens-current options now (some b) h = rw h refl

first-after :
    (options : RateLimitOptions) (key now : ℕ) (buckets : Buckets)
    → opens_window now (buckets key) ≡ true
    → (after : RateBucket) × ((can_activate (some options) key now buckets).0 key ≡ some after)
      × (after.reset_at ≡ now + options.window_sec * 1000)
      × ((if (can_activate (some options) key now buckets).1 then 1 else 0)
            + (options.max - after.count)
          ≤ options.max)
unfolding can_activate
first-after options key now buckets opened =
    let new = opens-current options now (buckets key) opened in
    let own = (==_iff key key).1 refl in
    elim (Bool-cases (ltb options.max 1)) [
      | inl over ↦ (
        blocked options now (counted (new_bucket options now)),
        rw (new, over, own) refl,
        refl,
        rw (new, over) (ground (arith, over)),
      )
      | inr under ↦ (
        counted (new_bucket options now),
        rw (new, under, own) refl,
        refl,
        rw (new, under) (ground (arith, under)),
      )
    ]

-- From a request that opens a window on, at most the maximum of requests are let through until the window
-- ends, at whatever times they come.
pub admitted-le_max :
    (options : RateLimitOptions) (key now : ℕ) (times : List ℕ) (buckets : Buckets)
    → opens_window now (buckets key) ≡ true
    → All (λ t. t ≤ now + options.window_sec * 1000) times
    → admitted options key (now ∷ times) buckets ≤ options.max
unfolding admitted
admitted-le_max options key now times buckets opened h =
    let (after, found, same, less) = first-after options key now buckets opened in
    let rest =
      within-window options key times (can_activate (some options) key now buckets).0 after found
        (subst (λ r. All (λ t. t ≤ r) times) (sym same) h) in
    omega (arith, less, rest)

-- A lockout lasts no longer than the window in which it was set: once that is over the next request is let
-- through, where one is allowed at all, whatever is left of the cooldown.
pub can_activate-window_over :
    (options : RateLimitOptions) (key now : ℕ) (buckets : Buckets) (b : RateBucket)
    → buckets key ≡ some b
    → b.reset_at < now
    → 1 ≤ options.max
    → (can_activate (some options) key now buckets).1 ≡ true
unfolding can_activate
can_activate-window_over options key now buckets b found over allowed =
    ground (arith, found, over, allowed)
