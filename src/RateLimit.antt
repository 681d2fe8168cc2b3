-- ===== src/RateLimit.antt =====
-- `RateLimitGuard` of common/guards/rate-limit.guard.ts. The key of a request, a text of its route, address
-- and identity, is a number; `now` is `Date.now()`, and `options` are those of the route, with the cooldown
-- that applies.
mod Tests
pub mod Window
use gathergo_backend.Base.{
  ℕ, ◌+◌, ◌*◌, Bool, true, false, ◌&&◌, Option, none, some, List, [], ◌∷◌, ltb, leb, ◌==◌,
  if◌then◌else◌, put,
}

pub record RateLimitOptions : Type 0 where
  pub max : ℕ
  pub window_sec : ℕ
  pub cooldown_sec : ℕ

pub record RateBucket : Type 0 where
  pub count : ℕ
  pub reset_at : ℕ
  pub blocked_until : Option ℕ

abbrev pub Buckets : Type 0
Buckets = ℕ → Option RateBucket

abbrev pub new_bucket : RateLimitOptions → ℕ → RateBucket
new_bucket options now = record {
  count = 0;
  reset_at = now + options.window_sec * 1000;
  blocked_until = none;
}

abbrev pub current_bucket : RateLimitOptions → ℕ → Option RateBucket → RateBucket
current_bucket options now none = new_bucket options now
current_bucket options now (some b) = if ltb b.reset_at now then new_bucket options now else b

-- `blockedUntil && now < blockedUntil`.
abbrev pub is_blocked : ℕ → Option ℕ → Bool
is_blocked now none = false
is_blocked now (some until) = ltb 0 until && ltb now until

abbrev pub counted : RateBucket → RateBucket
counted b = record b { count = b.count + 1 }

abbrev pub blocked : RateLimitOptions → ℕ → RateBucket → RateBucket
blocked options now b = record b { blocked_until = some (now + options.cooldown_sec * 1000) }

-- The buckets after a request, and whether it is let through: a thrown 429 is `false`.
unfoldable pub can_activate : Option RateLimitOptions → (key now : ℕ) → Buckets → Buckets × Bool
can_activate none key now buckets = (buckets, true)
can_activate (some options) key now buckets =
    let bucket = current_bucket options now (buckets key) in
    if is_blocked now bucket.blocked_until
    then (buckets, false)
    else (let next = counted bucket in
        if ltb options.max next.count
        then (put buckets key (blocked options now next), false)
        else (put buckets key next, true))

-- Requests of one key at the given times, one after the other: how many are let through.
unfoldable pub admitted : RateLimitOptions → (key : ℕ) → List ℕ → Buckets → ℕ
unfolding can_activate
admitted options key [] buckets = 0
admitted options key (now ∷ times) buckets =
    let (next, passed) = can_activate (some options) key now buckets in
    (if passed then 1 else 0) + admitted options key times next
