-- ===== src/RateLimit/Tests.antt =====
-- A route that allows two requests in ten minutes, and locks out for fifteen.
use gathergo_backend.Base.{◌≤◌, ◌≡◌, refl, true, none, some, [], ◌∷◌, ◌==◌, if◌then◌else◌, arith}
use gathergo_backend.RateLimit.{RateLimitOptions, RateBucket, Buckets, can_activate, admitted}
use gathergo_backend.RateLimit.Window.{admitted-le_max, can_activate-window_over}

abbrev options : RateLimitOptions
options = record { max = 2; window_sec = 600; cooldown_sec = 900 }

abbrev empty : Buckets
empty key = none

two_of_four : admitted options 7 (1000 ∷ 2000 ∷ 3000 ∷ 4000 ∷ []) empty ≡ 2
unfolding admitted can_activate
two_of_four = refl

admitted-le_max_example : admitted options 7 (1000 ∷ 2000 ∷ 3000 ∷ 4000 ∷ []) empty ≤ 2
admitted-le_max_example =
    admitted-le_max options 7 1000 (2000 ∷ 3000 ∷ 4000 ∷ []) empty refl
      (omega arith, (omega arith, (omega arith, tt)))

-- Locked out until 903000, with a window that ends at 601000.
abbrev locked : RateBucket
locked = record { count = 3; reset_at = 601000; blocked_until = some 903000 }

abbrev locked_out : Buckets
locked_out key = if key == 7 then some locked else none

can_activate-window_over_example : (can_activate (some options) 7 602000 locked_out).1 ≡ true
can_activate-window_over_example =
    can_activate-window_over options 7 602000 locked_out locked refl (omega arith) (omega arith)
