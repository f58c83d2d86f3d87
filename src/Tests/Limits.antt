-- ===== src/Tests/Limits.antt =====
-- The rate limiter, at concrete times.
use patchbin.Base.{◌+◌, ◌*◌, ◌≤◌, true, false, [], ◌∷◌, ◌↔◌, ◌≡◌, refl, arith}
use patchbin.RateLimit.{RateLimiter, allow, allow_all}
use patchbin.RateLimit.Window.{IsValid, window_bound, sliding_bound, refused_iff, granted}
use patchbin.RateLimit.Recovery.{allow_all-recovers}

-- Two calls each ten nanoseconds, of which one has been made.
abbrev limiter : RateLimiter
limiter = record { max = 2; interval = 10; count = 1; reset_at = 15 }

limiter-IsValid : IsValid limiter
limiter-IsValid = record { within = omega arith }

sliding_bound_example : granted (allow_all (12 ∷ 14 ∷ 16 ∷ 20 ∷ []) limiter).0 ≤ 2 * 2
sliding_bound_example =
    sliding_bound (12 ∷ 14 ∷ 16 ∷ 20 ∷ []) limiter 11 limiter-IsValid (omega arith)

window_bound_example : 1 + granted (allow_all (12 ∷ 14 ∷ 15 ∷ []) limiter).0 ≤ 2
window_bound_example = window_bound (12 ∷ 14 ∷ 15 ∷ []) limiter limiter-IsValid (omega arith)

refused_iff_example :
    (((allow 12 limiter).0 ≡ false) ↔ ((12 ≤ 15) × (2 ≤ 1)))
    × ((allow 12 limiter ≡ (false, limiter)) ↔ ((12 ≤ 15) × (2 ≤ 1)))
refused_iff_example = refused_iff 12 limiter (omega arith)

-- A fixed window lets twice the cap through within one interval.
twice_within_interval : (allow_all (14 ∷ 16 ∷ 17 ∷ []) limiter).0 ≡ true ∷ true ∷ true ∷ []
unfolding allow_all allow
twice_within_interval = refl

allow_all-recovers_example : (allow 31 (allow_all (12 ∷ 14 ∷ 20 ∷ []) limiter).1).0 ≡ true
allow_all-recovers_example =
    allow_all-recovers (12 ∷ 14 ∷ 20 ∷ []) 20 31 limiter (omega arith) (omega arith) (omega arith)
      (omega arith)
