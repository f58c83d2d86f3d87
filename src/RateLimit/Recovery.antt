-- ===== src/RateLimit/Recovery.antt =====
-- When the limiter of ratelimit.go opens again.
use patchbin.Base.{ℕ, ◌+◌, ◌-◌, ◌≤◌, ◌<◌, ◌≡◌, refl, ◌∙◌, true, List, [], ◌∷◌, arith}
use patchbin.RateLimit.{RateLimiter, allow, allow_all}
use patchbin.RateLimit.Window.{AllBefore}

-- A call moves the end of the window to an interval behind itself at most.
allow-reset_at :
    (now bound : ℕ) (r : RateLimiter)
    → r.reset_at ≤ bound
    → now + r.interval ≤ bound
    → ((allow now r).1.reset_at ≤ bound)
      × ((allow now r).1.interval ≡ r.interval)
      × ((allow now r).1.max ≡ r.max)
unfolding allow
allow-reset_at now bound r up later = ground arith

allow_all-reset_at :
    (times : List ℕ) (t bound : ℕ) (r : RateLimiter)
    → AllBefore t times
    → r.reset_at ≤ bound
    → t + r.interval ≤ bound
    → ((allow_all times r).1.reset_at ≤ bound) × ((allow_all times r).1.max ≡ r.max)
unfolding allow_all
allow_all-reset_at [] t bound r before up later = (up, refl)
allow_all-reset_at (now ∷ times) t bound r (h, hs) up later =
    let (up', kept, cap) = allow-reset_at now bound r up (omega arith) in
    let (ends, cap') = allow_all-reset_at times t bound (allow now r).1 hs up' (omega arith) in
    (ends, cap' ∙ cap)

allow-closed : (now : ℕ) (r : RateLimiter) → 0 < r.max → r.reset_at < now → (allow now r).0 ≡ true
unfolding allow
allow-closed now r filled closed = ground arith

-- With a cap above zero: whatever calls were made up to a time `t`, granted or refused and in any
-- order, a call is granted once the window that was open at first and an interval from `t` are over.
pub allow_all-recovers :
    (times : List ℕ) (t now : ℕ) (r : RateLimiter)
    → 0 < r.max
    → AllBefore t times
    → r.reset_at < now
    → t + r.interval < now
    → (allow now (allow_all times r).1).0 ≡ true
allow_all-recovers times t now r filled before up later =
    let (ends, cap) = allow_all-reset_at times t (now - 1) r before (omega arith) (omega arith) in
    allow-closed now (allow_all times r).1 (omega arith) (omega arith)
