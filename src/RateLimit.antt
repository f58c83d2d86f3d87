-- ===== src/RateLimit.antt =====
-- ratelimit.go: the global cap on submissions for each interval. A time is a number of
-- nanoseconds; `time.Now()` is the argument of `allow`. The mutex makes each call one step.
pub mod Window
pub mod Recovery
use patchbin.Base.{ℕ, ◌+◌, Bool, true, false, List, [], ◌∷◌, ltb, leb, if◌then◌else◌}

pub record RateLimiter : Type 0 where
  pub max : ℕ
  pub interval : ℕ
  pub count : ℕ
  pub reset_at : ℕ

-- The zero time of `resetAt` is before every time.
unfoldable pub new_rate_limiter : ℕ → ℕ → RateLimiter
new_rate_limiter max interval = record { max = max; interval = interval; count = 0; reset_at = 0 }

-- `if now.After(r.resetAt) { r.count = 0; r.resetAt = now.Add(r.interval) }`
roll_window : ℕ → RateLimiter → RateLimiter
roll_window now r =
    if ltb r.reset_at now then record r { count = 0; reset_at = now + r.interval } else r

unfoldable pub allow : ℕ → RateLimiter → Bool × RateLimiter
unfolding roll_window
allow now r =
    let r' = roll_window now r in
    if leb r'.max r'.count then (false, r') else (true, record r' { count = r'.count + 1 })

-- The limiter and the answers after the calls of `Allow` at the listed times.
unfoldable pub allow_all : List ℕ → RateLimiter → List Bool × RateLimiter
allow_all [] r = ([], r)
allow_all (now ∷ times) r =
    let (answer, r') = allow now r in
    let (answers, r'') = allow_all times r' in (answer ∷ answers, r'')
