-- ===== src/RateLimit/Window.antt =====
-- How many submissions the limiter lets through.
use patchbin.Base.{
  ℕ, suc, ◌+◌, ◌*◌, ◌≤◌, ◌<◌, ◌≡◌, ap, Bool, true, false, List, [], ◌∷◌, arith, ◌↔◌, All,
}
use native.Mathlib.Decide.{dec_le}
use patchbin.RateLimit.{RateLimiter, allow, allow_all}

pub granted : List Bool → ℕ
granted [] = 0
granted (true ∷ bs) = suc (granted bs)
granted (false ∷ bs) = granted bs

abbrev pub AllBefore : ℕ → List ℕ → Type 0
AllBefore t = All (λ now. now ≤ t)

pub record IsValid (r : RateLimiter) : Type 0 where
  pub within : r.count ≤ r.max

-- A call of `Allow` keeps the settings, and the counter stays within the cap.
pub allow-IsValid :
    (now : ℕ) (r : RateLimiter)
    → IsValid r
    → IsValid (allow now r).1
      × ((allow now r).1.max ≡ r.max)
      × ((allow now r).1.interval ≡ r.interval)
unfolding allow
allow-IsValid now r v = ground arith

granted-cons : (b : Bool) (bs : List Bool) → granted (b ∷ bs) ≡ granted (b ∷ []) + granted bs
unfolding granted
granted-cons true bs = omega arith
granted-cons false bs = omega arith

-- A call before the window closes leaves its end alone and counts itself if it is granted.
allow_open :
    (now : ℕ) (r : RateLimiter)
    → now ≤ r.reset_at
    → ((allow now r).1.reset_at ≡ r.reset_at)
      × ((allow now r).1.count ≡ r.count + granted ((allow now r).0 ∷ []))
unfolding allow granted
allow_open now r h = ground arith

-- A call after the window has closed opens one that ends an interval later.
allow_closed :
    (now : ℕ) (r : RateLimiter)
    → r.reset_at < now
    → ((allow now r).1.reset_at ≡ now + r.interval)
      × ((allow now r).1.count ≡ granted ((allow now r).0 ∷ []))
unfolding allow granted
allow_closed now r h = ground arith

-- From a limiter whose counter is within the cap: the counter and the submissions that are granted
-- at times up to the end of the open window make at most the cap, whatever the order of the times.
pub window_bound :
    (times : List ℕ) (r : RateLimiter)
    → IsValid r
    → AllBefore r.reset_at times
    → r.count + granted (allow_all times r).0 ≤ r.max
unfolding allow_all
window_bound [] r v h = unfold granted in ground arith
window_bound (now ∷ times) r v (h, hs) =
    let (same, counted) = allow_open now r h in
    let (v', cap, _) = allow-IsValid now r v in
    let later : AllBefore (allow now r).1.reset_at times = rw same hs in
    omega (
      arith,
      granted-cons (allow now r).0 (allow_all times (allow now r).1).0,
      window_bound times (allow now r).1 v' later,
    )

abbrev pub AllWithin : ℕ → ℕ → List ℕ → Type 0
AllWithin lo hi = All (λ now. (lo ≤ now) × (now ≤ hi))

within_before : (lo hi t : ℕ) (times : List ℕ) → AllWithin lo hi times → hi ≤ t → AllBefore t times
within_before lo hi t [] h le = tt
within_before lo hi t (now ∷ times) (h, hs) le = (omega arith, within_before lo hi t times hs le)

interval_bound :
    (times : List ℕ) (r : RateLimiter) (lo : ℕ)
    → IsValid r
    → AllWithin lo (lo + r.interval) times
    → r.count + granted (allow_all times r).0 ≤ 2 * r.max
unfolding allow_all
interval_bound [] r lo v h = unfold granted in ground arith
interval_bound (now ∷ times) r lo v (h, hs) =
    let (v', cap, kept) = allow-IsValid now r v in
    let sum = granted-cons (allow now r).0 (allow_all times (allow now r).1).0 in
    elim (dec_le now r.reset_at) [
      | yes early ↦
          let (same, counted) = allow_open now r early in
          let hs' : AllWithin lo (lo + (allow now r).1.interval) times = rw kept hs in
          omega (arith, sum, interval_bound times (allow now r).1 lo v' hs')
      | no late ↦
          let (reset, counted) = allow_closed now r (omega arith) in
          omega (
            arith,
            sum,
            window_bound times (allow now r).1 v' (
                within_before lo (lo + r.interval) (allow now r).1.reset_at times hs (omega arith)),
          )
    ]

-- From a limiter whose counter is within the cap: the submissions that are granted at times within
-- one interval, whatever their order, are at most twice the cap.
pub sliding_bound :
    (times : List ℕ) (r : RateLimiter) (lo : ℕ)
    → IsValid r
    → AllWithin lo (lo + r.interval) times
    → granted (allow_all times r).0 ≤ 2 * r.max
sliding_bound times r lo v h = omega (arith, interval_bound times r lo v h)

-- For a cap that is not zero, a call is refused exactly when the window is still open and the cap
-- is reached, and exactly then it refuses and leaves the limiter as it was.
pub refused_iff :
    (now : ℕ) (r : RateLimiter)
    → 0 < r.max
    → (((allow now r).0 ≡ false) ↔ ((now ≤ r.reset_at) × (r.max ≤ r.count)))
      × ((allow now r ≡ (false, r)) ↔ ((now ≤ r.reset_at) × (r.max ≤ r.count)))
unfolding allow
refused_iff now r h = (
  (λ e. (ground arith, ground arith), λ e. ground arith),
  (
    λ e. let e' = ap (λ (p : Bool × RateLimiter). p.0) e in (ground arith, ground arith),
    λ e. ground arith,
  ),
)
