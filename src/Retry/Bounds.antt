-- ===== src/Retry/Bounds.antt =====
-- The range of every sleep that the retry policy computes.
use brainapi_go_sdk.Prelude.{◌⊎◌, ℕ, suc, ◌+◌, ◌*◌, ◌<◌, ◌≡◌, ℤ, pos, ◌≤ℤ◌, arith, ◌^◌, min}
use brainapi_go_sdk.Retry.{
  clamp, times, second, server_err_floor, server_err_ceiling, network_err_floor,
  network_err_ceiling,
}

-- With lo at most hi, clamp(d, lo, hi) lies in [lo, hi]; it is d itself, or lo where d is at most
-- lo, or hi where d is at least hi; and it is monotone in d.
pub clamp_bounds :
    (d e lo hi : ℤ)
    → lo ≤ℤ hi
    → d ≤ℤ e
    → (lo ≤ℤ clamp d lo hi)
      × (clamp d lo hi ≤ℤ hi)
      × ((clamp d lo hi ≡ d)
          ⊎ ((clamp d lo hi ≡ lo) × (d ≤ℤ lo))
          ⊎ ((clamp d lo hi ≡ hi) × (hi ≤ℤ d)))
      × (clamp d lo hi ≤ℤ clamp e lo hi)
unfolding clamp
clamp_bounds d e lo hi h m = ground arith

pub clamp_range : (d lo hi : ℤ) → lo ≤ℤ hi → (lo ≤ℤ clamp d lo hi) × (clamp d lo hi ≤ℤ hi)
unfolding clamp
clamp_range d lo hi h = ground arith

-- The sleep before a retry grows with each failed attempt by one floor, up to the ceiling: after n
-- failed attempts it is min((n + 1) · 5 s, 15 s) for a server error and min((n + 1) · 2 s, 15 s) for
-- a network error, as long as n + 1 is below 2^30.
pub backoff_linear :
    (n : ℕ)
    → suc n < 2 ^ 30
    → (clamp (times (n + 1) server_err_floor) server_err_floor server_err_ceiling
        ≡ pos (min ((n + 1) * (5 * second)) (15 * second)))
      × (clamp (times (n + 1) network_err_floor) network_err_floor network_err_ceiling
          ≡ pos (min ((n + 1) * (2 * second)) (15 * second)))
unfolding clamp times
backoff_linear n h = (ground arith, ground arith)
