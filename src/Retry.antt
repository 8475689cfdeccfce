-- ===== src/Retry.antt =====
-- pkg/brainapi/retry.go: the headers that steer a retry, the bounds on its sleep, and the hints that
-- an endpoint gives. Durations are integers of nanoseconds.
pub mod Bounds
use brainapi_go_sdk.Prelude.{
  ℕ, suc, ◌+◌, ◌-◌, ◌*◌, ◌^◌, Bool, true, false, ◌&&◌, ◌||◌, Option, none, some, List, [], ◌∷◌,
  Text, codes, trim_space, to_lower, contains, ℤ, pos, negsuc, ltb_ℤ, leb_ℤ, leb, ltb, ◌==◌,
  to_int64, if◌then◌else◌, pos_part, neg_part, ◌-ℤ◌,
}
use brainapi_go_sdk.Runtime.{Library, ParsedFloat}

abbrev pub second : ℕ
second = 1_000_000_000

abbrev pub rate_limit_floor : ℤ
rate_limit_floor = pos (1 * second)

abbrev pub rate_limit_ceiling : ℤ
rate_limit_ceiling = pos (120 * second)

abbrev pub long_poll_floor : ℤ
long_poll_floor = pos 500_000_000

abbrev pub long_poll_ceiling : ℤ
long_poll_ceiling = pos (30 * second)

abbrev pub server_err_floor : ℤ
server_err_floor = pos (5 * second)

abbrev pub server_err_ceiling : ℤ
server_err_ceiling = pos (15 * second)

abbrev pub network_err_floor : ℤ
network_err_floor = pos (2 * second)

abbrev pub network_err_ceiling : ℤ
network_err_ceiling = pos (15 * second)

-- The product of a count and a duration, in int64.
unfoldable pub times : ℕ → ℤ → ℤ
times n d = to_int64 (n * pos_part d)

unfoldable pub clamp : ℤ → ℤ → ℤ → ℤ
clamp d lo hi = if ltb_ℤ d lo then lo else if ltb_ℤ hi d then hi else d

-- time.Until of a parsed date, and zero for a date that has passed.
unfoldable pub until : ℤ → ℤ → ℤ
until now t = let d = t -ℤ now in if ltb_ℤ d (pos 0) then pos 0 else d

parse_http_date : Library → ℤ → Text → Option ℤ
unfolding until
parse_http_date lib now h = elim (lib.parse_rfc1123 h) [ none ↦ none | some t ↦ some (until now t) ]

parse_retry_trimmed : Library → ℤ → Text → Option ℤ
unfolding parse_http_date
parse_retry_trimmed lib now [] = none
parse_retry_trimmed lib now (c ∷ h) = elim (lib.parse_float (c ∷ h)) [
  | none ↦ parse_http_date lib now (c ∷ h)
  | some f ↦ if f.nonneg then some f.seconds else parse_http_date lib now (c ∷ h)
]

-- `none` is ok=false.
unfoldable pub parse_retry_after : Library → ℤ → Text → Option ℤ
unfolding parse_retry_trimmed
parse_retry_after lib now h = parse_retry_trimmed lib now (trim_space h)

-- strconv.Atoi: an optional sign, decimal digits, and the range of int64.
unfoldable pub digits_value : ℕ → Text → Option ℕ
digits_value acc [] = some acc
digits_value acc (c ∷ s) =
    let rest = digits_value (acc * 10 + (c - 48)) s in
    if leb b'0' c && leb c b'9' then rest else none

unfoldable pub decimal : Text → Option ℕ
unfolding digits_value
decimal [] = none
decimal (c ∷ s) = digits_value 0 (c ∷ s)

unfoldable pub atoi : Text → Option ℤ
unfolding decimal
atoi [] = none
atoi (c ∷ s) =
    if c == b'-'
    then elim (decimal s) [
      | none ↦ none
      | some n ↦ if leb n (2 ^ 63) then some (pos 0 -ℤ pos n) else none
    ]
    else elim (decimal (if c == b'+' then s else c ∷ s)) [
      | none ↦ none
      | some n ↦ if ltb n (2 ^ 63) then some (pos n) else none
    ]

unfoldable pub parse_header_int : Library → Text → Option ℤ
unfolding atoi
parse_header_int lib h =
    let t = trim_space h in
    elim t [
      | [] ↦ none
      | c ∷ s ↦ elim (atoi (c ∷ s)) [
        | some n ↦ some n
        | none ↦ elim (lib.parse_float (c ∷ s)) [ none ↦ none | some f ↦ some f.truncated ]
      ]
    ]

-- Limit, Remaining, Reset and Present. The library's int64 product is left to `seconds_of`.
pub record RateLimit : Type 0 where
  pub limit : ℤ
  pub remaining : ℤ
  pub reset : ℤ
  pub present : Bool

-- time.Duration(rst) * time.Second, in int64.
unfoldable pub seconds_of : ℤ → ℤ
seconds_of n = to_int64 (pos_part n * second + neg_part n * (2 ^ 64 - second))

abbrev or_zero : Option ℤ → ℤ
or_zero none = pos 0
or_zero (some n) = n

abbrev is_ok {ℓ} : {A : Type ℓ} → Option A → Bool
is_ok none = false
is_ok (some _) = true

unfoldable pub parse_rate_limit : Library → Text → Text → Text → RateLimit
unfolding parse_header_int seconds_of
parse_rate_limit lib limit remaining reset = record {
  limit = or_zero (parse_header_int lib limit);
  remaining = or_zero (parse_header_int lib remaining);
  reset = elim (parse_header_int lib reset) [ none ↦ pos 0 | some n ↦ seconds_of n ];
  present =
      is_ok (parse_header_int lib limit)
      || (is_ok (parse_header_int lib remaining) || is_ok (parse_header_int lib reset));
}

unfoldable pub is_cooldown_body : Text → Bool
is_cooldown_body body =
    let s = to_lower body in
    contains s (codes "concurrent") || contains s (codes "previous to finish")

pub record RetryHints : Type 0 where
  pub long_poll503 : Bool
  pub accept503 : Bool
  pub long_poll200_empty : Bool
  pub no_auto_relogin : Bool
  pub max_long_polls : ℤ

-- The zero value.
abbrev pub no_hints : RetryHints
no_hints = record {
  long_poll503 = false;
  accept503 = false;
  long_poll200_empty = false;
  no_auto_relogin = false;
  max_long_polls = pos 0;
}
