-- ===== src/Errors/Classify.antt =====
-- pkg/brainapi/errors.go: Classify, and errors.Is on the sentinels.
use brainapi_go_sdk.Prelude.{
  ℕ, Bool, true, false, ◌||◌, none, some, List, [], ◌∷◌, Text, ℤ, trim_space, ◌==◌, if◌then◌else◌,
}
use brainapi_go_sdk.Errors.{
  Error, err_not_authenticated, err_daily_budget_exhausted, err_cooldown, err_long_poll_exceeded,
  err_invalid_argument, canceled, deadline_exceeded, net, wrapped, net_wrapped, as_api_error,
  as_rate_limit_error, as_banned_error, as_permission_denied_error, as_drf_error,
  as_not_verified_error, as_persona_inquiry_error,
}

-- errors.Is for each sentinel.
unfoldable pub is_daily_budget_exhausted : Error → Bool
is_daily_budget_exhausted err_daily_budget_exhausted = true
is_daily_budget_exhausted (wrapped m e) = is_daily_budget_exhausted e
is_daily_budget_exhausted (net_wrapped m e) = is_daily_budget_exhausted e
is_daily_budget_exhausted _ = false

unfoldable pub is_not_authenticated : Error → Bool
is_not_authenticated err_not_authenticated = true
is_not_authenticated (wrapped m e) = is_not_authenticated e
is_not_authenticated (net_wrapped m e) = is_not_authenticated e
is_not_authenticated _ = false

unfoldable pub is_cooldown : Error → Bool
is_cooldown err_cooldown = true
is_cooldown (wrapped m e) = is_cooldown e
is_cooldown (net_wrapped m e) = is_cooldown e
is_cooldown _ = false

unfoldable pub is_long_poll_exceeded : Error → Bool
is_long_poll_exceeded err_long_poll_exceeded = true
is_long_poll_exceeded (wrapped m e) = is_long_poll_exceeded e
is_long_poll_exceeded (net_wrapped m e) = is_long_poll_exceeded e
is_long_poll_exceeded _ = false

unfoldable pub is_context : Error → Bool
is_context canceled = true
is_context deadline_exceeded = true
is_context (wrapped m e) = is_context e
is_context (net_wrapped m e) = is_context e
is_context _ = false

unfoldable pub is_invalid_argument : Error → Bool
is_invalid_argument err_invalid_argument = true
is_invalid_argument (wrapped m e) = is_invalid_argument e
is_invalid_argument (net_wrapped m e) = is_invalid_argument e
is_invalid_argument _ = false

-- errors.As into net.Error; context.DeadlineExceeded implements that interface too.
unfoldable pub is_net_error : Error → Bool
is_net_error (net m) = true
is_net_error deadline_exceeded = true
is_net_error (net_wrapped m e) = true
is_net_error (wrapped m e) = is_net_error e
is_net_error _ = false

-- The kind strings.
pub data Kind : Type 0 where
  api_kind rate_limit_kind banned_kind permission_denied_kind drf_validation_kind : Kind
  not_verified_kind persona_inquiry_kind budget_kind not_authenticated_kind cooldown_kind : Kind
  long_poll_exceeded_kind context_kind invalid_argument_kind network_kind error_kind : Kind

-- A body in the details: raw JSON, or text.
pub data BodyDetail : Type 0 where
  raw_json : Text → BodyDetail
  plain : Text → BodyDetail

unfoldable pub json_or_string : Text → BodyDetail
json_or_string b = elim (trim_space b) [
  | [] ↦ plain []
  | c ∷ rest ↦ if c == b'{' || c == b'[' then raw_json b else plain (c ∷ rest)
]

pub data Details : Type 0 where
  no_details : Details
  api_details : ℕ → Text → Text → BodyDetail → Details
  rate_limit_details : ℕ → ℤ → Bool → BodyDetail → Details
  banned_details : ℤ → Text → Details
  permission_details : ℕ → Text → BodyDetail → Details
  drf_details : ℕ → Text → List (Text × List Text) → Details
  not_verified_details : ℕ → BodyDetail → Details
  persona_details : Text → Details

-- The `errors.Is` part of the switch, and the default.
unfoldable pub classify_sentinel : Error → Kind
unfolding is_daily_budget_exhausted is_not_authenticated is_cooldown is_long_poll_exceeded
    is_context is_invalid_argument is_net_error
classify_sentinel e =
    if is_daily_budget_exhausted e
    then budget_kind
    else if is_not_authenticated e
    then not_authenticated_kind
    else if is_cooldown e
    then cooldown_kind
    else if is_long_poll_exceeded e
    then long_poll_exceeded_kind
    else if is_context e
    then context_kind
    else if is_invalid_argument e
    then invalid_argument_kind
    else if is_net_error e
    then network_kind
    else error_kind

-- The `errors.As` part from BannedError on, in the order of the switch.
unfoldable pub classify_other : Error → Kind × Details
unfolding as_banned_error as_permission_denied_error as_drf_error as_not_verified_error
    as_persona_inquiry_error classify_sentinel
classify_other e = elim (as_banned_error e) [
  | some x ↦ (banned_kind, banned_details x.streak x.reason)
  | none ↦ elim (as_permission_denied_error e) [
    | some x ↦
        (permission_denied_kind, permission_details x.status x.detail (json_or_string x.body))
    | none ↦ elim (as_drf_error e) [
      | some x ↦ (drf_validation_kind, drf_details x.status x.url x.fields)
      | none ↦ elim (as_not_verified_error e) [
        | some x ↦ (not_verified_kind, not_verified_details x.status (json_or_string x.body))
        | none ↦ elim (as_persona_inquiry_error e) [
          | some x ↦ (persona_inquiry_kind, persona_details x.inquiry)
          | none ↦ (classify_sentinel e, no_details)
        ]
      ]
    ]
  ]
]

-- The retry-after of the details stays in nanoseconds.
unfoldable pub classify : Error → Kind × Details
unfolding as_api_error as_rate_limit_error classify_other
classify e = elim (as_api_error e) [
  | some x ↦ (api_kind, api_details x.status x.method x.url (json_or_string x.body))
  | none ↦ elim (as_rate_limit_error e) [
    | some x ↦ (
      rate_limit_kind,
      rate_limit_details x.status x.retry_after x.cooldown (json_or_string x.body),
    )
    | none ↦ classify_other e
  ]
]
