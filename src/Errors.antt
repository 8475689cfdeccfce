-- ===== src/Errors.antt =====
-- pkg/brainapi/errors.go: the error values, and what unwraps them.
pub mod Classify
pub mod Kinds
use brainapi_go_sdk.Prelude.{ℕ, Bool, Option, none, some, List, Text, ℤ}

pub record ApiError : Type 0 where
  pub status : ℕ
  pub method : Text
  pub url : Text
  pub body : Text

pub record RateLimitError : Type 0 where
  pub status : ℕ
  pub retry_after : ℤ
  pub cooldown : Bool
  pub url : Text
  pub body : Text

pub record BannedError : Type 0 where
  pub streak : ℤ
  pub reason : Text

pub record NotVerifiedError : Type 0 where
  pub email : Text
  pub status : ℕ
  pub body : Text

pub record PermissionDeniedError : Type 0 where
  pub status : ℕ
  pub detail : Text
  pub body : Text

pub record DrfError : Type 0 where
  pub status : ℕ
  pub fields : List (Text × List Text)
  pub url : Text

pub record PersonaInquiryError : Type 0 where
  pub inquiry : Text

-- The typed errors, the sentinels, those of the packages `context` and `net`, any other value, and
-- fmt.Errorf with %w. `net_wrapped` is a net.Error that wraps another error (url.Error).
pub data Error : Type 0 where
  api : ApiError → Error
  rate_limit : RateLimitError → Error
  banned : BannedError → Error
  not_verified : NotVerifiedError → Error
  permission_denied : PermissionDeniedError → Error
  drf : DrfError → Error
  persona_inquiry : PersonaInquiryError → Error
  err_not_authenticated : Error
  err_daily_budget_exhausted : Error
  err_cooldown : Error
  err_long_poll_exceeded : Error
  err_invalid_argument : Error
  canceled : Error
  deadline_exceeded : Error
  net : Text → Error
  opaque : Text → Error
  wrapped : Text → Error → Error
  net_wrapped : Text → Error → Error

-- errors.As for each type: the first such error of the chain.
unfoldable pub as_api_error : Error → Option ApiError
as_api_error (api e) = some e
as_api_error (wrapped m e) = as_api_error e
as_api_error (net_wrapped m e) = as_api_error e
as_api_error _ = none

unfoldable pub as_rate_limit_error : Error → Option RateLimitError
as_rate_limit_error (rate_limit e) = some e
as_rate_limit_error (wrapped m e) = as_rate_limit_error e
as_rate_limit_error (net_wrapped m e) = as_rate_limit_error e
as_rate_limit_error _ = none

unfoldable pub as_banned_error : Error → Option BannedError
as_banned_error (banned e) = some e
as_banned_error (wrapped m e) = as_banned_error e
as_banned_error (net_wrapped m e) = as_banned_error e
as_banned_error _ = none

unfoldable pub as_permission_denied_error : Error → Option PermissionDeniedError
as_permission_denied_error (permission_denied e) = some e
as_permission_denied_error (wrapped m e) = as_permission_denied_error e
as_permission_denied_error (net_wrapped m e) = as_permission_denied_error e
as_permission_denied_error _ = none

unfoldable pub as_drf_error : Error → Option DrfError
as_drf_error (drf e) = some e
as_drf_error (wrapped m e) = as_drf_error e
as_drf_error (net_wrapped m e) = as_drf_error e
as_drf_error _ = none

unfoldable pub as_not_verified_error : Error → Option NotVerifiedError
as_not_verified_error (not_verified e) = some e
as_not_verified_error (wrapped m e) = as_not_verified_error e
as_not_verified_error (net_wrapped m e) = as_not_verified_error e
as_not_verified_error _ = none

unfoldable pub as_persona_inquiry_error : Error → Option PersonaInquiryError
as_persona_inquiry_error (persona_inquiry e) = some e
as_persona_inquiry_error (wrapped m e) = as_persona_inquiry_error e
as_persona_inquiry_error (net_wrapped m e) = as_persona_inquiry_error e
as_persona_inquiry_error _ = none
