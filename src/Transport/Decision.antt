-- ===== src/Transport/Decision.antt =====
-- pkg/brainapi/transport.go: attemptDecision, retryState and the helpers of evaluate.
use brainapi_go_sdk.Prelude.{
  ◌-◌, ◌^◌, neg_part, ℕ, ◌+◌, ◌∷◌, [], Bool, Option, some, Text, ℤ, pos, pos_part, ltb_ℤ, ltb,
  to_int32, if◌then◌else◌, ◌++◌, take, length,
}
use brainapi_go_sdk.Types.{RawResponse}
use brainapi_go_sdk.Errors.{Error, api}
use brainapi_go_sdk.World.{World}
use brainapi_go_sdk.World.Monad.{M, with_state}
use brainapi_go_sdk.Transport.Request.{DoRequest}

-- attemptDecision: terminal(resp, nil), terminal(resp, err), or retryIn(sleep). `looping` stands for
-- a login of the model that ran out of fuel.
pub data AttemptDecision : Type 0 where
  terminal_ok : RawResponse → AttemptDecision
  terminal_err : Option RawResponse → Error → AttemptDecision
  retry_in : ℤ → AttemptDecision
  looping : AttemptDecision

pub record RetryState : Type 0 where
  pub relogged : Bool
  pub long_poll_seen : ℕ
  pub err_attempt : ℕ

abbrev pub Evaluated : Type 0
Evaluated = AttemptDecision × RetryState × World

abbrev pub Relogin : Type 0
Relogin = Text → Text → M (Unit {0})

abbrev pub effective_max_long_polls : ℤ → ℤ → ℤ
effective_max_long_polls client_cap hint_cap =
    if ltb_ℤ (pos 0) hint_cap then hint_cap else client_cap

unfoldable pub short_body : Text → Text
short_body b = if ltb 200 (length b) then take 200 b ++ (0xe2 ∷ 0x80 ∷ 0xa6 ∷ []) else b

abbrev pub reset_streak : World → World
reset_streak w = with_state w (record (w.state) { consecutive403 = pos 0 })

abbrev pub api_error : DoRequest → Text → RawResponse → AttemptDecision
api_error r url resp =
    terminal_err (some resp)
      (api (record { status = resp.status; method = r.method; url = url; body = resp.body }))

-- consecutive403.Add(1), in int32.
unfoldable pub next_streak : ℤ → ℤ
next_streak n = to_int32 (pos_part n + (2 ^ 32 - neg_part n) + 1)
