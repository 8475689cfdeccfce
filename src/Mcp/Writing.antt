-- ===== src/Mcp/Writing.antt =====
-- cmd/brainapi-mcp/main.go: the functions of the tools that registerWriteTools adds by addTool.
use brainapi_go_sdk.Prelude.{Bool, List, Text, ℤ, Option, codes}
use brainapi_go_sdk.World.Monad.{M, return, ◌>>=◌}
use brainapi_go_sdk.Errors.{Error}
use brainapi_go_sdk.Types.{RegisterInput, Session, SimulationRequest}
use brainapi_go_sdk.Client.{Setup}
use brainapi_go_sdk.Retry.{RateLimit}
use brainapi_go_sdk.Auth.{logout, complete_persona}
use brainapi_go_sdk.Transport.Login.{login}
use brainapi_go_sdk.Account.{verify_email, reverify_email, forgot_password, reset_password}
use brainapi_go_sdk.Register.{register, CaptchaSolver}
use brainapi_go_sdk.Simulations.{create_simulation, create_multi_simulation}
use brainapi_go_sdk.Mcp.{ok_wrap}

pub record RateLimitOut : Type 0 where
  pub limit : ℤ
  pub remaining : ℤ
  pub reset_seconds : ℤ
  pub present : Bool

-- rateLimitToOut; `whole_seconds` is int(d.Seconds()).
unfoldable pub rate_limit_to_out : (ℤ → ℤ) → RateLimit → RateLimitOut
rate_limit_to_out whole_seconds rl = record {
  limit = rl.limit;
  remaining = rl.remaining;
  reset_seconds = whole_seconds rl.reset;
  present = rl.present;
}

pub record SimCreateResult : Type 0 where
  pub id : Text
  pub rate_limit : RateLimitOut

pub record MultiSimCreateResult : Type 0 where
  pub parent_id : Text
  pub rate_limit : RateLimitOut

module _ (c : Setup) (whole_seconds : ℤ → ℤ) (slot : Option Error) where
  unfoldable pub simulations_create : SimulationRequest → M SimCreateResult
  unfolding rate_limit_to_out
  simulations_create req = do
    res ← create_simulation c slot req
    return (record { id = res.id; rate_limit = rate_limit_to_out whole_seconds res.rate_limit })

  unfoldable pub simulations_create_multi : List SimulationRequest → M MultiSimCreateResult
  unfolding rate_limit_to_out
  simulations_create_multi reqs = do
    res ← create_multi_simulation c slot reqs
    return
        (record { parent_id = res.id; rate_limit = rate_limit_to_out whole_seconds res.rate_limit })

abbrev pub register_tool :
    {T : Type 0} → Setup → CaptchaSolver → (Text → Option T) → RegisterInput → M (Option T)
register_tool = register

-- `getenv` is os.Getenv.
module _ (c : Setup) (getenv : Text → Text) where
  unfoldable pub login_tool : M Session
  login_tool = login c (getenv (codes "BRAINAPI_USER")) (getenv (codes "BRAINAPI_PASS"))

  unfoldable pub persona_complete : Text → M Session
  persona_complete inquiry =
      complete_persona c inquiry (getenv (codes "BRAINAPI_USER")) (getenv (codes "BRAINAPI_PASS"))

module _ (c : Setup) where
  abbrev pub logout_tool : M Bool
  logout_tool = ok_wrap (logout c)

  abbrev pub email_verify : Text → M Bool
  email_verify jwt = ok_wrap (verify_email c jwt)

  abbrev pub email_reverify : Text → Text → M Bool
  email_reverify email recaptcha = ok_wrap (reverify_email c email recaptcha)

  abbrev pub password_forgot : Text → Text → M Bool
  password_forgot email recaptcha = ok_wrap (forgot_password c email recaptcha)

  abbrev pub password_reset : Text → Text → M Bool
  password_reset jwt new_password = ok_wrap (reset_password c jwt new_password)
