-- ===== src/Client.antt =====
-- pkg/brainapi/client.go: options and defaults, credentials, the gates before a call, and URLs.
pub mod Budgets
pub mod Gate
pub mod Url
pub mod Options
use brainapi_go_sdk.Prelude.{
  ℕ, Bool, true, false, ◌||◌, Option, none, some, List, [], ◌∷◌, ◌++◌, Text, codes, is_empty, ℤ,
  pos, ltb_ℤ, if◌then◌else◌, ◌-ℤ◌,
}
use brainapi_go_sdk.Errors.{Error, wrapped, banned, err_cooldown, err_invalid_argument}
use brainapi_go_sdk.Runtime.{Library, Environment}
use brainapi_go_sdk.Retry.{until, second}
use brainapi_go_sdk.World.{State, World}
use brainapi_go_sdk.World.Monad.{M, ok, err, return, fail, modify}

-- The fields of Client that do not change after NewClient.
pub record Config : Type 0 where
  pub base_path : Text  -- baseURL.Path
  pub profile : Text
  pub proxy : Text
  pub cookie_jar_path : Text
  pub timeout : ℤ
  pub max_retries : ℤ
  pub max_long_polls : ℤ
  pub max_concurrent_sims : ℤ
  pub ban_threshold : ℤ
  pub budget_sims : ℤ  -- dailyBudget.Sims
  pub budget_submits : ℤ  -- dailyBudget.Submits
  pub has_solver : Bool  -- captchaSolver != nil

-- A client in its surroundings.
pub record Setup : Type 0 where
  pub config : Config
  pub open config use *
  pub library : Library
  pub environment : Environment
  pub open environment use *

unfoldable pub set_credentials : Text → Text → M (Unit {0})
set_credentials email password = modify λ s. record s { email = email; password = password }

unfoldable pub clear_credentials : M (Unit {0})
clear_credentials = modify λ s. record s { email = []; password = [] }

unfoldable pub credentials : World → Text × Text
credentials w = (w.state.email, w.state.password)

unfoldable pub is_banned : State → Bool
is_banned s = s.banned_flag

-- Client.Cooldown at a clock reading.
unfoldable pub cooldown : ℤ → State → ℤ
unfolding until
cooldown now s = elim s.cooldown_until [ none ↦ pos 0 | some t ↦ until now t ]

abbrev reason_or_empty : Option Text → Text
reason_or_empty none = []
reason_or_empty (some r) = r

unfoldable pub preflight : Setup → M (Unit {0})
unfolding cooldown
preflight c w =
    if w.state.banned_flag
    then (
      err (
          banned (record {
            streak = w.state.consecutive403;
            reason = reason_or_empty w.state.ban_reason;
          })),
      w,
    )
    else if ltb_ℤ (pos 0) (cooldown (c.now w.tick) w.state)
    then (err (wrapped (codes "remaining") err_cooldown), w)
    else (ok tt, w)

-- errors.go: requireNonEmpty.
unfoldable pub require_non_empty : Text → Text → M (Unit {0})
unfolding is_empty
require_non_empty val name =
    if is_empty val
    then fail (wrapped (name ++ codes " required") err_invalid_argument)
    else return tt
