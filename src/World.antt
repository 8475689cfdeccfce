-- ===== src/World.antt =====
-- The state that a call reads and changes: the fields of Client that change (pkg/brainapi/client.go),
-- the moment, and what the call did, newest first. An operation is a function of this state; one
-- goroutine runs at a time.
pub mod Monad
use brainapi_go_sdk.Prelude.{ℕ, Bool, Option, List, Text, ℤ}
use brainapi_go_sdk.Types.{RawRequest}

pub record Budget : Type 0 where
  pub day : Text
  pub sims : ℕ
  pub subs : ℕ

pub record State : Type 0 where
  pub email : Text
  pub password : Text
  pub consecutive403 : ℤ
  pub banned_flag : Bool
  pub ban_reason : Option Text
  pub cooldown_until : Option ℤ
  pub budget : Budget

pub data RetryKind : Type 0 where
  unauthorized forbidden rate_limited server_error network cooldown_set : RetryKind

-- `sent` is an HTTP exchange, `slept` a sleep that was begun, the `observe`s are the calls of the
-- Observer (method, path, status or iteration, attempt, kind, sleep), and `jar_cleared` is clearJar.
pub data Event : Type 0 where
  sent : RawRequest → Event
  slept : ℤ → Event
  observe_request : Text → Text → ℕ → Event
  observe_retry : Text → Text → ℕ → ℕ → RetryKind → ℤ → Event
  observe_long_poll : Text → Text → ℕ → ℤ → Event
  jar_cleared : Event

pub record World : Type 0 where
  pub state : State
  pub tick : ℕ
  pub trace : List Event
