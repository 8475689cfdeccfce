-- ===== src/Cli/Account.antt =====
-- cmd/brainapi: the commands auth (cmd_auth.go), users (cmd_users.go), messages (cmd_messages.go),
-- email (cmd_email.go), password (cmd_password.go), register (cmd_register.go), feedback
-- (cmd_feedback.go) and version (main.go). A flag is an argument; `decode` is json.Unmarshal.
use brainapi_go_sdk.Prelude.{
  not, [], length, is_empty, ◌||◌, ◌∷◌, text_eq, codes, Bool, Option, Text, ℕ, List, if◌then◌else◌,
}
use brainapi_go_sdk.Cli.Shell.{refuse, with_body, Run, Shell, run_e}
use brainapi_go_sdk.World.Monad.{diverged, err, ok, return, continue, ◌>>=◌, Outcome, M}
use brainapi_go_sdk.Feedback.{
  failed, done, Env, Host, PostRequest, config_from_env, Result, file, Try,
}
use brainapi_go_sdk.World.{World}
use brainapi_go_sdk.Cli.{misused, write_err, success, Exit, first_non_empty}
use brainapi_go_sdk.Iterators.{Page, drain_all, messages_all, Stream}
use brainapi_go_sdk.Account.{
  activities, messages, diversity, ListMessagesOptions, forgot_password, reverify_email,
  reset_password, verify_email, self, competitions,
}
use brainapi_go_sdk.Types.{RegisterInput, Decoded, Session}
use brainapi_go_sdk.Auth.{logout, probe}
use brainapi_go_sdk.Decoders.{RecordSetBlock, Json, decode_activities}
use brainapi_go_sdk.Transport.Login.{login}
use brainapi_go_sdk.Errors.{opaque, Error}
use brainapi_go_sdk.Register.{register, CaptchaSolver}

-- What a listing command writes: a page, or {"count", "results"} of all of them.
pub data Listing (P T : Type 0) : Type 0 where
  page_of : P → Listing P T
  all_of : ℕ → List T → Listing P T

abbrev pub listed : {P T : Type 0} → M P → M (Listing P T)
listed m = m >>= λ p. return (page_of p)

abbrev pub drained : {P T : Type 0} → (World → Stream T × World) → M (Listing P T)
drained walk w = continue (drain_all (walk w)) (λ xs. return (all_of (length xs) xs))

-- A map[string]bool with the one key that is given, which is true.
abbrev pub done_as : Text → M (Unit {0}) → M Text
done_as key m = m >>= λ _. return key

-- auth login, logout, probe
unfoldable pub auth_login : Shell → Run Session
unfolding run_e first_non_empty
auth_login s = run_e s λ c.
    login c (first_non_empty (s.flags.email ∷ s.getenv (codes "BRAINAPI_USER") ∷ []))
      (first_non_empty (s.flags.password ∷ s.getenv (codes "BRAINAPI_PASS") ∷ []))

unfoldable pub auth_logout : Shell → Run Text
unfolding run_e
auth_logout s = run_e s (λ c. done_as (codes "signed_out") (logout c))

-- The four kinds of activity that the command knows.
unfoldable pub is_activity_kind : Text → Bool
is_activity_kind kind =
    text_eq kind (codes "base-payment")
    || (text_eq kind (codes "other-payment")
        || (text_eq kind (codes "simulations") || text_eq kind (codes "submissions")))

-- What `users activities` writes: the stream, or the stream with its records decoded.
pub data Activities (D : Type 0) : Type 0 where
  streamed : D → Activities D
  named_columns : D → List (List (Text × Text)) → Activities D

abbrev pub with_records :
    {D : Type 0} → D → World → Outcome (List (List (Text × Text))) → Outcome (Activities D) × World
with_records d w (ok rows) = (ok (named_columns d rows), w)
with_records d w (err e) = (err e, w)
with_records d w diverged = (diverged, w)

-- The commands that write a document as it was decoded.
module _ {D : Type 0} (s : Shell) (decode : Text → Option D) where
  unfoldable pub auth_probe : Run D
  unfolding run_e
  auth_probe = run_e s (λ c. probe c decode)

  unfoldable pub users_self : Run D
  unfolding run_e
  users_self = run_e s (λ c. self c decode)

  unfoldable pub users_competitions : Run D
  unfolding run_e
  users_competitions = run_e s (λ c. competitions c decode)

  unfoldable pub users_diversity : Text → Run D
  unfolding run_e write_err
  users_diversity grouping =
      if is_empty grouping
      then refuse (opaque (codes "--grouping is required"))
      else run_e s (λ c. diversity c decode grouping)

  -- `records` are the records of a stream.
  unfoldable pub users_activities :
      {F : Type 0} → Json F → (D → Option RecordSetBlock) → Bool → Text → Run (Activities D)
  unfolding is_activity_kind run_e write_err decode_activities
  users_activities j records columns kind =
      if not (is_activity_kind kind)
      then refuse (opaque (codes "unknown activity kind"))
      else run_e s λ c. do
        d ← activities c decode kind
        if columns
            then (λ w. with_records d w (decode_activities j (records d)))
            else return (streamed d)

  -- register
  unfoldable pub register_command :
      (Text → Decoded RegisterInput) → CaptchaSolver → Text → Run (Option D)
  unfolding run_e with_body
  register_command decode_form solve json =
      with_body s decode_form (codes "--json is required (RegisterInput body)") json
        (codes "parse register body") λ form. run_e s (λ c. register c solve decode form)

-- messages list
unfoldable pub messages_list :
    {T : Type 0}
    → Shell
    → (Text → Option (Page T))
    → (ℕ → Option Error)
    → ℕ
    → ListMessagesOptions
    → Bool
    → Run (Listing (Page T) T)
unfolding run_e messages_all drain_all
messages_list s decode choice fuel opts all = run_e s λ c.
    if not all
    then listed (messages c decode opts)
    else drained (messages_all c decode opts choice fuel)

module _ (s : Shell) where
  unfoldable pub email_reverify_command : Text → Text → Run Text
  unfolding run_e
  email_reverify_command email recaptcha =
      run_e s (λ c. done_as (codes "resent") (reverify_email c email recaptcha))

  unfoldable pub email_verify_command : Text → Run Text
  unfolding run_e
  email_verify_command jwt = run_e s (λ c. done_as (codes "verified") (verify_email c jwt))

  unfoldable pub password_forgot_command : Text → Text → Run Text
  unfolding run_e
  password_forgot_command email recaptcha =
      run_e s (λ c. done_as (codes "reset_initiated") (forgot_password c email recaptcha))

  unfoldable pub password_reset_command : Text → Text → Run Text
  unfolding run_e
  password_reset_command jwt password =
      run_e s (λ c. done_as (codes "reset") (reset_password c jwt password))

abbrev filed_as : Try Result × List PostRequest → Exit Result × List PostRequest
filed_as (done r, posts) = (success r, posts)
filed_as (failed msg, posts) = (misused (opaque msg), posts)

-- feedback, with the requests that File makes; `env` is what RuntimeEnv gives.
unfoldable pub feedback_command :
    Host → (Text → Text) → Env → Text → Text → Text → Bool → Exit Result × List PostRequest
unfolding file config_from_env
feedback_command h getenv env title body category confirm = filed_as (
    file h (record { title = title; body = body; category = category; surface = codes "cli" }) env
      (config_from_env getenv) confirm)

-- version
unfoldable pub version_command : Text → Text → Text → Exit (List (Text × Text))
version_command version commit date =
    success ((codes "version", version) ∷ (codes "commit", commit) ∷ (codes "date", date) ∷ [])
