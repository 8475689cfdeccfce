-- ===== src/Cli.antt =====
-- cmd/brainapi: the exit codes (main.go, cmd_describe.go), the client's options (main.go), the frame
-- of an endpoint command (handler.go), and the helpers of its commands.
pub mod Exits
pub mod Shell
pub mod Account
pub mod Alphas
pub mod Simulations
pub mod Dispatch
pub mod Answers
pub mod Completed
pub mod Process
pub mod Told
pub mod Patched
pub mod Patching
pub mod Tree
pub mod Describe
use brainapi_go_sdk.Errors.Classify.{
  api_kind, rate_limit_kind, banned_kind, permission_denied_kind, drf_validation_kind,
  not_verified_kind, persona_inquiry_kind, budget_kind, not_authenticated_kind, cooldown_kind,
  long_poll_exceeded_kind, context_kind, invalid_argument_kind, network_kind, error_kind, Kind,
  Details, classify,
}
use brainapi_go_sdk.Prelude.{
  true, not, pos, ◌&&◌, text_eq, trim_space, ◌==◌, Bool, is_empty, leb_ℤ, Option, map,
  if◌then◌else◌, codes, List, ℤ, ℕ, Text, [], ◌∷◌, none, some,
}
use brainapi_go_sdk.World.Monad.{fail, M, Outcome, ◌>>=◌, ok, err, diverged}
use brainapi_go_sdk.Errors.{opaque, Error}
use brainapi_go_sdk.Client.{Setup}
use brainapi_go_sdk.World.{World}
use brainapi_go_sdk.Client.Options.{Options}
use brainapi_go_sdk.Profile.{Hashing, parse_profile, profile_name}
use brainapi_go_sdk.Performance.{self_before_and_after_performance, before_and_after_performance}

abbrev pub kind_name : Kind → Text
kind_name api_kind = codes "api"
kind_name rate_limit_kind = codes "rate_limit"
kind_name banned_kind = codes "banned"
kind_name permission_denied_kind = codes "permission_denied"
kind_name drf_validation_kind = codes "drf_validation"
kind_name not_verified_kind = codes "not_verified"
kind_name persona_inquiry_kind = codes "persona_inquiry"
kind_name budget_kind = codes "budget"
kind_name not_authenticated_kind = codes "not_authenticated"
kind_name cooldown_kind = codes "cooldown"
kind_name long_poll_exceeded_kind = codes "long_poll_exceeded"
kind_name context_kind = codes "context"
kind_name invalid_argument_kind = codes "invalid_argument"
kind_name network_kind = codes "network"
kind_name error_kind = codes "error"

-- exitOK to exitPersonaInquiry
abbrev pub exit_ok : ℕ
exit_ok = 0

abbrev pub exit_network : ℕ
exit_network = 8

abbrev pub exit_usage : ℕ
exit_usage = 2

abbrev pub exit_api : ℕ
exit_api = 6

-- staticErrorKinds, without the shapes of the details.
abbrev pub static_error_kinds : List (Text × ℕ)
static_error_kinds =
    (codes "api", 6)
    ∷ (codes "rate_limit", 3)
    ∷ (codes "banned", 4)
    ∷ (codes "permission_denied", 6)
    ∷ (codes "not_verified", 4)
    ∷ (codes "drf_validation", 5)
    ∷ (codes "persona_inquiry", 10)
    ∷ (codes "budget", 7)
    ∷ (codes "not_authenticated", 6)
    ∷ (codes "cooldown", 3)
    ∷ (codes "long_poll_exceeded", 6)
    ∷ (codes "context", 8)
    ∷ (codes "network", 8)
    ∷ (codes "invalid_argument", 2)
    ∷ (codes "error", 6)
    ∷ (codes "no_output", 2)
    ∷ []

pub record ExitCodeSpec : Type 0 where
  pub code : ℕ
  pub name : Text
  pub kinds : List Text

abbrev exit_row : ℕ → Text → List Text → ExitCodeSpec
exit_row code name kinds = record { code = code; name = name; kinds = kinds }

-- staticExitCodes
abbrev pub static_exit_codes : List ExitCodeSpec
static_exit_codes =
    exit_row 0 (codes "OK") []
    ∷ exit_row 2 (codes "USAGE") (codes "no_output" ∷ codes "invalid_argument" ∷ [])
    ∷ exit_row 3 (codes "RATE_LIMIT") (codes "rate_limit" ∷ codes "cooldown" ∷ [])
    ∷ exit_row 4 (codes "BANNED") (codes "banned" ∷ codes "not_verified" ∷ [])
    ∷ exit_row 5 (codes "DRF_VALIDATION") (codes "drf_validation" ∷ [])
    ∷ exit_row 6 (codes "API") (
        codes "api"
        ∷ codes "error"
        ∷ codes "not_authenticated"
        ∷ codes "permission_denied"
        ∷ codes "long_poll_exceeded"
        ∷ [])
    ∷ exit_row 7 (codes "BUDGET") (codes "budget" ∷ [])
    ∷ exit_row 8 (codes "NETWORK") (codes "context" ∷ codes "network" ∷ [])
    ∷ exit_row 10 (codes "PERSONA") (codes "persona_inquiry" ∷ [])
    ∷ []

unfoldable pub find_exit : Text → List (Text × ℕ) → ℕ
find_exit kind [] = exit_api
find_exit kind ((k, code) ∷ rest) = if text_eq k kind then code else find_exit kind rest

unfoldable pub exit_code_for_kind : Text → ℕ
unfolding find_exit
exit_code_for_kind kind = find_exit kind static_error_kinds

-- What a command leaves: the envelope on stdout and the exit code. `misused` is an error that RunE
-- returns: cobra hands it to main, which prints it on stderr and exits with exitUsage. `crashed` is a
-- panic.
pub data Exit (T : Type 0) : Type 0 where
  success : T → Exit T
  exited : Text → Details → ℕ → Exit T
  misused : Error → Exit T
  crashed : Exit T
  hangs : Exit T

-- writeErr, without the message.
unfoldable pub write_err : {T : Type 0} → Error → Exit T
unfolding exit_code_for_kind
write_err e =
    exited (kind_name (classify e).0) (classify e).1 (exit_code_for_kind (kind_name (classify e).0))

-- resolveMaxLongPolls
unfoldable pub resolve_max_long_polls : ℤ → ℤ
resolve_max_long_polls v = if leb_ℤ v (pos 0) then pos 60 else v

unfoldable pub first_non_empty : List Text → Text
first_non_empty [] = []
first_non_empty (x ∷ xs) = if is_empty x then first_non_empty xs else x

pub record GlobalFlags : Type 0 where
  pub base_url : Text
  pub profile : Text
  pub proxy : Text
  pub cookie_jar : Text
  pub email : Text
  pub password : Text
  pub timeout : ℤ
  pub max_long_polls : ℤ

-- The options of newClient, from the flags and the environment's variables. `jar_path` is
-- defaultJarPath, and `h` what the profile of an email is made with.
unfoldable pub client_options : Hashing → (Text → Text) → GlobalFlags → (Text → Text) → Options
unfolding resolve_max_long_polls first_non_empty
client_options h jar_path gf getenv =
    let email = first_non_empty (gf.email ∷ getenv (codes "BRAINAPI_USER") ∷ []) in
    record {
      base_url = first_non_empty (
          gf.base_url
          ∷ getenv (codes "BRAINAPI_BASE_URL")
          ∷ codes "https://api.worldquantbrain.com"
          ∷ []);
      profile = profile_name (parse_profile h gf.profile);
      proxy = first_non_empty (gf.proxy ∷ getenv (codes "BRAINAPI_PROXY") ∷ []);
      cookie_jar_path =
          if is_empty gf.cookie_jar && not (is_empty email) then jar_path email else gf.cookie_jar;
      timeout = gf.timeout;
      max_retries = pos 3;
      max_long_polls = resolve_max_long_polls gf.max_long_polls;
      max_concurrent_sims = pos 0;
      ban_threshold = pos 3;
      budget_sims = pos 0;
      budget_submits = pos 0;
      has_solver = true;
      email = email;
      password = first_non_empty (gf.password ∷ getenv (codes "BRAINAPI_PASS") ∷ []);
    }

-- strings.SplitN(use, " ", 2)[1], or nothing.
unfoldable pub args_from_use : Text → Text
args_from_use [] = []
args_from_use (c ∷ s) = if c == b' ' then s else args_from_use s

-- strings.Split(raw, ","), which is never empty.
abbrev pub onto_first : ℕ → List Text → List Text
onto_first c [] = (c ∷ []) ∷ []
onto_first c (p ∷ ps) = (c ∷ p) ∷ ps

unfoldable pub split_commas : Text → List Text
split_commas [] = [] ∷ []
split_commas (c ∷ s) = if c == b',' then [] ∷ split_commas s else onto_first c (split_commas s)

abbrev pub keep_non_empty : List Text → List Text
keep_non_empty [] = []
keep_non_empty (t ∷ ts) = if is_empty t then keep_non_empty ts else t ∷ keep_non_empty ts

-- splitTags
unfoldable pub split_tags : Text → List Text
unfolding split_commas
split_tags raw = keep_non_empty (map trim_space (split_commas raw))
