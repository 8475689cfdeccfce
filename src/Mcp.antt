-- ===== src/Mcp.antt =====
-- cmd/brainapi-mcp/main.go: the frame of a tool, the guarded tool submit_alpha, the tool that waits for
-- a batch, and the names that each server registers.
pub mod Reading
pub mod Writing
pub mod Calls
pub mod Readonly
pub mod Report
pub mod Guarded
use brainapi_go_sdk.Prelude.{
  pos, ◌*◌, ℕ, Bool, true, false, Option, none, some, List, [], ◌∷◌, ◌++◌, Text, codes,
  if◌then◌else◌, ℤ, is_empty,
}
use brainapi_go_sdk.World.Monad.{Outcome, ok, err, diverged, map_error, continue, M, return, ◌>>=◌}
use brainapi_go_sdk.World.{World}
use brainapi_go_sdk.Errors.{Error, wrapped}
use brainapi_go_sdk.Errors.Classify.{Kind, Details, classify}
use brainapi_go_sdk.Client.{Setup}
use brainapi_go_sdk.Types.{Simulation}
use brainapi_go_sdk.Iterators.{Stream, finished, stopped, unfinished}
use brainapi_go_sdk.Alphas.{alpha_self_correlation}
use brainapi_go_sdk.Alphas.Verdict.{Verdict}
use brainapi_go_sdk.Alphas.Submit.{submit_alpha}
use brainapi_go_sdk.Simulations.Wait.{wait_for_multi_simulation, Resolved}
use brainapi_go_sdk.Client.Options.{Options}
use brainapi_go_sdk.Profile.{Hashing, parse_profile, profile_name}
use brainapi_go_sdk.Retry.{second}

-- What a tool gives back: its payload, or a structuredErr without its message.
pub data Called (T : Type 0) : Type 0 where
  returned : T → Called T
  refused : Kind → Details → Called T
  hangs : Called T

-- classifyErr
unfoldable pub classify_err : {T : Type 0} → Error → Called T
classify_err e = refused (classify e).0 (classify e).1

-- The handler that addTool registers for a function.
unfoldable pub add_tool : {T : Type 0} → Outcome T × World → Called T × World
unfolding classify_err
add_tool (ok t, w) = (returned t, w)
add_tool (err e, w) = (classify_err e, w)
add_tool (diverged, w) = (hangs, w)

-- drainChan, as its caller uses it: the items, or the error alone.
unfoldable pub drain_chan : {T : Type 0} → Stream T × World → Outcome (List T) × World
drain_chan (s, w) = elim s.ending [
  | finished ↦ (ok s.items, w)
  | stopped e ↦ (err e, w)
  | unfinished ↦ (diverged, w)
]

-- okWrap
abbrev pub ok_wrap : M (Unit {0}) → M Bool
ok_wrap m = m >>= λ _. return true

unfoldable pub first_non_empty : List Text → Text
first_non_empty [] = []
first_non_empty (v ∷ vs) = if is_empty v then first_non_empty vs else v

-- The options of main's client, from the environment and the flag --profile. `jar_path` is
-- defaultJarPath, and `h` what the profile of an email is made with.
unfoldable pub server_options : Hashing → (Text → Text) → (Text → Text) → Text → Options
unfolding first_non_empty parse_profile
server_options h jar_path getenv profile =
    let email = getenv (codes "BRAINAPI_USER") in
    record {
      base_url =
          first_non_empty
            (getenv (codes "BRAINAPI_BASE_URL") ∷ codes "https://api.worldquantbrain.com" ∷ []);
      profile = profile_name (parse_profile h profile);
      proxy = getenv (codes "BRAINAPI_PROXY");
      cookie_jar_path = if is_empty email then [] else jar_path email;
      timeout = pos (15 * second);
      max_retries = pos 3;
      max_long_polls = pos 60;
      max_concurrent_sims = pos 0;
      ban_threshold = pos 3;
      budget_sims = pos 0;
      budget_submits = pos 0;
      has_solver = true;
      email = email;
      password = getenv (codes "BRAINAPI_PASS");
    }

-- SelfCorrelationBlock, by the field that the guard reads; F is float64.
pub record SelfCorrelationBlock (F : Type 0) : Type 0 where
  pub max : Option F

-- submitResult, without the note.
pub record SubmitResult (F : Type 0) : Type 0 where
  pub submitted : Bool
  pub blocked : Bool
  pub corr_max : Option F
  pub verdict : Option Verdict

-- >= of float64, and the float64 that 0.7 denotes.
pub record Gate (F : Type 0) : Type 0 where
  pub ge : F → F → Bool
  pub seven_tenths : F

-- corrMax != nil && *corrMax >= 0.7
abbrev pub is_blocked : {F : Type 0} → Gate F → Option F → Bool
is_blocked gate none = false
is_blocked gate (some m) = gate.ge m gate.seven_tenths

module _ {F : Type 0} (c : Setup) where
  abbrev pub kept : Bool → Option F → SubmitResult F
  kept blocked m = record { submitted = false; blocked = blocked; corr_max = m; verdict = none }

  abbrev pub submitted_as : Option F → Verdict → SubmitResult F
  submitted_as m v = record { submitted = true; blocked = false; corr_max = m; verdict = some v }

  -- From the submission on.
  unfoldable pub submit_now : Text → Option F → M (SubmitResult F)
  submit_now id m w =
      continue (map_error (wrapped (codes "submit failed")) (submit_alpha c id w))
        (λ v. return (submitted_as m v))

  -- From the guard on.
  unfoldable pub after_guard : Gate F → Text → Bool → SelfCorrelationBlock F → M (SubmitResult F)
  unfolding submit_now
  after_guard gate id confirm block =
      if is_blocked gate block.max
      then return (kept true block.max)
      else if confirm
      then submit_now id block.max
      else return (kept false block.max)

  -- The function of submit_alpha, before its errors are classified.
  unfoldable pub submit_guarded :
      (Text → Option (SelfCorrelationBlock F)) → Gate F → Text → Bool → M (SubmitResult F)
  unfolding after_guard
  submit_guarded decode gate id confirm w =
      continue
        (map_error (wrapped (codes "corr gate failed")) (alpha_self_correlation c decode id w))
        (after_guard gate id confirm)

  -- submit_alpha
  unfoldable pub submit_tool :
      (Text → Option (SelfCorrelationBlock F))
      → Gate F
      → Text
      → Bool
      → World
      → Called (SubmitResult F) × World
  unfolding submit_guarded add_tool
  submit_tool decode gate id confirm w = add_tool (submit_guarded decode gate id confirm w)

-- multiSimWaitResult, with the error in place of its message.
pub record MultiSimWaitResult : Type 0 where
  pub parent : Simulation
  pub children : List Simulation
  pub incomplete : Bool
  pub error : Option Error

abbrev pub is_error : Option Error → Bool
is_error none = false
is_error (some e) = true

abbrev pub wait_result : Simulation × Resolved → MultiSimWaitResult
wait_result (parent, r) = record {
  parent = parent;
  children = r.0;
  incomplete = is_error r.1;
  error = r.1;
}

-- simulations_wait_multi: an error that leaves a parent is reported in the result.
unfoldable pub simulations_wait_multi : Setup → Text → World → Called MultiSimWaitResult × World
unfolding wait_for_multi_simulation add_tool
simulations_wait_multi c parent_id w =
    add_tool
      (continue (wait_for_multi_simulation c parent_id w) (λ found. return (wait_result found)))

-- The names that registerReadTools, registerFeedbackTool and registerWriteTools add.
abbrev pub read_tools : List Text
read_tools =
    codes "probe"
    ∷ codes "whoami"
    ∷ codes "competitions"
    ∷ codes "operators"
    ∷ codes "get_alpha"
    ∷ codes "check_alpha"
    ∷ codes "check_alpha_decoded"
    ∷ codes "self_correlation"
    ∷ codes "alpha_pnl"
    ∷ codes "performance"
    ∷ codes "activities"
    ∷ codes "list_alphas"
    ∷ codes "list_alphas_all"
    ∷ codes "messages"
    ∷ codes "messages_all"
    ∷ codes "data_fields"
    ∷ codes "data_fields_all"
    ∷ codes "get_simulation"
    ∷ codes "wait_simulation"
    ∷ codes "simulations_wait_multi"
    ∷ codes "captcha_challenge"
    ∷ []

abbrev pub feedback_tools : List Text
feedback_tools = codes "report_issue" ∷ []

abbrev pub write_tools : List Text
write_tools =
    codes "submit_alpha"
    ∷ codes "simulations_create"
    ∷ codes "simulations_create_multi"
    ∷ codes "register"
    ∷ codes "login"
    ∷ codes "logout"
    ∷ codes "email_verify"
    ∷ codes "email_reverify"
    ∷ codes "password_forgot"
    ∷ codes "password_reset"
    ∷ codes "persona_complete"
    ∷ []

-- newServer
unfoldable pub new_server : Bool → List Text
new_server enable_writes =
    read_tools ++ (feedback_tools ++ (if enable_writes then write_tools else []))
