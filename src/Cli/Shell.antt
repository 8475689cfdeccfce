-- ===== src/Cli/Shell.antt =====
-- The process that a command of cmd/brainapi runs in: newClient and the frame of a command (main.go,
-- handler.go), and the body that --json names (cmd_simulations.go).
use brainapi_go_sdk.Prelude.{
  ◌==◌, text_eq, codes, is_empty, ◌∷◌, Bool, false, Option, [], List, Text,
}
use brainapi_go_sdk.Cli.{crashed, success, misused, GlobalFlags, Exit, write_err, client_options}
use brainapi_go_sdk.Client.{Config, Setup}
use brainapi_go_sdk.World.{Event, World, State}
use brainapi_go_sdk.Errors.{opaque, wrapped, Error}
use brainapi_go_sdk.World.Monad.{diverged, err, ok, M, Outcome}
use brainapi_go_sdk.Client.Options.{panicked, built, NewClient, new_client}
use brainapi_go_sdk.Types.{unparsed, parsed, Decoded}
use brainapi_go_sdk.Profile.{Hashing}
use brainapi_go_sdk.Runtime.{Environment, Library}
use brainapi_go_sdk.Cli.{hangs}
use brainapi_go_sdk.Client.Options.{refused}
use brainapi_go_sdk.Prelude.{if◌then◌else◌}

-- What os.ReadFile gives for a path.
pub data FileRead : Type 0 where
  contents : Text → FileRead
  unreadable : Error → FileRead

-- The flags and the environment, the parameters of newClient and NewClient, the library and the
-- outside world of the client, and the files: `exists` is os.Stat without an error, and `stdin` what
-- stdin gives before its end or its first error.
pub record Shell : Type 0 where
  pub flags : GlobalFlags
  pub getenv : Text → Text
  pub hashing : Hashing
  pub jar_path : Text → Text
  pub parse_url : Text → Option Text
  pub url_error : Text → Error
  pub init_tls : Option Error
  pub library : Library
  pub environment : Environment
  pub exists : Text → Bool
  pub read_file : Text → FileRead
  pub stdin : Text

-- How a command ends, with what it did outside, newest first.
abbrev pub Run : Type 0 → Type 0
Run T = Exit T × List Event

-- newClient
unfoldable pub cli_client : Shell → NewClient
unfolding client_options new_client
cli_client s =
    new_client s.parse_url s.url_error false s.init_tls
      (client_options s.hashing s.jar_path s.flags s.getenv)

abbrev pub setup_of : Shell → Config → Setup
setup_of s config = record { config = config; library = s.library; environment = s.environment }

abbrev pub world_of : State → World
world_of state = record { state = state; tick = 0; trace = [] }

-- writeOK or writeErr.
abbrev pub written : {T : Type 0} → Outcome T × World → Run T
written (ok t, w) = (success t, w.trace)
written (err e, w) = (write_err e, w.trace)
written (diverged, w) = (hangs, w.trace)

abbrev pub with_client : {T : Type 0} → Shell → (Setup → M T) → NewClient → Run T
with_client s endpoint (built config state) =
    written (endpoint (setup_of s config) (world_of state))
with_client s endpoint (refused e) = (write_err e, [])
with_client s endpoint panicked = (crashed, [])

-- runE, and the same steps where a command has them in a RunE of its own.
unfoldable pub run_e : {T : Type 0} → Shell → (Setup → M T) → Run T
unfolding cli_client write_err
run_e s endpoint = with_client s endpoint (cli_client s)

-- An error that a command writes, or returns, before there is a client.
abbrev pub refuse : {T : Type 0} → Error → Run T
refuse e = (write_err e, [])

abbrev pub misuse : {T : Type 0} → Error → Run T
misuse e = (misused e, [])

-- readBody
unfoldable pub read_body : Shell → Text → FileRead
read_body s [] = if s.exists [] then s.read_file [] else contents []
read_body s (c ∷ path) =
    if text_eq (c ∷ path) (codes "-")
    then contents s.stdin
    else if c == b'@'
    then s.read_file path
    else if s.exists (c ∷ path)
    then s.read_file (c ∷ path)
    else contents (c ∷ path)

-- What a command with --json does before it has a value: `decode` is json.Unmarshal, `missing` the
-- error without the flag.
abbrev pub with_read : {A T : Type 0} → (Text → Decoded A) → Text → (A → Run T) → FileRead → Run T
with_read decode desc k (unreadable e) = refuse e
with_read decode desc k (contents body) = elim (decode body) [
  | parsed a ↦ k a
  | unparsed msg ↦ refuse (wrapped desc (opaque msg))
]

unfoldable pub with_body :
    {A T : Type 0} → Shell → (Text → Decoded A) → Text → Text → Text → (A → Run T) → Run T
unfolding read_body write_err
with_body s decode missing json desc k =
    if is_empty json then refuse (opaque missing) else with_read decode desc k (read_body s json)
