-- ===== src/Cli/Tree.antt =====
-- The tree of commands that newRootCmd and the newXCmd functions build (cmd/brainapi), by the lines Use.
-- `about` gives the short text and the local flags of a command by its line Use. cobra lists the
-- commands of a group by name, here they stand as AddCommand is given them.
use brainapi_go_sdk.Prelude.{true, false, false, [], ◌==◌, ◌∷◌, codes, List, Text}
use brainapi_go_sdk.Cli.Describe.{next, end, FlagSpec, command, Header, Command, Commands}

-- The name of a command: its line Use up to a space.
unfoldable pub first_word : Text → Text
first_word [] = []
first_word (c ∷ s) = elim (c == b' ') [ true ↦ [] | false ↦ c ∷ first_word s ]

abbrev pub About : Type 0
About = Text → Text × List FlagSpec

unfoldable pub header_of : About → Text → Header
unfolding first_word
header_of about use_line = record {
  name = first_word use_line;
  hidden = false;
  short = (about use_line).0;
  use_line = use_line;
  flags = (about use_line).1;
}

abbrev pub leaf : About → Text → Command
leaf about use_line = command (header_of about use_line) end

abbrev pub leaves : About → List Text → List Command
leaves about [] = []
leaves about (u ∷ us) = leaf about u ∷ leaves about us

abbrev pub children : List Command → Commands
children [] = end
children (c ∷ cs) = next c (children cs)

abbrev pub group : About → Text → List Command → Command
group about use_line cs = command (header_of about use_line) (children cs)

unfoldable pub auth_cmd : About → Command
unfolding header_of
auth_cmd about =
    group about (codes "auth")
      (leaf about (codes "login") ∷ leaf about (codes "probe") ∷ leaf about (codes "logout") ∷ [])

unfoldable pub alphas_cmd : About → Command
unfolding header_of
alphas_cmd about = group about (codes "alphas") (
    leaves about (
      codes "get <alpha-id>"
      ∷ codes "check <alpha-id>"
      ∷ codes "submit <alpha-id>"
      ∷ codes "set-properties <alpha-id>"
      ∷ codes "set-osmosis-points <alpha-id>"
      ∷ codes "pnl <alpha-id>"
      ∷ codes "corr <alpha-id>"
      ∷ codes "corr-prod <alpha-id>"
      ∷ codes "corr-power-pool <alpha-id>"
      ∷ codes "corr-local --json <file|->"
      ∷ codes "recordset <alpha-id> <name>"
      ∷ codes "recordsets <alpha-id>"
      ∷ codes "list"
      ∷ codes "performance <alpha-id> [--pool | --competition <id>]"
      ∷ []))

unfoldable pub simulations_cmd : About → Command
unfolding header_of
simulations_cmd about = group about (codes "simulations") (
    leaves about (
      codes "create --json <file|->"
      ∷ codes "create-multi --json <file|->"
      ∷ codes "get <sim-id>"
      ∷ codes "wait <sim-id>"
      ∷ codes "wait-multi <parent-sim-id>"
      ∷ []))

unfoldable pub users_cmd : About → Command
unfolding header_of
users_cmd about = group about (codes "users") (
    leaves about (
      codes "self"
      ∷ codes "competitions"
      ∷ codes "activities <kind>"
      ∷ codes "diversity --grouping <dim>"
      ∷ []))

unfoldable pub messages_cmd : About → Command
unfolding header_of
messages_cmd about = group about (codes "messages") (leaves about (codes "list" ∷ []))

unfoldable pub schema_cmd : About → Command
unfolding header_of
schema_cmd about = group about (codes "schema") (
    leaves about (
      codes "operators"
      ∷ codes "data-fields"
      ∷ codes "simulation-options"
      ∷ codes "datasets"
      ∷ codes "data-categories"
      ∷ codes "themes"
      ∷ []))

unfoldable pub email_cmd : About → Command
unfolding header_of
email_cmd about = group about (codes "email") (
    leaves about
      (codes "reverify --email <addr> [--recaptcha <token>]" ∷ codes "verify --jwt <token>" ∷ []))

unfoldable pub password_cmd : About → Command
unfolding header_of
password_cmd about = group about (codes "password") (
    leaves about (
      codes "forgot --email <addr> [--recaptcha <token>]"
      ∷ codes "reset --jwt <token> --password <new>"
      ∷ []))

-- newRootCmd, by its subcommands.
unfoldable pub root_commands : About → Commands
unfolding header_of auth_cmd alphas_cmd simulations_cmd users_cmd messages_cmd schema_cmd email_cmd
    password_cmd
root_commands about = children (
    auth_cmd about
    ∷ alphas_cmd about
    ∷ simulations_cmd about
    ∷ users_cmd about
    ∷ messages_cmd about
    ∷ schema_cmd about
    ∷ (leaf about (codes "register --json <file|->"))
    ∷ email_cmd about
    ∷ password_cmd about
    ∷ (leaf about (codes "feedback"))
    ∷ (leaf about (codes "describe"))
    ∷ (leaf about (codes "version"))
    ∷ [])
