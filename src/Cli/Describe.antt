-- ===== src/Cli/Describe.antt =====
-- The commands of `brainapi describe`: the walk of cobra's tree of commands
-- (cmd/brainapi/cmd_describe.go). A command's own flags are what cobra lists as its local flags.
pub mod Listed
use brainapi_go_sdk.Prelude.{
  if◌then◌else◌, ◌==◌, ◌||◌, text_eq, ◌++◌, [], false, codes, ◌∷◌, not, Text, Bool, List,
}
use brainapi_go_sdk.Cli.{args_from_use}

pub record FlagSpec : Type 0 where
  pub name : Text
  pub shorthand : Text
  pub kind : Text
  pub default : Text
  pub usage : Text

-- What the walk reads of a cobra.Command, apart from its subcommands.
pub record Header : Type 0 where
  pub name : Text
  pub hidden : Bool
  pub short : Text
  pub use_line : Text
  pub flags : List FlagSpec

mutual
  pub data Command : Type 0 where
    command : Header → Commands → Command

  pub data Commands : Type 0 where
    end : Commands
    next : Command → Commands → Commands

pub record CommandSpec : Type 0 where
  pub path : List Text
  pub short : Text
  pub args : Text
  pub flags : List FlagSpec
  pub long_poll : Bool

-- longPollCommands
abbrev pub long_poll_commands : List Text
long_poll_commands =
    codes "alphas check"
    ∷ codes "alphas submit"
    ∷ codes "alphas pnl"
    ∷ codes "alphas corr"
    ∷ codes "alphas performance"
    ∷ codes "simulations wait"
    ∷ []

abbrev pub any_is : List Text → Text → Bool
any_is [] t = false
any_is (k ∷ ks) t = text_eq k t || any_is ks t

-- strings.Join(path, " ")
abbrev pub join_words : List Text → Text
join_words [] = []
join_words (p ∷ []) = p
join_words (p ∷ q ∷ ps) = p ++ (b' ' ∷ join_words (q ∷ ps))

-- The guard of the walk, negated.
unfoldable pub is_listed : Header → Bool
is_listed h = not (h.hidden || text_eq h.name (codes "help") || text_eq h.name (codes "completion"))

unfoldable pub spec_of : Header → List Text → CommandSpec
unfolding args_from_use
spec_of h path = record {
  path = path;
  short = h.short;
  args = args_from_use h.use_line;
  flags = h.flags;
  long_poll = any_is long_poll_commands (join_words path);
}

-- The body of the loop at one subcommand, and walkCommands.
unfoldable mutual
  unfolding is_listed spec_of

  pub walk_command : Command → List Text → List CommandSpec
  walk_command (command h end) prefix =
      if is_listed h then spec_of h (prefix ++ (h.name ∷ [])) ∷ [] else []
  walk_command (command h (next c cs)) prefix =
      if is_listed h then walk_commands (next c cs) (prefix ++ (h.name ∷ [])) else []

  pub walk_commands : Commands → List Text → List CommandSpec
  walk_commands end prefix = []
  walk_commands (next c cs) prefix = walk_command c prefix ++ walk_commands cs prefix
