-- ===== src/Commands.antt =====
-- Examples of the command line: a shell without files, and a client that asks the server of Fixtures.
use brainapi_go_sdk.Prelude.{
  ℤ, is_empty, refl, ◌∷◌, true, ◌≡◌, none, pos, ℕ, trim_space, some, Text, text_eq, codes, [],
}
use brainapi_go_sdk.Cli.Dispatch.{do_activities, Tools}
use brainapi_go_sdk.Cli.{client_options, GlobalFlags, split_tags}
use brainapi_go_sdk.Cli.Alphas.{alphas_set_properties, PropertyFlags}
use brainapi_go_sdk.Cli.Shell.{setup_of, cli_client, contents, read_body, Shell}
use brainapi_go_sdk.Errors.{opaque}
use brainapi_go_sdk.Fixtures.{start, client, library}
use brainapi_go_sdk.Samples.{small_json}
use brainapi_go_sdk.Scenarios.{calendar, small}
use brainapi_go_sdk.Types.{parsed, unparsed}
use brainapi_go_sdk.Transport.Asked.{OnlyReads}
use brainapi_go_sdk.Mcp.Calls.{call_check_alpha, call_read_tool}
use brainapi_go_sdk.Mcp.Readonly.{call_read_tool-OnlyReads}
use brainapi_go_sdk.Cli.Told.{run_process-Tells, Tells}
use brainapi_go_sdk.Cli.Process.{run_process}
use brainapi_go_sdk.Altcha.{err_no_solution, Solution, Challenge, Crypto, adapter_solve}
use brainapi_go_sdk.World.Monad.{err, Outcome}
use brainapi_go_sdk.Altcha.Adapter.{adapter_solve-Solves}
use brainapi_go_sdk.Cli.Patching.{alphas_set_properties-Sends, Sends}
use brainapi_go_sdk.Client.Options.{panicked, refused, built, new_client, NewClient}
use brainapi_go_sdk.Client.{Config}
use brainapi_go_sdk.World.{State}

abbrev flags : GlobalFlags
flags = record {
  base_url = [];
  profile = codes "firefox132";
  proxy = [];
  cookie_jar = [];
  email = codes "e";
  password = codes "p";
  timeout = pos 15;
  max_long_polls = pos 60;
}

abbrev shell : Shell
shell = record {
  flags = flags;
  getenv = λ _. [];
  hashing = record { lower = λ t. t; md5_head = λ _. 0 };
  jar_path = λ e. e;
  parse_url = λ u. some [];
  url_error = λ u. opaque u;
  init_tls = none;
  library = library;
  environment = client.environment;
  exists = λ path. text_eq path (codes "form.json");
  read_file = λ path. contents (codes "{}");
  stdin = codes "[]";
}

abbrev crypto : Crypto
crypto = record {
  sha256 = λ t. t;
  decode_hex = λ t. none;
  unmarshal = λ t. none;
  marshal = λ sol. none;
  base64 = λ t. t;
  num_cpu = 1;
}

abbrev unsolved : Challenge → ℤ → Outcome Solution
unsolved ch workers = err err_no_solution

abbrev tools : Tools Text ℕ
tools = record {
  decode = λ d t. some t;
  decode_page = λ d t. none;
  decode_counted = λ d t. none;
  decode_list = λ d t. some (t ∷ []);
  decode_envelope = λ d t. none;
  records_of = λ d. none;
  json = small_json;
  floats = small;
  calendar = calendar;
  decode_form = λ t. unparsed t;
  decode_request = λ t. unparsed t;
  decode_requests = λ t. parsed [];
  decode_series = λ t. unparsed t;
  solve = adapter_solve crypto unsolved (pos 0);
  whole_seconds = λ d. d;
  slot = none;
  choice = λ n. none;
  fuel = 3;
}

read_body_runs : read_body shell (codes "-") ≡ contents (codes "[]")
unfolding read_body text_eq
read_body_runs = refl

literal_body_runs : read_body shell (codes "[1]") ≡ contents (codes "[1]")
unfolding read_body text_eq
literal_body_runs = refl

run_process-Tells_example :
    Tells (run_process tools shell (λ e. true) (do_activities true (codes "submissions")))
run_process-Tells_example =
    run_process-Tells tools shell (λ e. true) (do_activities true (codes "submissions")) (λ e. refl)
      (adapter_solve-Solves crypto unsolved (pos 0) (λ ch n e. cc)) refl

abbrev property_flags : PropertyFlags
property_flags = record {
  description = some (codes "idea");
  selection_description = none;
  combo_description = none;
  name = none;
  color = none;
  category = none;
  tags = some (codes "a, ,b");
}

-- The client that the shell builds.
abbrev config_of : NewClient → Config
config_of (built config state) = config
config_of (refused e) = client.config
config_of panicked = client.config

abbrev state_of : NewClient → State
state_of (built config state) = state
state_of (refused e) = start.state
state_of panicked = start.state

shell_builds : cli_client shell ≡ built (config_of (cli_client shell)) (state_of (cli_client shell))
unfolding cli_client new_client client_options
shell_builds = refl

alphas_set_properties-Sends_example :
    Sends
      (setup_of shell (config_of (cli_client shell)))
      property_flags
      (codes "a1")
      (alphas_set_properties shell property_flags (codes "a1"))
alphas_set_properties-Sends_example =
    alphas_set_properties-Sends shell property_flags (codes "a1") (config_of (cli_client shell))
      (state_of (cli_client shell)) shell_builds

split_tags_runs : split_tags (codes "a, ,b") ≡ codes "a" ∷ codes "b" ∷ []
unfolding split_tags trim_space is_empty
split_tags_runs = refl

call_read_tool-OnlyReads_example :
    OnlyReads client (call_read_tool tools client (call_check_alpha (codes "a1")) start).1.trace
call_read_tool-OnlyReads_example =
    call_read_tool-OnlyReads tools client (call_check_alpha (codes "a1")) start tt
