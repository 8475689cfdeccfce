-- ===== src/Examples.antt =====
-- Each theorem on a concrete client.
use brainapi_go_sdk.Fixtures.{client, start, config, library, no_budget, get_at, answer}
use brainapi_go_sdk.Client.Budgets.Day.{
  admitted_le, admitted_sims, is_within, after_day, Charge, IsWithin,
}
use brainapi_go_sdk.Alphas.Verified.{parse_submit_verdict-verified, is_verified}
use brainapi_go_sdk.Alphas.Submitted.{submit_alpha-Vouches, Vouches}
use brainapi_go_sdk.Prelude.{
  none, ltb_ℤ, some, ◌≢◌, Option, Text, ◌+◌, text_eq, is_empty, false, [], ◌∷◌, ◌↔◌, refl, true,
  ◌⊎◌, ◌≤◌, codes, ◌≡◌, pos, List,
}
use brainapi_go_sdk.Transport.Trace.{perform-IsTidy, IsTidy}
use brainapi_go_sdk.Errors.Classify.{not_authenticated_kind, classify}
use brainapi_go_sdk.Transport.Reach.{perform-Keeps, perform-Steps, Keeps, IsSane}
use brainapi_go_sdk.World.Monad.{Halts}
use brainapi_go_sdk.Client.Budgets.Batch.{check_budget_n-each, check_each, Agrees}
use brainapi_go_sdk.Transport.Responses.{perform-Handed, Handed}
use brainapi_go_sdk.Transport.Steps.{Steps}
use brainapi_go_sdk.Transport.Requests.{requests-perform, requests}
use brainapi_go_sdk.Alphas.Verdict.{parse_submit_verdict}
use brainapi_go_sdk.Alphas.Submit.{submit_alpha}
use brainapi_go_sdk.Transport.Do.{perform}
use brainapi_go_sdk.Client.Budgets.{roll_over, sim, check_budget_n_on}
use brainapi_go_sdk.Errors.{net, err_not_authenticated, wrapped}
use brainapi_go_sdk.Transport.Termination.{perform-Halts}
use brainapi_go_sdk.Errors.Kinds.{classify-root}
use brainapi_go_sdk.Client.Options.{
  new_client_limits, initial_state, config_of, new_client, Options,
}
use brainapi_go_sdk.Simulations.{create_multi_simulation, validate_multi_sim_homogeneous}
use brainapi_go_sdk.Simulations.Waited.{wait_for_multi_simulation-Gathers, Gathers}
use brainapi_go_sdk.Types.{SimulationRequest}
use brainapi_go_sdk.Auth.Probed.{probe-Tells, Tells}
use brainapi_go_sdk.Simulations.Wait.{wait_for_multi_simulation}
use brainapi_go_sdk.Auth.{probe}
use brainapi_go_sdk.Simulations.Charged.{create_multi_simulation_budget, day_of}
use brainapi_go_sdk.Simulations.Batch.{validate_multi_sim_homogeneous_lem, Alike}

perform-Halts_example : Halts (perform client (get_at (codes "/broken")) start)
perform-Halts_example = perform-Halts client (get_at (codes "/broken")) start

perform-Steps_example :
    Steps client
      (get_at (codes "/blocked")).hints
      start.state
      (perform client (get_at (codes "/blocked")) start).1.state
perform-Steps_example = perform-Steps client (get_at (codes "/blocked")) start

perform-Keeps_example :
    IsSane client (perform client (get_at (codes "/blocked")) start).1.state
    × Keeps client start.state (perform client (get_at (codes "/blocked")) start).1.state
perform-Keeps_example = perform-Keeps client (get_at (codes "/blocked")) start refl

requests-perform_example : requests (perform client (get_at (codes "/private")) start).1.trace ≤ 7
requests-perform_example = requests-perform client (get_at (codes "/private")) start

perform-Handed_example :
    Handed client (get_at (codes "/blocked")) (perform client (get_at (codes "/blocked")) start)
perform-Handed_example = perform-Handed client (get_at (codes "/blocked")) start

perform-IsTidy_example : IsTidy (perform client (get_at (codes "/offline")) start).1.trace
perform-IsTidy_example =
    perform-IsTidy client (get_at (codes "/offline")) start (record { reported = refl; paced = tt })

parse_submit_verdict-verified_example :
    is_verified (parse_submit_verdict library (answer 201 (codes "{PASS}"))) ≡ true
unfolding is_empty text_eq
parse_submit_verdict-verified_example =
    parse_submit_verdict-verified library (answer 201 (codes "{PASS}"))

submit_alpha-Vouches_example :
    Vouches client (codes "a1") start (submit_alpha client (codes "a1") start)
submit_alpha-Vouches_example = submit_alpha-Vouches client (codes "a1") start

check_budget_n-each_example :
    Agrees
      (roll_over no_budget.day no_budget)
      (check_budget_n_on config no_budget.day sim 2 no_budget)
      (check_each config no_budget.day sim 2 no_budget)
check_budget_n-each_example = check_budget_n-each config no_budget.day sim 0 no_budget

abbrev charges : List Charge
charges = record { kind = sim; units = 4 } ∷ record { kind = sim; units = 2 } ∷ []

admitted_le_example :
    IsWithin config (after_day config no_budget.day charges no_budget)
    × (is_within (pos 5) (0 + admitted_sims config no_budget.day charges no_budget) ≡ true)
unfolding text_eq
admitted_le_example =
    admitted_le config no_budget.day charges no_budget refl (record { sims = refl; submits = refl })

classify-root_example :
    (classify (wrapped (codes "login") err_not_authenticated)).0 ≡ not_authenticated_kind
classify-root_example = classify-root (wrapped (codes "login") err_not_authenticated)

abbrev options : Options
options = record {
  base_url = codes "https://h";
  profile = [];
  proxy = [];
  cookie_jar_path = [];
  timeout = pos 0;
  max_retries = pos 0;
  max_long_polls = pos 5;
  max_concurrent_sims = pos 0;
  ban_threshold = pos 0;
  budget_sims = pos 0;
  budget_submits = pos 0;
  has_solver = false;
  email = [];
  password = [];
}

abbrev parse_url : Text → Option Text
parse_url u = some u

new_client_limits_example :
    let c = config_of options (codes "https://h") false in
    (c.max_retries ≢ pos 0)
    × (c.max_long_polls ≢ pos 0)
    × (ltb_ℤ (pos 0) c.max_concurrent_sims ≡ true)
    × (c.ban_threshold ≢ pos 0)
    × ((options.ban_threshold ≢ pos 0) ⊎ (c.ban_threshold ≡ pos 3))
    × ((initial_state options).banned_flag ≡ false)
    × ((initial_state options).cooldown_until ≡ none)
unfolding new_client config_of
new_client_limits_example =
    new_client_limits parse_url (λ u. net u) false none options
      (config_of options (codes "https://h") false) (initial_state options) refl

abbrev decode_any : Text → Option Text
decode_any t = some t

probe-Tells_example : Tells client decode_any (probe client decode_any start)
probe-Tells_example = probe-Tells client decode_any start

wait_for_multi_simulation-Gathers_example :
    Gathers (wait_for_multi_simulation client (codes "s1") start)
wait_for_multi_simulation-Gathers_example =
    wait_for_multi_simulation-Gathers client (codes "s1") start

abbrev request : Text → SimulationRequest
request regular = record {
  kind = codes "REGULAR";
  settings = record {
    instrument_type = codes "EQUITY";
    region = codes "USA";
    universe = codes "TOP3000";
    delay = pos 1;
    language = codes "FASTEXPR";
    others = [];
  };
  regular = regular;
  others = [];
}

abbrev batch : List SimulationRequest
batch = request (codes "close") ∷ request (codes "open") ∷ []

create_multi_simulation_budget_example :
    (create_multi_simulation client none batch start).1.state.budget
    ≡ (check_budget_n_on config (day_of client start) sim 2 no_budget).1
unfolding validate_multi_sim_homogeneous text_eq is_empty
create_multi_simulation_budget_example = create_multi_simulation_budget client none batch start refl

validate_multi_sim_homogeneous_lem_example :
    (validate_multi_sim_homogeneous batch ≡ none)
    ↔ ((1 ≤ 1) × (1 ≤ 9) × Alike (request (codes "close")) batch)
validate_multi_sim_homogeneous_lem_example =
    validate_multi_sim_homogeneous_lem (request (codes "close")) (request (codes "open") ∷ [])
