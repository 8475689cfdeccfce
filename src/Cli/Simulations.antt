-- ===== src/Cli/Simulations.antt =====
-- cmd/brainapi: the commands of simulations (cmd_simulations.go) and of schema (cmd_schema.go). A flag
-- is an argument; `decode` is json.Unmarshal.
use brainapi_go_sdk.Prelude.{not, codes, ℕ, List, Bool, Option, Text, ℤ, if◌then◌else◌}
use brainapi_go_sdk.Types.{SimulationRequest, Decoded, Simulation}
use brainapi_go_sdk.Cli.Shell.{with_body, Run, run_e, Shell}
use brainapi_go_sdk.Simulations.Wait.{
  get_simulation, wait_for_multi_simulation, wait_for_simulation, Resolved,
}
use brainapi_go_sdk.Simulations.{
  simulation_options, create_multi_simulation, create_simulation, CreateSimulationResult,
}
use brainapi_go_sdk.Schema.{
  data_fields, datasets, DataFieldsQuery, data_fields_all, datasets_all, themes, data_categories,
  operators, CountedPage,
}
use brainapi_go_sdk.Errors.{Error}
use brainapi_go_sdk.World.Monad.{return, ◌>>=◌}
use brainapi_go_sdk.Iterators.{drain_all}
use brainapi_go_sdk.Cli.Account.{drained, listed, Listing}

-- The object of simCreateEnvelope.
pub record SimCreateEnvelope : Type 0 where
  pub id : Text
  pub limit : ℤ
  pub remaining : ℤ
  pub reset_seconds : ℤ
  pub present : Bool

-- `whole_seconds` is int(d.Seconds()).
unfoldable pub sim_create_envelope : (ℤ → ℤ) → CreateSimulationResult → SimCreateEnvelope
sim_create_envelope whole_seconds r = record {
  id = r.id;
  limit = r.rate_limit.limit;
  remaining = r.rate_limit.remaining;
  reset_seconds = whole_seconds r.rate_limit.reset;
  present = r.rate_limit.present;
}

module _ (s : Shell) (whole_seconds : ℤ → ℤ) (slot : Option Error) where
  unfoldable pub simulations_create_command :
      (Text → Decoded SimulationRequest) → Text → Run SimCreateEnvelope
  unfolding with_body run_e sim_create_envelope
  simulations_create_command decode json =
      with_body s decode (codes "--json is required") json (codes "parse simulation body") λ req.
        run_e s
          λ c. create_simulation c slot req >>= λ r. return (sim_create_envelope whole_seconds r)

  unfoldable pub simulations_create_multi_command :
      (Text → Decoded (List SimulationRequest)) → Text → Run SimCreateEnvelope
  unfolding with_body run_e sim_create_envelope
  simulations_create_multi_command decode json =
      with_body s decode (codes "--json is required") json (codes "parse multi-simulation body")
        λ reqs. run_e s λ c.
          create_multi_simulation c slot reqs >>= λ r. return (sim_create_envelope whole_seconds r)

-- What wait-multi writes: "incomplete" is true exactly beside an "error".
pub record WaitMulti : Type 0 where
  pub parent : Simulation
  pub children : List Simulation
  pub error : Option Error

abbrev pub wait_multi_of : Simulation × Resolved → WaitMulti
wait_multi_of (parent, r) = record { parent = parent; children = r.0; error = r.1 }

module _ (s : Shell) where
  unfoldable pub simulations_get : Text → Run Simulation
  unfolding run_e
  simulations_get id = run_e s (λ c. get_simulation c id)

  unfoldable pub simulations_wait : Text → Run Simulation
  unfolding run_e
  simulations_wait id = run_e s (λ c. wait_for_simulation c id)

  unfoldable pub simulations_wait_multi_command : Text → Run WaitMulti
  unfolding run_e
  simulations_wait_multi_command id =
      run_e s (λ c. wait_for_multi_simulation c id >>= λ found. return (wait_multi_of found))

module _ {T : Type 0} (s : Shell) where
  unfoldable pub schema_operators : (Text → Option (List T)) → Run (List T)
  unfolding run_e
  schema_operators decode = run_e s (λ c. operators c decode)

  unfoldable pub schema_simulation_options : (Text → Option T) → Run T
  unfolding run_e
  schema_simulation_options decode = run_e s (λ c. simulation_options c decode)

  unfoldable pub schema_data_categories :
      (Text → Option (List T)) → (Text → Option (List T)) → Run (List T)
  unfolding run_e
  schema_data_categories decode_list decode_envelope =
      run_e s (λ c. data_categories c decode_list decode_envelope)

  unfoldable pub schema_themes : (Text → Option (List T)) → (Text → Option (List T)) → Run (List T)
  unfolding run_e
  schema_themes decode_list decode_envelope = run_e s (λ c. themes c decode_list decode_envelope)

  module _ (decode : Text → Option (CountedPage T)) (choice : ℕ → Option Error) (fuel : ℕ) where
    unfoldable pub schema_data_fields : DataFieldsQuery → Bool → Run (Listing (CountedPage T) T)
    unfolding run_e data_fields_all drain_all
    schema_data_fields q all = run_e s λ c.
        if not all
        then listed (data_fields c decode q)
        else drained (data_fields_all c decode q choice fuel)

    unfoldable pub schema_datasets : DataFieldsQuery → Bool → Run (Listing (CountedPage T) T)
    unfolding run_e datasets_all drain_all
    schema_datasets q all = run_e s λ c.
        if not all
        then listed (datasets c decode q)
        else drained (datasets_all c decode q choice fuel)
