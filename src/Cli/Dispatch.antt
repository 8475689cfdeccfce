-- ===== src/Cli/Dispatch.antt =====
-- The commands of cmd/brainapi that call the platform, as one type: what newRootCmd and the newXCmd
-- functions below it register, with the flags and arguments of each.
use brainapi_go_sdk.Prelude.{ℕ, List, Bool, ℤ, Option, Text}
use brainapi_go_sdk.Cli.Shell.{Run, Shell}
use brainapi_go_sdk.Types.{
  SimulationRequest, RegisterInput, Simulation, Decoded, IsBlock, Alpha, Session,
}
use brainapi_go_sdk.Cli.{hangs, crashed, misused, exited, success}
use brainapi_go_sdk.Cli.Alphas.{
  alphas_performance, alphas_list, alphas_recordsets, alphas_recordset, alphas_corr_local,
  alphas_set_osmosis_points, alphas_set_properties, alphas_corr_power_pool, alphas_corr_prod,
  alphas_corr, alphas_pnl, alphas_submit, alphas_check, alphas_get, PropertyFlags,
}
use brainapi_go_sdk.Cli.Account.{
  email_verify_command, password_reset_command, password_forgot_command, email_reverify_command,
  register_command, messages_list, users_diversity, users_activities, users_competitions,
  users_self, auth_logout, Listing, Activities, auth_probe, auth_login,
}
use brainapi_go_sdk.Iterators.{Page}
use brainapi_go_sdk.Schema.{DataFieldsQuery, CountedPage}
use brainapi_go_sdk.Alphas.{ListAlphasOptions}
use brainapi_go_sdk.Decoders.{Json, RecordSetBlock}
use brainapi_go_sdk.Account.{ListMessagesOptions}
use brainapi_go_sdk.Alphas.Verdict.{Verdict}
use brainapi_go_sdk.Float.{Float64}
use brainapi_go_sdk.Selfcorr.{SelfCorrLocalInput, MaxSelfCorrResult, Calendar}
use brainapi_go_sdk.Cli.Simulations.{
  schema_datasets, schema_data_fields, schema_themes, schema_data_categories,
  schema_simulation_options, schema_operators, simulations_wait_multi_command, simulations_wait,
  simulations_get, simulations_create_multi_command, simulations_create_command, WaitMulti,
  SimCreateEnvelope,
}
use brainapi_go_sdk.Register.{CaptchaSolver}
use brainapi_go_sdk.Errors.{Error}

-- The Go types that the decoders are instantiated with.
pub data Document : Type 0 where
  session_info user competition message activity_stream diversity_stream : Document
  pnl_series record_set_block self_block prod_block power_pool_block : Document
  performance alpha_row operator data_field dataset data_category theme options : Document

-- What the commands take from encoding/json, the captcha solver, the channel of simulation slots and
-- the choices of the paging loops; D stands for the documents and F for float64.
pub record Tools (D F : Type 0) : Type 0 where
  pub decode : Document → Text → Option D
  pub decode_page : Document → Text → Option (Page D)
  pub decode_counted : Document → Text → Option (CountedPage D)
  pub decode_list : Document → Text → Option (List D)
  pub decode_envelope : Document → Text → Option (List D)
  pub records_of : D → Option RecordSetBlock
  pub json : Json F
  pub floats : Float64 F
  pub calendar : Calendar F
  pub decode_form : Text → Decoded RegisterInput
  pub decode_request : Text → Decoded SimulationRequest
  pub decode_requests : Text → Decoded (List SimulationRequest)
  pub decode_series : Text → Decoded (SelfCorrLocalInput F)
  pub solve : CaptchaSolver
  pub whole_seconds : ℤ → ℤ
  pub slot : Option Error
  pub choice : ℕ → Option Error
  pub fuel : ℕ

pub data Invocation : Type 0 where
  do_login do_probe do_logout : Invocation
  do_get do_check do_submit do_pnl do_corr do_corr_prod do_corr_power_pool : Text → Invocation
  do_set_properties : PropertyFlags → Text → Invocation
  do_set_osmosis_points : Option ℤ → Bool → Text → Invocation
  do_corr_local : Text → Invocation
  do_recordset : Text → Text → Invocation
  do_recordsets : Text → Invocation
  do_list_alphas : ListAlphasOptions → Bool → Invocation
  do_performance : Bool → Text → Text → Invocation
  do_create do_create_multi do_get_simulation do_wait do_wait_multi : Text → Invocation
  do_self do_competitions : Invocation
  do_activities : Bool → Text → Invocation
  do_diversity : Text → Invocation
  do_list_messages : ListMessagesOptions → Bool → Invocation
  do_operators do_options do_categories do_themes : Invocation
  do_data_fields do_datasets : DataFieldsQuery → Bool → Invocation
  do_register : Text → Invocation
  do_reverify do_forgot do_reset : Text → Text → Invocation
  do_verify : Text → Invocation

pub data Output (D F : Type 0) : Type 0 where
  out_session : Session → Output D F
  out_flag : Text → Output D F
  out_document : D → Output D F
  out_user : Option D → Output D F
  out_activities : Activities D → Output D F
  out_pages : Listing (Page D) D → Output D F
  out_counted : Listing (CountedPage D) D → Output D F
  out_rows : List D → Output D F
  out_alpha : Alpha → Output D F
  out_checks : IsBlock → Output D F
  out_verdict : Verdict → Output D F
  out_raw : Text → Output D F
  out_correlation : MaxSelfCorrResult F → Output D F
  out_created : SimCreateEnvelope → Output D F
  out_simulation : Simulation → Output D F
  out_waited : WaitMulti → Output D F

abbrev pub as_output : {A B : Type 0} → (A → B) → Run A → Run B
as_output f (success a, t) = (success (f a), t)
as_output f (exited kind d code, t) = (exited kind d code, t)
as_output f (misused e, t) = (misused e, t)
as_output f (crashed, t) = (crashed, t)
as_output f (hangs, t) = (hangs, t)

unfoldable pub run_command : {D F : Type 0} → Tools D F → Shell → Invocation → Run (Output D F)
run_command t s do_login = as_output out_session (auth_login s)
run_command t s do_probe = as_output out_document (auth_probe s (t.decode session_info))
run_command t s do_logout = as_output out_flag (auth_logout s)
run_command t s (do_get id) = as_output out_alpha (alphas_get s id)
run_command t s (do_check id) = as_output out_checks (alphas_check s id)
run_command t s (do_submit id) = as_output out_verdict (alphas_submit s id)
run_command t s (do_pnl id) = as_output out_document (alphas_pnl s (t.decode pnl_series) id)
run_command t s (do_corr id) = as_output out_document (alphas_corr s (t.decode self_block) id)
run_command t s (do_corr_prod id) =
    as_output out_document (alphas_corr_prod s (t.decode prod_block) id)
run_command t s (do_corr_power_pool id) =
    as_output out_document (alphas_corr_power_pool s (t.decode power_pool_block) id)
run_command t s (do_set_properties f id) = as_output out_alpha (alphas_set_properties s f id)
run_command t s (do_set_osmosis_points n clear id) =
    as_output out_alpha (alphas_set_osmosis_points s n clear id)
run_command t s (do_corr_local json) =
    as_output out_correlation (alphas_corr_local s t.floats t.calendar t.decode_series json)
run_command t s (do_recordset id name) =
    as_output out_document (alphas_recordset s (t.decode record_set_block) id name)
run_command t s (do_recordsets id) = as_output out_raw (alphas_recordsets s id)
run_command t s (do_list_alphas opts all) =
    as_output out_pages (alphas_list s (t.decode_page alpha_row) t.choice t.fuel opts all)
run_command t s (do_performance pool cid id) =
    as_output out_document (alphas_performance s (t.decode performance) pool cid id)
run_command t s (do_create json) =
    as_output out_created
      (simulations_create_command s t.whole_seconds t.slot t.decode_request json)
run_command t s (do_create_multi json) =
    as_output out_created
      (simulations_create_multi_command s t.whole_seconds t.slot t.decode_requests json)
run_command t s (do_get_simulation id) = as_output out_simulation (simulations_get s id)
run_command t s (do_wait id) = as_output out_simulation (simulations_wait s id)
run_command t s (do_wait_multi id) = as_output out_waited (simulations_wait_multi_command s id)
run_command t s do_self = as_output out_document (users_self s (t.decode user))
run_command t s do_competitions =
    as_output out_document (users_competitions s (t.decode competition))
run_command t s (do_activities columns kind) =
    as_output out_activities
      (users_activities s (t.decode activity_stream) t.json t.records_of columns kind)
run_command t s (do_diversity grouping) =
    as_output out_document (users_diversity s (t.decode diversity_stream) grouping)
run_command t s (do_list_messages opts all) =
    as_output out_pages (messages_list s (t.decode_page message) t.choice t.fuel opts all)
run_command t s do_operators = as_output out_rows (schema_operators s (t.decode_list operator))
run_command t s do_options = as_output out_document (schema_simulation_options s (t.decode options))
run_command t s do_categories =
    as_output out_rows
      (schema_data_categories s (t.decode_list data_category) (t.decode_envelope data_category))
run_command t s do_themes =
    as_output out_rows (schema_themes s (t.decode_list theme) (t.decode_envelope theme))
run_command t s (do_data_fields q all) =
    as_output out_counted (schema_data_fields s (t.decode_counted data_field) t.choice t.fuel q all)
run_command t s (do_datasets q all) =
    as_output out_counted (schema_datasets s (t.decode_counted dataset) t.choice t.fuel q all)
run_command t s (do_register json) =
    as_output out_user (register_command s (t.decode user) t.decode_form t.solve json)
run_command t s (do_reverify email recaptcha) =
    as_output out_flag (email_reverify_command s email recaptcha)
run_command t s (do_forgot email recaptcha) =
    as_output out_flag (password_forgot_command s email recaptcha)
run_command t s (do_reset jwt password) = as_output out_flag (password_reset_command s jwt password)
run_command t s (do_verify jwt) = as_output out_flag (email_verify_command s jwt)
