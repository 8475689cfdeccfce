-- ===== src/Cli/Completed.antt =====
-- Every command of cmd/brainapi that does not drain a listing comes to an end.
use brainapi_go_sdk.Prelude.{codes, ◌∷◌, [], false, ◌≡◌, Bool, Text}
use brainapi_go_sdk.Cli.Dispatch.{
  power_pool_block, prod_block, self_block, dataset, data_field, theme, data_category, options,
  operator, message, diversity_stream, activity_stream, competition, user, performance, alpha_row,
  record_set_block, pnl_series, session_info, Output, do_themes, do_categories, do_options,
  do_operators, do_competitions, do_self, do_logout, do_probe, do_login, do_verify, do_reset,
  do_forgot, do_reverify, out_user, do_register, out_counted, out_rows, do_diversity,
  out_activities, do_activities, out_waited, do_wait_multi, do_wait, out_simulation,
  do_get_simulation, do_create_multi, out_created, do_create, do_performance, out_pages, out_raw,
  do_recordsets, do_recordset, out_correlation, do_corr_local, do_set_osmosis_points,
  do_set_properties, do_corr_power_pool, do_corr_prod, do_corr, do_pnl, out_verdict, do_submit,
  out_checks, do_check, out_alpha, do_get, out_flag, out_document, out_session, do_datasets,
  do_data_fields, do_list_messages, do_list_alphas, run_command, Invocation, Tools,
}
use brainapi_go_sdk.Cli.Shell.{Shell}
use brainapi_go_sdk.Cli.Account.{
  users_self, users_diversity, users_competitions, users_activities, password_reset_command,
  password_forgot_command, messages_list, email_verify_command, email_reverify_command, auth_probe,
  auth_logout, auth_login,
}
use brainapi_go_sdk.Cli.Alphas.{
  properties_of, alphas_submit, alphas_set_properties, alphas_recordsets, alphas_recordset,
  alphas_pnl, alphas_performance, alphas_list, alphas_get, alphas_corr_prod, alphas_corr_power_pool,
  alphas_corr, alphas_check,
}
use brainapi_go_sdk.Endpoint.Catalog.{
  datasets-Halts, data_fields-Halts, themes-Halts, data_categories-Halts, simulation_options-Halts,
  operators-Halts, get_simulation-Halts, Solves,
}
use brainapi_go_sdk.Iterators.{messages_all, list_alphas_all}
use brainapi_go_sdk.Cli.Answers.{as_output-Answers, Answers}
use brainapi_go_sdk.Endpoint.Halts.{
  verify_email-Halts, reset_password-Halts, forgot_password-Halts, reverify_email-Halts,
  messages-Halts, diversity-Halts, competitions-Halts, self-Halts, logout-Halts, probe-Halts,
  finish-Halts,
}
use brainapi_go_sdk.Endpoint.Alphas.{
  list_alphas-Halts, alpha_record_sets-Halts, alpha_record_set-Halts, set_alpha_properties-Halts,
  power_pool_correlation-Halts, prod_correlation-Halts, self_correlation-Halts, alpha_pnl-Halts,
  check_alpha-Halts, get_alpha-Halts,
}
use brainapi_go_sdk.Cli.Simulations.{
  wait_multi_of, simulations_wait_multi_command, simulations_wait, simulations_get, schema_themes,
  schema_simulation_options, schema_operators, schema_datasets, schema_data_fields,
  schema_data_categories,
}
use brainapi_go_sdk.Transport.Termination.{login-Halts}
use brainapi_go_sdk.Alphas.Submitted.{submit_alpha-Halts}
use brainapi_go_sdk.Simulations.Ended.{wait_for_multi_simulation-Halts, wait-Halts}
use brainapi_go_sdk.Mcp.{first_non_empty}
use brainapi_go_sdk.Schema.{datasets_all, data_fields_all}
use brainapi_go_sdk.Cli.Answers.Endpoints.{
  activities_read-Halts, either_performance-Halts, unless_refused, one_page, osmosis-Answers,
  endpoint,
}
use brainapi_go_sdk.Cli.Answers.Bodies.{
  register-Answers, create_multi-Answers, create-Answers, corr_local-Answers,
}

-- The commands with --all, which go on for as long as the server has pages.
abbrev pub drains : Invocation → Bool
drains (do_list_alphas opts all) = all
drains (do_list_messages opts all) = all
drains (do_data_fields q all) = all
drains (do_datasets q all) = all
drains other = false

-- The credentials of auth login.
abbrev cli_user : Shell → Text
cli_user s = first_non_empty (s.flags.email ∷ s.getenv (codes "BRAINAPI_USER") ∷ [])

abbrev cli_pass : Shell → Text
cli_pass s = first_non_empty (s.flags.password ∷ s.getenv (codes "BRAINAPI_PASS") ∷ [])

module _ {D F : Type 0} (t : Tools D F) (s : Shell) where
  -- Each command that calls the platform ends, whatever the server answers and the flags are,
  -- unless it drains a listing with --all: it writes its result, or an error with the exit code of
  -- the one row of the published table that lists its kind, at least 2, or it ends as a usage
  -- error that has done nothing outside. It never panics. The captcha solver is taken to end where
  -- the fetch that it is given ends.
  pub run_command-Answers :
      (v : Invocation) → Solves t.solve → drains v ≡ false → Answers (run_command t s v)
  unfolding run_command first_non_empty alphas_check alphas_corr alphas_corr_power_pool
      alphas_corr_prod alphas_get alphas_list alphas_performance alphas_pnl alphas_recordset
      alphas_recordsets alphas_set_properties alphas_submit auth_login auth_logout auth_probe
      email_reverify_command email_verify_command messages_list password_forgot_command
      password_reset_command schema_data_categories schema_data_fields schema_datasets
      schema_operators schema_simulation_options schema_themes simulations_get simulations_wait
      simulations_wait_multi_command users_activities users_competitions users_diversity users_self
  run_command-Answers do_login solves one =
      endpoint (Output D F) out_session s _ (λ c. login-Halts c (cli_user s) (cli_pass s))
  run_command-Answers do_probe solves one =
      endpoint (Output D F) out_document s _ (λ c. probe-Halts c (t.decode session_info))
  run_command-Answers do_logout solves one =
      endpoint (Output D F) out_flag s _
        (λ c w. finish-Halts (λ _. codes "signed_out") _ (logout-Halts c w))
  run_command-Answers (do_get id) solves one =
      endpoint (Output D F) out_alpha s _ (λ c. get_alpha-Halts c id)
  run_command-Answers (do_check id) solves one =
      endpoint (Output D F) out_checks s _ (λ c. check_alpha-Halts c id)
  run_command-Answers (do_submit id) solves one =
      endpoint (Output D F) out_verdict s _ (λ c. submit_alpha-Halts c id)
  run_command-Answers (do_pnl id) solves one =
      endpoint (Output D F) out_document s _ (λ c. alpha_pnl-Halts c (t.decode pnl_series) id)
  run_command-Answers (do_corr id) solves one =
      endpoint (Output D F) out_document s _
        (λ c. self_correlation-Halts c (t.decode self_block) id)
  run_command-Answers (do_corr_prod id) solves one =
      endpoint (Output D F) out_document s _
        (λ c. prod_correlation-Halts c (t.decode prod_block) id)
  run_command-Answers (do_corr_power_pool id) solves one =
      endpoint (Output D F) out_document s _
        (λ c. power_pool_correlation-Halts c (t.decode power_pool_block) id)
  run_command-Answers (do_set_properties f id) solves one =
      endpoint (Output D F) out_alpha s _ (λ c. set_alpha_properties-Halts c id (properties_of f))
  run_command-Answers (do_set_osmosis_points n clear id) solves one =
      osmosis-Answers (Output D F) out_alpha s n clear id
  run_command-Answers (do_corr_local json) solves one =
      as_output-Answers {B = Output D F} out_correlation _
        (corr_local-Answers s t.floats t.calendar t.decode_series json)
  run_command-Answers (do_recordset id name) solves one =
      endpoint (Output D F) out_document s _
        (λ c. alpha_record_set-Halts c (t.decode record_set_block) id name)
  run_command-Answers (do_recordsets id) solves one =
      endpoint (Output D F) out_raw s _ (λ c. alpha_record_sets-Halts c id)
  run_command-Answers (do_list_alphas opts all) solves one =
      one_page (Output D F) out_pages s all _
        (λ c. list_alphas_all c (t.decode_page alpha_row) opts t.choice t.fuel) one
        (λ c. list_alphas-Halts c (t.decode_page alpha_row) opts)
  run_command-Answers (do_performance pool cid id) solves one =
      unless_refused (Output D F) out_document s _ _ _
        (λ c. either_performance-Halts c (t.decode performance) cid id)
  run_command-Answers (do_create json) solves one =
      as_output-Answers {B = Output D F} out_created _
        (create-Answers s t.whole_seconds t.slot t.decode_request json)
  run_command-Answers (do_create_multi json) solves one =
      as_output-Answers {B = Output D F} out_created _
        (create_multi-Answers s t.whole_seconds t.slot t.decode_requests json)
  run_command-Answers (do_get_simulation id) solves one =
      endpoint (Output D F) out_simulation s _ (λ c. get_simulation-Halts c id)
  run_command-Answers (do_wait id) solves one =
      endpoint (Output D F) out_simulation s _ (λ c. wait-Halts c id)
  run_command-Answers (do_wait_multi id) solves one =
      endpoint (Output D F) out_waited s _
        λ c w. finish-Halts wait_multi_of _ (wait_for_multi_simulation-Halts c id w)
  run_command-Answers do_self solves one =
      endpoint (Output D F) out_document s _ (λ c. self-Halts c (t.decode user))
  run_command-Answers do_competitions solves one =
      endpoint (Output D F) out_document s _ (λ c. competitions-Halts c (t.decode competition))
  run_command-Answers (do_activities columns kind) solves one =
      unless_refused (Output D F) out_activities s _ _ _
        (λ c. activities_read-Halts c (t.decode activity_stream) t.json t.records_of columns kind)
  run_command-Answers (do_diversity grouping) solves one =
      unless_refused (Output D F) out_document s _ _ _
        (λ c. diversity-Halts c (t.decode diversity_stream) grouping)
  run_command-Answers (do_list_messages opts all) solves one =
      one_page (Output D F) out_pages s all _
        (λ c. messages_all c (t.decode_page message) opts t.choice t.fuel) one
        (λ c. messages-Halts c (t.decode_page message) opts)
  run_command-Answers do_operators solves one =
      endpoint (Output D F) out_rows s _ (λ c. operators-Halts c (t.decode_list operator))
  run_command-Answers do_options solves one =
      endpoint (Output D F) out_document s _ (λ c. simulation_options-Halts c (t.decode options))
  run_command-Answers do_categories solves one =
      endpoint (Output D F) out_rows s _ (λ c.
        data_categories-Halts c (t.decode_list data_category) (t.decode_envelope data_category))
  run_command-Answers do_themes solves one =
      endpoint (Output D F) out_rows s _
        (λ c. themes-Halts c (t.decode_list theme) (t.decode_envelope theme))
  run_command-Answers (do_data_fields q all) solves one =
      one_page (Output D F) out_counted s all _
        (λ c. data_fields_all c (t.decode_counted data_field) q t.choice t.fuel) one
        (λ c. data_fields-Halts c (t.decode_counted data_field) q)
  run_command-Answers (do_datasets q all) solves one =
      one_page (Output D F) out_counted s all _
        (λ c. datasets_all c (t.decode_counted dataset) q t.choice t.fuel) one
        (λ c. datasets-Halts c (t.decode_counted dataset) q)
  run_command-Answers (do_register json) solves one =
      as_output-Answers {B = Output D F} out_user _
        (register-Answers s (t.decode user) t.decode_form t.solve json solves)
  run_command-Answers (do_reverify email recaptcha) solves one =
      endpoint (Output D F) out_flag s _
        (λ c w. finish-Halts (λ _. codes "resent") _ (reverify_email-Halts c email recaptcha w))
  run_command-Answers (do_forgot email recaptcha) solves one =
      endpoint (Output D F) out_flag s _ (λ c w.
        finish-Halts (λ _. codes "reset_initiated") _ (forgot_password-Halts c email recaptcha w))
  run_command-Answers (do_reset jwt password) solves one =
      endpoint (Output D F) out_flag s _
        (λ c w. finish-Halts (λ _. codes "reset") _ (reset_password-Halts c jwt password w))
  run_command-Answers (do_verify jwt) solves one =
      endpoint (Output D F) out_flag s _
        (λ c w. finish-Halts (λ _. codes "verified") _ (verify_email-Halts c jwt w))
