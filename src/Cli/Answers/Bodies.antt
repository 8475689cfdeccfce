-- ===== src/Cli/Answers/Bodies.antt =====
-- The commands that take a body by --json.
use brainapi_go_sdk.Prelude.{codes, [], List, ℤ, Option, Text}
use brainapi_go_sdk.Cli.Shell.{Shell}
use brainapi_go_sdk.Cli.Account.{register_command}
use brainapi_go_sdk.Cli.Alphas.{alphas_corr_local}
use brainapi_go_sdk.Types.{RegisterInput, SimulationRequest, Decoded}
use brainapi_go_sdk.Errors.{Error}
use brainapi_go_sdk.Endpoint.Catalog.{
  register-Halts, create_multi_simulation-Halts, create_simulation-Halts, Solves,
}
use brainapi_go_sdk.Cli.Answers.{with_body-Answers, run_e-Answers, Answers}
use brainapi_go_sdk.Endpoint.Halts.{finish-Halts}
use brainapi_go_sdk.Cli.Simulations.{
  sim_create_envelope, simulations_create_multi_command, simulations_create_command,
}
use brainapi_go_sdk.Float.{Float64}
use brainapi_go_sdk.Selfcorr.{self_corr_local, SelfCorrLocalInput, Calendar}
use brainapi_go_sdk.Register.{CaptchaSolver}
use brainapi_go_sdk.Cli.{success}

module _ (s : Shell) where
  pub corr_local-Answers :
      {F : Type 0} (fl : Float64 F) (cal : Calendar F)
      (decode : Text → Decoded (SelfCorrLocalInput F)) (json : Text)
      → Answers (alphas_corr_local s fl cal decode json)
  unfolding alphas_corr_local
  corr_local-Answers fl cal decode json =
      with_body-Answers s decode (codes "--json is required") json (codes "parse corr-local body")
        (λ input. (success (self_corr_local fl cal input), [])) (λ _. tt)

  pub create-Answers :
      (whole_seconds : ℤ → ℤ) (slot : Option Error) (decode : Text → Decoded SimulationRequest)
      (json : Text)
      → Answers (simulations_create_command s whole_seconds slot decode json)
  unfolding simulations_create_command
  create-Answers whole_seconds slot decode json =
      with_body-Answers s decode (codes "--json is required") json (codes "parse simulation body") _
        λ req. run_e-Answers s _ λ c w.
          finish-Halts (sim_create_envelope whole_seconds) _ (create_simulation-Halts c slot req w)

  pub create_multi-Answers :
      (whole_seconds : ℤ → ℤ) (slot : Option Error)
      (decode : Text → Decoded (List SimulationRequest)) (json : Text)
      → Answers (simulations_create_multi_command s whole_seconds slot decode json)
  unfolding simulations_create_multi_command
  create_multi-Answers whole_seconds slot decode json =
      with_body-Answers s decode (codes "--json is required") json
        (codes "parse multi-simulation body") _
        λ reqs. run_e-Answers s _ λ c w.
          finish-Halts (sim_create_envelope whole_seconds) _
            (create_multi_simulation-Halts c slot reqs w)

  pub register-Answers :
      {D : Type 0} (decode : Text → Option D) (decode_form : Text → Decoded RegisterInput)
      (solve : CaptchaSolver) (json : Text)
      → Solves solve
      → Answers (register_command s decode decode_form solve json)
  unfolding register_command
  register-Answers decode decode_form solve json solves =
      with_body-Answers s decode_form (codes "--json is required (RegisterInput body)") json
        (codes "parse register body") _
        λ form. run_e-Answers s _ (λ c w. register-Halts c solve decode form w solves)
