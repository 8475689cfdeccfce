-- ===== src/Endpoint/Catalog.antt =====
-- The endpoints of the schema, of simulations and of registration come to an end.
use brainapi_go_sdk.Prelude.{none, length, codes, if_elim, some, arith, ℕ, List, Text, Option}
use brainapi_go_sdk.Client.{Setup}
use brainapi_go_sdk.Register.{
  complete_form, register, accept_registered, captcha_of, fetch_captcha_challenge, CaptchaSolver,
}
use brainapi_go_sdk.Schema.{
  is_underspecified, DataFieldsQuery, CountedPage, datasets, themes, operators, data_categories,
  either_shape, data_fields,
}
use brainapi_go_sdk.Simulations.Wait.{get_simulation}
use brainapi_go_sdk.Simulations.{
  validate_multi_sim_homogeneous, refuse, reserve_sim_slot, create_multi_simulation, accept_created,
  simulation_options, post_simulations, create_simulation,
}
use brainapi_go_sdk.Client.Budgets.{sim, check_budget_n_on, check_budget_n}
use brainapi_go_sdk.Errors.{wrapped, Error}
use brainapi_go_sdk.World.Monad.{diverged, err, ok, map_error, Halts-continue, Halts, Outcome, M}
use brainapi_go_sdk.World.{World}
use brainapi_go_sdk.Types.{RegisterInput, Payload, RawResponse, SimulationRequest}
use brainapi_go_sdk.Transport.Login.{decode_body}
use brainapi_go_sdk.Endpoint.Halts.{finish-Halts, fetch-Halts, after_required}
use brainapi_go_sdk.Alphas.Submitted.{budget-Halts}
use brainapi_go_sdk.Transport.Termination.{perform-Halts}
use brainapi_go_sdk.Simulations.Ended.{raw-Halts}

module _ {T : Type 0} (c : Setup) where
  pub operators-Halts : (decode : Text → Option (List T)) (w : World) → Halts (operators c decode w)
  unfolding operators
  operators-Halts decode = fetch-Halts c decode _ _

  pub data_fields-Halts :
      (decode : Text → Option (CountedPage T)) (q : DataFieldsQuery) (w : World)
      → Halts (data_fields c decode q w)
  unfolding data_fields
  data_fields-Halts decode q w =
      if_elim (λ (m : M (CountedPage T)). Halts (m w)) (is_underspecified q) _ _ (λ _. tt)
        (λ _. fetch-Halts c decode _ _ w)

  pub datasets-Halts :
      (decode : Text → Option (CountedPage T)) (q : DataFieldsQuery) (w : World)
      → Halts (datasets c decode q w)
  unfolding datasets
  datasets-Halts decode q w =
      if_elim (λ (m : M (CountedPage T)). Halts (m w)) (is_underspecified q) _ _ (λ _. tt)
        (λ _. fetch-Halts c decode _ _ w)

  either_shape-Halts :
      (decode_list decode_envelope : Text → Option (List T)) (body desc : Text) (w : World)
      → Halts (either_shape c decode_list decode_envelope body desc w)
  unfolding either_shape decode_body
  either_shape-Halts decode_list decode_envelope body desc w = ground arith

  pub data_categories-Halts :
      (decode_list decode_envelope : Text → Option (List T)) (w : World)
      → Halts (data_categories c decode_list decode_envelope w)
  unfolding data_categories
  data_categories-Halts decode_list decode_envelope w =
      Halts-continue _ _ (perform-Halts c _ w)
        (λ resp v. either_shape-Halts decode_list decode_envelope resp.body _ v)

  pub themes-Halts :
      (decode_list decode_envelope : Text → Option (List T)) (w : World)
      → Halts (themes c decode_list decode_envelope w)
  unfolding themes
  themes-Halts decode_list decode_envelope w =
      Halts-continue _ _ (perform-Halts c _ w)
        (λ resp v. either_shape-Halts decode_list decode_envelope resp.body _ v)

  pub simulation_options-Halts :
      (decode : Text → Option T) (w : World) → Halts (simulation_options c decode w)
  unfolding simulation_options
  simulation_options-Halts decode = fetch-Halts c decode _ _

module _ (c : Setup) where
  pub get_simulation-Halts : (id : Text) (w : World) → Halts (get_simulation c id w)
  unfolding get_simulation
  get_simulation-Halts id w = after_required id _ _ w (λ v. finish-Halts _ _ (raw-Halts c id v))

  created-Halts : (resp : RawResponse) (w : World) → Halts (accept_created c resp w)
  unfolding accept_created
  created-Halts resp w = ground arith

  post-Halts : (slot : Option Error) (p : Payload) (w : World) → Halts (post_simulations c slot p w)
  unfolding post_simulations reserve_sim_slot
  post-Halts none p w = Halts-continue _ _ (perform-Halts c _ w) created-Halts
  post-Halts (some e) p w = tt

  pub create_simulation-Halts :
      (slot : Option Error) (req : SimulationRequest) (w : World)
      → Halts (create_simulation c slot req w)
  unfolding create_simulation
  create_simulation-Halts slot req w =
      after_required req.kind _ _ w
        λ v. Halts-continue _ _ (budget-Halts c sim v) (λ _ u. post-Halts slot _ u)

  budget_n-Halts : (n : ℕ) (w : World) → Halts (check_budget_n c sim n w)
  unfolding check_budget_n check_budget_n_on
  budget_n-Halts n w = ground arith

  refused-Halts : (o : Option Error) (w : World) → Halts (refuse o w)
  refused-Halts none w = tt
  refused-Halts (some e) w = tt

  pub create_multi_simulation-Halts :
      (slot : Option Error) (reqs : List SimulationRequest) (w : World)
      → Halts (create_multi_simulation c slot reqs w)
  unfolding create_multi_simulation
  create_multi_simulation-Halts slot reqs w =
      Halts-continue _ _ (refused-Halts (validate_multi_sim_homogeneous reqs) w)
        λ _ v. Halts-continue _ _ (budget_n-Halts (length reqs) v) (λ _ u. post-Halts slot _ u)

-- A solver that ends where the call that it is given ends.
abbrev pub Solves : CaptchaSolver → Type 0
Solves solve = (m : M Text) → ((v : World) → Halts (m v)) → (v : World) → Halts (solve m v)

pub mapped-Halts :
    {A : Type 0} (f : Error → Error) (m : Outcome A × World) → Halts m → Halts (map_error f m)
mapped-Halts f (ok a, w) h = tt
mapped-Halts f (err e, w) h = tt
mapped-Halts f (diverged, w) h = h

module _ (c : Setup) (solve : CaptchaSolver) where
  fetch_captcha-Halts : (w : World) → Halts (fetch_captcha_challenge c w)
  unfolding fetch_captcha_challenge
  fetch_captcha-Halts w = Halts-continue _ _ (perform-Halts c _ w) (λ resp v. ground arith)

  captcha-Halts : Solves solve → (captcha : Text) (w : World) → Halts (captcha_of c solve captcha w)
  unfolding captcha_of
  captcha-Halts h captcha w = ground (
    arith,
    mapped-Halts (wrapped (codes "captcha solve")) (solve (fetch_captcha_challenge c) w)
        (h (fetch_captcha_challenge c) fetch_captcha-Halts w),
  )

  registered-Halts :
      {T : Type 0} (decode : Text → Option T) (resp : RawResponse) (w : World)
      → Halts (accept_registered c decode resp w)
  unfolding accept_registered
  registered-Halts decode resp w = ground arith

  pub register-Halts :
      {T : Type 0} (decode : Text → Option T) (form : RegisterInput) (w : World)
      → Solves solve
      → Halts (register c solve decode form w)
  unfolding register complete_form
  register-Halts decode form w h =
      Halts-continue _ _
        (after_required form.email _ _ w λ v.
          after_required form.auxiliary.password _ _ v
            λ u. Halts-continue _ _ (captcha-Halts h form.auxiliary.captcha u) (λ _ _. tt))
        (λ _ v. Halts-continue _ _ (perform-Halts c _ v) (registered-Halts decode))
