-- ===== src/Cli/Alphas.antt =====
-- cmd/brainapi: the commands of alphas (cmd_alphas.go). A flag is an argument, `none` where cobra says
-- that it was not changed; `decode` is json.Unmarshal.
use brainapi_go_sdk.Prelude.{
  none, some, codes, ◌||◌, pos, is_empty, ℕ, ltb_ℤ, ◌&&◌, true, [], some, List, not, ℤ, false, Text,
  Option, Bool, if◌then◌else◌,
}
use brainapi_go_sdk.Cli.Shell.{refuse, misuse, Run, run_e, with_body, Shell}
use brainapi_go_sdk.Cli.{success, write_err, split_tags}
use brainapi_go_sdk.Types.{Decoded, Alpha, IsBlock, AlphaProperties}
use brainapi_go_sdk.Selfcorr.{MaxSelfCorrResult, SelfCorrLocalInput, Calendar, self_corr_local}
use brainapi_go_sdk.Iterators.{Page, drain_all, list_alphas_all}
use brainapi_go_sdk.Float.{Float64}
use brainapi_go_sdk.Alphas.{
  list_alphas, set_alpha_osmosis_points, ListAlphasOptions, max_osmosis_points, check_alpha,
  set_alpha_properties, get_alpha, alpha_record_sets, alpha_record_set,
  alpha_power_pool_correlation, alpha_prod_correlation, alpha_self_correlation, alpha_pnl,
}
use brainapi_go_sdk.Alphas.Verdict.{Verdict}
use brainapi_go_sdk.Alphas.Submit.{submit_alpha}
use brainapi_go_sdk.Errors.{opaque, Error}
use brainapi_go_sdk.Cli.Account.{drained, listed, Listing}
use brainapi_go_sdk.Performance.{self_before_and_after_performance, before_and_after_performance}

pub record PropertyFlags : Type 0 where
  pub description : Option Text
  pub selection_description : Option Text
  pub combo_description : Option Text
  pub name : Option Text
  pub color : Option Text
  pub category : Option Text
  pub tags : Option Text

abbrev pub leg : Option Text → Option (Option Text)
leg none = none
leg (some d) = some (some d)

abbrev pub tag_list : Option Text → List Text
tag_list none = []
tag_list (some raw) = split_tags raw

-- The properties that set-properties sends, from the flags that were passed.
unfoldable pub properties_of : PropertyFlags → AlphaProperties
unfolding split_tags
properties_of f = record {
  regular = leg f.description;
  combo = leg f.combo_description;
  selection = leg f.selection_description;
  name = f.name;
  color = f.color;
  category = f.category;
  tags = tag_list f.tags;
}

abbrev pub is_set : {A : Type 0} → Option A → Bool
is_set none = false
is_set (some a) = true

-- points < 1 || points > MaxOsmosisPoints, where the flag was passed.
abbrev pub points_outside : Option ℤ → Bool
points_outside none = false
points_outside (some n) = ltb_ℤ n (pos 1) || ltb_ℤ max_osmosis_points n

abbrev pub same_bool : Bool → Bool → Bool
same_bool true b = b
same_bool false b = not b

module _ (s : Shell) where
  unfoldable pub alphas_get : Text → Run Alpha
  unfolding run_e
  alphas_get id = run_e s (λ c. get_alpha c id)

  unfoldable pub alphas_check : Text → Run IsBlock
  unfolding run_e
  alphas_check id = run_e s (λ c. check_alpha c id)

  unfoldable pub alphas_submit : Text → Run Verdict
  unfolding run_e
  alphas_submit id = run_e s (λ c. submit_alpha c id)

  unfoldable pub alphas_set_properties : PropertyFlags → Text → Run Alpha
  unfolding run_e properties_of
  alphas_set_properties f id = run_e s (λ c. set_alpha_properties c id (properties_of f))

  unfoldable pub alphas_set_osmosis_points : Option ℤ → Bool → Text → Run Alpha
  unfolding run_e
  alphas_set_osmosis_points points clear id =
      if same_bool (is_set points) clear
      then misuse (opaque (codes "pass exactly one of --points or --clear"))
      else if points_outside points
      then misuse (opaque (codes "--points must be an integer from 1 to 100000"))
      else run_e s (λ c. set_alpha_osmosis_points c id points)

  -- The body is passed on as it came.
  unfoldable pub alphas_recordsets : Text → Run Text
  unfolding run_e
  alphas_recordsets id = run_e s (λ c. alpha_record_sets c id)

module _ {D : Type 0} (s : Shell) (decode : Text → Option D) where
  unfoldable pub alphas_corr : Text → Run D
  unfolding run_e
  alphas_corr id = run_e s (λ c. alpha_self_correlation c decode id)

  unfoldable pub alphas_corr_prod : Text → Run D
  unfolding run_e
  alphas_corr_prod id = run_e s (λ c. alpha_prod_correlation c decode id)

  unfoldable pub alphas_corr_power_pool : Text → Run D
  unfolding run_e
  alphas_corr_power_pool id = run_e s (λ c. alpha_power_pool_correlation c decode id)

  unfoldable pub alphas_recordset : Text → Text → Run D
  unfolding run_e
  alphas_recordset id name = run_e s (λ c. alpha_record_set c decode id name)

  unfoldable pub alphas_pnl : Text → Run D
  unfolding run_e
  alphas_pnl id = run_e s (λ c. alpha_pnl c decode id)

  unfoldable pub alphas_performance : Bool → Text → Text → Run D
  unfolding run_e write_err
  alphas_performance pool competition id =
      if pool && not (is_empty competition)
      then refuse (opaque (codes "--pool and --competition are mutually exclusive"))
      else run_e s λ c.
        if not (is_empty competition)
        then before_and_after_performance c decode competition id
        else self_before_and_after_performance c decode id

-- corr-local needs no client.
unfoldable pub alphas_corr_local :
    {F : Type 0}
    → Shell
    → Float64 F
    → Calendar F
    → (Text → Decoded (SelfCorrLocalInput F))
    → Text
    → Run (MaxSelfCorrResult F)
unfolding with_body self_corr_local
alphas_corr_local s fl cal decode json =
    with_body s decode (codes "--json is required") json (codes "parse corr-local body")
      λ input. (success (self_corr_local fl cal input), [])

unfoldable pub alphas_list :
    {T : Type 0}
    → Shell
    → (Text → Option (Page T))
    → (ℕ → Option Error)
    → ℕ
    → ListAlphasOptions
    → Bool
    → Run (Listing (Page T) T)
unfolding run_e list_alphas_all drain_all
alphas_list s decode choice fuel opts all = run_e s λ c.
    if not all
    then listed (list_alphas c decode opts)
    else drained (list_alphas_all c decode opts choice fuel)
