-- ===== src/Endpoint/Alphas.antt =====
-- The endpoints of alphas, and the comparison of performance, come to an end.
use brainapi_go_sdk.Prelude.{is_empty, if_elim, arith, ℤ, Option, Text}
use brainapi_go_sdk.Client.{Setup}
use brainapi_go_sdk.Alphas.{
  out_of_range, ListAlphasOptions, alpha_record_set, list_alphas, alpha_self_correlation, alpha_pnl,
  alpha_power_pool_correlation, alpha_prod_correlation, set_alpha_properties, get_alpha,
  alpha_record_sets, check_alpha, set_alpha_osmosis_points, check_body,
}
use brainapi_go_sdk.Types.{Alpha, IsBlock, AlphaProperties}
use brainapi_go_sdk.World.{World}
use brainapi_go_sdk.Performance.{self_before_and_after_performance, before_and_after_performance}
use brainapi_go_sdk.World.Monad.{M, Halts-continue, Halts}
use brainapi_go_sdk.Endpoint.Halts.{fetch_polled-Halts, fetch-Halts, after_required}
use brainapi_go_sdk.Transport.Termination.{perform-Halts}

module _ (c : Setup) where
  pub get_alpha-Halts : (id : Text) (w : World) → Halts (get_alpha c id w)
  unfolding get_alpha
  get_alpha-Halts id w = after_required id _ _ w (fetch-Halts c _ _ _)

  check_body-Halts : (body : Text) (w : World) → Halts (check_body c body w)
  unfolding check_body
  check_body-Halts body w = ground arith

  pub check_alpha-Halts : (id : Text) (w : World) → Halts (check_alpha c id w)
  unfolding check_alpha
  check_alpha-Halts id w = after_required id _ _ w λ v.
      Halts-continue _ _ (perform-Halts c _ v) λ resp u.
        if_elim (λ (m : M IsBlock). Halts (m u)) (is_empty resp.body) _ _ (λ _. tt)
          (λ _. check_body-Halts resp.body u)

  pub alpha_record_sets-Halts : (id : Text) (w : World) → Halts (alpha_record_sets c id w)
  unfolding alpha_record_sets
  alpha_record_sets-Halts id w =
      after_required id _ _ w λ v. Halts-continue _ _ (perform-Halts c _ v) (λ _ _. tt)

  pub set_alpha_properties-Halts :
      (id : Text) (props : AlphaProperties) (w : World) → Halts (set_alpha_properties c id props w)
  unfolding set_alpha_properties
  set_alpha_properties-Halts id props w = after_required id _ _ w (fetch-Halts c _ _ _)

  pub set_alpha_osmosis_points-Halts :
      (id : Text) (points : Option ℤ) (w : World) → Halts (set_alpha_osmosis_points c id points w)
  unfolding set_alpha_osmosis_points
  set_alpha_osmosis_points-Halts id points w = after_required id _ _ w λ v.
      if_elim (λ (m : M Alpha). Halts (m v)) (out_of_range points) _ _ (λ _. tt)
        (λ _. fetch-Halts c _ _ _ v)

module _ {T : Type 0} (c : Setup) (decode : Text → Option T) where
  pub alpha_pnl-Halts : (id : Text) (w : World) → Halts (alpha_pnl c decode id w)
  unfolding alpha_pnl
  alpha_pnl-Halts id w = after_required id _ _ w (fetch_polled-Halts c decode _ _)

  pub alpha_record_set-Halts :
      (id name : Text) (w : World) → Halts (alpha_record_set c decode id name w)
  unfolding alpha_record_set
  alpha_record_set-Halts id name w =
      after_required id _ _ w λ v. after_required name _ _ v (fetch_polled-Halts c decode _ _)

  pub self_correlation-Halts :
      (id : Text) (w : World) → Halts (alpha_self_correlation c decode id w)
  unfolding alpha_self_correlation
  self_correlation-Halts id w = after_required id _ _ w (fetch_polled-Halts c decode _ _)

  pub prod_correlation-Halts :
      (id : Text) (w : World) → Halts (alpha_prod_correlation c decode id w)
  unfolding alpha_prod_correlation
  prod_correlation-Halts id w = after_required id _ _ w (fetch_polled-Halts c decode _ _)

  pub power_pool_correlation-Halts :
      (id : Text) (w : World) → Halts (alpha_power_pool_correlation c decode id w)
  unfolding alpha_power_pool_correlation
  power_pool_correlation-Halts id w = after_required id _ _ w (fetch_polled-Halts c decode _ _)

  pub list_alphas-Halts :
      (opts : ListAlphasOptions) (w : World) → Halts (list_alphas c decode opts w)
  unfolding list_alphas
  list_alphas-Halts opts = fetch-Halts c decode _ _

  pub performance-Halts :
      (competition id : Text) (w : World)
      → Halts (before_and_after_performance c decode competition id w)
  unfolding before_and_after_performance
  performance-Halts competition id w =
      after_required competition _ _ w
        λ v. after_required id _ _ v (fetch_polled-Halts c decode _ _)

  pub self_performance-Halts :
      (id : Text) (w : World) → Halts (self_before_and_after_performance c decode id w)
  unfolding self_before_and_after_performance
  self_performance-Halts id w = after_required id _ _ w (fetch_polled-Halts c decode _ _)
