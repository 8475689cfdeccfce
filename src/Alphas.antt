-- ===== src/Alphas.antt =====
-- pkg/brainapi/alphas.go: the endpoints that read and edit alphas.
pub mod Verdict
pub mod Verified
pub mod Submit
pub mod Submitted
pub mod Properties
use brainapi_go_sdk.Prelude.{
  ℕ, Bool, true, false, ◌&&◌, ◌||◌, Option, none, some, List, [], ◌∷◌, ◌++◌, Text, codes, is_empty,
  text_eq, ℤ, pos, ltb_ℤ, if◌then◌else◌,
}
use brainapi_go_sdk.Types.{
  Alpha, IsBlock, Check, AlphaProperties, Payload, properties, osmosis, Decoded, parsed, unparsed,
}
use brainapi_go_sdk.Errors.{Error, opaque, wrapped, err_long_poll_exceeded}
use brainapi_go_sdk.Retry.{no_hints}
use brainapi_go_sdk.World.Monad.{M, fail, return, ◌>>=◌, ◌>>◌}
use brainapi_go_sdk.Client.{Setup, require_non_empty}
use brainapi_go_sdk.Client.Url.{set_if_not_empty, set_if_positive}
use brainapi_go_sdk.Transport.Request.{DoRequest, plain_request}
use brainapi_go_sdk.Transport.Do.{perform}
use brainapi_go_sdk.Endpoint.{fetch, fetch_polled}
use brainapi_go_sdk.Alphas.Properties.{wire_members}

abbrev get : Text → DoRequest
get = plain_request (codes "GET")

abbrev pub alpha_path : Text → Text
alpha_path id = codes "/alphas/" ++ id

-- encodeFilters: the fragments that are not empty, escaped.
unfoldable pub encode_filters : Setup → List Text → List Text
encode_filters c [] = []
encode_filters c (f ∷ fs) =
    let rest = encode_filters c fs in if is_empty f then rest else c.library.query_escape f ∷ rest

unfoldable pub get_alpha : Setup → Text → M Alpha
get_alpha c id = do
  require_non_empty id (codes "alpha id")
  fetch c c.library.unmarshal_alpha (get (alpha_path id)) (codes "alpha")

abbrev empty_is : Option IsBlock → IsBlock
empty_is none = record { checks = [] }
empty_is (some b) = b

unfoldable pub check_body : Setup → Text → M IsBlock
check_body c body = elim (c.library.unmarshal_is body) [
  | parsed o ↦ return (empty_is o)
  | unparsed msg ↦ fail (wrapped (codes "check body") (opaque msg))
]

unfoldable pub check_alpha : Setup → Text → M IsBlock
unfolding check_body
check_alpha c id = do
  require_non_empty id (codes "alpha id")
  resp ← perform c (record (get (alpha_path id ++ codes "/check")) {
    hints = record no_hints { long_poll200_empty = true; max_long_polls = pos 30 };
  })
  if is_empty resp.body then fail err_long_poll_exceeded else check_body c resp.body

-- The recordset and correlation endpoints, over the types that they decode.
module _ {T : Type 0} (c : Setup) (decode : Text → Option T) where
  unfoldable pub alpha_pnl : Text → M T
  alpha_pnl id = do
    require_non_empty id (codes "alpha id")
    fetch_polled c decode
        (record (get (alpha_path id ++ codes "/recordsets/pnl")) {
          hints = record no_hints { long_poll200_empty = true; max_long_polls = pos 6 };
        })
        (codes "pnl")

  unfoldable pub alpha_record_set : Text → Text → M T
  alpha_record_set id name = do
    require_non_empty id (codes "alpha id")
    require_non_empty name (codes "recordset name")
    fetch_polled c decode
        (record (get (alpha_path id ++ (codes "/recordsets/" ++ name))) {
          hints = record no_hints { long_poll200_empty = true; max_long_polls = pos 6 };
        })
        (codes "recordset")

  abbrev correlation_request : Text → Text → DoRequest
  correlation_request id pool = record (get (alpha_path id ++ (codes "/correlations/" ++ pool))) {
    hints = record no_hints { long_poll503 = true; long_poll200_empty = true };
  }

  unfoldable pub alpha_self_correlation : Text → M T
  alpha_self_correlation id = do
    require_non_empty id (codes "alpha id")
    fetch_polled c decode (correlation_request id (codes "self")) (codes "self-correlation")

  unfoldable pub alpha_prod_correlation : Text → M T
  alpha_prod_correlation id = do
    require_non_empty id (codes "alpha id")
    fetch_polled c decode (correlation_request id (codes "prod")) (codes "prod-correlation")

  unfoldable pub alpha_power_pool_correlation : Text → M T
  alpha_power_pool_correlation id = do
    require_non_empty id (codes "alpha id")
    fetch_polled c decode (correlation_request id (codes "power-pool"))
        (codes "power-pool-correlation")

-- The raw body.
unfoldable pub alpha_record_sets : Setup → Text → M Text
alpha_record_sets c id = do
  require_non_empty id (codes "alpha id")
  resp ← perform c (get (alpha_path id ++ codes "/recordsets"))
  return resp.body

abbrev pub patch_alpha : Text → Payload → DoRequest
patch_alpha id body = record (plain_request (codes "PATCH") (alpha_path id)) { body = some body }

unfoldable pub set_alpha_properties : Setup → Text → AlphaProperties → M Alpha
unfolding wire_members
set_alpha_properties c id props = do
  require_non_empty id (codes "alpha id")
  fetch c c.library.unmarshal_alpha (patch_alpha id (properties (wire_members props)))
      (codes "alpha")

abbrev pub max_osmosis_points : ℤ
max_osmosis_points = pos 100_000

abbrev pub out_of_range : Option ℤ → Bool
out_of_range none = false
out_of_range (some n) = ltb_ℤ n (pos 1) || ltb_ℤ max_osmosis_points n

unfoldable pub set_alpha_osmosis_points : Setup → Text → Option ℤ → M Alpha
set_alpha_osmosis_points c id points = do
  require_non_empty id (codes "alpha id")
  if out_of_range points
      then fail (opaque (codes "osmosis points must be an integer from 1 to 100000"))
      else fetch c c.library.unmarshal_alpha (patch_alpha id (osmosis points)) (codes "alpha")

pub record ListAlphasOptions : Type 0 where
  pub status : Text
  pub limit : ℤ
  pub offset : ℤ
  pub order : Text
  pub filters : List Text

unfoldable pub list_alphas : {T : Type 0} → Setup → (Text → Option T) → ListAlphasOptions → M T
unfolding encode_filters
list_alphas c decode opts =
    fetch c decode
      (record (get (codes "/users/self/alphas")) {
        query = some (
            set_if_not_empty (codes "order") opts.order (
              set_if_positive (codes "offset") opts.offset (
                set_if_positive (codes "limit") opts.limit
                  (set_if_not_empty (codes "status") opts.status []))));
        raw_query = encode_filters c opts.filters;
      })
      (codes "alphas page")

-- The names of the checks that failed.
unfoldable pub failed_names : List Check → List Text
failed_names [] = []
failed_names (ch ∷ chs) =
    let rest = failed_names chs in if text_eq ch.result (codes "FAIL") then ch.name ∷ rest else rest

abbrev is_nil : List Text → Bool
is_nil [] = true
is_nil (x ∷ xs) = false

unfoldable pub alpha_check_body : Setup → Text → M (Bool × List Text)
unfolding failed_names
alpha_check_body c id = do
  is ← check_alpha c id
  return (is_nil (failed_names is.checks), failed_names is.checks)
