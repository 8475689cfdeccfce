-- ===== src/Simulations.antt =====
-- pkg/brainapi/simulations.go: creating simulations, one or a batch.
pub mod Wait
pub mod Waited
pub mod Batch
pub mod Ended
pub mod Location
pub mod Charged
pub mod Slots
use brainapi_go_sdk.Prelude.{leb_ℤ, ℤ, [], none, some}
use brainapi_go_sdk.Client.{Setup, require_non_empty}
use brainapi_go_sdk.Types.{simulations, simulation, SimulationRequest, Payload, RawResponse}
use brainapi_go_sdk.Prelude.{
  ◌||◌, ltb, length, ◌==◌, strip_prefix, ◌&&◌, not, is_empty, some, ◌∷◌, if◌then◌else◌, text_eq,
  Bool, none, codes, List, Option, Text,
}
use brainapi_go_sdk.Retry.{RateLimit, parse_rate_limit}
use brainapi_go_sdk.Errors.{api, err_invalid_argument, wrapped, opaque, Error}
use brainapi_go_sdk.World.Monad.{◌>>=◌, return, fail, ◌>>◌, M}
use brainapi_go_sdk.Transport.Request.{plain_request, DoRequest}
use brainapi_go_sdk.Client.Budgets.{sim, check_budget, check_budget_n}
use brainapi_go_sdk.Transport.Do.{perform}
use brainapi_go_sdk.Client.Url.{join_url, drop_last_slash}
use brainapi_go_sdk.Endpoint.{fetch}

-- The text after the last occurrence of `sep`: strings.LastIndex and the slice behind it.
unfoldable pub after_last : Text → Text → Option Text
after_last sep [] = none
after_last sep (c ∷ s) = elim (after_last sep s) [
  | some rest ↦ some rest
  | none ↦ strip_prefix (c ∷ s) sep
]

abbrev pub location_error : Text → Error
location_error msg = opaque msg

abbrev pub simulations_sep : Text
simulations_sep = codes "/simulations/"

-- strings.TrimSuffix(id, "/"), then the check that something is left.
abbrev pub non_empty_id : Text → Option Text
non_empty_id [] = none
non_empty_id (c ∷ s) = some (c ∷ s)

abbrev pub id_behind : Option Text → Option Text
id_behind none = none
id_behind (some rest) = non_empty_id (drop_last_slash rest)

-- parseSimLocation; `none` is an error.
unfoldable pub parse_sim_location : Text → Option Text
unfolding after_last
parse_sim_location loc = id_behind (after_last simulations_sep loc)

pub record CreateSimulationResult : Type 0 where
  pub id : Text
  pub rate_limit : RateLimit

-- reserveSimSlot: the choice of its select, a free slot or the error of a context that is done. The
-- slot is given back when the call returns.
unfoldable pub reserve_sim_slot : Option Error → M (Unit {0})
reserve_sim_slot none = return tt
reserve_sim_slot (some e) = fail e

-- resp.rateLimit()
unfoldable pub response_rate_limit : Setup → RawResponse → RateLimit
unfolding parse_rate_limit
response_rate_limit c resp =
    parse_rate_limit c.library (resp.header (codes "X-Ratelimit-Limit"))
      (resp.header (codes "X-Ratelimit-Remaining")) (resp.header (codes "X-Ratelimit-Reset"))

abbrev location_of : Setup → RawResponse → Option Text → M CreateSimulationResult
location_of c resp none = fail (location_error (resp.header (codes "Location")))
location_of c resp (some id) = return (record { id = id; rate_limit = response_rate_limit c resp })

-- What both create functions do with the response.
unfoldable pub accept_created : Setup → RawResponse → M CreateSimulationResult
unfolding parse_sim_location
accept_created c resp =
    if not (resp.status == 201) && not (resp.status == 200)
    then fail (
        api (record {
          status = resp.status;
          method = codes "POST";
          url = join_url c (codes "/simulations") none;
          body = resp.body;
        }))
    else location_of c resp (parse_sim_location (resp.header (codes "Location")))

abbrev pub create_request : Payload → DoRequest
create_request p = record (plain_request (codes "POST") (codes "/simulations")) { body = some p }

-- From the slot on.
unfoldable pub post_simulations : Setup → Option Error → Payload → M CreateSimulationResult
unfolding reserve_sim_slot accept_created
post_simulations c slot p =
    reserve_sim_slot slot >> (perform c (create_request p) >>= accept_created c)

unfoldable pub create_simulation :
    Setup → Option Error → SimulationRequest → M CreateSimulationResult
create_simulation c slot req = do
  require_non_empty req.kind (codes "simulation type")
  check_budget c sim
  post_simulations c slot (simulation req)

abbrev pub eq_ℤ : ℤ → ℤ → Bool
eq_ℤ a b = leb_ℤ a b && leb_ℤ b a

unfoldable pub same_settings : SimulationRequest → SimulationRequest → Bool
same_settings r first =
    text_eq r.kind first.kind
    && (text_eq r.settings.instrument_type first.settings.instrument_type
        && (text_eq r.settings.region first.settings.region
            && (eq_ℤ r.settings.delay first.settings.delay
                && text_eq r.settings.language first.settings.language)))

-- The loop of validateMultiSimHomogeneous.
unfoldable pub validate_each : SimulationRequest → List SimulationRequest → Option Error
unfolding same_settings
validate_each first [] = none
validate_each first (r ∷ rs) =
    let rest = validate_each first rs in
    if is_empty r.kind
    then some (wrapped (codes "simulation type required") err_invalid_argument)
    else if not (same_settings r first)
    then some (wrapped (codes "multi-simulation request differs") err_invalid_argument)
    else rest

unfoldable pub validate_multi_sim_homogeneous : List SimulationRequest → Option Error
unfolding validate_each
validate_multi_sim_homogeneous [] =
    some (wrapped (codes "multi-simulation needs 2..10 requests") err_invalid_argument)
validate_multi_sim_homogeneous (first ∷ rs) =
    if ltb (length (first ∷ rs)) 2 || ltb 10 (length (first ∷ rs))
    then some (wrapped (codes "multi-simulation needs 2..10 requests") err_invalid_argument)
    else validate_each first (first ∷ rs)

abbrev pub refuse : Option Error → M (Unit {0})
refuse none = return tt
refuse (some e) = fail e

unfoldable pub create_multi_simulation :
    Setup → Option Error → List SimulationRequest → M CreateSimulationResult
create_multi_simulation c slot reqs = do
  refuse (validate_multi_sim_homogeneous reqs)
  check_budget_n c sim (length reqs)
  post_simulations c slot (simulations reqs)

-- SimulationOptions, over the map that it decodes.
unfoldable pub simulation_options : {T : Type 0} → Setup → (Text → Option T) → M T
simulation_options c decode =
    fetch c decode (plain_request (codes "OPTIONS") (codes "/simulations"))
      (codes "simulation options")
