-- ===== src/Schema.antt =====
-- pkg/brainapi/schema.go: operators, data fields, datasets, categories and themes.
use brainapi_go_sdk.Prelude.{
  neg_part, ◌-◌, ◌^◌, suc, length, none, ◌∷◌, ◌+◌, pos_part, some, negsuc, if◌then◌else◌, itoa,
  to_int64, ℕ, ◌||◌, is_empty, Option, codes, pos, leb_ℤ, Bool, Text, ℤ, List, [],
}
use brainapi_go_sdk.Client.Url.{set_if_not_empty, set_if_positive, set}
use brainapi_go_sdk.World.Monad.{fail, return, M, ◌>>=◌}
use brainapi_go_sdk.Client.{Setup}
use brainapi_go_sdk.Errors.{err_invalid_argument, wrapped, Error}
use brainapi_go_sdk.Transport.Login.{decode_body}
use brainapi_go_sdk.Transport.Request.{plain_request, DoRequest}
use brainapi_go_sdk.Transport.Do.{perform}
use brainapi_go_sdk.Iterators.{paginate_all, limit_or, Stream, PageOf}
use brainapi_go_sdk.Endpoint.{fetch}
use brainapi_go_sdk.World.{World}

pub record DataFieldsQuery : Type 0 where
  pub instrument_type : Text
  pub region : Text
  pub universe : Text
  pub delay : ℤ
  pub limit : ℤ
  pub offset : ℤ
  pub dataset : Text

-- DataFieldsPage and DatasetsPage.
pub record CountedPage (T : Type 0) : Type 0 where
  pub count : ℤ
  pub results : List T

-- strconv.Itoa
unfoldable pub itoa_ℤ : ℤ → Text
itoa_ℤ (pos n) = itoa n
itoa_ℤ (negsuc n) = b'-' ∷ itoa (suc n)

abbrev get_schema : Text → DoRequest
get_schema = plain_request (codes "GET")

unfoldable pub is_underspecified : DataFieldsQuery → Bool
is_underspecified q = is_empty q.instrument_type || (is_empty q.region || is_empty q.universe)

-- The four fields that every query has, and the window; url.Values orders them when it encodes.
unfoldable pub slice_query : DataFieldsQuery → List (Text × Text)
unfolding itoa_ℤ
slice_query q = set (codes "delay") (itoa_ℤ q.delay) (
    set (codes "universe") q.universe
      (set (codes "region") q.region (set (codes "instrumentType") q.instrument_type [])))

unfoldable pub window_query : DataFieldsQuery → List (Text × Text) → List (Text × Text)
window_query q query =
    set_if_positive (codes "offset") q.offset (set_if_positive (codes "limit") q.limit query)

abbrev underspecified : Error
underspecified = wrapped (codes "instrumentType, region, universe required") err_invalid_argument

module _ {T : Type 0} (c : Setup) where
  unfoldable pub operators : (Text → Option (List T)) → M (List T)
  operators decode = fetch c decode (get_schema (codes "/operators")) (codes "operators")

  unfoldable pub data_fields : (Text → Option (CountedPage T)) → DataFieldsQuery → M (CountedPage T)
  unfolding is_underspecified slice_query window_query
  data_fields decode q =
      if is_underspecified q
      then fail underspecified
      else fetch c decode
          (record (get_schema (codes "/data-fields")) {
            query =
                some (
                  window_query q (set_if_not_empty (codes "dataset.id") q.dataset (slice_query q)));
          })
          (codes "data-fields")

  unfoldable pub datasets : (Text → Option (CountedPage T)) → DataFieldsQuery → M (CountedPage T)
  unfolding is_underspecified slice_query window_query
  datasets decode q =
      if is_underspecified q
      then fail underspecified
      else fetch c decode
          (record (get_schema (codes "/data-sets")) {
            query = some (window_query q (slice_query q));
          })
          (codes "data-sets")

  -- A bare array, or the envelope around one.
  unfoldable pub either_shape :
      (Text → Option (List T)) → (Text → Option (List T)) → Text → Text → M (List T)
  unfolding decode_body
  either_shape decode_list decode_envelope body desc = elim (decode_list body) [
    | some xs ↦ return xs
    | none ↦ decode_body decode_envelope body desc
  ]

  unfoldable pub data_categories : (Text → Option (List T)) → (Text → Option (List T)) → M (List T)
  unfolding either_shape
  data_categories decode_list decode_envelope = do
    resp ← perform c (get_schema (codes "/data-categories"))
    either_shape decode_list decode_envelope resp.body (codes "data-categories")

  unfoldable pub themes : (Text → Option (List T)) → (Text → Option (List T)) → M (List T)
  unfolding either_shape
  themes decode_list decode_envelope = do
    resp ← perform c (get_schema (codes "/themes"))
    either_shape decode_list decode_envelope resp.body (codes "themes")

-- The data-fields and data-sets cursors: the last page reaches the count.
unfoldable pub reaches_count : {T : Type 0} → ℤ → CountedPage T → Bool
reaches_count off page =
    leb_ℤ page.count (to_int64 (pos_part off + length page.results + (2 ^ 64 - neg_part off)))

module _ {T : Type 0} (c : Setup) (decode : Text → Option (CountedPage T)) where
  unfoldable pub fields_page : DataFieldsQuery → ℤ → M (PageOf T)
  unfolding data_fields reaches_count
  fields_page q off = do
    page ← data_fields c decode (record q { limit = limit_or q.limit (pos 100); offset = off })
    return (page.results, reaches_count off page)

  unfoldable pub data_fields_all :
      DataFieldsQuery → (ℕ → Option Error) → ℕ → World → Stream T × World
  unfolding fields_page
  data_fields_all q choice fuel = paginate_all (fields_page q) choice fuel q.offset

  unfoldable pub datasets_page : DataFieldsQuery → ℤ → M (PageOf T)
  unfolding datasets reaches_count
  datasets_page q off = do
    page ← datasets c decode (record q { limit = limit_or q.limit (pos 50); offset = off })
    return (page.results, reaches_count off page)

  unfoldable pub datasets_all : DataFieldsQuery → (ℕ → Option Error) → ℕ → World → Stream T × World
  unfolding datasets_page
  datasets_all q choice fuel = paginate_all (datasets_page q) choice fuel q.offset
