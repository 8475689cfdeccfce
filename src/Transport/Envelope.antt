-- ===== src/Transport/Envelope.antt =====
-- pkg/brainapi/errors.go, transport.go: drfDetail and classifyClientError, which read the body of a 4xx.
use brainapi_go_sdk.Prelude.{
  ◌∷◌, [], Bool, true, false, Option, none, some, List, map, Text, codes, is_empty, text_eq,
  trim_space, ◌==◌, if◌then◌else◌,
}
use brainapi_go_sdk.Types.{RawResponse}
use brainapi_go_sdk.Errors.{Error, api, drf}
use brainapi_go_sdk.Runtime.{Library}

-- drfDetail
unfoldable pub drf_detail : Library → Text → Option Text
drf_detail lib body = elim (lib.unmarshal_detail body) [
  | none ↦ none
  | some d ↦ if is_empty d then none else some d
]

lookup : Text → List (Text × Text) → Option Text
lookup key [] = none
lookup key ((k, v) ∷ m) = if text_eq k key then some v else lookup key m

unfoldable pub field_messages : Library → Text × Text → Text × List Text
field_messages lib (k, v) = elim (lib.unmarshal_strings v) [
  | some msgs ↦ (k, msgs)
  | none ↦ (k, v ∷ [])
]

has_field_list : Library → List (Text × Text) → Bool
has_field_list lib [] = false
has_field_list lib ((k, v) ∷ m) = elim (lib.unmarshal_strings v) [
  | some _ ↦ true
  | none ↦ has_field_list lib m
]

abbrev plain_api : RawResponse → Text → Error
plain_api resp url = api (record { status = resp.status; method = []; url = url; body = resp.body })

drf_fields : Library → RawResponse → Text → List (Text × Text) → Error
unfolding has_field_list field_messages
drf_fields lib resp url fields =
    if has_field_list lib fields
    then drf (record { status = resp.status; url = url; fields = map (field_messages lib) fields })
    else plain_api resp url

classify_object : Library → RawResponse → Text → Option (List (Text × Text)) → Error
unfolding drf_fields lookup
classify_object lib resp url none = plain_api resp url
classify_object lib resp url (some fields) = elim (lookup (codes "detail") fields) [
  | none ↦ drf_fields lib resp url fields
  | some d ↦ elim (lib.unmarshal_string d) [
    | some s ↦ plain_api resp url
    | none ↦ drf_fields lib resp url fields
  ]
]

-- The empty body is a trimmed body without a byte.
unfoldable pub classify_client_error : Library → RawResponse → Text → Error
unfolding classify_object
classify_client_error lib resp url = elim (trim_space resp.body) [
  | [] ↦ plain_api resp url
  | c ∷ rest ↦
      if c == b'{'
      then classify_object lib resp url (lib.unmarshal_object (c ∷ rest))
      else plain_api resp url
]
