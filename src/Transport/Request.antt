-- ===== src/Transport/Request.antt =====
-- pkg/brainapi/transport.go: doRequest, buildHeaders, and the URL with raw query fragments.
use brainapi_go_sdk.Prelude.{
  Bool, true, false, ◌&&◌, Option, none, some, List, [], ◌∷◌, ◌++◌, Text, codes, is_empty, not,
  contains, join, if◌then◌else◌,
}
use brainapi_go_sdk.Types.{Payload, HdrPair}
use brainapi_go_sdk.Retry.{RetryHints, no_hints}
use brainapi_go_sdk.Client.{Setup}
use brainapi_go_sdk.Client.Url.{join_url, basic_auth_header}

pub record DoRequest : Type 0 where
  pub method : Text
  pub path : Text
  pub query : Option (List (Text × Text))
  pub raw_query : List Text
  pub body : Option Payload
  pub raw_body : Option Text
  pub headers : List HdrPair
  pub auth : Option (Text × Text)
  pub bearer : Text
  pub no_json : Bool
  pub hints : RetryHints

-- A composite literal with the method and the path alone.
abbrev pub plain_request : Text → Text → DoRequest
plain_request method path = record {
  method = method;
  path = path;
  query = none;
  raw_query = [];
  body = none;
  raw_body = none;
  headers = [];
  auth = none;
  bearer = [];
  no_json = false;
  hints = no_hints;
}

abbrev pub hdr : Text → Text → HdrPair
hdr name value = record { name = name; value = value }

abbrev pub when_true {ℓ} : {A : Type ℓ} → Bool → A → List A
when_true true a = a ∷ []
when_true false a = []

unfoldable pub auth_headers : Setup → Option (Text × Text) → List HdrPair
auth_headers c none = []
auth_headers c (some (user, pass)) =
    hdr (codes "authorization") (basic_auth_header c user pass) ∷ []

unfoldable pub build_headers : Setup → DoRequest → Bool → List HdrPair
unfolding auth_headers
build_headers c r has_body =
    when_true (not r.no_json) (hdr (codes "accept") (codes "application/json;version=2.0"))
    ++ (when_true (has_body && not r.no_json)
          (hdr (codes "content-type") (codes "application/json"))
        ++ (auth_headers c r.auth
            ++ (when_true (not (is_empty r.bearer))
                  (hdr (codes "authorization") (codes "Bearer " ++ r.bearer))
                ++ (hdr (codes "accept-language") (codes "en-US,en;q=0.9")
                    ∷ hdr (codes "origin") (codes "https://platform.worldquantbrain.com")
                    ∷ hdr (codes "referer") (codes "https://platform.worldquantbrain.com/")
                    ∷ r.headers))))

-- The URL of a request: the joined URL, then the fragments that are encoded already.
unfoldable pub request_url : Setup → DoRequest → Text
request_url c r =
    let url = join_url c r.path r.query in
    elim r.raw_query [
      | [] ↦ url
      | f ∷ fs ↦
          url
          ++ ((if contains url (codes "?") then codes "&" else codes "?")
              ++ join (codes "&") (f ∷ fs))
    ]

-- rawBody, else the marshalled body, else no bytes; `none` is an error of json.Marshal.
unfoldable pub body_bytes : Setup → DoRequest → Option Text
body_bytes c r = elim r.raw_body [
  | some b ↦ some b
  | none ↦ elim r.body [ none ↦ some [] | some p ↦ c.library.marshal p ]
]
