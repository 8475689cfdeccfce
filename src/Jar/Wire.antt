-- ===== src/Jar/Wire.antt =====
-- pkg/brainapi/transport.go: newTLSHTTP and tlsHTTP.do. What tls-client makes of its options and of a
-- request is an argument; the names of headers are ASCII.
use brainapi_go_sdk.Prelude.{
  codes, [], some, ◌∷◌, none, ℤ, Option, List, is_empty, to_lower, Text, if◌then◌else◌,
}
use brainapi_go_sdk.Types.{HdrPair, RawResponse, RawRequest}
use brainapi_go_sdk.Jar.{Files, Disk, CookieLib, load_jar, save_jar}
use brainapi_go_sdk.Errors.{wrapped, net_wrapped, Error}
use brainapi_go_sdk.Decoders.{put}
use brainapi_go_sdk.World.Monad.{ok, err, Outcome}
use brainapi_go_sdk.Runtime.{response, failure, Reply}

-- req.Header without its order, which is kept beside it: the last value of a name stays. `body` is
-- none where the request has no reader.
pub record WireRequest : Type 0 where
  pub method : Text
  pub url : Text
  pub body : Option Text
  pub header : List (Text × Text)
  pub order : List Text

-- The loop over the headers, from the map so far.
unfoldable pub header_map : List HdrPair → List (Text × Text) → List (Text × Text)
unfolding to_lower put
header_map [] m = m
header_map (h ∷ hs) m = header_map hs (put (to_lower h.name) h.value m)

unfoldable pub header_order : List HdrPair → List Text
unfolding to_lower
header_order [] = []
header_order (h ∷ hs) = to_lower h.name ∷ header_order hs

unfoldable pub wire_request : RawRequest → WireRequest
unfolding header_map header_order
wire_request r = record {
  method = r.method;
  url = r.url;
  body = if is_empty r.body then none else some r.body;
  header = header_map r.headers [];
  order = header_order r.headers;
}

-- What http.Client.Do and io.ReadAll give, with the error in its text.
pub data Exchange : Type 0 where
  not_sent : Error → Exchange
  cut_off : Error → Exchange
  answered : RawResponse → Exchange

-- The jar file behind a response: an error of saveJar is only logged.
abbrev pub saved_behind : {S : Type 0} → CookieLib S → Disk → Text → Text → ℤ → S → Files → Files
saved_behind lib d path url now jar fs =
    if is_empty path then fs else (save_jar lib d path url now (some jar) fs).1

abbrev pub exchanged :
    {S : Type 0} → CookieLib S → Disk → Text → Text → ℤ → Exchange × S → Files → Reply × (S × Files)
exchanged lib d path url now (not_sent e, jar) fs = (failure (net_wrapped url e), (jar, fs))
exchanged lib d path url now (cut_off e, jar) fs =
    (failure (wrapped (codes "brainapi: read body") e), (jar, fs))
exchanged lib d path url now (answered resp, jar) fs =
    (response resp, (jar, saved_behind lib d path url now jar fs))

-- tlsHTTP.do of a client with a jar, behind the request; `url` is the base URL.
unfoldable pub tls_do :
    {S : Type 0}
    → CookieLib S
    → (WireRequest → S → Exchange × S)
    → Disk
    → Text
    → Text
    → ℤ
    → RawRequest
    → S
    → Files
    → Reply × (S × Files)
unfolding wire_request save_jar
tls_do lib round_trip d path url now r jar fs =
    exchanged lib d path url now (round_trip (wire_request r) jar) fs

-- newTLSHTTP: the jar that the client starts with; `init_error` is that of NewHttpClient, and an error
-- of loadJar is only logged.
unfoldable pub new_tls_http :
    {S : Type 0} → CookieLib S → Option Error → Text → S → Files → Outcome S
unfolding load_jar
new_tls_http lib init_error path empty_jar fs = elim init_error [
  | some e ↦ err (wrapped (codes "brainapi: init tls-client") e)
  | none ↦ ok (if is_empty path then empty_jar else (load_jar lib path empty_jar fs).1)
]
