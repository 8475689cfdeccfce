-- ===== src/Jar/Sent.antt =====
-- The headers that reach the wire, and the files behind a round trip.
use brainapi_go_sdk.Prelude.{
  refl, inr, ◌++◌, inl, codes, some, ◌&&◌, not, is_empty, sym, subst, ◌||◌, Option, true, ◌⊎◌, none,
  [], Bool, false, ◌≡◌, text_eq, ◌∷◌, List, Text,
}
use brainapi_go_sdk.Transport.Request.{hdr, when_true, auth_headers, DoRequest, build_headers}
use brainapi_go_sdk.Types.{HdrPair}
use brainapi_go_sdk.Jar.Wire.{header_order, header_map}
use brainapi_go_sdk.Client.{Setup}

abbrev pub pairs_of : List HdrPair → List (Text × Text)
pairs_of [] = []
pairs_of (h ∷ hs) = (h.name, h.value) ∷ pairs_of hs

abbrev pub names_of : List HdrPair → List Text
names_of [] = []
names_of (h ∷ hs) = h.name ∷ names_of hs

abbrev pub is_among : Text → List Text → Bool
is_among t [] = false
is_among t (x ∷ xs) = text_eq t x || is_among t xs

abbrev pub are_distinct : List Text → Bool
are_distinct [] = true
are_distinct (x ∷ xs) = not (is_among x xs) && are_distinct xs

-- Each header of a list reaches the wire once, with its own value and name, in the order of the list.
abbrev pub ReachesWire : List HdrPair → Type 0
ReachesWire hs =
    (are_distinct (header_order hs) ≡ true)
    × (header_order hs ≡ names_of hs)
    × (header_map hs [] ≡ pairs_of hs)

abbrev headers_by : Setup → Bool → Bool → Option (Text × Text) → Text → List HdrPair → List HdrPair
headers_by c no_json has_body auth bearer extra =
    when_true (not no_json) (hdr (codes "accept") (codes "application/json;version=2.0"))
    ++ (when_true (has_body && not no_json) (hdr (codes "content-type") (codes "application/json"))
        ++ (auth_headers c auth
            ++ (when_true (not (is_empty bearer))
                  (hdr (codes "authorization") (codes "Bearer " ++ bearer))
                ++ (hdr (codes "accept-language") (codes "en-US,en;q=0.9")
                    ∷ hdr (codes "origin") (codes "https://platform.worldquantbrain.com")
                    ∷ hdr (codes "referer") (codes "https://platform.worldquantbrain.com/")
                    ∷ extra))))

by_fields :
    (c : Setup) (no_json has_body : Bool) (auth : Option (Text × Text)) (bearer : Text)
    → (auth ≡ none) ⊎ (bearer ≡ [])
    → ReachesWire (headers_by c no_json has_body auth bearer [])
unfolding auth_headers header_map header_order text_eq is_empty
by_fields c true true none [] h = (refl, refl, refl)
by_fields c true true none (x ∷ b) h = (refl, refl, refl)
by_fields c true true (some (user, pass)) [] h = (refl, refl, refl)
by_fields c true false none [] h = (refl, refl, refl)
by_fields c true false none (x ∷ b) h = (refl, refl, refl)
by_fields c true false (some (user, pass)) [] h = (refl, refl, refl)
by_fields c false true none [] h = (refl, refl, refl)
by_fields c false true none (x ∷ b) h = (refl, refl, refl)
by_fields c false true (some (user, pass)) [] h = (refl, refl, refl)
by_fields c false false none [] h = (refl, refl, refl)
by_fields c false false none (x ∷ b) h = (refl, refl, refl)
by_fields c false false (some (user, pass)) [] h = (refl, refl, refl)
by_fields c no_json has_body (some (user, pass)) (x ∷ b) (inl e) = cc
by_fields c no_json has_body (some (user, pass)) (x ∷ b) (inr e) = cc

-- The headers of a request without headers of its own and without Basic credentials beside a
-- bearer have names that differ in the lower case of the wire, so each reaches the wire once, with
-- its own value and in the order in which buildHeaders lists them.
pub build_headers-ReachesWire :
    (c : Setup) (r : DoRequest) (has_body : Bool)
    → r.headers ≡ []
    → (r.auth ≡ none) ⊎ (r.bearer ≡ [])
    → ReachesWire (build_headers c r has_body)
unfolding build_headers
build_headers-ReachesWire c r has_body no_extra one_of =
    subst (λ extra. ReachesWire (headers_by c r.no_json has_body r.auth r.bearer extra))
      (sym no_extra) (by_fields c r.no_json has_body r.auth r.bearer one_of)
