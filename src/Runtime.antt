-- ===== src/Runtime.antt =====
-- What the SDK takes from Go's library and from the outside world and does not implement itself:
-- floats, JSON, base64 and URLs as functions, and the server, the clock and the context of a call
-- as answers that are numbered by the moment at which they are asked for.
use brainapi_go_sdk.Prelude.{ℕ, Bool, Option, List, Text, ℤ}
use brainapi_go_sdk.Errors.{Error}
use brainapi_go_sdk.Types.{
  Payload, RawRequest, RawResponse, Session, Decoded, IsBlock, Alpha, Simulation,
}

-- What the program reads off a float64 that strconv.ParseFloat returned.
pub record ParsedFloat : Type 0 where
  pub nonneg : Bool  -- f >= 0
  pub seconds : ℤ  -- time.Duration(f * float64(time.Second))
  pub truncated : ℤ  -- int(f)

-- The library functions. A decoder returns `none` where json.Unmarshal returns an error.
pub record Library : Type 0 where
  pub parse_float : Text → Option ParsedFloat
  pub parse_rfc1123 : Text → Option ℤ
  pub unmarshal_detail : Text → Option Text
  pub unmarshal_object : Text → Option (List (Text × Text))
  pub unmarshal_string : Text → Option Text
  pub unmarshal_strings : Text → Option (List Text)
  pub unmarshal_session : Text → Option Session
  pub unmarshal_is : Text → Decoded (Option IsBlock)
  pub unmarshal_alpha : Text → Option Alpha
  pub unmarshal_simulation : Text → Option Simulation
  pub marshal : Payload → Option Text
  pub base64 : Text → Text
  pub query_encode : List (Text × Text) → Text
  pub query_escape : Text → Text
  pub url_string : Text → Option Text → Text
  pub format_day : ℤ → Text

-- The result of one HTTP round trip of tls-client.
pub data Reply : Type 0 where
  response : RawResponse → Reply
  failure : Error → Reply

-- The moments are numbered by `World.tick`: what the server answers to a request, whether the
-- context is done (and why), and what the clock shows.
pub record Environment : Type 0 where
  pub reply : ℕ → RawRequest → Reply
  pub ctx_err : ℕ → Option Error
  pub now : ℕ → ℤ
