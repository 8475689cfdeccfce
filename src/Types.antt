-- ===== src/Types.antt =====
-- pkg/brainapi/types.go and transport.go: the requests and responses, and the bodies that the
-- SDK sends. JSON documents stay texts.
use brainapi_go_sdk.Prelude.{ℕ, Option, List, Text, ℤ}

pub record SimSettings : Type 0 where
  pub instrument_type : Text
  pub region : Text
  pub universe : Text
  pub delay : ℤ
  pub language : Text
  pub others : Text  -- the fields that the SDK only passes on

pub record SimulationRequest : Type 0 where
  pub kind : Text  -- Type
  pub settings : SimSettings
  pub regular : Text
  pub others : Text  -- Super, Selection and Combo, which the SDK only passes on

pub record AlphaProperties : Type 0 where
  pub regular : Option (Option Text)
  pub combo : Option (Option Text)
  pub selection : Option (Option Text)
  pub name : Option Text
  pub color : Option Text
  pub category : Option Text
  pub tags : List Text

pub record RegisterAuxiliary : Type 0 where
  pub agree : List Text
  pub password : Text
  pub confirmation : Text
  pub captcha : Text

pub record RegisterInput : Type 0 where
  pub email : Text
  pub auxiliary : RegisterAuxiliary
  pub others : Text  -- the fields from FirstName to Employment, which the SDK only passes on

-- The value of a member of the PATCH body: an AlphaExpressionProperties with its description, a text,
-- or texts.
pub data Member : Type 0 where
  leg_of : Option Text → Member
  text_of : Text → Member
  texts_of : List Text → Member

-- The values that the endpoints hand to json.Marshal.
pub data Payload : Type 0 where
  persona : Text → Payload
  fields : List (Text × Text) → Payload
  simulation : SimulationRequest → Payload
  simulations : List SimulationRequest → Payload
  properties : List (Text × Member) → Payload  -- the members that AlphaProperties leaves in
  osmosis : Option ℤ → Payload
  registration : RegisterInput → Payload

pub record HdrPair : Type 0 where
  pub name : Text
  pub value : Text

pub record RawRequest : Type 0 where
  pub method : Text
  pub url : Text
  pub body : Text
  pub headers : List HdrPair

-- `header` is fhttp.Header.Get: the first value of a header, empty if there is none.
pub record RawResponse : Type 0 where
  pub status : ℕ
  pub header : Text → Text
  pub body : Text

-- Session: the id of its user, if it has one, and the inquiry.
pub record Session : Type 0 where
  pub user : Option Text
  pub inquiry : Text

-- The result of json.Unmarshal where the text of its error is read.
pub data Decoded (A : Type 0) : Type 0 where
  parsed : A → Decoded A
  unparsed : Text → Decoded A

-- `value` is what strconv.FormatFloat prints of the check's value.
pub record Check : Type 0 where
  pub name : Text
  pub result : Text
  pub value : Option Text

pub record IsBlock : Type 0 where
  pub checks : List Check

-- Of an alpha the program reads nothing but hands it on.
pub record Alpha : Type 0 where
  pub id : Text
  pub status : Text

pub record Simulation : Type 0 where
  pub id : Text
  pub status : Text
  pub alpha : Text
  pub children : List Text
