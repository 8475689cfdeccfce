-- ===== src/Decoders.antt =====
-- pkg/brainapi/types.go: the decoders that read a document by hand, and DecodeActivities of users.go.
-- encoding/json and strconv are the record `Json`; F is float64.
pub mod Points
pub mod Aliases
pub mod Columns
use brainapi_go_sdk.Prelude.{
  ℕ, Bool, true, false, ◌||◌, Option, none, some, List, [], ◌∷◌, Text, codes, is_empty, text_eq,
  trim_space, if◌then◌else◌, ℤ,
}
use brainapi_go_sdk.Errors.{Error, opaque, wrapped}
use brainapi_go_sdk.World.Monad.{Outcome, ok, err, diverged}
use brainapi_go_sdk.Selfcorr.{PnLPoint}

-- json.Unmarshal into a type, `none` where it returns an error; a raw value is its text. `as_pair` is
-- the decoding of [2]json.RawMessage, where a missing element is empty. `as_float` and `as_int` leave
-- the zero value for null.
pub record Json (F : Type 0) : Type 0 where
  pub as_float : Text → Option F
  pub as_int : Text → Option ℤ
  pub as_string : Text → Option Text
  pub as_number : Text → Option Text  -- json.Number
  pub as_object : Text → Option (List (Text × Text))
  pub as_row : Text → Option (List Text)
  pub as_pair : Text → Option (Text × Text)
  pub parse_float : Text → Option F  -- strconv.ParseFloat
  pub marshal_pair : Text → Option F → Option Text  -- of [2]any
  pub nan : F
  pub is_finite : F → Bool

-- Present in the map: the last value of the key.
unfoldable pub get_key : List (Text × Text) → Text → Option Text
get_key [] k = none
get_key ((k', v) ∷ m) k = elim (get_key m k) [
  | some x ↦ some x
  | none ↦ if text_eq k' k then some v else none
]

abbrev is_null : Text → Bool
is_null raw = is_empty raw || text_eq raw (codes "null")

module _ {A : Type 0} where
  abbrev pub bind_option : {B : Type 0} → Option B → (B → Option A) → Option A
  bind_option none f = none
  bind_option (some b) f = f b

  abbrev pub or_else : Option A → Option A → Option A
  or_else (some a) o = some a
  or_else none o = o

  -- firstFloatPtr and firstIntPtr, by the decoding of a value.
  unfoldable pub first_ptr : (Text → Option A) → List (Text × Text) → List Text → Option A
  unfolding get_key
  first_ptr decode m [] = none
  first_ptr decode m (k ∷ ks) = or_else (bind_option (get_key m k) decode) (first_ptr decode m ks)

module _ {F : Type 0} (j : Json F) where
  abbrev pub first_float_ptr : List (Text × Text) → List Text → Option F
  first_float_ptr = first_ptr j.as_float

  abbrev pub first_int_ptr : List (Text × Text) → List Text → Option ℤ
  first_int_ptr = first_ptr j.as_int

  -- parseCheckFloat
  unfoldable pub parse_check_float : Text → Option F
  parse_check_float raw =
      if is_null raw
      then none
      else or_else (j.as_float raw)
          (bind_option (j.as_string raw) (λ s. j.parse_float (trim_space s)))

-- The fields of Dataset that UnmarshalJSON may rescue.
pub record Signals (F : Type 0) : Type 0 where
  pub value_score : Option F
  pub pyramid_multiplier : Option F
  pub field_count : Option ℤ

module _ {F : Type 0} (j : Json F) where
  -- The rescue of Dataset.UnmarshalJSON, from what the alias decoded and the map of the body.
  unfoldable pub rescue_signals : Signals F → Option (List (Text × Text)) → Signals F
  unfolding first_ptr
  rescue_signals s none = s
  rescue_signals s (some m) = record {
    value_score = or_else s.value_score (
        first_float_ptr j m
          (codes "valueScore" ∷ codes "value_score" ∷ codes "datasetValueScore" ∷ []));
    pyramid_multiplier = or_else s.pyramid_multiplier (
        first_float_ptr j m
          (codes "pyramidMultiplier" ∷ codes "pyramid_multiplier" ∷ codes "multiplier" ∷ []));
    field_count = or_else s.field_count (
        first_int_ptr j m
          (codes "fieldCount" ∷ codes "valueFieldCount" ∷ codes "fieldsCount" ∷ []));
  }

  -- Dataset.UnmarshalJSON; `alias` decodes the stable keys.
  unfoldable pub unmarshal_dataset : (Text → Option (Signals F)) → Text → Option (Signals F)
  unfolding rescue_signals
  unmarshal_dataset alias b = bind_option (alias b) (λ s. some (rescue_signals s (j.as_object b)))

  abbrev rescue_multiplier : Option F → Option (List (Text × Text)) → Option F
  rescue_multiplier o none = o
  rescue_multiplier o (some m) = or_else o (
      first_float_ptr j m (
        codes "multiplier"
        ∷ codes "qualityFactorMultiplier"
        ∷ codes "qfMultiplier"
        ∷ codes "value"
        ∷ []))

  -- Theme.UnmarshalJSON: the multiplier, and Raw.
  unfoldable pub unmarshal_theme : (Text → Option (Option F)) → Text → Option (Option F × Text)
  unfolding first_ptr
  unmarshal_theme alias b =
      bind_option (alias b) (λ o. some (rescue_multiplier o (j.as_object b), b))

  abbrev with_value : Text → Text → Option (PnLPoint F)
  with_value date raw =
      if is_null raw
      then some (record { date = date; value = j.nan })
      else bind_option (j.as_number raw)
          (λ n. bind_option (j.parse_float n) (λ v. some (record { date = date; value = v })))

  -- PnLPoint.UnmarshalJSON
  unfoldable pub unmarshal_point : Text → Option (PnLPoint F)
  unmarshal_point b =
      bind_option (j.as_pair b)
        (λ raw. bind_option (j.as_string raw.0) (λ date. with_value date raw.1))

  -- PnLPoint.MarshalJSON
  unfoldable pub marshal_point : PnLPoint F → Option Text
  marshal_point p = j.marshal_pair p.date (if j.is_finite p.value then some p.value else none)

-- DiversityStream: the whole body, and `null` for an empty one.
abbrev pub unmarshal_diversity : Text → Text
unmarshal_diversity b = b

abbrev pub marshal_diversity : Text → Text
marshal_diversity raw = if is_empty raw then codes "null" else raw

-- rec[k] = v
unfoldable pub put : Text → Text → List (Text × Text) → List (Text × Text)
put k v [] = (k, v) ∷ []
put k v ((k', v') ∷ m) =
    let rest = put k v m in if text_eq k' k then (k, v) ∷ m else (k', v') ∷ rest

-- The loop over a row: the columns that have a value.
unfoldable pub fill_record : List Text → List Text → List (Text × Text) → List (Text × Text)
unfolding put
fill_record [] row rec = rec
fill_record (p ∷ props) [] rec = rec
fill_record (p ∷ props) (v ∷ row) rec = fill_record props row (put p v rec)

abbrev pub row_error : Error
row_error = opaque (codes "brainapi: decode activity row")

module _ {F : Type 0} (j : Json F) (props : List Text) where
  abbrev pub onto_rows :
      List (Text × Text) → Outcome (List (List (Text × Text))) → Outcome (List (List (Text × Text)))
  onto_rows rec (ok rows) = ok (rec ∷ rows)
  onto_rows rec (err e) = err e
  onto_rows rec diverged = diverged

  unfoldable pub decode_rows : List Text → Outcome (List (List (Text × Text)))
  unfolding fill_record
  decode_rows [] = ok []
  decode_rows (raw ∷ raws) = elim (j.as_row raw) [
    | none ↦ err row_error
    | some row ↦ onto_rows (fill_record props row []) (decode_rows raws)
  ]

-- RecordSetBlock: the names of the columns, where there is a schema, and the raw rows.
pub record RecordSetBlock : Type 0 where
  pub schema : Option (List Text)
  pub records : List Text

module _ {F : Type 0} (j : Json F) where
  abbrev decode_block : Option (List Text) → List Text → Outcome (List (List (Text × Text)))
  decode_block none records = ok []
  decode_block (some []) records = ok []
  decode_block (some (p ∷ ps)) records = decode_rows j (p ∷ ps) records

  -- DecodeActivities of a stream, by its records.
  unfoldable pub decode_activities : Option RecordSetBlock → Outcome (List (List (Text × Text)))
  unfolding decode_rows
  decode_activities none = ok []
  decode_activities (some block) = decode_block block.schema block.records
