-- ===== src/Decoders/Columns.antt =====
-- The records that DecodeActivities makes of rows.
use mathlib.Core.List.{append_assoc, append-nil}
use brainapi_go_sdk.Prelude.{
  Option, none, some, ◌⊎◌, inl, inr, false, ◌≡◌, refl, List, [], ◌∷◌, ◌++◌, Text, text_eq, ap, ◌∙◌,
  sym,
}
use brainapi_go_sdk.World.Monad.{Outcome, ok, err, diverged}
use brainapi_go_sdk.Decoders.{
  Json, put, fill_record, decode_rows, decode_activities, onto_rows, row_error,
}

-- The columns beside their values.
abbrev pub zip : List Text → List Text → List (Text × Text)
zip [] row = []
zip (p ∷ props) [] = []
zip (p ∷ props) (v ∷ row) = (p, v) ∷ zip props row

-- No key of a record, and no name of a list, is this one.
abbrev pub HasNoKey : Text → List (Text × Text) → Type 0
HasNoKey k [] = Unit {0}
HasNoKey k ((k', v) ∷ m) = (text_eq k' k ≡ false) × HasNoKey k m

abbrev pub HasNoName : Text → List Text → Type 0
HasNoName k [] = Unit {0}
HasNoName k (p ∷ ps) = (text_eq k p ≡ false) × HasNoName k ps

abbrev pub AreDistinct : List Text → Type 0
AreDistinct [] = Unit {0}
AreDistinct (p ∷ ps) = HasNoName p ps × AreDistinct ps

-- No key of the record is among the names.
abbrev AreNew : List (Text × Text) → List Text → Type 0
AreNew m [] = Unit {0}
AreNew m (p ∷ ps) = HasNoKey p m × AreNew m ps

put_new : (k v : Text) (m : List (Text × Text)) → HasNoKey k m → put k v m ≡ m ++ ((k, v) ∷ [])
unfolding put
put_new k v [] h = refl
put_new k v ((k', v') ∷ m) h = rw h.0 (ap (λ l. (k', v') ∷ l) (put_new k v m h.1))

key-append :
    (k p v : Text) (m : List (Text × Text))
    → text_eq p k ≡ false
    → HasNoKey k m
    → HasNoKey k (m ++ ((p, v) ∷ []))
key-append k p v [] e h = (e, tt)
key-append k p v ((k', v') ∷ m) e h = (h.0, key-append k p v m e h.1)

AreNew-append :
    (m : List (Text × Text)) (p v : Text) (ps : List Text)
    → HasNoName p ps
    → AreNew m ps
    → AreNew (m ++ ((p, v) ∷ [])) ps
AreNew-append m p v [] d h = tt
AreNew-append m p v (q ∷ qs) d h = (key-append q p v m d.0 h.0, AreNew-append m p v qs d.1 h.1)

fill_record-zip :
    (props row : List Text) (m : List (Text × Text))
    → AreDistinct props
    → AreNew m props
    → fill_record props row m ≡ m ++ zip props row
unfolding fill_record
fill_record-zip [] row m d n = sym (append-nil m)
fill_record-zip (p ∷ props) [] m d n = sym (append-nil m)
fill_record-zip (p ∷ props) (v ∷ row) m d n =
    ap (fill_record props row) (put_new p v m n.0)
    ∙ fill_record-zip props row (m ++ ((p, v) ∷ [])) d.1 (AreNew-append m p v props d.0 n.1)
    ∙ append_assoc m ((p, v) ∷ []) (zip props row)

all_new : (props : List Text) → AreNew [] props
all_new [] = tt
all_new (p ∷ ps) = (tt, all_new ps)

-- One record for each row: the columns beside its values.
abbrev pub AreRows :
    {F : Type 0} → Json F → List Text → List Text → List (List (Text × Text)) → Type 0
AreRows j props [] [] = Unit {0}
AreRows j props [] (rec ∷ recs) = ⊥
AreRows j props (raw ∷ raws) [] = ⊥
AreRows j props (raw ∷ raws) (rec ∷ recs) =
    ((row : List Text) × (j.as_row raw ≡ some row) × (rec ≡ zip props row))
    × AreRows j props raws recs

-- A row that is no array.
abbrev pub HasBadRow : {F : Type 0} → Json F → List Text → Type 0
HasBadRow j [] = ⊥
HasBadRow j (raw ∷ raws) = (j.as_row raw ≡ none) ⊎ HasBadRow j raws

abbrev pub Decodes :
    {F : Type 0} → Json F → List Text → List Text → Outcome (List (List (Text × Text))) → Type 0
Decodes j props raws (ok recs) = AreRows j props raws recs
Decodes j props raws (err e) = HasBadRow j raws
Decodes j props raws diverged = ⊥

module _ {F : Type 0} (j : Json F) (props : List Text) (d : AreDistinct props) where
  onto-Decodes :
      (raw : Text) (raws row : List Text) (o : Outcome (List (List (Text × Text))))
      → j.as_row raw ≡ some row
      → Decodes j props raws o
      → Decodes j props (raw ∷ raws) (onto_rows j props (fill_record props row []) o)
  onto-Decodes raw raws row (ok recs) e h =
      ((row, e, fill_record-zip props row [] d (all_new props)), h)
  onto-Decodes raw raws row (err x) e h = inr h
  onto-Decodes raw raws row diverged e h = h

  rows-Decodes : (raws : List Text) → Decodes j props raws (decode_rows j props raws)
  unfolding decode_rows
  rows-Decodes [] = tt
  rows-Decodes (raw ∷ raws) = by_row (j.as_row raw) refl (rows-Decodes raws)
    where
      by_row :
          (o : Option (List Text))
          → j.as_row raw ≡ o
          → Decodes j props raws (decode_rows j props raws)
          → Decodes j props (raw ∷ raws) (elim o [
            | none ↦ err row_error
            | some row ↦ onto_rows j props (fill_record props row []) (decode_rows j props raws)
          ])
      by_row none e h = inl e
      by_row (some row) e h = onto-Decodes raw raws row (decode_rows j props raws) e h

-- DecodeActivities of a schema with at least one column, the names all different, gives for each
-- row, in order, the record of the columns beside the values of the row, as far as both go; it
-- fails only where some row is no array.
pub decode_activities-Decodes :
    {F : Type 0} (j : Json F) (p : Text) (ps raws : List Text)
    → AreDistinct (p ∷ ps)
    → Decodes j
        (p ∷ ps)
        raws
        (decode_activities j (some (record { schema = some (p ∷ ps); records = raws })))
unfolding decode_activities
decode_activities-Decodes j p ps raws d = rows-Decodes j (p ∷ ps) d raws
