-- ===== src/Decoders/Points.antt =====
-- Points of a PnL series, printed and read back.
use brainapi_go_sdk.Prelude.{
  Bool, true, false, ◌≡◌, refl, none, some, Text, codes, is_empty, text_eq, ◌||◌, if◌then◌else◌, ap,
  ◌∙◌, sym, Bool-cases, inl, inr,
}
use brainapi_go_sdk.Selfcorr.{PnLPoint}
use brainapi_go_sdk.Decoders.{Json, unmarshal_point, marshal_point}

-- What encoding/json documents of a pair of a text that is valid and a number or null.
pub record PrintsPairs {F : Type 0} (j : Json F) (is_valid : Text → Bool) : Type 0 where
  pub number :
      (d : Text) (v : F) (b : Text)
      → is_valid d ≡ true
      → j.is_finite v ≡ true
      → j.marshal_pair d (some v) ≡ some b
      → (rd : Text) × (rv : Text) × (n : Text) × (j.as_pair b ≡ some (rd, rv))
        × (j.as_string rd ≡ some d)
        × (is_empty rv || text_eq rv (codes "null") ≡ false)
        × (j.as_number rv ≡ some n)
        × (j.parse_float n ≡ some v)
  pub gap :
      (d : Text) (b : Text)
      → is_valid d ≡ true
      → j.marshal_pair d none ≡ some b
      → (rd : Text) × (j.as_pair b ≡ some (rd, codes "null")) × (j.as_string rd ≡ some d)

module _ {F : Type 0} (j : Json F) (is_valid : Text → Bool) (laws : PrintsPairs j is_valid) where
  read_number :
      (d : Text) (v : F) (b : Text)
      → is_valid d ≡ true
      → j.is_finite v ≡ true
      → j.marshal_pair d (some v) ≡ some b
      → unmarshal_point j b ≡ some (record { date = d; value = v })
  unfolding unmarshal_point
  read_number d v b k f e =
      let (rd, rv, n, p, s, z, u, w) = laws.number d v b k f e in
      rw p (rw s (rw z (rw u (rw w refl))))

  read_gap :
      (d : Text) (b : Text)
      → is_valid d ≡ true
      → j.marshal_pair d none ≡ some b
      → unmarshal_point j b ≡ some (record { date = d; value = j.nan })
  unfolding unmarshal_point is_empty text_eq
  read_gap d b k e = let (rd, p, s) = laws.gap d b k e in rw p (rw s refl)

-- A point of a PnL series with a date in valid text that MarshalJSON prints is read back by
-- UnmarshalJSON with its date and with its value if that is finite, and otherwise with NaN, where
-- encoding/json reads back what it prints of a pair.
pub unmarshal_point-marshal_point :
    {F : Type 0} (j : Json F) (is_valid : Text → Bool) (p : PnLPoint F) (b : Text)
    → PrintsPairs j is_valid
    → is_valid p.date ≡ true
    → marshal_point j p ≡ some b
    → unmarshal_point j b
      ≡ some (record { date = p.date; value = if j.is_finite p.value then p.value else j.nan })
unfolding marshal_point
unmarshal_point-marshal_point j is_valid p b laws k e = elim (Bool-cases (j.is_finite p.value)) [
  | inl f ↦ rw f (
      read_number j is_valid laws p.date p.value b k f
        (ap (λ t. j.marshal_pair p.date (if t then some p.value else none)) (sym f) ∙ e))
  | inr f ↦ rw f (
      read_gap j is_valid laws p.date b k
        (ap (λ t. j.marshal_pair p.date (if t then some p.value else none)) (sym f) ∙ e))
]
