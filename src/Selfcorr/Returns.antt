-- ===== src/Selfcorr/Returns.antt =====
-- The daily returns of a series with gaps.
use brainapi_go_sdk.Prelude.{
  subst, if_elim, text_lt, false, Text, ◌≡◌, refl, List, [], ◌∷◌, length, ltb, ltb→lt, arith,
  Bool-cases, inl, inr, sym, ◌<◌,
}
use brainapi_go_sdk.Float.{Float64}
use brainapi_go_sdk.Selfcorr.{
  is_earlier, by_date, PnLPoint, ReturnPoint, Calendar, keep_finite, returns_from, seed_returns,
  pnl_to_returns,
}

module _ {F : Type 0} (fl : Float64 F) where
  -- The difference of each value to the one before it.
  abbrev pub steps_from : PnLPoint F → List (PnLPoint F) → List (ReturnPoint F)
  steps_from p [] = []
  steps_from p (q ∷ qs) = record { date = q.date; ret = fl.sub q.value p.value } ∷ steps_from q qs

  abbrev pub differences : List (PnLPoint F) → List (ReturnPoint F)
  differences [] = []
  differences (p ∷ ps) = steps_from p ps

  returns-steps :
      (p : PnLPoint F) (ps : List (PnLPoint F))
      → returns_from fl p.value ps ≡ steps_from p (keep_finite fl ps)
  unfolding returns_from keep_finite
  returns-steps p [] = refl
  returns-steps p (q ∷ qs) = ground (arith, returns-steps q qs, returns-steps p qs)

  seed-differences : (ps : List (PnLPoint F)) → seed_returns fl ps ≡ differences (keep_finite fl ps)
  unfolding seed_returns keep_finite
  seed-differences [] = refl
  seed-differences (p ∷ ps) = elim (Bool-cases (fl.is_finite p.value)) [
    | inl t ↦ rw t (returns-steps p ps)
    | inr n ↦ rw n (seed-differences ps)
  ]

  short_lem : (ps : List (PnLPoint F)) → length ps < 2 → differences (keep_finite fl ps) ≡ []
  unfolding keep_finite
  short_lem [] h = refl
  short_lem (p ∷ []) h = ground arith
  short_lem (p ∷ q ∷ ps) h = absurd (omega arith)

  -- PnLToReturns gives the differences of each finite value to the finite value before it, in the
  -- order of the dates, where the sort keeps the number of records.
  pub pnl_to_returns-differences :
      (cal : Calendar F) (records : List (PnLPoint F))
      → length (by_date cal records) ≡ length records
      → pnl_to_returns fl cal records ≡ differences (keep_finite fl (by_date cal records))
  unfolding pnl_to_returns
  pnl_to_returns-differences cal records h = elim (Bool-cases (ltb (length records) 2)) [
    | inl t ↦
        rw t (sym (short_lem (by_date cal records) (omega (arith, ltb→lt (length records) 2 t))))
    | inr n ↦ rw n (seed-differences (by_date cal records))
  ]

  -- None of the records is earlier than one before it.
  abbrev NoneEarlier : PnLPoint F → List (PnLPoint F) → Type 0
  NoneEarlier p [] = Unit {0}
  NoneEarlier p (q ∷ qs) = (is_earlier q p ≡ false) × NoneEarlier p qs

  abbrev pub InOrder : List (PnLPoint F) → Type 0
  InOrder [] = Unit {0}
  InOrder (p ∷ ps) = NoneEarlier p ps × InOrder ps

  abbrev NoneSooner : Text → List (ReturnPoint F) → Type 0
  NoneSooner d [] = Unit {0}
  NoneSooner d (r ∷ rs) = (text_lt r.date d ≡ false) × NoneSooner d rs

  abbrev pub Rises : List (ReturnPoint F) → Type 0
  Rises [] = Unit {0}
  Rises (r ∷ rs) = NoneSooner r.date rs × Rises rs

  steps_from-NoneSooner :
      (d p : PnLPoint F) (qs : List (PnLPoint F))
      → NoneEarlier d qs
      → NoneSooner d.date (steps_from p qs)
  steps_from-NoneSooner d p [] h = tt
  steps_from-NoneSooner d p (q ∷ qs) h = (h.0, steps_from-NoneSooner d q qs h.1)

  steps_from-Rises :
      (p : PnLPoint F) (qs : List (PnLPoint F)) → InOrder qs → Rises (steps_from p qs)
  steps_from-Rises p [] h = tt
  steps_from-Rises p (q ∷ qs) h = (steps_from-NoneSooner q q qs h.0, steps_from-Rises q qs h.1)

  differences-Rises : (ps : List (PnLPoint F)) → InOrder ps → Rises (differences ps)
  differences-Rises [] h = tt
  differences-Rises (p ∷ ps) h = steps_from-Rises p ps h.1

  keep_finite-NoneEarlier :
      (d : PnLPoint F) (ps : List (PnLPoint F))
      → NoneEarlier d ps
      → NoneEarlier d (keep_finite fl ps)
  unfolding keep_finite
  keep_finite-NoneEarlier d [] h = tt
  keep_finite-NoneEarlier d (p ∷ ps) h =
      if_elim (NoneEarlier d) (fl.is_finite p.value) _ _
        (λ _. (h.0, keep_finite-NoneEarlier d ps h.1)) (λ _. keep_finite-NoneEarlier d ps h.1)

  keep_finite-InOrder : (ps : List (PnLPoint F)) → InOrder ps → InOrder (keep_finite fl ps)
  unfolding keep_finite
  keep_finite-InOrder [] h = tt
  keep_finite-InOrder (p ∷ ps) h =
      if_elim InOrder (fl.is_finite p.value) _ _
        (λ _. (keep_finite-NoneEarlier p ps h.0, keep_finite-InOrder ps h.1))
        (λ _. keep_finite-InOrder ps h.1)

  -- The returns that PnLToReturns gives are in the order of their dates, where sort.Slice puts the
  -- records in the order of the comparison that it is given.
  pub pnl_to_returns-Rises :
      (cal : Calendar F) (records : List (PnLPoint F))
      → InOrder (by_date cal records)
      → Rises (pnl_to_returns fl cal records)
  unfolding pnl_to_returns
  pnl_to_returns-Rises cal records h =
      if_elim Rises (ltb (length records) 2) _ _ (λ _. tt)
        (λ _. subst Rises (sym (seed-differences (by_date cal records))) (
          differences-Rises (keep_finite fl (by_date cal records))
            (keep_finite-InOrder (by_date cal records) h)))
