-- ===== src/Selfcorr/Aligned.antt =====
-- The dates that two series share.
use brainapi_go_sdk.Prelude.{
  ◌≡◌, refl, true, false, Option, none, some, List, [], ◌∷◌, Text, text_eq, text_lt, arith,
  Bool-cases, inl, inr, ◌∙◌, sym, ap, text_eq_iff, subst, if◌then◌else◌,
}
use brainapi_go_sdk.Selfcorr.{ReturnPoint, scan_dates, align_loop}

-- The order of strings.
lt_trans : (s t u : Text) → text_lt s t ≡ true → text_lt t u ≡ true → text_lt s u ≡ true
unfolding text_lt
lt_trans [] [] u h k = ground arith
lt_trans [] (y ∷ t) [] h k = ground arith
lt_trans [] (y ∷ t) (z ∷ u) h k = refl
lt_trans (x ∷ s) [] u h k = ground arith
lt_trans (x ∷ s) (y ∷ t) [] h k = ground arith
lt_trans (x ∷ s) (y ∷ t) (z ∷ u) h k = ground (arith, lt_trans s t u)

lt_irrefl : (s : Text) → text_lt s s ≡ false
unfolding text_lt
lt_irrefl [] = refl
lt_irrefl (x ∷ s) = ground (arith, lt_irrefl s)

lt_total : (s t : Text) → text_eq s t ≡ false → text_lt s t ≡ false → text_lt t s ≡ true
unfolding text_lt text_eq
lt_total [] [] h k = ground arith
lt_total [] (y ∷ t) h k = ground arith
lt_total (x ∷ s) [] h k = refl
lt_total (x ∷ s) (y ∷ t) h k = ground (arith, lt_total s t)

lt-eq : (s t : Text) → text_lt s t ≡ true → text_eq s t ≡ false
unfolding text_lt text_eq
lt-eq [] [] h = ground arith
lt-eq [] (y ∷ t) h = refl
lt-eq (x ∷ s) [] h = refl
lt-eq (x ∷ s) (y ∷ t) h = ground (arith, lt-eq s t)

gt-eq : (s t : Text) → text_lt t s ≡ true → text_eq s t ≡ false
unfolding text_lt text_eq
gt-eq [] [] h = ground arith
gt-eq [] (y ∷ t) h = refl
gt-eq (x ∷ s) [] h = refl
gt-eq (x ∷ s) (y ∷ t) h = ground (arith, gt-eq s t)

module _ {F : Type 0} where
  -- Every date lies after d.
  abbrev pub IsAfter : Text → List (ReturnPoint F) → Type 0
  IsAfter d [] = Unit {0}
  IsAfter d (p ∷ ps) = (text_lt d p.date ≡ true) × IsAfter d ps

  -- The dates rise strictly.
  abbrev pub IsDated : List (ReturnPoint F) → Type 0
  IsDated [] = Unit {0}
  IsDated (p ∷ ps) = IsAfter p.date ps × IsDated ps

  -- The return of a date.
  unfoldable pub lookup : Text → List (ReturnPoint F) → Option F
  lookup d [] = none
  lookup d (p ∷ ps) = if text_eq d p.date then some p.ret else lookup d ps

  abbrev pub pair_with : F → Option F → List (F × F) → List (F × F)
  pair_with r none rest = rest
  pair_with r (some s) rest = (r, s) ∷ rest

  -- Each return of a beside the one of its date in b.
  unfoldable pub joined : List (ReturnPoint F) → List (ReturnPoint F) → List (F × F)
  unfolding lookup
  joined [] b = []
  joined (p ∷ ps) b = pair_with p.ret (lookup p.date b) (joined ps b)

  IsAfter-trans :
      (d e : Text) (ps : List (ReturnPoint F)) → text_lt d e ≡ true → IsAfter e ps → IsAfter d ps
  IsAfter-trans d e [] h a = tt
  IsAfter-trans d e (p ∷ ps) h a = (lt_trans d e p.date h a.0, IsAfter-trans d e ps h a.1)

  lookup_after : (d : Text) (ps : List (ReturnPoint F)) → IsAfter d ps → lookup d ps ≡ none
  unfolding lookup
  lookup_after d [] a = refl
  lookup_after d (p ∷ ps) a = rw (lt-eq d p.date a.0) (lookup_after d ps a.1)

  -- A date before all of a is not looked up.
  joined_skip :
      (a : List (ReturnPoint F)) (y : ReturnPoint F) (b : List (ReturnPoint F))
      → IsAfter y.date a
      → joined a (y ∷ b) ≡ joined a b
  unfolding joined
  joined_skip [] y b h = refl
  joined_skip (p ∷ a) y b h =
      rw (gt-eq p.date y.date h.0) (ap (pair_with p.ret (lookup p.date b)) (joined_skip a y b h.1))

  joined_nil : (a : List (ReturnPoint F)) → joined a [] ≡ []
  unfolding joined
  joined_nil [] = refl
  joined_nil (p ∷ a) = joined_nil a

  module _ (x y : ReturnPoint F) (next : List (ReturnPoint F) → List (F × F))
      (b : List (ReturnPoint F)) where
    scan_same : text_eq x.date y.date ≡ true → scan_dates x next (y ∷ b) ≡ (x.ret, y.ret) ∷ next b
    unfolding scan_dates
    scan_same e = ground arith

    scan_before :
        text_eq x.date y.date ≡ false
        → text_lt x.date y.date ≡ true
        → scan_dates x next (y ∷ b) ≡ next (y ∷ b)
    unfolding scan_dates
    scan_before n l = ground arith

    scan_behind :
        text_eq x.date y.date ≡ false
        → text_lt x.date y.date ≡ false
        → scan_dates x next (y ∷ b) ≡ scan_dates x next b
    unfolding scan_dates
    scan_behind n g = ground arith

  scan-joined :
      (x : ReturnPoint F) (a : List (ReturnPoint F)) (next : List (ReturnPoint F) → List (F × F))
      (b : List (ReturnPoint F))
      → IsDated (x ∷ a)
      → IsDated b
      → ((b : List (ReturnPoint F)) → IsDated b → next b ≡ joined a b)
      → scan_dates x next b ≡ joined (x ∷ a) b
  unfolding scan_dates joined
  scan-joined x a next [] da db h = sym (joined_nil a)
  scan-joined x a next (y ∷ b) da db h = elim (Bool-cases (text_eq x.date y.date)) [
    | inl e ↦
        let after : IsAfter y.date a =
          subst (λ d. IsAfter d a) ((text_eq_iff x.date y.date).0 e) da.0 in
        scan_same x y next b e
        ∙ rw e (ap (λ l. (x.ret, y.ret) ∷ l) (h b db.1 ∙ sym (joined_skip a y b after)))
    | inr n ↦ elim (Bool-cases (text_lt x.date y.date)) [
      | inl l ↦
          scan_before x y next b n l
          ∙ rw n (rw (lookup_after x.date b (IsAfter-trans x.date y.date b l db.0)) (h (y ∷ b) db))
      | inr g ↦
          let after = IsAfter-trans y.date x.date a (lt_total x.date y.date n g) da.0 in
          scan_behind x y next b n g
          ∙ rw n (rw (joined_skip a y b after) (scan-joined x a next b da db.1 h))
    ]
  ]

  -- On two series whose dates rise strictly the loop of alignReturns finds exactly the pairs that
  -- looking up each date of the first in the second gives, in the order of the dates.
  pub align_loop-joined :
      (a b : List (ReturnPoint F)) → IsDated a → IsDated b → align_loop a b ≡ joined a b
  unfolding align_loop joined
  align_loop-joined [] b da db = refl
  align_loop-joined (x ∷ a) b da db =
      scan-joined x a (align_loop a) b da db (λ c dc. align_loop-joined a c da.1 dc)
