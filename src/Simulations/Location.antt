-- ===== src/Simulations/Location.antt =====
-- parseSimLocation on the Location headers that carry an id.
use brainapi_go_sdk.Prelude.{
  ◌∙◌, ap, codes, ◌++◌, ◌||◌, ◌==◌, arith, ◌≡◌, Bool, Text, strip_prefix, [], ◌∷◌, none, some, true,
  false, refl, ◌≢◌,
}
use brainapi_go_sdk.Simulations.{
  id_behind, non_empty_id, after_last, parse_sim_location, simulations_sep,
}
use brainapi_go_sdk.Client.Url.{drop_last_slash}

abbrev pub has_slash : Text → Bool
has_slash [] = false
has_slash (c ∷ s) = c == b'/' || has_slash s

-- A text without a slash has no prefix with one.
strip_none : (s p : Text) → has_slash s ≡ false → has_slash p ≡ true → strip_prefix s p ≡ none
unfolding strip_prefix
strip_none s [] h k = absurd (cc)
strip_none [] (d ∷ p) h k = refl
strip_none (c ∷ s) (d ∷ p) h k = ground (arith, strip_none s p)

-- A text without a slash does not hold the separator.
after_none : (p s : Text) → has_slash p ≡ true → has_slash s ≡ false → after_last p s ≡ none
unfolding after_last
after_none p [] k h = refl
after_none p (c ∷ s) k h = rw (after_none p s k (ground arith)) (strip_none (c ∷ s) p h k)

-- Behind a separator at the front.
after_front :
    (id : Text)
    → has_slash id ≡ false
    → after_last simulations_sep (simulations_sep ++ id) ≡ some id
unfolding after_last strip_prefix
after_front id h =
    rw (after_none simulations_sep id refl h, strip_none id (codes "simulations/") h refl) refl

-- Behind a separator anywhere.
after_later :
    (p s r : Text)
    → after_last simulations_sep s ≡ some r
    → after_last simulations_sep (p ++ s) ≡ some r
unfolding after_last
after_later [] s r h = h
after_later (c ∷ p) s r h = rw (after_later p s r h) refl

undropped : (id : Text) → has_slash id ≡ false → drop_last_slash id ≡ id
undropped [] h = refl
undropped (c ∷ []) h = ground arith
undropped (c ∷ d ∷ s) h = ap (◌∷◌ c) (undropped (d ∷ s) (ground arith))

kept_id : (id : Text) → id ≢ [] → non_empty_id id ≡ some id
kept_id [] h = absurd (h refl)
kept_id (c ∷ s) h = refl

-- parseSimLocation reads an id back from any text that ends in /simulations/ and the id, where the
-- id is not empty and has no slash.
pub parse_sim_location_lem :
    (p id : Text)
    → id ≢ []
    → has_slash id ≡ false
    → parse_sim_location (p ++ (simulations_sep ++ id)) ≡ some id
unfolding parse_sim_location
parse_sim_location_lem p id n h =
    ap id_behind (after_later p (simulations_sep ++ id) id (after_front id h))
    ∙ rw (undropped id h) (kept_id id n)
