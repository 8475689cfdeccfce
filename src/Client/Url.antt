-- ===== src/Client/Url.antt =====
-- pkg/brainapi/client.go: joinURL, singleSlash, queryParams and the Basic header.
use brainapi_go_sdk.Prelude.{
  ℕ, Bool, true, false, ◌&&◌, Option, none, some, List, [], ◌∷◌, ◌++◌, ◌≡◌, refl, ◌≢◌, ap, sym,
  Text, codes, is_empty, text_eq, ℤ, pos, ltb_ℤ, ◌==◌, if◌then◌else◌, itoa, arith, not, inl, inr,
  Bool-cases,
}
use brainapi_go_sdk.Client.{Setup}

-- a[len(a)-1] == '/' on a text that is not empty, and b[0] == '/'.
unfoldable pub ends_in_slash : Text → Bool
ends_in_slash [] = false
ends_in_slash (c ∷ []) = c == b'/'
ends_in_slash (c ∷ d ∷ s) = ends_in_slash (d ∷ s)

unfoldable pub begins_with_slash : Text → Bool
begins_with_slash [] = false
begins_with_slash (c ∷ s) = c == b'/'

abbrev tail : Text → Text
tail [] = []
tail (c ∷ s) = s

unfoldable pub single_slash : Text → Text → Text
unfolding ends_in_slash begins_with_slash
single_slash [] b = b
single_slash (c ∷ a) b =
    if ends_in_slash (c ∷ a) && begins_with_slash b
    then (c ∷ a) ++ tail b
    else if not (ends_in_slash (c ∷ a)) && not (begins_with_slash b)
    then (c ∷ a) ++ (b'/' ∷ b)
    else (c ∷ a) ++ b

unfoldable pub join_url : Setup → Text → Option (List (Text × Text)) → Text
unfolding single_slash
join_url c path none = c.library.url_string (single_slash c.base_path path) none
join_url c path (some q) =
    c.library.url_string (single_slash c.base_path path) (some (c.library.query_encode q))

-- url.Values.Set on an association list.
unfoldable pub set : Text → Text → List (Text × Text) → List (Text × Text)
set key val [] = (key, val) ∷ []
set key val ((k, v) ∷ q) = if text_eq k key then (key, val) ∷ q else (k, v) ∷ set key val q

unfoldable pub set_if_not_empty : Text → Text → List (Text × Text) → List (Text × Text)
unfolding set
set_if_not_empty key val q = if is_empty val then q else set key val q

abbrev magnitude : ℤ → ℕ
magnitude (pos n) = n
magnitude _ = 0

unfoldable pub set_if_positive : Text → ℤ → List (Text × Text) → List (Text × Text)
unfolding set
set_if_positive key val q = if ltb_ℤ (pos 0) val then set key (itoa (magnitude val)) q else q

unfoldable pub basic_auth_header : Setup → Text → Text → Text
basic_auth_header c user pass = codes "Basic " ++ c.library.base64 (user ++ (codes ":" ++ pass))

-- The same text without one slash at its end, at its beginning.
abbrev pub drop_last_slash : Text → Text
drop_last_slash [] = []
drop_last_slash (c ∷ []) = if c == b'/' then [] else c ∷ []
drop_last_slash (c ∷ d ∷ s) = c ∷ drop_last_slash (d ∷ s)

abbrev pub drop_first_slash : Text → Text
drop_first_slash [] = []
drop_first_slash (c ∷ s) = if c == b'/' then s else c ∷ s

with_slash :
    (c : ℕ) (a : Text)
    → ends_in_slash (c ∷ a) ≡ true
    → (b : Text) → (c ∷ a) ++ b ≡ drop_last_slash (c ∷ a) ++ (b'/' ∷ b)
unfolding ends_in_slash
with_slash c [] h b = ground arith
with_slash c (d ∷ a) h b = ap (◌∷◌ c) (with_slash d a h b)

without_slash : (c : ℕ) (a : Text) → ends_in_slash (c ∷ a) ≡ false → drop_last_slash (c ∷ a) ≡ c ∷ a
unfolding ends_in_slash
without_slash c [] h = ground arith
without_slash c (d ∷ a) h = ap (◌∷◌ c) (without_slash d a h)

-- Whatever slashes the two parts have at the seam, with a first part that is not empty the joined
-- path is the first part without one final slash, one slash, and the second part without one
-- leading slash.
pub single_slash_lem :
    (a b : Text) → a ≢ [] → single_slash a b ≡ drop_last_slash a ++ (b'/' ∷ drop_first_slash b)
unfolding single_slash begins_with_slash
single_slash_lem [] b h = absurd (h refl)
single_slash_lem (c ∷ a) [] h = elim (Bool-cases (ends_in_slash (c ∷ a))) [
  | inl e ↦ rw e (with_slash c a e [])
  | inr e ↦ rw e (ap (λ t. t ++ (b'/' ∷ [])) (sym (without_slash c a e)))
]
single_slash_lem (c ∷ a) (d ∷ b) h = elim (Bool-cases (ends_in_slash (c ∷ a))) [
  | inl e ↦ rw e (ground (arith, with_slash c a e b, with_slash c a e (d ∷ b)))
  | inr e ↦ rw (e, without_slash c a e) (ground arith)
]
