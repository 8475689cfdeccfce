-- ===== src/Prelude/Bytes.antt =====
-- Go strings and byte slices as lists of bytes, with what the program uses of the packages
-- `strings`, `bytes`, `strconv` and `unicode`.
use Prim.Native.Nat.{ℕ, zero, suc, ◌+◌, ◌/◌, ◌%◌}
use Prim.Native.Char.{code}
use Prim.Native.String.{String}
use mathlib.Core.Path.{◌≡◌, refl}
use mathlib.Core.Logic.{◌↔◌}
use mathlib.Core.Bool.{Bool, true, false, ◌&&◌, ◌||◌}
use mathlib.Core.Option.{Option, none, some}
use mathlib.Core.List.{List, [], ◌∷◌, ◌++◌, map, reverse}
use native.Mathlib.Omega.{arith}
use brainapi_go_sdk.Prelude.Tests.{leb, ltb, ◌==◌, if◌then◌else◌}
use brainapi_go_sdk.Prelude.Lists.{length}

abbrev pub Text : Type 0
Text = List ℕ

-- The bytes of a literal in ASCII.
abbrev pub codes : String → Text
codes String.[] = []
codes (String.◌∷◌ c s) = code c ∷ codes s

unfoldable pub text_eq : Text → Text → Bool
text_eq [] [] = true
text_eq [] (y ∷ ys) = false
text_eq (x ∷ xs) [] = false
text_eq (x ∷ xs) (y ∷ ys) = x == y && text_eq xs ys

pub text_eq_iff : (s t : Text) → (text_eq s t ≡ true) ↔ (s ≡ t)
unfolding text_eq
text_eq_iff [] [] = ground arith
text_eq_iff [] (y ∷ ys) = ground arith
text_eq_iff (x ∷ xs) [] = ground arith
text_eq_iff (x ∷ xs) (y ∷ ys) = ground (arith, text_eq_iff xs ys)

pub text_eq_refl : (s : Text) → text_eq s s ≡ true
text_eq_refl s = (text_eq_iff s s).1 refl

-- `<` of Go on strings: bytewise, a proper prefix first.
unfoldable pub text_lt : Text → Text → Bool
text_lt [] [] = false
text_lt [] (y ∷ ys) = true
text_lt (x ∷ xs) [] = false
text_lt (x ∷ xs) (y ∷ ys) = let rest = text_lt xs ys in if ltb x y then true else x == y && rest

unfoldable pub is_empty : Text → Bool
is_empty [] = true
is_empty (x ∷ xs) = false

unfoldable pub starts_with : Text → Text → Bool
starts_with s [] = true
starts_with [] (y ∷ ys) = false
starts_with (x ∷ xs) (y ∷ ys) = x == y && starts_with xs ys

-- strings.Contains, bytes.Contains
unfoldable pub contains : Text → Text → Bool
unfolding starts_with
contains [] t = starts_with [] t
contains (x ∷ xs) t = starts_with (x ∷ xs) t || contains xs t

-- strings.ToLower on ASCII letters; every other byte stays.
unfoldable pub lower_byte : ℕ → ℕ
lower_byte c = if leb b'A' c && leb c b'Z' then c + 32 else c

unfoldable pub to_lower : Text → Text
unfolding lower_byte
to_lower s = map lower_byte s

-- The UTF-8 encodings of the runes for which unicode.IsSpace holds.
unfoldable pub space_runes : List Text
space_runes =
    (9 ∷ [])
    ∷ (10 ∷ [])
    ∷ (11 ∷ [])
    ∷ (12 ∷ [])
    ∷ (13 ∷ [])
    ∷ (32 ∷ [])
    ∷ (0xc2 ∷ 0x85 ∷ [])
    ∷ (0xc2 ∷ 0xa0 ∷ [])
    ∷ (0xe1 ∷ 0x9a ∷ 0x80 ∷ [])
    ∷ (0xe2 ∷ 0x80 ∷ 0x80 ∷ [])
    ∷ (0xe2 ∷ 0x80 ∷ 0x81 ∷ [])
    ∷ (0xe2 ∷ 0x80 ∷ 0x82 ∷ [])
    ∷ (0xe2 ∷ 0x80 ∷ 0x83 ∷ [])
    ∷ (0xe2 ∷ 0x80 ∷ 0x84 ∷ [])
    ∷ (0xe2 ∷ 0x80 ∷ 0x85 ∷ [])
    ∷ (0xe2 ∷ 0x80 ∷ 0x86 ∷ [])
    ∷ (0xe2 ∷ 0x80 ∷ 0x87 ∷ [])
    ∷ (0xe2 ∷ 0x80 ∷ 0x88 ∷ [])
    ∷ (0xe2 ∷ 0x80 ∷ 0x89 ∷ [])
    ∷ (0xe2 ∷ 0x80 ∷ 0x8a ∷ [])
    ∷ (0xe2 ∷ 0x80 ∷ 0xa8 ∷ [])
    ∷ (0xe2 ∷ 0x80 ∷ 0xa9 ∷ [])
    ∷ (0xe2 ∷ 0x80 ∷ 0xaf ∷ [])
    ∷ (0xe2 ∷ 0x81 ∷ 0x9f ∷ [])
    ∷ (0xe3 ∷ 0x80 ∷ 0x80 ∷ [])
    ∷ []

-- strings.TrimPrefix
unfoldable pub strip_prefix : Text → Text → Option Text
strip_prefix s [] = some s
strip_prefix [] (y ∷ ys) = none
strip_prefix (x ∷ xs) (y ∷ ys) = if x == y then strip_prefix xs ys else none

unfoldable pub trim_prefix : Text → Text → Text
unfolding strip_prefix
trim_prefix s t = elim (strip_prefix s t) [ none ↦ s | some rest ↦ rest ]

unfoldable pub strip_any : Text → List Text → Option Text
unfolding strip_prefix
strip_any s [] = none
strip_any s (t ∷ ts) = elim (strip_prefix s t) [ none ↦ strip_any s ts | some rest ↦ some rest ]

-- Each round drops a rune of at least one byte, so the length is enough fuel.
unfoldable pub trim_with : List Text → ℕ → Text → Text
unfolding strip_any
trim_with ts zero s = s
trim_with ts (suc n) s = elim (strip_any s ts) [ none ↦ s | some rest ↦ trim_with ts n rest ]

-- strings.TrimSpace, bytes.TrimSpace
unfoldable pub trim_space : Text → Text
unfolding trim_with space_runes
trim_space s =
    let left = trim_with space_runes (length s) s in
    reverse (trim_with (map reverse space_runes) (length left) (reverse left))

-- strconv.Itoa on a number that is not negative.
unfoldable pub digits_of : ℕ → ℕ → Text
digits_of zero n = []
digits_of (suc f) n =
    let more = digits_of f (n / 10) in
    if ltb n 10 then (n + 48) ∷ [] else more ++ (n % 10 + 48) ∷ []

unfoldable pub itoa : ℕ → Text
unfolding digits_of
itoa n = digits_of (suc n) n

-- strings.Join
unfoldable pub join : Text → List Text → Text
join sep [] = []
join sep (s ∷ []) = s
join sep (s ∷ t ∷ ts) = s ++ (sep ++ join sep (t ∷ ts))

trim_space_runs : trim_space (codes "\t a b \n") ≡ codes "a b"
unfolding trim_space
trim_space_runs = refl

itoa_runs : itoa 5040 ≡ codes "5040"
unfolding itoa
itoa_runs = refl

contains_runs : contains (to_lower (codes "Too many CONCURRENT runs")) (codes "concurrent") ≡ true
unfolding contains to_lower
contains_runs = refl
