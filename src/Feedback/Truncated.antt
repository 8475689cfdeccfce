-- ===== src/Feedback/Truncated.antt =====
-- Truncation of a text in UTF-8.
use brainapi_go_sdk.Prelude.{
  ℕ, zero, suc, ◌+◌, ◌/◌, ◌≤◌, ◌<◌, ◌≡◌, ◌⊎◌, inl, inr, refl, true, false, not, [], ◌∷◌, ◌++◌, Text,
  length, length-append, length-take, get_or, take, leb, ltb, ◌==◌, leb→le, ◌-◌, Bool-cases, ltb→lt,
  arith, ap, subst, sym, ◌∙◌,
}
use brainapi_go_sdk.Feedback.{starts_rune, rune_cut, truncate}

-- A byte 10xxxxxx.
abbrev pub AllContinue : Text → Type 0
AllContinue [] = Unit {0}
AllContinue (b ∷ bs) = (b / 64 ≡ 2) × AllContinue bs

-- The bytes of one rune, a first one and those that continue it, by the table of RFC 3629: the first
-- byte says how many continue it, and bounds the second.
abbrev pub IsRune : ℕ → Text → Type 0
IsRune b [] = b < 128
IsRune b (c ∷ []) = (194 ≤ b) × (b ≤ 223)
IsRune b (c ∷ d ∷ []) =
    ((b ≡ 224) × (160 ≤ c))
    ⊎ ((225 ≤ b) × (b ≤ 236))
    ⊎ ((b ≡ 237) × (c < 160))
    ⊎ ((238 ≤ b) × (b ≤ 239))
IsRune b (c ∷ d ∷ e ∷ []) =
    ((b ≡ 240) × (144 ≤ c)) ⊎ ((241 ≤ b) × (b ≤ 243)) ⊎ ((b ≡ 244) × (c < 144))
IsRune b (c ∷ d ∷ e ∷ f ∷ cs) = ⊥

-- A sequence of whole runes.
pub data Utf8 : Text → Type 0 where
  end : Utf8 []
  rune :
      (b : ℕ) (cs rest : Text) → IsRune b cs → AllContinue cs → Utf8 rest → Utf8 (b ∷ (cs ++ rest))

IsRune-starts : (b : ℕ) (cs : Text) → IsRune b cs → (b / 64 == 2) ≡ false
IsRune-starts b [] h = ground arith
IsRune-starts b (c ∷ []) h = ground arith
IsRune-starts b (c ∷ d ∷ []) h = ground arith
IsRune-starts b (c ∷ d ∷ e ∷ []) h = ground arith
IsRune-starts b (c ∷ d ∷ e ∷ f ∷ cs) h = absurd h

IsRune-length : (b : ℕ) (cs : Text) → IsRune b cs → length cs ≤ 3
IsRune-length b [] h = omega arith
IsRune-length b (c ∷ []) h = omega arith
IsRune-length b (c ∷ d ∷ []) h = omega arith
IsRune-length b (c ∷ d ∷ e ∷ []) h = omega arith
IsRune-length b (c ∷ d ∷ e ∷ f ∷ cs) h = absurd h

get_or-append : (p s : Text) (i k : ℕ) → k ≡ length p + i → get_or (p ++ s) k 0 ≡ get_or s i 0
get_or-append [] s i k h = ap (λ j. get_or s j 0) (omega arith)
get_or-append (x ∷ p) s i zero h = absurd (omega arith)
get_or-append (x ∷ p) s i (suc k) h = get_or-append p s i k (omega arith)

take-append : (p s : Text) (i k : ℕ) → k ≡ length p + i → take k (p ++ s) ≡ p ++ take i s
take-append [] s i k h = ap (λ j. take j s) (omega arith)
take-append (x ∷ p) s i zero h = absurd (omega arith)
take-append (x ∷ p) s i (suc k) h = ap (λ l. x ∷ l) (take-append p s i k (omega arith))

starts_rune-append :
    (p s : Text) (i k : ℕ) → k ≡ length p + i → starts_rune (p ++ s) k ≡ starts_rune s i
starts_rune-append p s i k h = ap (λ b. not (b / 64 == 2)) (get_or-append p s i k h)

-- Behind a whole number of runes the cut is that of the rest.
cut_after :
    (p s : Text) (m k : ℕ)
    → starts_rune s 0 ≡ true
    → k ≡ length p + m
    → rune_cut (p ++ s) k ≡ length p + rune_cut s m
unfolding rune_cut
cut_after p s zero zero h e = omega arith
cut_after p s zero (suc k) h e = rw (starts_rune-append p s 0 (suc k) e ∙ h) (omega arith)
cut_after p s (suc m) zero h e = absurd (omega arith)
cut_after p s (suc m) (suc k) h e =
    rw (starts_rune-append p s (suc m) (suc k) e)
      (ground (arith, cut_after p s m k h (omega arith)))

cut_le : (s : Text) (m : ℕ) → rune_cut s m ≤ m
unfolding rune_cut
cut_le s zero = omega arith
cut_le s (suc m) = ground (arith, cut_le s m)

continues_at :
    (cs rest : Text) (i : ℕ) → AllContinue cs → i < length cs → get_or (cs ++ rest) i 0 / 64 ≡ 2
continues_at [] rest i a h = absurd (omega arith)
continues_at (c ∷ cs) rest zero a h = a.0
continues_at (c ∷ cs) rest (suc i) a h = continues_at cs rest i a.1 (omega arith)

-- Inside the first rune the cut goes back to its start.
cut_inside :
    (b : ℕ) (cs rest : Text) (m : ℕ)
    → AllContinue cs
    → m ≤ length cs
    → rune_cut (b ∷ (cs ++ rest)) m ≡ 0
unfolding rune_cut
cut_inside b cs rest zero a h = refl
cut_inside b cs rest (suc m) a h =
    rw (continues_at cs rest m a (omega arith)) (cut_inside b cs rest m a (omega arith))

starts_at_0 : (s : Text) → Utf8 s → 0 < length s → starts_rune s 0 ≡ true
starts_at_0 [] u h = absurd (omega arith)
starts_at_0 (x ∷ xs) (rune b cs rest r a u) h = rw (IsRune-starts b cs r) refl

-- What a cut leaves.
abbrev pub IsCut : Text → ℕ → ℕ → Type 0
IsCut s m k = Utf8 (take k s) × (k ≤ m) × (m ≤ k + 3)

-- The first rune is kept whole, or the cut is at its start.
rune-IsCut :
    (b : ℕ) (cs rest : Text) (m : ℕ)
    → IsRune b cs
    → AllContinue cs
    → starts_rune rest 0 ≡ true
    → length cs < m
    → IsCut rest (m - suc (length cs)) (rune_cut rest (m - suc (length cs)))
    → IsCut (b ∷ (cs ++ rest)) m (rune_cut (b ∷ (cs ++ rest)) m)
rune-IsCut b cs rest m r a z h (v, lo, near) =
    let cut = rune_cut rest (m - suc (length cs)) in
    let e : rune_cut (b ∷ (cs ++ rest)) m ≡ suc (length cs) + cut =
      cut_after (b ∷ cs) rest (m - suc (length cs)) m z (omega arith) in
    (
      subst Utf8 (sym (take-append (b ∷ cs) rest cut _ e)) (rune b cs (take cut rest) r a v),
      omega arith,
      omega arith,
    )

rest_fits :
    (cs rest : Text) (m : ℕ)
    → m < suc (length (cs ++ rest))
    → length cs < m
    → m - suc (length cs) < length rest
rest_fits cs rest m h l = omega (arith, length-append cs rest)

rune_cut-IsCut : {s : Text} (m : ℕ) → Utf8 s → m < length s → IsCut s m (rune_cut s m)
rune_cut-IsCut m end h = absurd (omega arith)
rune_cut-IsCut m (rune b cs rest r a u) h = elim (Bool-cases (ltb (length cs) m)) [
  | inl t ↦
      let fits = rest_fits cs rest m h (ltb→lt (length cs) m t) in
      rune-IsCut b cs rest m r a (starts_at_0 rest u (omega arith)) (ltb→lt (length cs) m t)
        (rune_cut-IsCut (m - suc (length cs)) u fits)
  | inr t ↦
      rw (cut_inside b cs rest m a (ground arith))
        (end, omega arith, ground (arith, IsRune-length b cs r))
]

-- truncate of a text in UTF-8 is in UTF-8 and has at most max bytes; it is the whole text, or a
-- beginning of it that has at most three bytes less than max.
pub truncate-Utf8 :
    (s : Text) (max : ℕ)
    → Utf8 s
    → Utf8 (truncate s max)
      × (length (truncate s max) ≤ max)
      × ((truncate s max ≡ s) ⊎ ((k : ℕ) × (truncate s max ≡ take k s) × (k ≤ max) × (max ≤ k + 3)))
unfolding truncate
truncate-Utf8 s max u = elim (Bool-cases (leb (length s) max)) [
  | inl t ↦ rw t (u, leb→le (length s) max t, inl refl)
  | inr t ↦
      let c = rune_cut-IsCut max u (ground arith) in
      rw t (
        c.0,
        omega (arith, length-take (rune_cut s max) s, c.1),
        inr (rune_cut s max, refl, c.1, c.2),
      )
]
