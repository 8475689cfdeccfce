-- ===== src/Altcha/Stripes.antt =====
-- The numbers that one worker handles, and what is known of those behind it.
use brainapi_go_sdk.Prelude.{
  ℕ, zero, suc, ◌+◌, ◌-◌, ◌<◌, ◌≤◌, ◌≡◌, inl, inr, refl, Bool, false, arith, ltb, leb, Bool-cases,
  leb→le, ==_iff, ◌==◌, ltb→lt, ap, ◌∙◌,
}

-- The k-th number of worker i among w workers.
abbrev pub stripe : ℕ → ℕ → ℕ → ℕ
stripe w i zero = i
stripe w i (suc k) = stripe w i k + w

-- The first k numbers of the worker are no hits.
abbrev pub Misses : (ℕ → Bool) → ℕ → ℕ → ℕ → Type 0
Misses hits w i zero = Unit {0}
Misses hits w i (suc k) = (hits (stripe w i k) ≡ false) × Misses hits w i k

stripe_mono : (w i k j : ℕ) → k ≤ j → stripe w i k ≤ stripe w i j
stripe_mono w i k zero h = ground arith
stripe_mono w i k (suc j) h = elim (Bool-cases (leb k j)) [
  | inl t ↦ let r = stripe_mono w i k j (leb→le k j t) in omega arith
  | inr f ↦ let e : k ≡ suc j = ground arith in omega (arith, ap (stripe w i) e)
]

missed_before :
    (hits : ℕ → Bool) (w i j k : ℕ) → Misses hits w i k → j < k → hits (stripe w i j) ≡ false
missed_before hits w i j zero m h = absurd (omega arith)
missed_before hits w i j (suc k) m h = elim (Bool-cases (j == k)) [
  | inl t ↦ ap (λ l. hits (stripe w i l)) ((==_iff j k).0 t) ∙ m.0
  | inr f ↦ missed_before hits w i j k m.1 (ground arith)
]

-- A number of the worker below its k-th one is no hit.
pub missed_below :
    (hits : ℕ → Bool) (w i j k : ℕ)
    → Misses hits w i k
    → stripe w i j < stripe w i k
    → hits (stripe w i j) ≡ false
missed_below hits w i j k m h = elim (Bool-cases (ltb j k)) [
  | inl t ↦ missed_before hits w i j k m (ltb→lt j k t)
  | inr f ↦ let r = stripe_mono w i k j (ground arith) in absurd (omega arith)
]

-- Each number is some worker's.
abbrev pub IsCovered : ℕ → ℕ → Type 0
IsCovered w n = (i : ℕ) × (k : ℕ) × (i < w) × (n ≡ stripe w i k)

pub number-IsCovered : (w fuel n : ℕ) → 0 < w → n ≤ fuel → IsCovered w n
number-IsCovered w zero n p h = (n, 0, omega arith, refl)
number-IsCovered w (suc fuel) n p h = elim (Bool-cases (ltb n w)) [
  | inl t ↦ (n, 0, ltb→lt n w t, refl)
  | inr f ↦
      let fits : n - w ≤ fuel = ground arith in
      let c = number-IsCovered w fuel (n - w) p fits in (c.0, suc c.1, c.2, ground arith)
]
