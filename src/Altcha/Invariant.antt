-- ===== src/Altcha/Invariant.antt =====
-- The invariant of the race of the workers.
use brainapi_go_sdk.Prelude.{
  update, ℕ, suc, ◌+◌, ◌^◌, ◌<◌, ◌≤◌, ◌≡◌, ◌⊎◌, inl, inr, refl, true, false, Option, none, some,
  arith, ◌==◌, sym, subst, ap, ◌∙◌, if_elim, ==_iff,
}
use brainapi_go_sdk.Altcha.Race.{
  Memory, Pc, head, testing, hit, storing, returned, Search, at_most, advance, Move, exhaust, halt,
  go, miss, match, win, lose, store, System, Step, pick, cancel, watch, init, Reach, start, later,
}
use brainapi_go_sdk.Altcha.Stripes.{stripe, Misses}

abbrev pub IsSome : Option ℕ → Type 0
IsSome none = ⊥
IsSome (some n) = Unit {0}

-- A number that was found is a hit in range.
abbrev pub IsHit : Search → Option ℕ → Type 0
IsHit q none = Unit {0}
IsHit q (some n) = (n ≤ q.max) × (q.hits n ≡ true)

-- The numbers stay in int64.
abbrev pub Fits : Search → Type 0
Fits q = q.max + q.workers < 2 ^ 63

-- The k-th number of worker i, with no hit before it.
abbrev pub IsAt : Search → ℕ → ℕ → Type 0
IsAt q i n = (k : ℕ) × (n ≡ stripe q.workers i k) × Misses q.hits q.workers i k

-- Why a worker has returned.
abbrev pub HasEnded : Search → ℕ → Memory → Type 0
HasEnded q i m = (m.cancelled ≡ true) ⊎ IsSome m.found ⊎ ((n : ℕ) × (q.max < n) × IsAt q i n)

abbrev pub IsSound : Search → ℕ → Memory → Pc → Type 0
IsSound q i m (head n) = (n ≤ q.max + q.workers) × IsAt q i n
IsSound q i m (testing n) = (n ≤ q.max) × IsAt q i n
IsSound q i m (hit n) = (n ≤ q.max) × (q.hits n ≡ true)
IsSound q i m storing = IsSome m.found
IsSound q i m returned = HasEnded q i m

pub record IsConsistent (q : Search) (m : Memory) : Type 0 where
  pub good : IsHit q m.found
  pub why : (m.stop ≡ false) ⊎ (m.cancelled ≡ true) ⊎ IsSome m.found

-- What one step keeps for the other workers.
record Grows (m m' : Memory) : Type 0 where
  keeps_found : IsSome m.found → IsSome m'.found
  keeps_cancelled : m.cancelled ≡ true → m'.cancelled ≡ true

record After (q : Search) (i : ℕ) (m m' : Memory) (p : Pc) : Type 0 where
  consistent : IsConsistent q m'
  grows : Grows m m'
  sound : IsSound q i m' p

pub in_range : (n max : ℕ) → max < 2 ^ 63 → at_most n max ≡ true → n < 2 ^ 63 → n ≤ max
in_range n max f h l = ground arith

out_of_range : (n max : ℕ) → at_most n max ≡ false → max < n
out_of_range n max h = ground arith

pub advance_lem : (n w : ℕ) → n + w < 2 ^ 63 → advance n w ≡ n + w
advance_lem n w h = omega arith

stopped : (q : Search) (i : ℕ) (m : Memory) → IsConsistent q m → m.stop ≡ true → HasEnded q i m
stopped q i m c e = elim c.why [
  | inl f ↦ absurd (ground arith)
  | inr (inl x) ↦ inl x
  | inr (inr y) ↦ inr (inl y)
]

missed :
    (q : Search) (i n : ℕ)
    → Fits q
    → q.hits n ≡ false
    → n ≤ q.max
    → IsAt q i n
    → (advance n q.workers ≤ q.max + q.workers) × IsAt q i (advance n q.workers)
missed q i n f h l (k, e, ms) =
    let a = advance_lem n q.workers (omega arith) in
    (omega arith, (suc k, a ∙ ap (λ x. x + q.workers) e, (subst (λ x. q.hits x ≡ false) e h, ms)))

same : (m : Memory) → Grows m m
same m = record { keeps_found = λ s. s; keeps_cancelled = λ s. s }

Move-After :
    (q : Search) (i : ℕ) (m m' : Memory) (p p' : Pc)
    → Fits q
    → Move q m p m' p'
    → IsConsistent q m
    → IsSound q i m p
    → After q i m m' p'
Move-After q i m m' p p' f (exhaust {n} h) c s = record {
  consistent = c;
  grows = same m;
  sound = inr (inr (n, out_of_range n q.max h, s.1));
}
Move-After q i m m' p p' f (halt h e) c s = record {
  consistent = c;
  grows = same m;
  sound = stopped q i m c e;
}
Move-After q i m m' p p' f (go {n} h e) c s = record {
  consistent = c;
  grows = same m;
  sound = (in_range n q.max (omega arith) h (omega arith), s.1);
}
Move-After q i m m' p p' f (miss {n} h) c s = record {
  consistent = c;
  grows = same m;
  sound = missed q i n f h s.0 s.1;
}
Move-After q i m m' p p' f (match {n} h) c s = record {
  consistent = c;
  grows = same m;
  sound = (s.0, h);
}
Move-After q i m m' p p' f (win {n} h) c s = record {
  consistent = record { good = s; why = inr (inr tt) };
  grows = record { keeps_found = λ _. tt; keeps_cancelled = λ e. e };
  sound = tt;
}
Move-After q i m m' p p' f (lose {n} {k} h) c s = record {
  consistent = c;
  grows = same m;
  sound = inr (inl (subst IsSome (sym h) tt));
}
Move-After q i m m' p p' f store c s = record {
  consistent = record { good = c.good; why = inr (inr s) };
  grows = record { keeps_found = λ x. x; keeps_cancelled = λ e. e };
  sound = inr (inl s);
}

Grows-IsSound :
    (q : Search) (i : ℕ) (m m' : Memory) (p : Pc) → Grows m m' → IsSound q i m p → IsSound q i m' p
Grows-IsSound q i m m' (head n) g s = s
Grows-IsSound q i m m' (testing n) g s = s
Grows-IsSound q i m m' (hit n) g s = s
Grows-IsSound q i m m' storing g s = g.keeps_found s
Grows-IsSound q i m m' returned g (inl e) = inl (g.keeps_cancelled e)
Grows-IsSound q i m m' returned g (inr (inl y)) = inr (inl (g.keeps_found y))
Grows-IsSound q i m m' returned g (inr (inr x)) = inr (inr x)

-- The invariant of the race.
pub record IsSafe (q : Search) (s : System) : Type 0 where
  pub consistent : IsConsistent q s.mem
  pub sound : (i : ℕ) → i < q.workers → IsSound q i s.mem (s.pc i)

init-IsSafe : (q : Search) → IsSafe q init
init-IsSafe q = record {
  consistent = record { good = tt; why = inl refl };
  sound = λ i l. (omega arith, (0, refl, tt));
}

module _ (q : Search) (s : System) (h : IsSafe q s) where
  picked-IsSafe :
      (i : ℕ) (m : Memory) (p : Pc)
      → After q i s.mem m p
      → IsSafe q (record { mem = m; pc = update s.pc i p })
  picked-IsSafe i m p a = record {
    consistent = a.consistent;
    sound = λ j l.
        if_elim (IsSound q j m) (j == i) p (s.pc j)
          (λ e. subst (λ x. IsSound q x m p) (sym ((==_iff j i).0 e)) a.sound)
          (λ _. Grows-IsSound q j s.mem m (s.pc j) a.grows (h.sound j l));
  }

  outside-IsSafe : (m : Memory) → IsConsistent q m → Grows s.mem m → IsSafe q (record s { mem = m })
  outside-IsSafe m c g = record {
    consistent = c;
    sound = λ j l. Grows-IsSound q j s.mem m (s.pc j) g (h.sound j l);
  }

Step-IsSafe : (q : Search) (s t : System) → Fits q → Step q s t → IsSafe q s → IsSafe q t
Step-IsSafe q s t f (pick i {m} {p} l v) h =
    picked-IsSafe q s h i m p (Move-After q i s.mem m (s.pc i) p f v h.consistent (h.sound i l))
Step-IsSafe q s t f cancel h =
    outside-IsSafe q s h (record (s.mem) { cancelled = true })
      (record { good = h.consistent.good; why = inr (inl refl) })
      (record { keeps_found = λ x. x; keeps_cancelled = λ _. refl })
Step-IsSafe q s t f (watch e) h =
    outside-IsSafe q s h (record (s.mem) { stop = true })
      (record { good = h.consistent.good; why = inr (inl e) })
      (record { keeps_found = λ x. x; keeps_cancelled = λ x. x })

pub Reach-IsSafe : (q : Search) {s : System} → Fits q → Reach q s → IsSafe q s
Reach-IsSafe q f start = init-IsSafe q
Reach-IsSafe q f (later {s} {t} r d) = Step-IsSafe q s t f d (Reach-IsSafe q f r)
