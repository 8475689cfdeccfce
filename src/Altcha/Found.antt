-- ===== src/Altcha/Found.antt =====
-- What the race of the workers comes to.
use brainapi_go_sdk.Prelude.{
  ℕ, ◌+◌, ◌^◌, ◌<◌, ◌≤◌, ◌≡◌, inl, inr, true, false, none, some, arith, subst, ap, ◌∙◌,
}
use brainapi_go_sdk.Altcha.Race.{Memory, returned, Search, System, Reach}
use brainapi_go_sdk.Altcha.Stripes.{stripe, missed_below, number-IsCovered}
use brainapi_go_sdk.Altcha.Invariant.{IsSome, IsHit, HasEnded, IsSound, Reach-IsSafe}

-- In every interleaving of the workers of Solve, with maxNumber and the number of workers below
-- 2^63 together, a number that was found lies in the range and solves the challenge.
pub Reach-IsHit :
    (q : Search) {s : System} (n : ℕ)
    → q.max + q.workers < 2 ^ 63
    → Reach q s
    → s.mem.found ≡ some n
    → (n ≤ q.max) × (q.hits n ≡ true)
Reach-IsHit q n f r e = subst (IsHit q) e (Reach-IsSafe q f r).consistent.good

ended-missed :
    (q : Search) (m : Memory) (n : ℕ) (i : ℕ) (k : ℕ)
    → m.cancelled ≡ false
    → m.found ≡ none
    → n ≤ q.max
    → n ≡ stripe q.workers i k
    → HasEnded q i m
    → q.hits n ≡ false
ended-missed q m n i k c e l a (inl x) = absurd (ground arith)
ended-missed q m n i k c e l a (inr (inl y)) = absurd (subst IsSome e y)
ended-missed q m n i k c e l a (inr (inr (x, g, (j, b, ms)))) =
    ap q.hits a ∙ missed_below q.hits q.workers i k j ms (omega arith)

-- In every interleaving of the workers of Solve with the context and its watcher, once all of at
-- least one worker have returned, the context is not done and no number was found, no number from
-- 0 to maxNumber solves the challenge. The numbers stay in int64: maxNumber and the number of
-- workers add up to less than 2^63.
pub Reach-Exhausts :
    (q : Search) {s : System} (n : ℕ)
    → q.max + q.workers < 2 ^ 63
    → 0 < q.workers
    → Reach q s
    → ((i : ℕ) → i < q.workers → s.pc i ≡ returned)
    → s.mem.cancelled ≡ false
    → s.mem.found ≡ none
    → n ≤ q.max
    → q.hits n ≡ false
Reach-Exhausts q {s} n f p r all c e l =
    let (i, k, b, a) = number-IsCovered q.workers n n p (omega arith) in
    ended-missed q s.mem n i k c e l a
      (subst (IsSound q i s.mem) (all i b) ((Reach-IsSafe q f r).sound i b))
