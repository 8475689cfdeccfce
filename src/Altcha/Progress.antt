-- ===== src/Altcha/Progress.antt =====
-- How far a worker is from its return.
use brainapi_go_sdk.Prelude.{ℕ, zero, suc, ◌+◌, ◌-◌, ◌*◌, ◌^◌, ◌<◌, ◌≡◌, arith}
use brainapi_go_sdk.Altcha.Race.{
  Memory, Pc, head, testing, hit, storing, returned, Search, Move, exhaust, halt, go, miss, match,
  win, lose, store, System, Reach, Step,
}
use brainapi_go_sdk.Altcha.Invariant.{IsSound, Reach-IsSafe, advance_lem}

-- A bound on the steps before the return.
abbrev pub rank : Search → Pc → ℕ
rank q (head n) = 2 * (q.max + 1 - n) + 3
rank q (testing n) = 2 * (q.max + 1 - n) + 2
rank q (hit n) = 2
rank q storing = 1
rank q returned = 0

sound-rank :
    (q : Search) (i : ℕ) (m m' : Memory) (p p' : Pc)
    → q.max + q.workers < 2 ^ 63
    → 0 < q.workers
    → Move q m p m' p'
    → IsSound q i m p
    → rank q p' < rank q p
sound-rank q i m m' p p' f w (exhaust h) s = omega arith
sound-rank q i m m' p p' f w (halt h e) s = omega arith
sound-rank q i m m' p p' f w (go {n} h e) s = omega arith
sound-rank q i m m' p p' f w (miss {n} h) s = omega (arith, advance_lem n q.workers (omega arith))
sound-rank q i m m' p p' f w (match {n} h) s = omega arith
sound-rank q i m m' p p' f w (win h) s = omega arith
sound-rank q i m m' p p' f w (lose h) s = omega arith
sound-rank q i m m' p p' f w store s = omega arith

-- Each step of a worker in a state that the race can reach, with at least one worker and numbers
-- that stay in int64, brings that worker nearer to its return: its rank, a bound on the steps
-- before the return, gets smaller.
pub Move-rank :
    (q : Search) {s : System} {i : ℕ} {m : Memory} {p : Pc}
    → q.max + q.workers < 2 ^ 63
    → 0 < q.workers
    → Reach q s
    → i < q.workers
    → Move q s.mem (s.pc i) m p
    → rank q p < rank q (s.pc i)
Move-rank q {s} {i} {m} {p} f w r l v =
    sound-rank q i s.mem m (s.pc i) p f w v ((Reach-IsSafe q f r).sound i l)

-- The workers below k have returned.
abbrev pub AllReturned : System → ℕ → Type 0
AllReturned s zero = Unit {0}
AllReturned s (suc k) = (s.pc k ≡ returned) × AllReturned s k

-- Steps that follow one another.
pub data Run (q : Search) (s : System) : System → Type 0 where
  here : Run q s s
  then_step : {t u : System} → Run q s t → Step q t u → Run q s u

-- A run by one worker to its return.
record Returns (q : Search) (i : ℕ) (s t : System) : Type 0 where
  run : Run q s t
  ended : t.pc i ≡ returned
  others : (j : ℕ) → s.pc j ≡ returned → t.pc j ≡ returned
