-- ===== src/Altcha/Race.antt =====
-- pkg/captcha/altcha/solver.go: the workers of Solve and the watcher of its context, interleaved in any
-- order. A number is an int64 in two's complement.
use brainapi_go_sdk.Prelude.{
  update, ℕ, ◌+◌, ◌%◌, ◌^◌, ◌<◌, ◌≡◌, Bool, true, false, ◌||◌, Option, none, some, leb,
}

-- found (-1 is `none`), stop, and whether the context is done.
pub record Memory : Type 0 where
  pub found : Option ℕ
  pub stop : Bool
  pub cancelled : Bool

-- Where a worker stands.
pub data Pc : Type 0 where
  head : (n : ℕ) → Pc  -- at the test of the loop
  testing : (n : ℕ) → Pc  -- behind stop.Load()
  hit : (n : ℕ) → Pc  -- before the compare-and-swap
  storing : Pc  -- before stop.Store(true)
  returned : Pc

-- The search: the numbers from 0 to max, by the test of one.
pub record Search : Type 0 where
  pub max : ℕ
  pub workers : ℕ
  pub hits : ℕ → Bool

-- n <= ch.MaxNumber
abbrev pub at_most : ℕ → ℕ → Bool
at_most n max = leb (2 ^ 63) n || leb n max

-- n += step
abbrev pub advance : ℕ → ℕ → ℕ
advance n step = (n + step) % 2 ^ 64

-- One step of one worker.
pub data Move (q : Search) (m : Memory) : Pc → Memory → Pc → Type 0 where
  exhaust : {n : ℕ} → at_most n q.max ≡ false → Move q m (head n) m returned
  halt : {n : ℕ} → at_most n q.max ≡ true → m.stop ≡ true → Move q m (head n) m returned
  go : {n : ℕ} → at_most n q.max ≡ true → m.stop ≡ false → Move q m (head n) m (testing n)
  miss : {n : ℕ} → q.hits n ≡ false → Move q m (testing n) m (head (advance n q.workers))
  match : {n : ℕ} → q.hits n ≡ true → Move q m (testing n) m (hit n)
  win : {n : ℕ} → m.found ≡ none → Move q m (hit n) (record m { found = some n }) storing
  lose : {n k : ℕ} → m.found ≡ some k → Move q m (hit n) m returned
  store : Move q m storing (record m { stop = true }) returned

pub record System : Type 0 where
  pub mem : Memory
  pub pc : ℕ → Pc

-- A step of a worker, the end of the context, or the watcher that sees it.
pub data Step (q : Search) (s : System) : System → Type 0 where
  pick :
      (i : ℕ) {m : Memory} {p : Pc}
      → i < q.workers
      → Move q s.mem (s.pc i) m p
      → Step q s (record { mem = m; pc = update s.pc i p })
  cancel : Step q s (record s { mem = record (s.mem) { cancelled = true } })
  watch : s.mem.cancelled ≡ true → Step q s (record s { mem = record (s.mem) { stop = true } })

abbrev pub init : System
init = record { mem = record { found = none; stop = false; cancelled = false }; pc = λ i. head i }

pub data Reach (q : Search) : System → Type 0 where
  start : Reach q init
  later : {s t : System} → Reach q s → Step q s t → Reach q t
