-- ===== src/Scenarios.antt =====
-- The tools around the client on concrete data: a server of pages, a form, the guard of submit_alpha,
-- the channel for feedback, return series over small numbers for floats, and a search by two workers.
use brainapi_go_sdk.Prelude.{
  inl, inr, update, ℕ, zero, suc, ◌+◌, ◌-◌, ◌*◌, ◌/◌, ◌<◌, ◌≤◌, ◌≡◌, ◌⊎◌, refl, true, false, Option,
  none, some, List, [], ◌∷◌, Text, codes, text_lt, to_lower, length, take, drop, leb, ltb, ◌==◌, ℤ,
  pos, pos_part, replicate, arith,
}
use brainapi_go_sdk.World.Monad.{M, ok}
use brainapi_go_sdk.Types.{RegisterInput}
use brainapi_go_sdk.Fixtures.{client, start}
use brainapi_go_sdk.Iterators.{finished, PageOf, paginate_all}
use brainapi_go_sdk.Iterators.Served.{paginate_all-Whole, Pages}
use brainapi_go_sdk.Register.{register, CaptchaSolver}
use brainapi_go_sdk.Mcp.{Gate, SelfCorrelationBlock}
use brainapi_go_sdk.Feedback.{
  Host, Report, Env, FeedbackConfig, done, truncate, file, build_issue, normalize_category,
  draft_url,
}
use brainapi_go_sdk.Feedback.Truncated.{Utf8, end, rune, truncate-Utf8}
use brainapi_go_sdk.Feedback.Filed.{file-Files, Files, is_complete, is_cleared}
use brainapi_go_sdk.Float.{Float64, IsOrdered}
use brainapi_go_sdk.Selfcorr.{
  PnLPoint, ReturnPoint, NeighbourReturns, SelfCorrLocalInput, Calendar, align_loop, keep_finite,
  pnl_to_returns, max_self_corr, score_all, top_count,
}
use brainapi_go_sdk.Selfcorr.Aligned.{align_loop-joined, joined}
use brainapi_go_sdk.Selfcorr.Returns.{
  pnl_to_returns-Rises, Rises, pnl_to_returns-differences, differences,
}
use brainapi_go_sdk.Selfcorr.Ranked.{max_self_corr-IsReport, IsReport}
use brainapi_go_sdk.Altcha.Race.{
  Search, Pc, System, Reach, later, pick, Move, go, match, win, miss, exhaust, head, testing, hit,
  storing, returned, init, Memory,
}
use brainapi_go_sdk.Altcha.Found.{Reach-IsHit, Reach-Exhausts}
use brainapi_go_sdk.Transport.Asked.{Only}
use brainapi_go_sdk.Register.Posted.{register-Registers, Confirms, IsRegistering}

-- Pages of two items of a list of five.
abbrev numbers : List ℕ
numbers = 10 ∷ 11 ∷ 12 ∷ 13 ∷ 14 ∷ []

abbrev fetch_two : ℤ → M (PageOf ℕ)
fetch_two off w = (ok (take 2 (drop (pos_part off) numbers), leb 5 (pos_part off + 2)), w)

serves : Pages numbers fetch_two
serves n w = (1, w, refl)

paginate_all-Whole_example :
    ((paginate_all fetch_two (λ _. none) 10 (pos 1) start).0.items ≡ drop 1 numbers)
    × ((paginate_all fetch_two (λ _. none) 10 (pos 1) start).0.ending ≡ finished)
paginate_all-Whole_example =
    paginate_all-Whole numbers fetch_two (λ _. none) serves (omega arith) (λ _. refl) 10 1 start
      (omega arith) (omega arith)

abbrev form : RegisterInput
form = record {
  email = codes "e";
  auxiliary = record { agree = []; password = codes "p"; confirmation = []; captcha = [] };
  others = [];
}

abbrev solver : CaptchaSolver
solver fetch w = (ok (codes "solved"), w)

register-Registers_example :
    Only
      (IsRegistering client solver form)
      (register client solver (λ t. some t) form start).1.trace
    × Confirms client solver (λ t. some t) form (register client solver (λ t. some t) form start)
register-Registers_example = register-Registers client solver (λ t. some t) form (λ w t. t) start tt

-- A correlation of three tenths.
abbrev decode_block : Text → Option (SelfCorrelationBlock ℕ)
decode_block t = some (record { max = some 3 })

abbrev tenths : Gate ℕ
tenths = record { ge = λ m n. leb n m; seven_tenths = 7 }

-- An a, a dash of three bytes, and a b.
abbrev dashed : Text
dashed = 97 ∷ 0xe2 ∷ 0x80 ∷ 0x94 ∷ 98 ∷ []

dashed-Utf8 : Utf8 dashed
dashed-Utf8 = rune 97 [] (0xe2 ∷ 0x80 ∷ 0x94 ∷ 98 ∷ []) (omega arith) tt (
    rune 0xe2 (0x80 ∷ 0x94 ∷ []) (98 ∷ []) (inr (inl (omega arith, omega arith))) (refl, (refl, tt))
      (rune 98 [] [] (omega arith) tt end))

truncate-Utf8_example :
    Utf8 (truncate dashed 3)
    × (length (truncate dashed 3) ≤ 3)
    × ((truncate dashed 3 ≡ dashed)
        ⊎ ((k : ℕ) × (truncate dashed 3 ≡ take k dashed) × (k ≤ 3) × (3 ≤ k + 3)))
truncate-Utf8_example = truncate-Utf8 dashed 3 dashed-Utf8

abbrev host : Host
host = record {
  lower = to_lower;
  query_encode = λ q. codes "q";
  marshal = λ t b. done t;
  post = λ r. done (record { status = 201; body = codes "{}" });
  unmarshal = λ b. done (pos 7, codes "https://h/7");
}

abbrev report : Report
report = record {
  title = codes "t";
  body = codes "b";
  category = codes "docs";
  surface = codes "cli";
}

abbrev build : Env
build = record {
  version = codes "v1";
  commit = [];
  os = codes "linux";
  arch = codes "amd64";
  go = codes "go1";
}

abbrev repo : FeedbackConfig
repo = record { repo = codes "o/r"; token = codes "x"; api_base = [] }

file-Files_example :
    Files
      (is_complete report)
      (is_cleared repo true)
      (draft_url host
        (codes "o/r")
        (build_issue host report build)
        (normalize_category host (codes "docs")))
      (file host report build repo true)
file-Files_example = file-Files host report build repo true

-- Small numbers for floats; 99 stands for what is not finite.
abbrev pub small : Float64 ℕ
small = record {
  zero_f = 0;
  of_int = λ n. n;
  add = λ x y. x + y;
  sub = λ x y. x - y;
  mul = λ x y. x * y;
  mul_add = λ z x y. z + x * y;
  div = λ x y. x / y;
  sqrt = λ x. x;
  abs = λ x. x;
  gt = λ x y. ltb y x;
  is_zero = λ x. x == 0;
  is_finite = λ x. ltb x 99;
}

small-IsOrdered : IsOrdered small
small-IsOrdered = record {
  zero_finite = refl;
  abs_finite = λ x h. h;
  gt_asym = λ x y h. ground arith;
  gt_negtrans = λ x y z f g h. ground arith;
}

abbrev on_day : ℕ → ℕ → ReturnPoint ℕ
on_day d r = record { date = d ∷ []; ret = r }

abbrev some_days : List (ReturnPoint ℕ)
some_days = on_day 1 5 ∷ on_day 3 6 ∷ []

abbrev other_days : List (ReturnPoint ℕ)
other_days = on_day 2 7 ∷ on_day 3 8 ∷ []

align_loop-joined_example : align_loop some_days other_days ≡ joined some_days other_days
unfolding text_lt
align_loop-joined_example =
    align_loop-joined some_days other_days ((refl, tt), (tt, tt)) ((refl, tt), (tt, tt))

abbrev pub calendar : Calendar ℕ
calendar = record { sort = λ less ps. ps; cutoff = λ d n. none }

abbrev series : List (PnLPoint ℕ)
series =
    record { date = 1 ∷ []; value = 5 }
    ∷ record { date = 2 ∷ []; value = 99 }
    ∷ record { date = 3 ∷ []; value = 9 }
    ∷ []

pnl_to_returns-differences_example :
    pnl_to_returns small calendar series ≡ differences small (keep_finite small series)
pnl_to_returns-differences_example = pnl_to_returns-differences small calendar series refl

pnl_to_returns-Rises_example : Rises small (pnl_to_returns small calendar series)
unfolding text_lt
pnl_to_returns-Rises_example =
    pnl_to_returns-Rises small calendar series ((refl, (refl, tt)), ((refl, tt), (tt, tt)))

-- Thirty days of one return.
abbrev month : List (ReturnPoint ℕ)
month = replicate 30 (on_day 1 5)

abbrev rivals : List (NeighbourReturns ℕ)
rivals = record { id = codes "a"; returns = month } ∷ record { id = codes "b"; returns = [] } ∷ []

max_self_corr-IsReport_example :
    IsReport small
      (top_count small (pos 0))
      2
      (score_all small month rivals).0
      (max_self_corr small month rivals (pos 0))
max_self_corr-IsReport_example =
    max_self_corr-IsReport small small-IsOrdered month rivals (pos 0) (omega arith)

abbrev scored_input : SelfCorrLocalInput ℕ
scored_input = record {
  candidate = record { id = codes "a"; records = series };
  neighbours =
      record { id = codes "a"; records = series }
      ∷ record { id = codes "b"; records = series }
      ∷ [];
}

-- One worker over the numbers 0 and 1, where 1 is the hit.
abbrev search_one : Search
search_one = record { max = 1; workers = 1; hits = λ n. n == 1 }

taken :
    {q : Search} {s : System} {m : Memory} {p : Pc}
    → Reach q s
    → 0 < q.workers
    → Move q s.mem (s.pc 0) m p
    → Reach q (record { mem = m; pc = update s.pc 0 p })
taken r l v = later r (pick 0 l v)

abbrev found_one : Memory
found_one = record { found = some 1; stop = false; cancelled = false }

wins : Reach search_one (record {
  mem = found_one;
  pc =
      update
        (update (update (update (update init.pc 0 (testing 0)) 0 (head 1)) 0 (testing 1)) 0 (hit 1))
        0
        storing;
})
wins =
    taken
      (taken
        (taken (taken (taken Reach.start (omega arith) (go refl refl)) (omega arith) (miss refl))
          (omega arith) (go refl refl))
        (omega arith) (match refl))
      (omega arith) (win refl)

Reach-IsHit_example : (1 ≤ search_one.max) × (search_one.hits 1 ≡ true)
Reach-IsHit_example = Reach-IsHit search_one 1 (omega arith) wins refl

-- One worker over the number 0, which is no hit.
abbrev search_none : Search
search_none = record { max = 0; workers = 1; hits = λ n. false }

abbrev exhausted : System
exhausted = record {
  mem = init.mem;
  pc = update (update (update init.pc 0 (testing 0)) 0 (head 1)) 0 returned;
}

exhausts : Reach search_none exhausted
exhausts =
    taken (taken (taken Reach.start (omega arith) (go refl refl)) (omega arith) (miss refl))
      (omega arith) (exhaust refl)

all_returned : (i : ℕ) → i < 1 → exhausted.pc i ≡ returned
all_returned zero h = refl
all_returned (suc i) h = absurd (omega arith)

Reach-Exhausts_example : search_none.hits 0 ≡ false
Reach-Exhausts_example =
    Reach-Exhausts search_none {s = exhausted} 0 (omega arith) (omega arith) exhausts all_returned
      refl refl (omega arith)
