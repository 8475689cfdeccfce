-- ===== src/Client/Budgets.antt =====
-- pkg/brainapi/client.go: the daily budget.

pub mod Batch
pub mod Day
use brainapi_go_sdk.Prelude.{
  ℕ, ◌+◌, ◌*◌, ◌&&◌, Option, none, some, Text, text_eq, ℤ, pos, ltb_ℤ, leb_ℤ, leb, if◌then◌else◌,
  ◌-ℤ◌,
}
use brainapi_go_sdk.Errors.{Error, err_daily_budget_exhausted}
use brainapi_go_sdk.Retry.{second}
use brainapi_go_sdk.Runtime.{Library}
use brainapi_go_sdk.World.{Budget, World}
use brainapi_go_sdk.World.Monad.{M, Outcome, ok, err, with_state}
use brainapi_go_sdk.Client.{Config, Setup}

-- The kind argument: "sim", "submit", or another text.
pub data BudgetKind : Type 0 where
  sim submit other_kind : BudgetKind

-- now.UTC().Add(-4 * time.Hour).Format("2006-01-02")
unfoldable pub challenge_day_str : Library → ℤ → Text
challenge_day_str lib now = lib.format_day (now -ℤ pos (4 * 3600 * second))

-- The counters start again on another day.
unfoldable pub roll_over : Text → Budget → Budget
roll_over day b = if text_eq b.day day then b else record { day = day; sims = 0; subs = 0 }

-- The `case`s: the gate, then the increment.
unfoldable pub spend : Config → BudgetKind → Budget → Option Error × Budget
spend c sim b =
    if ltb_ℤ (pos 0) c.budget_sims && leb_ℤ c.budget_sims (pos b.sims)
    then (some err_daily_budget_exhausted, b)
    else (none, record b { sims = b.sims + 1 })
spend c submit b =
    if ltb_ℤ (pos 0) c.budget_submits && leb_ℤ c.budget_submits (pos b.subs)
    then (some err_daily_budget_exhausted, b)
    else (none, record b { subs = b.subs + 1 })
spend c other_kind b = (none, b)

unfoldable pub spend_n : Config → BudgetKind → ℕ → Budget → Option Error × Budget
spend_n c sim n b =
    if ltb_ℤ (pos 0) c.budget_sims && ltb_ℤ c.budget_sims (pos (b.sims + n))
    then (some err_daily_budget_exhausted, b)
    else (none, record b { sims = b.sims + n })
spend_n c submit n b =
    if ltb_ℤ (pos 0) c.budget_submits && ltb_ℤ c.budget_submits (pos (b.subs + n))
    then (some err_daily_budget_exhausted, b)
    else (none, record b { subs = b.subs + n })
spend_n c other_kind n b = (none, b)

-- checkBudget on a day: the section under budgetMu.
unfoldable pub check_budget_on : Config → Text → BudgetKind → Budget → Option Error × Budget
check_budget_on c day k b = spend c k (roll_over day b)

-- checkBudgetN on a day; n is a number of requests.
unfoldable pub check_budget_n_on : Config → Text → BudgetKind → ℕ → Budget → Option Error × Budget
unfolding check_budget_on
check_budget_n_on c day k n b =
    if leb n 1 then check_budget_on c day k b else spend_n c k n (roll_over day b)

abbrev pub charge : World → Option Error × Budget → Outcome (Unit {0}) × World
charge w (none, b) = (ok tt, with_state w (record (w.state) { budget = b }))
charge w (some e, b) = (err e, with_state w (record (w.state) { budget = b }))

unfoldable pub check_budget : Setup → BudgetKind → M (Unit {0})
unfolding check_budget_on challenge_day_str
check_budget c k w =
    charge w
      (check_budget_on c.config (challenge_day_str c.library (c.now w.tick)) k w.state.budget)

unfoldable pub check_budget_n : Setup → BudgetKind → ℕ → M (Unit {0})
unfolding check_budget_n_on challenge_day_str
check_budget_n c k n w =
    charge w
      (check_budget_n_on c.config (challenge_day_str c.library (c.now w.tick)) k n w.state.budget)
