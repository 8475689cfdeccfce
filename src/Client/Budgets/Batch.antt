-- ===== src/Client/Budgets/Batch.antt =====
-- checkBudgetN against as many calls of checkBudget.
use brainapi_go_sdk.Prelude.{
  ℕ, zero, suc, ◌+◌, ◌≡◌, true, Option, none, some, Text, text_eq, arith, text_eq_refl,
}
use brainapi_go_sdk.Errors.{Error}
use brainapi_go_sdk.World.{Budget}
use brainapi_go_sdk.Client.{Config}
use brainapi_go_sdk.Client.Budgets.{
  check_budget_n_on, BudgetKind, sim, submit, other_kind, roll_over, spend, spend_n,
  check_budget_on,
}

abbrev unless_refused :
    Option Error × Budget → (Budget → Option Error × Budget) → Option Error × Budget
unless_refused (none, b) next = next b
unless_refused (some e, b) next = (some e, b)

-- n calls of checkBudget on one day, up to the first that is refused.
pub check_each : Config → Text → BudgetKind → ℕ → Budget → Option Error × Budget
check_each c day k zero b = (none, b)
check_each c day k (suc n) b = unless_refused (check_budget_on c day k b) (check_each c day k n)

abbrev SameDay : Text → Budget → Type 0
SameDay day b = text_eq b.day day ≡ true

roll_over-SameDay : (day : Text) (b : Budget) → SameDay day (roll_over day b)
unfolding roll_over
roll_over-SameDay day b = ground (arith, text_eq_refl day)

-- The refusals agree, an admitted batch counts the same, and a refused one changes nothing.
abbrev pub Agrees : Budget → Option Error × Budget → Option Error × Budget → Type 0
Agrees b (none, x) r = r ≡ (none, x)
Agrees b (some e, x) r = (x ≡ b) × (r.0 ≡ some e)

module _ (c : Config) (day : Text) where
  each_sims :
      (n : ℕ) (b : Budget)
      → SameDay day b
      → Agrees b (spend_n c sim (suc n) b) (check_each c day sim (suc n) b)
  unfolding check_each check_budget_on roll_over spend spend_n
  each_sims zero b h = ground arith
  each_sims (suc n) b h = ground (arith, each_sims n (record b { sims = b.sims + 1 }) h)

  each_submits :
      (n : ℕ) (b : Budget)
      → SameDay day b
      → Agrees b (spend_n c submit (suc n) b) (check_each c day submit (suc n) b)
  unfolding check_each check_budget_on roll_over spend spend_n
  each_submits zero b h = ground arith
  each_submits (suc n) b h = ground (arith, each_submits n (record b { subs = b.subs + 1 }) h)

  each_others :
      (n : ℕ) (b : Budget)
      → SameDay day b
      → Agrees b (spend_n c other_kind (suc n) b) (check_each c day other_kind (suc n) b)
  unfolding check_each check_budget_on roll_over spend spend_n
  each_others zero b h = ground arith
  each_others (suc n) b h = ground (arith, each_others n b h)

  each-Agrees :
      (k : BudgetKind) (n : ℕ) (b : Budget)
      → SameDay day b
      → Agrees b (spend_n c k (suc n) b) (check_each c day k (suc n) b)
  each-Agrees sim = each_sims
  each-Agrees submit = each_submits
  each-Agrees other_kind = each_others

  each_rolled :
      (k : BudgetKind) (n : ℕ) (b : Budget)
      → check_each c day k (suc n) b ≡ check_each c day k (suc n) (roll_over day b)
  unfolding check_each check_budget_on roll_over
  each_rolled k n b = ground (arith, text_eq_refl day)

  batch_lem :
      (k : BudgetKind) (n : ℕ) (b : Budget)
      → check_budget_n_on c day k (suc (suc n)) b ≡ spend_n c k (suc (suc n)) (roll_over day b)
  unfolding check_budget_n_on
  batch_lem k n b = ground arith

  -- checkBudgetN for two or more units admits a batch exactly when as many calls of checkBudget in
  -- a row would all be admitted, and then counts the same; a refused batch gives the same error
  -- and counts nothing: the counters are those after the rollover of the day.
  pub check_budget_n-each :
      (k : BudgetKind) (n : ℕ) (b : Budget)
      → Agrees
          (roll_over day b)
          (check_budget_n_on c day k (suc (suc n)) b)
          (check_each c day k (suc (suc n)) b)
  check_budget_n-each k n b =
      rw (batch_lem k n b, each_rolled k (suc n) b)
        (each-Agrees k (suc n) (roll_over day b) (roll_over-SameDay day b))
