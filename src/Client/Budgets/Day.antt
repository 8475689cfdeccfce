-- ===== src/Client/Budgets/Day.antt =====
-- What the daily budget admits in the course of a day.
use brainapi_go_sdk.Prelude.{
  ◌||◌, Bool, ℤ, ◌∙◌, subst, ℕ, zero, suc, ◌+◌, ◌≡◌, true, Option, none, some, Text, text_eq, pos,
  leb_ℤ, arith, List, [], ◌∷◌,
}
use brainapi_go_sdk.Errors.{Error}
use brainapi_go_sdk.World.{Budget}
use brainapi_go_sdk.Client.{Config}
use brainapi_go_sdk.Client.Budgets.{
  BudgetKind, sim, submit, other_kind, roll_over, spend, spend_n, check_budget_n_on,
}

-- A limit that is set is not passed.
abbrev pub is_within : ℤ → ℕ → Bool
is_within limit n = leb_ℤ limit (pos 0) || leb_ℤ (pos n) limit

-- Both counters are within their limits.
pub record IsWithin (c : Config) (b : Budget) : Type 0 where
  pub sims : is_within c.budget_sims b.sims ≡ true
  pub submits : is_within c.budget_submits b.subs ≡ true

-- One call of checkBudgetN (with 1, of checkBudget).
pub record Charge : Type 0 where
  pub kind : BudgetKind
  pub units : ℕ

-- The calls of one day, in the order in which they take the lock: the units of simulations that were
-- admitted, and the counters after them.
abbrev units_of : BudgetKind → ℕ → ℕ
units_of sim n = n
units_of submit n = 0
units_of other_kind n = 0

abbrev at_least_one : ℕ → ℕ
at_least_one zero = 1
at_least_one (suc n) = suc n

abbrev admitted : Charge → Option Error → ℕ
admitted q none = units_of q.kind (at_least_one q.units)
admitted q (some e) = 0

pub admitted_sims : Config → Text → List Charge → Budget → ℕ
admitted_sims c day [] b = 0
admitted_sims c day (q ∷ qs) b =
    admitted q (check_budget_n_on c day q.kind q.units b).0
    + admitted_sims c day qs (check_budget_n_on c day q.kind q.units b).1

pub after_day : Config → Text → List Charge → Budget → Budget
after_day c day [] b = b
after_day c day (q ∷ qs) b = after_day c day qs (check_budget_n_on c day q.kind q.units b).1

charge-IsWithin :
    (c : Config) (day : Text) (k : BudgetKind) (n : ℕ) (b : Budget)
    → IsWithin c b
    → IsWithin c (check_budget_n_on c day k n b).1
unfolding check_budget_n_on roll_over spend spend_n
charge-IsWithin c day sim n b h = ground arith
charge-IsWithin c day submit n b h = ground arith
charge-IsWithin c day other_kind n b h = ground arith

after_day-IsWithin :
    (c : Config) (day : Text) (qs : List Charge) (b : Budget)
    → IsWithin c b
    → IsWithin c (after_day c day qs b)
unfolding after_day
after_day-IsWithin c day [] b h = h
after_day-IsWithin c day (q ∷ qs) b h =
    after_day-IsWithin c day qs _ (charge-IsWithin c day q.kind q.units b h)

charge_counts :
    (c : Config) (day : Text) (k : BudgetKind) (n : ℕ) (b : Budget)
    → text_eq b.day day ≡ true
    → ((check_budget_n_on c day k n b).1.sims
        ≡ b.sims + admitted (record { kind = k; units = n }) (check_budget_n_on c day k n b).0)
      × (text_eq (check_budget_n_on c day k n b).1.day day ≡ true)
unfolding check_budget_n_on roll_over spend spend_n
charge_counts c day sim zero b h = ground arith
charge_counts c day sim (suc n) b h = ground arith
charge_counts c day submit n b h = ground arith
charge_counts c day other_kind n b h = ground arith

after_day_counts :
    (c : Config) (day : Text) (qs : List Charge) (b : Budget)
    → text_eq b.day day ≡ true
    → (after_day c day qs b).sims ≡ b.sims + admitted_sims c day qs b
unfolding after_day admitted_sims
after_day_counts c day [] b h = omega arith
after_day_counts c day (q ∷ qs) b h =
    let k = charge_counts c day q.kind q.units b h in
    after_day_counts c day qs (check_budget_n_on c day q.kind q.units b).1 k.1 ∙ omega (arith, k.0)

-- However calls of checkBudget and checkBudgetN follow one another on a day, from counters of that
-- day within their limits, both counters stay within them, and a limit on simulations that is set
-- bounds the simulations admitted together with those counted before.
pub admitted_le :
    (c : Config) (day : Text) (qs : List Charge) (b : Budget)
    → text_eq b.day day ≡ true
    → IsWithin c b
    → IsWithin c (after_day c day qs b)
      × (is_within c.budget_sims (b.sims + admitted_sims c day qs b) ≡ true)
admitted_le c day qs b same h =
    let w = after_day-IsWithin c day qs b h in
    (w, subst (λ n. is_within c.budget_sims n ≡ true) (after_day_counts c day qs b same) w.sims)
