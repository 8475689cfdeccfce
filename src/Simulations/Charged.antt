-- ===== src/Simulations/Charged.antt =====
-- What creating simulations takes from the daily budget.
use brainapi_go_sdk.Prelude.{length, List, arith, Option, ◌≡◌, Text, none, some, refl, ◌∙◌}
use brainapi_go_sdk.World.Monad.{continue, M, continue-keeps}
use brainapi_go_sdk.Transport.Reach.{perform-Steps, Steps-Keeps}
use brainapi_go_sdk.Client.{Setup}
use brainapi_go_sdk.Simulations.{
  validate_multi_sim_homogeneous, CreateSimulationResult, create_request, reserve_sim_slot,
  accept_created, create_multi_simulation, post_simulations,
}
use brainapi_go_sdk.World.{Budget, World}
use brainapi_go_sdk.Types.{simulations, SimulationRequest, Payload, RawResponse}
use brainapi_go_sdk.Client.Budgets.{
  charge, sim, check_budget_n_on, challenge_day_str, check_budget_n,
}
use brainapi_go_sdk.Errors.{Error}
use brainapi_go_sdk.Transport.Do.{perform}

accepted_budget :
    (c : Setup) (resp : RawResponse) (w : World)
    → (accept_created c resp w).1.state.budget ≡ w.state.budget
unfolding accept_created
accepted_budget c resp w = ground arith

post_budget :
    (c : Setup) (slot : Option Error) (p : Payload) (w : World)
    → (post_simulations c slot p w).1.state.budget ≡ w.state.budget
unfolding post_simulations reserve_sim_slot
post_budget c (some e) p w = refl
post_budget c none p w =
    continue-keeps (λ v. v.state.budget ≡ w.state.budget) (perform c (create_request p) w)
      (accept_created c)
      (Steps-Keeps c (create_request p).hints w.state
        (perform-Steps c (create_request p) w)).same_budget
      (λ resp v h. accepted_budget c resp v ∙ h)

-- The budget after a charge of one day.
abbrev pub day_of : Setup → World → Text
day_of c w = challenge_day_str c.library (c.now w.tick)

charged :
    (c : Setup) (w : World) (r : Option Error × Budget) (next : M CreateSimulationResult)
    → ((v : World) → (next v).1.state.budget ≡ v.state.budget)
    → (continue (charge w r) (λ _. next)).1.state.budget ≡ r.1
charged c w (none, b) next h = h _
charged c w (some e, b) next h = refl

-- CreateMultiSimulation of a batch that passes its checks charges the daily budget once, for as
-- many units as the batch has requests, on the day that the clock shows; neither the slot, the
-- requests sent nor a failure after that changes the budget.
pub create_multi_simulation_budget :
    (c : Setup) (slot : Option Error) (reqs : List SimulationRequest) (w : World)
    → validate_multi_sim_homogeneous reqs ≡ none
    → (create_multi_simulation c slot reqs w).1.state.budget
      ≡ (check_budget_n_on c.config (day_of c w) sim (length reqs) w.state.budget).1
unfolding create_multi_simulation check_budget_n
create_multi_simulation_budget c slot reqs w h = rw h (
    charged c w _ (post_simulations c slot (simulations reqs))
      (post_budget c slot (simulations reqs)))
