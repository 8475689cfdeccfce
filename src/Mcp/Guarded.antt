-- ===== src/Mcp/Guarded.antt =====
-- The guard of the tool submit_alpha.
use brainapi_go_sdk.Prelude.{Bool, true, false, ◌≡◌, ◌⊎◌}
use brainapi_go_sdk.World.Monad.{Outcome, Halts}
use brainapi_go_sdk.World.{World, Budget}
use brainapi_go_sdk.Alphas.Verdict.{Verdict}
use brainapi_go_sdk.Mcp.{Gate, Called, returned, refused, hangs, SubmitResult, is_blocked}

-- What the tool may leave, by the budget before it and the argument `confirm`.
abbrev pub Guards : {F : Type 0} → Gate F → Budget → Bool → Called (SubmitResult F) × World → Type 0
Guards gate before confirm (returned r, w) =
    ((r.submitted ≡ true) × (confirm ≡ true) × (is_blocked gate r.corr_max ≡ false))
    ⊎ ((r.submitted ≡ false) × (r.blocked ≡ is_blocked gate r.corr_max) × (w.state.budget ≡ before))
Guards gate before confirm (refused k d, w) = (confirm ≡ true) ⊎ (w.state.budget ≡ before)
Guards gate before confirm (hangs, w) = ⊥

-- Reading endpoints end, and leave the budget alone.
abbrev Reads : {T : Type 0} → Budget → Outcome T × World → Type 0
Reads b m = Halts m × (m.1.state.budget ≡ b)
