-- ===== src/Simulations/Wait.antt =====
-- pkg/brainapi/simulations.go: GetSimulation, WaitForSimulation and WaitForMultiSimulation.
use brainapi_go_sdk.Prelude.{true, false, [], none, some, zero}
use brainapi_go_sdk.Alphas.Submit.{pause}
use brainapi_go_sdk.Types.{Simulation}
use brainapi_go_sdk.Prelude.{
  none, pos_part, [], ◌++◌, ◌||◌, suc, ◌*◌, ◌∷◌, leb_ℤ, codes, is_empty, some, if◌then◌else◌, not,
  text_eq, Bool, pos, ℕ, List, Option, Text, ℤ,
}
use brainapi_go_sdk.Client.{require_non_empty, Setup}
use brainapi_go_sdk.Errors.{err_long_poll_exceeded, Error}
use brainapi_go_sdk.Retry.{parse_retry_after, long_poll_ceiling, long_poll_floor, clamp}
use brainapi_go_sdk.World.Monad.{diverged, err, ◌>>=◌, ok, ◌>>◌, return, Outcome, fail, M}
use brainapi_go_sdk.Transport.Request.{plain_request, DoRequest}
use brainapi_go_sdk.World.{World}
use brainapi_go_sdk.Transport.Do.{perform}
use brainapi_go_sdk.Transport.Login.{decode_body}

unfoldable pub is_terminal_sim_status : Text → Bool
is_terminal_sim_status s =
    text_eq s (codes "COMPLETE")
    || (text_eq s (codes "WARNING")
        || (text_eq s (codes "CANCELLED")
            || (text_eq s (codes "TIMEOUT")
                || (text_eq s (codes "ERROR") || text_eq s (codes "FAIL")))))

abbrev pub sim_request : Text → DoRequest
sim_request id = plain_request (codes "GET") (codes "/simulations/" ++ id)

abbrev hint_of : Option ℤ → ℤ
hint_of none = pos 0
hint_of (some d) = d

-- getSimulationRaw: the simulation and the Retry-After hint, 0 where there is none.
unfoldable pub get_simulation_raw : Setup → Text → M (Simulation × ℤ)
get_simulation_raw c id = do
  resp ← perform c (sim_request id)
  s ← decode_body c.library.unmarshal_simulation resp.body (codes "simulation")
  λ w.
      return
        (
          s,
          hint_of (parse_retry_after c.library (c.now w.tick) (resp.header (codes "Retry-After"))),
        )
        w

unfoldable pub get_simulation : Setup → Text → M Simulation
unfolding get_simulation_raw
get_simulation c id = do
  require_non_empty id (codes "simulation id")
  s ← get_simulation_raw c id
  return s.0

abbrev has_children : List Text → Bool
has_children [] = false
has_children (x ∷ xs) = true

-- An alpha, children, or a terminal status.
unfoldable pub is_final : Simulation → Bool
unfolding is_terminal_sim_status
is_final s = not (is_empty s.alpha) || (has_children s.children || is_terminal_sim_status s.status)

-- The hint in its bounds, or ten floors.
unfoldable pub poll_sleep : ℤ → ℤ
poll_sleep d =
    clamp (if leb_ℤ d (pos 0) then pos (10 * pos_part long_poll_floor) else d) long_poll_floor
      long_poll_ceiling

-- The loop of WaitForSimulation, by the polls that are left.
unfoldable pub wait_loop : Setup → Text → ℕ → M Simulation
unfolding get_simulation_raw is_final poll_sleep
wait_loop c id zero = fail err_long_poll_exceeded
wait_loop c id (suc n) =
    let again = wait_loop c id n in
    get_simulation_raw c id >>= λ s.
    if is_final s.0 then return s.0 else pause c (poll_sleep s.1) >> again

unfoldable pub wait_for_simulation : Setup → Text → M Simulation
unfolding wait_loop
wait_for_simulation c id =
    require_non_empty id (codes "simulation id") >> wait_loop c id (pos_part c.max_long_polls)

-- The children that were resolved, and the first error.
abbrev pub Resolved : Type 0
Resolved = List Simulation × Option Error

abbrev pub or_first : Option Error → Error → Option Error
or_first none e = some e
or_first (some x) e = some x

abbrev pub stop_if : Option Error → Resolved → M Resolved → M Resolved
stop_if none r again = again
stop_if (some x) r again = return r

-- One round of the loop over the children; `again` is the rest of it.
unfoldable pub after_child :
    Setup
    → Resolved
    → (Resolved → M Resolved)
    → Outcome Simulation × World
    → Outcome Resolved × World
after_child c r again (ok s, w) = again (r.0 ++ (s ∷ []), r.1) w
after_child c r again (err e, w) =
    stop_if (c.ctx_err w.tick) (r.0, or_first r.1 e) (again (r.0, or_first r.1 e)) w
after_child c r again (diverged, w) = (diverged, w)

unfoldable pub wait_children : Setup → List Text → Resolved → M Resolved
unfolding after_child wait_for_simulation
wait_children c [] r w = return r w
wait_children c (id ∷ ids) r w = after_child c r (wait_children c ids) (wait_for_simulation c id w)

unfoldable pub wait_for_multi_simulation : Setup → Text → M (Simulation × Resolved)
unfolding wait_children
wait_for_multi_simulation c parent_id = do
  require_non_empty parent_id (codes "parent simulation id")
  parent ← wait_for_simulation c parent_id
  r ← wait_children c parent.children ([], none)
  return (parent, r)
