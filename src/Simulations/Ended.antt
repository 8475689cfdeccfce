-- ===== src/Simulations/Ended.antt =====
-- The termination of WaitForSimulation and WaitForMultiSimulation.
use brainapi_go_sdk.Prelude.{
  pos_part, if_elim, arith, codes, ℕ, List, ℤ, Text, Option, [], ◌∷◌, none, some, zero, suc,
}
use brainapi_go_sdk.World.Monad.{Outcome, M, ok, err, diverged, Halts, Halts-continue}
use brainapi_go_sdk.Simulations.Wait.{
  poll_sleep, is_final, stop_if, sim_request, Resolved, after_child, wait_children,
  wait_for_multi_simulation, get_simulation_raw, wait_for_simulation, wait_loop,
}
use brainapi_go_sdk.Transport.Login.{decode_body}
use brainapi_go_sdk.Client.{Setup, require_non_empty}
use brainapi_go_sdk.Alphas.Submit.{pause}
use brainapi_go_sdk.Transport.Perform.{sleep_ctx}
use brainapi_go_sdk.Errors.{Error}
use brainapi_go_sdk.Types.{Simulation, RawResponse}
use brainapi_go_sdk.World.{World}
use brainapi_go_sdk.Transport.Termination.{perform-Halts}

decode-Halts :
    (c : Setup) (resp : RawResponse) (w : World)
    → Halts (decode_body c.library.unmarshal_simulation resp.body (codes "simulation") w)
unfolding decode_body
decode-Halts c resp w = ground arith

pub raw-Halts : (c : Setup) (id : Text) (w : World) → Halts (get_simulation_raw c id w)
unfolding get_simulation_raw
raw-Halts c id w =
    Halts-continue _ _ (perform-Halts c (sim_request id) w)
      λ resp v. Halts-continue _ _ (decode-Halts c resp v) (λ _ _. tt)

pause-Halts : (c : Setup) (d : ℤ) (w : World) → Halts (pause c d w)
unfolding pause sleep_ctx
pause-Halts c d w = ground arith

wait_loop-Halts : (c : Setup) (id : Text) (n : ℕ) (w : World) → Halts (wait_loop c id n w)
unfolding wait_loop
wait_loop-Halts c id zero w = tt
wait_loop-Halts c id (suc n) w = Halts-continue _ _ (raw-Halts c id w) λ s v.
    if_elim (λ (m : M Simulation). Halts (m v)) (is_final s.0) _ _ (λ _. tt)
      λ _. Halts-continue _ _ (pause-Halts c (poll_sleep s.1) v) (λ _ u. wait_loop-Halts c id n u)

required-Halts : (val name : Text) (w : World) → Halts (require_non_empty val name w)
unfolding require_non_empty
required-Halts val name w = ground arith

pub wait-Halts : (c : Setup) (id : Text) (w : World) → Halts (wait_for_simulation c id w)
unfolding wait_for_simulation
wait-Halts c id w =
    Halts-continue _ _ (required-Halts id (codes "simulation id") w)
      (λ _ v. wait_loop-Halts c id (pos_part c.max_long_polls) v)

stop-Halts :
    (o : Option Error) (r : Resolved) (again : M Resolved) (w : World)
    → Halts (again w)
    → Halts (stop_if o r again w)
stop-Halts none r again w h = h
stop-Halts (some e) r again w h = tt

child-Halts :
    (c : Setup) (r : Resolved) (again : Resolved → M Resolved) (o : Outcome Simulation × World)
    → Halts o
    → ((t : Resolved) (w : World) → Halts (again t w))
    → Halts (after_child c r again o)
unfolding after_child
child-Halts c r again (ok s, w) h k = k _ w
child-Halts c r again (err e, w) h k = stop-Halts (c.ctx_err w.tick) _ _ w (k _ w)
child-Halts c r again (diverged, w) h k = h

children-Halts :
    (c : Setup) (ids : List Text) (r : Resolved) (w : World) → Halts (wait_children c ids r w)
unfolding wait_children
children-Halts c [] r w = tt
children-Halts c (id ∷ ids) r w =
    child-Halts c r (wait_children c ids) (wait_for_simulation c id w) (wait-Halts c id w)
      (children-Halts c ids)

-- WaitForMultiSimulation comes to an end, whatever the server answers.
pub wait_for_multi_simulation-Halts :
    (c : Setup) (id : Text) (w : World) → Halts (wait_for_multi_simulation c id w)
unfolding wait_for_multi_simulation
wait_for_multi_simulation-Halts c id w =
    Halts-continue _ _ (required-Halts id (codes "parent simulation id") w) λ _ v.
      Halts-continue _ _ (wait-Halts c id v)
        λ parent u. Halts-continue _ _ (children-Halts c parent.children ([], none) u) (λ _ _. tt)
