-- ===== src/Transport/Rule.antt =====
-- The rule for the loop of Client.do, by what its rounds keep.
use brainapi_go_sdk.Prelude.{refl, ◌≡◌, ℕ, zero, suc, Option, none, some, Text}
use brainapi_go_sdk.Types.{RawResponse}
use brainapi_go_sdk.Errors.{Error}
use brainapi_go_sdk.World.{World}
use brainapi_go_sdk.World.Monad.{Outcome, ok, err, diverged, continue}
use brainapi_go_sdk.Client.{Setup, preflight}
use brainapi_go_sdk.Transport.Request.{DoRequest, body_bytes}
use brainapi_go_sdk.Transport.Decision.{
  terminal_ok, terminal_err, retry_in, looping, RetryState, Evaluated, Relogin,
}
use brainapi_go_sdk.Transport.Perform.{
  attempt, do_loop, do_with, sleep_ctx, unless_done, with_body, proceed, fresh, rounds_left,
}

abbrev pub Final : Type 0
Final = Outcome RawResponse × World

-- What an attempt has to leave behind: the result's property, or before the next round that of the
-- rounds.
abbrev pub Leaves : Setup → (RetryState → World → Type 0) → (Final → Type 0) → Evaluated → Type 0
Leaves c P R (terminal_ok resp, st, w) = R (ok resp, w)
Leaves c P R (terminal_err resp e, st, w) = R (err e, w)
Leaves c P R (retry_in d, st, w) = P st (sleep_ctx c d w).1
Leaves c P R (looping, st, w) = R (diverged, w)

module _ (c : Setup) (relogin : Relogin) (r : DoRequest) (P : RetryState → World → Type 0)
    (R : Final → Type 0) (stop : (st : RetryState) (w : World) (e : Error) → P st w → R (err e, w))
    (out : (st : RetryState) (w : World) → P st w → R (diverged, w))
    (round : (body : Text)
      → body_bytes c r ≡ some body
      → (st : RetryState) (w : World) → P st w
      → Leaves c P R (attempt c relogin r body st w)) where
  done :
      (o : Option Error) (st : RetryState) (w : World) (next : World → Final)
      → P st w
      → (P st w → R (next w))
      → R (unless_done o w next)
  done (some e) st w next p h = stop st w e p
  done none st w next p h = h p

  step :
      (again : RetryState → World → Final) (a : Evaluated)
      → Leaves c P R a
      → ((st : RetryState) (w : World) → P st w → R (again st w))
      → R (proceed c again a)
  unfolding proceed
  step again (terminal_ok resp, st, w) l h = l
  step again (terminal_err resp e, st, w) l h = l
  step again (retry_in d, st, w) l h = done _ st _ (again st) l (h st _)
  step again (looping, st, w) l h = l

  do_loop_rule :
      (body : Text)
      → body_bytes c r ≡ some body
      → (fuel : ℕ) (st : RetryState) (w : World) → P st w
      → R (do_loop c relogin r body fuel st w)
  unfolding do_loop
  do_loop_rule body e zero st w p = out st w p
  do_loop_rule body e (suc fuel) st w p = done (c.ctx_err w.tick) st w _ p λ q.
      step (do_loop c relogin r body fuel) (attempt c relogin r body st w) (round body e st w q)
        (do_loop_rule body e fuel)

  bodied :
      (o : Option Text) (w : World)
      → body_bytes c r ≡ o
      → P fresh w
      → R (with_body o w (λ body. do_loop c relogin r body (suc (rounds_left c r fresh)) fresh))
  bodied none w e p = stop fresh w _ p
  bodied (some body) w e p = do_loop_rule body e (suc (rounds_left c r fresh)) fresh w p

  gated :
      (m : Outcome (Unit {0}) × World)
      → P fresh m.1
      → R (
          continue m (λ _ v.
            with_body
              (body_bytes c r)
              v
              (λ body. do_loop c relogin r body (suc (rounds_left c r fresh)) fresh)))
  gated (ok _, w) p = bodied (body_bytes c r) w refl p
  gated (err e, w) p = stop fresh w e p
  gated (diverged, w) p = out fresh w p

  -- The rule for do.
  pub do_with_rule : (w : World) → P fresh (preflight c w).1 → R (do_with c relogin r w)
  unfolding do_with
  do_with_rule w p = gated (preflight c w) p
