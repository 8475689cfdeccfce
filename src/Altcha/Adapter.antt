-- ===== src/Altcha/Adapter.antt =====
-- pkg/captcha/altcha/adapter.go: the adapter ends where Solve and the call that fetches the challenge
-- end, which is what Register and the command line take a solver to do.
use brainapi_go_sdk.Prelude.{codes, refl, arith, ℤ, ◌≢◌, Text}
use brainapi_go_sdk.Altcha.{Challenge, Solution, Crypto, encode, adapter_solve, parse_challenge}
use brainapi_go_sdk.World.Monad.{map_error, err, Halts-continue, ok, diverged, Halts, Outcome}
use brainapi_go_sdk.World.{World}
use brainapi_go_sdk.Endpoint.Catalog.{mapped-Halts, Solves}
use brainapi_go_sdk.Errors.{wrapped}

parse-Halts : (y : Crypto) (body : Text) (w : World) → Halts (parse_challenge y body, w)
unfolding parse_challenge
parse-Halts y body w = ground arith

encode-Halts : (y : Crypto) (sol : Solution) (w : World) → Halts (encode y sol, w)
unfolding encode
encode-Halts y sol w = ground arith

solved-Halts : {A : Type 0} (o : Outcome A) (w : World) → o ≢ diverged → Halts (o, w)
solved-Halts (ok a) w h = tt
solved-Halts (err e) w h = tt
solved-Halts diverged w h = h refl

pub adapter_solve-Solves :
    (y : Crypto) (solve : Challenge → ℤ → Outcome Solution) (workers : ℤ)
    → ((ch : Challenge) (n : ℤ) → solve ch n ≢ diverged)
    → Solves (adapter_solve y solve workers)
unfolding adapter_solve
adapter_solve-Solves y solve workers h fetch ends w =
    Halts-continue (map_error (wrapped (codes "altcha: fetch /captcha")) (fetch w)) _
      (mapped-Halts (wrapped (codes "altcha: fetch /captcha")) (fetch w) (ends w))
      λ body v.
        Halts-continue (parse_challenge y body, v) _ (parse-Halts y body v)
          λ ch u.
            Halts-continue (solve ch workers, u) _
              (solved-Halts (solve ch workers) u (h ch workers)) (λ sol t. encode-Halts y sol t)
