-- ===== src/Cli/Told.antt =====
-- What the process of a command tells its caller.
use brainapi_go_sdk.Prelude.{
  refl, inr, inl, ◌≤◌, [], false, if◌then◌else◌, true, ◌∷◌, ◌⊎◌, ◌≡◌, Bool, ℕ, List, Text,
}
use brainapi_go_sdk.Cli.Dispatch.{run_command, Invocation, Output, Tools}
use brainapi_go_sdk.Cli.Process.{
  running, failure_envelope, panicking, success_envelope, ended, run_process, write_envelope,
  Envelope, Process, process_of,
}
use brainapi_go_sdk.Cli.Shell.{Run, Shell}
use brainapi_go_sdk.World.{Event}
use brainapi_go_sdk.Endpoint.Catalog.{Solves}
use brainapi_go_sdk.Cli.Answers.{Answers}
use brainapi_go_sdk.Errors.Classify.{Details}
use brainapi_go_sdk.Cli.{
  hangs, crashed, misused, exited, exit_network, exit_ok, static_exit_codes, success,
}
use brainapi_go_sdk.Cli.Completed.{run_command-Answers, drains}
use brainapi_go_sdk.Cli.Exits.{rows_of}

-- The envelope of a result with code 0, or that of an error of a kind with the code of the row that
-- lists the kind.
abbrev pub Fits : {T : Type 0} → Envelope T → ℕ → Type 0
Fits {T} e code =
    ((t : T) × (e ≡ success_envelope t) × (code ≡ 0))
    ⊎ ((kind : Text) × (d : Details) × (e ≡ failure_envelope kind d)
        × (rows_of kind static_exit_codes ≡ code ∷ [])
        × (2 ≤ code))

-- One envelope that fits the exit code, or none after a usage error that has done nothing outside.
abbrev pub Tells : {T : Type 0} → Process T × List Event → Type 0
Tells (ended [] code, trace) = (code ≡ 2) × (trace ≡ [])
Tells (ended (e ∷ []) code, trace) = Fits e code
Tells (ended (e ∷ f ∷ es) code, trace) = ⊥
Tells (panicking, trace) = ⊥
Tells (running, trace) = ⊥

Answers-Tells :
    {T : Type 0} (encodes : Envelope T → Bool) (r : Run T)
    → ((e : Envelope T) → encodes e ≡ true)
    → Answers r
    → Tells (process_of encodes r.0, r.1)
unfolding process_of write_envelope
Answers-Tells {T = T} encodes (success t, trace) h a =
    printed (encodes (success_envelope t)) (h (success_envelope t))
  where
    printed :
        (b : Bool)
        → b ≡ true
        → Tells {T = T} (
          ended (if b then success_envelope t ∷ [] else []) (if b then exit_ok else exit_network),
          trace,
        )
    printed true o = inl (t, refl, refl)
    printed false o = cc
Answers-Tells {T = T} encodes (exited kind d code, trace) h a =
    printed (encodes (failure_envelope kind d)) (h (failure_envelope kind d))
  where
    printed :
        (b : Bool)
        → b ≡ true
        → Tells {T = T} (ended (if b then failure_envelope kind d ∷ [] else []) code, trace)
    printed true o = inr (kind, d, refl, a.0, a.1)
    printed false o = cc
Answers-Tells encodes (misused e, trace) h a = (refl, a)
Answers-Tells encodes (crashed, trace) h a = a
Answers-Tells encodes (hangs, trace) h a = a

module _ {D F : Type 0} (t : Tools D F) (s : Shell) where
  -- Where stdout takes its envelope, each command that calls the platform ends, whatever the
  -- server answers and the flags are, unless it drains a listing with --all. It prints exactly one
  -- envelope: that of a result, ok with data and no error, with exit code 0, or that of an error,
  -- not ok and without data, with the exit code of the one row of the published table that lists
  -- its kind, at least 2; or it prints none, exits with 2 and has done nothing outside. It never
  -- panics. The captcha solver is taken to end where the fetch that it is given ends.
  pub run_process-Tells :
      (encodes : Envelope (Output D F) → Bool) (v : Invocation)
      → ((e : Envelope (Output D F)) → encodes e ≡ true)
      → Solves t.solve
      → drains v ≡ false
      → Tells (run_process t s encodes v)
  unfolding run_process
  run_process-Tells encodes v h solves one =
      Answers-Tells encodes (run_command t s v) h (run_command-Answers t s v solves one)
