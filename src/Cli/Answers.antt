-- ===== src/Cli/Answers.antt =====
-- How the commands of cmd/brainapi end.
pub mod Endpoints
pub mod Bodies
use brainapi_go_sdk.Prelude.{refl, is_empty, if_elim, ◌≤◌, [], ◌∷◌, ◌≡◌, arith, ◌≢◌, List, Text}
use brainapi_go_sdk.Cli.Shell.{
  read_body, contents, unreadable, with_read, FileRead, world_of, setup_of, refuse, with_client,
  written, with_body, Run, cli_client, Shell, run_e,
}
use brainapi_go_sdk.Cli.{
  hangs, static_exit_codes, crashed, misused, client_options, exited, success, write_err,
}
use brainapi_go_sdk.World.Monad.{diverged, err, ok, M, Halts, Outcome}
use brainapi_go_sdk.Errors.{opaque, wrapped, Error}
use brainapi_go_sdk.Client.{Setup}
use brainapi_go_sdk.World.{Event, World}
use brainapi_go_sdk.Cli.Dispatch.{as_output}
use brainapi_go_sdk.Client.Options.{refused, built, panicked, NewClient, new_client}
use brainapi_go_sdk.Types.{unparsed, parsed, Decoded}
use brainapi_go_sdk.Cli.Exits.{write_err-Publishes, rows_of}

-- A command writes its result, or an error with the code of the one row of the published table that
-- lists its kind, or it is a usage error and has called nothing.
abbrev pub Answers : {T : Type 0} → Run T → Type 0
Answers (success t, trace) = Unit {0}
Answers (exited kind d code, trace) = (rows_of kind static_exit_codes ≡ code ∷ []) × (2 ≤ code)
Answers (misused e, trace) = trace ≡ []
Answers (crashed, trace) = ⊥
Answers (hangs, trace) = ⊥

pub write_err-Answers :
    (T : Type 0) (e : Error) (trace : List Event) → Answers (write_err {T = T} e, trace)
unfolding write_err
write_err-Answers T e trace = let (k, row, bound) = write_err-Publishes T e in (row, bound)

pub written-Answers : {T : Type 0} (m : Outcome T × World) → Halts m → Answers (written m)
written-Answers (ok t, w) h = tt
written-Answers {T} (err e, w) h = write_err-Answers T e w.trace
written-Answers (diverged, w) h = absurd h

-- The client of the command line asks for the default number of slots, so NewClient cannot panic.
cli_client_total : (s : Shell) → cli_client s ≢ panicked
unfolding cli_client new_client client_options
cli_client_total s = ground arith

with_client-Answers :
    {T : Type 0} (s : Shell) (f : Setup → M T) (n : NewClient)
    → n ≢ panicked
    → ((c : Setup) (w : World) → Halts (f c w))
    → Answers (with_client s f n)
with_client-Answers s f (built config state) total h =
    written-Answers (f (setup_of s config) (world_of state))
      (h (setup_of s config) (world_of state))
with_client-Answers {T} s f (refused e) total h = write_err-Answers T e []
with_client-Answers s f panicked total h = absurd (total refl)

pub run_e-Answers :
    {T : Type 0} (s : Shell) (f : Setup → M T)
    → ((c : Setup) (w : World) → Halts (f c w))
    → Answers (run_e s f)
unfolding run_e
run_e-Answers s f h = with_client-Answers s f (cli_client s) (cli_client_total s) h

pub with_body-Answers :
    {A T : Type 0} (s : Shell) (decode : Text → Decoded A) (missing json desc : Text)
    (k : A → Run T)
    → ((a : A) → Answers (k a))
    → Answers (with_body s decode missing json desc k)
unfolding with_body
with_body-Answers {A} {T} s decode missing json desc k h =
    if_elim Answers (is_empty json) _ _ (λ _. write_err-Answers T (opaque missing) [])
      (λ _. read-Answers (read_body s json))
  where
    decoded-Answers :
        (o : Decoded A)
        → Answers
            (elim o [ parsed a ↦ k a | unparsed msg ↦ refuse {T = T} (wrapped desc (opaque msg)) ])
    decoded-Answers (parsed a) = h a
    decoded-Answers (unparsed msg) = write_err-Answers T (wrapped desc (opaque msg)) []

    read-Answers : (r : FileRead) → Answers (with_read decode desc k r)
    read-Answers (unreadable e) = write_err-Answers T e []
    read-Answers (contents body) = decoded-Answers (decode body)

pub as_output-Answers : {A B : Type 0} (f : A → B) (r : Run A) → Answers r → Answers (as_output f r)
as_output-Answers f (success a, t) h = tt
as_output-Answers f (exited kind d code, t) h = h
as_output-Answers f (misused e, t) h = h
as_output-Answers f (crashed, t) h = h
as_output-Answers f (hangs, t) h = h
