-- ===== src/Cli/Process.antt =====
-- internal/jsonout/jsonout.go, and writeOK, writeErr and main of cmd/brainapi/main.go: what a process
-- of the command line leaves behind, its envelopes on stdout and its exit code. The message of an
-- error, its text alone, is left out.
use brainapi_go_sdk.Prelude.{
  [], ◌∷◌, none, if◌then◌else◌, false, Option, some, ℕ, List, true, Bool, Text,
}
use brainapi_go_sdk.Errors.Classify.{Details}
use brainapi_go_sdk.Cli.Dispatch.{Invocation, Output, Tools, run_command}
use brainapi_go_sdk.Cli.{
  hangs, crashed, exit_usage, misused, exited, exit_network, exit_ok, success, Exit,
}
use brainapi_go_sdk.Cli.Shell.{Shell}
use brainapi_go_sdk.World.{Event}

-- ErrorBox
pub record ErrorBox : Type 0 where
  pub kind : Text
  pub details : Details

-- Envelope; `payload` is Data.
pub record Envelope (T : Type 0) : Type 0 where
  pub ok : Bool
  pub payload : Option T
  pub error : Option ErrorBox

pub data Process (T : Type 0) : Type 0 where
  ended : List (Envelope T) → ℕ → Process T
  panicking : Process T
  running : Process T

module _ {T : Type 0} where
  -- Success
  abbrev pub success_envelope : T → Envelope T
  success_envelope t = record { ok = true; payload = some t; error = none }

  -- Failure
  abbrev pub failure_envelope : Text → Details → Envelope T
  failure_envelope kind d = record {
    ok = false;
    payload = none;
    error = some (record { kind = kind; details = d });
  }

  -- write: `encodes` tells whether Encode writes an envelope without an error.
  unfoldable pub write_envelope : (Envelope T → Bool) → Envelope T → List (Envelope T)
  write_envelope encodes e = if encodes e then e ∷ [] else []

  -- writeOK, or writeErr, or main for an error that RunE returns.
  unfoldable pub process_of : (Envelope T → Bool) → Exit T → Process T
  unfolding write_envelope
  process_of encodes (success t) =
      ended (write_envelope encodes (success_envelope t))
        (if encodes (success_envelope t) then exit_ok else exit_network)
  process_of encodes (exited kind d code) =
      ended (write_envelope encodes (failure_envelope kind d)) code
  process_of encodes (misused e) = ended [] exit_usage
  process_of encodes crashed = panicking
  process_of encodes hangs = running

-- A command as a process, with what it did outside.
unfoldable pub run_process :
    {D F : Type 0}
    → Tools D F
    → Shell
    → (Envelope (Output D F) → Bool)
    → Invocation
    → Process (Output D F) × List Event
unfolding process_of run_command
run_process t s encodes v = let r = run_command t s v in (process_of encodes r.0, r.1)
