-- ===== src/Cli/Exits.antt =====
-- The exit code of a failed command against the published table of exit codes.
use brainapi_go_sdk.Cli.{success, exited, misused, crashed, hangs}
use brainapi_go_sdk.Prelude.{
  if◌then◌else◌, ◌||◌, arith, ◌≡◌, ◌≤◌, ℕ, false, Bool, ap, List, text_eq, Text, [], ◌∷◌, refl,
}
use brainapi_go_sdk.Errors.Classify.{
  classify, Kind, Kind, api_kind, rate_limit_kind, banned_kind, permission_denied_kind,
  drf_validation_kind, not_verified_kind, persona_inquiry_kind, budget_kind, not_authenticated_kind,
  cooldown_kind, long_poll_exceeded_kind, context_kind, invalid_argument_kind, network_kind,
  error_kind,
}
use brainapi_go_sdk.Errors.{Error}
use brainapi_go_sdk.Cli.{
  static_exit_codes, kind_name, success, ExitCodeSpec, Exit, exit_code_for_kind, write_err,
}
use brainapi_go_sdk.Errors.Kinds.{root, crosses_network, kind_of_root, classify-root}

pub lists : Text → List Text → Bool
lists kind [] = false
lists kind (k ∷ ks) = text_eq k kind || lists kind ks

-- The codes of the rows that list a kind.
pub rows_of : Text → List ExitCodeSpec → List ℕ
unfolding lists
rows_of kind [] = []
rows_of kind (r ∷ rs) =
    let rest = rows_of kind rs in if lists kind r.kinds then r.code ∷ rest else rest

-- The tables at a kind.
kind_row :
    (k : Kind) → rows_of (kind_name k) static_exit_codes ≡ exit_code_for_kind (kind_name k) ∷ []
unfolding rows_of exit_code_for_kind text_eq
kind_row api_kind = refl
kind_row rate_limit_kind = refl
kind_row banned_kind = refl
kind_row permission_denied_kind = refl
kind_row drf_validation_kind = refl
kind_row not_verified_kind = refl
kind_row persona_inquiry_kind = refl
kind_row budget_kind = refl
kind_row not_authenticated_kind = refl
kind_row cooldown_kind = refl
kind_row long_poll_exceeded_kind = refl
kind_row context_kind = refl
kind_row invalid_argument_kind = refl
kind_row network_kind = refl
kind_row error_kind = refl

abbrev pub Publishes : {T : Type 0} → Error → Exit T → Type 0
Publishes e (success t) = ⊥
Publishes e (exited kind _ code) =
    (kind ≡ kind_name (kind_of_root (crosses_network e) (root e)))
    × (rows_of kind static_exit_codes ≡ code ∷ [])
    × (2 ≤ code)
Publishes e (misused x) = ⊥
Publishes e crashed = ⊥
Publishes e hangs = ⊥

code_bound : (k : Kind) → 2 ≤ exit_code_for_kind (kind_name k)
unfolding exit_code_for_kind text_eq
code_bound api_kind = omega arith
code_bound k = omega arith

-- For every error the command line exits with the kind that Classify reads off the root of its
-- chain and with the code of the one row of the published table of exit codes that lists this
-- kind; the code is at least 2.
pub write_err-Publishes : (T : Type 0) (e : Error) → Publishes e (write_err {T = T} e)
unfolding write_err
write_err-Publishes T e =
    (ap kind_name (classify-root e), kind_row (classify e).0, code_bound (classify e).0)
