-- ===== src/Cli/Answers/Endpoints.antt =====
-- The shapes of the commands that call one endpoint.
use brainapi_go_sdk.Prelude.{
  is_empty, refl, none, ◌∷◌, some, [], ◌≢◌, List, if_elim, arith, not, false, ◌≡◌, ℤ, Option, Bool,
  Text, if◌then◌else◌,
}
use brainapi_go_sdk.Cli.Dispatch.{as_output}
use brainapi_go_sdk.Cli.Shell.{run_e, refuse, Shell}
use brainapi_go_sdk.Cli.Account.{
  Activities, streamed, with_records, page_of, drained, listed, Listing,
}
use brainapi_go_sdk.Client.{Setup}
use brainapi_go_sdk.Cli.Alphas.{points_outside, is_set, same_bool, alphas_set_osmosis_points}
use brainapi_go_sdk.Types.{Alpha}
use brainapi_go_sdk.World.Monad.{
  Halts-continue, err, ok, Outcome, diverged, return, continue, Halts, M,
}
use brainapi_go_sdk.Errors.{Error}
use brainapi_go_sdk.World.{World}
use brainapi_go_sdk.Decoders.{
  fill_record, onto_rows, row_error, decode_rows, decode_activities, RecordSetBlock, Json,
}
use brainapi_go_sdk.Iterators.{Stream}
use brainapi_go_sdk.Cli.Answers.{run_e-Answers, write_err-Answers, as_output-Answers, Answers}
use brainapi_go_sdk.Account.{activities}
use brainapi_go_sdk.Endpoint.Halts.{activities-Halts, finish-Halts}
use brainapi_go_sdk.Endpoint.Alphas.{
  self_performance-Halts, performance-Halts, set_alpha_osmosis_points-Halts,
}
use brainapi_go_sdk.Performance.{self_before_and_after_performance, before_and_after_performance}

-- The command of an endpoint, and the same behind a test of its flags.
pub endpoint :
    {A : Type 0} (B : Type 0) (f : A → B) (s : Shell) (m : Setup → M A)
    → ((c : Setup) (w : World) → Halts (m c w))
    → Answers (as_output f (run_e s m))
endpoint B f s m h = as_output-Answers f (run_e s m) (run_e-Answers s m h)

pub unless_refused :
    {A : Type 0} (B : Type 0) (f : A → B) (s : Shell) (b : Bool) (e : Error) (m : Setup → M A)
    → ((c : Setup) (w : World) → Halts (m c w))
    → Answers (as_output f (if b then refuse e else run_e s m))
unless_refused {A} B f s b e m h =
    as_output-Answers f (if b then refuse e else run_e s m)
      (if_elim Answers b _ _ (λ _. write_err-Answers A e []) (λ _. run_e-Answers s m h))

-- A listing of one page.
pub one_page :
    {P T : Type 0} (B : Type 0) (f : Listing P T → B) (s : Shell) (all : Bool) (m : Setup → M P)
    (walk : Setup → World → Stream T × World)
    → all ≡ false
    → ((c : Setup) (w : World) → Halts (m c w))
    → Answers (as_output f (run_e s (λ c. if not all then listed (m c) else drained (walk c))))
one_page {P} {T} B f s all m walk e h = endpoint B f s _ λ c w.
    if_elim (λ (k : M (Listing P T)). Halts (k w)) (not all) _ _
      (λ _. finish-Halts page_of (m c w) (h c w)) (λ n. absurd_of all e n)
  where
    absurd_of : {X : Type 0} (all : Bool) → all ≡ false → not all ≡ false → X
    absurd_of all e n = ground arith

pub osmosis-Answers :
    (B : Type 0) (f : Alpha → B) (s : Shell) (points : Option ℤ) (clear : Bool) (id : Text)
    → Answers (as_output f (alphas_set_osmosis_points s points clear id))
unfolding alphas_set_osmosis_points
osmosis-Answers B f s points clear id = as_output-Answers f _ (
    if_elim Answers (same_bool (is_set points) clear) _ _ (λ _. refl)
      λ _.
        if_elim Answers (points_outside points) _ _ (λ _. refl)
          λ _. run_e-Answers s _ (λ c. set_alpha_osmosis_points-Halts c id points))

-- DecodeActivities is total.
rows_total :
    {F : Type 0} (j : Json F) (props raws : List Text) → decode_rows j props raws ≢ diverged
unfolding decode_rows
rows_total j props [] = λ e. cc
rows_total j props (raw ∷ raws) =
    onto-total (j.as_row raw) (decode_rows j props raws) (rows_total j props raws)
  where
    onto-total :
        (o : Option (List Text)) (rest : Outcome (List (List (Text × Text))))
        → rest ≢ diverged
        → elim o [
          | none ↦ err row_error
          | some row ↦ onto_rows j props (fill_record props row []) rest
        ]
          ≢ diverged
    onto-total none rest h = λ e. cc
    onto-total (some row) (ok rows) h = λ e. cc
    onto-total (some row) (err x) h = λ e. cc
    onto-total (some row) diverged h = absurd (h refl)

decoded_total :
    {F : Type 0} (j : Json F) (o : Option RecordSetBlock) → decode_activities j o ≢ diverged
unfolding decode_activities
decoded_total j none = λ e. cc
decoded_total j (some block) = block_total block.schema block.records
  where
    block_total :
        (schema : Option (List Text)) (raws : List Text)
        → decode_activities j (some (record { schema = schema; records = raws })) ≢ diverged
    block_total none raws = λ e. cc
    block_total (some []) raws = λ e. cc
    block_total (some (p ∷ ps)) raws = rows_total j (p ∷ ps) raws

pub activities_read-Halts :
    {D F : Type 0} (c : Setup) (decode : Text → Option D) (j : Json F)
    (records : D → Option RecordSetBlock) (columns : Bool) (kind : Text) (w : World)
    → Halts (
        continue (activities c decode kind w) (λ d.
          if columns
          then (λ v. with_records d v (decode_activities j (records d)))
          else return (streamed d)))
activities_read-Halts {D} c decode j records columns kind w =
    Halts-continue _ _ (activities-Halts c decode kind w) λ d v.
      if_elim (λ (m : M (Activities D)). Halts (m v)) columns _ _
        (λ _. with-Halts d v (decode_activities j (records d)) (decoded_total j (records d)))
        (λ _. tt)
  where
    with-Halts :
        (d : D) (v : World) (o : Outcome (List (List (Text × Text))))
        → o ≢ diverged
        → Halts (with_records d v o)
    with-Halts d v (ok rows) h = tt
    with-Halts d v (err e) h = tt
    with-Halts d v diverged h = absurd (h refl)

pub either_performance-Halts :
    {D : Type 0} (c : Setup) (decode : Text → Option D) (cid id : Text) (w : World)
    → Halts (
        (if not (is_empty cid)
            then before_and_after_performance c decode cid id
            else self_before_and_after_performance c decode id)
          w)
either_performance-Halts {D} c decode cid id w =
    if_elim (λ (m : M D). Halts (m w)) (not (is_empty cid)) _ _
      (λ _. performance-Halts c decode cid id w) (λ _. self_performance-Halts c decode id w)
