-- ===== src/Alphas/Verdict.antt =====
-- pkg/brainapi/alphas.go: parseSubmitVerdict.
use brainapi_go_sdk.Prelude.{
  ℕ, Bool, false, ◌&&◌, Option, none, some, List, [], ◌∷◌, ◌++◌, Text, codes, is_empty, text_eq,
  itoa, join, leb, ltb, ◌==◌, not, if◌then◌else◌,
}
use brainapi_go_sdk.Types.{RawResponse, Alpha, IsBlock, Check, parsed, unparsed}
use brainapi_go_sdk.Runtime.{Library}

-- Verdict.Status.
pub data VerdictStatus : Type 0 where
  verified corr_rejected submit_failed pending_corr : VerdictStatus

pub record Verdict : Type 0 where
  pub status : VerdictStatus
  pub reason : Text
  pub body : Option Alpha
  pub checks : List Check
  pub http : ℕ

abbrev pub self_correlation : Text
self_correlation = codes "SELF_CORRELATION"

-- The loop over the checks: the other checks that failed, in order, and the last SELF_CORRELATION.
unfoldable pub scan : List Check → List Text → Option Check → List Text × Option Check
scan [] fails corr = (fails, corr)
scan (ch ∷ chs) fails corr =
    scan chs
      (if text_eq ch.name self_correlation
        then fails
        else if text_eq ch.result (codes "FAIL")
        then fails ++ (ch.name ∷ [])
        else fails)
      (if text_eq ch.name self_correlation then some ch else corr)

abbrev pub is_2xx : RawResponse → Bool
is_2xx resp = leb 200 resp.status && ltb resp.status 300

abbrev failed_verdict : RawResponse → List Check → Text → Option Verdict
failed_verdict resp checks reason = some (record {
  status = submit_failed;
  reason = reason;
  body = none;
  checks = checks;
  http = resp.status;
})

http_reason : RawResponse → Text → Text
http_reason resp what = codes "http_" ++ (itoa resp.status ++ what)

abbrev value_text : Option Text → Text
value_text none = codes "?"
value_text (some v) = v

unfoldable pub corr_failed : Option Check → Bool
corr_failed none = false
corr_failed (some ch) = text_eq ch.result (codes "FAIL")

unfoldable pub corr_passed : Option Check → Bool
corr_passed none = false
corr_passed (some ch) = text_eq ch.result (codes "PASS")

corr_value : Option Check → Text
corr_value none = codes "?"
corr_value (some ch) = value_text ch.value

-- The verdict on a list of checks.
unfoldable pub judge :
    Library → RawResponse → List Check → List Text × Option Check → Option Verdict
unfolding http_reason corr_failed corr_passed corr_value
judge lib resp checks (f ∷ fs, corr) =
    failed_verdict resp checks (codes "check_fail:" ++ join (codes ",") (f ∷ fs))
judge lib resp checks ([], corr) =
    if corr_failed corr
    then some (record {
      status = corr_rejected;
      reason = codes "SELF_CORRELATION=" ++ corr_value corr;
      body = none;
      checks = checks;
      http = resp.status;
    })
    else if not (corr_passed corr)
    then none
    else if is_2xx resp
    then some (record {
      status = verified;
      reason = [];
      body = lib.unmarshal_alpha resp.body;
      checks = checks;
      http = resp.status;
    })
    else failed_verdict resp checks (http_reason resp (codes "_no_fail_check"))

unfoldable pub judge_is : Library → RawResponse → Option IsBlock → Option Verdict
unfolding judge scan http_reason
judge_is lib resp none =
    if is_2xx resp
    then some
        (record { status = verified; reason = []; body = none; checks = []; http = resp.status })
    else failed_verdict resp [] (http_reason resp (codes "_no_is"))
judge_is lib resp (some is) = judge lib resp is.checks (scan is.checks [] none)

unfoldable pub judge_body : Library → RawResponse → Option Verdict
unfolding judge_is
judge_body lib resp = elim (lib.unmarshal_is resp.body) [
  | unparsed msg ↦ failed_verdict resp [] (codes "unparseable body: " ++ msg)
  | parsed o ↦ judge_is lib resp o
]

-- `none` while the verdict is pending.
unfoldable pub parse_submit_verdict : Library → RawResponse → Option Verdict
unfolding judge_body http_reason
parse_submit_verdict lib resp =
    if leb 300 resp.status && ltb resp.status 400
    then none
    else if resp.status == 503
    then none
    else if is_empty resp.body
    then (if is_2xx resp
        then none
        else failed_verdict resp [] (http_reason resp (codes "_no_body")))
    else judge_body lib resp
