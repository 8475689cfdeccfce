-- ===== src/Alphas/Verified.antt =====
-- When a response to a submit counts as verified.
use brainapi_go_sdk.Prelude.{
  is_empty, text_eq_iff, Bool, true, false, ◌&&◌, ◌||◌, Option, none, some, List, [], ◌∷◌, ◌++◌,
  ◌≡◌, refl, Text, codes, text_eq, not, if◌then◌else◌, arith,
}
use brainapi_go_sdk.Types.{RawResponse, IsBlock, Check, Decoded, parsed, unparsed}
use brainapi_go_sdk.Runtime.{Library}
use brainapi_go_sdk.Alphas.Verdict.{
  parse_submit_verdict, judge_is, judge_body, verified, Verdict, self_correlation, scan, is_2xx,
  judge,
}

-- No check but SELF_CORRELATION failed.
abbrev pub others_pass : List Check → Bool
others_pass [] = true
others_pass (ch ∷ chs) =
    (text_eq ch.name self_correlation || not (text_eq ch.result (codes "FAIL"))) && others_pass chs

-- The last SELF_CORRELATION check.
abbrev pub last_self : List Check → Option Check
last_self [] = none
last_self (ch ∷ chs) = elim (last_self chs) [
  | some x ↦ some x
  | none ↦ if text_eq ch.name self_correlation then some ch else none
]

abbrev pub has_passed : Option Check → Bool
has_passed none = false
has_passed (some ch) = text_eq ch.result (codes "PASS")

-- The checks let the alpha through. A body without an `is` block has none to fail.
abbrev pub is_screened : Decoded (Option IsBlock) → Bool
is_screened (unparsed msg) = false
is_screened (parsed none) = true
is_screened (parsed (some is)) = others_pass is.checks && has_passed (last_self is.checks)

abbrev pub is_verified : Option Verdict → Bool
is_verified none = false
is_verified (some v) = elim v.status [ verified ↦ true | _ ↦ false ]

abbrev or_else : Option Check → Option Check → Option Check
or_else none o = o
or_else (some x) o = some x

abbrev is_nil : List Text → Bool
is_nil [] = true
is_nil (x ∷ xs) = false

scan_corr :
    (chs : List Check) (fails : List Text) (corr : Option Check)
    → (scan chs fails corr).1 ≡ or_else (last_self chs) corr
unfolding scan
scan_corr [] fails corr = refl
scan_corr (ch ∷ chs) fails corr = ground (
  arith,
  scan_corr chs fails (some ch),
  scan_corr chs (fails ++ (ch.name ∷ [])) corr,
  scan_corr chs fails corr,
)

is_nil-append : (xs : List Text) (x : Text) → is_nil (xs ++ (x ∷ [])) ≡ false
is_nil-append [] x = refl
is_nil-append (y ∷ xs) x = refl

scan_fails :
    (chs : List Check) (fails : List Text) (corr : Option Check)
    → is_nil (scan chs fails corr).0 ≡ is_nil fails && others_pass chs
unfolding scan
scan_fails [] fails corr = ground arith
scan_fails (ch ∷ chs) fails corr = ground (
  arith,
  scan_fails chs fails (some ch),
  scan_fails chs (fails ++ (ch.name ∷ [])) corr,
  scan_fails chs fails corr,
  is_nil-append fails ch.name,
)

fail_or_pass : (t : Text) → text_eq t (codes "PASS") ≡ true → text_eq t (codes "FAIL") ≡ false
fail_or_pass t h = ground (arith, text_eq_iff t (codes "PASS"), text_eq_iff t (codes "FAIL"))

judge_verified :
    (lib : Library) (resp : RawResponse) (chs : List Check) (s : List Text × Option Check)
    → is_verified (judge lib resp chs s) ≡ is_2xx resp && (is_nil s.0 && has_passed s.1)
unfolding judge
judge_verified lib resp chs (f ∷ fs, corr) = ground arith
judge_verified lib resp chs ([], none) = ground arith
judge_verified lib resp chs ([], some ch) = ground (arith, fail_or_pass ch.result)

judge_is_verified :
    (lib : Library) (resp : RawResponse) (o : Option IsBlock)
    → is_verified (judge_is lib resp o) ≡ is_2xx resp && is_screened (parsed o)
unfolding judge_is
judge_is_verified lib resp none = ground arith
judge_is_verified lib resp (some is) = ground (
  arith,
  judge_verified lib resp is.checks (scan is.checks [] none),
  scan_fails is.checks [] none,
  scan_corr is.checks [] none,
)

judge_decoded :
    (lib : Library) (resp : RawResponse) (d : Decoded (Option IsBlock))
    (msg : Text → Option Verdict)
    → ((t : Text) → is_verified (msg t) ≡ false)
    → is_verified (elim d [ unparsed t ↦ msg t | parsed o ↦ judge_is lib resp o ])
      ≡ is_2xx resp && is_screened d
judge_decoded lib resp (unparsed t) msg h = ground (arith, h t)
judge_decoded lib resp (parsed o) msg h = judge_is_verified lib resp o

judge_body_verified :
    (lib : Library) (resp : RawResponse)
    → is_verified (judge_body lib resp) ≡ is_2xx resp && is_screened (lib.unmarshal_is resp.body)
unfolding judge_body
judge_body_verified lib resp = judge_decoded lib resp (lib.unmarshal_is resp.body) _ (λ _. refl)

-- A response gives the verdict verified exactly when its status is 2xx, its body is not empty and
-- decodes, and the checks in it let the alpha through: none but SELF_CORRELATION failed and the
-- last SELF_CORRELATION passed. A body without an is block is let through with no check at all.
pub parse_submit_verdict-verified :
    (lib : Library) (resp : RawResponse)
    → is_verified (parse_submit_verdict lib resp)
      ≡ is_2xx resp && (not (is_empty resp.body) && is_screened (lib.unmarshal_is resp.body))
unfolding parse_submit_verdict
parse_submit_verdict-verified lib resp = ground (arith, judge_body_verified lib resp)
