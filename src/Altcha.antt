-- ===== src/Altcha.antt =====
-- pkg/captcha/altcha: the challenge, its checks, and what Solve and the adapter return. The workers of
-- Solve race in Altcha/Race; sha256, hex, base64, JSON and the clock are arguments.
pub mod Race
pub mod Stripes
pub mod Invariant
pub mod Found
pub mod Progress
pub mod Adapter
use brainapi_go_sdk.Prelude.{
  ℕ, ◌+◌, ◌^◌, Bool, true, false, not, ◌&&◌, ◌||◌, Option, none, some, List, [], ◌∷◌, ◌++◌, Text,
  codes, is_empty, text_eq, length, itoa, ltb, leb, ◌==◌, if◌then◌else◌, ℤ, pos, ltb_ℤ, leb_ℤ,
  to_int64, pos_part, neg_part,
}
use brainapi_go_sdk.Errors.{Error, opaque, wrapped}
use brainapi_go_sdk.World.{World}
use brainapi_go_sdk.World.Monad.{
  M, Outcome, ok, err, diverged, continue, map_error, return, fail, ◌>>=◌,
}

pub record Challenge : Type 0 where
  pub algorithm : Text
  pub challenge : Text
  pub salt : Text
  pub signature : Text
  pub max_number : ℤ

pub record Solution : Type 0 where
  pub algorithm : Text
  pub challenge : Text
  pub salt : Text
  pub signature : Text
  pub max_number : ℤ
  pub number : ℕ
  pub took : ℤ

pub record Crypto : Type 0 where
  pub sha256 : Text → Text
  pub decode_hex : Text → Option Text
  pub unmarshal : Text → Option Challenge
  pub marshal : Solution → Option Text
  pub base64 : Text → Text
  pub num_cpu : ℕ

-- The first checks of Solve: the target, or the error.
unfoldable pub target_of : Crypto → Challenge → Outcome Text
target_of y ch =
    if not (is_empty ch.algorithm) && not (text_eq ch.algorithm (codes "SHA-256"))
    then err (opaque (codes "altcha: unsupported algorithm"))
    else if ltb_ℤ ch.max_number (pos 0)
    then err (opaque (codes "altcha: invalid maxNumber"))
    else elim (y.decode_hex ch.challenge) [
      | none ↦ err (opaque (codes "altcha: malformed challenge hex"))
      | some target ↦
          if length target == 32
          then ok target
          else err (opaque (codes "altcha: malformed challenge hex"))
    ]

-- The number of workers, behind the check that maxNumber is not negative.
unfoldable pub worker_count : Crypto → ℤ → ℤ → ℤ
worker_count y workers max_number =
    let asked = if leb_ℤ workers (pos 0) then pos y.num_cpu else workers in
    let all = to_int64 (pos_part max_number + 1) in
    let most = if ltb_ℤ all asked then all else asked in if ltb_ℤ most (pos 1) then pos 1 else most

-- hex(sha256(salt + str(n))) == challenge
unfoldable pub hits : Crypto → Challenge → Text → ℕ → Bool
hits y ch target n = text_eq (y.sha256 (ch.salt ++ itoa n)) target

abbrev pub err_no_solution : Error
err_no_solution = opaque (codes "altcha: no solution in range")

abbrev pub solution : Challenge → ℕ → ℤ → Solution
solution ch n took = record {
  algorithm = ch.algorithm;
  challenge = ch.challenge;
  salt = ch.salt;
  signature = ch.signature;
  max_number = ch.max_number;
  number = n;
  took = took;
}

-- Solve behind wg.Wait(): from ctx.Err(), the number found and the time taken.
unfoldable pub finish : Challenge → Option Error → Option ℕ → ℤ → Outcome Solution
finish ch (some e) found took = err e
finish ch none none took = err err_no_solution
finish ch none (some n) took = ok (solution ch n took)

unfoldable pub parse_challenge : Crypto → Text → Outcome Challenge
parse_challenge y body = elim (y.unmarshal body) [
  | none ↦ err (opaque (codes "altcha: parse challenge"))
  | some ch ↦
      if is_empty ch.challenge || is_empty ch.salt
      then err (opaque (codes "altcha: challenge body missing challenge/salt"))
      else ok ch
]

unfoldable pub encode : Crypto → Solution → Outcome Text
encode y s = elim (y.marshal s) [
  | none ↦ err (opaque (codes "altcha: marshal solution"))
  | some b ↦ ok (y.base64 b)
]

-- The adapter's Solve. `solve` is what Solve returns at this call, by the challenge and the workers.
unfoldable pub adapter_solve : Crypto → (Challenge → ℤ → Outcome Solution) → ℤ → M Text → M Text
unfolding parse_challenge encode
adapter_solve y solve workers fetch w =
    continue (map_error (wrapped (codes "altcha: fetch /captcha")) (fetch w)) λ body v.
      continue (parse_challenge y body, v)
        λ ch u. continue (solve ch workers, u) λ sol t. (encode y sol, t)
