-- ===== src/Endpoint/Halts.antt =====
-- Every endpoint comes to an end, whatever the server answers.
use brainapi_go_sdk.Prelude.{codes, is_empty, if_elim, arith, Option, Text}
use brainapi_go_sdk.Client.{clear_credentials, Setup, require_non_empty}
use brainapi_go_sdk.World.Monad.{
  diverged, ok, err, return, ◌>>◌, continue, Halts-continue, Halts, M, Outcome,
}
use brainapi_go_sdk.Transport.Login.{check_status, decode_body}
use brainapi_go_sdk.Account.{
  ListMessagesOptions, competitions, activities, diversity, messages, self, forgot_password,
  reverify_email, reset_password, verify_email, post_checked,
}
use brainapi_go_sdk.Endpoint.{fetch, fetch_polled}
use brainapi_go_sdk.World.{World}
use brainapi_go_sdk.Auth.{read_probe, probe, logout}
use brainapi_go_sdk.Transport.Request.{DoRequest}
use brainapi_go_sdk.Types.{RawResponse}
use brainapi_go_sdk.Transport.Termination.{perform-Halts}
use brainapi_go_sdk.Transport.Do.{perform}

decode-Halts :
    {T : Type 0} (decode : Text → Option T) (body desc : Text) (w : World)
    → Halts (decode_body decode body desc w)
unfolding decode_body
decode-Halts decode body desc w = ground arith

pub required-Halts : (val name : Text) (w : World) → Halts (require_non_empty val name w)
unfolding require_non_empty
required-Halts val name w = ground arith

-- Behind the check of an argument.
pub after_required :
    {T : Type 0} (val name : Text) (m : M T) (w : World)
    → ((v : World) → Halts (m v))
    → Halts ((require_non_empty val name >> m) w)
after_required val name m w h = Halts-continue _ _ (required-Halts val name w) (λ _ v. h v)

pub fetch-Halts :
    {T : Type 0} (c : Setup) (decode : Text → Option T) (r : DoRequest) (desc : Text) (w : World)
    → Halts (fetch c decode r desc w)
unfolding fetch
fetch-Halts c decode r desc w =
    Halts-continue _ _ (perform-Halts c r w) (λ resp v. decode-Halts decode resp.body desc v)

pub fetch_polled-Halts :
    {T : Type 0} (c : Setup) (decode : Text → Option T) (r : DoRequest) (desc : Text) (w : World)
    → Halts (fetch_polled c decode r desc w)
unfolding fetch_polled
fetch_polled-Halts {T} c decode r desc w = Halts-continue _ _ (perform-Halts c r w) λ resp v.
    if_elim (λ (m : M T). Halts (m v)) (is_empty resp.body) _ _ (λ _. tt)
      (λ _. decode-Halts decode resp.body desc v)

-- Reading a result cannot keep the call from ending.
pub finish-Halts :
    {A B : Type 0} (f : A → B) (m : Outcome A × World)
    → Halts m
    → Halts (continue m (λ a. return (f a)))
finish-Halts f m h = Halts-continue m _ h (λ _ _. tt)

-- The endpoints that return an error alone.
pub post_checked-Halts : (c : Setup) (r : DoRequest) (w : World) → Halts (post_checked c r w)
unfolding post_checked check_status
post_checked-Halts c r w = Halts-continue _ _ (perform-Halts c r w) (λ resp v. ground arith)

module _ (c : Setup) where
  pub forgot_password-Halts :
      (email recaptcha : Text) (w : World) → Halts (forgot_password c email recaptcha w)
  unfolding forgot_password
  forgot_password-Halts email recaptcha w = after_required email _ _ w (post_checked-Halts c _)

  pub reverify_email-Halts :
      (email recaptcha : Text) (w : World) → Halts (reverify_email c email recaptcha w)
  unfolding reverify_email
  reverify_email-Halts email recaptcha w = after_required email _ _ w (post_checked-Halts c _)

  pub verify_email-Halts : (jwt : Text) (w : World) → Halts (verify_email c jwt w)
  unfolding verify_email
  verify_email-Halts jwt w = after_required jwt _ _ w (post_checked-Halts c _)

  pub reset_password-Halts :
      (jwt password : Text) (w : World) → Halts (reset_password c jwt password w)
  unfolding reset_password
  reset_password-Halts jwt password w =
      after_required jwt _ _ w (λ v. after_required password _ _ v (post_checked-Halts c _))

  pub logout-Halts : (w : World) → Halts (logout c w)
  unfolding logout clear_credentials
  logout-Halts w = Halts-continue _ _ (perform-Halts c _ w) (λ _ _. tt)

module _ {T : Type 0} (c : Setup) (decode : Text → Option T) where
  pub self-Halts : (w : World) → Halts (self c decode w)
  unfolding self
  self-Halts = fetch-Halts c decode _ _

  pub competitions-Halts : (w : World) → Halts (competitions c decode w)
  unfolding competitions
  competitions-Halts = fetch-Halts c decode _ _

  pub activities-Halts : (kind : Text) (w : World) → Halts (activities c decode kind w)
  unfolding activities
  activities-Halts kind w = after_required kind _ _ w (fetch-Halts c decode _ _)

  pub diversity-Halts : (grouping : Text) (w : World) → Halts (diversity c decode grouping w)
  unfolding diversity
  diversity-Halts grouping w = after_required grouping _ _ w (fetch-Halts c decode _ _)

  pub messages-Halts : (opts : ListMessagesOptions) (w : World) → Halts (messages c decode opts w)
  unfolding messages
  messages-Halts opts = fetch-Halts c decode _ _

  pub probe-Halts : (w : World) → Halts (probe c decode w)
  unfolding probe
  probe-Halts w = read_probe-Halts (perform c _ w) (perform-Halts c _ w)
    where
      read_probe-Halts : (m : Outcome RawResponse × World) → Halts m → Halts (read_probe decode m)
      read_probe-Halts (err e, v) h = tt
      read_probe-Halts (diverged, v) h = h
      read_probe-Halts (ok resp, v) h =
          ground (arith, decode-Halts decode resp.body (codes "probe body") v)
