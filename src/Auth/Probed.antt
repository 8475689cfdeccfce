-- ===== src/Auth/Probed.antt =====
-- What Probe tells of a session.
use brainapi_go_sdk.Prelude.{none, some, if_elim, refl}
use brainapi_go_sdk.Transport.Responses.{Handed, perform-Handed, IsHandedOn}
use brainapi_go_sdk.Client.{Setup}
use brainapi_go_sdk.Auth.{unless_unauthorized, session_request, read_probe, probe_error, probe}
use brainapi_go_sdk.Prelude.{
  refl, ◌||◌, if_elim, arith, ◌==◌, ◌≢◌, codes, is_empty, some, ◌≡◌, false, Bool, Text, Option,
}
use brainapi_go_sdk.Transport.Login.{decode_body}
use brainapi_go_sdk.Errors.{opaque, wrapped, as_api_error, Error, ApiError}
use brainapi_go_sdk.World.Monad.{return, fail, M, diverged, err, ok, Outcome}
use brainapi_go_sdk.World.{World}
use brainapi_go_sdk.Types.{RawResponse}
use brainapi_go_sdk.Transport.Do.{perform}

abbrev pub is_unauthorized : Option ApiError → Bool
is_unauthorized none = false
is_unauthorized (some a) = a.status == 401

-- A result of Probe: a document that was decoded from a body of a response with another status than
-- 401, or an error that is no APIError with status 401.
abbrev pub Tells : {T : Type 0} → Setup → (Text → Option T) → Outcome T × World → Type 0
Tells c decode (ok t, w) =
    (resp : RawResponse) × (decode resp.body ≡ some t)
    × (is_empty resp.body ≡ false)
    × (resp.status ≢ 401)
    × IsHandedOn c (session_request (codes "GET")) resp
Tells c decode (err e, w) = is_unauthorized (as_api_error e) ≡ false
Tells c decode (diverged, w) = Unit {0}

decoded-Tells :
    {T : Type 0} (c : Setup) (decode : Text → Option T) (resp : RawResponse) (w : World)
    (o : Option T)
    → decode resp.body ≡ o
    → is_empty resp.body ≡ false
    → (resp.status == 401) ≡ false
    → IsHandedOn c (session_request (codes "GET")) resp
    → Tells c decode (
        (elim o as (λ _. M T) [
          | none ↦ fail (wrapped (codes "probe body") (opaque resp.body))
          | some v ↦ return v
        ])
          w)
unfolding as_api_error
decoded-Tells c decode resp w none e b s h = refl
decoded-Tells c decode resp w (some t) e b s h = (resp, e, b, ground arith, h)

unless-unauthorized :
    (e : Error) (o : Option ApiError)
    → as_api_error e ≡ o
    → is_unauthorized (as_api_error (unless_unauthorized e o)) ≡ false
unfolding as_api_error
unless-unauthorized e none h = rw h refl
unless-unauthorized e (some a) h =
    if_elim (λ x. is_unauthorized (as_api_error x) ≡ false) (a.status == 401) _ _ (λ _. refl)
      (λ s. rw h s)

probe_error_lem : (e : Error) → is_unauthorized (as_api_error (probe_error e)) ≡ false
unfolding probe_error
probe_error_lem e = unless-unauthorized e (as_api_error e) refl

read-Tells :
    {T : Type 0} (c : Setup) (decode : Text → Option T) (m : Outcome RawResponse × World)
    → Handed c (session_request (codes "GET")) m
    → Tells c decode (read_probe decode m)
unfolding read_probe as_api_error decode_body
read-Tells c decode (err e, w) h = probe_error_lem e
read-Tells c decode (diverged, w) h = tt
read-Tells c decode (ok resp, w) h =
    if_elim (Tells c decode) (resp.status == 401 || is_empty resp.body) _ _ (λ _. refl)
      (λ b. decoded-Tells c decode resp w (decode resp.body) refl (ground arith) (ground arith) h)

-- Probe returns a document only if it decodes the body, which is not empty, of a response that do
-- may return without an error and whose status is not 401; and the error it returns is never an
-- APIError with status 401.
pub probe-Tells :
    {T : Type 0} (c : Setup) (decode : Text → Option T) (w : World)
    → Tells c decode (probe c decode w)
unfolding probe
probe-Tells c decode w =
    read-Tells c decode (perform c (session_request (codes "GET")) w)
      (perform-Handed c (session_request (codes "GET")) w)
