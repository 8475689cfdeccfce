-- ===== src/Register/Posted.antt =====
-- The requests of a whole call of Register.
use brainapi_go_sdk.Prelude.{
  refl, none, ◌&&◌, inr, some, is_empty, ◌==◌, not, inl, ◌≡◌, ◌⊎◌, if◌then◌else◌, if_elim, arith,
  Option, Text, codes,
}
use brainapi_go_sdk.Client.{require_non_empty, Setup}
use brainapi_go_sdk.Register.{
  challenge_refused, users_request, complete_form, register, fetch_captcha_challenge,
  accept_registered, captcha_of, CaptchaSolver,
}
use brainapi_go_sdk.Types.{registration, RawResponse, RawRequest, RegisterInput}
use brainapi_go_sdk.World.{World}
use brainapi_go_sdk.Transport.Asked.{login_request-IsLogin, perform-Only, IsReading, Only}
use brainapi_go_sdk.Transport.Perform.{raw_request}
use brainapi_go_sdk.Transport.Request.{plain_request, body_bytes, request_url}
use brainapi_go_sdk.Errors.{wrapped, Error}
use brainapi_go_sdk.World.Monad.{
  fail, diverged, M, continue_rule, return, continue, err, map_error, continue-keeps, ok, Outcome,
}
use brainapi_go_sdk.Register.Form.{complete_form-Completes, IsComplete, Completes}
use brainapi_go_sdk.Transport.Login.{login_request}
use brainapi_go_sdk.Transport.Do.{perform}
use brainapi_go_sdk.Client.Url.{join_url}

-- A GET, the request of a re-login, or the POST of a form that completes the one that was given.
abbrev pub IsRegistering : Setup → CaptchaSolver → RegisterInput → RawRequest → Type 0
IsRegistering c solve form x =
    IsReading c x
    ⊎ ((x.method ≡ codes "POST")
        × (x.url ≡ join_url c (codes "/users") none)
        × ((sent : RegisterInput) × IsComplete c solve form sent
            × (c.library.marshal (registration sent) ≡ some x.body)))

-- A call that sends such requests alone.
abbrev pub Registers :
    {A : Type 0} → Setup → CaptchaSolver → RegisterInput → (World → A × World) → Type 0
Registers c solve form m =
    (w : World)
    → Only (IsRegistering c solve form) w.trace
    → Only (IsRegistering c solve form) (m w).1.trace

-- What a success rests on: a status 201 or 200 of the response to a completed form, whose body, unless
-- it is empty, is what is decoded.
abbrev pub Confirms :
    {T : Type 0}
    → Setup
    → CaptchaSolver
    → (Text → Option T)
    → RegisterInput
    → Outcome (Option T) × World
    → Type 0
Confirms c solve decode form (ok user, t) =
    (sent : RegisterInput) × (resp : RawResponse) × (v : World) × IsComplete c solve form sent
    × (perform c (users_request sent) v ≡ (ok resp, t))
    × ((resp.status ≡ 201) ⊎ (resp.status ≡ 200))
    × (user ≡ (if is_empty resp.body then none else decode resp.body))
Confirms c solve decode form (err e, t) = Unit {0}
Confirms c solve decode form (diverged, t) = Unit {0}

module _ {T : Type 0} (c : Setup) (solve : CaptchaSolver) (decode : Text → Option T)
    (form : RegisterInput) where
  abbrev Kept : World → Type 0
  Kept w = Only (IsRegistering c solve form) w.trace

  post-IsRegistering :
      (sent : RegisterInput)
      → IsComplete c solve form sent
      → (body : Text) → body_bytes c (users_request sent) ≡ some body
      → IsRegistering c solve form (raw_request c (users_request sent) body)
  unfolding request_url body_bytes
  post-IsRegistering sent h body e = inr (refl, refl, (sent, h, e))

  logins : (e p body : Text) → IsRegistering c solve form (raw_request c (login_request e p) body)
  logins e p body = inl (inr (login_request-IsLogin c e p body))

  required-Registers : (val name : Text) → Registers c solve form (require_non_empty val name)
  unfolding require_non_empty
  required-Registers val name w t = ground arith

  refused-Registers :
      (path : Text) (resp : RawResponse) (w : World)
      → Kept w
      → Kept
          ((if resp.status == 200 then return resp.body else fail (challenge_refused c path resp))
            w).1
  refused-Registers path resp w t = ground arith

  fetch-Registers : Registers c solve form (fetch_captcha_challenge c)
  unfolding fetch_captcha_challenge
  fetch-Registers w t =
      continue-keeps Kept (perform c (plain_request (codes "GET") (codes "/captcha")) w) _
        (perform-Only (IsRegistering c solve form) c
          (plain_request (codes "GET") (codes "/captcha")) (λ _ _. inl (inl refl)) logins w t)
        (λ resp u. refused-Registers (codes "/captcha") resp u)

  mapped-Kept :
      {A : Type 0} (g : Error → Error) (m : Outcome A × World) → Kept m.1 → Kept (map_error g m).1
  mapped-Kept g (ok a, w) t = t
  mapped-Kept g (err e, w) t = t
  mapped-Kept g (diverged, w) t = t

  captcha-Registers :
      Registers c solve form (solve (fetch_captcha_challenge c))
      → (given : Text) → Registers c solve form (captcha_of c solve given)
  unfolding captcha_of
  captcha-Registers h given w t =
      if_elim (λ (o : Outcome Text × World). Kept o.1) (not (is_empty given)) _ _ (λ _. t)
        λ _.
          if_elim (λ (o : Outcome Text × World). Kept o.1) (not c.has_solver) _ _ (λ _. t)
            (λ _.
              mapped-Kept (wrapped (codes "captcha solve")) (solve (fetch_captcha_challenge c) w)
                (h w t))

  complete-Registers :
      Registers c solve form (solve (fetch_captcha_challenge c))
      → Registers c solve form (complete_form c solve form)
  unfolding complete_form
  complete-Registers h w t =
      continue-keeps Kept (require_non_empty form.email (codes "email") w) _
        (required-Registers form.email (codes "email") w t)
        λ _ v k.
          continue-keeps Kept
            (require_non_empty form.auxiliary.password (codes "auxiliary.password") v) _
            (required-Registers form.auxiliary.password (codes "auxiliary.password") v k)
            λ _ u l.
              continue-keeps Kept (captcha_of c solve form.auxiliary.captcha u) _
                (captcha-Registers h form.auxiliary.captcha u l) (λ _ _ q. q)

  accept-Kept :
      (resp : RawResponse) (w : World) → Kept w → Kept (accept_registered c decode resp w).1
  unfolding accept_registered
  accept-Kept resp w t = ground arith

  -- What register does with a form that is complete.
  posted-Kept :
      (m : Outcome RegisterInput × World)
      → Kept m.1
      → Completes c solve form m
      → Kept
          (continue m
            (λ sent w. continue (perform c (users_request sent) w) (accept_registered c decode))).1
  posted-Kept (ok sent, w) t h =
      continue-keeps Kept (perform c (users_request sent) w) _
        (perform-Only (IsRegistering c solve form) c (users_request sent)
          (post-IsRegistering sent h) logins w t)
        accept-Kept
  posted-Kept (err e, w) t h = t
  posted-Kept (diverged, w) t h = t

  accept-Confirms :
      (sent : RegisterInput) (v w : World) (resp : RawResponse)
      → IsComplete c solve form sent
      → perform c (users_request sent) v ≡ (ok resp, w)
      → Confirms c solve decode form (accept_registered c decode resp w)
  unfolding accept_registered
  accept-Confirms sent v w resp h e =
      if_elim (λ (m : M (Option T)). Confirms c solve decode form (m w))
        (not (resp.status == 201) && not (resp.status == 200)) _ _ (λ _. tt)
        (λ b. (sent, resp, v, h, e, ground arith, refl))

  posted-Confirms :
      (m : Outcome RegisterInput × World)
      → Completes c solve form m
      → Confirms c solve decode form (
          continue m
            (λ sent w. continue (perform c (users_request sent) w) (accept_registered c decode)))
  posted-Confirms (ok sent, w) h =
      continue_rule (Confirms c solve decode form) (perform c (users_request sent) w) _ (λ _ _. tt)
        (λ _. tt) (λ resp u e. accept-Confirms sent w u resp h e)
  posted-Confirms (err e, w) h = tt
  posted-Confirms (diverged, w) h = tt

  -- Where the solver sends nothing but the call that it is given, Register sends GETs, the login of a
  -- 401, and POSTs to /users of a form that has the email and the password that were given, both not
  -- empty, the confirmation that was given or else the password, the agreements that were given or
  -- else all of them, the captcha that was given or else one that the solver found, and its other
  -- fields unchanged. A success is the response to such a form, with status 201 or 200.
  pub register-Registers :
      Registers c solve form (solve (fetch_captcha_challenge c))
      → (w : World) → Only (IsRegistering c solve form) w.trace
      → Only (IsRegistering c solve form) (register c solve decode form w).1.trace
        × Confirms c solve decode form (register c solve decode form w)
  unfolding register
  register-Registers h w t = (
    posted-Kept (complete_form c solve form w) (complete-Registers h w t)
        (complete_form-Completes c solve form w),
    posted-Confirms (complete_form c solve form w) (complete_form-Completes c solve form w),
  )
