-- ===== src/Auth/SignIn.antt =====
-- Which credentials the client holds after Login, CompletePersona and Logout.
use brainapi_go_sdk.Transport.Credentials.{Holds, do_with-Holds, perform-Holds}
use brainapi_go_sdk.Auth.{persona_request, session_request, complete_persona, logout}
use brainapi_go_sdk.Prelude.{◌||◌, refl, is_empty, arith, if_elim, codes, [], Text}
use brainapi_go_sdk.Client.{Setup, require_non_empty}
use brainapi_go_sdk.Transport.Login.{login_request, no_relogin, accept_login, login}
use brainapi_go_sdk.World.{World}
use brainapi_go_sdk.World.Monad.{diverged, err, continue, M, ok, Outcome}
use brainapi_go_sdk.Types.{Session, RawResponse}
use brainapi_go_sdk.Transport.Do.{perform}
use brainapi_go_sdk.Transport.Perform.{do_with}

-- After a success the client holds the new credentials, and else the old ones.
abbrev pub Signs : {A : Type 0} → Text → Text → Text → Text → Outcome A × World → Type 0
Signs email password e p (ok _, w) = Holds email password w
Signs email password e p (err x, w) = Holds e p w
Signs email password e p (diverged, w) = Holds e p w

accept-Signs :
    (c : Setup) (email password e p : Text) (resp : RawResponse) (w : World)
    → Holds e p w
    → Signs email password e p (accept_login c email password resp w)
unfolding accept_login
accept-Signs c email password e p resp w t = ground arith

continue-Signs :
    {A B : Type 0} (email password e p : Text) (m : Outcome A × World) (f : A → M B)
    → Holds e p m.1
    → ((a : A) (w : World) → Holds e p w → Signs email password e p (f a w))
    → Signs email password e p (continue m f)
continue-Signs email password e p (ok a, w) f h k = k a w h
continue-Signs email password e p (err x, w) f h k = h
continue-Signs email password e p (diverged, w) f h k = h

login-Signs :
    (c : Setup) (email password e p : Text) (w : World)
    → Holds e p w
    → Signs email password e p (login c email password w)
unfolding login
login-Signs c email password e p w t =
    if_elim (λ (m : M Session). Signs email password e p (m w))
      (is_empty email || is_empty password) _ _ (λ _. t)
      λ _.
        continue-Signs email password e p (do_with c no_relogin (login_request email password) w) _
          (do_with-Holds c no_relogin (login_request email password) e p
            (λ _ q. unfold no_relogin in q) w t)
          (accept-Signs c email password e p)

required-Holds :
    (val name e p : Text) (w : World) → Holds e p w → Holds e p (require_non_empty val name w).1
unfolding require_non_empty
required-Holds val name e p w h = ground arith

-- After a CompletePersona that succeeds the client holds the credentials that were passed, and
-- after one that fails those from before.
pub complete_persona-Signs :
    (c : Setup) (inquiry email password : Text) (w : World)
    → Signs email password w.state.email w.state.password
        (complete_persona c inquiry email password w)
unfolding complete_persona
complete_persona-Signs c inquiry email password w =
    let e = w.state.email in
    let p = w.state.password in
    continue-Signs email password e p (require_non_empty inquiry (codes "inquiry id") w) _
      (required-Holds inquiry (codes "inquiry id") e p w (record { email = refl; password = refl }))
      λ _ v h.
        continue-Signs email password e p (perform c (persona_request inquiry) v) _
          (perform-Holds c (persona_request inquiry) e p v h)
          (λ _ u k. login-Signs c email password e p u k)

-- After a Logout that succeeds the client holds no credentials, and after one that fails it holds
-- those from before.
pub logout-Signs : (c : Setup) (w : World) → Signs [] [] w.state.email w.state.password (logout c w)
unfolding logout
logout-Signs c w =
    let e = w.state.email in
    let p = w.state.password in
    continue-Signs [] [] e p (perform c (session_request (codes "DELETE")) w) _
      (perform-Holds c (session_request (codes "DELETE")) e p w
        (record { email = refl; password = refl }))
      (λ _ v h. record { email = refl; password = refl })
