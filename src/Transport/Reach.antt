-- ===== src/Transport/Reach.antt =====
-- What a whole call of do or Login may do to the state of a client.
use brainapi_go_sdk.Prelude.{
  ltb, ◌&&◌, leb, not, refl, ◌||◌, is_empty, inr, inl, if_elim, true, false, ◌≡◌, sym, subst, Text,
  ℤ, arith, ◌⊎◌,
}
use brainapi_go_sdk.Types.{Session, RawResponse}
use brainapi_go_sdk.World.{World, State}
use brainapi_go_sdk.Client.{Setup, preflight}
use brainapi_go_sdk.Transport.Request.{DoRequest}
use brainapi_go_sdk.Transport.Decision.{
  RetryState, Evaluated, Relogin, terminal_ok, terminal_err, retry_in, looping,
}
use brainapi_go_sdk.Transport.Perform.{raw_request, attempt, do_with, sleep_ctx}
use brainapi_go_sdk.Transport.Login.{login_request, no_relogin, login, accept_login}
use brainapi_go_sdk.Transport.Do.{perform, relogin}
use brainapi_go_sdk.Transport.Rule.{Final, Leaves, do_with_rule}
use brainapi_go_sdk.Transport.Steps.{
  Steps-widen, reset, here, next, count, ban, log_in, log_in, ban, count, is_ban, next, Step, Steps,
  here, Steps-trans, evaluate-Steps,
}
use brainapi_go_sdk.World.Monad.{diverged, M, err, ok, Outcome, continue}
use brainapi_go_sdk.Transport.Responses.{Handed, do_with-Handed}
use brainapi_go_sdk.Retry.{RetryHints}

module _ (c : Setup) (h : RetryHints) (s : State) where
  abbrev Within : RetryState → World → Type 0
  Within st w = Steps c h s w.state

  abbrev Ended : Final → Type 0
  Ended f = Steps c h s f.1.state

  slept_state : (d : ℤ) (w : World) → (sleep_ctx c d w).1.state ≡ w.state
  unfolding sleep_ctx
  slept_state d w = ground arith

  Steps-Leaves : (a : Evaluated) → Steps c h s a.2.state → Leaves c Within Ended a
  Steps-Leaves (terminal_ok resp, st, w) k = k
  Steps-Leaves (terminal_err resp e, st, w) k = k
  Steps-Leaves (retry_in d, st, w) k = subst (Steps c h s) (sym (slept_state d w)) k
  Steps-Leaves (looping, st, w) k = k

  preflight_state : (w : World) → (preflight c w).1.state ≡ w.state
  unfolding preflight
  preflight_state w = ground arith

do_with-Steps :
    (c : Setup) (relogin : Relogin) (r : DoRequest)
    → ((e p : Text) (w : World) → Steps c r.hints w.state (relogin e p w).1.state)
    → (w : World) → Steps c r.hints w.state (do_with c relogin r w).1.state
do_with-Steps c relogin r h w =
    do_with_rule c relogin r (Within c r.hints w.state) (Ended c r.hints w.state) (λ _ _ _ p. p)
      (λ _ _ p. p)
      (λ body _ st v p. Steps-Leaves c r.hints w.state _ (
        Steps-trans p (
          unfold attempt in
          evaluate-Steps c r _ st _ relogin _ (λ resp e. (v.tick, raw_request c r body, e))
            (λ e q. h e q _))))
      w (here (preflight_state c r.hints w.state w))

-- A login changes the credentials alone, and only on a status 2xx.
accept_login-Steps :
    (c : Setup) (email password : Text) (resp : RawResponse) (w : World)
    → ((accept_login c email password resp w).1.state ≡ w.state)
      ⊎ ((leb 200 resp.status && ltb resp.status 300 ≡ true)
          × ((accept_login c email password resp w).1.state
              ≡ record (w.state) { email = email; password = password }))
unfolding accept_login
accept_login-Steps c email password resp w = ground arith

accepted-Steps :
    (c : Setup) (s : State) (email password : Text) (r : DoRequest) (m : Final)
    → Handed c r m
    → Steps c r.hints s m.1.state
    → Steps c r.hints s (continue m (accept_login c email password)).1.state
accepted-Steps c s email password r (ok resp, w) g h =
    elim (accept_login-Steps c email password resp w) [
      | inl e ↦ subst (Steps c r.hints s) (sym e) h
      | inr e ↦ next h (log_in email password resp g.0 e.0 e.1)
    ]
accepted-Steps c s email password r (err e, w) g h = h
accepted-Steps c s email password r (diverged, w) g h = h

pub login-Steps :
    (c : Setup) (h : RetryHints) (email password : Text) (w : World)
    → Steps c h w.state (login c email password w).1.state
unfolding login
login-Steps c h email password w =
    if_elim (λ (m : M Session). Steps c h w.state (m w).1.state)
      (is_empty email || is_empty password) _ _ (λ _. here refl)
      λ _. Steps-widen c (login_request email password).hints h w.state refl (
        accepted-Steps c w.state email password (login_request email password)
          (do_with c no_relogin (login_request email password) w)
          (do_with-Handed c no_relogin (login_request email password) w)
          (do_with-Steps c no_relogin (login_request email password)
            (λ _ _ _. unfold no_relogin in here refl) w))

relogin-Steps :
    (c : Setup) (h : RetryHints) (email password : Text) (w : World)
    → Steps c h w.state (relogin c email password w).1.state
unfolding relogin
relogin-Steps c h email password w =
    subst (Steps c h w.state) (kept (login c email password w)) (login-Steps c h email password w)
  where
    kept : (m : Outcome Session × World) → m.1.state ≡ (continue m (λ _ v. (ok tt, v))).1.state
    kept (ok _, v) = refl
    kept (err e, v) = refl
    kept (diverged, v) = refl

-- The state that a call of do leaves is reached from the state before it by steps alone, each made
-- by a response that the server gave: the 403 streak is set back by a status that the endpoint
-- accepts or by a 403 that lists checks or has a detail, raised by one opaque 403, or raised to a
-- ban by an opaque 403 whose body gives the reason, and a login with a status 2xx replaces the
-- credentials.
pub perform-Steps :
    (c : Setup) (r : DoRequest) (w : World) → Steps c r.hints w.state (perform c r w).1.state
unfolding perform
perform-Steps c r = do_with-Steps c (relogin c) r (relogin-Steps c r.hints)

-- A client that is not banned has a streak below the threshold.
abbrev pub IsSane : Setup → State → Type 0
IsSane c s = s.banned_flag || not (is_ban c s.consecutive403) ≡ true

-- What every step keeps.
pub record Keeps (c : Setup) (s t : State) : Type 0 where
  pub still_banned : (s.banned_flag ≡ false) ⊎ (t.banned_flag ≡ true)
  pub same_cooldown : t.cooldown_until ≡ s.cooldown_until
  pub same_budget : t.budget ≡ s.budget

Step-Keeps : (c : Setup) (h : RetryHints) (s t : State) → Step c h s t → Keeps c s t
Step-Keeps c h s t (reset resp g o e) = ground arith
Step-Keeps c h s t (count resp g o b e) = ground arith
Step-Keeps c h s t (ban resp g o b e) = ground arith
Step-Keeps c h s t (log_in email password resp g o e) = ground arith

Step-IsSane : (c : Setup) (h : RetryHints) (s t : State) → Step c h s t → IsSane c s → IsSane c t
Step-IsSane c h s t (reset resp g o e) k = ground arith
Step-IsSane c h s t (count resp g o b e) k = ground arith
Step-IsSane c h s t (ban resp g o b e) k = ground arith
Step-IsSane c h s t (log_in email password resp g o e) k = ground arith

Steps-IsSane :
    (c : Setup) (h : RetryHints) (s : State) {t : State} → Steps c h s t → IsSane c s → IsSane c t
Steps-IsSane c h s (here e) k = subst (IsSane c) (sym e) k
Steps-IsSane c h s (next {t} {u} a d) k = Step-IsSane c h t u d (Steps-IsSane c h s a k)

pub Steps-Keeps : (c : Setup) (h : RetryHints) (s : State) {t : State} → Steps c h s t → Keeps c s t
Steps-Keeps c h s (here e) = ground arith
Steps-Keeps c h s (next {t} {u} a d) = ground (arith, Steps-Keeps c h s a, Step-Keeps c h t u d)

-- From a state that is banned or has a 403 streak below the threshold, a call of do leaves such a
-- state; it never takes a ban back, and it touches neither the cooldown nor the daily budget.
pub perform-Keeps :
    (c : Setup) (r : DoRequest) (w : World)
    → IsSane c w.state
    → IsSane c (perform c r w).1.state × Keeps c w.state (perform c r w).1.state
perform-Keeps c r w h = (
  Steps-IsSane c r.hints w.state (perform-Steps c r w) h,
  Steps-Keeps c r.hints w.state (perform-Steps c r w),
)
