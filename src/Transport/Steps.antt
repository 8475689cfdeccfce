-- ===== src/Transport/Steps.antt =====
-- The changes that the policy of evaluate makes to the state of a client, as a step relation.
use brainapi_go_sdk.Prelude.{
  inl, ltb, ◌⊎◌, leb, inr, subst, sym, Bool, true, false, ◌≡◌, refl, Option, none, some, Text, ℤ,
  pos, ltb_ℤ, leb_ℤ, ◌&&◌, ◌||◌, arith, if_elim, contains, codes, is_empty,
}
use brainapi_go_sdk.Types.{RawResponse}
use brainapi_go_sdk.Errors.{Error}
use brainapi_go_sdk.Runtime.{response, Reply}
use brainapi_go_sdk.World.{World, State}
use brainapi_go_sdk.World.Monad.{Outcome, ok, err, diverged}
use brainapi_go_sdk.Client.{Setup}
use brainapi_go_sdk.Transport.Request.{DoRequest}
use brainapi_go_sdk.Transport.Decision.{RetryState, Evaluated, Relogin, next_streak, short_body}
use brainapi_go_sdk.Transport.Envelope.{drf_detail}
use brainapi_go_sdk.Transport.Evaluate.{
  evaluate, on_transport_error, on_long_poll, on_unauthorized, on_forbidden, on_opaque_forbidden,
  on_rate_limited, on_server_error, after_relogin,
}
use brainapi_go_sdk.Transport.Cases.{evaluate_cases_of, is_accepted, Received}
use brainapi_go_sdk.Retry.{RetryHints}

-- The threshold is set and the streak has come to it.
abbrev pub is_ban : Setup → ℤ → Bool
is_ban c streak = ltb_ℤ (pos 0) c.ban_threshold && leb_ℤ c.ban_threshold streak

-- A 403 that evaluate counts: it lists no checks, does not name NOT_VERIFIED and has no detail.
abbrev pub IsOpaque : Setup → RawResponse → Type 0
IsOpaque c resp =
    (resp.status ≡ 403)
    × (contains resp.body (codes "\"checks\"") ≡ false)
    × (contains resp.body (codes "NOT_VERIFIED") ≡ false)
    × (drf_detail c.library resp.body ≡ none)

-- A response that sets the streak back: its status is one that the endpoint accepts, or it is a 403
-- that lists checks, or one with a detail that does not name NOT_VERIFIED.
abbrev pub IsClearing : Setup → RetryHints → RawResponse → Type 0
IsClearing c h resp =
    (is_accepted h resp.status ≡ true)
    ⊎ ((resp.status ≡ 403)
        × ((contains resp.body (codes "\"checks\"") ≡ true)
            ⊎ ((contains resp.body (codes "NOT_VERIFIED") ≡ false)
                × ((d : Text) × (drf_detail c.library resp.body ≡ some d)))))

-- One change from s to t, by the response of the server that makes it, for an endpoint with hints h.
pub data Step (c : Setup) (h : RetryHints) (s t : State) : Type 0 where
  reset :
      (resp : RawResponse)
      → Received c resp
      → IsClearing c h resp
      → t ≡ record s { consecutive403 = pos 0 }
      → Step c h s t
  count :
      (resp : RawResponse)
      → Received c resp
      → IsOpaque c resp
      → is_ban c (next_streak s.consecutive403) ≡ false
      → t ≡ record s { consecutive403 = next_streak s.consecutive403 }
      → Step c h s t
  ban :
      (resp : RawResponse)
      → Received c resp
      → IsOpaque c resp
      → is_ban c (next_streak s.consecutive403) ≡ true
      → t ≡ record s {
        consecutive403 = next_streak s.consecutive403;
        banned_flag = true;
        ban_reason = some (short_body resp.body);
      }
      → Step c h s t
  log_in :
      (email password : Text) (resp : RawResponse)
      → Received c resp
      → leb 200 resp.status && ltb resp.status 300 ≡ true
      → t ≡ record s { email = email; password = password }
      → Step c h s t

pub data Steps (c : Setup) (h : RetryHints) (s : State) : State → Type 0 where
  here : {t : State} → t ≡ s → Steps c h s t
  next : {t u : State} → Steps c h s t → Step c h t u → Steps c h s u

pub Steps-trans :
    {c : Setup} {h : RetryHints} {s t u : State} → Steps c h s t → Steps c h t u → Steps c h s u
Steps-trans {c} {h} {s} a (here e) = subst (Steps c h s) (sym e) a
Steps-trans a (next b d) = next (Steps-trans a b) d

one : {c : Setup} {h : RetryHints} {s t : State} → Step c h s t → Steps c h s t
one d = next (here refl) d

-- Without accept503 only 2xx is accepted, which every endpoint accepts.
pub Step-widen :
    (c : Setup) (g h : RetryHints) (s t : State) → g.accept503 ≡ false → Step c g s t → Step c h s t
Step-widen c g h s t n (reset resp got (inl a) e) = reset resp got (inl (ground arith)) e
Step-widen c g h s t n (reset resp got (inr a) e) = reset resp got (inr a) e
Step-widen c g h s t n (count resp got o b e) = count resp got o b e
Step-widen c g h s t n (ban resp got o b e) = ban resp got o b e
Step-widen c g h s t n (log_in email password resp got o e) = log_in email password resp got o e

pub Steps-widen :
    (c : Setup) (g h : RetryHints) (s : State) {t : State}
    → g.accept503 ≡ false
    → Steps c g s t
    → Steps c h s t
Steps-widen c g h s n (here e) = here e
Steps-widen c g h s n (next {t} {u} a d) = next (Steps-widen c g h s n a) (Step-widen c g h t u n d)

module _ (c : Setup) (r : DoRequest) (url : Text) (st : RetryState) (w : World) where
  abbrev Stepped : Evaluated → Type 0
  Stepped a = Steps c r.hints w.state a.2.state

  transport_error-Steps : (e : Error) → Stepped (on_transport_error c r url st e w)
  unfolding on_transport_error
  transport_error-Steps e = here (ground arith)

  long_poll-Steps : (d : ℤ) → Stepped (on_long_poll c r url st d w)
  unfolding on_long_poll
  long_poll-Steps d = here (ground arith)

  rate_limited-Steps : (resp : RawResponse) → Stepped (on_rate_limited c r url st resp w)
  unfolding on_rate_limited
  rate_limited-Steps resp = here (ground arith)

  server_error-Steps : (resp : RawResponse) → Stepped (on_server_error c r url st resp w)
  unfolding on_server_error
  server_error-Steps resp = here (ground arith)

  after_relogin-Steps :
      (resp : RawResponse) (o : Outcome (Unit {0}) × World)
      → Steps c r.hints w.state o.1.state
      → Stepped (after_relogin c r url st resp o)
  unfolding after_relogin
  after_relogin-Steps resp (ok _, v) s = s
  after_relogin-Steps resp (err e, v) s = s
  after_relogin-Steps resp (diverged, v) s = s

  unauthorized-Steps :
      (relogin : Relogin) (resp : RawResponse)
      → ((e p : Text) → Steps c r.hints w.state (relogin e p w).1.state)
      → Stepped (on_unauthorized c r url st relogin resp w)
  unfolding on_unauthorized
  unauthorized-Steps relogin resp h =
      if_elim Stepped r.hints.no_auto_relogin _ _ (λ _. here refl)
        λ _.
          if_elim Stepped st.relogged _ _ (λ _. here refl)
            λ _.
              if_elim Stepped (is_empty w.state.email || is_empty w.state.password) _ _
                (λ _. here refl) (λ _. after_relogin-Steps resp _ (h _ _))

  opaque-Steps :
      (resp : RawResponse)
      → Received c resp
      → IsOpaque c resp
      → Stepped (on_opaque_forbidden c r url st resp w)
  unfolding on_opaque_forbidden
  opaque-Steps resp g o =
      if_elim Stepped (is_ban c (next_streak w.state.consecutive403)) _ _
        (λ b. one (ban resp g o b refl))
        λ b.
          if_elim Stepped (leb_ℤ c.max_retries (pos st.err_attempt)) _ _
            (λ _. one (count resp g o b refl)) (λ _. one (count resp g o b refl))

  detail-Steps :
      (resp : RawResponse) (o : Option Text) (d : Text → Evaluated)
      → ((t : Text) → o ≡ some t → Stepped (d t))
      → (o ≡ none → Stepped (on_opaque_forbidden c r url st resp w))
      → Stepped (elim o [ some t ↦ d t | none ↦ on_opaque_forbidden c r url st resp w ])
  detail-Steps resp none d h k = k refl
  detail-Steps resp (some t) d h k = h t refl

  forbidden-Steps :
      (resp : RawResponse)
      → Received c resp
      → resp.status ≡ 403
      → Stepped (on_forbidden c r url st resp w)
  unfolding on_forbidden
  forbidden-Steps resp g s =
      if_elim Stepped (contains resp.body (codes "\"checks\"")) _ _
        (λ a. one (reset resp g (inr (s, inl a)) refl))
        λ a.
          if_elim Stepped (contains resp.body (codes "NOT_VERIFIED")) _ _ (λ _. here refl)
            λ b.
              detail-Steps resp (drf_detail c.library resp.body) _
                (λ t e. one (reset resp g (inr (s, inr (b, (t, e)))) refl))
                (λ e. opaque-Steps resp g (s, a, b, e))

  -- Every change that evaluate makes is a sequence of steps, if its login's is.
  pub evaluate-Steps :
      (relogin : Relogin) (reply : Reply)
      → ((resp : RawResponse) → reply ≡ response resp → Received c resp)
      → ((e p : Text) → Steps c r.hints w.state (relogin e p w).1.state)
      → Stepped (evaluate c r url st relogin reply w)
  evaluate-Steps relogin reply got h =
      evaluate_cases_of c r url st w Stepped
        (record {
          transport_error = transport_error-Steps;
          accepted = λ resp g a. one (reset resp g (inl a) refl);
          long_poll = λ d _. long_poll-Steps d;
          unauthorized = λ resp _. unauthorized-Steps relogin resp h;
          forbidden = forbidden-Steps;
          limited = λ resp _. rate_limited-Steps resp;
          server_error = λ resp _. server_error-Steps resp;
          client_error = λ _ _. here refl;
        })
        reply got
