-- ===== src/Endpoint/Reads.antt =====
-- The endpoints whose requests are GETs send nothing else, beside the request of a re-login.
use brainapi_go_sdk.Prelude.{
  ◌||◌, ◌≡◌, refl, ◌==◌, is_empty, if_elim, List, if◌then◌else◌, arith, Option, Text, Bool, codes,
}
use brainapi_go_sdk.Client.{Setup, require_non_empty}
use brainapi_go_sdk.Transport.Login.{decode_body}
use brainapi_go_sdk.Alphas.{
  ListAlphasOptions, list_alphas, alpha_pnl, alpha_self_correlation, check_alpha, alpha_check_body,
  get_alpha, check_body,
}
use brainapi_go_sdk.Register.{fetch_captcha_challenge}
use brainapi_go_sdk.Schema.{is_underspecified, DataFieldsQuery, CountedPage, data_fields, operators}
use brainapi_go_sdk.World.Monad.{diverged, ok, err, Outcome, continue-keeps, continue, ◌>>◌, M}
use brainapi_go_sdk.World.{World}
use brainapi_go_sdk.Transport.Do.{perform}
use brainapi_go_sdk.Transport.Asked.{perform-OnlyReads, OnlyReads}
use brainapi_go_sdk.Account.{ListMessagesOptions, activities, competitions, self, messages}
use brainapi_go_sdk.Auth.{read_probe, probe}
use brainapi_go_sdk.Performance.{before_and_after_performance}
use brainapi_go_sdk.Endpoint.{fetch, fetch_polled}
use brainapi_go_sdk.Transport.Request.{DoRequest}
use brainapi_go_sdk.Types.{RawResponse}

-- From a trace in which every request is a GET or that of Login, the call leaves such a trace.
abbrev pub Quiet : {A : Type 0} → Setup → (World → A × World) → Type 0
Quiet c m = (w : World) → OnlyReads c w.trace → OnlyReads c (m w).1.trace

pub bind-Quiet :
    {A B : Type 0} (c : Setup) (m : M A) (f : A → M B)
    → Quiet c m
    → ((a : A) → Quiet c (f a))
    → Quiet c (λ w. continue (m w) f)
bind-Quiet c m f q k w t = continue-keeps (λ v. OnlyReads c v.trace) (m w) f (q w t) k

-- Either branch of a test.
pub if-Quiet :
    {A : Type 0} (c : Setup) (b : Bool) (m n : M A)
    → Quiet c m
    → Quiet c n
    → Quiet c (if b then m else n)
if-Quiet c b m n p q = if_elim (Quiet c) b m n (λ _. p) (λ _. q)

pub decode-Quiet :
    {T : Type 0} (c : Setup) (decode : Text → Option T) (body desc : Text)
    → Quiet c (decode_body decode body desc)
unfolding decode_body
decode-Quiet c decode body desc w t = ground arith

required-Quiet : (c : Setup) (val name : Text) → Quiet c (require_non_empty val name)
unfolding require_non_empty
required-Quiet c val name w t = ground arith

pub after_required-Quiet :
    {T : Type 0} (c : Setup) (val name : Text) (m : M T)
    → Quiet c m
    → Quiet c (require_non_empty val name >> m)
after_required-Quiet c val name m q =
    bind-Quiet c (require_non_empty val name) (λ _. m) (required-Quiet c val name) (λ _. q)

module _ {T : Type 0} (c : Setup) (decode : Text → Option T) where
  pub fetch-Quiet :
      (r : DoRequest) (desc : Text) → r.method ≡ codes "GET" → Quiet c (fetch c decode r desc)
  unfolding fetch
  fetch-Quiet r desc g =
      bind-Quiet c (perform c r) _ (perform-OnlyReads c r g)
        (λ resp. decode-Quiet c decode resp.body desc)

  pub fetch_polled-Quiet :
      (r : DoRequest) (desc : Text)
      → r.method ≡ codes "GET"
      → Quiet c (fetch_polled c decode r desc)
  unfolding fetch_polled
  fetch_polled-Quiet r desc g =
      bind-Quiet c (perform c r) _ (perform-OnlyReads c r g) λ resp.
        if-Quiet c (is_empty resp.body) _ _ (λ _ t. t) (decode-Quiet c decode resp.body desc)

  pub self-Quiet : Quiet c (self c decode)
  unfolding self
  self-Quiet = fetch-Quiet _ _ refl

  pub competitions-Quiet : Quiet c (competitions c decode)
  unfolding competitions
  competitions-Quiet = fetch-Quiet _ _ refl

  pub activities-Quiet : (kind : Text) → Quiet c (activities c decode kind)
  unfolding activities
  activities-Quiet kind = after_required-Quiet c kind _ _ (fetch-Quiet _ _ refl)

  pub messages-Quiet : (opts : ListMessagesOptions) → Quiet c (messages c decode opts)
  unfolding messages
  messages-Quiet opts = fetch-Quiet _ _ refl

  read_probe-Quiet :
      (m : Outcome RawResponse × World)
      → OnlyReads c m.1.trace
      → OnlyReads c (read_probe decode m).1.trace
  unfolding read_probe
  read_probe-Quiet (err e, w) t = t
  read_probe-Quiet (diverged, w) t = t
  read_probe-Quiet (ok resp, w) t =
      if_elim (λ (o : Outcome T × World). OnlyReads c o.1.trace)
        (resp.status == 401 || is_empty resp.body) _ _ (λ _. t)
        (λ _. decode-Quiet c decode resp.body (codes "probe body") w t)

  pub probe-Quiet : Quiet c (probe c decode)
  unfolding probe
  probe-Quiet w t = read_probe-Quiet (perform c _ w) (perform-OnlyReads c _ refl w t)

  pub self_correlation-Quiet : (id : Text) → Quiet c (alpha_self_correlation c decode id)
  unfolding alpha_self_correlation
  self_correlation-Quiet id = after_required-Quiet c id _ _ (fetch_polled-Quiet _ _ refl)

  pub alpha_pnl-Quiet : (id : Text) → Quiet c (alpha_pnl c decode id)
  unfolding alpha_pnl
  alpha_pnl-Quiet id = after_required-Quiet c id _ _ (fetch_polled-Quiet _ _ refl)

  pub performance-Quiet :
      (competition id : Text) → Quiet c (before_and_after_performance c decode competition id)
  unfolding before_and_after_performance
  performance-Quiet competition id =
      after_required-Quiet c competition _ _
        (after_required-Quiet c id _ _ (fetch_polled-Quiet _ _ refl))

  pub list_alphas-Quiet : (opts : ListAlphasOptions) → Quiet c (list_alphas c decode opts)
  unfolding list_alphas
  list_alphas-Quiet opts = fetch-Quiet _ _ refl

module _ (c : Setup) where
  pub get_alpha-Quiet : (id : Text) → Quiet c (get_alpha c id)
  unfolding get_alpha
  get_alpha-Quiet id = after_required-Quiet c id _ _ (fetch-Quiet c _ _ _ refl)

  check_body-Quiet : (body : Text) → Quiet c (check_body c body)
  unfolding check_body
  check_body-Quiet body w t = ground arith

  pub check_alpha-Quiet : (id : Text) → Quiet c (check_alpha c id)
  unfolding check_alpha
  check_alpha-Quiet id = after_required-Quiet c id _ _ (
      bind-Quiet c (perform c _) _ (perform-OnlyReads c _ refl)
        λ resp. if-Quiet c (is_empty resp.body) _ _ (λ _ t. t) (check_body-Quiet resp.body))

  pub alpha_check_body-Quiet : (id : Text) → Quiet c (alpha_check_body c id)
  unfolding alpha_check_body
  alpha_check_body-Quiet id = bind-Quiet c (check_alpha c id) _ (check_alpha-Quiet id) (λ _ _ t. t)

  pub fetch_captcha-Quiet : Quiet c (fetch_captcha_challenge c)
  unfolding fetch_captcha_challenge
  fetch_captcha-Quiet =
      bind-Quiet c (perform c _) _ (perform-OnlyReads c _ refl)
        λ resp. if-Quiet c (resp.status == 200) _ _ (λ _ t. t) (λ _ t. t)

module _ {T : Type 0} (c : Setup) where
  pub operators-Quiet : (decode : Text → Option (List T)) → Quiet c (operators c decode)
  unfolding operators
  operators-Quiet decode = fetch-Quiet c decode _ _ refl

  pub data_fields-Quiet :
      (decode : Text → Option (CountedPage T)) (q : DataFieldsQuery)
      → Quiet c (data_fields c decode q)
  unfolding data_fields
  data_fields-Quiet decode q =
      if-Quiet c (is_underspecified q) _ _ (λ _ t. t) (fetch-Quiet c decode _ _ refl)
