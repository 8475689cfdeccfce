-- ===== src/Alphas/Submitted.antt =====
-- What a whole call of SubmitAlpha does.
use brainapi_go_sdk.Prelude.{
  ◌≤◌, length, List, [], ◌∷◌, arith, ℕ, zero, suc, ◌≡◌, ◌⊎◌, inl, inr, refl, Option, none, some,
  Text, codes, pos_part, subst,
}
use brainapi_go_sdk.Types.{RawResponse}
use brainapi_go_sdk.World.{World}
use brainapi_go_sdk.World.Monad.{
  M, Outcome, ok, err, diverged, Halts, Halts-continue, continue_rule,
}
use brainapi_go_sdk.Client.Budgets.{submit, BudgetKind, check_budget}
use brainapi_go_sdk.Alphas.Submit.{
  pending, answer, submit_request, submit_poll, pause_after, submit_alpha,
}
use brainapi_go_sdk.Alphas.Verdict.{parse_submit_verdict, Verdict}
use brainapi_go_sdk.Client.{Setup, require_non_empty}
use brainapi_go_sdk.Transport.Termination.{perform-Halts}
use brainapi_go_sdk.Transport.Do.{perform}

pause-Halts : (c : Setup) (resp : RawResponse) (w : World) → Halts (pause_after c resp w)
unfolding pause_after
pause-Halts c resp w = ground arith

answer-Halts :
    (o : Option Verdict) (again : M Verdict) (w : World)
    → ((v : World) → Halts (again v))
    → Halts (answer o again w)
answer-Halts none again w h = h w
answer-Halts (some v) again w h = tt

submit_poll-Halts :
    (c : Setup) (id : Text) (n : ℕ) (post : RawResponse) (w : World)
    → Halts (submit_poll c id n post w)
unfolding submit_poll
submit_poll-Halts c id zero post w = tt
submit_poll-Halts c id (suc n) post w = Halts-continue _ _ (pause-Halts c post w) λ _ v.
    Halts-continue _ _ (perform-Halts c (submit_request (codes "GET") id) v)
      (λ resp u. answer-Halts _ _ u (submit_poll-Halts c id n resp))

required-Halts : (val name : Text) (w : World) → Halts (require_non_empty val name w)
unfolding require_non_empty
required-Halts val name w = ground arith

pub budget-Halts : (c : Setup) (k : BudgetKind) (w : World) → Halts (check_budget c k w)
unfolding check_budget
budget-Halts c k w = ground arith

-- SubmitAlpha comes to an end, whatever the server answers.
pub submit_alpha-Halts : (c : Setup) (id : Text) (w : World) → Halts (submit_alpha c id w)
unfolding submit_alpha
submit_alpha-Halts c id w = Halts-continue _ _ (required-Halts id (codes "alpha id") w) λ _ v.
    Halts-continue _ _ (budget-Halts c submit v) λ _ u.
      Halts-continue _ _ (perform-Halts c (submit_request (codes "POST") id) u)
        (λ post t. answer-Halts _ _ t (submit_poll-Halts c id (pos_part c.max_long_polls) post))

-- The polls that follow a response: a pause after it, a GET, and the polls that follow the answer.
-- Each answer is what do returns in the world that the one before has left.
pub data Polled (c : Setup) (id : Text)
    : RawResponse → World → List RawResponse → World → Type 0 where
  unpolled : {post : RawResponse} {w : World} → Polled c id post w [] w
  polled :
      {post resp : RawResponse} {rs : List RawResponse} {w v u t : World}
      → pause_after c post w ≡ (ok tt, v)
      → perform c (submit_request (codes "GET") id) v ≡ (ok resp, u)
      → Polled c id resp u rs t
      → Polled c id post w (resp ∷ rs) t

abbrev pub AllUndecided : Setup → List RawResponse → Type 0
AllUndecided c [] = Unit {0}
AllUndecided c (r ∷ rs) = (parse_submit_verdict c.library r ≡ none) × AllUndecided c rs

-- The last response is the first that decides, and it gives the verdict.
abbrev pub IsDecided : Setup → Verdict → List RawResponse → Type 0
IsDecided c v [] = ⊥
IsDecided c v (r ∷ []) = parse_submit_verdict c.library r ≡ some v
IsDecided c v (r ∷ s ∷ rs) = (parse_submit_verdict c.library r ≡ none) × IsDecided c v (s ∷ rs)

-- What a verdict rests on, by a first response, the answers to the polls after it, and the polls that
-- are allowed.
abbrev pub RestsOn : Setup → ℕ → RawResponse → List RawResponse → Verdict → Type 0
RestsOn c n post rs v =
    (IsDecided c v (post ∷ rs) × (length rs ≤ n))
    ⊎ ((v ≡ pending) × AllUndecided c (post ∷ rs) × (length rs ≡ n))

abbrev Follows : Setup → Text → ℕ → RawResponse → World → Outcome Verdict × World → Type 0
Follows c id n post w (ok v, t) =
    (rs : List RawResponse) × Polled c id post w rs t × RestsOn c n post rs v
Follows c id n post w (err e, t) = Unit {0}
Follows c id n post w (diverged, t) = Unit {0}

abbrev pub Vouches : Setup → Text → World → Outcome Verdict × World → Type 0
Vouches c id w (ok v, t) =
    (post : RawResponse) × (rs : List RawResponse) × (s : World) × (u : World) × (check_budget c
        submit w
      ≡ (ok tt, s))
    × (perform c (submit_request (codes "POST") id) s ≡ (ok post, u))
    × Polled c id post u rs t
    × RestsOn c (pos_part c.max_long_polls) post rs v
Vouches c id w (err e, t) = Unit {0}
Vouches c id w (diverged, t) = Unit {0}

module _ (c : Setup) (id : Text) where
  -- One poll more in front.
  before-Follows :
      (n : ℕ) (post resp : RawResponse) (w v u : World) (m : Outcome Verdict × World)
      → parse_submit_verdict c.library post ≡ none
      → pause_after c post w ≡ (ok tt, v)
      → perform c (submit_request (codes "GET") id) v ≡ (ok resp, u)
      → Follows c id n resp u m
      → Follows c id (suc n) post w m
  before-Follows n post resp w v u (ok x, t) e p q (rs, a, inl (d, l)) =
      (resp ∷ rs, polled p q a, inl ((e, d), omega arith))
  before-Follows n post resp w v u (ok x, t) e p q (rs, a, inr (d, l, k)) =
      (resp ∷ rs, polled p q a, inr (d, (e, l), omega arith))
  before-Follows n post resp w v u (err x, t) e p q h = tt
  before-Follows n post resp w v u (diverged, t) e p q h = tt

  answer-Follows :
      (n : ℕ) (post : RawResponse) (w : World) (o : Option Verdict) (again : M Verdict)
      → parse_submit_verdict c.library post ≡ o
      → (parse_submit_verdict c.library post ≡ none → Follows c id n post w (again w))
      → Follows c id n post w (answer o again w)
  answer-Follows n post w none again e k = k e
  answer-Follows n post w (some v) again e k = ([], unpolled, inl (e, omega arith))

  submit_poll-Follows :
      (n : ℕ) (post : RawResponse) (w : World)
      → parse_submit_verdict c.library post ≡ none
      → Follows c id n post w (submit_poll c id n post w)
  unfolding submit_poll
  submit_poll-Follows zero post w e = ([], unpolled, inr (refl, (e, tt), refl))
  submit_poll-Follows (suc n) post w e =
      continue_rule (Follows c id (suc n) post w) (pause_after c post w) _ (λ _ _. tt) (λ _. tt)
        λ _ v p.
          continue_rule (Follows c id (suc n) post w)
            (perform c (submit_request (codes "GET") id) v) _ (λ _ _. tt) (λ _. tt)
            λ resp u q. before-Follows n post resp w v u _ e p q (
              answer-Follows n resp u (parse_submit_verdict c.library resp)
                (submit_poll c id n resp) refl (submit_poll-Follows n resp u))

  posted-Vouches :
      (w s u : World) (post : RawResponse) (m : Outcome Verdict × World)
      → check_budget c submit w ≡ (ok tt, s)
      → perform c (submit_request (codes "POST") id) s ≡ (ok post, u)
      → Follows c id (pos_part c.max_long_polls) post u m
      → Vouches c id w m
  posted-Vouches w s u post (ok v, t) b p (rs, a, d) = (post, rs, s, u, b, p, a, d)
  posted-Vouches w s u post (err e, t) b p h = tt
  posted-Vouches w s u post (diverged, t) b p h = tt

  required_same : (w v : World) → require_non_empty id (codes "alpha id") w ≡ (ok tt, v) → v ≡ w
  unfolding require_non_empty
  required_same w v e = ground arith

-- The verdict that SubmitAlpha returns comes of one charge of the budget, one POST and the polls
-- after it, each a pause and a GET: either the last of their responses is the first that
-- parseSubmitVerdict decides, and gives that verdict, or it is pending_corr after as many polls as
-- MaxLongPolls allows, none of whose responses, nor that of the POST, decides.
pub submit_alpha-Vouches :
    (c : Setup) (id : Text) (w : World) → Vouches c id w (submit_alpha c id w)
unfolding submit_alpha
submit_alpha-Vouches c id w =
    continue_rule (Vouches c id w) (require_non_empty id (codes "alpha id") w) _ (λ _ _. tt)
      (λ _. tt)
      λ _ v r.
        continue_rule (Vouches c id w) (check_budget c submit v) _ (λ _ _. tt) (λ _. tt)
          λ _ s b.
            continue_rule (Vouches c id w) (perform c (submit_request (codes "POST") id) s) _
              (λ _ _. tt) (λ _. tt)
              λ post u p.
                posted-Vouches c id w s u post _
                  (subst (λ x. check_budget c submit x ≡ (ok tt, s)) (required_same c id w v r) b) p
                  (answer-Follows c id (pos_part c.max_long_polls) post u
                    (parse_submit_verdict c.library post)
                    (submit_poll c id (pos_part c.max_long_polls) post) refl
                    (submit_poll-Follows c id (pos_part c.max_long_polls) post u))
