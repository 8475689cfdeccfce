-- ===== src/Register/Form.antt =====
-- The form that Register sends, against the one that it is given.
use brainapi_go_sdk.Prelude.{
  subst, true, false, not, codes, ◌⊎◌, arith, if_elim, ◌≡◌, ◌≢◌, Text, is_empty, List, [], ◌∷◌, inl,
  inr, refl,
}
use brainapi_go_sdk.World.Monad.{map_error, map_error, continue_rule, Outcome, ok, err, diverged}
use brainapi_go_sdk.Register.{
  agree_all, fetch_captcha_challenge, or_agreed, CaptchaSolver, complete_form, captcha_of,
  with_defaults,
}
use brainapi_go_sdk.Client.{Setup, require_non_empty}
use brainapi_go_sdk.Types.{RegisterInput, RegisterAuxiliary}
use brainapi_go_sdk.World.{World}
use brainapi_go_sdk.Errors.{wrapped}

-- The captcha that was given, or, where none was, the one that the solver found.
abbrev pub SolvedBy : Setup → CaptchaSolver → Text → Text → Type 0
SolvedBy c solve given captcha =
    ((given ≢ []) × (captcha ≡ given))
    ⊎ ((given ≡ [])
        × ((v : World) × (u : World) × (solve (fetch_captcha_challenge c) v ≡ (ok captcha, u))))

pub record IsComplete (c : Setup) (solve : CaptchaSolver) (form sent : RegisterInput) : Type 0 where
  pub email : (sent.email ≡ form.email) × (form.email ≢ [])
  pub password :
      (sent.auxiliary.password ≡ form.auxiliary.password) × (form.auxiliary.password ≢ [])
  pub confirmation :
      ((form.auxiliary.confirmation ≢ [])
        × (sent.auxiliary.confirmation ≡ form.auxiliary.confirmation))
      ⊎ ((form.auxiliary.confirmation ≡ [])
          × (sent.auxiliary.confirmation ≡ form.auxiliary.password))
  pub agree :
      ((form.auxiliary.agree ≢ []) × (sent.auxiliary.agree ≡ form.auxiliary.agree))
      ⊎ ((form.auxiliary.agree ≡ []) × (sent.auxiliary.agree ≡ agree_all))
  pub captcha : SolvedBy c solve form.auxiliary.captcha sent.auxiliary.captcha
  pub others : sent.others ≡ form.others

abbrev pub Completes :
    Setup → CaptchaSolver → RegisterInput → Outcome RegisterInput × World → Type 0
Completes c solve form (ok sent, w) = IsComplete c solve form sent
Completes c solve form (err e, w) = Unit {0}
Completes c solve form (diverged, w) = Unit {0}

abbrev Solves : Setup → CaptchaSolver → Text → Outcome Text × World → Type 0
Solves c solve given (ok t, w) = SolvedBy c solve given t
Solves c solve given (err e, w) = Unit {0}
Solves c solve given (diverged, w) = Unit {0}

empty_cases : (t : Text) → ((t ≢ []) × (is_empty t ≡ false)) ⊎ ((t ≡ []) × (is_empty t ≡ true))
unfolding is_empty
empty_cases [] = inr (refl, refl)
empty_cases (x ∷ t) = inl (λ e. cc, refl)

wrapped-Solves :
    (c : Setup) (solve : CaptchaSolver) (given : Text) (w : World) (o : Outcome Text × World)
    → given ≡ []
    → solve (fetch_captcha_challenge c) w ≡ o
    → Solves c solve given (map_error (wrapped (codes "captcha solve")) o)
wrapped-Solves c solve given w (ok t, v) g e = inr (g, (w, v, e))
wrapped-Solves c solve given w (err x, v) g e = tt
wrapped-Solves c solve given w (diverged, v) g e = tt

captcha-Solves :
    (c : Setup) (solve : CaptchaSolver) (given : Text) (w : World)
    → Solves c solve given (captcha_of c solve given w)
unfolding captcha_of
captcha-Solves c solve given w = elim (empty_cases given) [
  | inl h ↦ rw h.1 (inl (h.0, refl))
  | inr h ↦ rw h.1 (
      if_elim (Solves c solve given) (not c.has_solver) _ _ (λ _. tt)
        (λ _. wrapped-Solves c solve given w _ h.0 refl))
]

required_ok : (val name : Text) (w v : World) → require_non_empty val name w ≡ (ok tt, v) → val ≢ []
unfolding require_non_empty is_empty
required_ok [] name w v e = absurd (ground arith)
required_ok (x ∷ val) name w v e = λ q. cc

confirmed :
    (a : RegisterAuxiliary)
    → ((a.confirmation ≢ []) × ((with_defaults a).confirmation ≡ a.confirmation))
      ⊎ ((a.confirmation ≡ []) × ((with_defaults a).confirmation ≡ a.password))
unfolding with_defaults
confirmed a = elim (empty_cases a.confirmation) [
  | inl h ↦ inl (h.0, ground (arith, h.1))
  | inr h ↦ inr (h.0, ground (arith, h.1))
]

agreed :
    (ts : List Text) → ((ts ≢ []) × (or_agreed ts ≡ ts)) ⊎ ((ts ≡ []) × (or_agreed ts ≡ agree_all))
agreed [] = inr (refl, refl)
agreed (t ∷ ts) = inl (λ e. cc, refl)

-- A completed form against the one that was given.
pub complete_form-Completes :
    (c : Setup) (solve : CaptchaSolver) (form : RegisterInput) (w : World)
    → Completes c solve form (complete_form c solve form w)
unfolding complete_form with_defaults
complete_form-Completes c solve form w =
    continue_rule (Completes c solve form) (require_non_empty form.email (codes "email") w) _
      (λ _ _. tt) (λ _. tt)
      λ _ v named.
        continue_rule (Completes c solve form)
          (require_non_empty form.auxiliary.password (codes "auxiliary.password") v) _ (λ _ _. tt)
          (λ _. tt)
          λ _ u locked.
            continue_rule (Completes c solve form) (captcha_of c solve form.auxiliary.captcha u) _
              (λ _ _. tt) (λ _. tt)
              λ captcha t solved. record {
                email = (refl, required_ok form.email (codes "email") w v named);
                password = (
                  refl,
                  required_ok form.auxiliary.password (codes "auxiliary.password") v u locked,
                );
                confirmation = unfold with_defaults in confirmed form.auxiliary;
                agree = agreed form.auxiliary.agree;
                captcha =
                    subst (Solves c solve form.auxiliary.captcha) solved
                      (captcha-Solves c solve form.auxiliary.captcha u);
                others = refl;
              }
