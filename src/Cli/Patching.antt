-- ===== src/Cli/Patching.antt =====
-- The requests of `alphas set-properties`, against the flags that were passed.
use brainapi_go_sdk.Prelude.{
  refl, inr, none, inl, some, ◌≡◌, arith, ◌⊎◌, Option, ◌↔◌, Text, List, codes,
}
use brainapi_go_sdk.Cli.Alphas.{properties_of, alphas_set_properties, PropertyFlags}
use brainapi_go_sdk.Cli.{hangs, crashed, misused, exited, success, write_err}
use brainapi_go_sdk.Client.{Config, require_non_empty, Setup}
use brainapi_go_sdk.Cli.Shell.{world_of, setup_of, cli_client, written, Shell, Run, run_e}
use brainapi_go_sdk.Types.{properties, Alpha, RawRequest, RawResponse, Member}
use brainapi_go_sdk.World.Monad.{
  return, fail, diverged, M, err, continue_rule, continue-keeps, ok, Outcome,
}
use brainapi_go_sdk.Alphas.{alpha_path, patch_alpha, set_alpha_properties}
use brainapi_go_sdk.Transport.Login.{decode_body}
use brainapi_go_sdk.Transport.Request.{body_bytes, request_url}
use brainapi_go_sdk.Cli.Patched.{properties_of-IsSent, IsSent, Has}
use brainapi_go_sdk.Endpoint.{fetch}
use brainapi_go_sdk.Transport.Asked.{login_request-IsLogin, perform-Only, Only, IsLogin}
use brainapi_go_sdk.World.{State, World}
use brainapi_go_sdk.Transport.Do.{perform}
use brainapi_go_sdk.Client.Url.{join_url}
use brainapi_go_sdk.Client.Options.{built}
use brainapi_go_sdk.Alphas.Properties.{wire_members}
use brainapi_go_sdk.Transport.Perform.{raw_request}
use brainapi_go_sdk.Errors.{opaque, wrapped}

-- The members of a body are those that the flags stand for.
abbrev pub IsExactly : PropertyFlags → List (Text × Member) → Type 0
IsExactly f ms = (k : Text) (m : Member) → Has k m ms ↔ IsSent f k m

-- The PATCH of the alpha with the members of the flags, or the request of a re-login.
abbrev pub IsPatching : Setup → PropertyFlags → Text → RawRequest → Type 0
IsPatching c f id x =
    IsLogin c x
    ⊎ ((x.method ≡ codes "PATCH")
        × (x.url ≡ join_url c (alpha_path id) none)
        × ((ms : List (Text × Member)) × (c.library.marshal (properties ms) ≡ some x.body)
            × IsExactly f ms))

-- An alpha that is returned was decoded from the response to such a PATCH.
abbrev Patches : Setup → PropertyFlags → Text → Outcome Alpha × World → Type 0
Patches c f id (ok a, t) =
    (ms : List (Text × Member)) × (resp : RawResponse) × (u : World) × IsExactly f ms
    × (perform c (patch_alpha id (properties ms)) u ≡ (ok resp, t))
    × (c.library.unmarshal_alpha resp.body ≡ some a)
Patches c f id (err e, t) = Unit {0}
Patches c f id (diverged, t) = Unit {0}

module _ (c : Setup) (f : PropertyFlags) (id : Text) where
  patch-IsPatching :
      (body : Text)
      → body_bytes c (patch_alpha id (properties (wire_members (properties_of f)))) ≡ some body
      → IsPatching c f id
          (raw_request c (patch_alpha id (properties (wire_members (properties_of f)))) body)
  unfolding request_url body_bytes
  patch-IsPatching body e =
      inr (refl, refl, (wire_members (properties_of f), e, properties_of-IsSent f))

  decode-Only :
      (body desc : Text) (w : World)
      → Only (IsPatching c f id) w.trace
      → Only (IsPatching c f id) (decode_body c.library.unmarshal_alpha body desc w).1.trace
  unfolding decode_body
  decode-Only body desc w t = ground arith

  required-Only :
      (val name : Text) (w : World)
      → Only (IsPatching c f id) w.trace
      → Only (IsPatching c f id) (require_non_empty val name w).1.trace
  unfolding require_non_empty
  required-Only val name w t = ground arith

  set-Only :
      (w : World)
      → Only (IsPatching c f id) w.trace
      → Only (IsPatching c f id) (set_alpha_properties c id (properties_of f) w).1.trace
  unfolding set_alpha_properties fetch
  set-Only w t =
      continue-keeps (λ v. Only (IsPatching c f id) v.trace)
        (require_non_empty id (codes "alpha id") w) _ (required-Only id (codes "alpha id") w t)
        λ _ v k.
          continue-keeps (λ v. Only (IsPatching c f id) v.trace)
            (perform c (patch_alpha id (properties (wire_members (properties_of f)))) v) _
            (perform-Only (IsPatching c f id) c
              (patch_alpha id (properties (wire_members (properties_of f)))) patch-IsPatching
              (λ e p body. inl (login_request-IsLogin c e p body)) v k)
            (λ resp u. decode-Only resp.body (codes "alpha") u)

  decoded-Patches :
      (resp : RawResponse) (u t : World) (o : Option Alpha)
      → c.library.unmarshal_alpha resp.body ≡ o
      → perform c (patch_alpha id (properties (wire_members (properties_of f)))) u ≡ (ok resp, t)
      → Patches c f id (
          (elim o as (λ _. M Alpha) [
            | none ↦ fail (wrapped (codes "alpha") (opaque resp.body))
            | some v ↦ return v
          ])
            t)
  decoded-Patches resp u t none d e = tt
  decoded-Patches resp u t (some a) d e =
      (wire_members (properties_of f), resp, u, properties_of-IsSent f, e, d)

  set-Patches : (w : World) → Patches c f id (set_alpha_properties c id (properties_of f) w)
  unfolding set_alpha_properties fetch decode_body
  set-Patches w =
      continue_rule (Patches c f id) (require_non_empty id (codes "alpha id") w) _ (λ _ _. tt)
        (λ _. tt)
        λ _ v _.
          continue_rule (Patches c f id)
            (perform c (patch_alpha id (properties (wire_members (properties_of f)))) v) _
            (λ _ _. tt) (λ _. tt)
            (λ resp u e. decoded-Patches resp v u (c.library.unmarshal_alpha resp.body) refl e)

-- What the command leaves: requests of that kind alone, and with a success the response to one.
abbrev pub Sends : Setup → PropertyFlags → Text → Run Alpha → Type 0
Sends c f id (success a, trace) =
    Only (IsPatching c f id) trace
    × ((ms : List (Text × Member)) × (resp : RawResponse) × (u : World) × (t : World) × IsExactly f
          ms
        × (perform c (patch_alpha id (properties ms)) u ≡ (ok resp, t))
        × (t.trace ≡ trace)
        × (c.library.unmarshal_alpha resp.body ≡ some a))
Sends c f id (exited kind d code, trace) = Only (IsPatching c f id) trace
Sends c f id (misused e, trace) = Only (IsPatching c f id) trace
Sends c f id (crashed, trace) = ⊥
Sends c f id (hangs, trace) = Only (IsPatching c f id) trace

written-Sends :
    (c : Setup) (f : PropertyFlags) (id : Text) (m : Outcome Alpha × World)
    → Only (IsPatching c f id) m.1.trace
    → Patches c f id m
    → Sends c f id (written m)
unfolding write_err
written-Sends c f id (ok a, t) o (ms, resp, u, x, e, d) = (o, (ms, resp, u, t, x, e, refl, d))
written-Sends c f id (err e, t) o p = o
written-Sends c f id (diverged, t) o p = o

-- With a client that newClient builds, every request of alphas set-properties is the login of a 401
-- or a PATCH of the alpha with exactly these members: for each description flag that was passed the
-- leg of that name with the text of the flag, for --name, --color and --category that were passed
-- their texts, and the tags that splitTags finds if --tags was passed and it finds at least one. A
-- success is the alpha that the response to such a PATCH decodes to.
pub alphas_set_properties-Sends :
    (s : Shell) (f : PropertyFlags) (id : Text) (config : Config) (state : State)
    → cli_client s ≡ built config state
    → Sends (setup_of s config) f id (alphas_set_properties s f id)
unfolding alphas_set_properties run_e
alphas_set_properties-Sends s f id config state h = rw h (
    written-Sends (setup_of s config) f id _ (set-Only (setup_of s config) f id (world_of state) tt)
      (set-Patches (setup_of s config) f id (world_of state)))
