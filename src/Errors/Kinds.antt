-- ===== src/Errors/Kinds.antt =====
-- pkg/brainapi/errors.go: the kinds of Classify.
use brainapi_go_sdk.Prelude.{ℕ, Bool, true, false, ◌≡◌, refl, List, if◌then◌else◌}
use brainapi_go_sdk.Errors.{
  Error, api, rate_limit, banned, not_verified, permission_denied, drf, persona_inquiry,
  err_not_authenticated, err_daily_budget_exhausted, err_cooldown, err_long_poll_exceeded,
  err_invalid_argument, canceled, deadline_exceeded, net, opaque, wrapped, net_wrapped,
}
use brainapi_go_sdk.Errors.Classify.{
  Kind, api_kind, rate_limit_kind, banned_kind, permission_denied_kind, drf_validation_kind,
  not_verified_kind, persona_inquiry_kind, budget_kind, not_authenticated_kind, cooldown_kind,
  long_poll_exceeded_kind, context_kind, invalid_argument_kind, network_kind, error_kind, classify,
}

-- The last error of a chain of wraps.
abbrev pub root : Error → Error
root (wrapped m e) = root e
root (net_wrapped m e) = root e
root e = e

-- Some wrap of the chain is a net.Error.
abbrev pub crosses_network : Error → Bool
crosses_network (wrapped m e) = crosses_network e
crosses_network (net_wrapped m e) = true
crosses_network _ = false

-- The kind of an error by its root alone, where the root has a kind of its own.
abbrev pub kind_of_root : Bool → Error → Kind
kind_of_root b (api e) = api_kind
kind_of_root b (rate_limit e) = rate_limit_kind
kind_of_root b (banned e) = banned_kind
kind_of_root b (not_verified e) = not_verified_kind
kind_of_root b (permission_denied e) = permission_denied_kind
kind_of_root b (drf e) = drf_validation_kind
kind_of_root b (persona_inquiry e) = persona_inquiry_kind
kind_of_root b err_not_authenticated = not_authenticated_kind
kind_of_root b err_daily_budget_exhausted = budget_kind
kind_of_root b err_cooldown = cooldown_kind
kind_of_root b err_long_poll_exceeded = long_poll_exceeded_kind
kind_of_root b err_invalid_argument = invalid_argument_kind
kind_of_root b canceled = context_kind
kind_of_root b deadline_exceeded = context_kind
kind_of_root b (net m) = network_kind
kind_of_root b (opaque m) = if b then network_kind else error_kind
kind_of_root b (wrapped m e) = error_kind
kind_of_root b (net_wrapped m e) = error_kind

net_wrapped_root :
    (m : List ℕ) (e : Error) → (classify (net_wrapped m e)).0 ≡ kind_of_root true (root e)
unfolding classify
net_wrapped_root m (wrapped n e) = net_wrapped_root n e
net_wrapped_root m (net_wrapped n e) = net_wrapped_root n e
net_wrapped_root m (api x) = refl
net_wrapped_root m _ = refl

-- However deep an error is wrapped, Classify reads its kind off the root of the chain alone; only
-- where the root is no error of the SDK, of context or of net does it matter whether a network
-- error wraps it on the way: then the kind is network, and else error.
pub classify-root : (e : Error) → (classify e).0 ≡ kind_of_root (crosses_network e) (root e)
unfolding classify
classify-root (wrapped m e) = classify-root e
classify-root (net_wrapped m e) = net_wrapped_root m e
classify-root _ = refl
