-- ===== src/Client/Gate.antt =====
-- What preflight lets through.
use brainapi_go_sdk.Prelude.{false, ◌≡◌, ◌↔◌, none, arith}
use brainapi_go_sdk.Client.{Setup, preflight}
use brainapi_go_sdk.World.{World}
use brainapi_go_sdk.World.Monad.{ok}

-- With no cooldown set, preflight lets a call through exactly when the client is not banned, and it
-- never changes the state.
pub preflight_lem :
    (c : Setup) (w : World)
    → w.state.cooldown_until ≡ none
    → ((preflight c w).0 ≡ ok tt ↔ w.state.banned_flag ≡ false) × ((preflight c w).1 ≡ w)
unfolding preflight
preflight_lem c w h = ground arith
