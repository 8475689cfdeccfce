-- ===== src/Client/Options.antt =====
-- pkg/brainapi/client.go: Options and NewClient. Logger and Observer are left out.
use brainapi_go_sdk.Prelude.{
  ◌⊎◌, zero, suc, Bool, true, false, ◌||◌, Option, none, some, [], ◌∷◌, ◌≡◌, ◌≢◌, Text, codes, ℤ,
  pos, negsuc, ltb_ℤ, if◌then◌else◌, arith, ◌*◌,
}
use brainapi_go_sdk.Errors.{Error}
use brainapi_go_sdk.Retry.{second}
use brainapi_go_sdk.World.{State}
use brainapi_go_sdk.Client.{Config}

pub record Options : Type 0 where
  pub base_url : Text
  pub profile : Text
  pub proxy : Text
  pub cookie_jar_path : Text
  pub timeout : ℤ
  pub max_retries : ℤ
  pub max_long_polls : ℤ
  pub max_concurrent_sims : ℤ
  pub ban_threshold : ℤ
  pub budget_sims : ℤ
  pub budget_submits : ℤ
  pub has_solver : Bool
  pub email : Text
  pub password : Text

abbrev or_default : ℤ → ℤ → ℤ
or_default (pos zero) d = d
or_default (pos (suc n)) d = pos (suc n)
or_default (negsuc n) d = negsuc n

abbrev or_text : Text → Text → Text
or_text [] d = d
or_text (c ∷ s) d = c ∷ s

-- The client with its defaults filled in. `base_path` is the path of the parsed base URL, and
-- `default_solver` tells whether SetDefaultCaptchaSolver was called.
unfoldable pub config_of : Options → Text → Bool → Config
config_of o base_path default_solver = record {
  base_path = base_path;
  profile = or_text o.profile (codes "chrome131");
  proxy = o.proxy;
  cookie_jar_path = o.cookie_jar_path;
  timeout = or_default o.timeout (pos (15 * second));
  max_retries = or_default o.max_retries (pos 3);
  max_long_polls = or_default o.max_long_polls (pos 60);
  max_concurrent_sims = or_default o.max_concurrent_sims (pos 2);
  ban_threshold = or_default o.ban_threshold (pos 3);
  budget_sims = o.budget_sims;
  budget_submits = o.budget_submits;
  has_solver = o.has_solver || default_solver;
}

unfoldable pub initial_state : Options → State
initial_state o = record {
  email = o.email;
  password = o.password;
  consecutive403 = pos 0;
  banned_flag = false;
  ban_reason = none;
  cooldown_until = none;
  budget = record { day = []; sims = 0; subs = 0 };
}

-- `panicked`: make(chan struct{}, n) with a negative n.
pub data NewClient : Type 0 where
  built : Config → State → NewClient
  refused : Error → NewClient
  panicked : NewClient

-- `parse_url` is url.Parse with the path kept, `init_tls` the error of newTLSHTTP.
unfoldable pub new_client :
    (Text → Option Text) → (Text → Error) → Bool → Option Error → Options → NewClient
unfolding config_of initial_state
new_client parse_url url_error default_solver init_tls o =
    let url = or_text o.base_url (codes "https://api.worldquantbrain.com") in
    elim (parse_url url) [
      | none ↦ refused (url_error url)
      | some base_path ↦
          let c = config_of o base_path default_solver in
          if ltb_ℤ c.max_concurrent_sims (pos 0)
          then panicked
          else elim init_tls [ some e ↦ refused e | none ↦ built c (initial_state o) ]
    ]

-- A client that NewClient built has no zero among its limits, has a slot for at least one
-- simulation, and starts without a ban or a cooldown. A BanThreshold of 0 gives the threshold 3,
-- as if it had not been set.
pub new_client_limits :
    (parse_url : Text → Option Text) (url_error : Text → Error) (default_solver : Bool)
    (init_tls : Option Error) (o : Options) (c : Config) (s : State)
    → new_client parse_url url_error default_solver init_tls o ≡ built c s
    → (c.max_retries ≢ pos 0)
      × (c.max_long_polls ≢ pos 0)
      × (ltb_ℤ (pos 0) c.max_concurrent_sims ≡ true)
      × (c.ban_threshold ≢ pos 0)
      × ((o.ban_threshold ≢ pos 0) ⊎ (c.ban_threshold ≡ pos 3))
      × (s.banned_flag ≡ false)
      × (s.cooldown_until ≡ none)
unfolding new_client
new_client_limits parse_url url_error default_solver init_tls o c s h = ground arith
