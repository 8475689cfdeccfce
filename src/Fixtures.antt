-- ===== src/Fixtures.antt =====
-- A concrete client for the examples: a server that answers by the path, a clock that stands still,
-- and decoders that read one body each.
use brainapi_go_sdk.Prelude.{
  ℕ, true, false, none, some, [], ◌∷◌, ◌*◌, Text, codes, text_eq, contains, pos, if◌then◌else◌,
}
use brainapi_go_sdk.Errors.{net}
use brainapi_go_sdk.Types.{RawRequest, RawResponse, Check, parsed, unparsed}
use brainapi_go_sdk.Runtime.{Library, Reply, response, failure}
use brainapi_go_sdk.World.{Budget, World}
use brainapi_go_sdk.Client.{Config, Setup}
use brainapi_go_sdk.Retry.{second}
use brainapi_go_sdk.Transport.Request.{DoRequest, plain_request}

abbrev pub passed_check : Check
passed_check = record {
  name = codes "SELF_CORRELATION";
  result = codes "PASS";
  value = some (codes "0.31");
}

abbrev pub failed_check : Check
failed_check = record { name = codes "LOW_SHARPE"; result = codes "FAIL"; value = none }

abbrev pub library : Library
library = record {
  parse_float = λ h.
      if text_eq h (codes "2.5")
      then some (record { nonneg = true; seconds = pos 2500000000; truncated = pos 2 })
      else none;
  parse_rfc1123 = λ _. none;
  unmarshal_detail = λ b. if text_eq b (codes "{D}") then some (codes "no") else none;
  unmarshal_object = λ _. some [];
  unmarshal_string = λ _. none;
  unmarshal_strings = λ _. none;
  unmarshal_session = λ _. some (record { user = some (codes "u"); inquiry = [] });
  unmarshal_is = λ b.
      if text_eq b (codes "{PASS}")
      then parsed (some (record { checks = passed_check ∷ [] }))
      else if text_eq b (codes "{FAIL}")
      then parsed (some (record { checks = failed_check ∷ passed_check ∷ [] }))
      else if text_eq b (codes "{}")
      then parsed none
      else unparsed (codes "syntax");
  unmarshal_alpha = λ b. none;
  unmarshal_simulation = λ b. some (record {
    id = codes "s";
    status = codes "COMPLETE";
    alpha = [];
    children = codes "s2" ∷ codes "s3" ∷ [];
  });
  marshal = λ _. some (codes "{}");
  base64 = λ t. t;
  query_encode = λ _. [];
  query_escape = λ t. t;
  url_string = λ path _. path;
  format_day = λ _. codes "2026-01-02";
}

abbrev pub answer : ℕ → Text → RawResponse
answer status body = record {
  status = status;
  header = λ name. if text_eq name (codes "Retry-After") then codes "7" else [];
  body = body;
}

-- Under /broken a server error at each call, under /blocked an opaque 403, under /private an expired
-- session, and under /offline a network error.
abbrev reply : ℕ → RawRequest → Reply
reply tick r =
    if contains r.url (codes "/broken")
    then response (answer 500 [])
    else if contains r.url (codes "/blocked")
    then response (answer 403 [])
    else if contains r.url (codes "/private")
    then response (answer 401 [])
    else if contains r.url (codes "/offline")
    then failure (net (codes "refused"))
    else response (answer 201 (codes "{PASS}"))

abbrev pub config : Config
config = record {
  base_path = [];
  profile = codes "chrome131";
  proxy = [];
  cookie_jar_path = [];
  timeout = pos (15 * second);
  max_retries = pos 2;
  max_long_polls = pos 3;
  max_concurrent_sims = pos 2;
  ban_threshold = pos 3;
  budget_sims = pos 5;
  budget_submits = pos 1;
  has_solver = false;
}

abbrev pub client : Setup
client = record {
  config = config;
  library = library;
  environment = record { reply = reply; ctx_err = λ _. none; now = λ _. pos 0 };
}

abbrev pub no_budget : Budget
no_budget = record { day = codes "2026-01-02"; sims = 0; subs = 0 }

abbrev pub start : World
start = record {
  state = record {
    email = codes "e";
    password = codes "p";
    consecutive403 = pos 0;
    banned_flag = false;
    ban_reason = none;
    cooldown_until = none;
    budget = no_budget;
  };
  tick = 0;
  trace = [];
}

abbrev pub get_at : Text → DoRequest
get_at path = plain_request (codes "GET") path
