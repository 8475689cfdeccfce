-- ===== src/Mcp/Reading.antt =====
-- cmd/brainapi-mcp/main.go: the functions of the tools that registerReadTools adds, as add_tool takes
-- them.
use brainapi_go_sdk.Prelude.{Bool, List, Text, ℕ, ℤ, Option, []}
use brainapi_go_sdk.World.Monad.{M}
use brainapi_go_sdk.Errors.{Error}
use brainapi_go_sdk.Types.{Alpha, IsBlock, Simulation}
use brainapi_go_sdk.Client.{Setup}
use brainapi_go_sdk.Auth.{probe}
use brainapi_go_sdk.Account.{self, competitions, activities, messages, ListMessagesOptions}
use brainapi_go_sdk.Alphas.{
  get_alpha, check_alpha, alpha_check_body, alpha_self_correlation, alpha_pnl, list_alphas,
  ListAlphasOptions,
}
use brainapi_go_sdk.Performance.{before_and_after_performance}
use brainapi_go_sdk.Iterators.{Page, list_alphas_all, messages_all}
use brainapi_go_sdk.Schema.{DataFieldsQuery, CountedPage, operators, data_fields, data_fields_all}
use brainapi_go_sdk.Simulations.Wait.{get_simulation, wait_for_simulation}
use brainapi_go_sdk.Register.{fetch_captcha_challenge}
use brainapi_go_sdk.Mcp.{drain_chan}

pub record ListAlphasArg : Type 0 where
  pub status : Text
  pub limit : ℤ
  pub offset : ℤ
  pub order : Text

pub record MessagesArg : Type 0 where
  pub kind : Text  -- Type
  pub limit : ℤ
  pub offset : ℤ
  pub order : Text

pub record DataFieldsArg : Type 0 where
  pub region : Text
  pub universe : Text
  pub delay : ℤ
  pub instrument_type : Text
  pub limit : ℤ
  pub offset : ℤ

pub record PerformanceArg : Type 0 where
  pub competition_id : Text
  pub alpha_id : Text

-- dfQuery
unfoldable pub df_query : DataFieldsArg → DataFieldsQuery
df_query a = record {
  instrument_type = a.instrument_type;
  region = a.region;
  universe = a.universe;
  delay = a.delay;
  limit = a.limit;
  offset = a.offset;
  dataset = [];
}

abbrev pub alphas_options : ListAlphasArg → ListAlphasOptions
alphas_options a = record {
  status = a.status;
  limit = a.limit;
  offset = a.offset;
  order = a.order;
  filters = [];
}

abbrev pub messages_options : MessagesArg → ListMessagesOptions
messages_options a = record { kind = a.kind; limit = a.limit; offset = a.offset; order = a.order }

-- The tools with a result of one type, over what decodes it.
module _ {T : Type 0} (c : Setup) (decode : Text → Option T) where
  abbrev pub probe_tool : M T
  probe_tool = probe c decode

  abbrev pub whoami : M T
  whoami = self c decode

  abbrev pub competitions_tool : M T
  competitions_tool = competitions c decode

  abbrev pub self_correlation_tool : Text → M T
  self_correlation_tool = alpha_self_correlation c decode

  abbrev pub alpha_pnl_tool : Text → M T
  alpha_pnl_tool = alpha_pnl c decode

  abbrev pub performance_tool : PerformanceArg → M T
  performance_tool a = before_and_after_performance c decode a.competition_id a.alpha_id

  abbrev pub activities_tool : Text → M T
  activities_tool = activities c decode

  abbrev pub list_alphas_tool : ListAlphasArg → M T
  list_alphas_tool a = list_alphas c decode (alphas_options a)

  abbrev pub messages_tool : MessagesArg → M T
  messages_tool a = messages c decode (messages_options a)

module _ (c : Setup) where
  abbrev pub get_alpha_tool : Text → M Alpha
  get_alpha_tool = get_alpha c

  abbrev pub check_alpha_tool : Text → M IsBlock
  check_alpha_tool = check_alpha c

  abbrev pub check_alpha_decoded : Text → M (Bool × List Text)
  check_alpha_decoded = alpha_check_body c

  abbrev pub get_simulation_tool : Text → M Simulation
  get_simulation_tool = get_simulation c

  abbrev pub wait_simulation : Text → M Simulation
  wait_simulation = wait_for_simulation c

  abbrev pub captcha_challenge : M Text
  captcha_challenge = fetch_captcha_challenge c

-- The tools with lists of a type. `choice` and `fuel` are those of the walk.
module _ {T : Type 0} (c : Setup) where
  abbrev pub operators_tool : (Text → Option (List T)) → M (List T)
  operators_tool = operators c

  abbrev pub data_fields_tool : (Text → Option (CountedPage T)) → DataFieldsArg → M (CountedPage T)
  data_fields_tool decode a = data_fields c decode (df_query a)

  module _ (choice : ℕ → Option Error) (fuel : ℕ) where
    unfoldable pub list_alphas_all_tool : (Text → Option (Page T)) → ListAlphasArg → M (List T)
    unfolding list_alphas_all drain_chan
    list_alphas_all_tool decode a w =
        drain_chan (list_alphas_all c decode (alphas_options a) choice fuel w)

    unfoldable pub messages_all_tool : (Text → Option (Page T)) → MessagesArg → M (List T)
    unfolding messages_all drain_chan
    messages_all_tool decode a w =
        drain_chan (messages_all c decode (messages_options a) choice fuel w)

    unfoldable pub data_fields_all_tool :
        (Text → Option (CountedPage T)) → DataFieldsArg → M (List T)
    unfolding data_fields_all drain_chan df_query
    data_fields_all_tool decode a w =
        drain_chan (data_fields_all c decode (df_query a) choice fuel w)
