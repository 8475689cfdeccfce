-- ===== src/Mcp/Calls.antt =====
-- cmd/brainapi-mcp/main.go: registerReadTools as one function, from a call of a tool with its arguments
-- to what its handler gives.
use brainapi_go_sdk.Prelude.{Bool, List, Text}
use brainapi_go_sdk.Mcp.Reading.{
  captcha_challenge, wait_simulation, get_simulation_tool, data_fields_all_tool, data_fields_tool,
  messages_all_tool, messages_tool, list_alphas_all_tool, list_alphas_tool, activities_tool,
  performance_tool, alpha_pnl_tool, self_correlation_tool, check_alpha_decoded, check_alpha_tool,
  get_alpha_tool, operators_tool, competitions_tool, whoami, DataFieldsArg, MessagesArg, probe_tool,
  ListAlphasArg, PerformanceArg,
}
use brainapi_go_sdk.Mcp.{
  simulations_wait_multi, MultiSimWaitResult, hangs, refused, add_tool, returned, Called,
}
use brainapi_go_sdk.World.Monad.{M}
use brainapi_go_sdk.Cli.Dispatch.{
  data_field, message, alpha_row, activity_stream, performance, pnl_series, self_block, operator,
  competition, user, session_info, Tools,
}
use brainapi_go_sdk.World.{World}
use brainapi_go_sdk.Client.{Setup}
use brainapi_go_sdk.Iterators.{Page}
use brainapi_go_sdk.Schema.{CountedPage}
use brainapi_go_sdk.Types.{Simulation, IsBlock, Alpha}

pub data ReadCall : Type 0 where
  call_probe call_whoami call_competitions call_operators call_captcha_challenge : ReadCall
  call_get_alpha call_check_alpha call_check_alpha_decoded : Text → ReadCall
  call_self_correlation call_alpha_pnl call_activities : Text → ReadCall
  call_get_simulation call_wait_simulation call_simulations_wait_multi : Text → ReadCall
  call_performance : PerformanceArg → ReadCall
  call_list_alphas call_list_alphas_all : ListAlphasArg → ReadCall
  call_messages call_messages_all : MessagesArg → ReadCall
  call_data_fields call_data_fields_all : DataFieldsArg → ReadCall

-- The payloads, by their types; D stands for the documents.
pub data ReadPayload (D : Type 0) : Type 0 where
  as_document : D → ReadPayload D
  as_documents : List D → ReadPayload D
  as_page : Page D → ReadPayload D
  as_counted : CountedPage D → ReadPayload D
  as_alpha : Alpha → ReadPayload D
  as_checks : IsBlock → ReadPayload D
  as_checked : Bool × List Text → ReadPayload D
  as_simulation : Simulation → ReadPayload D
  as_batch : MultiSimWaitResult → ReadPayload D
  as_text : Text → ReadPayload D

abbrev pub payload : {A B : Type 0} → (A → B) → Called A × World → Called B × World
payload f (returned a, w) = (returned (f a), w)
payload f (refused k d, w) = (refused k d, w)
payload f (hangs, w) = (hangs, w)

-- addTool around the function of a tool.
abbrev pub handled : {A B : Type 0} → (A → B) → M A → World → Called B × World
handled f m w = payload f (add_tool (m w))

-- The handlers, over the decoders, the choices of the paging loops and their fuel in `t`.
unfoldable pub call_read_tool :
    {D F : Type 0} → Tools D F → Setup → ReadCall → World → Called (ReadPayload D) × World
call_read_tool t c call_probe = handled as_document (probe_tool c (t.decode session_info))
call_read_tool t c call_whoami = handled as_document (whoami c (t.decode user))
call_read_tool t c call_competitions =
    handled as_page (competitions_tool c (t.decode_page competition))
call_read_tool t c call_operators = handled as_documents (operators_tool c (t.decode_list operator))
call_read_tool t c (call_get_alpha id) = handled as_alpha (get_alpha_tool c id)
call_read_tool t c (call_check_alpha id) = handled as_checks (check_alpha_tool c id)
call_read_tool t c (call_check_alpha_decoded id) = handled as_checked (check_alpha_decoded c id)
call_read_tool t c (call_self_correlation id) =
    handled as_document (self_correlation_tool c (t.decode self_block) id)
call_read_tool t c (call_alpha_pnl id) =
    handled as_document (alpha_pnl_tool c (t.decode pnl_series) id)
call_read_tool t c (call_performance a) =
    handled as_document (performance_tool c (t.decode performance) a)
call_read_tool t c (call_activities kind) =
    handled as_document (activities_tool c (t.decode activity_stream) kind)
call_read_tool t c (call_list_alphas a) =
    handled as_page (list_alphas_tool c (t.decode_page alpha_row) a)
call_read_tool t c (call_list_alphas_all a) =
    handled as_documents (list_alphas_all_tool c t.choice t.fuel (t.decode_page alpha_row) a)
call_read_tool t c (call_messages a) = handled as_page (messages_tool c (t.decode_page message) a)
call_read_tool t c (call_messages_all a) =
    handled as_documents (messages_all_tool c t.choice t.fuel (t.decode_page message) a)
call_read_tool t c (call_data_fields a) =
    handled as_counted (data_fields_tool c (t.decode_counted data_field) a)
call_read_tool t c (call_data_fields_all a) =
    handled as_documents (data_fields_all_tool c t.choice t.fuel (t.decode_counted data_field) a)
call_read_tool t c (call_get_simulation id) = handled as_simulation (get_simulation_tool c id)
call_read_tool t c (call_wait_simulation id) = handled as_simulation (wait_simulation c id)
call_read_tool t c (call_simulations_wait_multi id) =
    λ w. payload as_batch (simulations_wait_multi c id w)
call_read_tool t c call_captcha_challenge = handled as_text (captcha_challenge c)
