-- ===== src/Mcp/Readonly.antt =====
-- The read tools change nothing on the platform: what they send are GETs, beside the login of a 401.
use brainapi_go_sdk.Prelude.{
  ◌+◌, length, ◌||◌, ◌++◌, [], refl, false, true, none, zero, some, ◌∷◌, arith, Bool, suc, Text, ℤ,
  Option, List, ℕ, codes,
}
use brainapi_go_sdk.Mcp.{wait_result, simulations_wait_multi, classify_err, drain_chan, add_tool}
use brainapi_go_sdk.Client.{Setup}
use brainapi_go_sdk.Alphas.Submit.{pause}
use brainapi_go_sdk.Iterators.{
  next_offset, is_nil, send_items, messages_all, list_alphas_all, after_sends, PageOf, Page, walk,
  after_page, messages_page, alphas_page, Stream, paginate_all,
}
use brainapi_go_sdk.Mcp.Calls.{
  ReadPayload, call_captcha_challenge, call_operators, call_competitions, call_whoami, call_probe,
  as_text, as_batch, call_simulations_wait_multi, call_wait_simulation, as_simulation,
  call_get_simulation, call_data_fields_all, as_counted, call_data_fields, call_messages_all,
  call_messages, call_list_alphas_all, call_list_alphas, call_activities, call_performance,
  call_alpha_pnl, call_self_correlation, as_checked, call_check_alpha_decoded, as_checks,
  call_check_alpha, as_alpha, call_get_alpha, as_documents, as_page, as_document, ReadCall, payload,
  handled, call_read_tool,
}
use brainapi_go_sdk.Simulations.Wait.{
  or_first, poll_sleep, is_final, sim_request, stop_if, Resolved, get_simulation, wait_loop,
  get_simulation_raw, after_child, wait_children, wait_for_multi_simulation, wait_for_simulation,
}
use brainapi_go_sdk.Schema.{data_fields_all, data_fields, DataFieldsQuery, CountedPage, fields_page}
use brainapi_go_sdk.Transport.Perform.{sleep_ctx}
use brainapi_go_sdk.World.Monad.{return, continue, diverged, ok, err, Outcome, M}
use brainapi_go_sdk.Errors.{Error}
use brainapi_go_sdk.Endpoint.Reads.{
  fetch_captcha-Quiet, activities-Quiet, performance-Quiet, alpha_pnl-Quiet, self_correlation-Quiet,
  alpha_check_body-Quiet, check_alpha-Quiet, get_alpha-Quiet, operators-Quiet, competitions-Quiet,
  self-Quiet, probe-Quiet, decode-Quiet, list_alphas-Quiet, data_fields-Quiet, messages-Quiet,
  if-Quiet, bind-Quiet, after_required-Quiet, Quiet,
}
use brainapi_go_sdk.Mcp.Reading.{
  captcha_challenge, wait_simulation, get_simulation_tool, data_fields_tool, messages_tool,
  list_alphas_tool, activities_tool, performance_tool, alpha_pnl_tool, self_correlation_tool,
  check_alpha_decoded, check_alpha_tool, get_alpha_tool, operators_tool, competitions_tool, whoami,
  probe_tool, df_query, messages_options, alphas_options, data_fields_all_tool, messages_all_tool,
  list_alphas_all_tool,
}
use brainapi_go_sdk.World.{World}
use brainapi_go_sdk.Types.{Simulation}
use brainapi_go_sdk.Transport.Asked.{perform-OnlyReads, OnlyReads}
use brainapi_go_sdk.Account.{messages, ListMessagesOptions}
use brainapi_go_sdk.Transport.Do.{perform}
use brainapi_go_sdk.Alphas.{list_alphas, ListAlphasOptions}
use brainapi_go_sdk.Cli.Dispatch.{
  data_field, message, alpha_row, activity_stream, performance, pnl_series, self_block, operator,
  competition, user, session_info, Tools,
}
use brainapi_go_sdk.Transport.Login.{decode_body}

pause-Quiet : (c : Setup) (d : ℤ) → Quiet c (pause c d)
unfolding pause sleep_ctx
pause-Quiet c d w t = ground arith

module _ (c : Setup) where
  raw-Quiet : (id : Text) → Quiet c (get_simulation_raw c id)
  unfolding get_simulation_raw
  raw-Quiet id =
      bind-Quiet c (perform c (sim_request id)) _ (perform-OnlyReads c (sim_request id) refl)
        λ resp.
          bind-Quiet c (decode_body c.library.unmarshal_simulation resp.body (codes "simulation")) _
            (decode-Quiet c _ resp.body _) (λ _ _ t. t)

  get_simulation-Quiet : (id : Text) → Quiet c (get_simulation c id)
  unfolding get_simulation
  get_simulation-Quiet id =
      after_required-Quiet c id _ _
        (bind-Quiet c (get_simulation_raw c id) _ (raw-Quiet id) (λ _ _ t. t))

  wait_loop-Quiet : (id : Text) (n : ℕ) → Quiet c (wait_loop c id n)
  unfolding wait_loop
  wait_loop-Quiet id zero = λ _ t. t
  wait_loop-Quiet id (suc n) = bind-Quiet c (get_simulation_raw c id) _ (raw-Quiet id) λ s.
      if-Quiet c (is_final s.0) _ _ (λ _ t. t)
        (bind-Quiet c (pause c (poll_sleep s.1)) _ (pause-Quiet c _) (λ _. wait_loop-Quiet id n))

  wait-Quiet : (id : Text) → Quiet c (wait_for_simulation c id)
  unfolding wait_for_simulation
  wait-Quiet id = after_required-Quiet c id _ _ (wait_loop-Quiet id _)

  stop_if-Quiet :
      (o : Option Error) (r : Resolved) (again : M Resolved)
      → Quiet c again
      → Quiet c (stop_if o r again)
  stop_if-Quiet none r again q = q
  stop_if-Quiet (some e) r again q = λ _ t. t

  after_child-Quiet :
      (r : Resolved) (again : Resolved → M Resolved) (m : Outcome Simulation × World)
      → ((r : Resolved) → Quiet c (again r))
      → OnlyReads c m.1.trace
      → OnlyReads c (after_child c r again m).1.trace
  unfolding after_child
  after_child-Quiet r again (ok s, w) q t = q (r.0 ++ (s ∷ []), r.1) w t
  after_child-Quiet r again (err e, w) q t =
      stop_if-Quiet (c.ctx_err w.tick) _ _ (q (r.0, or_first r.1 e)) w t
  after_child-Quiet r again (diverged, w) q t = t

  wait_children-Quiet : (ids : List Text) (r : Resolved) → Quiet c (wait_children c ids r)
  unfolding wait_children
  wait_children-Quiet [] r w t = t
  wait_children-Quiet (id ∷ ids) r w t =
      after_child-Quiet r (wait_children c ids) (wait_for_simulation c id w)
        (wait_children-Quiet ids) (wait-Quiet id w t)

  wait_multi-Quiet : (id : Text) → Quiet c (wait_for_multi_simulation c id)
  unfolding wait_for_multi_simulation
  wait_multi-Quiet id = after_required-Quiet c id _ _ (
      bind-Quiet c (wait_for_simulation c id) _ (wait-Quiet id) λ parent.
        bind-Quiet c (wait_children c parent.children ([], none)) _
          (wait_children-Quiet parent.children ([], none)) (λ _ _ t. t))

-- A walk over pages.
module _ {T : Type 0} (c : Setup) (choice : ℕ → Option Error) where
  sends-Quiet :
      (s : List T × Option Error) (last : Bool) (w : World) (rest : Stream T × World)
      → OnlyReads c w.trace
      → OnlyReads c rest.1.trace
      → OnlyReads c (after_sends s last w rest).1.trace
  sends-Quiet (xs, some e) last w rest t u = t
  sends-Quiet (xs, none) true w rest t u = t
  sends-Quiet (xs, none) false w rest t u = u

  page-Quiet :
      (off : ℤ) (k : ℕ) (again : ℤ → ℕ → World → Stream T × World) (m : Outcome (PageOf T) × World)
      → ((off : ℤ) (k : ℕ) → Quiet c (again off k))
      → OnlyReads c m.1.trace
      → OnlyReads c (after_page choice off k again m).1.trace
  unfolding after_page
  page-Quiet off k again (err e, w) q t = t
  page-Quiet off k again (diverged, w) q t = t
  page-Quiet off k again (ok (items, last), w) q t =
      sends-Quiet (send_items choice k items) (last || is_nil items) w
        (again (next_offset off (length items)) (k + length items) w) t
        (q (next_offset off (length items)) (k + length items) w t)

  walk-Quiet :
      (fetch : ℤ → M (PageOf T))
      → ((off : ℤ) → Quiet c (fetch off))
      → (fuel : ℕ) (off : ℤ) (k : ℕ) → Quiet c (walk fetch choice fuel off k)
  unfolding walk
  walk-Quiet fetch q zero off k w t = t
  walk-Quiet fetch q (suc n) off k w t =
      page-Quiet off k (walk fetch choice n) (fetch off w) (walk-Quiet fetch q n) (q off w t)

stream-Quiet :
    {T : Type 0} (c : Setup) (s : Stream T × World)
    → OnlyReads c s.1.trace
    → OnlyReads c (drain_chan s).1.trace
unfolding drain_chan
stream-Quiet c (s, w) t = ground arith

called-Quiet :
    {A B : Type 0} (c : Setup) (f : A → B) (o : Outcome A × World)
    → OnlyReads c o.1.trace
    → OnlyReads c (payload f (add_tool o)).1.trace
unfolding add_tool classify_err
called-Quiet c f (ok a, w) t = t
called-Quiet c f (err e, w) t = t
called-Quiet c f (diverged, w) t = t

-- The frame of a tool, and that of one that drains a walk.
handled-Quiet : {A B : Type 0} (c : Setup) (f : A → B) (m : M A) → Quiet c m → Quiet c (handled f m)
handled-Quiet c f m q w t = called-Quiet c f (m w) (q w t)

drained-Quiet :
    {T B : Type 0} (c : Setup) (f : List T → B) (choice : ℕ → Option Error)
    (fetch : ℤ → M (PageOf T))
    → ((off : ℤ) → Quiet c (fetch off))
    → (fuel : ℕ) (off : ℤ)
    → Quiet c (handled f (λ w. drain_chan (paginate_all fetch choice fuel off w)))
unfolding paginate_all
drained-Quiet c f choice fetch q fuel off = handled-Quiet c f _ (λ w t.
    stream-Quiet c (walk fetch choice fuel off 0 w) (walk-Quiet c choice fetch q fuel off 0 w t))

module _ {T : Type 0} (c : Setup) where
  alphas_page-Quiet :
      (decode : Text → Option (Page T)) (opts : ListAlphasOptions) (off : ℤ)
      → Quiet c (alphas_page c decode opts off)
  unfolding alphas_page
  alphas_page-Quiet decode opts off =
      bind-Quiet c (list_alphas c decode _) _ (list_alphas-Quiet c decode _) (λ _ _ t. t)

  messages_page-Quiet :
      (decode : Text → Option (Page T)) (opts : ListMessagesOptions) (off : ℤ)
      → Quiet c (messages_page c decode opts off)
  unfolding messages_page
  messages_page-Quiet decode opts off =
      bind-Quiet c (messages c decode _) _ (messages-Quiet c decode _) (λ _ _ t. t)

  fields_page-Quiet :
      (decode : Text → Option (CountedPage T)) (q : DataFieldsQuery) (off : ℤ)
      → Quiet c (fields_page c decode q off)
  unfolding fields_page
  fields_page-Quiet decode q off =
      bind-Quiet c (data_fields c decode _) _ (data_fields-Quiet c decode _) (λ _ _ t. t)

module _ {D F : Type 0} (t : Tools D F) (c : Setup) where
  framed : {A : Type 0} (f : A → ReadPayload D) (m : M A) → Quiet c m → Quiet c (handled f m)
  framed f m q = handled-Quiet c f m q

  drained :
      (f : List D → ReadPayload D) (choice : ℕ → Option Error) (fetch : ℤ → M (PageOf D))
      → ((off : ℤ) → Quiet c (fetch off))
      → (fuel : ℕ) (off : ℤ)
      → Quiet c (handled f (λ w. drain_chan (paginate_all fetch choice fuel off w)))
  drained = drained-Quiet c

  -- A read tool of the MCP server, whatever the platform answers: from a trace in which each
  -- request is a GET or the POST to /authentication of a login, it leaves such a trace.
  pub call_read_tool-OnlyReads :
      (call : ReadCall) (w : World)
      → OnlyReads c w.trace
      → OnlyReads c (call_read_tool t c call w).1.trace
  unfolding call_read_tool simulations_wait_multi list_alphas_all_tool messages_all_tool
      data_fields_all_tool list_alphas_all messages_all data_fields_all df_query
  call_read_tool-OnlyReads call_probe =
      framed as_document (probe_tool c (t.decode session_info))
        (probe-Quiet c (t.decode session_info))
  call_read_tool-OnlyReads call_whoami =
      framed as_document (whoami c (t.decode user)) (self-Quiet c (t.decode user))
  call_read_tool-OnlyReads call_competitions =
      framed as_page (competitions_tool c (t.decode_page competition))
        (competitions-Quiet c (t.decode_page competition))
  call_read_tool-OnlyReads call_operators =
      framed as_documents (operators_tool c (t.decode_list operator))
        (operators-Quiet c (t.decode_list operator))
  call_read_tool-OnlyReads (call_get_alpha id) =
      framed as_alpha (get_alpha_tool c id) (get_alpha-Quiet c id)
  call_read_tool-OnlyReads (call_check_alpha id) =
      framed as_checks (check_alpha_tool c id) (check_alpha-Quiet c id)
  call_read_tool-OnlyReads (call_check_alpha_decoded id) =
      framed as_checked (check_alpha_decoded c id) (alpha_check_body-Quiet c id)
  call_read_tool-OnlyReads (call_self_correlation id) =
      framed as_document (self_correlation_tool c (t.decode self_block) id)
        (self_correlation-Quiet c (t.decode self_block) id)
  call_read_tool-OnlyReads (call_alpha_pnl id) =
      framed as_document (alpha_pnl_tool c (t.decode pnl_series) id)
        (alpha_pnl-Quiet c (t.decode pnl_series) id)
  call_read_tool-OnlyReads (call_performance a) =
      framed as_document (performance_tool c (t.decode performance) a)
        (performance-Quiet c (t.decode performance) a.competition_id a.alpha_id)
  call_read_tool-OnlyReads (call_activities kind) =
      framed as_document (activities_tool c (t.decode activity_stream) kind)
        (activities-Quiet c (t.decode activity_stream) kind)
  call_read_tool-OnlyReads (call_list_alphas a) =
      framed as_page (list_alphas_tool c (t.decode_page alpha_row) a)
        (list_alphas-Quiet c (t.decode_page alpha_row) (alphas_options a))
  call_read_tool-OnlyReads (call_list_alphas_all a) =
      drained as_documents t.choice (alphas_page c (t.decode_page alpha_row) (alphas_options a))
        (alphas_page-Quiet c (t.decode_page alpha_row) (alphas_options a)) t.fuel a.offset
  call_read_tool-OnlyReads (call_messages a) =
      framed as_page (messages_tool c (t.decode_page message) a)
        (messages-Quiet c (t.decode_page message) (messages_options a))
  call_read_tool-OnlyReads (call_messages_all a) =
      drained as_documents t.choice (messages_page c (t.decode_page message) (messages_options a))
        (messages_page-Quiet c (t.decode_page message) (messages_options a)) t.fuel a.offset
  call_read_tool-OnlyReads (call_data_fields a) =
      framed as_counted (data_fields_tool c (t.decode_counted data_field) a)
        (data_fields-Quiet c (t.decode_counted data_field) (df_query a))
  call_read_tool-OnlyReads (call_data_fields_all a) =
      drained as_documents t.choice (fields_page c (t.decode_counted data_field) (df_query a))
        (fields_page-Quiet c (t.decode_counted data_field) (df_query a)) t.fuel a.offset
  call_read_tool-OnlyReads (call_get_simulation id) =
      framed as_simulation (get_simulation_tool c id) (get_simulation-Quiet c id)
  call_read_tool-OnlyReads (call_wait_simulation id) =
      framed as_simulation (wait_simulation c id) (wait-Quiet c id)
  call_read_tool-OnlyReads (call_simulations_wait_multi id) =
      framed as_batch
        (λ w. continue (wait_for_multi_simulation c id w) (λ found. return (wait_result found)))
        (bind-Quiet c (wait_for_multi_simulation c id) _ (wait_multi-Quiet c id) (λ _ _ u. u))
  call_read_tool-OnlyReads call_captcha_challenge =
      framed as_text (captcha_challenge c) (fetch_captcha-Quiet c)
