-- ===== src/Mcp/Report.antt =====
-- cmd/brainapi-mcp/main.go: the tool report_issue, which both servers have, and the classification of
-- its errors.
use brainapi_go_sdk.Prelude.{List, codes, Bool, Text}
use brainapi_go_sdk.Feedback.{
  failed, Env, done, Host, PostRequest, config_from_env, Result, Try, file, Report,
}
use brainapi_go_sdk.Mcp.{returned, classify_err, Called}
use brainapi_go_sdk.Errors.{opaque}

pub record ReportIssueArg : Type 0 where
  pub title : Text
  pub body : Text
  pub category : Text
  pub confirm : Bool

abbrev pub mcp_report : ReportIssueArg → Report
mcp_report a = record {
  title = a.title;
  body = a.body;
  category = a.category;
  surface = codes "mcp";
}

-- classifyErr where File fails.
abbrev pub reported : Try Result × List PostRequest → Called Result × List PostRequest
reported (done r, posts) = (returned r, posts)
reported (failed text, posts) = (classify_err (opaque text), posts)

-- The function of report_issue, with the requests that it makes to GitHub.
unfoldable pub report_issue :
    Host → (Text → Text) → Env → ReportIssueArg → Called Result × List PostRequest
unfolding file config_from_env classify_err
report_issue h getenv env a =
    reported (file h (mcp_report a) env (config_from_env getenv) a.confirm)
