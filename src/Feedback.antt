-- ===== src/Feedback.antt =====
-- pkg/feedback/feedback.go: a report becomes an issue on GitHub, or the URL of a draft of one. What the
-- package takes from Go's library and from GitHub is the record `Host`.
pub mod Truncated
pub mod Filed
use brainapi_go_sdk.Prelude.{
  ℕ, zero, suc, Bool, true, false, not, ◌&&◌, ◌||◌, List, [], ◌∷◌, ◌++◌, Text, codes, is_empty,
  text_eq, length, get_or, take, itoa, map, leb, ltb, ◌==◌, ◌/◌, ◌^◌, if◌then◌else◌, trim_space, ℤ,
  pos,
}
use brainapi_go_sdk.Client.Url.{set}

-- A value, or the text of an error.
pub data Try (A : Type 0) : Type 0 where
  done : A → Try A
  failed : Text → Try A

pub record Report : Type 0 where
  pub title : Text
  pub body : Text
  pub category : Text
  pub surface : Text

pub record Env : Type 0 where
  pub version : Text
  pub commit : Text
  pub os : Text
  pub arch : Text
  pub go : Text

pub record Issue : Type 0 where
  pub title : Text
  pub body : Text

pub record Result : Type 0 where
  pub filed : Bool
  pub mode : Text
  pub url : Text
  pub number : ℤ
  pub note : Text

pub record FeedbackConfig : Type 0 where
  pub repo : Text
  pub token : Text
  pub api_base : Text

-- The POST that opens an issue; the other headers are constants.
pub record PostRequest : Type 0 where
  pub endpoint : Text
  pub authorization : Text
  pub payload : Text

pub record PostReply : Type 0 where
  pub status : ℕ
  pub body : Text

-- strings.ToLower, url.Values.Encode, json.Marshal of the title and the body, the request made and
-- exchanged by net/http, and json.Unmarshal of the number and the URL.
pub record Host : Type 0 where
  pub lower : Text → Text
  pub query_encode : List (Text × Text) → Text
  pub marshal : Text → Text → Try Text
  pub post : PostRequest → Try PostReply
  pub unmarshal : Text → Try (ℤ × Text)

abbrev pub max_draft_body_bytes : ℕ
max_draft_body_bytes = 2000

unfoldable pub first_non_empty : List Text → Text
first_non_empty [] = []
first_non_empty (x ∷ xs) = if is_empty x then first_non_empty xs else x

-- ConfigFromEnv; `getenv` is os.Getenv.
unfoldable pub config_from_env : (Text → Text) → FeedbackConfig
unfolding first_non_empty
config_from_env getenv = record {
  repo =
      first_non_empty
        (getenv (codes "BRAINAPI_FEEDBACK_REPO") ∷ codes "wh0amibjm/brainapi-go-sdk" ∷ []);
  token = first_non_empty (
      getenv (codes "BRAINAPI_FEEDBACK_TOKEN")
      ∷ getenv (codes "GITHUB_TOKEN")
      ∷ getenv (codes "GH_TOKEN")
      ∷ []);
  api_base = [];
}

abbrev is_valid_category : Text → Bool
is_valid_category c =
    text_eq c (codes "bug")
    || (text_eq c (codes "docs")
        || (text_eq c (codes "enhancement") || text_eq c (codes "question")))

unfoldable pub normalize_category : Host → Text → Text
normalize_category h category =
    let c = h.lower (trim_space category) in if is_valid_category c then c else codes "bug"

-- The dash of an empty cell.
abbrev or_dash : Text → Text
or_dash v = if is_empty v then 0xe2 ∷ 0x80 ∷ 0x94 ∷ [] else v

-- writeRow: what it appends.
unfoldable pub write_row : Text → Text → Text
write_row k v = codes "| " ++ (k ++ (codes " | " ++ (or_dash v ++ codes " |\n")))

unfoldable pub render_body : Report → Text → Env → Text
unfolding write_row first_non_empty
render_body r category env =
    codes "<!-- brainapi-agent-feedback -->\n\n"
    ++ (trim_space r.body
        ++ (codes "\n\n---\n### Environment (auto-collected)\n\n| field | value |\n|---|---|\n"
            ++ (write_row (codes "SDK version") env.version
                ++ (write_row (codes "commit") env.commit
                    ++ (write_row (codes "surface")
                          (first_non_empty (r.surface ∷ codes "unknown" ∷ []))
                        ++ (write_row (codes "category") category
                            ++ (write_row (codes "OS/arch") (env.os ++ (codes "/" ++ env.arch))
                                ++ (write_row (codes "Go") env.go
                                    ++ codes
                                        "\n> Filed via the brainapi agent-feedback channel.\n"))))))))

unfoldable pub build_issue : Host → Report → Env → Issue
unfolding render_body normalize_category
build_issue h r env = record {
  title = trim_space r.title;
  body = render_body r (normalize_category h r.category) env;
}

-- utf8.RuneStart of the byte at an index.
abbrev pub starts_rune : Text → ℕ → Bool
starts_rune s i = not (get_or s i 0 / 64 == 2)

-- The loop of truncate: the cut that it comes to.
unfoldable pub rune_cut : Text → ℕ → ℕ
rune_cut s zero = zero
rune_cut s (suc m) = let back = rune_cut s m in if starts_rune s (suc m) then suc m else back

unfoldable pub truncate : Text → ℕ → Text
unfolding rune_cut
truncate s max = if leb (length s) max then s else take (rune_cut s max) s

abbrev space_for : ℕ → ℕ
space_for c = if c == 10 then 32 else c

unfoldable pub summarize : Text → Text
unfolding truncate
summarize b =
    let s = map space_for (trim_space b) in
    if leb (length s) 300 then s else truncate s 300 ++ (0xe2 ∷ 0x80 ∷ 0xa6 ∷ [])

-- The remark behind a body that is cut.
abbrev truncated_note : Text
truncated_note =
    codes "\n\n"
    ++ ((0xe2 ∷ 0x80 ∷ 0xa6 ∷ [])
        ++ (codes "[truncated for URL length "
            ++ ((0xe2 ∷ 0x80 ∷ 0x94 ∷ []) ++ codes " paste the full report into the issue]")))

unfoldable pub draft_body : Text → Text
unfolding truncate
draft_body body =
    if ltb max_draft_body_bytes (length body)
    then truncate body max_draft_body_bytes ++ truncated_note
    else body

unfoldable pub draft_url : Host → Text → Issue → Text → Text
unfolding draft_body
draft_url h repo iss category =
    let q = set (codes "body") (draft_body iss.body) (set (codes "title") iss.title []) in
    codes "https://github.com/"
    ++ (repo
        ++ (codes "/issues/new?"
            ++ h.query_encode (if is_empty category then q else set (codes "labels") category q)))

-- What postIssue makes of the reply.
unfoldable pub read_reply : Host → Try PostReply → Try (ℤ × Text)
unfolding summarize
read_reply h (failed e) = failed e
read_reply h (done resp) =
    let body = take (2 ^ 20) resp.body in
    if ltb resp.status 200 || leb 300 resp.status
    then failed (codes "github responded " ++ (itoa resp.status ++ (codes ": " ++ summarize body)))
    else elim (h.unmarshal body) [
      | done x ↦ done x
      | failed e ↦ failed (codes "decode github response: " ++ e)
    ]

abbrev pub issue_request : FeedbackConfig → Text → PostRequest
issue_request cfg payload = record {
  endpoint =
      first_non_empty (cfg.api_base ∷ codes "https://api.github.com" ∷ [])
      ++ (codes "/repos/" ++ (cfg.repo ++ codes "/issues"));
  authorization = codes "Bearer " ++ cfg.token;
  payload = payload;
}

abbrev pub post_payload : Host → FeedbackConfig → Try Text → Try (ℤ × Text) × List PostRequest
post_payload h cfg (failed e) = (failed e, [])
post_payload h cfg (done payload) =
    (read_reply h (h.post (issue_request cfg payload)), issue_request cfg payload ∷ [])

-- postIssue, with the requests that it makes.
unfoldable pub post_issue : Host → FeedbackConfig → Issue → Try (ℤ × Text) × List PostRequest
unfolding read_reply first_non_empty
post_issue h cfg iss = post_payload h cfg (h.marshal iss.title iss.body)

abbrev pub draft : Host → FeedbackConfig → Issue → Text → Text → Result
draft h cfg iss category note = record {
  filed = false;
  mode = codes "draft_url";
  url = draft_url h cfg.repo iss category;
  number = pos 0;
  note = note;
}

-- The result after the POST.
unfoldable pub after_post : Host → FeedbackConfig → Issue → Text → Try (ℤ × Text) → Result
unfolding draft_url
after_post h cfg iss category (failed e) = draft h cfg iss category (
    codes "GitHub API call failed ("
    ++ (e ++ codes "); returning a draft issue URL instead so the report is not lost"))
after_post h cfg iss category (done (num, html_url)) = record {
  filed = true;
  mode = codes "github_api";
  url = html_url;
  number = num;
  note = codes "issue filed";
}

abbrev pub landed :
    Host
    → FeedbackConfig
    → Issue
    → Text
    → Try (ℤ × Text) × List PostRequest
    → Try Result × List PostRequest
landed h cfg iss category (t, sent) = (done (after_post h cfg iss category t), sent)

abbrev pub no_token_note : Text
no_token_note =
    codes
      "no GitHub token configured (set BRAINAPI_FEEDBACK_TOKEN / GITHUB_TOKEN / GH_TOKEN); returning a draft issue URL for a human to open"

abbrev pub dry_run_note : Text
dry_run_note =
    codes
      "dry-run: a token is configured but confirm was not set. Re-call with confirm=true to file the issue; the URL above is a click-to-file fallback."

-- File behind the checks of the title and the body.
unfoldable pub file_issue :
    Host → FeedbackConfig → Issue → Text → Bool → Try Result × List PostRequest
unfolding post_issue after_post draft_url
file_issue h cfg iss category confirm =
    if is_empty cfg.token
    then (done (draft h cfg iss category no_token_note), [])
    else if not confirm
    then (done (draft h cfg iss category dry_run_note), [])
    else landed h cfg iss category (post_issue h cfg iss)

-- File, with the requests that it makes.
unfoldable pub file : Host → Report → Env → FeedbackConfig → Bool → Try Result × List PostRequest
unfolding file_issue build_issue normalize_category
file h r env cfg confirm =
    if is_empty (trim_space r.title)
    then (failed (codes "feedback: title is required"), [])
    else if is_empty (trim_space r.body)
    then (failed (codes "feedback: body is required"), [])
    else file_issue h cfg (build_issue h r env) (normalize_category h r.category) confirm
