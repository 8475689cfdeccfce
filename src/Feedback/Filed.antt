-- ===== src/Feedback/Filed.antt =====
-- What File gives back, and when it posts.
use brainapi_go_sdk.Prelude.{
  codes, ◌≤◌, if◌then◌else◌, ◌≡◌, ◌⊎◌, inl, inr, refl, Bool, true, false, not, ◌&&◌, List, [], ◌∷◌,
  Text, length, is_empty, trim_space, arith, ℤ,
}
use brainapi_go_sdk.Feedback.{
  Try, done, failed, Host, Report, Env, FeedbackConfig, Issue, Result, PostRequest, file,
  file_issue, draft_url, post_issue, post_payload, after_post, landed, build_issue,
  normalize_category, issue_request, read_reply, draft, no_token_note, dry_run_note,
}

-- A report with both texts.
abbrev pub is_complete : Report → Bool
is_complete r = not (is_empty (trim_space r.title)) && not (is_empty (trim_space r.body))

-- What may post: a token and the confirmation.
abbrev pub is_cleared : FeedbackConfig → Bool → Bool
is_cleared cfg confirm = not (is_empty cfg.token) && confirm

-- An issue that is filed, or the draft of it.
abbrev pub Lands : Bool → Text → Result → List PostRequest → Type 0
Lands cleared url r sent =
    ((r.filed ≡ true) × (cleared ≡ true) × (length sent ≡ 1))
    ⊎ ((r.filed ≡ false) × (r.url ≡ url) × (length sent ≤ (if cleared then 1 else 0)))

-- What File leaves, by the URL of the draft.
abbrev pub Files : Bool → Bool → Text → Try Result × List PostRequest → Type 0
Files complete cleared url (failed e, sent) = (complete ≡ false) × (sent ≡ [])
Files complete cleared url (done x, sent) = (complete ≡ true) × Lands cleared url x sent

module _ (h : Host) (cfg : FeedbackConfig) (iss : Issue) (category : Text) where
  after-Lands :
      (t : Try (ℤ × Text)) (p : PostRequest)
      → Lands true (draft_url h cfg.repo iss category) (after_post h cfg iss category t) (p ∷ [])
  unfolding after_post
  after-Lands (failed e) p = inr (refl, refl, omega arith)
  after-Lands (done x) p = inl (refl, refl, refl)

  posted-Lands :
      (m : Try Text)
      → Files true true
          (draft_url h cfg.repo iss category)
          (landed h cfg iss category (post_payload h cfg m))
  unfolding after_post
  posted-Lands (failed e) = (refl, inr (refl, refl, omega arith))
  posted-Lands (done p) =
      (refl, after-Lands (read_reply h (h.post (issue_request cfg p))) (issue_request cfg p))

  issue-Files :
      (confirm : Bool)
      → Files true
          (is_cleared cfg confirm)
          (draft_url h cfg.repo iss category)
          (file_issue h cfg iss category confirm)
  unfolding file_issue post_issue
  issue-Files confirm = by_token (is_empty cfg.token) confirm
    where
      by_token :
          (t confirm : Bool)
          → Files true (not t && confirm) (draft_url h cfg.repo iss category) (
              if t
              then (done (draft h cfg iss category no_token_note), [])
              else if not confirm
              then (done (draft h cfg iss category dry_run_note), [])
              else landed h cfg iss category (post_issue h cfg iss))
      by_token true confirm = (refl, inr (refl, refl, omega arith))
      by_token false false = (refl, inr (refl, refl, omega arith))
      by_token false true = posted-Lands (h.marshal iss.title iss.body)

-- File fails exactly for a blank title or body, and then posts nothing. Else it gives a result: an
-- issue that is filed comes of one POST with a token and the confirmation; any other result
-- carries the draft URL, and without a token or the confirmation nothing was posted.
pub file-Files :
    (h : Host) (r : Report) (env : Env) (cfg : FeedbackConfig) (confirm : Bool)
    → Files
        (is_complete r)
        (is_cleared cfg confirm)
        (draft_url h cfg.repo (build_issue h r env) (normalize_category h r.category))
        (file h r env cfg confirm)
unfolding file
file-Files h r env cfg confirm =
    by_texts (is_empty (trim_space r.title)) (is_empty (trim_space r.body))
  where
    by_texts :
        (t b : Bool)
        → Files
            (not t && not b)
            (is_cleared cfg confirm)
            (draft_url h cfg.repo (build_issue h r env) (normalize_category h r.category))
            (if t
              then (failed (codes "feedback: title is required"), [])
              else if b
              then (failed (codes "feedback: body is required"), [])
              else file_issue h cfg (build_issue h r env) (normalize_category h r.category) confirm)
    by_texts true b = (refl, refl)
    by_texts false true = (refl, refl)
    by_texts false false =
        issue-Files h cfg (build_issue h r env) (normalize_category h r.category) confirm
