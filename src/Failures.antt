-- ===== src/Failures.antt =====
-- framework/failure_projection.py with `sanitize_reason` of framework/need_human.py: what is said of a
-- goal's failed tasks. The pattern that finds credentials is a parameter, as the substitution by it.
mod Told
mod Goals
mod Tests
mod Tasks
unfoldable pub use Tasks.*
use teleagent_collab.Common.{
  ℕ, Bool, true, false, not, ◌&&◌, ◌||◌, Option, none, some, List, [], ◌∷◌, ◌++◌, String, Dict,
  string_eq, nat_eq, lookup, contains, any, length, take, strip, lower, non_empty, str_or, str_take,
  strip_right, append, ltb, leb, ◌==◌, if◌then◌else◌, Result, err, ok, ◌>>=◌, collapse, has_prefix,
  occurs, join, str_length,
}

-- `_collapsed`
unfoldable pub collapsed : String → String
collapsed s = collapse (lower s)

unfoldable pub one_line : ℕ → String → String
one_line limit s =
    let text = collapse s in if ltb limit (str_length text) then str_take limit text else text

-- Whether the budget of steps is named, and not the one of wall time
step_only : String → Bool
step_only e =
    occurs "budget_exceeded" e
    && occurs "steps" e
    && not (occurs "wall" e)
    && not (occurs "timeout" e)
    && not (occurs "timed_out" e)

is_timeout_state : String → Bool
is_timeout_state s = contains ("timeout" ∷ "timed_out" ∷ []) (collapsed s)

unfoldable pub is_worker_timeout : String → TaskResult → Bool
unfolding step_only is_timeout_state
is_worker_timeout e r =
    let in_state =
      not (non_empty e) && (is_timeout_state r.state || is_timeout_state r.controller_state) in
    let in_error =
      any (λ m. occurs m e) wall_markers || (occurs "budget_exceeded" e && occurs "timeout" e) in
    e == "timeout" || (not (step_only e) && (in_error || in_state))

abbrev cancel_words : List String
cancel_words = "cancelled" ∷ "canceled" ∷ "cancel" ∷ []

unfoldable pub is_cancelled : Task → TaskResult → String → Bool
is_cancelled t r e =
    t.status == "cancelled"
    || contains cancel_words e
    || has_prefix e "cancelled:"
    || has_prefix e "canceled:"
    || contains cancel_words (collapsed r.state)
    || contains cancel_words (collapsed r.controller_state)
    || contains cancel_words (collapsed r.finish)

-- The tests of an error text that is collapsed, in their order
source_of : Task → TaskResult → String → String
source_of t r e =
    if has_prefix e "killed by oom" || occurs "killed by oom (cgroup memory limit)" e
    then "oom"
    else if is_worker_timeout e r
    then "worker_timeout"
    else if has_prefix e "backend dispatch failed"
    then "spawn"
    else if occurs "contract_render_error" e || has_prefix e "contract_render"
    then "contract_render"
    else if r.acceptance_failed || occurs "acceptance_failed" e
    then "acceptance"
    else if occurs "artifact_contaminated" e
        || occurs "artifact contaminated" e
        || r.has_contamination
    then "contamination"
    else if is_cancelled t r e
    then "cancelled"
    else "task_failed"

unfoldable pub classify_failure_source : Task → TaskResult → String → String
unfolding source_of
classify_failure_source t r error =
    let explicit = strip r.error_source in
    if contains explicit_sources explicit then explicit else source_of t r (collapsed error)

pub record Brief : Type 0 where
  pub task_id : String
  pub run_id : String
  pub title : String
  pub error : String
  pub source : String
  pub missing_artifacts : List String
  pub retryable : Bool
  pub next_step : String

-- `_NEXT_STEP[source]` of a source without an entry
pub data KeyError : Type 0 where
  no_key : String → KeyError

abbrev pub reason_max : ℕ
reason_max = 300

unfoldable pub first_text : List (Option String) → Option String
first_text [] = none
first_text (none ∷ rest) = first_text rest
first_text (some s ∷ rest) =
    let later = first_text rest in if non_empty (strip s) then some s else later

next_step_of : String → Result KeyError String
next_step_of source = elim (lookup source next_steps) [ none ↦ err (no_key source) | some s ↦ ok s ]

unfoldable pub run_id_of : Task → String
run_id_of t =
    elim (first_text (t.result.run_id ∷ t.result.native_handle ∷ t.run_id ∷ t.native_handle ∷ [])) [
      | none ↦ ""
      | some s ↦ one_line 200 (strip s)
    ]

abbrev is_failed : Task → Bool
is_failed t = t.status == "failed"

pub record Failed : Type 0 where
  pub failure_reason : String
  pub primary_failure : Brief
  pub failures : List Brief

missing_text : List String → String
missing_text [] = ""
missing_text (m ∷ ms) = append "required artifacts missing: " (join ", " (take 8 (m ∷ ms)))

reason_of : Brief → String
unfolding missing_text
reason_of b = str_or (str_or b.error (missing_text b.missing_artifacts)) "task failed"

report : List Brief → Option Failed
unfolding reason_of
report [] = none
report (b ∷ bs) =
    some (record { failure_reason = reason_of b; primary_failure = b; failures = b ∷ bs })

module _ (redact : String → String) where
  unfoldable pub sanitize_reason : String → String
  sanitize_reason s =
      let cleaned = collapse (redact s) in
      let cut = append (strip_right (str_take 297 cleaned)) "..." in
      if ltb reason_max (str_length cleaned) then cut else cleaned

  unfoldable pub error_text : Task → String
  error_text t =
      elim (first_text
        (t.result.error ∷ t.error ∷ t.result.failure_reason ∷ t.failure_reason ∷ [])) [
          | none ↦ ""
          | some s ↦ sanitize_reason s
        ]

  text_of : Missing → String
  text_of (named s) = sanitize_reason s
  text_of (labelled s) = if non_empty (strip s) then sanitize_reason s else ""
  text_of other = ""

  add_missing : List String → String → List String
  add_missing found text =
      if non_empty text && not (contains found text) then found ++ text ∷ [] else found

  unfoldable pub missing_loop : List String → List Missing → List String
  unfolding text_of add_missing
  missing_loop found [] = found
  missing_loop found (m ∷ rest) =
      let now = add_missing found (text_of m) in
      let all = missing_loop now rest in if leb 32 (length now) then now else all

  brief_with : Task → (error source next_step : String) → Brief
  brief_with t error source next_step = record {
    task_id = one_line 200 t.task_id;
    run_id = run_id_of t;
    title = sanitize_reason t.title;
    error = if not (non_empty error) && source == "worker_timeout" then "timeout" else error;
    source = source;
    missing_artifacts = missing_loop [] t.result.missing;
    retryable = false;
    next_step = next_step;
  }

  unfoldable pub failure_brief : Task → Result KeyError Brief
  unfolding next_step_of brief_with
  failure_brief t =
      let error = error_text t in
      let source = classify_failure_source t t.result error in
      next_step_of source >>= λ step. ok (brief_with t error source step)

  briefs_of : List Task → Result KeyError (List Brief)
  briefs_of [] = ok []
  briefs_of (t ∷ ts) =
      let rest = briefs_of ts in
      let told = failure_brief t >>= λ b. rest >>= λ bs. ok (b ∷ bs) in
      if is_failed t then told else rest

  -- `none`: nothing failed.
  unfoldable pub project_failed_tasks : List Task → Result KeyError (Option Failed)
  unfolding briefs_of report
  project_failed_tasks tasks = briefs_of tasks >>= λ bs. ok (report bs)
