-- ===== src/Failures/Told.antt =====
-- What is told of every list of tasks.
use Prim.Native.String.{[], ◌∷◌}
use teleagent_collab.Common.{
  ℕ, ◌≤◌, ◌≡◌, refl, sym, ap, arith, Bool, true, false, Option, none, some, List, [], ◌∷◌, String,
  string_eq, lookup, contains, keep, length, strip, strip_right, str_take, non_empty, str_or,
  Result, err, ok, ◌>>=◌, collapse, str_length, str_length-append, str_length-take_le,
  str_length-strip_le, Bool-cases, inl, inr,
}
use teleagent_collab.Failures.{
  Task, TaskResult, classify_failure_source, source_of, explicit_sources, next_steps, Brief,
  KeyError, no_key, brief_with, next_step_of, failure_brief, collapsed, briefs_of, is_failed,
  Failed, report, reason_of, missing_text, project_failed_tasks, sanitize_reason, error_text,
  reason_max, first_text,
}

-- A source with a next step
abbrev has_step : String → Bool
has_step s = elim (lookup s next_steps) [ none ↦ false | some _ ↦ true ]

explicit-has_step : (s : String) → contains explicit_sources s ≡ true → has_step s ≡ true
unfolding lookup
explicit-has_step s h = ground arith

known-has_step :
    (has_step "oom" ≡ true)
    × (has_step "worker_timeout" ≡ true)
    × (has_step "spawn" ≡ true)
    × (has_step "contract_render" ≡ true)
    × (has_step "acceptance" ≡ true)
    × (has_step "contamination" ≡ true)
    × (has_step "cancelled" ≡ true)
    × (has_step "task_failed" ≡ true)
unfolding lookup string_eq
known-has_step = (refl, refl, refl, refl, refl, refl, refl, refl)

source_of-has_step : (t : Task) (r : TaskResult) (e : String) → has_step (source_of t r e) ≡ true
unfolding source_of
source_of-has_step t r e = ground (arith, known-has_step)

classify-has_step :
    (t : Task) (r : TaskResult) (e : String) → has_step (classify_failure_source t r e) ≡ true
unfolding classify_failure_source
classify-has_step t r e =
    ground (arith, explicit-has_step (strip r.error_source), source_of-has_step t r (collapsed e))

pub step_or :
    (o : Option String) (e : KeyError)
    → (elim o as (λ _. Bool) [ none ↦ false | some _ ↦ true ]) ≡ true
    → (step : String) × ((elim o as (λ _. Result KeyError String) [ none ↦ err e | some s ↦ ok s ])
        ≡ ok step)
step_or none e h = cc
step_or (some s) e h = (s, refl)

next_step-ok : (s : String) → has_step s ≡ true → (step : String) × (next_step_of s ≡ ok step)
unfolding next_step_of
next_step-ok s h = step_or (lookup s next_steps) (no_key s) h

dots : str_length "..." ≡ 3
unfolding str_length
dots = refl

timeout_word : str_length "timeout" ≡ 7
unfolding str_length
timeout_word = refl

no_word : str_length "" ≡ 0
unfolding str_length
no_word = refl

-- A text of at most the length of a reason
abbrev pub IsShort : String → Type 0
IsShort s = str_length s ≤ reason_max

str_or-non_empty : (s t : String) → non_empty t ≡ true → non_empty (str_or s t) ≡ true
str_or-non_empty [] t h = h
str_or-non_empty (c ∷ s) t h = refl

module _ (redact : String → String) where
  sanitize_reason-IsShort : (s : String) → IsShort (sanitize_reason redact s)
  unfolding sanitize_reason
  sanitize_reason-IsShort s =
      let cleaned = collapse (redact s) in
      ground (
        arith,
        str_length-append (strip_right (str_take 297 cleaned)) "...",
        str_length-strip_le (str_take 297 cleaned),
        str_length-take_le 297 cleaned,
        dots,
      )

  sanitized-IsShort :
      (o : Option String)
      → IsShort (elim o as (λ _. String) [ none ↦ "" | some s ↦ sanitize_reason redact s ])
  sanitized-IsShort none = omega (arith, no_word)
  sanitized-IsShort (some s) = sanitize_reason-IsShort s

  error_text-IsShort : (t : Task) → IsShort (error_text redact t)
  unfolding error_text
  error_text-IsShort t =
      sanitized-IsShort
        (first_text (t.result.error ∷ t.error ∷ t.result.failure_reason ∷ t.failure_reason ∷ []))

  -- The error and the title of a brief are short.
  abbrev pub IsShortBrief : Brief → Type 0
  IsShortBrief b = IsShort b.error × IsShort b.title

  brief_with-IsShort :
      (t : Task) (error source step : String)
      → IsShort error
      → IsShortBrief (brief_with redact t error source step)
  unfolding brief_with
  brief_with-IsShort t error source step h =
      (ground (arith, timeout_word), sanitize_reason-IsShort t.title)

  failure_brief-ok : (t : Task) → (b : Brief) × ((failure_brief redact t ≡ ok b) × IsShortBrief b)
  unfolding failure_brief
  failure_brief-ok t =
      let error = error_text redact t in
      let source = classify_failure_source t t.result error in
      let (step, e) = next_step-ok source (classify-has_step t t.result error) in
      (
        brief_with redact t error source step,
        (
          ap (λ m. m >>= λ s. ok (brief_with redact t error source s)) e,
          brief_with-IsShort t error source step (error_text-IsShort t),
        ),
      )

  abbrev pub AllShort : List Brief → Type 0
  AllShort [] = Unit
  AllShort (b ∷ bs) = IsShortBrief b × AllShort bs

  briefs_of-ok :
      (ts : List Task)
      → (bs : List Brief) × ((briefs_of redact ts ≡ ok bs)
          × (length bs ≡ length (keep is_failed ts))
          × AllShort bs)
  unfolding briefs_of keep
  briefs_of-ok [] = ([], (refl, refl, tt))
  briefs_of-ok (t ∷ ts) =
      let (bs, (e, n, short)) = briefs_of-ok ts in
      let (b, (e', short')) = failure_brief-ok t in
      elim (Bool-cases (is_failed t)) [
        | inl failed ↦ (b ∷ bs, (ground arith, ground arith, (short', short)))
        | inr fine ↦ (bs, (ground arith, ground arith, short))
      ]

  -- What is reported of a number of failed tasks
  abbrev pub IsTold : ℕ → Option Failed → Type 0
  IsTold n none = n ≡ 0
  IsTold n (some f) =
      (1 ≤ n) × (length f.failures ≡ n) × (non_empty f.failure_reason ≡ true) × AllShort f.failures

  report-IsTold : (n : ℕ) (bs : List Brief) → length bs ≡ n → AllShort bs → IsTold n (report bs)
  unfolding report reason_of
  report-IsTold n [] e short = sym e
  report-IsTold n (b ∷ bs) e short = (
    omega (arith, e),
    e,
    str_or-non_empty (str_or b.error (missing_text b.missing_artifacts)) "task failed" refl,
    short,
  )

  -- The projection never raises: every source has a next step. It reports nothing exactly when no
  -- task failed, and otherwise one brief for each failed task, with a reason that is not blank and
  -- with errors and titles of at most 300 characters.
  pub project_failed_tasks-IsTold :
      (ts : List Task)
      → (o : Option Failed) × ((project_failed_tasks redact ts ≡ ok o)
          × IsTold (length (keep is_failed ts)) o)
  unfolding project_failed_tasks
  project_failed_tasks-IsTold ts =
      let (bs, (e, n, short)) = briefs_of-ok ts in
      (
        report bs,
        (
          ap (λ m. m >>= λ bs. ok (report bs)) e,
          report-IsTold (length (keep is_failed ts)) bs n short,
        ),
      )
