-- ===== src/Failures/Goals.antt =====
-- framework/failure_projection.py: the brief of a goal that failed before any task had a result.
use teleagent_collab.Common.{
  Bool, true, false, ◌≡◌, refl, ap, Option, none, some, [], ◌∷◌, String, Dict, string_eq, lookup,
  contains, strip, non_empty, str_or, append, ◌==◌, if◌then◌else◌, Result, err, ok, ◌>>=◌, arith,
}
use teleagent_collab.Failures.Told.{step_or}
use teleagent_collab.Failures.{KeyError, no_key, one_line, sanitize_reason}

-- The fields of the failure as texts; the last two are none when they are no texts.
pub record GoalFailure : Type 0 where
  pub error : String
  pub phase : String
  pub source : String
  pub code : Option String
  pub lead_status : Option String

pub record GoalBrief : Type 0 where
  pub stage : String
  pub error : String
  pub source : String
  pub next_step : String
  pub code : Option String
  pub lead_status : Option String
  pub failed_phase : String
  pub outcome_summary : String

-- `_GOAL_NEXT_STEP`
abbrev goal_next_steps : Dict String String
goal_next_steps =
    (
      "planner",
      "no worker was started; check the lead (lead_status) and open a NEW request citing this request_id",
    )
    ∷ ("coordination", "inspect the goal failure and open a NEW request citing this request_id")
    ∷ []

unfoldable goal_source : String → String → String
goal_source source stage =
    let told = strip source in
    if contains ("planner" ∷ "coordination" ∷ []) told
    then told
    else if stage == "planning"
    then "planner"
    else "coordination"

short_field : Option String → Option String
short_field none = none
short_field (some s) = if non_empty (strip s) then some (one_line 60 s) else none

goal_step_of : String → Result KeyError String
goal_step_of source = elim (lookup source goal_next_steps) [
  | none ↦ err (no_key source)
  | some s ↦ ok s
]

abbrev has_goal_step : String → Bool
has_goal_step s = elim (lookup s goal_next_steps) [ none ↦ false | some _ ↦ true ]

known-has_goal_step : (has_goal_step "planner" ≡ true) × (has_goal_step "coordination" ≡ true)
unfolding lookup string_eq
known-has_goal_step = (refl, refl)

told-has_goal_step :
    (s : String) → contains ("planner" ∷ "coordination" ∷ []) s ≡ true → has_goal_step s ≡ true
unfolding lookup
told-has_goal_step s h = ground arith

goal_source-has_goal_step :
    (source stage : String) → has_goal_step (goal_source source stage) ≡ true
unfolding goal_source
goal_source-has_goal_step source stage =
    ground (arith, known-has_goal_step, told-has_goal_step (strip source))

goal_step-ok : (s : String) → has_goal_step s ≡ true → (step : String) × (goal_step_of s ≡ ok step)
unfolding goal_step_of
goal_step-ok s h = step_or (lookup s goal_next_steps) (no_key s) h

module _ (redact : String → String) where
  goal_brief_with : GoalFailure → (stage source next_step : String) → GoalBrief
  unfolding short_field
  goal_brief_with f stage source next_step = record {
    stage = stage;
    error = str_or (sanitize_reason redact f.error) "goal failed";
    source = source;
    next_step = next_step;
    code = short_field f.code;
    lead_status = short_field f.lead_status;
    failed_phase = stage;
    outcome_summary = append "no output produced; failed during " stage;
  }

  unfoldable pub goal_level_failure_brief : GoalFailure → Result KeyError GoalBrief
  unfolding goal_step_of goal_brief_with goal_source
  goal_level_failure_brief f =
      let stage = one_line 40 (str_or f.phase "coordination") in
      let source = goal_source f.source stage in
      goal_step_of source >>= λ step. ok (goal_brief_with f stage source step)

  -- A brief is always made, whatever the failure.
  goal_level_failure_brief-ok :
      (f : GoalFailure) → (b : GoalBrief) × (goal_level_failure_brief f ≡ ok b)
  unfolding goal_level_failure_brief
  goal_level_failure_brief-ok f =
      let stage = one_line 40 (str_or f.phase "coordination") in
      let source = goal_source f.source stage in
      let (step, e) = goal_step-ok source (goal_source-has_goal_step f.source stage) in
      (
        goal_brief_with f stage source step,
        ap (λ m. m >>= λ s. ok (goal_brief_with f stage source s)) e,
      )
