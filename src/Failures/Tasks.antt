-- ===== src/Failures/Tasks.antt =====
-- framework/failure_projection.py: the fields of a task that it reads, and its tables.
use teleagent_collab.Common.{Bool, Option, List, [], ◌∷◌, String, Dict, string_eq, nat_eq}

-- An entry of a list of missing artifacts: a text, a mapping with its path, name or relative path
-- (blank when that is no text), or anything else.
pub data Missing : Type 0 where
  named labelled : String → Missing
  other : Missing

-- A text field is `none` when it is absent or no text; a field that the code turns into a text is
-- that text. The entries of the first of the keys "missing_artifacts" and "missing" that is there.
pub record TaskResult : Type 0 where
  pub error : Option String
  pub failure_reason : Option String
  pub error_source : String
  pub acceptance_failed : Bool
  pub has_contamination : Bool
  pub state : String
  pub controller_state : String
  pub finish : String
  pub missing : List Missing
  pub run_id : Option String
  pub native_handle : Option String

-- A result that is no mapping counts as an empty one.
pub record Task : Type 0 where
  pub task_id : String
  pub title : String
  pub status : String
  pub error : Option String
  pub failure_reason : Option String
  pub run_id : Option String
  pub native_handle : Option String
  pub result : TaskResult

abbrev pub failure_sources : List String
failure_sources =
    "worker_timeout" ∷ "spawn" ∷ "contract_render" ∷ "acceptance" ∷ "contamination" ∷ "task_failed"
    ∷ "cancelled" ∷ "oom" ∷ []

abbrev pub explicit_sources : List String
explicit_sources =
    "worker_timeout" ∷ "spawn" ∷ "contract_render" ∷ "acceptance" ∷ "contamination" ∷ "cancelled"
    ∷ "oom" ∷ []

abbrev pub wall_markers : List String
wall_markers =
    "budget_exceeded wall" ∷ "budget_exceeded: wall" ∷ "budget_exhausted" ∷ "timed_out"
    ∷ "wall clock" ∷ "wall_clock" ∷ "wall budget" ∷ "wall_budget" ∷ "wall_sec" ∷ "wall_s="
    ∷ "deadline exhausted" ∷ []

-- `_NEXT_STEP`
abbrev pub next_steps : Dict String String
next_steps =
    (
      "worker_timeout",
      "raise budget.wall_sec or split the task; open a NEW request citing this request_id",
    )
    ∷ ("spawn", "check collab-service --ready")
    ∷ ("contract_render", "fix the worker contract and open a NEW request citing this request_id")
    ∷ (
      "acceptance",
      "fix the artifact or acceptance criteria and open a NEW request citing this request_id",
    )
    ∷ (
      "contamination",
      "remove AIGC or invisible marks, or set acceptance.allow_aigc_marks; open a NEW request citing this request_id",
    )
    ∷ ("cancelled", "open a NEW request citing this request_id if the work is still needed")
    ∷ (
      "oom",
      "the worker hit the service memory limit (cgroup MemoryMax); split the task or raise the limit, then open a NEW request citing this request_id",
    )
    ∷ ("task_failed", "inspect the task error and open a NEW request citing this request_id")
    ∷ []
