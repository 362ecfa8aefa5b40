-- ===== src/TaskDeps/Tests.antt =====
-- Dependencies of a small task.
use Prim.Native.String.{String}
use native.Mathlib.Decide.{ℕ_discrete}
use teleagent_collab.Common.{
  ◌≡◌, refl, ◌↔◌, Bool, false, Option, none, some, List, [], ◌∷◌, Dict, string_eq, strip, lower,
  append, any, insert, lookup, ◌==◌,
}
use teleagent_collab.TaskDeps.{
  Item, entry, Completed, true_value, result, as_str, parse_one_dep, parse_depends_on, strings_of,
  unsatisfied_deps, index_completed, result_succeeded, is_missing, named,
}
use teleagent_collab.TaskDeps.Unsatisfied.{AllSatisfied, unsatisfied_deps-nil_iff}

abbrev no_suffix : String → Bool
no_suffix s = false

abbrev no_file : String → Bool
no_file s = false

abbrev only_out : String → String → Bool
only_out root s = s == "out/a.md"

abbrev items : List Item
items = entry " out/a.md" ∷ entry "Task:t1" ∷ entry "task:t1" ∷ entry "plan" ∷ []

abbrev completed : Option (Dict String Completed)
completed = some (("T1", true_value) ∷ ("x", result false "Done" ("plan" ∷ [])) ∷ [])

unsatisfied_deps-nil_iff_example :
    (unsatisfied_deps no_suffix no_file only_out ("w" ∷ []) completed none items ≡ [])
    ↔ AllSatisfied no_suffix no_file only_out
        ("w" ∷ [])
        completed
        none
        (parse_depends_on no_suffix items)
unsatisfied_deps-nil_iff_example =
    unsatisfied_deps-nil_iff no_suffix no_file only_out ("w" ∷ []) completed none items

all_done : unsatisfied_deps no_suffix no_file only_out ("w" ∷ []) completed none items ≡ []
unfolding unsatisfied_deps parse_depends_on parse_one_dep strip string_eq as_str lower append
    is_missing any named lookup index_completed insert result_succeeded ℕ_discrete
all_done = refl

-- The text of a reference to a job whose name looks like a path is read as one to a file.
job_text : strings_of (parse_depends_on no_suffix (entry "charter:v1/plan" ∷ [])) ≡ "v1/plan" ∷ []
unfolding strings_of parse_depends_on parse_one_dep strip as_str lower ℕ_discrete
job_text = refl

job_text_is_read_as_artifact :
    strings_of (parse_depends_on no_suffix (entry "v1/plan" ∷ [])) ≡ "artifact:v1/plan" ∷ []
unfolding strings_of parse_depends_on parse_one_dep strip as_str lower append ℕ_discrete
job_text_is_read_as_artifact = refl
