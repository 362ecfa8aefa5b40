-- ===== src/Ownership/Legal.antt =====
-- framework/goal_ownership.py: what a plan that `validate_plan_revision` accepts keeps of the current
-- plan's tasks.
mod Tests
use teleagent_collab.Common.{
  ℕ, suc, Option, none, some, List, [], ◌∷◌, true, String, Dict, ◌≡◌, refl, ap, sym, ◌∙◌, subst,
  arith, string_eq, lookup, insert, contains, non_empty, ok, >>=-eq-ok, ok_injective,
}
use teleagent_collab.Lifecycle.{assert_transition}
use teleagent_collab.PathScope.{PythonText}
use teleagent_collab.Ownership.Json.{
  Json, Document, Python, mapping, get_list, task_id_of, add_tasks, tasks_by_id,
}
use teleagent_collab.Ownership.Autonomy.{check_plan_against_autonomy}
use teleagent_collab.Ownership.Plans.{
  active_task_statuses, new_task_statuses, has_task, status_of, check_task, check_tasks,
  check_dropped, check_change, check_changes, check_against_current, check_document, check_ceiling,
  validate_document, check_object,
}

-- What a legal plan may do to a task's status, if it had one
pub data LegalChange (py : Python) : Option Document → Document → Type 0 where
  added :
      {task : Document}
      → contains new_task_statuses (status_of py task) ≡ true
      → LegalChange py none task
  unchanged :
      {old task : Document} → status_of py old ≡ status_of py task → LegalChange py (some old) task
  moved :
      {old task : Document}
      → assert_transition "task" (status_of py old) (status_of py task) ≡ ok tt
      → LegalChange py (some old) task

module _ (py : Python) where
  object-added :
      (goal_id : String) (i : ℕ) (task : Document) (acc out : Dict String Document)
      → check_object py goal_id i task acc ≡ ok out
      → (non_empty (task_id_of py task) ≡ true) × (out ≡ insert (task_id_of py task) task acc)
  unfolding check_object
  object-added goal_id i task acc out h = (ground arith, ground arith)

  task-added :
      (goal_id : String) (i : ℕ) (j : Json) (acc out : Dict String Document)
      → check_task py goal_id i j acc ≡ ok out
      → (task : Document) × ((mapping j ≡ some task)
          × ((non_empty (task_id_of py task) ≡ true)
              × (out ≡ insert (task_id_of py task) task acc)))
  unfolding check_task
  task-added goal_id i j acc out h = by_mapping (mapping j) refl
    where
      by_mapping :
          (o : Option Document)
          → mapping j ≡ o
          → (task : Document) × ((mapping j ≡ some task)
              × ((non_empty (task_id_of py task) ≡ true)
                  × (out ≡ insert (task_id_of py task) task acc)))
      by_mapping none e = absurd (ground arith)
      by_mapping (some task) e = (task, (e, object-added goal_id i task acc out (ground arith)))

  -- The accepted tasks are those that `_tasks_by_id` reads.
  tasks-read :
      (goal_id : String) (i : ℕ) (js : List Json) (acc out : Dict String Document)
      → check_tasks py goal_id i js acc ≡ ok out
      → add_tasks py js acc ≡ out
  unfolding check_tasks add_tasks
  tasks-read goal_id i [] acc out h = ok_injective acc out h
  tasks-read goal_id i (j ∷ js) acc out h =
      let (mid, one, rest) =
        >>=-eq-ok (check_task py goal_id i j acc) (check_tasks py goal_id (suc i) js) h in
      let (task, (m, (n, e))) = task-added goal_id i j acc mid one in
      ground (arith, tasks-read goal_id (suc i) js mid out rest)

  kept_active :
      (old new : Dict String Document) (tid : String) (task : Document)
      → check_dropped py old new ≡ ok tt
      → lookup tid old ≡ some task
      → contains active_task_statuses (status_of py task) ≡ true
      → has_task tid new ≡ true
  unfolding check_dropped lookup
  kept_active [] new tid task h f a = cc
  kept_active ((k, t) ∷ old) new tid task h f a = ground (arith, kept_active old new tid task)

  change-Legal :
      (tid : String) (o : Option Document) (task : Document)
      → check_change py tid o task ≡ ok tt
      → LegalChange py o task
  unfolding check_change
  change-Legal tid none task h = added (ground arith)
  change-Legal tid (some old) task h = elim (string_eq.dec (status_of py old) (status_of py task)) [
    | yes e ↦ unchanged e
    | no d ↦ moved (ground arith)
  ]

  changes-Legal :
      (old new : Dict String Document) (tid : String) (task : Document)
      → check_changes py old new ≡ ok tt
      → lookup tid new ≡ some task
      → LegalChange py (lookup tid old) task
  unfolding check_changes lookup
  changes-Legal old [] tid task h f = absurd (cc)
  changes-Legal old ((k, t) ∷ new) tid task h f =
      let (_, one, rest) =
        >>=-eq-ok (check_change py k (lookup k old) t) (λ _. check_changes py old new) h in
      elim (string_eq.dec tid k) [
        | yes e ↦
            subst (λ x. LegalChange py (lookup x old) task) (sym e)
              (subst (LegalChange py (lookup k old)) (ground (arith, f))
                (change-Legal k (lookup k old) t one))
        | no d ↦ changes-Legal old new tid task rest (ground arith)
      ]

  document-read :
      (goal_id : String) (plan : Document) (out : Dict String Document)
      → check_document py goal_id plan ≡ ok out
      → tasks_by_id py plan ≡ out
  unfolding check_document tasks_by_id
  document-read goal_id plan out h = by_tasks (lookup "tasks" plan) refl
    where
      by_list :
          (j : Json) (l : Option (List Json))
          → lookup "tasks" plan ≡ some j
          → get_list j ≡ l
          → tasks_by_id py plan ≡ out
      by_list j none e g = absurd (ground arith)
      by_list j (some js) e g =
          let q : check_tasks py goal_id 0 js [] ≡ ok out = ground arith in
          ground (arith, tasks-read goal_id 0 js [] out q)

      by_tasks : (o : Option Json) → lookup "tasks" plan ≡ o → tasks_by_id py plan ≡ out
      by_tasks none e = absurd (ground arith)
      by_tasks (some j) e = by_list j (get_list j) e refl

  -- What the checks against the current plan were made on
  accepted-checks :
      (py_text : PythonText) (goal_id : String) (plan current : Document)
      (contract : Option Document) (autonomy : Json)
      → validate_document py py_text goal_id plan current contract autonomy ≡ ok tt
      → (check_dropped py (tasks_by_id py current) (tasks_by_id py plan) ≡ ok tt)
        × (check_changes py (tasks_by_id py current) (tasks_by_id py plan) ≡ ok tt)
  unfolding validate_document check_against_current
  accepted-checks py_text goal_id plan current contract autonomy h =
      let (_, p, _) = >>=-eq-ok _ (λ _. check_plan_against_autonomy py autonomy current plan) h in
      let (_, q, _) = >>=-eq-ok _ (λ _. check_ceiling py py_text plan current contract) p in
      let (new, d, c) =
        >>=-eq-ok (check_document py goal_id plan) (check_against_current py current) q in
      let (_, dropped, changes) =
        >>=-eq-ok (check_dropped py (tasks_by_id py current) new)
          (λ _. check_changes py (tasks_by_id py current) new) c in
      let read = document-read goal_id plan new d in
      (
        ap (check_dropped py (tasks_by_id py current)) read ∙ dropped,
        ap (check_changes py (tasks_by_id py current)) read ∙ changes,
      )

  -- A plan that is accepted keeps every active task of the current plan.
  pub accepted_plan_keeps_active_tasks :
      (py_text : PythonText) (goal_id : String) (plan current : Document)
      (contract : Option Document) (autonomy : Json) (tid : String) (task : Document)
      → validate_document py py_text goal_id plan current contract autonomy ≡ ok tt
      → lookup tid (tasks_by_id py current) ≡ some task
      → contains active_task_statuses (status_of py task) ≡ true
      → has_task tid (tasks_by_id py plan) ≡ true
  accepted_plan_keeps_active_tasks py_text goal_id plan current contract autonomy tid task h =
      kept_active (tasks_by_id py current) (tasks_by_id py plan) tid task
        (accepted-checks py_text goal_id plan current contract autonomy h).0

  -- A plan that is accepted does to the status of each of its tasks what the lifecycle allows: a
  -- task that the current plan does not have is queued or blocked, and any other has its status or
  -- one that an edge of the lifecycle leads to.
  pub accepted_plan_follows_lifecycle :
      (py_text : PythonText) (goal_id : String) (plan current : Document)
      (contract : Option Document) (autonomy : Json) (tid : String) (task : Document)
      → validate_document py py_text goal_id plan current contract autonomy ≡ ok tt
      → lookup tid (tasks_by_id py plan) ≡ some task
      → LegalChange py (lookup tid (tasks_by_id py current)) task
  accepted_plan_follows_lifecycle py_text goal_id plan current contract autonomy tid task h =
      changes-Legal (tasks_by_id py current) (tasks_by_id py plan) tid task
        (accepted-checks py_text goal_id plan current contract autonomy h).1
