-- ===== src/Lifecycle/Projecting.antt =====
-- What the projection of a scheduler state claims.
use teleagent_collab.Common.{
  ◌≡◌, refl, ap, ◌∙◌, ◌≢◌, ◌↔◌, ◌⊎◌, inl, inr, Bool, true, false, none, contains, String, string_eq,
  lookup, strip, arith,
}
use teleagent_collab.Lifecycle.{
  TaskState, ErrorClass, Projection, project_scheduler_state, task_state_of, error_class_of,
  map_error_class, error_classes, decision_channel_lead_codes,
}

done_is_succeeded : (force : Bool) → task_state_of "done" force ≡ TaskState.succeeded
unfolding task_state_of lookup string_eq
done_is_succeeded true = refl
done_is_succeeded false = refl

error_keys : (key : String) → error_class_of key ≢ none → (key ≡ "timeout") ⊎ (key ≡ "fail")
unfolding error_class_of
error_keys key h = ground arith

timeout_is_failed : (force : Bool) → task_state_of "timeout" force ≡ TaskState.failed
unfolding task_state_of lookup string_eq
timeout_is_failed force = refl

fail_is_failed : (force : Bool) → task_state_of "fail" force ≡ TaskState.failed
unfolding task_state_of lookup string_eq
fail_is_failed force = refl

module _ (job_state : String) (busy force : Bool) (goal_id task_id : String) where
  abbrev projected : Projection
  projected = project_scheduler_state job_state busy force goal_id task_id

  succeeded_done : projected.task_state ≡ TaskState.succeeded → strip job_state ≡ "done"
  unfolding project_scheduler_state lookup
  succeeded_done h = ground arith

  done_succeeded : strip job_state ≡ "done" → projected.task_state ≡ TaskState.succeeded
  unfolding project_scheduler_state
  done_succeeded h = ap (λ k. task_state_of k force) h ∙ done_is_succeeded force

  failed_has_class : projected.task_state ≡ TaskState.failed → projected.error_class ≢ none
  unfolding project_scheduler_state lookup
  failed_has_class h = ground arith

  class_has_failed : projected.error_class ≢ none → projected.task_state ≡ TaskState.failed
  unfolding project_scheduler_state
  class_has_failed h = elim (error_keys (strip job_state) h) [
    | inl e ↦ ap (λ k. task_state_of k force) e ∙ timeout_is_failed force
    | inr e ↦ ap (λ k. task_state_of k force) e ∙ fail_is_failed force
  ]

  -- The projection says `succeeded` exactly for the scheduler state "done", and it gives an error
  -- class exactly when it says `failed`.
  pub projection_honest :
      ((projected.task_state ≡ TaskState.succeeded) ↔ (strip job_state ≡ "done"))
      × ((projected.task_state ≡ TaskState.failed) ↔ (projected.error_class ≢ none))
  projection_honest = ((succeeded_done, done_succeeded), (failed_has_class, class_has_failed))

-- A source that is no error class itself, with a protocol code of the lead, is a failure of the
-- decision channel: it is never charged as an implementation or acceptance failure.
lead_code-decision_channel :
    (kind lead_code : String)
    → lookup (strip kind) error_classes ≡ none
    → contains decision_channel_lead_codes (strip lead_code) ≡ true
    → map_error_class kind lead_code ≡ ErrorClass.decision_channel_failed
unfolding map_error_class
lead_code-decision_channel kind lead_code h c = ground arith
