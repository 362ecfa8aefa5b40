-- ===== src/Ownership/Tests.antt =====
-- framework/goal_ownership.py on a small goal.
use teleagent_collab.Common.{
  [], all, any, append, false, has_prefix, insert, keep, lookup, lower, none, occurs, ok, refl,
  some, string_eq, strip, take, true, ℕ, ℕ_discrete, ◌∷◌, ◌≡◌, ◌≢◌, ◌⊎◌, ◌<◌, inr, arith,
}
use teleagent_collab.Lifecycle.{assert_transition, check_edge, task_edge}
use teleagent_collab.Ownership.Autonomy.{
  autonomy_json, check_plan_against_autonomy, normalize_autonomy,
}
use teleagent_collab.Ownership.Contract.{
  auth_sources, contract_path_platform, extract_goal_contract, inherited, is_subset,
}
use teleagent_collab.Ownership.Checks.{
  ceiling_items, check_budget, check_contract_ceiling, check_gate, check_item, check_items,
  check_limit, check_limits, check_musts, check_range, check_ranges, collected,
}
use teleagent_collab.Ownership.Json.{
  add_tasks, as_str_list, entries_of, fields_of, get_mapping, items_of, task_id_of, tasks_by_id,
  truthy,
}
use teleagent_collab.Ownership.Plans.{
  autonomy_denied, ceiling_of, check_against_current, check_ceiling, check_change, check_changes,
  check_document, check_dropped, check_object, check_task, check_tasks, ready, reject_reason,
  stale_ownership, status_of, validate_document,
}
use teleagent_collab.Ownership.Revisions.{
  commit_revision, propose_plan_revision, submit_plan_revision, validate_in, commit_found,
  commit_recorded, commit_proposed, commit_accepted, commit_refused, is_outdated, with_proposal,
}
use teleagent_collab.Ownership.Store.{
  check_submitter, claim, handoff, is_owned, OwnershipStore, PlanRevisionProposal, logged,
  handed_off, with_goal_id,
}
use teleagent_collab.PathScope.{allow_item_covered, path_covered}
use teleagent_collab.PathScope.{
  but_last, fold, is_prefix, parts_eq, trailing_globstar_prefix, universal,
}
use teleagent_collab.PathScope.{
  had_dotdot, is_wild_segment, normalize_platform, parse_path_pattern, raw_segments, split_slash,
}
use teleagent_collab.Ownership.Fencing.{
  perform, perform_all, handoff_call, claim_call, one_submitter_per_version, handoff_fences_out,
}
use teleagent_collab.Ownership.Committing.{IsKept, IsAccepted, commit_changes_plan_only_if_legal}
use teleagent_collab.Ownership.Outcomes.{on_file}
use teleagent_collab.Ownership.Submitting.{
  live_submission_commits, stale_submission_is_refused, commit_is_idempotent,
}
use teleagent_collab.Ownership.Fixtures.{py, words_of, store, next_plan, owner}

plan_is_legal : validate_in py words_of next_plan store ≡ ok tt
unfolding validate_in validate_document check_document check_tasks check_task check_object
    task_id_of truthy items_of entries_of get_mapping as_str_list check_against_current
    check_dropped check_changes check_change status_of tasks_by_id add_tasks check_ceiling
    ceiling_of extract_goal_contract fields_of contract_path_platform check_contract_ceiling
    check_budget check_limits check_limit inherited auth_sources is_subset check_musts check_gate
    collected ceiling_items check_ranges check_range check_items check_item
    check_plan_against_autonomy normalize_autonomy autonomy_json normalize_platform
    assert_transition check_edge task_edge allow_item_covered parse_path_pattern split_slash
    raw_segments had_dotdot is_prefix parts_eq universal trailing_globstar_prefix is_wild_segment
    any all keep take strip lower occurs has_prefix append lookup insert string_eq
plan_is_legal = refl

-- A task whose name has the word is reported as a breach of the autonomy.
reason_is_misread : reject_reason (append "duplicate task_id " "autonomy_docs") ≡ autonomy_denied
unfolding reject_reason append occurs has_prefix string_eq ℕ_discrete
reason_is_misread = refl

owner_is_live : check_submitter "a" (some 1) owner ≡ ready
unfolding check_submitter is_owned strip string_eq ℕ_discrete
owner_is_live = refl

handed_over : (handoff "a" "b" (some 1) 5 store).1.changed ≡ true
unfolding handoff handed_off strip string_eq
handed_over = refl

successor_is_live :
    check_submitter "b"
      (some 2)
      (perform_all py words_of (handoff_call "a" "b" (some 1) 5 ∷ []) store).ownership
    ≡ ready
unfolding perform_all perform check_submitter handoff is_owned strip string_eq ℕ_discrete
successor_is_live = refl

one_submitter_per_version_example : (1 < 2) ⊎ ((◌≡◌ {A = ℕ} 1 2) × (strip "a" ≡ strip "b"))
one_submitter_per_version_example =
    one_submitter_per_version py words_of (handoff_call "a" "b" (some 1) 5 ∷ []) store "a" "b" 1 2
      owner_is_live successor_is_live

handoff_fences_out_example :
    check_submitter "a"
      (some 1)
      (perform_all py words_of
        (claim_call "c" none none none 9 ∷ [])
        (handoff "a" "b" (some 1) 5 store).0).ownership
    ≡ stale_ownership
handoff_fences_out_example =
    handoff_fences_out py words_of (claim_call "c" none none none 9 ∷ []) store "a" "b" "a" (some 1)
      5 1 owner_is_live handed_over

commit_changes_plan_only_if_legal_example :
    IsKept store (commit_revision py words_of "p" none none store).0
    ⊎ ((rec : PlanRevisionProposal) × ((lookup (strip "p") store.proposals ≡ some rec)
          × IsAccepted py words_of rec store (commit_revision py words_of "p" none none store).0))
commit_changes_plan_only_if_legal_example =
    commit_changes_plan_only_if_legal py words_of "p" none none store

-- Somebody who does not hold the goal claims it between the proposal and the commit.
abbrev claimed_in_vain : OwnershipStore → OwnershipStore
claimed_in_vain s = (claim py words_of "c" none none none 9 s).0

abbrev proposed_store : OwnershipStore
proposed_store = (propose_plan_revision py words_of "a" 1 next_plan "" "q" "x" 7 store).0

claim_is_in_vain : claimed_in_vain proposed_store ≡ proposed_store
unfolding claim is_owned propose_plan_revision logged with_proposal strip string_eq ℕ_discrete
claim_is_in_vain = refl

proposal_on_file :
    lookup "q" proposed_store.proposals
    ≡ some (propose_plan_revision py words_of "a" 1 next_plan "" "q" "x" 7 store).1
unfolding strip
proposal_on_file = on_file py words_of "a" 1 next_plan "" "q" "x" 7 store

owner_is_still_live : check_submitter "a" (some 1) proposed_store.ownership ≡ ready
unfolding propose_plan_revision logged with_proposal
owner_is_still_live = owner_is_live

plan_is_still_legal : validate_in py words_of next_plan proposed_store ≡ ok tt
unfolding validate_in propose_plan_revision logged with_proposal
plan_is_still_legal = plan_is_legal

live_submission_commits_example :
    ((submit_plan_revision py words_of "a" 1 next_plan "" "q" "x" 7 claimed_in_vain store).0.plan
      ≡ with_goal_id "g" next_plan)
    × ((submit_plan_revision py words_of "a" 1 next_plan "" "q" "x" 7 claimed_in_vain
          store).0.plan_revision
        ≡ 4)
    × ((submit_plan_revision py words_of "a" 1 next_plan "" "q" "x" 7 claimed_in_vain
          store).1.success
        ≡ true)
unfolding strip propose_plan_revision logged with_proposal
live_submission_commits_example =
    live_submission_commits py words_of "a" 1 next_plan "" "q" "x" 7 claimed_in_vain store refl refl
      refl owner_is_live plan_is_legal proposed_store claim_is_in_vain proposal_on_file
      owner_is_still_live plan_is_still_legal

old_version : ◌≢◌ {A = ℕ} 2 1
old_version e = absurd (omega arith)

stale_submission_is_refused_example :
    ((submit_plan_revision py words_of "a" 2 next_plan "" "q" "x" 7 claimed_in_vain store).1.success
      ≡ false)
    × IsKept store
        (submit_plan_revision py words_of "a" 2 next_plan "" "q" "x" 7 claimed_in_vain store).0
stale_submission_is_refused_example =
    stale_submission_is_refused py words_of "a" 2 next_plan "" "q" "x" 7 claimed_in_vain store
      (inr old_version)

commit_succeeds : (commit_revision py words_of "p" none none store).1.success ≡ true
unfolding validate_in validate_document check_document check_tasks check_task check_object
    task_id_of truthy items_of entries_of get_mapping as_str_list check_against_current
    check_dropped check_changes check_change status_of tasks_by_id add_tasks check_ceiling
    ceiling_of extract_goal_contract fields_of contract_path_platform check_contract_ceiling
    check_budget check_limits check_limit inherited auth_sources is_subset check_musts check_gate
    collected ceiling_items check_ranges check_range check_items check_item
    check_plan_against_autonomy normalize_autonomy autonomy_json normalize_platform
    assert_transition check_edge task_edge allow_item_covered path_covered parse_path_pattern
    split_slash is_prefix parts_eq universal fold but_last trailing_globstar_prefix is_wild_segment
    any all keep take strip lower occurs has_prefix append lookup insert string_eq ℕ_discrete
    commit_revision commit_found commit_recorded commit_proposed commit_accepted commit_refused
    is_outdated check_submitter
commit_succeeds = refl

commit_is_idempotent_example :
    ((commit_revision py words_of "p"
        (some "z")
        none
        (commit_revision py words_of "p" none none store).0).0
      ≡ (commit_revision py words_of "p" none none store).0)
    × ((commit_revision py words_of "p"
          (some "z")
          none
          (commit_revision py words_of "p" none none store).0).1.idempotent
        ≡ true)
commit_is_idempotent_example =
    commit_is_idempotent py words_of "p" none (some "z") none none store commit_succeeds

-- A stranger's proposal under the identifier of the pending one ends it.
abbrev overwritten : OwnershipStore
overwritten = (propose_plan_revision py words_of "z" 1 next_plan "" "p" "x" 7 store).0
