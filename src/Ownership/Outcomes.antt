-- ===== src/Ownership/Outcomes.antt =====
-- framework/goal_ownership.py: what proposals and commits come to, case by case.
use teleagent_collab.Common.{
  ℕ, suc, Option, none, some, true, false, String, ◌≡◌, refl, ap, arith, string_eq, nat_eq,
  ℕ_discrete, strip, str_or, lookup, lookup-insert, non_empty, ok,
}
use teleagent_collab.PathScope.{PythonText}
use teleagent_collab.Ownership.Json.{Document, Python}
use teleagent_collab.Ownership.Plans.{ready}
use teleagent_collab.Ownership.Store.{
  GoalOwnership, proposed, committed, rejected, PlanRevisionProposal, OwnershipStore,
  check_submitter, is_ready, with_goal_id, logged,
}
use teleagent_collab.Ownership.Revisions.{
  propose_plan_revision, submit_plan_revision, validate_in, commit_revision, commit_found,
  commit_recorded, commit_proposed, commit_refused, commit_accepted, with_proposal, is_outdated,
  judged, refused_as, new_proposal, given,
}

pub str_or-left : (s t : String) → non_empty s ≡ true → str_or s t ≡ s
str_or-left String.[] t h = cc
str_or-left (String.◌∷◌ c s) t h = refl

pub accepted-fields :
    (pid : String) (rec : PlanRevisionProposal) (s : OwnershipStore)
    → ((commit_accepted pid rec s).0.plan ≡ with_goal_id s.goal_id rec.plan)
      × ((commit_accepted pid rec s).0.plan_revision ≡ suc s.plan_revision)
      × ((commit_accepted pid rec s).1.success ≡ true)
unfolding commit_accepted logged with_proposal
accepted-fields pid rec s = (refl, refl, refl)

pub accepted-filed :
    (pid : String) (rec : PlanRevisionProposal) (s : OwnershipStore)
    → (done : PlanRevisionProposal) × ((lookup pid (commit_accepted pid rec s).0.proposals
          ≡ some done)
        × (done.status ≡ committed))
unfolding commit_accepted logged with_proposal
accepted-filed pid rec s =
    let done : PlanRevisionProposal = record rec { status = committed; reject_reason = none } in
    (done, (ground (arith, lookup-insert pid pid done s.proposals), refl))

pub current-proposal :
    (rec : PlanRevisionProposal) (own : GoalOwnership) (cid : String) (version : ℕ)
    → rec.coordinator_id ≡ strip cid
    → rec.ownership_version ≡ version
    → check_submitter cid (some version) own ≡ ready
    → is_outdated rec own ≡ false
unfolding check_submitter is_outdated ℕ_discrete
current-proposal rec own cid version c v h = ground arith

module _ (py : Python) (w : PythonText) where
  pub proposed-success :
      (pid : String) (rec : PlanRevisionProposal) (cid : String) (version : ℕ) (s : OwnershipStore)
      → (commit_proposed py w pid rec cid version s).1.success ≡ true
      → commit_proposed py w pid rec cid version s ≡ commit_accepted pid rec s
  unfolding commit_proposed commit_refused
  proposed-success pid rec cid version s h = ground arith

  pub pending-given :
      (pid : String) (rec : PlanRevisionProposal) (cid : Option String) (version : Option ℕ)
      (s : OwnershipStore)
      → rec.status ≡ proposed
      → commit_recorded py w pid rec cid version s
        ≡ commit_proposed py w pid rec
            (given cid rec.coordinator_id)
            (given version rec.ownership_version)
            s
  unfolding commit_recorded
  pending-given pid rec cid version s e = ground arith

  pub unknown-fails :
      (pid : String) (cid : Option String) (version : Option ℕ) (s : OwnershipStore)
      → lookup (strip pid) s.proposals ≡ none
      → (commit_revision py w pid cid version s).1.success ≡ false
  unfolding commit_revision commit_found
  unknown-fails pid cid version s e =
      ap (λ o. (commit_found py w (strip pid) o cid version s).1.success) e

  judged_id :
      (rec : PlanRevisionProposal) (s : OwnershipStore)
      → (judged py w rec s).0.proposal_id ≡ rec.proposal_id
  unfolding judged refused_as
  judged_id rec s = ground arith

  pub stale-judged :
      (rec : PlanRevisionProposal) (s : OwnershipStore)
      → is_ready (check_submitter rec.coordinator_id (some rec.ownership_version) s.ownership)
        ≡ false
      → (judged py w rec s).0
        ≡ refused_as
            (check_submitter rec.coordinator_id (some rec.ownership_version) s.ownership)
            rec
  unfolding judged
  stale-judged rec s h = ground arith

  pub live-judged :
      (rec : PlanRevisionProposal) (s : OwnershipStore)
      → is_ready (check_submitter rec.coordinator_id (some rec.ownership_version) s.ownership)
        ≡ true
      → validate_in py w rec.plan s ≡ ok tt
      → (judged py w rec s).0 ≡ rec
  unfolding judged
  live-judged rec s h v = ground arith

  pub commit-found :
      (pid : String) (cid : Option String) (version : Option ℕ) (s : OwnershipStore)
      (rec : PlanRevisionProposal)
      → lookup (strip pid) s.proposals ≡ some rec
      → commit_revision py w pid cid version s ≡ commit_recorded py w (strip pid) rec cid version s
  unfolding commit_revision commit_found
  commit-found pid cid version s rec e = ap (λ o. commit_found py w (strip pid) o cid version s) e

  pub rejected-stays :
      (pid : String) (rec : PlanRevisionProposal) (cid : Option String) (version : Option ℕ)
      (s : OwnershipStore)
      → rec.status ≡ rejected
      → (commit_recorded py w pid rec cid version s).1.success ≡ false
  unfolding commit_recorded
  rejected-stays pid rec cid version s e = ground arith

  pub committed-stays :
      (pid : String) (rec : PlanRevisionProposal) (cid : Option String) (version : Option ℕ)
      (s : OwnershipStore)
      → rec.status ≡ committed
      → ((commit_recorded py w pid rec cid version s).0 ≡ s)
        × ((commit_recorded py w pid rec cid version s).1.idempotent ≡ true)
  unfolding commit_recorded
  committed-stays pid rec cid version s e = (ground arith, ground arith)

  pub pending-commits :
      (pid : String) (rec : PlanRevisionProposal) (s : OwnershipStore)
      → rec.status ≡ proposed
      → check_submitter rec.coordinator_id (some rec.ownership_version) s.ownership ≡ ready
      → is_outdated rec s.ownership ≡ false
      → validate_in py w rec.plan s ≡ ok tt
      → commit_recorded py w pid rec none none s ≡ commit_accepted pid rec s
  unfolding commit_recorded commit_proposed
  pending-commits pid rec s p c o v = ground arith

  module _ (cid : String) (version : ℕ) (plan : Document) (reason pid fresh : String) (now : ℕ)
      (s : OwnershipStore) where
    pub submit-rejected :
        (others : OwnershipStore → OwnershipStore)
        → (propose_plan_revision py w cid version plan reason pid fresh now s).1.status ≡ rejected
        → ((submit_plan_revision py w cid version plan reason pid fresh now others s).1.success
            ≡ false)
          × ((submit_plan_revision py w cid version plan reason pid fresh now others s).0
              ≡ (propose_plan_revision py w cid version plan reason pid fresh now s).0)
    unfolding submit_plan_revision
    submit-rejected others e = (ground arith, ground arith)

    pub submit-pending :
        (others : OwnershipStore → OwnershipStore)
        → (propose_plan_revision py w cid version plan reason pid fresh now s).1.status ≡ proposed
        → submit_plan_revision py w cid version plan reason pid fresh now others s
          ≡ commit_revision py w
              (propose_plan_revision py w cid version plan reason pid fresh now s).1.proposal_id
              none
              none
              (others (propose_plan_revision py w cid version plan reason pid fresh now s).0)
    unfolding submit_plan_revision
    submit-pending others e = ground arith

    -- The proposal has the identifier that it was given, whatever is found.
    pub proposed_id :
        (propose_plan_revision py w cid version plan reason pid fresh now s).1.proposal_id
        ≡ str_or (strip pid) fresh
    unfolding propose_plan_revision new_proposal
    proposed_id = judged_id (new_proposal cid version plan reason pid fresh now s) s

    pub on_file :
        lookup
          (str_or (strip pid) fresh)
          (propose_plan_revision py w cid version plan reason pid fresh now s).0.proposals
        ≡ some (propose_plan_revision py w cid version plan reason pid fresh now s).1
    unfolding propose_plan_revision logged with_proposal
    on_file =
        let rec = (propose_plan_revision py w cid version plan reason pid fresh now s).1 in
        ground (
          arith,
          proposed_id,
          lookup-insert (str_or (strip pid) fresh) rec.proposal_id rec s.proposals,
        )

    pub stale_record :
        is_ready (check_submitter (strip cid) (some version) s.ownership) ≡ false
        → (propose_plan_revision py w cid version plan reason pid fresh now s).1
          ≡ refused_as
              (check_submitter (strip cid) (some version) s.ownership)
              (new_proposal cid version plan reason pid fresh now s)
    unfolding propose_plan_revision new_proposal
    stale_record h = stale-judged (new_proposal cid version plan reason pid fresh now s) s h

    pub live_record :
        is_ready (check_submitter (strip cid) (some version) s.ownership) ≡ true
        → validate_in py w plan s ≡ ok tt
        → (propose_plan_revision py w cid version plan reason pid fresh now s).1
          ≡ new_proposal cid version plan reason pid fresh now s
    unfolding propose_plan_revision new_proposal
    live_record h v = live-judged (new_proposal cid version plan reason pid fresh now s) s h v
