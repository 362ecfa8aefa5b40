-- ===== src/Ownership/Submitting.antt =====
-- framework/goal_ownership.py: what `submit_plan_revision` does for a live coordinator and for any
-- other, a second commit, and a rejected proposal under the identifier of another.
use teleagent_collab.Common.{
  ℕ, suc, Option, none, some, true, false, String, ◌≡◌, ◌≢◌, ◌⊎◌, ℕ_discrete, refl, ap, sym, ◌∙◌,
  subst, arith, string_eq, nat_eq, strip, lookup, non_empty, ok,
}
use teleagent_collab.PathScope.{PythonText}
use teleagent_collab.Ownership.Json.{Document, Python}
use teleagent_collab.Ownership.Plans.{ready}
use teleagent_collab.Ownership.Store.{
  ProposalStatus, proposed, committed, rejected, PlanRevisionProposal, OwnershipStore,
  GoalOwnership, check_submitter, is_ready, with_goal_id,
}
use teleagent_collab.Ownership.Revisions.{
  propose_plan_revision, submit_plan_revision, validate_in, commit_revision, refused_as,
  new_proposal, given,
}
use teleagent_collab.Ownership.Committing.{IsKept, propose-IsKept}
use teleagent_collab.Ownership.Outcomes.{
  accepted-fields, accepted-filed, current-proposal, proposed-success, pending-given, unknown-fails,
  commit-found, rejected-stays, committed-stays, pending-commits, submit-rejected, submit-pending,
  proposed_id, stale_record, live_record, str_or-left,
}

module _ (py : Python) (w : PythonText) where
  stranger_not_ready :
      (cid : String) (version : ℕ) (own : GoalOwnership)
      → (strip cid ≢ own.coordinator_id) ⊎ (version ≢ own.version)
      → is_ready (check_submitter cid (some version) own) ≡ false
  unfolding check_submitter ℕ_discrete
  stranger_not_ready cid version own h = ground arith

  -- A submission by anyone but the coordinator that holds the goal, or under another version than
  -- the ownership's, is refused, whatever others do meanwhile, and keeps ownership, plan, revision,
  -- contract and autonomy.
  pub stale_submission_is_refused :
      (cid : String) (version : ℕ) (plan : Document) (reason pid fresh : String) (now : ℕ)
      (others : OwnershipStore → OwnershipStore) (s : OwnershipStore)
      → (strip (strip cid) ≢ s.ownership.coordinator_id) ⊎ (version ≢ s.ownership.version)
      → ((submit_plan_revision py w cid version plan reason pid fresh now others s).1.success
          ≡ false)
        × IsKept s (submit_plan_revision py w cid version plan reason pid fresh now others s).0
  unfolding refused_as
  stale_submission_is_refused cid version plan reason pid fresh now others s h =
      let e =
        stale_record py w cid version plan reason pid fresh now s
          (stranger_not_ready (strip cid) version s.ownership h) in
      let (refused, same) =
        submit-rejected py w cid version plan reason pid fresh now s others
          (ap (λ (r : PlanRevisionProposal). r.status) e) in
      (
        refused,
        subst (IsKept s) (sym same) (propose-IsKept py w cid version plan reason pid fresh now s),
      )

  -- A submission under an identifier and a coordinator's name without white space around them, by
  -- the live coordinator under the live version, of a plan that is legal, is committed if all that
  -- still holds when the commit takes the lock: what others did since the proposal left it on file,
  -- its coordinator live and the plan legal. The plan is then the submitted one with the goal's id
  -- and the revision the next.
  pub live_submission_commits :
      (cid : String) (version : ℕ) (plan : Document) (reason pid fresh : String) (now : ℕ)
      (others : OwnershipStore → OwnershipStore) (s : OwnershipStore)
      → strip cid ≡ cid
      → strip pid ≡ pid
      → non_empty pid ≡ true
      → check_submitter cid (some version) s.ownership ≡ ready
      → validate_in py w plan s ≡ ok tt
      → (t : OwnershipStore)
      → others (propose_plan_revision py w cid version plan reason pid fresh now s).0 ≡ t
      → lookup pid t.proposals
        ≡ some (propose_plan_revision py w cid version plan reason pid fresh now s).1
      → check_submitter cid (some version) t.ownership ≡ ready
      → validate_in py w plan t ≡ ok tt
      → ((submit_plan_revision py w cid version plan reason pid fresh now others s).0.plan
          ≡ with_goal_id t.goal_id plan)
        × ((submit_plan_revision py w cid version plan reason pid fresh now others
              s).0.plan_revision
            ≡ suc t.plan_revision)
        × ((submit_plan_revision py w cid version plan reason pid fresh now others s).1.success
            ≡ true)
  unfolding new_proposal
  live_submission_commits cid version plan reason pid fresh now others s c p n live legal t e' filed
        live' legal' =
      let np = new_proposal cid version plan reason pid fresh now s in
      let e =
        live_record py w cid version plan reason pid fresh now s
          (ap is_ready (ap (λ x. check_submitter x (some version) s.ownership) c ∙ live)) legal in
      let submitted =
        submit-pending py w cid version plan reason pid fresh now s others
          (ap (λ (r : PlanRevisionProposal). r.status) e) in
      let rec = (propose_plan_revision py w cid version plan reason pid fresh now s).1 in
      let own = ap (λ x. check_submitter x (some version) t.ownership) c ∙ live' in
      let place : strip rec.proposal_id ≡ pid =
        ap strip (
          proposed_id py w cid version plan reason pid fresh now s
          ∙ str_or-left (strip pid) fresh (ap non_empty p ∙ n)
          ∙ p)
        ∙ p in
      let found = ap (λ x. lookup x t.proposals) place ∙ filed ∙ ap some e in
      let done =
        submitted
        ∙ ap (commit_revision py w rec.proposal_id none none) e'
        ∙ commit-found py w rec.proposal_id none none t np found
        ∙ pending-commits py w (strip rec.proposal_id) np t refl own
            (current-proposal np t.ownership cid version refl refl live') legal' in
      let (new_plan, revision, success) = accepted-fields (strip rec.proposal_id) np t in
      (
        ap (λ r. r.0.plan) done ∙ new_plan,
        ap (λ r. r.0.plan_revision) done ∙ revision,
        ap (λ r. r.1.success) done ∙ success,
      )

  committed_on_file :
      (pid : String) (cid : Option String) (version : Option ℕ) (s : OwnershipStore)
      → (commit_revision py w pid cid version s).1.success ≡ true
      → (rec : PlanRevisionProposal) × ((lookup
              (strip pid)
              (commit_revision py w pid cid version s).0.proposals
            ≡ some rec)
          × (rec.status ≡ committed))
  committed_on_file pid cid version s h = by_lookup (lookup (strip pid) s.proposals) refl
    where
      by_status :
          (rec : PlanRevisionProposal) (st : ProposalStatus)
          → lookup (strip pid) s.proposals ≡ some rec
          → rec.status ≡ st
          → (rec : PlanRevisionProposal) × ((lookup
                  (strip pid)
                  (commit_revision py w pid cid version s).0.proposals
                ≡ some rec)
              × (rec.status ≡ committed))
      by_status rec committed e q =
          let same =
            ap (λ r. r.0) (commit-found py w pid cid version s rec e)
            ∙ (committed-stays py w (strip pid) rec cid version s q).0 in
          (rec, (ap (λ (t : OwnershipStore). lookup (strip pid) t.proposals) same ∙ e, q))
      by_status rec rejected e q = absurd (
          ground (
            arith,
            h,
            ap (λ r. r.1.success) (commit-found py w pid cid version s rec e),
            rejected-stays py w (strip pid) rec cid version s q,
          ))
      by_status rec proposed e q =
          let pending =
            commit-found py w pid cid version s rec e
            ∙ pending-given py w (strip pid) rec cid version s q in
          let accepted =
            pending
            ∙ proposed-success py w (strip pid) rec (given cid rec.coordinator_id)
                (given version rec.ownership_version) s (sym (ap (λ r. r.1.success) pending) ∙ h) in
          let (done, (f, c)) = accepted-filed (strip pid) rec s in
          (done, (ap (λ r. lookup (strip pid) r.0.proposals) accepted ∙ f, c))

      by_lookup :
          (o : Option PlanRevisionProposal)
          → lookup (strip pid) s.proposals ≡ o
          → (rec : PlanRevisionProposal) × ((lookup
                  (strip pid)
                  (commit_revision py w pid cid version s).0.proposals
                ≡ some rec)
              × (rec.status ≡ committed))
      by_lookup none e = absurd (ground (arith, h, unknown-fails py w pid cid version s e))
      by_lookup (some rec) e = by_status rec rec.status e refl

  -- A commit that answers "ok" leaves a proposal whose next commit, whoever asks, changes
  -- nothing and answers that it is done.
  pub commit_is_idempotent :
      (pid : String) (cid cid' : Option String) (version version' : Option ℕ) (s : OwnershipStore)
      → (commit_revision py w pid cid version s).1.success ≡ true
      → ((commit_revision py w pid cid' version' (commit_revision py w pid cid version s).0).0
          ≡ (commit_revision py w pid cid version s).0)
        × ((commit_revision py w pid cid' version'
              (commit_revision py w pid cid version s).0).1.idempotent
            ≡ true)
  commit_is_idempotent pid cid cid' version version' s h =
      let (rec, (f, done)) = committed_on_file pid cid version s h in
      let t = (commit_revision py w pid cid version s).0 in
      let (same, again) = committed-stays py w (strip pid) rec cid' version' t done in
      let found = commit-found py w pid cid' version' t rec f in
      (ap (λ r. r.0) found ∙ same, ap (λ r. r.1.idempotent) found ∙ again)
