-- ===== src/Ownership/Revisions.antt =====
-- framework/goal_ownership.py: `propose_plan_revision`, `commit_revision` and
-- `submit_plan_revision`. The identifier that `uuid4` gives and the time are arguments.
use teleagent_collab.Common.{
  ℕ, suc, Bool, Option, none, some, ◌||◌, not, true, false, String, string_eq, nat_eq, ℕ_discrete,
  lookup, insert, strip, str_or, Result, ok, err, ◌==◌, if◌then◌else◌,
}
use teleagent_collab.PathScope.{PythonText}
use teleagent_collab.Ownership.Json.{Document, Python}
use teleagent_collab.Ownership.Autonomy.{autonomy_json}
use teleagent_collab.Ownership.Plans.{
  Reason, ready, stale_ownership, stale_proposal, unknown_proposal, reject_reason,
  validate_document,
}
use teleagent_collab.Ownership.Store.{
  GoalOwnership, proposed, committed, rejected, PlanRevisionProposal, HistoryEntry,
  propose_rejected_entry, propose_entry, commit_rejected_entry, commit_entry, OwnershipStore,
  logged, check_submitter, is_ready, with_goal_id,
}

-- "ok", "reason", "idempotent", "plan_revision" and "ownership" of a reply
pub record CommitReply : Type 0 where
  pub success : Bool
  pub reason : Reason
  pub idempotent : Bool
  pub plan_revision : Option ℕ
  pub ownership : GoalOwnership

unfoldable pub refused_as : Reason → PlanRevisionProposal → PlanRevisionProposal
refused_as why rec = record rec { status = rejected; reject_reason = some why }

-- `self.proposals[rec.proposal_id] = rec`
unfoldable pub with_proposal : String → PlanRevisionProposal → OwnershipStore → OwnershipStore
with_proposal pid rec s = record s { proposals = insert pid rec s.proposals }

-- A commit that is refused: the proposal is rejected on file.
unfoldable pub commit_refused :
    String → PlanRevisionProposal → Reason → String → OwnershipStore → OwnershipStore × CommitReply
commit_refused pid rec why detail s = (
  logged (commit_rejected_entry pid why detail) (with_proposal pid (refused_as why rec) s),
  record {
    success = false;
    reason = why;
    idempotent = false;
    plan_revision = none;
    ownership = s.ownership;
  },
)

-- A commit that is done
unfoldable pub commit_accepted :
    String → PlanRevisionProposal → OwnershipStore → OwnershipStore × CommitReply
commit_accepted pid rec s =
    let done : PlanRevisionProposal = record rec { status = committed; reject_reason = none } in
    let revision = suc s.plan_revision in
    let planned : OwnershipStore = record s {
      plan = with_goal_id s.goal_id rec.plan;
      plan_revision = revision;
    } in
    (
      logged (commit_entry pid revision rec.coordinator_id) (with_proposal pid done planned),
      record {
        success = true;
        reason = ready;
        idempotent = false;
        plan_revision = some revision;
        ownership = s.ownership;
      },
    )

-- `rec.ownership_version != own.version or rec.coordinator_id != own.coordinator_id`
unfoldable pub is_outdated : PlanRevisionProposal → GoalOwnership → Bool
unfolding ℕ_discrete
is_outdated rec own =
    not (rec.ownership_version == own.version) || not (rec.coordinator_id == own.coordinator_id)

unfoldable pub new_proposal :
    (coordinator_id : String) (ownership_version : ℕ) (plan : Document)
    (reason proposal_id fresh_id : String) (now : ℕ)
    → OwnershipStore
    → PlanRevisionProposal
new_proposal coordinator_id ownership_version plan reason proposal_id fresh_id now s = record {
  proposal_id = str_or (strip proposal_id) fresh_id;
  goal_id = s.goal_id;
  coordinator_id = strip coordinator_id;
  ownership_version = ownership_version;
  plan = plan;
  reason = reason;
  created_at = now;
  status = proposed;
  reject_reason = none;
}

-- `x if x is not None else default`
abbrev pub given {ℓ} : {A : Type ℓ} → Option A → A → A
given none default = default
given (some x) default = x

module _ (py : Python) (py_text : PythonText) where
  -- The check of a plan against the store
  unfoldable pub validate_in : Document → OwnershipStore → Result String (Unit {0})
  validate_in plan s =
      validate_document py py_text s.goal_id plan s.plan (some s.goal_contract)
        (autonomy_json py s.autonomy)

  -- The proposal as it is recorded: `proposed`, or rejected with its reason
  unfoldable pub judged :
      PlanRevisionProposal → OwnershipStore → PlanRevisionProposal × HistoryEntry
  judged rec s =
      let pid = rec.proposal_id in
      let why = check_submitter rec.coordinator_id (some rec.ownership_version) s.ownership in
      let stale : PlanRevisionProposal × HistoryEntry =
        (refused_as why rec, propose_rejected_entry pid why "") in
      let live : PlanRevisionProposal × HistoryEntry = elim (validate_in rec.plan s) [
        | err detail ↦ (
          refused_as (reject_reason detail) record rec { reason = str_or rec.reason detail },
          propose_rejected_entry pid (reject_reason detail) detail,
        )
        | ok _ ↦ (rec, propose_entry pid rec.coordinator_id rec.ownership_version rec.created_at)
      ] in
      if is_ready why then live else stale

  unfoldable pub propose_plan_revision :
      (coordinator_id : String) (ownership_version : ℕ) (plan : Document)
      (reason proposal_id fresh_id : String) (now : ℕ)
      → OwnershipStore
      → OwnershipStore × PlanRevisionProposal
  unfolding judged
  propose_plan_revision coordinator_id ownership_version plan reason proposal_id fresh_id now s =
      let (rec, entry) =
        judged
          (new_proposal coordinator_id ownership_version plan reason proposal_id fresh_id now s)
          s in
      (logged entry (with_proposal rec.proposal_id rec s), rec)

  -- A commit of a proposal that is neither committed nor rejected
  unfoldable pub commit_proposed :
      String → PlanRevisionProposal → String → ℕ → OwnershipStore → OwnershipStore × CommitReply
  commit_proposed pid rec cid ver s =
      let why = check_submitter cid (some ver) s.ownership in
      let judge : OwnershipStore × CommitReply = elim (validate_in rec.plan s) [
        | err detail ↦ commit_refused pid rec (reject_reason detail) detail s
        | ok _ ↦ commit_accepted pid rec s
      ] in
      if not (is_ready why)
      then commit_refused pid rec why "" s
      else if is_outdated rec s.ownership
      then commit_refused pid rec stale_ownership "" s
      else judge

  -- The status of the recorded proposal decides.
  unfoldable pub commit_recorded :
      String
      → PlanRevisionProposal
      → Option String
      → Option ℕ
      → OwnershipStore
      → OwnershipStore × CommitReply
  commit_recorded pid rec coordinator_id ownership_version s = elim rec.status [
    | committed ↦ (
      s,
      record {
        success = true;
        reason = ready;
        idempotent = true;
        plan_revision = some s.plan_revision;
        ownership = s.ownership;
      },
    )
    | rejected ↦
        let why : Reason = elim rec.reject_reason [ none ↦ stale_proposal | some r ↦ r ] in
        (
          s,
          record {
            success = false;
            reason = why;
            idempotent = false;
            plan_revision = none;
            ownership = s.ownership;
          },
        )
    | proposed ↦
        commit_proposed pid rec (given coordinator_id rec.coordinator_id)
          (given ownership_version rec.ownership_version) s
  ]

  -- `self.proposals.get(pid)`, and what follows it
  unfoldable pub commit_found :
      String
      → Option PlanRevisionProposal
      → Option String
      → Option ℕ
      → OwnershipStore
      → OwnershipStore × CommitReply
  commit_found pid none coordinator_id ownership_version s = (
    s,
    record {
      success = false;
      reason = unknown_proposal;
      idempotent = false;
      plan_revision = none;
      ownership = s.ownership;
    },
  )
  commit_found pid (some rec) coordinator_id ownership_version s =
      commit_recorded pid rec coordinator_id ownership_version s

  unfoldable pub commit_revision :
      String → Option String → Option ℕ → OwnershipStore → OwnershipStore × CommitReply
  commit_revision proposal_id coordinator_id ownership_version s =
      let pid = strip proposal_id in
      commit_found pid (lookup pid s.proposals) coordinator_id ownership_version s

  -- The proposal and the commit each take and give back the lock: `others` is what is done to the
  -- store between the two.
  unfoldable pub submit_plan_revision :
      (coordinator_id : String) (ownership_version : ℕ) (plan : Document)
      (reason proposal_id fresh_id : String) (now : ℕ)
      → (others : OwnershipStore → OwnershipStore) → OwnershipStore
      → OwnershipStore × CommitReply
  submit_plan_revision coordinator_id ownership_version plan reason proposal_id fresh_id now others
        s =
      let (t, prop) =
        propose_plan_revision coordinator_id ownership_version plan reason proposal_id fresh_id now
          s in
      let committed_reply = commit_revision prop.proposal_id none none (others t) in
      let why : Reason = elim prop.reject_reason [ none ↦ stale_ownership | some r ↦ r ] in
      elim prop.status [
        | rejected ↦ (
          t,
          record {
            success = false;
            reason = why;
            idempotent = false;
            plan_revision = none;
            ownership = t.ownership;
          },
        )
        | _ ↦ committed_reply
      ]
