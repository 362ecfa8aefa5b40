-- ===== src/Ownership/Store.antt =====
-- framework/goal_ownership.py: the store of a goal's coordinator, plan and proposals. Each call reads
-- the goal's file under the directory's lock and writes it before it returns, so a call is a function
-- of the file's content. Texts of errors and times as texts are left out, and the versions are not
-- negative.
use teleagent_collab.Common.{
  ℕ, suc, Bool, Option, none, some, List, [], ◌∷◌, ◌++◌, ◌&&◌, not, true, false, String, Dict,
  string_eq, nat_eq, ℕ_discrete, lookup, insert, strip, non_empty, str_or, take_last, Result, ok,
  err, ◌==◌, if◌then◌else◌,
}
use teleagent_collab.PathScope.{PythonText}
use teleagent_collab.Ownership.Json.{
  Json, text, array, no_items, Document, Python, has_key, mapping, truthy_or,
}
use teleagent_collab.Ownership.Autonomy.{
  Autonomy, undeclared_autonomy, normalize_autonomy, autonomy_json,
}
use teleagent_collab.Ownership.Contract.{extract_goal_contract}
use teleagent_collab.Ownership.Plans.{
  Reason, ready, stale_ownership, not_coordinator, no_owner, already_owned, illegal_plan,
  empty_coordinator, validate_plan_revision,
}

pub record GoalOwnership : Type 0 where
  pub goal_id : String
  pub coordinator_id : String
  pub version : ℕ
  pub updated_at : ℕ
  pub predecessor_id : String

pub data ProposalStatus : Type 0 where
  proposed committed rejected : ProposalStatus

pub record PlanRevisionProposal : Type 0 where
  pub proposal_id : String
  pub goal_id : String
  pub coordinator_id : String
  pub ownership_version : ℕ
  pub plan : Document
  pub reason : String
  pub created_at : ℕ
  pub status : ProposalStatus
  pub reject_reason : Option Reason

-- The entries of `history`, less the times and the submitter's ids of some. `notes`, their prose,
-- is left out.
pub data HistoryEntry : Type 0 where
  claim_entry : (coordinator_id : String) (version at_time : ℕ) → HistoryEntry
  handoff_entry : (from_id to_id : String) (version at_time : ℕ) → HistoryEntry
  grant_entry : (at_time : ℕ) (grant : Option Document) → HistoryEntry
  propose_rejected_entry : (proposal_id : String) (reason : Reason) (detail : String) → HistoryEntry
  propose_entry : (proposal_id coordinator_id : String) (version at_time : ℕ) → HistoryEntry
  commit_rejected_entry : (proposal_id : String) (reason : Reason) (detail : String) → HistoryEntry
  commit_entry : (proposal_id : String) (plan_revision : ℕ) (coordinator_id : String) → HistoryEntry

pub record OwnershipStore : Type 0 where
  pub goal_id : String
  pub ownership : GoalOwnership
  pub plan : Document
  pub plan_revision : ℕ
  pub goal_contract : Document
  pub autonomy : Autonomy
  pub proposals : Dict String PlanRevisionProposal
  pub history : List HistoryEntry

abbrev unowned : String → GoalOwnership
unowned goal_id = record {
  goal_id = goal_id;
  coordinator_id = "";
  version = 0;
  updated_at = 0;
  predecessor_id = "";
}

-- `empty_plan`
empty_plan : String → Document
empty_plan goal_id =
    let tasks : Document = ("tasks", array no_items) ∷ [] in
    if non_empty goal_id then insert "goal_id" (text goal_id) tasks else tasks

-- `open` of a goal without a file
unfoldable pub open_empty : String → OwnershipStore
unfolding empty_plan undeclared_autonomy
open_empty goal_id =
    let gid = str_or (strip goal_id) "goal" in
    record {
      goal_id = gid;
      ownership = unowned gid;
      plan = empty_plan gid;
      plan_revision = 0;
      goal_contract = [];
      autonomy = undeclared_autonomy;
      proposals = [];
      history = [];
    }

-- `history.append(…)` and `_persist_unlocked`, which keeps the last 200 entries
unfoldable pub logged : HistoryEntry → OwnershipStore → OwnershipStore
logged entry s = record s { history = take_last 200 (s.history ++ (entry ∷ [])) }

unfoldable pub is_owned : GoalOwnership → Bool
unfolding ℕ_discrete
is_owned own = non_empty own.coordinator_id && not (own.version == 0)

-- `check_submitter`. The version is none where `int` refuses it.
unfoldable pub check_submitter : String → Option ℕ → GoalOwnership → Reason
unfolding is_owned ℕ_discrete
check_submitter coordinator_id none own = stale_ownership
check_submitter coordinator_id (some ver) own =
    let cid = strip coordinator_id in
    if not (is_owned own)
    then no_owner
    else if not (non_empty cid)
    then empty_coordinator
    else if cid == own.coordinator_id && ver == own.version
    then ready
    else if not (ver == own.version)
    then stale_ownership
    else not_coordinator

abbrev pub is_ready : Reason → Bool
is_ready ready = true
is_ready _ = false

-- "reason", "created" or "bumped", and "ownership" of a reply. "ok" holds when the reason is `ready`.
pub record Reply : Type 0 where
  pub reason : Reason
  pub changed : Bool
  pub ownership : GoalOwnership

-- `plan` with the goal's id, if it has none
unfoldable pub with_goal_id : String → Document → Document
with_goal_id goal_id plan =
    if has_key "goal_id" plan then plan else insert "goal_id" (text goal_id) plan

-- `1 if self.plan.get("tasks") else 0`
unfoldable pub first_revision : Document → ℕ
first_revision plan = elim (truthy_or (lookup "tasks" plan) none) [ none ↦ 0 | some _ ↦ 1 ]

module _ (py : Python) (py_text : PythonText) where
  unfoldable pub set_autonomy : Option Json → OwnershipStore → OwnershipStore
  set_autonomy autonomy s = record s { autonomy = normalize_autonomy py autonomy }

  -- The plan, revision and contract that `claim` starts with
  with_initial_plan : Option Json → OwnershipStore → Result String OwnershipStore
  unfolding with_goal_id first_revision undeclared_autonomy
  with_initial_plan none s = ok s
  with_initial_plan (some plan) s =
      let checked =
        validate_plan_revision py py_text s.goal_id plan s.plan none
          (autonomy_json py undeclared_autonomy) in
      let document : Document = elim (mapping plan) [ none ↦ [] | some d ↦ d ] in
      let started = with_goal_id s.goal_id document in
      elim checked [
        | err e ↦ err e
        | ok _ ↦ ok record s {
          plan = started;
          goal_contract = extract_goal_contract py started;
          plan_revision = first_revision started;
        }
      ]

  with_contract : Option Document → OwnershipStore → OwnershipStore
  with_contract none s = s
  with_contract (some contract) s = elim (extract_goal_contract py contract) [
    | [] ↦ s
    | kv ∷ rest ↦ record s { goal_contract = kv ∷ rest }
  ]

  first_owner : String → ℕ → OwnershipStore → OwnershipStore
  unfolding logged
  first_owner cid now s = logged (claim_entry cid 1 now) record s {
    ownership = record {
      goal_id = s.goal_id;
      coordinator_id = cid;
      version = 1;
      updated_at = now;
      predecessor_id = "";
    };
  }

  unfoldable pub claim :
      String
      → Option Json
      → Option Json
      → Option Document
      → ℕ
      → OwnershipStore
      → OwnershipStore × Reply
  unfolding is_owned with_initial_plan with_contract first_owner
  claim coordinator_id initial_plan autonomy goal_contract now s =
      let cid = strip coordinator_id in
      let declared : OwnershipStore = elim autonomy [
        | none ↦ s
        | some a ↦ record s { autonomy = normalize_autonomy py (some a) }
      ] in
      let reply : Reason → OwnershipStore × Reply =
        λ r. (s, record { reason = r; changed = false; ownership = s.ownership }) in
      if not (non_empty cid)
      then reply empty_coordinator
      else if is_owned s.ownership
      then reply (if s.ownership.coordinator_id == cid then ready else already_owned)
      else elim (with_initial_plan initial_plan declared) [
        | err _ ↦ reply illegal_plan
        | ok planned ↦
            let t = first_owner cid now (with_contract goal_contract planned) in
            (t, record { reason = ready; changed = true; ownership = t.ownership })
      ]

-- `expected_version is not None and int(expected_version) != own.version`
unfoldable pub is_other_version : Option ℕ → ℕ → Bool
unfolding ℕ_discrete
is_other_version none version = false
is_other_version (some expected) version = not (expected == version)

unfoldable pub handed_off : String → String → ℕ → OwnershipStore → OwnershipStore
unfolding logged
handed_off src dst now s =
    let new_ver = suc s.ownership.version in
    logged (handoff_entry src dst new_ver now) record s {
      ownership = record {
        goal_id = s.goal_id;
        coordinator_id = dst;
        version = new_ver;
        updated_at = now;
        predecessor_id = src;
      };
    }

unfoldable pub handoff : String → String → Option ℕ → ℕ → OwnershipStore → OwnershipStore × Reply
unfolding is_owned is_other_version handed_off
handoff from_coordinator_id to_coordinator_id expected_version now s =
    let src = strip from_coordinator_id in
    let dst = strip to_coordinator_id in
    let own = s.ownership in
    let other_version = is_other_version expected_version own.version in
    let reply : Reason → OwnershipStore × Reply =
      λ r. (s, record { reason = r; changed = false; ownership = own }) in
    let t = handed_off src dst now s in
    let given : OwnershipStore × Reply =
      (t, record { reason = ready; changed = true; ownership = t.ownership }) in
    if not (non_empty src && non_empty dst)
    then reply empty_coordinator
    else if not (is_owned own)
    then reply no_owner
    else if not (src == own.coordinator_id)
    then reply (if other_version then stale_ownership else not_coordinator)
    else if other_version
    then reply stale_ownership
    else given

unfoldable pub succeed : String → Option ℕ → ℕ → OwnershipStore → OwnershipStore × Reply
unfolding handoff
succeed coordinator_id expected_version now s =
    handoff coordinator_id coordinator_id expected_version now s
