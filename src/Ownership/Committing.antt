-- ===== src/Ownership/Committing.antt =====
-- framework/goal_ownership.py: what proposing and committing a plan revision leave, and when the
-- plan changes.
use teleagent_collab.Common.{
  ℕ, suc, Option, none, some, true, false, String, ◌≡◌, refl, sym, subst, ◌⊎◌, inl, inr, arith,
  string_eq, nat_eq, ℕ_discrete, strip, lookup, Result, ok, err, Bool-cases,
}
use teleagent_collab.PathScope.{PythonText}
use teleagent_collab.Ownership.Json.{Document, Python}
use teleagent_collab.Ownership.Plans.{Reason, ready, stale_ownership, reject_reason}
use teleagent_collab.Ownership.Store.{
  GoalOwnership, ProposalStatus, proposed, committed, rejected, PlanRevisionProposal,
  OwnershipStore, is_owned, check_submitter, is_ready, with_goal_id, logged,
}
use teleagent_collab.Ownership.Revisions.{
  given, propose_plan_revision, validate_in, commit_revision, commit_found, commit_recorded,
  commit_proposed, commit_refused, commit_accepted, with_proposal, is_outdated,
}

-- The fields that neither a proposal nor a refused commit changes
pub record IsKept (s t : OwnershipStore) : Type 0 where
  pub same_goal : t.goal_id ≡ s.goal_id
  pub same_owner : t.ownership ≡ s.ownership
  pub same_plan : t.plan ≡ s.plan
  pub same_revision : t.plan_revision ≡ s.plan_revision
  pub same_contract : t.goal_contract ≡ s.goal_contract
  pub same_autonomy : t.autonomy ≡ s.autonomy

-- What an accepted commit has found and done
pub record IsAccepted (py : Python) (py_text : PythonText) (rec : PlanRevisionProposal)
    (s t : OwnershipStore) : Type 0 where
  pub was_proposed : rec.status ≡ proposed
  pub owned : is_owned s.ownership ≡ true
  pub by_owner : rec.coordinator_id ≡ s.ownership.coordinator_id
  pub of_version : rec.ownership_version ≡ s.ownership.version
  pub legal : validate_in py py_text rec.plan s ≡ ok tt
  pub new_plan : t.plan ≡ with_goal_id s.goal_id rec.plan
  pub next_revision : t.plan_revision ≡ suc s.plan_revision
  pub owner_stays : t.ownership ≡ s.ownership
  pub contract_stays : t.goal_contract ≡ s.goal_contract
  pub autonomy_stays : t.autonomy ≡ s.autonomy

module _ (py : Python) (py_text : PythonText) where
  pub propose-IsKept :
      (cid : String) (version : ℕ) (plan : Document) (reason pid fresh : String) (now : ℕ)
      (s : OwnershipStore)
      → IsKept s (propose_plan_revision py py_text cid version plan reason pid fresh now s).0
  unfolding propose_plan_revision logged with_proposal
  propose-IsKept cid version plan reason pid fresh now s = record {
    same_goal = refl;
    same_owner = refl;
    same_plan = refl;
    same_revision = refl;
    same_contract = refl;
    same_autonomy = refl;
  }

  kept : (s : OwnershipStore) → IsKept s s
  kept s = record {
    same_goal = refl;
    same_owner = refl;
    same_plan = refl;
    same_revision = refl;
    same_contract = refl;
    same_autonomy = refl;
  }

  refused-IsKept :
      (pid : String) (rec : PlanRevisionProposal) (why : Reason) (detail : String)
      (s : OwnershipStore)
      → IsKept s (commit_refused pid rec why detail s).0
  unfolding commit_refused logged with_proposal
  refused-IsKept pid rec why detail s = record {
    same_goal = refl;
    same_owner = refl;
    same_plan = refl;
    same_revision = refl;
    same_contract = refl;
    same_autonomy = refl;
  }

  is_ready-eq : (r : Reason) → is_ready r ≡ true → r ≡ ready
  is_ready-eq ready h = refl
  is_ready-eq _ h = cc

  pub ready-owned :
      (cid : String) (version : ℕ) (own : GoalOwnership)
      → check_submitter cid (some version) own ≡ ready
      → (is_owned own ≡ true) × (strip cid ≡ own.coordinator_id) × (version ≡ own.version)
  unfolding check_submitter is_owned ℕ_discrete
  ready-owned cid version own h = ground arith

  accepted_commit_lem :
      (pid : String) (rec : PlanRevisionProposal) (s : OwnershipStore)
      → rec.status ≡ proposed
      → is_owned s.ownership ≡ true
      → is_outdated rec s.ownership ≡ false
      → validate_in py py_text rec.plan s ≡ ok tt
      → IsAccepted py py_text rec s (commit_accepted pid rec s).0
  unfolding commit_accepted logged with_proposal is_outdated ℕ_discrete
  accepted_commit_lem pid rec s p o d v = record {
    was_proposed = p;
    owned = o;
    by_owner = ground arith;
    of_version = ground arith;
    legal = v;
    new_plan = refl;
    next_revision = refl;
    owner_stays = refl;
    contract_stays = refl;
    autonomy_stays = refl;
  }

  proposed-outcome :
      (pid : String) (rec : PlanRevisionProposal) (cid : String) (version : ℕ) (s : OwnershipStore)
      → rec.status ≡ proposed
      → IsKept s (commit_proposed py py_text pid rec cid version s).0
        ⊎ IsAccepted py py_text rec s (commit_proposed py py_text pid rec cid version s).0
  unfolding commit_proposed
  proposed-outcome pid rec cid version s p =
      elim (Bool-cases (is_ready (check_submitter cid (some version) s.ownership))) [
        | inr no_submitter ↦ inl (
            subst (IsKept s) (sym (unready no_submitter))
              (refused-IsKept pid rec (check_submitter cid (some version) s.ownership) "" s))
        | inl submitter ↦ elim (Bool-cases (is_outdated rec s.ownership)) [
          | inl outdated ↦ inl (
              subst (IsKept s) (sym (stale submitter outdated))
                (refused-IsKept pid rec stale_ownership "" s))
          | inr current ↦ judged_plan (validate_in py py_text rec.plan s) refl submitter current
        ]
      ]
    where
      unready :
          is_ready (check_submitter cid (some version) s.ownership) ≡ false
          → (commit_proposed py py_text pid rec cid version s).0
            ≡ (commit_refused pid rec (check_submitter cid (some version) s.ownership) "" s).0
      unready h = ground arith

      stale :
          is_ready (check_submitter cid (some version) s.ownership) ≡ true
          → is_outdated rec s.ownership ≡ true
          → (commit_proposed py py_text pid rec cid version s).0
            ≡ (commit_refused pid rec stale_ownership "" s).0
      stale h o = ground arith

      judged_plan :
          (verdict : Result String (Unit {0}))
          → validate_in py py_text rec.plan s ≡ verdict
          → is_ready (check_submitter cid (some version) s.ownership) ≡ true
          → is_outdated rec s.ownership ≡ false
          → IsKept s (commit_proposed py py_text pid rec cid version s).0
            ⊎ IsAccepted py py_text rec s (commit_proposed py py_text pid rec cid version s).0
      judged_plan (err detail) e h o =
          let q : (commit_proposed py py_text pid rec cid version s).0
              ≡ (commit_refused pid rec (reject_reason detail) detail s).0 =
            ground arith in
          inl (subst (IsKept s) (sym q) (refused-IsKept pid rec (reject_reason detail) detail s))
      judged_plan (ok done) e h o =
          let q : (commit_proposed py py_text pid rec cid version s).0
              ≡ (commit_accepted pid rec s).0 =
            ground arith in
          let (owned, _, _) = ready-owned cid version s.ownership (is_ready-eq _ h) in
          inr (
            subst (IsAccepted py py_text rec s) (sym q) (accepted_commit_lem pid rec s p owned o e))

  recorded-outcome :
      (pid : String) (rec : PlanRevisionProposal) (cid : Option String) (version : Option ℕ)
      (s : OwnershipStore)
      → IsKept s (commit_recorded py py_text pid rec cid version s).0
        ⊎ IsAccepted py py_text rec s (commit_recorded py py_text pid rec cid version s).0
  unfolding commit_recorded
  recorded-outcome pid rec cid version s = by_status rec.status refl
    where
      by_status :
          (st : ProposalStatus)
          → rec.status ≡ st
          → IsKept s (commit_recorded py py_text pid rec cid version s).0
            ⊎ IsAccepted py py_text rec s (commit_recorded py py_text pid rec cid version s).0
      by_status committed e =
          let q : (commit_recorded py py_text pid rec cid version s).0 ≡ s = ground arith in
          inl (subst (IsKept s) (sym q) (kept s))
      by_status rejected e =
          let q : (commit_recorded py py_text pid rec cid version s).0 ≡ s = ground arith in
          inl (subst (IsKept s) (sym q) (kept s))
      by_status proposed e =
          let c = given cid rec.coordinator_id in
          let v = given version rec.ownership_version in
          let q : (commit_recorded py py_text pid rec cid version s).0
              ≡ (commit_proposed py py_text pid rec c v s).0 =
            ground arith in
          subst (λ t. IsKept s t ⊎ IsAccepted py py_text rec s t) (sym q)
            (proposed-outcome pid rec c v s e)

  -- A commit changes the goal's plan only if it is accepted: the proposal on file is pending, was
  -- made by the live coordinator under the live version, and is legal against the current plan,
  -- contract and autonomy; then the plan is the proposed one and the revision the next. Any other
  -- commit keeps ownership, plan, revision, contract and autonomy.
  pub commit_changes_plan_only_if_legal :
      (pid : String) (cid : Option String) (version : Option ℕ) (s : OwnershipStore)
      → IsKept s (commit_revision py py_text pid cid version s).0
        ⊎ ((rec : PlanRevisionProposal) × ((lookup (strip pid) s.proposals ≡ some rec)
              × IsAccepted py py_text rec s (commit_revision py py_text pid cid version s).0))
  unfolding commit_revision commit_found
  commit_changes_plan_only_if_legal pid cid version s = found (lookup (strip pid) s.proposals) refl
    where
      found :
          (o : Option PlanRevisionProposal)
          → lookup (strip pid) s.proposals ≡ o
          → IsKept s (commit_found py py_text (strip pid) o cid version s).0
            ⊎ ((rec : PlanRevisionProposal) × ((o ≡ some rec)
                  × IsAccepted py py_text rec s
                      (commit_found py py_text (strip pid) o cid version s).0))
      found none e = inl (kept s)
      found (some rec) e = elim (recorded-outcome (strip pid) rec cid version s) [
        | inl k ↦ inl k
        | inr a ↦ inr (rec, (refl, a))
      ]
