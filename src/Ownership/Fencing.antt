-- ===== src/Ownership/Fencing.antt =====
-- framework/goal_ownership.py: sequences of calls of a goal's store, and which coordinator a version
-- of the ownership belongs to.
use teleagent_collab.Common.{
  ℕ, suc, ◌≤◌, ◌<◌, Option, some, List, [], ◌∷◌, true, String, ◌≡◌, refl, ap, sym, ◌∙◌, ◌⊎◌, inl,
  inr, arith, string_eq, nat_eq, ℕ_discrete, strip, non_empty,
}
use teleagent_collab.PathScope.{PythonText}
use teleagent_collab.Ownership.Json.{Json, Document, Python}
use teleagent_collab.Ownership.Plans.{ready, stale_ownership}
use teleagent_collab.Ownership.Store.{
  GoalOwnership, OwnershipStore, is_owned, check_submitter, set_autonomy, claim, handoff,
  handed_off, logged,
}
use teleagent_collab.Ownership.Grants.{apply_authorized_grant}
use teleagent_collab.Ownership.Revisions.{propose_plan_revision, commit_revision}
use teleagent_collab.Ownership.Committing.{
  propose-IsKept, ready-owned, commit_changes_plan_only_if_legal,
}

-- The calls that write the goal's file, with their arguments
pub data Call : Type 0 where
  set_autonomy_call : Option Json → Call
  claim_call : String → Option Json → Option Json → Option Document → ℕ → Call
  handoff_call : String → String → Option ℕ → ℕ → Call
  grant_call : Option Document → ℕ → Call
  propose_call : String → ℕ → Document → String → String → String → ℕ → Call
  commit_call : String → Option String → Option ℕ → Call

module _ (py : Python) (py_text : PythonText) where
  unfoldable pub perform : Call → OwnershipStore → OwnershipStore
  perform (set_autonomy_call autonomy) s = set_autonomy py py_text autonomy s
  perform (claim_call cid plan autonomy contract now) s =
      (claim py py_text cid plan autonomy contract now s).0
  perform (handoff_call src dst expected now) s = (handoff src dst expected now s).0
  perform (grant_call grant now) s = apply_authorized_grant py grant now s
  perform (propose_call cid version plan reason pid fresh now) s =
      (propose_plan_revision py py_text cid version plan reason pid fresh now s).0
  perform (commit_call pid cid version) s = (commit_revision py py_text pid cid version s).0

  unfoldable pub perform_all : List Call → OwnershipStore → OwnershipStore
  unfolding perform
  perform_all [] s = s
  perform_all (c ∷ cs) s = perform_all cs (perform c s)

-- What a call does to an ownership that is held: nothing, or the next version
abbrev pub Advances : GoalOwnership → GoalOwnership → Type 0
Advances own next = (next ≡ own) ⊎ ((next.version ≡ suc own.version) × (is_owned next ≡ true))

handoff-Advances :
    (src dst : String) (expected : Option ℕ) (now : ℕ) (s : OwnershipStore)
    → Advances s.ownership (handoff src dst expected now s).0.ownership
unfolding handoff handed_off logged is_owned ℕ_discrete
handoff-Advances src dst expected now s = ground arith

handoff-next :
    (src dst : String) (expected : Option ℕ) (now : ℕ) (s : OwnershipStore)
    → (handoff src dst expected now s).1.changed ≡ true
    → ((handoff src dst expected now s).0.ownership.version ≡ suc s.ownership.version)
      × (is_owned (handoff src dst expected now s).0.ownership ≡ true)
unfolding handoff handed_off logged is_owned ℕ_discrete
handoff-next src dst expected now s h = ground arith

ready-named :
    (cid : String) (v : ℕ) (own : GoalOwnership)
    → check_submitter cid (some v) own ≡ ready
    → non_empty (strip cid) ≡ true
unfolding check_submitter
ready-named cid v own h = ground arith

older-stale :
    (cid : String) (v : ℕ) (own : GoalOwnership)
    → is_owned own ≡ true
    → non_empty (strip cid) ≡ true
    → v < own.version
    → check_submitter cid (some v) own ≡ stale_ownership
unfolding check_submitter ℕ_discrete
older-stale cid v own h n l = ground arith

module _ (py : Python) (py_text : PythonText) where
  claim-Advances :
      (cid : String) (plan autonomy : Option Json) (contract : Option Document) (now : ℕ)
      (s : OwnershipStore)
      → is_owned s.ownership ≡ true
      → Advances s.ownership (claim py py_text cid plan autonomy contract now s).0.ownership
  unfolding claim
  claim-Advances cid plan autonomy contract now s h = ground arith

  autonomy-ownership :
      (autonomy : Option Json) (s : OwnershipStore)
      → (set_autonomy py py_text autonomy s).ownership ≡ s.ownership
  unfolding set_autonomy
  autonomy-ownership autonomy s = refl

  grant-ownership :
      (grant : Option Document) (now : ℕ) (s : OwnershipStore)
      → (apply_authorized_grant py grant now s).ownership ≡ s.ownership
  unfolding apply_authorized_grant logged
  grant-ownership grant now s = refl

  call-Advances :
      (c : Call) (s : OwnershipStore)
      → is_owned s.ownership ≡ true
      → Advances s.ownership (perform py py_text c s).ownership
  unfolding perform
  call-Advances (set_autonomy_call autonomy) s h = inl (autonomy-ownership autonomy s)
  call-Advances (claim_call cid plan autonomy contract now) s h =
      claim-Advances cid plan autonomy contract now s h
  call-Advances (handoff_call src dst expected now) s h = handoff-Advances src dst expected now s
  call-Advances (grant_call grant now) s h = inl (grant-ownership grant now s)
  call-Advances (propose_call cid version plan reason pid fresh now) s h =
      inl (propose-IsKept py py_text cid version plan reason pid fresh now s).same_owner
  call-Advances (commit_call pid cid version) s h =
      elim (commit_changes_plan_only_if_legal py py_text pid cid version s) [
        | inl k ↦ inl k.same_owner
        | inr (rec, (found, a)) ↦ inl a.owner_stays
      ]

  -- The version of a held ownership never falls, and belongs to one ownership.
  run-Fenced :
      (calls : List Call) (s : OwnershipStore)
      → is_owned s.ownership ≡ true
      → (s.ownership.version ≤ (perform_all py py_text calls s).ownership.version)
        × ((perform_all py py_text calls s).ownership.version ≡ s.ownership.version
            → (perform_all py py_text calls s).ownership ≡ s.ownership)
  unfolding perform_all
  run-Fenced [] s h = (omega arith, λ _. refl)
  run-Fenced (c ∷ cs) s h = elim (call-Advances c s h) [
    | inl same ↦
        let (le, one) = run-Fenced cs (perform py py_text c s) (ap is_owned same ∙ h) in
        let v = ap (λ (o : GoalOwnership). o.version) same in
        (omega (arith, le, v), λ e. one (e ∙ sym v) ∙ same)
    | inr (next, held) ↦
        let (le, _) = run-Fenced cs (perform py py_text c s) held in
        (omega (arith, le, next), λ e. absurd (omega (arith, le, next, e)))
  ]

  run-owned :
      (calls : List Call) (s : OwnershipStore)
      → is_owned s.ownership ≡ true
      → is_owned (perform_all py py_text calls s).ownership ≡ true
  unfolding perform_all
  run-owned [] s h = h
  run-owned (c ∷ cs) s h =
      run-owned cs (perform py py_text c s)
        (elim (call-Advances c s h) [ inl same ↦ ap is_owned same ∙ h | inr (_, held) ↦ held ])

  -- Whatever calls come between: of two submitters that are accepted one after the other, the later
  -- one has a newer version of the ownership, or the same version and the same coordinator.
  pub one_submitter_per_version :
      (calls : List Call) (s : OwnershipStore) (first later : String) (v w : ℕ)
      → check_submitter first (some v) s.ownership ≡ ready
      → check_submitter later (some w) (perform_all py py_text calls s).ownership ≡ ready
      → (v < w) ⊎ ((v ≡ w) × (strip first ≡ strip later))
  one_submitter_per_version calls s first later v w a b =
      let (held, owner, version) = ready-owned py py_text first v s.ownership a in
      let t = perform_all py py_text calls s in
      let (_, owner', version') = ready-owned py py_text later w t.ownership b in
      let (le, one) = run-Fenced calls s held in
      elim (ℕ_discrete v w) [
        | yes e ↦ inr (
          e,
          owner
              ∙ ap (λ (o : GoalOwnership). o.coordinator_id)
                  (sym (one (sym version' ∙ sym e ∙ version)))
              ∙ sym owner',
        )
        | no d ↦ inl (ground (arith, le, version, version', d))
      ]

  -- After a handoff, whatever calls follow, the coordinator and version that held the goal before
  -- are refused as stale.
  pub handoff_fences_out :
      (calls : List Call) (s : OwnershipStore) (src dst old : String) (expected : Option ℕ)
      (now v : ℕ)
      → check_submitter old (some v) s.ownership ≡ ready
      → (handoff src dst expected now s).1.changed ≡ true
      → check_submitter old
          (some v)
          (perform_all py py_text calls (handoff src dst expected now s).0).ownership
        ≡ stale_ownership
  handoff_fences_out calls s src dst old expected now v a given_away =
      let (_, _, version) = ready-owned py py_text old v s.ownership a in
      let (next, held) = handoff-next src dst expected now s given_away in
      let t = (handoff src dst expected now s).0 in
      let (le, _) = run-Fenced calls t held in
      older-stale old v (perform_all py py_text calls t).ownership (run-owned calls t held)
        (ready-named old v s.ownership a) (omega (arith, le, next, version))
