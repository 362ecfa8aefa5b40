-- ===== src/Completion/Success.antt =====
-- When the gates let a job succeed.
use teleagent_collab.Common.{
  ◌≡◌, refl, ◌↔◌, ◌⊎◌, Bool, true, false, Option, none, some, List, [], ◌∷◌, inl, inr, Bool-cases,
  String, string_eq, contains, strip, lower, non_empty, arith,
}
use teleagent_collab.Completion.Artifacts.{ArtifactRecord}
use teleagent_collab.Completion.Gates.{
  terminal_fail_states, text_of, finish_is_successful, JobEnd, lead_fails, job_end_contract_close,
  is_success_allowed,
}

module _ (artifacts_ok : Bool) (missing : List String) (finish lead_verdict : Option String)
    (fingerprint_ok lead_binding_ok : Bool) (session_id run_id : String)
    (artifact_records : List ArtifactRecord) where
  abbrev pub closed : JobEnd
  closed =
      job_end_contract_close artifacts_ok missing finish lead_verdict fingerprint_ok lead_binding_ok
        session_id run_id artifact_records

  -- The physical gate, which does not mention the lead's verdict.
  abbrev pub PhysicalGate : Type 0
  PhysicalGate =
      (artifacts_ok ≡ true)
      × (missing ≡ [])
      × (finish_is_successful finish ≡ true)
      × (fingerprint_ok ≡ true)
      × (lead_binding_ok ≡ true)

  gate_of_ok : closed.ok_flag ≡ true → PhysicalGate
  unfolding job_end_contract_close
  gate_of_ok h = ground arith

  ok_of_gate : PhysicalGate → closed.ok_flag ≡ true
  unfolding job_end_contract_close
  ok_of_gate h = ground arith

  -- A job ends well exactly when the artifacts are complete, none is missing, the finish is
  -- successful, the fingerprints are stable and the lead's answer is bound: the lead's verdict does
  -- not count.
  pub job_end_contract_close-ok_iff : (closed.ok_flag ≡ true) ↔ PhysicalGate
  job_end_contract_close-ok_iff = (gate_of_ok, ok_of_gate)

  -- A lead's failing verdict is reported as advice exactly on a job that ends well.
  lead_advisory_iff :
      (closed.lead_advisory ≡ true) ↔ ((closed.ok_flag ≡ true) × (lead_fails lead_verdict ≡ true))
  unfolding job_end_contract_close
  lead_advisory_iff = (λ h. ground arith, λ h. ground arith)

-- A finish that is literally one of the failing words is not successful.
failing_words :
    (finish_is_successful (some "error") ≡ false)
    × (finish_is_successful (some "cancelled") ≡ false)
    × (finish_is_successful (some "cancel") ≡ false)
unfolding finish_is_successful string_eq strip lower
failing_words = (refl, refl, refl)

failing_finish : Option String → Bool
failing_finish finish = contains ("error" ∷ "cancelled" ∷ "cancel" ∷ []) (text_of finish)

no_text_passes : failing_finish none ≡ false
unfolding failing_finish string_eq
no_text_passes = refl

not_failing_finish :
    (finish : Option String) → finish_is_successful finish ≡ true → failing_finish finish ≡ false
not_failing_finish none h = no_text_passes
not_failing_finish (some f) h =
    let (e, c, k) = failing_words in unfold failing_finish in ground (arith, e, c, k)

module _ (state : String) (artifacts_ok : Bool) (lead_verdict : Option String) (force : Bool)
    (finish error : Option String) where
  abbrev pub answer : Bool
  answer = (is_success_allowed state artifacts_ok lead_verdict force finish error).0

  abbrev pub StrictGate : Type 0
  StrictGate =
      (non_empty (text_of error) ≡ false)
      × (contains terminal_fail_states (strip (lower state)) ≡ false)
      × (contains ("error" ∷ "cancelled" ∷ "cancel" ∷ []) (text_of finish) ≡ false)
      × (artifacts_ok ≡ true)
      × (force ≡ true
          → (lower (text_of lead_verdict) ≡ "pass") ⊎ (finish_is_successful finish ≡ true))

  strict_of_allowed : answer ≡ true → StrictGate
  unfolding is_success_allowed
  strict_of_allowed h = ground arith

  allowed_of_strict : StrictGate → answer ≡ true
  unfolding is_success_allowed
  allowed_of_strict (e, s, f, a, v) = elim (Bool-cases force) [
    | inl forced ↦ let w = v forced in ground arith
    | inr free ↦ ground arith
  ]

  -- Success is allowed exactly without an error text, in a state that is not a failing one (in any
  -- case and with any blanks round it), with a finish that is not literally one of three failing
  -- words, with complete artifacts and, under a forced review, with the verdict "pass" or a
  -- successful finish.
  pub is_success_allowed_iff : (answer ≡ true) ↔ StrictGate
  is_success_allowed_iff = (strict_of_allowed, allowed_of_strict)

ok_state : contains terminal_fail_states (strip (lower "ok")) ≡ false
unfolding string_eq strip lower
ok_state = refl

-- What the contract at the end of a job accepts, the strict gate accepts too, whether or not a
-- review is forced and whatever the lead's verdict is.
pub closed_is_allowed :
    (artifacts_ok : Bool) (missing : List String) (finish lead_verdict : Option String)
    (fingerprint_ok lead_binding_ok : Bool) (session_id run_id : String)
    (artifact_records : List ArtifactRecord) (force : Bool)
    → (job_end_contract_close artifacts_ok missing finish lead_verdict fingerprint_ok
        lead_binding_ok session_id run_id artifact_records).ok_flag
      ≡ true
    → (is_success_allowed "ok" artifacts_ok lead_verdict force finish none).0 ≡ true
unfolding failing_finish
closed_is_allowed artifacts_ok missing finish lead_verdict fp lb session_id run_id recs force h =
    let (a, _, f, _, _) =
      gate_of_ok artifacts_ok missing finish lead_verdict fp lb session_id run_id recs h in
    allowed_of_strict "ok" artifacts_ok lead_verdict force finish none
      (refl, ok_state, not_failing_finish finish f, a, λ _. inr f)
