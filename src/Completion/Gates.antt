-- ===== src/Completion/Gates.antt =====
-- completion.py: the contract at the end of a job, and the strict gate before a success.
use teleagent_collab.Common.{
  Bool, true, false, not, ◌&&◌, Option, none, some, List, [], ◌∷◌, String, string_eq, contains,
  strip, lower, non_empty, str_or, str_take, ◌==◌, if◌then◌else◌,
}
use teleagent_collab.Completion.Artifacts.{ArtifactRecord}

abbrev pub terminal_fail_states : List String
terminal_fail_states = "fail" ∷ "timeout" ∷ "cancelled" ∷ "cancel" ∷ "error" ∷ []

abbrev pub successful_finish : List String
successful_finish = "stop" ∷ "complete" ∷ "completed" ∷ []

-- `s or ""`
abbrev pub text_of : Option String → String
text_of none = ""
text_of (some s) = s

unfoldable pub finish_is_successful : Option String → Bool
finish_is_successful finish = contains successful_finish (strip (lower (text_of finish)))

pub data EndReason : Type 0 where
  artifacts_incomplete : EndReason
  finish_not_successful : Option String → EndReason
  artifact_fingerprint_changed lead_review_invalid ok_lead_advisory ok_plain : EndReason

pub record Evidence : Type 0 where
  pub artifacts_ok : Bool
  pub missing : List String
  pub finish : Option String
  pub lead_verdict : String
  pub fingerprint_ok : Bool
  pub lead_binding_ok : Bool
  pub session_id : String
  pub run_id : String
  pub artifact_records : List ArtifactRecord

-- `state` is "ok" exactly where `ok_flag` holds, and "fail" elsewhere; `error` is the reason of a
-- failure, and empty otherwise.
pub record JobEnd : Type 0 where
  pub ok_flag : Bool
  pub reason : EndReason
  pub lead_advisory : Bool
  pub evidence : Evidence

abbrev no_names : List String → Bool
no_names [] = true
no_names (_ ∷ _) = false

unfoldable pub lead_fails : Option String → Bool
lead_fails lead_verdict =
    let lead = strip (lower (text_of lead_verdict)) in not (contains ("" ∷ "pass" ∷ []) lead)

module _ (artifacts_ok : Bool) (missing : List String) (finish lead_verdict : Option String)
    (fingerprint_ok lead_binding_ok : Bool) (session_id run_id : String)
    (artifact_records : List ArtifactRecord) where
  unfoldable pub job_end_contract_close : JobEnd
  job_end_contract_close =
      let arts_ok = artifacts_ok && no_names missing in
      let evidence : Evidence = record {
        artifacts_ok = arts_ok;
        missing = missing;
        finish = finish;
        lead_verdict = text_of lead_verdict;
        fingerprint_ok = fingerprint_ok;
        lead_binding_ok = lead_binding_ok;
        session_id = session_id;
        run_id = str_or run_id session_id;
        artifact_records = artifact_records;
      } in
      let fail : EndReason → JobEnd = λ why. record {
        ok_flag = false;
        reason = why;
        lead_advisory = false;
        evidence = evidence;
      } in
      if not arts_ok
      then fail artifacts_incomplete
      else if not (finish_is_successful finish)
      then fail (finish_not_successful finish)
      else if not fingerprint_ok
      then fail artifact_fingerprint_changed
      else if not lead_binding_ok
      then fail lead_review_invalid
      else record {
        ok_flag = true;
        reason = if lead_fails lead_verdict then ok_lead_advisory else ok_plain;
        lead_advisory = lead_fails lead_verdict;
        evidence = evidence;
      }

-- The second part of the answer of `is_success_allowed`, by its forms.
pub data Verdict : Type 0 where
  error_text terminal_state finish_text : String → Verdict
  incomplete advisory : Verdict
  verdict_required : Option String → Verdict
  allowed : Verdict

unfoldable pub is_success_allowed :
    String → Bool → Option String → Bool → Option String → Option String → Bool × Verdict
is_success_allowed state artifacts_ok lead_verdict force_lead_review finish error =
    let st = strip (lower state) in
    if non_empty (text_of error)
    then (false, error_text (str_take 200 (text_of error)))
    else if contains terminal_fail_states st
    then (false, terminal_state st)
    else if contains ("error" ∷ "cancelled" ∷ "cancel" ∷ []) (text_of finish)
    then (false, finish_text (text_of finish))
    else if not artifacts_ok
    then (false, incomplete)
    else if force_lead_review && not (lower (text_of lead_verdict) == "pass")
    then if finish_is_successful finish
      then (true, advisory)
      else (false, verdict_required lead_verdict)
    else (true, allowed)
