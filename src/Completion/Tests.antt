-- ===== src/Completion/Tests.antt =====
-- The gates and comparisons at concrete inputs.
use teleagent_collab.Common.{
  ℕ, ◌≡◌, refl, ◌↔◌, Bool, true, false, none, some, List, [], ◌∷◌, String, string_eq, strip, lower,
  lookup, insert, ◌==◌, if◌then◌else◌, ℕ_discrete,
}
use teleagent_collab.Completion.Artifacts.{
  FileSystem, absent, regular, read_error, snapshot_artifact, snapshot_at, by_path,
  artifacts_unchanged, AcceptancePacket, build_acceptance_packet,
  confirm_artifacts_for_lead_approve, diffs_of, snapshot_artifacts,
}
use teleagent_collab.Completion.Rework.{start, consume_rework}
use teleagent_collab.Completion.Gates.{job_end_contract_close, is_success_allowed, allowed}
use teleagent_collab.Completion.Fingerprints.{
  IsSame, AllSame, AllPaths, artifacts_unchanged_iff, confirm_artifacts_iff,
}
use teleagent_collab.Completion.Budgeting.{consume_all}
use teleagent_collab.Completion.Success.{
  PhysicalGate, StrictGate, job_end_contract_close-ok_iff, is_success_allowed_iff,
}

third_denied : (consume_all (5 ∷ 6 ∷ 7 ∷ []) (start 0 100 2)).0 ≡ 2
unfolding consume_all consume_rework start
third_denied = refl

job_end_contract_close-ok_iff_example :
    ((job_end_contract_close true [] (some "stop") (some "fail") true true "s" "" []).ok_flag
      ≡ true)
    ↔ PhysicalGate true [] (some "stop") (some "fail") true true "s" "" []
job_end_contract_close-ok_iff_example =
    job_end_contract_close-ok_iff true [] (some "stop") (some "fail") true true "s" "" []

is_success_allowed_iff_example :
    ((is_success_allowed "ok" true none false (some "Cancelled") none).0 ≡ true)
    ↔ StrictGate "ok" true none false (some "Cancelled") none
is_success_allowed_iff_example = is_success_allowed_iff "ok" true none false (some "Cancelled") none

cancelled_finish_passes :
    is_success_allowed "ok" true none false (some "Cancelled") none ≡ (true, allowed)
unfolding is_success_allowed string_eq strip lower
cancelled_finish_passes = refl

abbrev before_fs : FileSystem
before_fs p = if p == "out.md" then regular 2 7 (1 ∷ 2 ∷ []) else absent

abbrev after_fs : FileSystem
after_fs p = if p == "out.md" then regular 2 8 (1 ∷ 2 ∷ []) else absent

abbrev digest : List ℕ → String
digest _ = "d"

abbrev blank_packet : AcceptancePacket Bool
blank_packet = record {
  job_name = "job";
  goal = "goal";
  acceptance_criteria = true;
  execution_result = true;
  error = "";
  state = "done";
  session_id = "s";
  tool_records = [];
  api_replies = [];
  notes = [];
  artifacts = [];
  artifacts_complete = false;
  missing = [];
  submitted_at = 0;
}

-- The paths are as `Path` prints them.
abbrev as_printed : String → String
as_printed p = p

abbrev packet : AcceptancePacket Bool
packet = build_acceptance_packet as_printed digest before_fs true 5 ("out.md" ∷ []) blank_packet

artifacts_unchanged_iff_example :
    ((artifacts_unchanged packet.artifacts packet.artifacts).0 ≡ true)
    ↔ AllSame (by_path packet.artifacts) packet.artifacts
artifacts_unchanged_iff_example = artifacts_unchanged_iff packet.artifacts packet.artifacts

confirm_artifacts_iff_example :
    ((confirm_artifacts_for_lead_approve as_printed digest after_fs true packet).0 ≡ true)
    ↔ AllPaths digest true before_fs after_fs
        (λ p.
          IsSame
            (snapshot_artifact as_printed digest before_fs true p)
            (snapshot_artifact as_printed digest after_fs true p))
        ("out.md" ∷ [])
confirm_artifacts_iff_example =
    confirm_artifacts_iff digest true before_fs after_fs as_printed (λ p. refl) 5 ("out.md" ∷ [])
      blank_packet

touched_is_refused :
    (confirm_artifacts_for_lead_approve as_printed digest after_fs true packet).0 ≡ false
unfolding confirm_artifacts_for_lead_approve build_acceptance_packet snapshot_artifacts
    snapshot_artifact snapshot_at artifacts_unchanged diffs_of lookup insert string_eq ℕ_discrete
touched_is_refused = refl

abbrev unreadable_fs : FileSystem
unreadable_fs p = elim (before_fs p) [
  | regular size mtime content ↦ read_error size mtime "denied"
  | other ↦ other
]

-- A file that was read at the submission and cannot be read at the review is confirmed.
unreadable_is_confirmed :
    (confirm_artifacts_for_lead_approve as_printed digest unreadable_fs true packet).0 ≡ true
unfolding confirm_artifacts_for_lead_approve build_acceptance_packet snapshot_artifacts
    snapshot_artifact snapshot_at artifacts_unchanged diffs_of lookup insert string_eq ℕ_discrete
unreadable_is_confirmed = refl
