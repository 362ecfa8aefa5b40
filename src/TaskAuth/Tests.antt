-- ===== src/TaskAuth/Tests.antt =====
-- Authorizations at concrete inputs.
use native.Mathlib.Decide.{ℕ_discrete}
use teleagent_collab.Common.{
  ◌≡◌, refl, ◌↔◌, Bool, true, Option, some, [], ◌∷◌, String, string_eq, ok, strip, lower, append,
  occurs, ends_with, any, ◌==◌,
}
use teleagent_collab.TaskAuth.{
  Charter, absent, one_text, Auth, Action, Permission, AuthDecision, normalize_task_kind,
  as_str_list, extract_auth_fields, classify_permission_category, authorize_action, system_install,
}
use teleagent_collab.TaskAuth.Scope.{IsInScope, authorize_action-allowed_iff}

abbrev charter : Charter
charter = record {
  task_kind = some " Install ";
  network_allow = one_text "*.example.org";
  install_roots = one_text "/opt/tool";
  lead_review_steps = absent;
  user_gate_permissions = one_text "SUDO";
  has_rollback = true;
  names_network = true;
}

abbrev auth : Auth
auth = record {
  kind = system_install;
  network_allow = "*.example.org" ∷ [];
  install_roots = "/opt/tool" ∷ [];
  lead_review_steps =
      "plan_commit" ∷ "permission_grey" ∷ "outbound_auth" ∷ "job_end" ∷ "install_execute"
      ∷ "service_change" ∷ [];
  user_gate_permissions = "SUDO" ∷ [];
  has_rollback = true;
}

abbrev tunnel : Permission
tunnel = record { tool = "bash"; command = "ssh -R 80:here:80 there"; path = "" }

abbrev action : Action
action = record {
  path = "/opt/tool/bin";
  url = "";
  permission = some tunnel;
  step = "";
  workspace = "";
}

abbrev no_host : String → String
no_host url = ""

abbrev as_is : String → Option String → String
as_is path base = path

abbrev same_path : String → String → Bool
same_path path root = path == root

extracted : extract_auth_fields charter ≡ ok auth
unfolding extract_auth_fields normalize_task_kind as_str_list strip lower string_eq ℕ_discrete
extracted = refl

authorize_action-allowed_iff_example :
    (d : AuthDecision) × ((authorize_action no_host as_is same_path charter action ≡ ok d)
      × ((d.allowed ≡ true) ↔ IsInScope no_host as_is same_path action auth))
authorize_action-allowed_iff_example =
    authorize_action-allowed_iff no_host as_is same_path charter action auth extracted

-- A reverse tunnel has no category of its own, since the text is in lower case.
tunnel_category : classify_permission_category tunnel ≡ "bash"
unfolding classify_permission_category lower append occurs ends_with any string_eq ℕ_discrete
tunnel_category = refl
