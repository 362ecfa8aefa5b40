-- ===== src/TaskAuth/Fields.antt =====
-- task_auth.py: the fields of a charter that bear on authorization, with their defaults and checks.
use teleagent_collab.Common.{
  Bool, true, false, not, ◌||◌, Option, none, some, List, [], ◌∷◌, String, string_eq, contains,
  strip, lower, non_empty, if◌then◌else◌, Result, err, ok, ◌>>=◌, raise_unless,
}

pub data TaskKind : Type 0 where
  file_task system_install : TaskKind

pub data ValueError : Type 0 where
  unknown_kind : String → ValueError
  not_a_list : (field_name : String) → ValueError
  no_install_roots no_rollback no_network_allow file_task_with_roots : ValueError

-- A missing or blank kind is that of files.
unfoldable pub normalize_task_kind : Option String → Result ValueError TaskKind
normalize_task_kind none = ok file_task
normalize_task_kind (some raw) =
    let s = lower (strip raw) in
    if not (non_empty raw) || contains ("file" ∷ "files" ∷ "workspace" ∷ "file_task" ∷ []) s
    then ok file_task
    else if contains ("install" ∷ "system" ∷ "system_install" ∷ "sys_install" ∷ []) s
    then ok system_install
    else err (unknown_kind raw)

-- A field that should be a list of texts; an entry that is null is none, any other is its text.
pub data ListField : Type 0 where
  absent : ListField
  one_text : String → ListField
  entries : List (Option String) → ListField
  malformed : ListField

texts : List (Option String) → List String
texts [] = []
texts (none ∷ rest) = texts rest
texts (some s ∷ rest) = s ∷ texts rest

unfoldable pub as_str_list : String → ListField → Result ValueError (List String)
unfolding texts
as_str_list field_name absent = ok []
as_str_list field_name (one_text s) = if non_empty (strip s) then ok (s ∷ []) else ok []
as_str_list field_name (entries items) = ok (texts items)
as_str_list field_name malformed = err (not_a_list field_name)

-- The fields of a charter that bear on authorization; whether the rollback plan is there, and
-- whether the key "network_allow" is.
pub record Charter : Type 0 where
  pub task_kind : Option String
  pub network_allow : ListField
  pub install_roots : ListField
  pub lead_review_steps : ListField
  pub user_gate_permissions : ListField
  pub has_rollback : Bool
  pub names_network : Bool

pub record Auth : Type 0 where
  pub kind : TaskKind
  pub network_allow : List String
  pub install_roots : List String
  pub lead_review_steps : List String
  pub user_gate_permissions : List String
  pub has_rollback : Bool

abbrev pub is_nil : List String → Bool
is_nil [] = true
is_nil (_ ∷ _) = false

-- `DEFAULT_LEAD_REVIEW_STEPS`, less two of them for a task on files
default_steps : TaskKind → List String
default_steps file_task = "plan_commit" ∷ "permission_grey" ∷ "outbound_auth" ∷ "job_end" ∷ []
default_steps system_install =
    "plan_commit" ∷ "permission_grey" ∷ "outbound_auth" ∷ "job_end" ∷ "install_execute"
    ∷ "service_change" ∷ []

default_gates : TaskKind → List String
default_gates file_task = []
default_gates system_install =
    "sudo" ∷ "systemd_unit_install" ∷ "firewall_change" ∷ "kernel_module" ∷ "ssh_listen_bind"
    ∷ "credential_store_write" ∷ []

unfoldable pub extract_auth_fields : Charter → Result ValueError Auth
unfolding default_steps default_gates
extract_auth_fields c = do
  kind ← normalize_task_kind c.task_kind
  network ← as_str_list "network_allow" c.network_allow
  roots ← as_str_list "install_roots" c.install_roots
  steps ← as_str_list "lead_review_steps" c.lead_review_steps
  gates ← as_str_list "user_gate_permissions" c.user_gate_permissions
  ok (record {
    kind = kind;
    network_allow = network;
    install_roots = roots;
    lead_review_steps = if is_nil steps then default_steps kind else steps;
    user_gate_permissions = if is_nil gates then default_gates kind else gates;
    has_rollback = c.has_rollback;
  })

validate_kind : Charter → Auth → TaskKind → Result ValueError (Unit {0})
validate_kind c auth system_install = do
  _ ← raise_unless (not (is_nil auth.install_roots)) no_install_roots
  _ ← raise_unless auth.has_rollback no_rollback
  raise_unless (not (is_nil auth.network_allow) || c.names_network) no_network_allow
validate_kind c auth file_task = raise_unless (is_nil auth.install_roots) file_task_with_roots

unfoldable pub validate_auth_fields : Charter → Result ValueError (Unit {0})
unfolding validate_kind
validate_auth_fields c = extract_auth_fields c >>= λ auth. validate_kind c auth auth.kind
