-- ===== src/TaskAuth.antt =====
-- task_auth.py: what an action may do inside a charter's authorization. Paths are made canonical
-- and compared by the file system, and a URL's host is taken by urllib: these are parameters. Hosts,
-- gates and tools are ASCII.
mod Scope
mod Tests
mod Fields
unfoldable pub use Fields.*
use teleagent_collab.Common.{
  ℕ, Bool, true, false, not, ◌&&◌, ◌||◌, Option, none, some, List, [], ◌∷◌, ◌++◌, map, String,
  string_eq, contains, any, keep, strip, lower, non_empty, str_or, append, str_drop, strip_dots,
  ends_with, ◌==◌, if◌then◌else◌, Result, err, ok, ◌>>=◌, raise_unless, has_prefix, occurs,
}

-- The texts of a permission under their two keys each
pub record Permission : Type 0 where
  pub tool : String
  pub command : String
  pub path : String

abbrev shells : List String
shells = "bash" ∷ "shell" ∷ "exec" ∷ []

category_of : (tool cmd path blob : String) → String
category_of tool cmd path blob =
    if occurs "sudo" blob || tool == "sudo"
    then "sudo"
    else if occurs "systemctl" blob || occurs "systemd" blob || ends_with blob ".service"
    then "systemd_unit_install"
    else if occurs "ufw" blob || occurs "iptables" blob || occurs "firewall" blob
    then "firewall_change"
    else if occurs "insmod" blob || occurs "modprobe" blob
    then "kernel_module"
    else if occurs "sshd" blob || occurs ":22" blob || occurs "ssh -R" blob
    then "ssh_listen_bind"
    else if any (λ x. occurs x path)
        ("/.ssh" ∷ "cookie" ∷ "keyring" ∷ ".netrc" ∷ "credentials" ∷ [])
    then "credential_store_write"
    else if contains shells tool && any (λ x. occurs x cmd) ("apt" ∷ "dnf" ∷ "yum" ∷ "pacman" ∷ [])
    then "package_manager"
    else if contains shells tool && any (λ x. occurs x cmd) ("curl" ∷ "wget" ∷ [])
    then "network_fetch"
    else str_or tool "unknown"

unfoldable pub classify_permission_category : Permission → String
unfolding category_of
classify_permission_category p =
    let tool = lower p.tool in
    let cmd = lower p.command in
    let path = lower p.path in
    category_of tool cmd path (append tool (append " " (append cmd (append " " path))))

-- A permission that is missing or empty has no category.
unfoldable pub category : Option Permission → String
category none = ""
category (some p) = classify_permission_category p

pub data Via : Type 0 where
  mechanical user_gate lead_scope : Via

pub data AuthReason : Type 0 where
  gated_category forbidden_category : String → AuthReason
  url_not_allowed outside_workspace not_under_roots : String → AuthReason
  within_charter inside_workspace within_roots : AuthReason

pub record AuthDecision : Type 0 where
  pub allowed : Bool
  pub via : Via
  pub reason : AuthReason
  pub needs_lead : Bool
  pub needs_user : Bool

deny : AuthReason → AuthDecision
deny reason = record {
  allowed = false;
  via = mechanical;
  reason = reason;
  needs_lead = false;
  needs_user = false;
}

allow : Via → AuthReason → Bool → AuthDecision
allow via reason needs_lead = record {
  allowed = true;
  via = via;
  reason = reason;
  needs_lead = needs_lead;
  needs_user = false;
}

scope_of : Bool → Via
scope_of true = lead_scope
scope_of false = mechanical

-- The arguments of `authorize_action`; an empty text is a missing one.
pub record Action : Type 0 where
  pub path : String
  pub url : String
  pub permission : Option Permission
  pub step : String
  pub workspace : String

unfoldable pub is_given : Option String → Bool
is_given none = false
is_given (some _) = true

module _ (hostname : String → String)
    (canonicalize : (path : String) (base : Option String) → String)
    (is_path_within : (path root : String) → Bool) where
  matches : (host entry : String) → Bool
  matches host entry =
      if has_prefix entry "*."
      then ends_with host (str_drop 1 entry) || host == str_drop 2 entry
      else if has_prefix entry "http://" || has_prefix entry "https://"
      then host == lower (hostname entry)
      else host == entry || ends_with host (append "." entry)

  unfoldable pub host_allowed : (url_or_host : String) → List String → Bool
  unfolding matches
  host_allowed url_or_host allow =
      let allow_l = map (λ a. lower (strip a)) (keep (λ a. non_empty (strip a)) allow) in
      let raw = strip url_or_host in
      let host = strip_dots (lower (if occurs "://" raw then hostname raw else raw)) in
      not (is_nil allow_l) && non_empty raw && any (matches host) allow_l

  unfoldable pub path_in_install_roots : String → List String → Option String → Bool
  path_in_install_roots path roots base =
      let target = canonicalize path base in
      any (λ root. let r = canonicalize root base in is_path_within target r || target == r) roots

  -- `canonicalize(workspace)`, a blank one being none, and whether the path lies in it
  unfoldable pub workspace_of : Action → Option String
  workspace_of a =
      let ws = canonicalize a.workspace none in
      if non_empty a.workspace && non_empty ws then some ws else none

  unfoldable pub in_workspace : Action → Option String → Bool
  in_workspace a none = false
  in_workspace a (some ws) = is_path_within (canonicalize a.path (some ws)) ws

  on_files : Action → Option String → String → Bool → AuthDecision
  unfolding deny allow scope_of in_workspace is_given
  on_files a ws cat needs_lead =
      if non_empty a.path && is_given ws && not (in_workspace a ws)
      then deny (outside_workspace a.path)
      else if contains ("package_manager" ∷ "systemd_unit_install" ∷ "sudo" ∷ []) cat
      then deny (forbidden_category cat)
      else allow (scope_of needs_lead) within_charter needs_lead

  on_system : Action → Auth → Option String → Bool → AuthDecision
  unfolding deny allow scope_of in_workspace
  on_system a auth ws needs_lead =
      if non_empty a.path && not (path_in_install_roots a.path auth.install_roots ws)
      then if in_workspace a ws
        then allow mechanical inside_workspace
            (needs_lead || contains auth.lead_review_steps "install_execute")
        else deny (not_under_roots a.path)
      else allow (scope_of needs_lead) within_roots true

  on_kind : Action → Auth → Option String → String → Bool → TaskKind → AuthDecision
  unfolding on_files on_system
  on_kind a auth ws cat needs_lead file_task = on_files a ws cat needs_lead
  on_kind a auth ws cat needs_lead system_install = on_system a auth ws needs_lead

  decide : Action → Auth → AuthDecision
  unfolding on_kind workspace_of deny
  decide a auth =
      let cat = category a.permission in
      let gates = map lower auth.user_gate_permissions in
      let needs_lead = non_empty a.step && contains auth.lead_review_steps a.step in
      let gated : AuthDecision = record {
        allowed = false;
        via = user_gate;
        reason = gated_category cat;
        needs_lead = false;
        needs_user = true;
      } in
      if non_empty cat && contains gates (lower cat)
      then gated
      else if non_empty a.url && not (host_allowed a.url auth.network_allow)
      then deny (url_not_allowed a.url)
      else on_kind a auth (workspace_of a) cat needs_lead auth.kind

  unfoldable pub authorize_action : Charter → Action → Result ValueError AuthDecision
  unfolding decide
  authorize_action c a = extract_auth_fields c >>= λ auth. ok (decide a auth)

  lead_answer : AuthDecision → Bool
  lead_answer d = if d.needs_user then false else d.allowed

  -- `lead_may_approve_without_user`, without its text
  unfoldable pub lead_may_approve_without_user :
      Charter → Option Permission → Result ValueError Bool
  unfolding lead_answer
  lead_may_approve_without_user c permission =
      authorize_action c
        (record { path = ""; url = ""; permission = permission; step = ""; workspace = "" })
      >>= λ d. ok (lead_answer d)
