-- ===== src/TaskAuth/Scope.antt =====
-- What is allowed, stated without the order of the tests.
use teleagent_collab.Common.{
  ◌≡◌, ◌↔◌, ◌⊎◌, refl, ap, arith, Bool, true, false, not, ◌&&◌, Option, [], ◌∷◌, map, String,
  string_eq, contains, lower, non_empty, if◌then◌else◌, ok, ◌>>=◌,
}
use teleagent_collab.TaskAuth.{
  TaskKind, file_task, system_install, Charter, Auth, category, AuthDecision, Action, host_allowed,
  path_in_install_roots, workspace_of, in_workspace, is_given, on_files, on_system, on_kind, decide,
  url_not_allowed, deny, allow, scope_of, authorize_action, extract_auth_fields,
}

-- The two tests before the kind's own
passes :
    (g u : Bool) (x y d : AuthDecision)
    → x.allowed ≡ false
    → y.allowed ≡ false
    → (if g then x else if u then y else d).allowed ≡ true
    → (g ≡ false) × (u ≡ false) × (d.allowed ≡ true)
passes g u x y d a b h = ground arith

passes_back :
    (g u : Bool) (x y d : AuthDecision)
    → g ≡ false
    → u ≡ false
    → d.allowed ≡ true
    → (if g then x else if u then y else d).allowed ≡ true
passes_back g u x y d a b h = ground arith

module _ (hostname : String → String)
    (canonicalize : (path : String) (base : Option String) → String)
    (is_path_within : (path root : String) → Bool) where
  -- The path of a task on files, where a workspace is given, lies in it, and its category is none of
  -- the system's.
  abbrev pub IsInFiles : Action → Type 0
  IsInFiles a =
      ((non_empty a.path ≡ false)
        ⊎ ((is_given (workspace_of hostname canonicalize is_path_within a) ≡ false)
            ⊎ (in_workspace hostname canonicalize is_path_within a
                  (workspace_of hostname canonicalize is_path_within a)
                ≡ true)))
      × (contains ("package_manager" ∷ "systemd_unit_install" ∷ "sudo" ∷ []) (category a.permission)
          ≡ false)

  -- The path of an installation lies under a root or in the workspace.
  abbrev pub IsInRoots : Action → Auth → Type 0
  IsInRoots a auth =
      (non_empty a.path ≡ false)
      ⊎ ((path_in_install_roots hostname canonicalize is_path_within a.path auth.install_roots
              (workspace_of hostname canonicalize is_path_within a)
            ≡ true)
          ⊎ (in_workspace hostname canonicalize is_path_within a
                (workspace_of hostname canonicalize is_path_within a)
              ≡ true))

  abbrev pub IsInKind : Action → Auth → TaskKind → Type 0
  IsInKind a auth file_task = IsInFiles a
  IsInKind a auth system_install = IsInRoots a auth

  -- The category is not the user's to decide, and a URL's host is listed.
  abbrev pub IsInScope : Action → Auth → Type 0
  IsInScope a auth =
      ((non_empty (category a.permission)
          && contains (map lower auth.user_gate_permissions) (lower (category a.permission)))
        ≡ false)
      × ((non_empty a.url ≡ false)
          ⊎ (host_allowed hostname canonicalize is_path_within a.url auth.network_allow ≡ true))
      × IsInKind a auth auth.kind

  on_files_iff :
      (a : Action) (needs_lead : Bool)
      → ((on_files hostname canonicalize is_path_within a
            (workspace_of hostname canonicalize is_path_within a)
            (category a.permission)
            needs_lead).allowed
          ≡ true)
        ↔ IsInFiles a
  unfolding on_files deny allow scope_of
  on_files_iff a needs_lead = (λ h. ground arith, λ h. ground arith)

  on_system_iff :
      (a : Action) (auth : Auth) (needs_lead : Bool)
      → ((on_system hostname canonicalize is_path_within a auth
            (workspace_of hostname canonicalize is_path_within a)
            needs_lead).allowed
          ≡ true)
        ↔ IsInRoots a auth
  unfolding on_system deny allow scope_of
  on_system_iff a auth needs_lead = (λ h. ground arith, λ h. ground arith)

  on_kind_iff :
      (a : Action) (auth : Auth) (needs_lead : Bool) (k : TaskKind)
      → ((on_kind hostname canonicalize is_path_within a auth
            (workspace_of hostname canonicalize is_path_within a)
            (category a.permission)
            needs_lead
            k).allowed
          ≡ true)
        ↔ IsInKind a auth k
  unfolding on_kind
  on_kind_iff a auth needs_lead file_task = on_files_iff a needs_lead
  on_kind_iff a auth needs_lead system_install = on_system_iff a auth needs_lead

  decide_iff :
      (a : Action) (auth : Auth)
      → ((decide hostname canonicalize is_path_within a auth).allowed ≡ true) ↔ IsInScope a auth
  unfolding decide deny
  decide_iff a auth =
      let lead = non_empty a.step && contains auth.lead_review_steps a.step in
      let (to, back) = on_kind_iff a auth lead auth.kind in
      let url_bad =
        non_empty a.url
        && not (host_allowed hostname canonicalize is_path_within a.url auth.network_allow) in
      let by_kind =
        on_kind hostname canonicalize is_path_within a auth
          (workspace_of hostname canonicalize is_path_within a) (category a.permission) lead
          auth.kind in
      let no_url = deny (url_not_allowed a.url) in
      (
        λ h.
            let (g, u, d) = passes _ url_bad _ no_url by_kind refl refl h in
            (g, ground (arith, u), to d),
        λ h. passes_back _ url_bad _ no_url by_kind h.0 (ground (arith, h)) (back h.2),
      )

  -- An action is allowed exactly when its category is not the user's to decide, the host of its URL,
  -- if it has one, is listed, and its path and category are those of the charter's kind: for files,
  -- a path in the workspace, where both are given, and no category of the system; for an
  -- installation, a path under a root or in the workspace, if there is one. The charter's
  -- fields are well formed.
  pub authorize_action-allowed_iff :
      (c : Charter) (a : Action) (auth : Auth)
      → extract_auth_fields c ≡ ok auth
      → (d : AuthDecision) × ((authorize_action hostname canonicalize is_path_within c a ≡ ok d)
          × ((d.allowed ≡ true) ↔ IsInScope a auth))
  unfolding authorize_action
  authorize_action-allowed_iff c a auth e = (
    decide hostname canonicalize is_path_within a auth,
    (
      ap (λ m. m >>= λ x. ok (decide hostname canonicalize is_path_within a x)) e,
      decide_iff a auth,
    ),
  )
