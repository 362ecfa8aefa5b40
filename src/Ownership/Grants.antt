-- ===== src/Ownership/Grants.antt =====
-- framework/goal_ownership.py: `merge_authorized_grant` and `apply_authorized_grant`.
use teleagent_collab.Common.{
  ℕ, Option, none, some, List, [], ◌∷◌, ◌++◌, String, string_eq, lookup, insert, contains,
  if◌then◌else◌,
}
use teleagent_collab.PathScope.{normalize_platform}
use teleagent_collab.Ownership.Json.{
  Json, null, text, array, Items, item, no_items, object, Document, Python, fields_of, has_key,
  get_mapping, or_empty, truthy_or, str_of, as_str_list,
}
use teleagent_collab.Ownership.Contract.{platform_name, extract_goal_contract}
use teleagent_collab.Ownership.Store.{OwnershipStore, grant_entry, logged}

-- The JSON list of some texts
texts : List String → Items
texts [] = no_items
texts (s ∷ ss) = item (text s) (texts ss)

-- `for item in added: if item not in existing: existing.append(item)`
add_missing : List String → List String → List String
add_missing existing [] = existing
add_missing existing (s ∷ added) =
    add_missing (if contains existing s then existing else existing ++ (s ∷ [])) added

-- `d.update(e)`
update : Document → Document → Document
update d [] = d
update d ((k, j) ∷ e) = update (insert k j d) e

-- `{k: d[k] for k in ks if k in d}`
pick : List String → Document → Document
pick [] d = []
pick (k ∷ ks) d = let rest = pick ks d in elim (lookup k d) [ none ↦ rest | some j ↦ (k, j) ∷ rest ]

abbrev grantable_keys : List String
grantable_keys =
    "allow_secret_globs" ∷ "allow_paths" ∷ "allow_keys" ∷ "allowed_surfaces"
    ∷ "user_gate_permissions" ∷ "must" ∷ "must_not" ∷ []

-- The ranges and the gate key, in the order of the two loops
abbrev merged_keys : List String
merged_keys =
    "allow_secret_globs" ∷ "allow_paths" ∷ "allow_keys" ∷ "allowed_surfaces"
    ∷ "user_gate_permissions" ∷ []

-- `{"boundaries": payload, "budget": payload.get("budget")}`
wrapped : Document → Document
wrapped payload =
    let budget : Json = elim (lookup "budget" payload) [ none ↦ null | some j ↦ j ] in
    ("boundaries", object (fields_of payload)) ∷ ("budget", budget) ∷ []

module _ (py : Python) where
  -- One key's texts, those of the grant after those of the contract
  united : String → Document → Document → List String
  unfolding add_missing
  united k bounds extra =
      add_missing (as_str_list py (lookup k bounds)) (as_str_list py (lookup k extra))

  merge_key : String → Document → Document → Document
  unfolding united texts
  merge_key k bounds extra = elim (united k bounds extra) [
    | [] ↦ bounds
    | s ∷ ss ↦ insert k (array (texts (s ∷ ss))) bounds
  ]

  merge_keys : List String → Document → Document → Document
  unfolding merge_key
  merge_keys [] bounds extra = bounds
  merge_keys (k ∷ ks) bounds extra = merge_keys ks (merge_key k bounds extra) extra

  -- "must" and "must_not", which are written if the grant names them
  merge_must : String → Document → Document → Document
  unfolding united texts
  merge_must k bounds extra =
      if has_key k extra then insert k (array (texts (united k bounds extra))) bounds else bounds

  merge_platform : Document → Document → Document
  merge_platform bounds extra = elim (truthy_or (lookup "path_platform" extra) none) [
    | none ↦ bounds
    | some p ↦
        insert "path_platform" (text (platform_name (normalize_platform (str_of py p)))) bounds
  ]

  merge_bounds : Document → Document → Document
  unfolding merge_keys merge_must merge_platform
  merge_bounds bounds extra =
      merge_platform
        (merge_must "must_not" (merge_must "must" (merge_keys merged_keys bounds extra) extra)
          extra)
        extra

  -- The contract that a grant's payload stands for
  extra_contract : Document → Document
  unfolding wrapped
  extra_contract payload = elim (extract_goal_contract py payload) [
    | kv ∷ rest ↦ kv ∷ rest
    | [] ↦ elim payload [ [] ↦ [] | kv ∷ rest ↦ extract_goal_contract py (wrapped (kv ∷ rest)) ]
  ]

  extra_bounds : Document → Document → Document
  unfolding pick
  extra_bounds payload extra = elim (or_empty (get_mapping "boundaries" extra)) [
    | kv ∷ rest ↦ kv ∷ rest
    | [] ↦ pick grantable_keys payload
  ]

  merge_budget : Document → Document → Document
  unfolding update
  merge_budget out extra = elim (or_empty (get_mapping "budget" extra)) [
    | [] ↦ out
    | kv ∷ rest ↦
        insert "budget"
          (object (fields_of (update (or_empty (get_mapping "budget" out)) (kv ∷ rest)))) out
  ]

  merge_authorized_grant : Document → Document → Document
  unfolding extra_contract extra_bounds merge_budget merge_bounds
  merge_authorized_grant contract payload =
      let base = extract_goal_contract py contract in
      let extra = extra_contract payload in
      let out = merge_budget base extra in
      elim (merge_bounds (or_empty (get_mapping "boundaries" out)) (extra_bounds payload extra)) [
        | [] ↦ out
        | kv ∷ rest ↦ insert "boundaries" (object (fields_of (kv ∷ rest))) out
      ]

  unfoldable pub apply_authorized_grant : Option Document → ℕ → OwnershipStore → OwnershipStore
  unfolding merge_authorized_grant logged
  apply_authorized_grant grant now s =
      logged (grant_entry now grant)
        record s { goal_contract = merge_authorized_grant s.goal_contract (or_empty grant) }
