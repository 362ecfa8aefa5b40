-- ===== src/Ownership/Contract.antt =====
-- framework/goal_ownership.py: the goal contract and the ceiling that it is for plan revisions.
use teleagent_collab.Common.{
  Bool, Option, none, some, List, [], ◌∷◌, ◌++◌, true, false, String, string_eq, lookup, insert,
  contains, all, if◌then◌else◌,
}
use teleagent_collab.PathScope.{Platform, posix, windows, normalize_platform}
use teleagent_collab.Ownership.Json.{
  Json, text, object, Document, Python, fields_of, has_key, mapping, get_mapping, get_list,
  or_empty, truthy_or, str_of,
}

abbrev pub range_keys : List String
range_keys = "allow_secret_globs" ∷ "allow_paths" ∷ "allow_keys" ∷ "allowed_surfaces" ∷ []

-- `_ALLOW_KEYS`: the ranges and the one gate key
abbrev pub allow_keys : List String
allow_keys =
    "allow_secret_globs" ∷ "allow_paths" ∷ "allow_keys" ∷ "allowed_surfaces"
    ∷ "user_gate_permissions" ∷ []

abbrev pub path_range_keys : List String
path_range_keys = "allow_paths" ∷ "allow_secret_globs" ∷ []

abbrev pub budget_limit_keys : List String
budget_limit_keys =
    "wall_sec" ∷ "max_reworks" ∷ "max_lead_calls" ∷ "max_attempts" ∷ "max_usage" ∷ []

abbrev pub platform_name : Platform → String
platform_name posix = "posix"
platform_name windows = "windows"

-- `src.get(k)`, or that of the nested "goal", if it is a mapping
unfoldable pub inherited : String → Document → Document → Option Document
inherited k src nested = elim (get_mapping k src) [ none ↦ get_mapping k nested | some d ↦ some d ]

-- The loop over `_ALLOW_KEYS` of `extract_goal_contract`
lift_keys : List String → Document → Document → Document → Document
lift_keys [] src nested b = b
lift_keys (k ∷ ks) src nested b = lift_keys ks src nested (
    if has_key k b then b else elim (lookup k src) [
      | some j ↦ insert k j b
      | none ↦ elim (lookup k nested) [ some j ↦ insert k j b | none ↦ b ]
    ])

abbrev pub is_blank : Document → Bool
is_blank [] = true
is_blank (_ ∷ _) = false

-- The documents of a mapping that hold authorizations: its "boundaries" and its "inputs"
unfoldable pub bounds_and_inputs : Document → List Document
bounds_and_inputs src =
    let inputs : List Document = elim (get_mapping "inputs" src) [ none ↦ [] | some d ↦ d ∷ [] ] in
    elim (get_mapping "boundaries" src) [ none ↦ inputs | some d ↦ d ∷ inputs ]

unfoldable pub task_sources : List Json → List Document
unfolding bounds_and_inputs
task_sources [] = []
task_sources (j ∷ js) =
    let rest = task_sources js in
    elim (mapping j) [ none ↦ rest | some task ↦ task ∷ (bounds_and_inputs task ++ rest) ]

unfoldable pub auth_sources : Document → List Document
unfolding bounds_and_inputs task_sources
auth_sources plan =
    let tasks : List Document = elim (lookup "tasks" plan) [
      | none ↦ []
      | some j ↦ elim (get_list j) [ none ↦ [] | some js ↦ task_sources js ]
    ] in
    elim (get_mapping "goal" plan) [
      | none ↦ plan ∷ (bounds_and_inputs plan ++ tasks)
      | some goal ↦ plan ∷ (goal ∷ (bounds_and_inputs plan ++ (bounds_and_inputs goal ++ tasks)))
    ]

-- `required.issubset(mentioned)` of the sets of two lists
unfoldable pub is_subset : List String → List String → Bool
is_subset required mentioned = all (contains mentioned) required

module _ (py : Python) where
  -- The platform that a truthy value names
  name_platform : Option Json → Option Json
  name_platform j = elim (truthy_or j none) [
    | none ↦ none
    | some p ↦ some (text (platform_name (normalize_platform (str_of py p))))
  ]

  -- "boundaries" with its "path_platform", if there is anything to keep
  keep_boundaries : Option Json → Document → Document → Document
  unfolding name_platform
  keep_boundaries platform b contract =
      if is_blank b
      then elim (name_platform platform) [
        | none ↦ contract
        | some p ↦ insert "boundaries" (object (fields_of (("path_platform", p) ∷ []))) contract
      ]
      else elim (name_platform (truthy_or platform (lookup "path_platform" b))) [
        | none ↦ insert "boundaries" (object (fields_of b)) contract
        | some p ↦ insert "boundaries" (object (fields_of (insert "path_platform" p b))) contract
      ]

  unfoldable pub extract_goal_contract : Document → Document
  unfolding inherited lift_keys keep_boundaries
  extract_goal_contract src =
      let nested = or_empty (get_mapping "goal" src) in
      let contract : Document = elim (inherited "budget" src nested) [
        | none ↦ []
        | some d ↦ ("budget", object (fields_of d)) ∷ []
      ] in
      keep_boundaries (truthy_or (lookup "path_platform" src) (lookup "path_platform" nested))
        (lift_keys allow_keys src nested (or_empty (inherited "boundaries" src nested))) contract

  unfoldable pub contract_path_platform : Document → Platform
  contract_path_platform contract =
      let nested = or_empty (get_mapping "boundaries" contract) in
      elim (truthy_or (lookup "path_platform" contract)
        (truthy_or (lookup "path_platform" nested) none)) [
          | none ↦ posix
          | some p ↦ normalize_platform (str_of py p)
        ]
