-- ===== src/Ownership/Checks.antt =====
-- framework/goal_ownership.py: `_check_contract_ceiling`, part by part.
use teleagent_collab.Common.{
  none, some, List, [], ◌∷◌, ◌++◌, ◌&&◌, not, String, string_eq, lookup, contains, append, Result,
  ok, err, ◌>>=◌, if◌then◌else◌,
}
use teleagent_collab.PathScope.{
  Platform, PythonText, ready, path_escape, not_covered, allow_item_covered,
}
use teleagent_collab.Ownership.Json.{Document, Python, has_key, get_mapping, or_empty, as_str_list}
use teleagent_collab.Ownership.Contract.{
  range_keys, path_range_keys, budget_limit_keys, inherited, auth_sources, is_subset, is_blank,
  contract_path_platform,
}

module _ (py : Python) where
  -- One round of the loop over `_BUDGET_LIMIT_KEYS`
  unfoldable pub check_limit : String → Document → Document → Result String (Unit {0})
  check_limit k plan_budget ceil_budget = elim (lookup k plan_budget) [
    | none ↦ ok tt
    | some new_v ↦
        (if not (py.is_float new_v)
          then err (append "plan expands Goal contract budget (invalid " (append k ")"))
          else elim (lookup k ceil_budget) [
            | none ↦ err (append "plan expands Goal contract budget (new limit " (append k ")"))
            | some ceil_v ↦
                (if not (py.is_float ceil_v)
                  then ok tt
                  else if py.float_exceeds new_v ceil_v
                  then err (append "plan expands Goal contract budget (" (append k ")"))
                  else ok tt)
          ])
  ]

  unfoldable pub check_limits : List String → Document → Document → Result String (Unit {0})
  check_limits [] plan_budget ceil_budget = ok tt
  check_limits (k ∷ ks) plan_budget ceil_budget =
      check_limit k plan_budget ceil_budget >>= λ _. check_limits ks plan_budget ceil_budget

  unfoldable pub check_budget : Document → Document → Result String (Unit {0})
  check_budget plan ceiling =
      let ceil_budget = or_empty (get_mapping "budget" ceiling) in
      elim (inherited "budget" plan (or_empty (get_mapping "goal" plan))) [
        | none ↦ ok tt
        | some plan_budget ↦
            (if is_blank ceil_budget
              then err "plan expands Goal contract budget (no budget on contract)"
              else check_limits budget_limit_keys plan_budget ceil_budget)
      ]

  -- Whether every document that has the key mentions all the required texts
  unfoldable pub check_gate : String → List String → List Document → Result String (Unit {0})
  check_gate k required [] = ok tt
  check_gate k required (src ∷ rest) =
      let more = check_gate k required rest in
      if has_key k src && not (is_subset required (as_str_list py (lookup k src)))
      then err (append "required_gate_removed: plan drops " k)
      else more

  -- The loop that tests "must" and "must_not" of each document in turn
  unfoldable pub check_musts : List String → List String → List Document → Result String (Unit {0})
  check_musts must must_not [] = ok tt
  check_musts must must_not (src ∷ rest) =
      let more = check_musts must must_not rest in
      if has_key "must" src && not (is_subset must (as_str_list py (lookup "must" src)))
      then err "required_gate_removed: plan drops must"
      else if has_key "must_not" src
          && not (is_subset must_not (as_str_list py (lookup "must_not" src)))
      then err "required_gate_removed: plan drops must_not"
      else more

  -- `_collect_allow_lists(plan)[k]`
  unfoldable pub collected : String → List Document → List String
  collected k [] = []
  collected k (src ∷ rest) = as_str_list py (lookup k src) ++ collected k rest

  -- What the contract allows for a key: that of its "boundaries", or one of its own
  unfoldable pub ceiling_items : String → Document → List String
  ceiling_items k ceiling =
      let bounds = as_str_list py (lookup k (or_empty (get_mapping "boundaries" ceiling))) in
      elim (as_str_list py (lookup k ceiling)) [ [] ↦ bounds | x ∷ xs ↦ x ∷ xs ]

module _ (py : Python) (words : PythonText) where
  -- One item of a range
  unfoldable pub check_item : String → List String → Platform → String → Result String (Unit {0})
  check_item k ceiling plat item =
      elim (allow_item_covered words item ceiling plat (contains path_range_keys k)) [
        | ready ↦ ok tt
        | path_escape ↦ err (append "path_escape: plan " (append k " escapes contract via .."))
        | not_covered ↦ err (append "plan expands Goal contract " k)
      ]

  -- The loop over a range's items. An item that comes twice is tested twice, which answers alike.
  unfoldable pub check_items :
      String → List String → Platform → List String → Result String (Unit {0})
  check_items k ceiling plat [] = ok tt
  check_items k ceiling plat (item ∷ items) =
      check_item k ceiling plat item >>= λ _. check_items k ceiling plat items

  unfoldable pub check_range : String → Document → Document → Result String (Unit {0})
  check_range k plan ceiling =
      let items = collected py k (auth_sources plan) in
      let allowed = ceiling_items py k ceiling in
      let nothing_allowed : Result String (Unit {0}) = elim items [
        | [] ↦ ok tt
        | _ ∷ _ ↦ err (append "plan expands Goal contract " k)
      ] in
      elim allowed [
        | [] ↦ nothing_allowed
        | x ∷ xs ↦ check_items k (x ∷ xs) (contract_path_platform py ceiling) items
      ]

  unfoldable pub check_ranges : List String → Document → Document → Result String (Unit {0})
  check_ranges [] plan ceiling = ok tt
  check_ranges (k ∷ ks) plan ceiling =
      check_range k plan ceiling >>= λ _. check_ranges ks plan ceiling

  unfoldable pub check_contract_ceiling : Document → Document → Result String (Unit {0})
  check_contract_ceiling plan ceiling =
      let bounds = or_empty (get_mapping "boundaries" ceiling) in
      check_budget py plan ceiling
      >>= (λ _.
          check_musts py (as_str_list py (lookup "must" bounds))
            (as_str_list py (lookup "must_not" bounds)) (auth_sources plan))
      >>= (λ _.
          check_gate py "user_gate_permissions" (ceiling_items py "user_gate_permissions" ceiling)
            (auth_sources plan))
      >>= λ _. check_ranges range_keys plan ceiling
