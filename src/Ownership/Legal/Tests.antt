-- ===== src/Ownership/Legal/Tests.antt =====
-- framework/goal_ownership.py: the legality of a small plan.
use teleagent_collab.Common.{
  [], all, any, ap, append, arith, contains, false, has_prefix, insert, keep, lookup, lower, occurs,
  ok, refl, some, string_eq, strip, take, true, ℕ_discrete, ◌∷◌, ◌≡◌, ◌⊎◌,
}
use teleagent_collab.Lifecycle.{assert_transition, check_edge, task_edge}
use teleagent_collab.Ownership.Autonomy.{
  as_bool, autonomy_json, check_plan_against_autonomy, norm, normalize_autonomy,
  undeclared_autonomy,
}
use teleagent_collab.Ownership.Contract.{
  auth_sources, contract_path_platform, extract_goal_contract, inherited, is_subset, range_keys,
  path_range_keys,
}
use teleagent_collab.Ownership.Checks.{
  ceiling_items, check_budget, check_contract_ceiling, check_gate, check_item, check_items,
  check_limit, check_limits, check_musts, check_range, check_ranges, collected,
}
use teleagent_collab.Ownership.Json.{
  add_tasks, as_str_list, entries_of, fields_of, get_mapping, items_of, task_id_of, tasks_by_id,
  truthy, Json, or_empty,
}
use teleagent_collab.Ownership.Plans.{
  ceiling_of, check_against_current, check_ceiling, check_change, check_changes, check_document,
  check_dropped, check_object, check_task, check_tasks, has_task, status_of, validate_document,
  active_task_statuses,
}
use teleagent_collab.Ownership.Revisions.{validate_in}
use teleagent_collab.PathScope.{
  allow_item_covered, concrete_covered, covered_if, glob_covered, parsed_covered, path_covered,
  path_reasons, pattern_covered, Coverage,
}
use teleagent_collab.PathScope.{
  but_last, ends_in_globstar, fold, is_prefix, last_row, next_row, parts_eq, parts_glob_match,
  segment_match, table_row, trailing_globstar_prefix, universal,
}
use teleagent_collab.PathScope.{
  had_dotdot, has_wildcard, is_wild_segment, normalize_platform, parse_path_pattern, posix,
  raw_segments, replace_char, split_slash, walk,
}
use teleagent_collab.PathScope.Trees.{tree_root, IsLiteral}
use teleagent_collab.PathScope.Narrowing.{IsPlain}
use teleagent_collab.PathScope.Allowing.{entries, AllTrees}
use teleagent_collab.Ownership.Legal.{
  LegalChange, accepted_plan_keeps_active_tasks, accepted_plan_follows_lifecycle,
}
use teleagent_collab.Ownership.Ceiling.{accepted_paths_stay_within}
use teleagent_collab.Ownership.Limits.{accepted_budget_within}
use teleagent_collab.Ownership.Sources.{of_plan, whole}
use teleagent_collab.Ownership.Gates.{must, accepted_gates_kept}
use teleagent_collab.Ownership.Fixtures.{
  task_fields, py, words_of, contract, current_plan, next_plan, num,
}

document_is_legal :
    validate_document py words_of "g" next_plan current_plan
      (some contract)
      (autonomy_json py undeclared_autonomy)
    ≡ ok tt
unfolding validate_in validate_document check_document check_tasks check_task check_object
    task_id_of truthy items_of entries_of get_mapping as_str_list check_against_current
    check_dropped check_changes check_change status_of tasks_by_id add_tasks check_ceiling
    ceiling_of extract_goal_contract fields_of contract_path_platform check_contract_ceiling
    check_budget check_limits check_limit inherited auth_sources is_subset check_musts check_gate
    collected ceiling_items check_ranges check_range check_items check_item
    check_plan_against_autonomy normalize_autonomy autonomy_json norm as_bool normalize_platform
    assert_transition check_edge task_edge allow_item_covered parse_path_pattern split_slash
    raw_segments walk replace_char had_dotdot is_prefix parts_eq universal fold segment_match
    trailing_globstar_prefix is_wild_segment any all keep take strip lower occurs has_prefix append
    lookup insert string_eq ℕ_discrete
document_is_legal = refl

running_task : lookup "t" (tasks_by_id py current_plan) ≡ some (entries_of (task_fields "running"))
unfolding task_id_of truthy items_of entries_of get_mapping as_str_list check_against_current
    check_dropped check_changes check_change status_of tasks_by_id is_wild_segment any all keep take
    strip lower occurs has_prefix append lookup insert string_eq
running_task = refl

review_task : lookup "t" (tasks_by_id py next_plan) ≡ some (entries_of (task_fields "review"))
unfolding task_id_of truthy items_of entries_of get_mapping as_str_list check_against_current
    check_dropped check_changes check_change status_of tasks_by_id is_wild_segment any all keep take
    strip lower occurs has_prefix append lookup insert string_eq
review_task = refl

running_is_active :
    contains active_task_statuses (status_of py (entries_of (task_fields "running"))) ≡ true
unfolding task_id_of truthy items_of entries_of get_mapping as_str_list check_against_current
    check_dropped check_changes check_change status_of tasks_by_id append lookup insert string_eq
running_is_active = refl

accepted_plan_keeps_active_tasks_example : has_task "t" (tasks_by_id py next_plan) ≡ true
accepted_plan_keeps_active_tasks_example =
    accepted_plan_keeps_active_tasks py words_of "g" next_plan current_plan (some contract)
      (autonomy_json py undeclared_autonomy) "t" (entries_of (task_fields "running"))
      document_is_legal running_task running_is_active

accepted_plan_follows_lifecycle_example :
    LegalChange py (lookup "t" (tasks_by_id py current_plan)) (entries_of (task_fields "review"))
accepted_plan_follows_lifecycle_example =
    accepted_plan_follows_lifecycle py words_of "g" next_plan current_plan (some contract)
      (autonomy_json py undeclared_autonomy) "t" (entries_of (task_fields "review"))
      document_is_legal review_task

accepted_budget_within_example :
    (py.is_float (num 30) ≡ true)
    × ((cap : Json) × ((lookup "wall_sec"
              (or_empty (get_mapping "budget" (ceiling_of py contract current_plan)))
            ≡ some cap)
          × ((py.is_float cap ≡ false) ⊎ (py.float_exceeds (num 30) cap ≡ false))))
unfolding entries_of get_mapping as_str_list check_against_current check_dropped check_changes
    check_change status_of tasks_by_id check_limit inherited raw_segments append lookup insert
    string_eq
accepted_budget_within_example =
    accepted_budget_within py words_of "g" next_plan current_plan contract
      (("wall_sec", num 30) ∷ []) (autonomy_json py undeclared_autonomy) "wall_sec" (num 30)
      document_is_legal refl refl refl

accepted_gates_kept_example : contains (as_str_list py (lookup "must" next_plan)) "m" ≡ true
unfolding entries_of get_mapping as_str_list lookup insert string_eq ℕ_discrete ceiling_of
    extract_goal_contract fields_of inherited keep items_of strip
accepted_gates_kept_example =
    accepted_gates_kept py words_of "g" next_plan current_plan contract
      (autonomy_json py undeclared_autonomy) next_plan must "m" document_is_legal (of_plan whole)
      refl refl

contract_is_trees :
    AllTrees (entries (ceiling_items py "allow_paths" (ceiling_of py contract current_plan)))
unfolding task_id_of truthy items_of entries_of get_mapping as_str_list add_tasks check_ceiling
    ceiling_of extract_goal_contract fields_of contract_path_platform is_subset check_musts
    check_gate collected ceiling_items check_ranges glob_covered covered_if parse_path_pattern
    split_slash raw_segments walk replace_char had_dotdot is_prefix but_last
    trailing_globstar_prefix is_wild_segment any all keep take strip lower occurs has_prefix append
    lookup insert string_eq ℕ_discrete tree_root
contract_is_trees =
    ((record { absolute = refl; unambiguous = refl; within_root = refl }, ("safe" ∷ [], refl)), tt)

star_is_wild : is_wild_segment "*" ≡ true
unfolding is_wild_segment occurs has_prefix ℕ_discrete
star_is_wild = refl

literal : IsLiteral words_of
literal name pat w h = ground (arith, star_is_wild, ap is_wild_segment {x = pat} {y = "*"})

item_is_named : contains (collected py "allow_paths" (auth_sources next_plan)) "/safe/src/**" ≡ true
unfolding task_id_of truthy items_of entries_of get_mapping as_str_list check_limit inherited
    auth_sources is_subset check_musts check_gate collected ceiling_items check_ranges but_last
    trailing_globstar_prefix is_wild_segment any all keep take strip lower occurs has_prefix append
    lookup insert string_eq
item_is_named = refl

path-IsPlain : IsPlain (parse_path_pattern (strip "/safe/src/a") posix)
unfolding parse_path_pattern split_slash raw_segments walk replace_char had_dotdot keep take strip
    lower occurs has_prefix append lookup insert string_eq
path-IsPlain = record { absolute = refl; unambiguous = refl; within_root = refl }

item-IsPlain : IsPlain (parse_path_pattern (strip "/safe/src/**") posix)
unfolding parse_path_pattern split_slash raw_segments walk replace_char had_dotdot keep take strip
    lower occurs has_prefix append lookup insert string_eq
item-IsPlain = record { absolute = refl; unambiguous = refl; within_root = refl }

path_is_concrete : has_wildcard (parse_path_pattern (strip "/safe/src/a") posix) ≡ false
unfolding parse_path_pattern split_slash raw_segments walk replace_char had_dotdot is_prefix
    parts_eq universal is_wild_segment any all keep take strip lower occurs has_prefix append lookup
    insert string_eq
path_is_concrete = refl

path_is_allowed :
    allow_item_covered words_of "/safe/src/a" ("/safe/src/**" ∷ []) posix true ≡ Coverage.ready
unfolding task_edge allow_item_covered path_covered path_reasons pattern_covered parsed_covered
    concrete_covered glob_covered covered_if parse_path_pattern split_slash raw_segments walk
    replace_char had_dotdot is_prefix parts_eq universal fold segment_match last_row next_row
    table_row parts_glob_match ends_in_globstar but_last trailing_globstar_prefix is_wild_segment
    any all keep take strip lower occurs has_prefix append lookup insert string_eq
path_is_allowed = refl

contract_is_posix : contract_path_platform py (ceiling_of py contract current_plan) ≡ posix
unfolding validate_in validate_document check_document check_tasks check_task check_object
    task_id_of truthy items_of entries_of get_mapping as_str_list check_against_current
    check_dropped check_changes check_change status_of tasks_by_id add_tasks check_ceiling
    ceiling_of extract_goal_contract fields_of contract_path_platform check_contract_ceiling
    check_budget check_limits check_limit inherited auth_sources is_subset check_musts check_gate
    collected ceiling_items check_ranges check_range check_items check_item
    check_plan_against_autonomy normalize_autonomy autonomy_json norm as_bool normalize_platform
    assert_transition check_edge task_edge allow_item_covered path_covered path_reasons
    pattern_covered parsed_covered concrete_covered glob_covered covered_if parse_path_pattern
    split_slash raw_segments walk replace_char had_dotdot is_prefix parts_eq universal fold
    segment_match last_row next_row table_row parts_glob_match ends_in_globstar but_last
    trailing_globstar_prefix is_wild_segment any all keep take strip lower occurs has_prefix append
    lookup insert string_eq ℕ_discrete
contract_is_posix = refl

range_key : contains range_keys "allow_paths" ≡ true
unfolding string_eq
range_key = refl

path_key : contains path_range_keys "allow_paths" ≡ true
unfolding string_eq
path_key = refl

accepted_paths_stay_within_example :
    allow_item_covered words_of "/safe/src/a"
      (ceiling_items py "allow_paths" (ceiling_of py contract current_plan))
      posix
      true
    ≡ Coverage.ready
accepted_paths_stay_within_example =
    accepted_paths_stay_within py words_of "g" next_plan current_plan contract
      (autonomy_json py undeclared_autonomy) "allow_paths" "/safe/src/**" "/safe/src/a" literal
      contract_is_posix path-IsPlain path_is_concrete item-IsPlain contract_is_trees range_key
      path_key document_is_legal item_is_named path_is_allowed
