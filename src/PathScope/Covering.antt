-- ===== src/PathScope/Covering.antt =====
-- framework/path_scope.py: `pattern_covered` and `allow_item_covered`.
use teleagent_collab.Common.{
  Bool, none, some, List, [], ◌∷◌, ◌||◌, ◌&&◌, not, true, false, String, string_eq, strip, contains,
  keep, any, map, non_empty, ◌==◌, if◌then◌else◌,
}
use teleagent_collab.PathScope.Parsing.{
  Platform, is_windows, is_nil, PathPattern, has_wildcard, had_dotdot, parse_path_pattern,
}
use teleagent_collab.PathScope.Globs.{
  PythonText, same_flag, universal, trailing_globstar_prefix, fold, parts_eq, is_prefix,
  parts_glob_match,
}

-- The pair of a Boolean and a reason that a check returns: true comes with `ready` only.
pub data Coverage : Type 0 where
  ready path_escape not_covered : Coverage

abbrev pub is_ready : Coverage → Bool
is_ready ready = true
is_ready path_escape = false
is_ready not_covered = false

abbrev is_escape : Coverage → Bool
is_escape ready = false
is_escape path_escape = true
is_escape not_covered = false

unfoldable pub covered_if : Bool → Coverage
covered_if b = if b then ready else not_covered

module _ (py : PythonText) where
  -- The branches of `pattern_covered` for an item without a wildcard
  unfoldable pub concrete_covered : Bool → PathPattern → PathPattern → Coverage
  unfolding covered_if
  concrete_covered ign it ce = covered_if (
      if has_wildcard ce
      then parts_glob_match py ign it.parts ce.parts
      else is_prefix py ign ce.parts it.parts)

  -- and for an item that is a glob.
  unfoldable pub glob_covered : Bool → PathPattern → PathPattern → Coverage
  unfolding covered_if
  glob_covered ign it ce = elim (trailing_globstar_prefix it.parts) [
    | none ↦ not_covered
    | some item_tree ↦
        (if has_wildcard ce
          then elim (trailing_globstar_prefix ce.parts) [
            | none ↦ covered_if (parts_glob_match py ign item_tree ce.parts)
            | some ceil_tree ↦
                covered_if
                  (is_prefix py ign ceil_tree item_tree || parts_eq py ign item_tree ceil_tree)
          ]
          else covered_if
              (is_prefix py ign ce.parts item_tree || parts_eq py ign item_tree ce.parts))
  ]

  -- `pattern_covered`, once both patterns are parsed. Where the ceiling is not universal, the two
  -- tests below `it.absolute != ce.absolute` take both orders.
  unfoldable pub parsed_covered : Platform → PathPattern → PathPattern → Coverage
  unfolding concrete_covered glob_covered
  parsed_covered plat it ce =
      let ign = is_windows plat in
      if it.ambiguous_dotdot || it.escaped_above_root
      then path_escape
      else if is_nil it.parts && not it.absolute
      then ready
      else if universal ce.parts && not (ce.absolute && it.escaped_above_root)
      then ready
      else if ign
          && non_empty it.drive
          && non_empty ce.drive
          && not (fold py true it.drive == fold py true ce.drive)
      then not_covered
      else if not (same_flag it.absolute ce.absolute) && not (universal ce.parts)
      then not_covered
      else if parts_eq py ign it.parts ce.parts && same_flag it.absolute ce.absolute
      then ready
      else if not (has_wildcard it)
      then concrete_covered ign it ce
      else glob_covered ign it ce

  unfoldable pub pattern_covered : String → String → Platform → Coverage
  unfolding parsed_covered
  pattern_covered item ceiling plat =
      parsed_covered plat (parse_path_pattern item plat) (parse_path_pattern ceiling plat)

  -- The loop over the ceiling's entries, for names that are not paths
  unfoldable pub name_covered : Bool → String → List String → Coverage
  name_covered ign item [] = not_covered
  name_covered ign item (raw ∷ rest) =
      let more = name_covered ign item rest in
      if contains ("*" ∷ "**" ∷ "/**" ∷ []) raw
      then ready
      else if fold py ign item == fold py ign raw
      then ready
      else more

  -- and the reasons of the ceiling's entries, for paths.
  unfoldable pub path_reasons : String → List String → Platform → List Coverage
  unfolding pattern_covered
  path_reasons item ceiling plat = map (λ raw. pattern_covered item raw plat) ceiling

  unfoldable pub path_covered : String → List String → Platform → Coverage
  unfolding path_reasons
  path_covered item ceiling plat =
      let reasons = path_reasons item ceiling plat in
      let it = parse_path_pattern item plat in
      if any is_ready reasons
      then ready
      else if (any is_escape reasons || had_dotdot it)
          && (had_dotdot it || it.ambiguous_dotdot || it.escaped_above_root)
      then path_escape
      else not_covered

  unfoldable pub allow_item_covered : String → List String → Platform → Bool → Coverage
  unfolding name_covered path_covered
  allow_item_covered item ceiling plat path_like =
      let item_n = strip item in
      let ceil_items = keep non_empty (map strip ceiling) in
      if not (non_empty item_n)
      then ready
      else if is_nil ceil_items
      then not_covered
      else if not path_like
      then name_covered (is_windows plat) item_n ceil_items
      else path_covered item_n ceil_items plat
