-- ===== src/PathScope/Tests.antt =====
-- framework/path_scope.py on concrete patterns. The `fnmatchcase` here knows `*` alone.
use teleagent_collab.Common.{
  Bool, some, [], ◌∷◌, true, false, String, ◌≡◌, ◌↔◌, refl, string_eq, nat_eq, arith, any, keep,
  strip, lower, take, ◌==◌, if◌then◌else◌, ℕ_discrete, occurs, has_prefix, append, ap,
}
use teleagent_collab.PathScope.Parsing.{
  posix, PathPattern, has_wildcard, is_wild_segment, parse_path_pattern, split_slash, raw_segments,
  walk, replace_char, had_dotdot,
}
use teleagent_collab.PathScope.Globs.{
  PythonText, is_prefix, parts_eq, universal, fold, segment_match, last_row, next_row, table_row,
  parts_glob_match, ends_in_globstar, but_last, trailing_globstar_prefix,
}
use teleagent_collab.PathScope.Covering.{
  ready, not_covered, path_escape, covered_if, concrete_covered, glob_covered, parsed_covered,
  pattern_covered, path_reasons, path_covered, allow_item_covered,
}
use teleagent_collab.PathScope.Matching.{Matches, parts_glob_match_iff}
use teleagent_collab.PathScope.Trees.{tree_root, IsLiteral}
use teleagent_collab.PathScope.Narrowing.{IsPlain}
use teleagent_collab.PathScope.Allowing.{accepted_item_narrows}
use teleagent_collab.PathScope.Escaping.{IsRelative, empty_item_escapes}

-- Texts that match a star or are equal
abbrev star_or_same : String → String → Bool
star_or_same name pat = if pat == "*" then true else name == pat

abbrev py : PythonText
py = record { lowered = lower; fnmatchcase = star_or_same }

star_is_wild : is_wild_segment "*" ≡ true
unfolding is_wild_segment occurs has_prefix ℕ_discrete
star_is_wild = refl

literal : IsLiteral py
literal name pat w h = ground (arith, star_is_wild, ap is_wild_segment {x = pat} {y = "*"})

abbrev safe_tree : PathPattern
safe_tree = parse_path_pattern "/safe/**" posix

abbrev inner_tree : PathPattern
inner_tree = parse_path_pattern "/safe/src/**" posix

abbrev inner_file : PathPattern
inner_file = parse_path_pattern "/safe/src/a" posix

escape_is_refused :
    allow_item_covered py "/safe/../outside/**" ("/safe/**" ∷ []) posix true ≡ path_escape
unfolding allow_item_covered path_covered covered_if parse_path_pattern split_slash raw_segments
    had_dotdot is_prefix parts_eq universal trailing_globstar_prefix is_wild_segment any keep take
    strip occurs has_prefix append string_eq
escape_is_refused = refl

-- The ceiling allows one level of names below `/a`; the entry `/a/b` is accepted under it, and
-- allows `/a/b/c`, which the ceiling does not.
directory_under_star :
    (pattern_covered py "/a/b" "/a/*" posix ≡ ready)
    × (pattern_covered py "/a/b/c" "/a/b" posix ≡ ready)
    × (pattern_covered py "/a/b/c" "/a/*" posix ≡ not_covered)
unfolding pattern_covered parsed_covered covered_if parse_path_pattern split_slash raw_segments
    is_prefix parts_eq universal fold parts_glob_match ends_in_globstar is_wild_segment any keep
    take strip occurs has_prefix append string_eq ℕ_discrete
directory_under_star = (refl, refl, refl)

safe-IsPlain : IsPlain safe_tree
unfolding parse_path_pattern split_slash is_wild_segment occurs has_prefix strip string_eq
    ℕ_discrete keep append
safe-IsPlain = record { absolute = refl; unambiguous = refl; within_root = refl }

inner-IsPlain : IsPlain inner_tree
unfolding parse_path_pattern split_slash is_wild_segment occurs has_prefix strip string_eq
    ℕ_discrete keep append
inner-IsPlain = record { absolute = refl; unambiguous = refl; within_root = refl }

file-IsPlain : IsPlain inner_file
unfolding parse_path_pattern split_slash is_wild_segment occurs has_prefix strip string_eq
    ℕ_discrete keep append
file-IsPlain = record { absolute = refl; unambiguous = refl; within_root = refl }

file_is_concrete : has_wildcard inner_file ≡ false
unfolding parse_path_pattern split_slash is_wild_segment occurs has_prefix strip string_eq
    ℕ_discrete keep append any
file_is_concrete = refl

safe_root : tree_root safe_tree ≡ some ("safe" ∷ [])
unfolding parse_path_pattern split_slash is_wild_segment occurs has_prefix strip string_eq
    ℕ_discrete keep append any tree_root trailing_globstar_prefix
safe_root = refl

parts_glob_match_iff_example :
    (parts_glob_match py false ("a" ∷ "b" ∷ "c" ∷ []) ("a" ∷ "**" ∷ "c" ∷ []) ≡ true)
    ↔ Matches py false ("a" ∷ "b" ∷ "c" ∷ []) ("a" ∷ "**" ∷ "c" ∷ [])
parts_glob_match_iff_example =
    parts_glob_match_iff py false ("a" ∷ "b" ∷ "c" ∷ []) ("a" ∷ "**" ∷ "c" ∷ [])

inner_is_accepted : allow_item_covered py "/safe/src/**" ("/safe/**" ∷ []) posix true ≡ ready
unfolding allow_item_covered path_covered path_reasons glob_covered covered_if parse_path_pattern
    split_slash raw_segments walk replace_char had_dotdot is_prefix parts_eq universal fold but_last
    trailing_globstar_prefix is_wild_segment any keep take strip occurs has_prefix append string_eq
    ℕ_discrete
inner_is_accepted = refl

file_is_accepted : allow_item_covered py "/safe/src/a" ("/safe/src/**" ∷ []) posix true ≡ ready
unfolding allow_item_covered path_covered path_reasons pattern_covered parsed_covered
    concrete_covered glob_covered covered_if parse_path_pattern split_slash raw_segments walk
    replace_char had_dotdot is_prefix parts_eq universal fold segment_match last_row next_row
    table_row parts_glob_match ends_in_globstar but_last trailing_globstar_prefix is_wild_segment
    any keep take strip occurs has_prefix append string_eq ℕ_discrete
file_is_accepted = refl

accepted_item_narrows_example :
    allow_item_covered py "/safe/src/a" ("/safe/**" ∷ []) posix true ≡ ready
unfolding strip ℕ_discrete keep
accepted_item_narrows_example =
    accepted_item_narrows py literal "/safe/src/a" "/safe/src/**" ("/safe/**" ∷ []) file-IsPlain
      file_is_concrete inner-IsPlain ((safe-IsPlain, ("safe" ∷ [], safe_root)), tt)
      inner_is_accepted file_is_accepted

here-IsRelative : IsRelative (parse_path_pattern (strip ".") posix)
unfolding parse_path_pattern split_slash raw_segments walk is_wild_segment occurs has_prefix strip
    string_eq ℕ_discrete keep append
here-IsRelative = record { relative = refl; unambiguous = refl; within_root = refl }

etc-IsRelative : IsRelative (parse_path_pattern (strip "etc/x") posix)
unfolding parse_path_pattern split_slash raw_segments walk is_wild_segment occurs has_prefix strip
    string_eq ℕ_discrete keep append
etc-IsRelative = record { relative = refl; unambiguous = refl; within_root = refl }

etc_is_concrete : has_wildcard (parse_path_pattern (strip "etc/x") posix) ≡ false
unfolding parse_path_pattern split_slash raw_segments walk is_wild_segment occurs has_prefix strip
    string_eq ℕ_discrete keep append any
etc_is_concrete = refl

empty_item_escapes_example :
    (allow_item_covered py "." ("/safe/**" ∷ []) posix true ≡ ready)
    × (allow_item_covered py "etc/x" ("." ∷ []) posix true ≡ ready)
unfolding parse_path_pattern split_slash raw_segments walk is_wild_segment occurs has_prefix strip
    string_eq ℕ_discrete keep append
empty_item_escapes_example =
    empty_item_escapes py posix "." "etc/x" ("/safe/**" ∷ []) refl here-IsRelative refl refl refl
      etc-IsRelative etc_is_concrete
