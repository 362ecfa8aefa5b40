-- ===== src/PathScope/Globs.antt =====
-- framework/path_scope.py: `_parts_eq`, `_is_prefix`, `_segment_match`, `_parts_glob_match`, whose
-- table is kept row by row, `_universal` and `_trailing_globstar_prefix`.
use teleagent_collab.Common.{
  Bool, Option, none, some, List, [], ◌∷◌, ◌||◌, ◌&&◌, not, true, false, String, string_eq, ltb,
  any, length, take, ◌==◌, if◌then◌else◌,
}
use teleagent_collab.PathScope.Parsing.{is_wild_segment}

-- The texts' functions of the language that the module calls: `str.lower` and
-- `fnmatch.fnmatchcase`.
pub record PythonText : Type 0 where
  pub lowered : String → String
  pub fnmatchcase : String → String → Bool

-- `a == b` of two flags
abbrev pub same_flag : Bool → Bool → Bool
same_flag true b = b
same_flag false b = not b

unfoldable pub universal : List String → Bool
universal [] = false
universal (p ∷ []) = p == "**" || p == "*"
universal (_ ∷ _ ∷ _) = false

-- `parts[-1] == "**"`, and `parts[:-1]`
unfoldable pub ends_in_globstar : List String → Bool
ends_in_globstar [] = false
ends_in_globstar (p ∷ []) = p == "**"
ends_in_globstar (_ ∷ p ∷ ps) = ends_in_globstar (p ∷ ps)

unfoldable pub but_last : List String → List String
but_last [] = []
but_last (_ ∷ []) = []
but_last (q ∷ p ∷ ps) = q ∷ but_last (p ∷ ps)

unfoldable pub trailing_globstar_prefix : List String → Option (List String)
unfolding ends_in_globstar but_last
trailing_globstar_prefix parts =
    if not (ends_in_globstar parts)
    then none
    else if any is_wild_segment (but_last parts)
    then none
    else some (but_last parts)

-- `row[0]` of a row of the table
abbrev pub first_cell : List Bool → Bool
first_cell [] = false
first_cell (b ∷ _) = b

abbrev pub later_cells : List Bool → List Bool
later_cells [] = []
later_cells (_ ∷ bs) = bs

module _ (py : PythonText) where
  unfoldable pub fold : Bool → String → String
  fold ignore_case seg = if ignore_case then py.lowered seg else seg

  unfoldable pub parts_eq : Bool → List String → List String → Bool
  unfolding fold
  parts_eq ign [] [] = true
  parts_eq ign [] (_ ∷ _) = false
  parts_eq ign (_ ∷ _) [] = false
  parts_eq ign (a ∷ as') (b ∷ bs) = fold ign a == fold ign b && parts_eq ign as' bs

  unfoldable pub is_prefix : Bool → List String → List String → Bool
  unfolding parts_eq
  is_prefix ign ancestor descendant =
      if ltb (length descendant) (length ancestor)
      then false
      else parts_eq ign ancestor (take (length ancestor) descendant)

  unfoldable pub segment_match : Bool → String → String → Bool
  unfolding fold
  segment_match ign name pat =
      if pat == "**"
      then true
      else if fold ign pat == fold ign name
      then true
      else py.fnmatchcase (fold ign name) (fold ign pat)

  -- `dp[n]`: the patterns that match no segment
  unfoldable pub last_row : List String → List Bool
  last_row [] = true ∷ []
  last_row (p ∷ ps) = let right = last_row ps in (p == "**" && first_cell right) ∷ right

  -- `dp[i]` from `dp[i + 1]`, from the right
  unfoldable pub next_row : Bool → String → List String → List Bool → List Bool
  unfolding segment_match
  next_row ign seg [] below = false ∷ []
  next_row ign seg (p ∷ ps) below =
      let right = next_row ign seg ps (later_cells below) in
      (if p == "**"
        then first_cell right || first_cell below
        else segment_match ign seg p && first_cell (later_cells below))
      ∷ right

  unfoldable pub table_row : Bool → List String → List String → List Bool
  unfolding last_row next_row
  table_row ign [] pat = last_row pat
  table_row ign (seg ∷ segs) pat = next_row ign seg pat (table_row ign segs pat)

  unfoldable pub parts_glob_match : Bool → List String → List String → Bool
  unfolding table_row
  parts_glob_match ign item pat = first_cell (table_row ign item pat)
