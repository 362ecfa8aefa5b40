-- ===== src/PathScope/Parsing.antt =====
-- framework/path_scope.py: platforms, segments and `parse_path_pattern`. A platform is a data type.
use Prim.Native.Char.{code}
use mathlib.Core.List.{reverse}
use teleagent_collab.Common.{
  Bool, List, [], ◌∷◌, ◌||◌, ◌&&◌, not, true, false, String, string_eq, nat_eq, strip, lower,
  contains, non_empty, ℕ_discrete, has_prefix, occurs, append, str_take, str_drop, str_or, join,
  keep, any, ◌==◌, if◌then◌else◌,
}

pub data Platform : Type 0 where
  posix windows : Platform

abbrev pub is_windows : Platform → Bool
is_windows posix = false
is_windows windows = true

abbrev pub is_nil : List String → Bool
is_nil [] = true
is_nil (_ ∷ _) = false

-- `s.replace(a, b)`, for an `a` of one character
unfoldable pub replace_char : String → String → String → String
unfolding has_prefix ℕ_discrete
replace_char a b String.[] = ""
replace_char a b (String.◌∷◌ c s) =
    let rest = replace_char a b s in
    let kept : String = String.◌∷◌ c rest in
    if has_prefix (String.◌∷◌ c s) a then append b rest else kept

abbrev windows_names : List String
windows_names = "win" ∷ "windows" ∷ "win32" ∷ "nt" ∷ "windows_nt" ∷ []

unfoldable pub normalize_platform : String → Platform
unfolding replace_char
normalize_platform value =
    if contains windows_names (replace_char "-" "_" (lower (strip value))) then windows else posix

unfoldable pub is_wild_segment : String → Bool
is_wild_segment seg = non_empty seg && (occurs "*" seg || occurs "?" seg || occurs "[" seg)

-- The first text of a list, with a character before it
grow_first : String → List String → List String
grow_first c [] = c ∷ []
grow_first c (s ∷ rest) = append c s ∷ rest

-- `s.split("/")`
unfoldable pub split_slash : String → List String
unfolding grow_first ℕ_discrete
split_slash String.[] = "" ∷ []
split_slash (String.◌∷◌ c s) =
    let rest = split_slash s in
    let first : String = String.◌∷◌ c String.[] in
    if code c == 47 then "" ∷ rest else grow_first first rest

pub record Split : Type 0 where
  pub drive : String
  pub rest : String
  pub absolute : Bool

-- `_split_windows` for a path that starts with `//`
split_unc : String → List String → Split
split_unc s [] = record { drive = ""; rest = s; absolute = true }
split_unc s (server ∷ []) = record { drive = ""; rest = s; absolute = true }
split_unc s (server ∷ share ∷ more) = record {
  drive = append "//" (append server (append "/" share));
  rest = append "/" (join "/" more);
  absolute = true;
}

-- and for one that starts with a letter and a colon.
split_drive : String → Split
split_drive s =
    let rest = str_or (str_drop 2 s) "/" in
    record {
      drive = append (str_take 1 s) ":";
      rest = if has_prefix rest "/" then rest else append "/" rest;
      absolute = true;
    }

unfoldable pub split_windows : String → Split
unfolding replace_char split_unc split_drive
split_windows raw =
    let s = replace_char "\\" "/" raw in
    let plain : Split = record { drive = ""; rest = s; absolute = has_prefix s "/" } in
    if has_prefix s "//"
    then split_unc s (keep non_empty (split_slash (str_drop 2 s)))
    else if has_prefix (str_drop 1 s) ":"
    then split_drive s
    else plain

unfoldable pub raw_segments : String → List String
raw_segments rest = keep (λ seg. non_empty seg && not (seg == ".")) (split_slash rest)

pub record PathPattern : Type 0 where
  pub original : String
  pub platform : Platform
  pub absolute : Bool
  pub drive : String
  pub parts : List String
  pub ambiguous_dotdot : Bool
  pub escaped_above_root : Bool

abbrev pub has_wildcard : PathPattern → Bool
has_wildcard p = any is_wild_segment p.parts

unfoldable pub had_dotdot : PathPattern → Bool
unfolding replace_char
had_dotdot p =
    any (λ seg. seg == "..") (split_slash (replace_char "\\" "/" p.original))
    || occurs "\\.." (replace_char "/" "\\" p.original)

-- `collapsed` with its last segment first, `ambiguous` and `escaped`
pub record Walk : Type 0 where
  pub collapsed : List String
  pub ambiguous : Bool
  pub escaped : Bool

-- A `..` of the loop of `parse_path_pattern`
step_up : Bool → Walk → Walk
step_up absolute w = elim w.collapsed [
  | top ∷ below ↦
      (if is_wild_segment top
        then record { collapsed = ".." ∷ top ∷ below; ambiguous = true; escaped = w.escaped }
        else record { collapsed = below; ambiguous = w.ambiguous; escaped = w.escaped })
  | [] ↦
      (if absolute
        then record { collapsed = []; ambiguous = w.ambiguous; escaped = true }
        else record { collapsed = ".." ∷ []; ambiguous = w.ambiguous; escaped = w.escaped })
]

step_segment : Bool → String → Walk → Walk
unfolding step_up
step_segment absolute seg w =
    let deeper : Walk = record {
      collapsed = seg ∷ w.collapsed;
      ambiguous = w.ambiguous;
      escaped = w.escaped;
    } in
    if seg == ".." then step_up absolute w else deeper

unfoldable pub walk : Bool → List String → Walk → Walk
unfolding step_segment
walk absolute [] w = w
walk absolute (seg ∷ segs) w = walk absolute segs (step_segment absolute seg w)

-- The pattern of a text that is empty or has a NUL
void_pattern : String → Platform → PathPattern
void_pattern s plat =
    let nul = occurs "\0" s in
    record {
      original = s;
      platform = plat;
      absolute = false;
      drive = "";
      parts = [];
      ambiguous_dotdot = non_empty s && nul;
      escaped_above_root = non_empty s && nul;
    }

split_for : Platform → String → Split
unfolding split_windows
split_for windows s = split_windows s
split_for posix s = record { drive = ""; rest = s; absolute = has_prefix s "/" }

-- The pattern of any other text, once its drive is split off
pattern_of : String → Platform → Split → PathPattern
unfolding raw_segments walk
pattern_of s plat split =
    let w =
      walk split.absolute (raw_segments split.rest)
        record { collapsed = []; ambiguous = false; escaped = false } in
    record {
      original = s;
      platform = plat;
      absolute = split.absolute;
      drive = split.drive;
      parts = reverse w.collapsed;
      ambiguous_dotdot = w.ambiguous;
      escaped_above_root = w.escaped || (split.absolute && contains w.collapsed "..");
    }

unfoldable pub parse_path_pattern : String → Platform → PathPattern
unfolding void_pattern split_for pattern_of
parse_path_pattern raw plat =
    let s = strip raw in
    if not (non_empty s) || occurs "\0" s
    then void_pattern s plat
    else pattern_of s plat (split_for plat s)
