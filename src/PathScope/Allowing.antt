-- ===== src/PathScope/Allowing.antt =====
-- framework/path_scope.py: `allow_item_covered` against a list of ceilings.
use teleagent_collab.Common.{
  some, List, [], ◌∷◌, true, false, String, ◌≡◌, refl, ◌⊎◌, inl, inr, arith, any, map, keep, strip,
  non_empty, Bool-cases,
}
use teleagent_collab.PathScope.Parsing.{posix, has_wildcard, parse_path_pattern, is_nil}
use teleagent_collab.PathScope.Globs.{PythonText}
use teleagent_collab.PathScope.Covering.{
  Coverage, ready, is_ready, pattern_covered, path_reasons, path_covered, allow_item_covered,
}
use teleagent_collab.PathScope.Trees.{tree_root, IsLiteral}
use teleagent_collab.PathScope.Narrowing.{IsPlain}
use teleagent_collab.PathScope.Sound.{covered_narrows}

-- `[str(x).strip() for x in ceiling if str(x).strip()]`
abbrev pub entries : List String → List String
entries ceiling = keep non_empty (map strip ceiling)

-- Every entry is an absolute POSIX directory, or a directory's `/**`.
abbrev pub AllTrees : List String → Type 0
AllTrees [] = Unit
AllTrees (raw ∷ rest) =
    (IsPlain (parse_path_pattern raw posix)
      × ((root : List String) × (tree_root (parse_path_pattern raw posix) ≡ some root)))
    × AllTrees rest

is_ready-eq : (c : Coverage) → is_ready c ≡ true → c ≡ ready
is_ready-eq ready h = refl
is_ready-eq Coverage.path_escape h = cc
is_ready-eq Coverage.not_covered h = cc

module _ (py : PythonText) (lit : IsLiteral py) where
  entry_narrows :
      (path item raw : String) (root : List String)
      → IsPlain (parse_path_pattern path posix)
      → has_wildcard (parse_path_pattern path posix) ≡ false
      → IsPlain (parse_path_pattern item posix)
      → IsPlain (parse_path_pattern raw posix)
      → tree_root (parse_path_pattern raw posix) ≡ some root
      → pattern_covered py path item posix ≡ ready
      → pattern_covered py item raw posix ≡ ready
      → pattern_covered py path raw posix ≡ ready
  unfolding pattern_covered
  entry_narrows path item raw root o c p q t outer inner =
      covered_narrows py (parse_path_pattern path posix) (parse_path_pattern item posix)
        (parse_path_pattern raw posix) root lit o p q c t inner outer

  some_entry :
      (path item : String) (ceiling : List String)
      → IsPlain (parse_path_pattern path posix)
      → has_wildcard (parse_path_pattern path posix) ≡ false
      → IsPlain (parse_path_pattern item posix)
      → AllTrees ceiling
      → pattern_covered py path item posix ≡ ready
      → any is_ready (path_reasons py item ceiling posix) ≡ true
      → any is_ready (path_reasons py path ceiling posix) ≡ true
  unfolding path_reasons any
  some_entry path item [] o c p u outer h = cc
  some_entry path item (raw ∷ rest) o c p ((q, (root, t)), u) outer h =
      elim (Bool-cases (is_ready (pattern_covered py item raw posix))) [
        | inl e ↦ ground (
          arith,
          entry_narrows path item raw root o c p q t outer
              (is_ready-eq (pattern_covered py item raw posix) e),
        )
        | inr n ↦ ground (arith, some_entry path item rest o c p u outer, n)
      ]

  -- What a check of a path entry that answers `ready` has found
  allowed-reasons :
      (item : String) (ceiling : List String)
      → allow_item_covered py item ceiling posix true ≡ ready
      → (non_empty (strip item) ≡ false)
        ⊎ (any is_ready (path_reasons py (strip item) (entries ceiling) posix) ≡ true)
  unfolding allow_item_covered path_covered
  allowed-reasons item ceiling h = ground arith

  found_entry :
      (item : String) (l : List String)
      → any is_ready (path_reasons py item l posix) ≡ true
      → is_nil l ≡ false
  unfolding path_reasons any
  found_entry item [] h = cc
  found_entry item (raw ∷ l) h = refl

  blank_allowed :
      (item : String) (ceiling : List String)
      → non_empty (strip item) ≡ false
      → allow_item_covered py item ceiling posix true ≡ ready
  unfolding allow_item_covered
  blank_allowed item ceiling h = ground arith

  no_entry :
      (path item : String)
      → non_empty (strip item) ≡ false
      → any is_ready (path_reasons py path (entries (item ∷ [])) posix) ≡ false
  unfolding path_reasons any keep
  no_entry path item h = ground arith

  reasons-allowed :
      (item : String) (ceiling : List String)
      → any is_ready (path_reasons py (strip item) (entries ceiling) posix) ≡ true
      → allow_item_covered py item ceiling posix true ≡ ready
  unfolding allow_item_covered path_covered
  reasons-allowed item ceiling h = ground (arith, found_entry (strip item) (entries ceiling) h)

  only_entry :
      (path item : String)
      → any is_ready (path_reasons py (strip path) (entries (item ∷ [])) posix) ≡ true
      → pattern_covered py (strip path) (strip item) posix ≡ ready
  unfolding path_reasons any keep
  only_entry path item h =
      is_ready-eq (pattern_covered py (strip path) (strip item) posix) (ground arith)

  -- If `fnmatchcase` is equality on patterns without a wildcard: when an allow entry is accepted
  -- under a list of ceilings, every path without a wildcard that the entry allows is allowed by
  -- the ceilings. Path, entry and ceilings are absolute POSIX paths without an escaping `..`, and
  -- each ceiling is a directory or a directory's `/**`.
  pub accepted_item_narrows :
      (path item : String) (ceiling : List String)
      → IsPlain (parse_path_pattern (strip path) posix)
      → has_wildcard (parse_path_pattern (strip path) posix) ≡ false
      → IsPlain (parse_path_pattern (strip item) posix)
      → AllTrees (entries ceiling)
      → allow_item_covered py item ceiling posix true ≡ ready
      → allow_item_covered py path (item ∷ []) posix true ≡ ready
      → allow_item_covered py path ceiling posix true ≡ ready
  accepted_item_narrows path item ceiling o c p u inner outer =
      elim (allowed-reasons path (item ∷ []) outer) [
        | inl blank ↦ blank_allowed path ceiling blank
        | inr found ↦ elim (allowed-reasons item ceiling inner) [
          | inl blank ↦ absurd (ground (arith, no_entry (strip path) item blank))
          | inr entry ↦ reasons-allowed path ceiling (
              some_entry (strip path) (strip item) (entries ceiling) o c p u
                (only_entry path item found) entry)
        ]
      ]
