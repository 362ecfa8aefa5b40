-- ===== src/PathScope/Escaping.antt =====
-- framework/path_scope.py: allow entries that have no segments, such as `.`.
use teleagent_collab.Common.{
  List, [], ◌∷◌, true, false, String, ◌≡◌, refl, ap, ◌∙◌, arith, any, keep, strip, non_empty, take,
}
use teleagent_collab.PathScope.Parsing.{
  Platform, PathPattern, has_wildcard, is_wild_segment, parse_path_pattern, is_nil, is_windows,
}
use teleagent_collab.PathScope.Globs.{PythonText, is_prefix, parts_eq, universal}
use teleagent_collab.PathScope.Allowing.{entries}
use teleagent_collab.PathScope.Covering.{
  ready, is_ready, covered_if, concrete_covered, parsed_covered, pattern_covered, path_reasons,
  path_covered, allow_item_covered,
}

-- A relative pattern without an escaping `..`
pub record IsRelative (p : PathPattern) : Type 0 where
  pub relative : p.absolute ≡ false
  pub unambiguous : p.ambiguous_dotdot ≡ false
  pub within_root : p.escaped_above_root ≡ false

module _ (py : PythonText) (plat : Platform) where
  covered_by_any :
      (it ce : PathPattern) → IsRelative it → it.parts ≡ [] → parsed_covered py plat it ce ≡ ready
  unfolding parsed_covered
  covered_by_any it ce r e = ground (arith, r.relative, r.unambiguous, r.within_root)

  prefix-nil : (xs : List String) → is_prefix py (is_windows plat) [] xs ≡ true
  unfolding is_prefix parts_eq take
  prefix-nil xs = ground arith

  covers_any :
      (it path : PathPattern)
      → IsRelative it
      → it.parts ≡ []
      → it.drive ≡ ""
      → IsRelative path
      → has_wildcard path ≡ false
      → parsed_covered py plat path it ≡ ready
  unfolding parsed_covered concrete_covered covered_if universal any
  covers_any it path r e d q c = ground (
    arith,
    ap (any is_wild_segment) e,
    ap (λ z. is_prefix py (is_windows plat) z path.parts) e ∙ prefix-nil path.parts,
    ap non_empty d,
    ap universal e,
    r.relative,
    q.relative,
    q.unambiguous,
    q.within_root,
  )

  reasons-found :
      (item : String) (l : List String)
      → any is_ready (path_reasons py (strip item) l plat) ≡ true
      → is_nil l ≡ false
      → path_covered py (strip item) l plat ≡ ready
  unfolding path_covered
  reasons-found item l h n = ground arith

  any_reason :
      (item : String) (l : List String)
      → IsRelative (parse_path_pattern (strip item) plat)
      → (parse_path_pattern (strip item) plat).parts ≡ []
      → is_nil l ≡ false
      → any is_ready (path_reasons py (strip item) l plat) ≡ true
  unfolding path_reasons pattern_covered any
  any_reason item [] r e n = cc
  any_reason item (raw ∷ l) r e n = ground (
    arith,
    covered_by_any (parse_path_pattern (strip item) plat) (parse_path_pattern raw plat) r e,
  )

  one_entry :
      (item : String) → non_empty (strip item) ≡ true → entries (item ∷ []) ≡ strip item ∷ []
  unfolding keep
  one_entry item n = ground arith

  one_reason :
      (path item : String)
      → parsed_covered py plat (parse_path_pattern (strip path) plat) (parse_path_pattern item plat)
        ≡ ready
      → any is_ready (path_reasons py (strip path) (item ∷ []) plat) ≡ true
  unfolding path_reasons pattern_covered any
  one_reason path item h = ground arith

  -- A relative entry that has no segments and no drive, such as `.` or `a/..`, is accepted under
  -- every list of ceilings with an entry that is not blank, whatever that allows, and itself allows
  -- every relative path that has no wildcard and no escaping `..`, on either platform.
  pub empty_item_escapes :
      (item path : String) (ceiling : List String)
      → non_empty (strip item) ≡ true
      → IsRelative (parse_path_pattern (strip item) plat)
      → (parse_path_pattern (strip item) plat).parts ≡ []
      → (parse_path_pattern (strip item) plat).drive ≡ ""
      → is_nil (entries ceiling) ≡ false
      → IsRelative (parse_path_pattern (strip path) plat)
      → has_wildcard (parse_path_pattern (strip path) plat) ≡ false
      → (allow_item_covered py item ceiling plat true ≡ ready)
        × (allow_item_covered py path (item ∷ []) plat true ≡ ready)
  unfolding allow_item_covered
  empty_item_escapes item path ceiling n r e d c q w = (
    ground
        (arith, reasons-found item (entries ceiling) (any_reason item (entries ceiling) r e c) c),
    ground (
      arith,
      one_entry item n,
      reasons-found path (strip item ∷ [])
          (one_reason path (strip item) (
            covers_any (parse_path_pattern (strip item) plat) (parse_path_pattern (strip path) plat)
              r e d q w))
          refl,
    ),
  )
