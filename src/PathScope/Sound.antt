-- ===== src/PathScope/Sound.antt =====
-- framework/path_scope.py: a pattern within a ceiling covers no more than the ceiling does, and the
-- patterns for which that fails.
use mathlib.Core.List.{append-nil}
use teleagent_collab.Common.{
  none, some, List, [], ◌++◌, ◌||◌, true, false, String, ◌≡◌, refl, ap, sym, ◌∙◌, subst, ◌⊎◌, inl,
  inr, string_eq, arith, any, Bool-cases,
}
use teleagent_collab.PathScope.Parsing.{posix, PathPattern, has_wildcard, is_wild_segment}
use teleagent_collab.PathScope.Globs.{PythonText, parts_eq, is_prefix, trailing_globstar_prefix}
use teleagent_collab.PathScope.Covering.{ready, covered_if, glob_covered, parsed_covered}
use teleagent_collab.PathScope.Trees.{
  tree_root, IsLiteral, Below, Below-trans, parts_eq_sound, is_prefix_sound,
}
use teleagent_collab.PathScope.Narrowing.{
  IsPlain, TreeShape, tree-shape, universal-root, glob-cover, covered-iff_Below,
}

module _ (py : PythonText) where
  prefix_or_equal :
      (a b : List String) → (is_prefix py false a b || parts_eq py false b a) ≡ true → Below a b
  prefix_or_equal a b h = elim (Bool-cases (is_prefix py false a b)) [
    | inl p ↦ is_prefix_sound py a b p
    | inr n ↦ ([], parts_eq_sound py b a (ground arith) ∙ sym (append-nil a))
  ]

  -- Where a glob's own root lies
  glob-root :
      (it ce : PathPattern) (root : List String)
      → TreeShape ce root
      → glob_covered py false it ce ≡ ready
      → (t : List String) × ((trailing_globstar_prefix it.parts ≡ some t) × Below root t)
  unfolding glob_covered covered_if
  glob-root it ce root shape h = elim (trailing_cases it.parts) [
    | inr n ↦ absurd (ground (arith, n))
    | inl (t, e) ↦ (t, (e, rooted t e shape))
  ]
    where
      trailing_cases :
          (l : List String)
          → ((t : List String) × (trailing_globstar_prefix l ≡ some t))
            ⊎ (trailing_globstar_prefix l ≡ none)
      trailing_cases l =
          elim (trailing_globstar_prefix l)
            as (λ o. ((t : List String) × (o ≡ some t)) ⊎ (o ≡ none)) [
              | none ↦ inr refl
              | some t ↦ inl (t, refl)
            ]

      rooted :
          (t : List String)
          → trailing_globstar_prefix it.parts ≡ some t
          → TreeShape ce root
          → Below root t
      rooted t e (inl (c, p)) = subst (λ l. Below l t) p (prefix_or_equal ce.parts t (ground arith))
      rooted t e (inr (w, d)) = prefix_or_equal root t (ground arith)

  -- A covered pattern is a tree below the ceiling's, unless the ceiling is the whole file system.
  covered-root :
      (it ce : PathPattern) (root : List String)
      → IsLiteral py
      → IsPlain it
      → IsPlain ce
      → tree_root ce ≡ some root
      → parsed_covered py posix it ce ≡ ready
      → ((t : List String) × ((tree_root it ≡ some t) × Below root t)) ⊎ (root ≡ [])
  unfolding tree_root
  covered-root it ce root lit p q t h = elim (Bool-cases (has_wildcard it)) [
    | inr c ↦ inl (it.parts, (ground arith, (covered-iff_Below py it ce root lit p q c t).0 h))
    | inl w ↦ elim (glob-cover py it ce p q w h) [
      | inl u ↦ inr (universal-root ce root (tree-shape ce root t) u)
      | inr (inl e) ↦
          inl (
            root,
            (same_tree w (parts_eq_sound py it.parts ce.parts e), ([], sym (append-nil root))),
          )
      | inr (inr g) ↦
          let (s, (e, b)) = glob-root it ce root (tree-shape ce root t) g in
          inl (s, (ground arith, b))
    ]
  ]
    where
      same_tree : has_wildcard it ≡ true → it.parts ≡ ce.parts → tree_root it ≡ some root
      same_tree w e = elim (tree-shape ce root t) [
        | inl (c, r) ↦ absurd (ground (arith, ap (any is_wild_segment) e))
        | inr (w', d) ↦ ground (arith, ap trailing_globstar_prefix e)
      ]

  -- For absolute POSIX patterns without an escaping `..`, if `fnmatchcase` is equality on patterns
  -- without a wildcard: when a pattern is covered by a ceiling that is a directory or a
  -- directory's `/**`, every path without a wildcard that the pattern covers is covered by the
  -- ceiling.
  pub covered_narrows :
      (path it ce : PathPattern) (root : List String)
      → IsLiteral py
      → IsPlain path
      → IsPlain it
      → IsPlain ce
      → has_wildcard path ≡ false
      → tree_root ce ≡ some root
      → parsed_covered py posix it ce ≡ ready
      → parsed_covered py posix path it ≡ ready
      → parsed_covered py posix path ce ≡ ready
  covered_narrows path it ce root lit o p q c t inner outer =
      (covered-iff_Below py path ce root lit o q c t).1
        (elim (covered-root it ce root lit p q t inner) [
          | inr e ↦ (path.parts, ap (λ l. l ++ path.parts) (sym e))
          | inl (s, (e, b)) ↦
              Below-trans root s path.parts b ((covered-iff_Below py path it s lit o p c e).0 outer)
        ])
