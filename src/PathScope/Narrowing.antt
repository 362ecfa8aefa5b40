-- ===== src/PathScope/Narrowing.antt =====
-- framework/path_scope.py: what a ceiling that is a tree covers, and that a covered pattern covers
-- no more than its ceiling, for absolute POSIX patterns.
use mathlib.Core.List.{append-nil}
use teleagent_collab.Common.{
  Bool, some, List, [], ◌∷◌, ◌++◌, ◌||◌, true, false, String, ◌≡◌, refl, ap, sym, ◌∙◌, subst, ◌↔◌,
  ◌⊎◌, inl, inr, string_eq, arith, any, if◌then◌else◌, Bool-cases, occurs, has_prefix, ℕ_discrete,
}
use teleagent_collab.PathScope.Parsing.{posix, PathPattern, has_wildcard, is_wild_segment}
use teleagent_collab.PathScope.Globs.{
  PythonText, parts_eq, is_prefix, universal, ends_in_globstar, but_last, trailing_globstar_prefix,
  parts_glob_match,
}
use teleagent_collab.PathScope.Covering.{
  ready, covered_if, concrete_covered, glob_covered, parsed_covered,
}
use teleagent_collab.PathScope.Trees.{
  tree_root, IsLiteral, Below, parts_eq_sound, is_prefix_sound, is_prefix_complete, glob-Below,
  Below-glob, globstar_is_wild,
}

-- `..` never leaves the pattern's tree.
pub record IsPlain (p : PathPattern) : Type 0 where
  pub absolute : p.absolute ≡ true
  pub unambiguous : p.ambiguous_dotdot ≡ false
  pub within_root : p.escaped_above_root ≡ false

but_last-globstar :
    (parts : List String) → ends_in_globstar parts ≡ true → parts ≡ but_last parts ++ ("**" ∷ [])
unfolding ends_in_globstar but_last
but_last-globstar [] h = cc
but_last-globstar (p ∷ []) h = ground arith
but_last-globstar (q ∷ p ∷ ps) h = ap (λ l. q ∷ l) (but_last-globstar (p ∷ ps) h)

trailing-shape :
    (parts root : List String)
    → trailing_globstar_prefix parts ≡ some root
    → (parts ≡ root ++ ("**" ∷ [])) × (any is_wild_segment root ≡ false)
unfolding trailing_globstar_prefix
trailing-shape parts root h = (ground (arith, but_last-globstar parts), ground arith)

-- The two kinds of ceilings that are trees
abbrev pub TreeShape : PathPattern → List String → Type 0
TreeShape ce root =
    ((has_wildcard ce ≡ false) × (ce.parts ≡ root))
    ⊎ ((has_wildcard ce ≡ true) × (trailing_globstar_prefix ce.parts ≡ some root))

pub tree-shape :
    (ce : PathPattern) (root : List String) → tree_root ce ≡ some root → TreeShape ce root
unfolding tree_root
tree-shape ce root h = elim (Bool-cases (has_wildcard ce)) [
  | inl w ↦ inr (w, ground arith)
  | inr c ↦ inl (c, ground arith)
]

star_is_wild : is_wild_segment "*" ≡ true
unfolding is_wild_segment occurs has_prefix ℕ_discrete
star_is_wild = refl

-- Only the pattern that is one star has no directory above it.
universal-wild : (parts : List String) → universal parts ≡ true → any is_wild_segment parts ≡ true
unfolding universal any
universal-wild [] h = cc
universal-wild (p ∷ []) h = elim (string_eq.dec p "**") [
  | yes e ↦ ground (arith, globstar_is_wild, ap is_wild_segment e)
  | no d ↦ elim (string_eq.dec p "*") [
    | yes e ↦ ground (arith, star_is_wild, ap is_wild_segment e)
    | no d' ↦ absurd (ground (arith, d, d'))
  ]
]
universal-wild (p ∷ q ∷ ps) h = cc

universal-no_root : (root : List String) → universal (root ++ ("**" ∷ [])) ≡ true → root ≡ []
unfolding universal
universal-no_root [] h = refl
universal-no_root (p ∷ []) h = cc
universal-no_root (p ∷ q ∷ root) h = cc

pub universal-root :
    (ce : PathPattern) (root : List String)
    → TreeShape ce root
    → universal ce.parts ≡ true
    → root ≡ []
universal-root ce root (inl (c, e)) h = absurd (ground (arith, universal-wild ce.parts h))
universal-root ce root (inr (w, t)) h =
    universal-no_root root (subst (λ l. universal l ≡ true) (trailing-shape ce.parts root t).0 h)

covered_true : covered_if true ≡ ready
unfolding covered_if
covered_true = refl

pub covered_if-ready : (b : Bool) → covered_if b ≡ ready → b ≡ true
unfolding covered_if
covered_if-ready true h = refl
covered_if-ready false h = cc

module _ (py : PythonText) where
  concrete-cover :
      (it ce : PathPattern)
      → IsPlain it
      → IsPlain ce
      → has_wildcard it ≡ false
      → parsed_covered py posix it ce
        ≡ covered_if (
            universal ce.parts
            || parts_eq py false it.parts ce.parts
            || (if has_wildcard ce
                then parts_glob_match py false it.parts ce.parts
                else is_prefix py false ce.parts it.parts))
  unfolding parsed_covered concrete_covered covered_if
  concrete-cover it ce p q c =
      ground
        (arith, p.absolute, p.unambiguous, p.within_root, q.absolute, q.unambiguous, q.within_root)

  -- How a ceiling can cover a glob
  pub glob-cover :
      (it ce : PathPattern)
      → IsPlain it
      → IsPlain ce
      → has_wildcard it ≡ true
      → parsed_covered py posix it ce ≡ ready
      → (universal ce.parts ≡ true)
        ⊎ ((parts_eq py false it.parts ce.parts ≡ true) ⊎ (glob_covered py false it ce ≡ ready))
  unfolding parsed_covered
  glob-cover it ce p q w h =
      ground
        (arith, p.absolute, p.unambiguous, p.within_root, q.absolute, q.unambiguous, q.within_root)

  ready-Below :
      (it ce : PathPattern) (root : List String)
      → IsLiteral py
      → has_wildcard it ≡ false
      → TreeShape ce root
      → (universal ce.parts
          || parts_eq py false it.parts ce.parts
          || (if has_wildcard ce
              then parts_glob_match py false it.parts ce.parts
              else is_prefix py false ce.parts it.parts))
        ≡ true
      → Below root it.parts
  ready-Below it ce root lit c shape h = elim (Bool-cases (universal ce.parts)) [
    | inl u ↦ (it.parts, ap (λ l. l ++ it.parts) (sym (universal-root ce root shape u)))
    | inr nu ↦ elim (Bool-cases (parts_eq py false it.parts ce.parts)) [
      | inl e ↦ same_parts (parts_eq_sound py it.parts ce.parts e) shape
      | inr ne ↦ by_shape shape (ground (arith, nu, ne))
    ]
  ]
    where
      same_parts : it.parts ≡ ce.parts → TreeShape ce root → Below root it.parts
      same_parts e (inl (c', p)) = ([], e ∙ p ∙ sym (append-nil root))
      same_parts e (inr (w, t)) = absurd (ground (arith, ap (any is_wild_segment) e))

      by_shape :
          TreeShape ce root
          → (if has_wildcard ce
              then parts_glob_match py false it.parts ce.parts
              else is_prefix py false ce.parts it.parts)
            ≡ true
          → Below root it.parts
      by_shape (inl (c', p)) g =
          subst (λ l. Below l it.parts) p (is_prefix_sound py ce.parts it.parts (ground arith))
      by_shape (inr (w, t)) g =
          let (s, f) = trailing-shape ce.parts root t in
          glob-Below py root it.parts lit f
            (subst (λ l. parts_glob_match py false it.parts l ≡ true) s (ground arith))

  Below-ready :
      (it ce : PathPattern) (root : List String)
      → TreeShape ce root
      → Below root it.parts
      → (if has_wildcard ce
          then parts_glob_match py false it.parts ce.parts
          else is_prefix py false ce.parts it.parts)
        ≡ true
  Below-ready it ce root (inl (c, p)) (rest, e) =
      let h =
        subst (λ l. is_prefix py false ce.parts l ≡ true) (ap (λ l. l ++ rest) p ∙ sym e)
          (is_prefix_complete py ce.parts rest) in
      ground arith
  Below-ready it ce root (inr (w, t)) (rest, e) =
      let (s, f) = trailing-shape ce.parts root t in
      let h : parts_glob_match py false it.parts ce.parts ≡ true =
        rw (e, s) (Below-glob py root rest f) in
      ground arith

  -- For absolute POSIX patterns without an escaping `..`, if `fnmatchcase` is equality on patterns
  -- without a wildcard: a path without a wildcard is covered by a ceiling that is a directory or a
  -- directory's `/**` exactly when its segments start with the directory's.
  pub covered-iff_Below :
      (it ce : PathPattern) (root : List String)
      → IsLiteral py
      → IsPlain it
      → IsPlain ce
      → has_wildcard it ≡ false
      → tree_root ce ≡ some root
      → (parsed_covered py posix it ce ≡ ready) ↔ Below root it.parts
  covered-iff_Below it ce root lit p q c t =
      let shape = tree-shape ce root t in
      (
        λ h.
            ready-Below it ce root lit c shape
              (covered_if-ready _ (sym (concrete-cover it ce p q c) ∙ h)),
        λ b.
            concrete-cover it ce p q c
            ∙ ap covered_if (ground (arith, Below-ready it ce root shape b))
            ∙ covered_true,
      )
