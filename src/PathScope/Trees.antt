-- ===== src/PathScope/Trees.antt =====
-- framework/path_scope.py: ceilings that are a directory or a directory's `/**`, for absolute
-- POSIX paths.
use mathlib.Core.List.{append_assoc, append-nil}
use teleagent_collab.Common.{
  Option, some, List, [], ◌∷◌, ◌++◌, true, false, String, ◌≡◌, refl, ap, sym, ◌∙◌, string_eq, arith,
  any, take, ◌==◌, if◌then◌else◌, occurs, has_prefix, nat_eq, ℕ_discrete,
}
use teleagent_collab.PathScope.Parsing.{PathPattern, has_wildcard, is_wild_segment}
use teleagent_collab.PathScope.Globs.{
  PythonText, fold, parts_eq, is_prefix, segment_match, trailing_globstar_prefix, parts_glob_match,
}
use teleagent_collab.PathScope.Matching.{glob_cons, glob_nil, parts_glob_match_iff, done, gap}

-- The segments below which everything is covered, if the ceiling is such a tree
unfoldable pub tree_root : PathPattern → Option (List String)
tree_root ce = if has_wildcard ce then trailing_globstar_prefix ce.parts else some ce.parts

-- `fnmatchcase` on a pattern without `*`, `?` and `[` is equality.
abbrev pub IsLiteral : PythonText → Type 0
IsLiteral py =
    (name pat : String) → is_wild_segment pat ≡ false → py.fnmatchcase name pat ≡ true → name ≡ pat

abbrev pub Below : List String → List String → Type 0
Below root parts = (rest : List String) × (parts ≡ root ++ rest)

pub Below-trans : (a b c : List String) → Below a b → Below b c → Below a c
Below-trans a b c (r, p) (s, q) = (r ++ s, q ∙ ap (λ l. l ++ s) p ∙ append_assoc a r s)

pub globstar_is_wild : is_wild_segment "**" ≡ true
unfolding is_wild_segment occurs has_prefix ℕ_discrete
globstar_is_wild = refl

literal_is_no_globstar : (p : String) → is_wild_segment p ≡ false → (p == "**") ≡ false
literal_is_no_globstar p w = elim (string_eq.dec p "**") [
  | yes e ↦ absurd (ground (arith, globstar_is_wild, w, ap is_wild_segment e))
  | no d ↦ ground (arith, d)
]

module _ (py : PythonText) where
  pub parts_eq_refl : (a : List String) → parts_eq py false a a ≡ true
  unfolding parts_eq fold
  parts_eq_refl [] = refl
  parts_eq_refl (x ∷ a) = ground (arith, parts_eq_refl a)

  pub parts_eq_sound : (a b : List String) → parts_eq py false a b ≡ true → a ≡ b
  unfolding parts_eq fold
  parts_eq_sound [] [] h = refl
  parts_eq_sound [] (y ∷ b) h = cc
  parts_eq_sound (x ∷ a) [] h = cc
  parts_eq_sound (x ∷ a) (y ∷ b) h = ground (arith, parts_eq_sound a b)

  pub is_prefix_sound : (a d : List String) → is_prefix py false a d ≡ true → Below a d
  unfolding is_prefix parts_eq fold take
  is_prefix_sound [] d h = (d, refl)
  is_prefix_sound (x ∷ a) [] h = absurd (ground arith)
  is_prefix_sound (x ∷ a) (y ∷ d) h =
      let (r, e) = is_prefix_sound a d (ground arith) in (r, ground arith)

  pub is_prefix_complete : (a r : List String) → is_prefix py false a (a ++ r) ≡ true
  unfolding is_prefix parts_eq fold take
  is_prefix_complete [] r = ground arith
  is_prefix_complete (x ∷ a) r = ground (arith, is_prefix_complete a r)

  literal_segment :
      (seg p : String)
      → IsLiteral py
      → is_wild_segment p ≡ false
      → segment_match py false seg p ≡ true
      → seg ≡ p
  unfolding segment_match fold
  literal_segment seg p lit w h = ground (arith, lit seg p, literal_is_no_globstar p w)

  segment_match_refl : (p : String) → segment_match py false p p ≡ true
  unfolding segment_match fold
  segment_match_refl p = ground arith

  -- A pattern `root/**` matches what lies below the root.
  pub glob-Below :
      (root parts : List String)
      → IsLiteral py
      → any is_wild_segment root ≡ false
      → parts_glob_match py false parts (root ++ ("**" ∷ [])) ≡ true
      → Below root parts
  unfolding any
  glob-Below [] parts lit w h = (parts, refl)
  glob-Below (p ∷ root) [] lit w h =
      absurd (ground (arith, glob_nil py false p (root ++ ("**" ∷ [])), literal_is_no_globstar p))
  glob-Below (p ∷ root) (x ∷ parts) lit w h =
      let more : List String = root ++ ("**" ∷ []) in
      let step = sym (glob_cons py false x parts p more) ∙ h in
      let same =
        literal_segment x p lit (ground arith) (ground (arith, step, literal_is_no_globstar p)) in
      let (r, e) =
        glob-Below root parts lit (ground arith) (ground (arith, step, literal_is_no_globstar p)) in
      (r, cc)

  pub Below-glob :
      (root rest : List String)
      → any is_wild_segment root ≡ false
      → parts_glob_match py false (root ++ rest) (root ++ ("**" ∷ [])) ≡ true
  unfolding any
  Below-glob [] rest w =
      (parts_glob_match_iff py false rest ("**" ∷ [])).1
        (gap rest [] refl (sym (append-nil rest)) done)
  Below-glob (p ∷ root) rest w = ground (
    arith,
    glob_cons py false p (root ++ rest) p (root ++ ("**" ∷ [])),
    literal_is_no_globstar p,
    segment_match_refl p,
    Below-glob root rest,
  )
