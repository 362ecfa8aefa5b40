-- ===== src/PathScope/Matching.antt =====
-- framework/path_scope.py: what `_parts_glob_match` decides.
use teleagent_collab.Common.{
  Bool, List, [], ◌∷◌, ◌++◌, ◌||◌, ◌&&◌, true, false, String, ◌≡◌, refl, ap, sym, ◌∙◌, ◌≢◌, ◌↔◌,
  inl, inr, string_eq, arith, Bool-cases, subst, ◌==◌, if◌then◌else◌,
}
use teleagent_collab.PathScope.Globs.{
  PythonText, later_cells, segment_match, last_row, next_row, table_row, parts_glob_match,
}

-- The segments that a pattern of segments matches, by the meaning of `**` and of the others
pub data Matches (py : PythonText) (ign : Bool) : List String → List String → Type 0 where
  done : Matches py ign [] []
  one :
      {seg p : String} {segs ps : List String}
      → p ≢ "**"
      → segment_match py ign seg p ≡ true
      → Matches py ign segs ps
      → Matches py ign (seg ∷ segs) (p ∷ ps)
  gap :
      {p : String} {segs ps : List String} (run rest : List String)
      → p ≡ "**"
      → segs ≡ run ++ rest
      → Matches py ign rest ps
      → Matches py ign segs (p ∷ ps)

module _ (py : PythonText) (ign : Bool) where
  -- A row for a longer pattern holds the row for the shorter one.
  later-table_row :
      (segs : List String) (p : String) (ps : List String)
      → later_cells (table_row py ign segs (p ∷ ps)) ≡ table_row py ign segs ps
  unfolding table_row last_row next_row
  later-table_row [] p ps = refl
  later-table_row (seg ∷ segs) p ps = ap (next_row py ign seg ps) (later-table_row segs p ps)

  -- A cell of the table by its neighbours
  pub glob_cons :
      (seg : String) (segs : List String) (p : String) (ps : List String)
      → parts_glob_match py ign (seg ∷ segs) (p ∷ ps) ≡ (
          if p == "**"
          then parts_glob_match py ign (seg ∷ segs) ps || parts_glob_match py ign segs (p ∷ ps)
          else segment_match py ign seg p && parts_glob_match py ign segs ps)
  unfolding parts_glob_match table_row last_row next_row
  glob_cons seg segs p ps = rw (later-table_row segs p ps) refl

  pub glob_nil :
      (p : String) (ps : List String)
      → parts_glob_match py ign [] (p ∷ ps) ≡ ((p == "**") && parts_glob_match py ign [] ps)
  unfolding parts_glob_match table_row last_row
  glob_nil p ps = refl

  glob_end : parts_glob_match py ign [] [] ≡ true
  unfolding parts_glob_match table_row last_row
  glob_end = refl

  glob_beyond :
      (seg : String) (segs : List String) → parts_glob_match py ign (seg ∷ segs) [] ≡ false
  unfolding parts_glob_match table_row next_row
  glob_beyond seg segs = refl

  -- `**` may take one segment more.
  widen :
      {segs pat : List String} (p : String) (ps : List String) (seg : String)
      → p ≡ "**"
      → pat ≡ (p ∷ ps)
      → Matches py ign segs pat
      → Matches py ign (seg ∷ segs) (p ∷ ps)
  widen p ps seg e q done = cc
  widen p ps seg e q (one d m r) = absurd (d (cc))
  widen p ps seg e q (gap run rest f s r) =
      gap (seg ∷ run) rest e (ap (λ l. seg ∷ l) s) (subst (Matches py ign rest) (cc) r)

  matched-Matches :
      (segs pat : List String) → parts_glob_match py ign segs pat ≡ true → Matches py ign segs pat
  matched-Matches [] [] h = done
  matched-Matches (seg ∷ segs) [] h = absurd (ground (arith, glob_beyond seg segs))
  matched-Matches [] (p ∷ ps) h =
      gap [] [] (ground (arith, glob_nil p ps)) refl
        (matched-Matches [] ps (ground (arith, glob_nil p ps)))
  matched-Matches (seg ∷ segs) (p ∷ ps) h =
      let step = sym (glob_cons seg segs p ps) ∙ h in
      elim (string_eq.dec p "**") [
        | no d ↦ one d (ground (arith, step)) (matched-Matches segs ps (ground (arith, step)))
        | yes e ↦ elim (Bool-cases (parts_glob_match py ign (seg ∷ segs) ps)) [
          | inl now ↦ gap [] (seg ∷ segs) e refl (matched-Matches (seg ∷ segs) ps now)
          | inr later ↦
              widen p ps seg e refl (matched-Matches segs (p ∷ ps) (ground (arith, step, later)))
        ]
      ]

  -- A run of any segments may be skipped at `**`.
  skip_run :
      (p : String) (ps run rest : List String)
      → p ≡ "**"
      → parts_glob_match py ign rest ps ≡ true
      → parts_glob_match py ign (run ++ rest) (p ∷ ps) ≡ true
  skip_run p ps [] [] e h = ground (arith, glob_nil p ps)
  skip_run p ps [] (seg ∷ segs) e h = ground (arith, glob_cons seg segs p ps)
  skip_run p ps (seg ∷ run) rest e h =
      ground (arith, glob_cons seg (run ++ rest) p ps, skip_run p ps run rest e h)

  Matches-matched :
      (segs pat : List String) → Matches py ign segs pat → parts_glob_match py ign segs pat ≡ true
  Matches-matched _ _ done = glob_end
  Matches-matched _ _ (one {seg} {p} {segs} {ps} d m r) =
      ground (arith, glob_cons seg segs p ps, Matches-matched segs ps r)
  Matches-matched _ _ (gap {p} {segs} {ps} run rest e s r) =
      subst (λ l. parts_glob_match py ign l (p ∷ ps) ≡ true) (sym s)
        (skip_run p ps run rest e (Matches-matched rest ps r))

  -- The table decides the relation: an item's segments match a pattern exactly when each segment
  -- of the pattern but `**` matches one segment, and each `**` a run of any length, in order.
  pub parts_glob_match_iff :
      (segs pat : List String) → (parts_glob_match py ign segs pat ≡ true) ↔ Matches py ign segs pat
  parts_glob_match_iff segs pat = (matched-Matches segs pat, Matches-matched segs pat)
