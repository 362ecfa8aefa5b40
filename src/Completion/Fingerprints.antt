-- ===== src/Completion/Fingerprints.antt =====
-- What an unchanged comparison of artifacts means.
use mathlib.Core.Option.{some-injective}
use teleagent_collab.Common.{
  ℕ, ◌≡◌, refl, sym, ap, subst, ◌∙◌, ◌↔◌, Bool, true, Option, none, some, List, [], ◌∷◌, String,
  map, Dict, string_eq, nat_eq, lookup, insert, lookup-insert, non_empty, arith, ◌==◌,
  if◌then◌else◌,
}
use teleagent_collab.Completion.Artifacts.{
  ArtifactRecord, FileSystem, snapshot_at, snapshot_artifact, snapshot_artifacts, by_path,
  index_from, compare_record, diffs_of, no_diffs, artifacts_unchanged, AcceptancePacket,
  confirm_artifacts_for_lead_approve, build_acceptance_packet,
}

-- The two optional values agree where both are given.
abbrev pub Agree {ℓ} : {A : Type ℓ} → Option A → Option A → Type ℓ
Agree (some b) (some a) = b ≡ a
Agree _ _ = Unit

abbrev pub AgreeText : Option String → Option String → Type 0
AgreeText (some b) (some a) = non_empty b ≡ true → non_empty a ≡ true → b ≡ a
AgreeText _ _ = Unit

-- The artifact of `b` is still what it was, as far as `a` shows.
pub record IsSame (b a : ArtifactRecord) : Type 0 where
  pub same_exists : b.exists ≡ a.exists
  pub same_hash : b.exists ≡ true → AgreeText b.sha256 a.sha256
  pub same_mtime : b.exists ≡ true → Agree b.mtime_ns a.mtime_ns
  pub same_size : b.exists ≡ true → Agree b.size a.size

IsSame-of_no_diff : (b a : ArtifactRecord) → compare_record b (some a) ≡ none → IsSame b a
unfolding compare_record
IsSame-of_no_diff b a h = ground arith

no_diff_of_same : (b a : ArtifactRecord) → IsSame b a → compare_record b (some a) ≡ none
unfolding compare_record
no_diff_of_same b a h = ground arith

-- Every record has its counterpart in the index, and the two are the same.
abbrev pub AllSame : Dict String ArtifactRecord → List ArtifactRecord → Type 0
AllSame index [] = Unit
AllSame index (b ∷ bs) =
    ((a : ArtifactRecord) × (lookup b.path index ≡ some a) × IsSame b a) × AllSame index bs

AllSame-of_no_diffs :
    (index : Dict String ArtifactRecord) (bs : List ArtifactRecord)
    → no_diffs (diffs_of index bs) ≡ true
    → AllSame index bs
unfolding diffs_of
AllSame-of_no_diffs index [] h = tt
AllSame-of_no_diffs index (b ∷ bs) h = go (lookup b.path index) refl (AllSame-of_no_diffs index bs)
  where
    go :
        (o : Option ArtifactRecord)
        → lookup b.path index ≡ o
        → (no_diffs (diffs_of index bs) ≡ true → AllSame index bs)
        → AllSame index (b ∷ bs)
    go none e rest = absurd (unfold compare_record in ground arith)
    go (some a) e rest = ((a, e, IsSame-of_no_diff b a (ground arith)), rest (ground arith))

no_diffs_of_AllSame :
    (index : Dict String ArtifactRecord) (bs : List ArtifactRecord)
    → AllSame index bs
    → no_diffs (diffs_of index bs) ≡ true
unfolding diffs_of
no_diffs_of_AllSame index [] h = refl
no_diffs_of_AllSame index (b ∷ bs) ((a, e, s), rest) =
    ground (arith, no_diff_of_same b a s, no_diffs_of_AllSame index bs rest)

-- The comparison says "unchanged" exactly when every record of the submission has a later record of
-- its path with the same existence and, if it exists, no disagreement in hash, mtime or size.
pub artifacts_unchanged_iff :
    (before after : List ArtifactRecord)
    → ((artifacts_unchanged before after).0 ≡ true) ↔ AllSame (by_path after) before
unfolding artifacts_unchanged
artifacts_unchanged_iff before after =
    (AllSame-of_no_diffs (by_path after) before, no_diffs_of_AllSame (by_path after) before)

module _ (digest : List ℕ → String) (hash_content : Bool) (fs later : FileSystem) where
  abbrev pub submitted : String → ArtifactRecord
  submitted = snapshot_at digest fs hash_content

  abbrev pub reviewed : String → ArtifactRecord
  reviewed = snapshot_at digest later hash_content

  reviewed-path : (p : String) → (reviewed p).path ≡ p
  unfolding snapshot_at
  reviewed-path p = ground arith

  submitted-path : (p : String) → (submitted p).path ≡ p
  unfolding snapshot_at
  submitted-path p = ground arith

  abbrev reviews : List String → List ArtifactRecord
  reviews = map reviewed

  abbrev submissions : List String → List ArtifactRecord
  submissions = map submitted

  lookup-reviewed :
      (p q : String) (d : Dict String ArtifactRecord)
      → lookup p (insert (reviewed q).path (reviewed q) d)
        ≡ (if p == q then some (reviewed q) else lookup p d)
  lookup-reviewed p q d =
      lookup-insert p (reviewed q).path (reviewed q) d
      ∙ ap (λ k. if p == k then some (reviewed q) else lookup p d) (reviewed-path q)

  kept :
      (d : Dict String ArtifactRecord) (p : String) (ps : List String)
      → lookup p d ≡ some (reviewed p)
      → lookup p (index_from d (reviews ps)) ≡ some (reviewed p)
  unfolding index_from
  kept d p [] h = h
  kept d p (q ∷ ps) h =
      kept (insert (reviewed q).path (reviewed q) d) p ps
        (lookup-reviewed p q d ∙ ground (arith, h))

  abbrev Found : Dict String ArtifactRecord → List String → Type 0
  Found index [] = Unit
  Found index (p ∷ ps) = (lookup p index ≡ some (reviewed p)) × Found index ps

  found : (d : Dict String ArtifactRecord) (ps : List String) → Found (index_from d (reviews ps)) ps
  unfolding index_from
  found d [] = tt
  found d (p ∷ ps) = (
    kept (insert (reviewed p).path (reviewed p) d) p ps (lookup-reviewed p p d ∙ ground arith),
    found (insert (reviewed p).path (reviewed p) d) ps,
  )

  abbrev pub AllPaths : (String → Type 0) → List String → Type 0
  AllPaths P [] = Unit
  AllPaths P (p ∷ ps) = P p × AllPaths P ps

  IsSame-paths :
      (index : Dict String ArtifactRecord) (ps : List String)
      → Found index ps
      → AllSame index (submissions ps)
      → AllPaths (λ p. IsSame (submitted p) (reviewed p)) ps
  IsSame-paths index [] f s = tt
  IsSame-paths index (p ∷ ps) (here, f) ((a, e, s), rest) = (
    subst (IsSame (submitted p))
        (some-injective a (reviewed p) (sym e ∙ ap (λ q. lookup q index) (submitted-path p) ∙ here))
        s,
    IsSame-paths index ps f rest,
  )

  paths_same :
      (index : Dict String ArtifactRecord) (ps : List String)
      → Found index ps
      → AllPaths (λ p. IsSame (submitted p) (reviewed p)) ps
      → AllSame index (submissions ps)
  paths_same index [] f s = tt
  paths_same index (p ∷ ps) (here, f) (s, rest) = (
    (reviewed p, ap (λ q. lookup q index) (submitted-path p) ∙ here, s),
    paths_same index ps f rest,
  )

  paths_of_submissions : (ps : List String) → map (λ r. r.path) (submissions ps) ≡ ps
  paths_of_submissions [] = refl
  paths_of_submissions (p ∷ ps) = cc (submitted-path p, paths_of_submissions ps)

  unchanged_at :
      (ps : List String)
      → ((artifacts_unchanged (submissions ps) (reviews ps)).0 ≡ true)
        ↔ AllPaths (λ p. IsSame (submitted p) (reviewed p)) ps
  unfolding by_path
  unchanged_at ps = (
    λ h.
        IsSame-paths (by_path (reviews ps)) ps (found [] ps)
          ((artifacts_unchanged_iff (submissions ps) (reviews ps)).0 h),
    λ s.
        (artifacts_unchanged_iff (submissions ps) (reviews ps)).1
          (paths_same (by_path (reviews ps)) ps (found [] ps) s),
  )

  module _ (normal : String → String) (again : (p : String) → normal (normal p) ≡ normal p) where
    submissions-normal :
        (ps : List String)
        → snapshot_artifacts normal digest fs hash_content ps ≡ submissions (map normal ps)
    unfolding snapshot_artifacts snapshot_artifact
    submissions-normal [] = refl
    submissions-normal (p ∷ ps) = ap (λ rs. submitted (normal p) ∷ rs) (submissions-normal ps)

    reviews-normal :
        (ps : List String)
        → snapshot_artifacts normal digest later hash_content (map normal ps)
          ≡ reviews (map normal ps)
    unfolding snapshot_artifacts snapshot_artifact
    reviews-normal [] = refl
    reviews-normal (p ∷ ps) =
        ap (λ q. reviewed q ∷ snapshot_artifacts normal digest later hash_content (map normal ps))
          (again p)
        ∙ ap (λ rs. reviewed (normal p) ∷ rs) (reviews-normal ps)

    AllPaths-normal :
        (P : String → Type 0) (ps : List String)
        → AllPaths P (map normal ps) ↔ AllPaths (λ p. P (normal p)) ps
    AllPaths-normal P [] = (λ u. u, λ u. u)
    AllPaths-normal P (p ∷ ps) =
        let (there, back) = AllPaths-normal P ps in
        (λ (x, xs). (x, there xs), λ (x, xs). (x, back xs))

    -- The approval is confirmed exactly when no required artifact shows a change from the submission
    -- to the review: it exists at both or at neither, and where it exists its digest, mtime and size
    -- do not differ; what either snapshot lacks, such as the digest of a file that could not be read,
    -- does not count. `Path` prints what it printed once again the same.
    pub confirm_artifacts_iff :
        {J : Type 0} (now : ℕ) (ps : List String) (args : AcceptancePacket J)
        → let packet = build_acceptance_packet normal digest fs hash_content now ps args in
          ((confirm_artifacts_for_lead_approve normal digest later hash_content packet).0 ≡ true)
          ↔ AllPaths
              (λ p.
                IsSame
                  (snapshot_artifact normal digest fs hash_content p)
                  (snapshot_artifact normal digest later hash_content p))
              ps
    unfolding confirm_artifacts_for_lead_approve build_acceptance_packet snapshot_artifact
    confirm_artifacts_iff now ps args =
        let same : artifacts_unchanged (snapshot_artifacts normal digest fs hash_content ps) (
              snapshot_artifacts normal digest later hash_content
                (map (λ r. r.path) (snapshot_artifacts normal digest fs hash_content ps)))
            ≡ artifacts_unchanged (submissions (map normal ps)) (reviews (map normal ps)) =
          ap
            (λ ss.
              artifacts_unchanged ss
                (snapshot_artifacts normal digest later hash_content (map (λ r. r.path) ss)))
            (submissions-normal ps)
          ∙ ap
              (λ qs.
                artifacts_unchanged (submissions (map normal ps))
                  (snapshot_artifacts normal digest later hash_content qs))
              (paths_of_submissions (map normal ps))
          ∙ ap (artifacts_unchanged (submissions (map normal ps))) (reviews-normal ps) in
        let (there, back) = unchanged_at (map normal ps) in
        let (from, to) = AllPaths-normal (λ p. IsSame (submitted p) (reviewed p)) ps in
        (λ h. from (there (ap (λ z. z.0) (sym same) ∙ h)), λ s. ap (λ z. z.0) same ∙ back (to s))
