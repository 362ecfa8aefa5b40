-- ===== src/Completion/Artifacts.antt =====
-- completion.py: snapshots of the required artifacts and their comparison. The file system is a
-- parameter, what it shows for each path; so are the digest, a function of the bytes that are read,
-- and `normal`, which is `str(Path(p))`.
use teleagent_collab.Common.{
  ℕ, Bool, true, false, not, ◌&&◌, ◌||◌, Option, none, some, List, [], ◌∷◌, String, map, Dict,
  string_eq, nat_eq, lookup, insert, non_empty, all, keep, take, ◌==◌, if◌then◌else◌,
}

pub record ArtifactRecord : Type 0 where
  pub path : String
  pub exists : Bool
  pub size : Option ℕ
  pub mtime_ns : Option ℕ
  pub sha256 : Option String
  pub error : String

-- What `exists`, `is_file`, `stat` and reading give for a path: no regular file, an OSError before or
-- after the stat, or a file with its bytes.
pub data FileView : Type 0 where
  absent : FileView
  stat_error : String → FileView
  read_error : (size mtime_ns : ℕ) → String → FileView
  regular : (size mtime_ns : ℕ) → (content : List ℕ) → FileView

abbrev pub FileSystem : Type 0
FileSystem = String → FileView

abbrev pub max_bytes : ℕ
max_bytes = 8000000

module _ (digest : List ℕ → String) where
  -- The loop reads chunks until `max_bytes` bytes are read or the file ends.
  unfoldable pub file_sha256 : List ℕ → String
  file_sha256 content = digest (take max_bytes content)

  -- The snapshot of the file at a path as `Path` prints it
  unfoldable pub snapshot_at : FileSystem → Bool → String → ArtifactRecord
  unfolding file_sha256
  snapshot_at fs hash_content p =
      let rec : ArtifactRecord = record {
        path = p;
        exists = false;
        size = none;
        mtime_ns = none;
        sha256 = none;
        error = "";
      } in
      elim (fs p) [
        | absent ↦ rec
        | stat_error e ↦ record rec { error = e }
        | read_error size mtime e ↦ record rec {
          exists = true;
          size = some size;
          mtime_ns = some mtime;
          error = if hash_content then e else "";
        }
        | regular size mtime content ↦ record rec {
          exists = true;
          size = some size;
          mtime_ns = some mtime;
          sha256 = if hash_content then some (file_sha256 content) else none;
        }
      ]

module _ (normal : String → String) (digest : List ℕ → String) where
  unfoldable pub snapshot_artifact : FileSystem → Bool → String → ArtifactRecord
  snapshot_artifact fs hash_content p = snapshot_at digest fs hash_content (normal p)

  unfoldable pub snapshot_artifacts : FileSystem → Bool → List String → List ArtifactRecord
  snapshot_artifacts fs hash_content [] = []
  snapshot_artifacts fs hash_content (p ∷ ps) =
      snapshot_artifact fs hash_content p ∷ snapshot_artifacts fs hash_content ps

unfoldable pub artifacts_all_present : List ArtifactRecord → Bool
artifacts_all_present [] = false
artifacts_all_present (r ∷ rs) = all (λ q. q.exists && not (non_empty q.error)) (r ∷ rs)

-- The lines of `diffs`
pub data Diff : Type 0 where
  missing_in_after exists_changed sha256_changed mtime_changed size_changed : String → Diff

-- `{r.path: r for r in after}`: the last record of a path stays.
unfoldable pub index_from :
    Dict String ArtifactRecord → List ArtifactRecord → Dict String ArtifactRecord
index_from d [] = d
index_from d (r ∷ rs) = index_from (insert r.path r d) rs

unfoldable pub by_path : List ArtifactRecord → Dict String ArtifactRecord
unfolding index_from
by_path rs = index_from [] rs

-- `b and a and b != a`
hash_differs : Option String → Option String → Bool
hash_differs (some b) (some a) = non_empty b && (non_empty a && not (b == a))
hash_differs _ _ = false

-- `b is not None and a is not None and b != a`
number_differs : Option ℕ → Option ℕ → Bool
number_differs (some b) (some a) = not (b == a)
number_differs _ _ = false

unfoldable pub compare_record : ArtifactRecord → Option ArtifactRecord → Option Diff
unfolding hash_differs number_differs
compare_record b none = some (missing_in_after b.path)
compare_record b (some a) =
    if (b.exists && not a.exists) || (not b.exists && a.exists)
    then some (exists_changed b.path)
    else if not b.exists
    then none
    else if hash_differs b.sha256 a.sha256
    then some (sha256_changed b.path)
    else if number_differs b.mtime_ns a.mtime_ns
    then some (mtime_changed b.path)
    else if number_differs b.size a.size
    then some (size_changed b.path)
    else none

abbrev add_diff : Option Diff → List Diff → List Diff
add_diff none ds = ds
add_diff (some d) ds = d ∷ ds

unfoldable pub diffs_of : Dict String ArtifactRecord → List ArtifactRecord → List Diff
unfolding compare_record
diffs_of index [] = []
diffs_of index (b ∷ bs) = add_diff (compare_record b (lookup b.path index)) (diffs_of index bs)

abbrev pub no_diffs : List Diff → Bool
no_diffs [] = true
no_diffs (_ ∷ _) = false

unfoldable pub artifacts_unchanged : List ArtifactRecord → List ArtifactRecord → Bool × List Diff
unfolding by_path
artifacts_unchanged before after =
    let diffs = diffs_of (by_path after) before in (no_diffs diffs, diffs)

-- The packet for the lead. What the gate does not read (criteria, results, tool records, replies,
-- notes) is of an opaque type of JSON values.
pub record AcceptancePacket (J : Type 0) : Type 0 where
  pub job_name : String
  pub goal : String
  pub acceptance_criteria : J
  pub execution_result : J
  pub error : String
  pub state : String
  pub session_id : String
  pub tool_records : List J
  pub api_replies : List J
  pub notes : List J
  pub artifacts : List ArtifactRecord
  pub artifacts_complete : Bool
  pub missing : List String
  pub submitted_at : ℕ

module _ (normal : String → String) (digest : List ℕ → String) {J : Type 0} where
  -- The arguments that are stored as they come are given as a packet to fill in.
  unfoldable pub build_acceptance_packet :
      FileSystem → Bool → ℕ → List String → AcceptancePacket J → AcceptancePacket J
  build_acceptance_packet fs hash_content now expected_artifacts args =
      let arts = snapshot_artifacts normal digest fs hash_content expected_artifacts in
      record args {
        artifacts = arts;
        artifacts_complete = artifacts_all_present arts;
        missing = map (λ r. r.path) (keep (λ r. not r.exists) arts);
        submitted_at = now;
      }

  unfoldable pub confirm_artifacts_for_lead_approve :
      FileSystem → Bool → AcceptancePacket J → Bool × List Diff
  confirm_artifacts_for_lead_approve fs hash_content packet =
      artifacts_unchanged packet.artifacts
        (snapshot_artifacts normal digest fs hash_content (map (λ r. r.path) packet.artifacts))
