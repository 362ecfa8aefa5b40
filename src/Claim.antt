-- ===== src/Claim.antt =====
-- execution_backend/workdir_claim.py: who may work in a directory. A registry's entries for one
-- directory are modelled: `_held`, `_locks` and the occupancy file of other keys are never touched.
-- The lock file's exclusive lock (platform_services/posix.py) is the kernel's: Claim/World.antt.
pub mod World
pub mod Waiting
pub mod Counting
mod Tests
use teleagent_collab.Common.{
  ℕ, zero, suc, ◌+◌, ◌-◌, Bool, true, false, not, ◌&&◌, ◌||◌, Option, none, some, List, [], ◌∷◌,
  ◌++◌, String, string_eq, contains, keep, any, strip, lower, non_empty, str_or, leb, ltb, ◌==◌,
  if◌then◌else◌,
}

pub data Mode : Type 0 where
  block queue : Mode

-- `_normalize_mode`
unfoldable pub normalize_mode : String → Mode
normalize_mode mode =
    if contains ("queue" ∷ "queued" ∷ "wait" ∷ []) (lower (strip (str_or mode "block")))
    then queue
    else block

-- One entry of `waiters`, and what a claim is made with.
pub record Request : Type 0 where
  pub holder_id : String
  pub job_name : String
  pub backend_id : String
  pub backend_instance_id : String
  pub pid : ℕ
  pub thread_id : ℕ
  pub requested_at : ℕ
  pub write_paths : List String

-- The occupancy of the directory; its "status" is always "held".
pub record Occupancy : Type 0 where
  pub holder_id : String
  pub job_name : String
  pub backend_id : String
  pub backend_instance_id : String
  pub pid : ℕ
  pub thread_id : ℕ
  pub claimed_at : ℕ
  pub write_paths : List String
  pub waiters : List Request
  pub refcount : ℕ

-- The statuses that a claim ends with.
pub data Status : Type 0 where
  granted blocked queued : Status

pub record Outcome : Type 0 where
  pub status : Status
  pub requester_id : String
  pub occupancy : Option Occupancy
  pub was_queued : Bool

-- `_held.get(key)` with `_locks.get(key)`, whose file handle is a number.
pub record Registry : Type 0 where
  pub held : Option Occupancy
  pub lock : Option ℕ

abbrev pub empty_registry : Registry
empty_registry = record { held = none; lock = none }

-- `if p not in rec.write_paths: rec.write_paths.append(p)`
unfoldable pub add_paths : List String → List String → List String
add_paths paths [] = paths
add_paths paths (p ∷ ps) = add_paths (if contains paths p then paths else paths ++ p ∷ []) ps

unfoldable pub add_waiter : Request → Occupancy → Occupancy
add_waiter q rec =
    if any (λ w. w.holder_id == q.holder_id) rec.waiters
    then rec
    else record rec { waiters = rec.waiters ++ q ∷ [] }

abbrev pub granted_to : Request → Occupancy → Outcome
granted_to q occ = record {
  status = granted;
  requester_id = q.holder_id;
  occupancy = some occ;
  was_queued = false;
}

abbrev pub blocked_for : Request → Option Occupancy → Outcome
blocked_for q occ = record {
  status = blocked;
  requester_id = q.holder_id;
  occupancy = occ;
  was_queued = false;
}

-- The holder's own record, claimed once more
unfoldable pub rejoined : List String → Occupancy → Occupancy
rejoined paths rec = record rec {
  refcount = rec.refcount + 1;
  write_paths = add_paths rec.write_paths paths;
}

-- The two branches of the first critical section of `_try_acquire` that return.
on_held : Request → Registry → Occupancy → Registry × Option Outcome
on_held q r rec =
    let own = rejoined q.write_paths rec in
    let other = add_waiter q rec in
    if rec.holder_id == q.holder_id
    then (record r { held = some own }, some (granted_to q own))
    else (record r { held = some other }, some (blocked_for q (some other)))

-- `none`: nobody holds the directory in this process, and the lock is tried next.
unfoldable pub first_section : Request → Registry → Registry × Option Outcome
unfolding on_held
first_section q r = elim r.held [ none ↦ (r, none) | some rec ↦ on_held q r rec ]

-- The occupancy that is written once the lock is taken
unfoldable pub new_occupancy : ℕ → Request → Occupancy
new_occupancy now q = record {
  holder_id = q.holder_id;
  job_name = q.job_name;
  backend_id = q.backend_id;
  backend_instance_id = q.backend_instance_id;
  pid = q.pid;
  thread_id = q.thread_id;
  claimed_at = now;
  write_paths = q.write_paths;
  waiters = [];
  refcount = 1;
}

-- What the second critical section does with the handle that was just locked
pub data HandleUse : Type 0 where
  kept closed : HandleUse

pub record Second : Type 0 where
  pub registry : Registry
  pub outcome : Outcome
  pub handle_use : HandleUse

-- Here the paths of the request are not added.
second_on_held : Request → Registry → Occupancy → Second
second_on_held q r rec =
    let own : Occupancy = record rec { refcount = rec.refcount + 1 } in
    let other = add_waiter q rec in
    let rejoin : Second = record {
      registry = record r { held = some own };
      outcome = granted_to q own;
      handle_use = closed;
    } in
    let refuse : Second = record {
      registry = record r { held = some other };
      outcome = blocked_for q (some other);
      handle_use = closed;
    } in
    if rec.holder_id == q.holder_id then rejoin else refuse

unfoldable pub second_section : Request → ℕ → Occupancy → Registry → Second
unfolding second_on_held
second_section q handle occ r = elim r.held [
  | some rec ↦ second_on_held q r rec
  | none ↦ record {
    registry = record { held = some occ; lock = some handle };
    outcome = granted_to q occ;
    handle_use = kept;
  }
]

-- What `release` does: the answer, the registry, whether the occupancy file is cleared, and the
-- handle that is unlocked.
pub record Released : Type 0 where
  pub answer : Bool
  pub registry : Registry
  pub clears_file : Bool
  pub unlocks : Option ℕ

abbrev pub unchanged : Bool → Registry → Released
unchanged b r = record { answer = b; registry = r; clears_file = false; unlocks = none }

release_held : String → Bool → Registry → Occupancy → Released
release_held holder_id force r rec =
    if not (rec.holder_id == holder_id) && not force
    then unchanged false r
    else if ltb 1 rec.refcount && not force
    then unchanged true (record r { held = some (record rec { refcount = rec.refcount - 1 }) })
    else record { answer = true; registry = empty_registry; clears_file = true; unlocks = r.lock }

-- A claim counts at least one, so that `refcount - 1 > 0` is `1 < refcount`.
unfoldable pub release : String → Bool → Registry → Released
unfolding release_held
release holder_id force r = elim r.held [
  | none ↦ record { answer = false; registry = r; clears_file = force; unlocks = none }
  | some rec ↦ release_held holder_id force r rec
]

holder_of : Option Occupancy → String
holder_of none = ""
holder_of (some occ) = occ.holder_id

unfoldable pub force_release : Registry → Released
unfolding holder_of
force_release r = release (holder_of r.held) true r

-- `_drop_waiter`
unfoldable pub drop_waiter : String → Registry → Registry
drop_waiter holder_id r = elim r.held [
  | none ↦ r
  | some rec ↦ record r {
    held = some (record rec { waiters = keep (λ w. not (w.holder_id == holder_id)) rec.waiters });
  }
]

-- `occupancy`: what is in memory, or else the file.
unfoldable pub occupancy : Registry → Option Occupancy → Option Occupancy
occupancy r on_disk = elim r.held [ none ↦ on_disk | some rec ↦ some rec ]

unfoldable pub is_held : Registry → Option Occupancy → Bool
is_held r on_disk = elim (occupancy r on_disk) [ none ↦ false | some _ ↦ true ]
