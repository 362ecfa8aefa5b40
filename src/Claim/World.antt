-- ===== src/Claim/World.antt =====
-- execution_backend/workdir_claim.py: threads of several processes that claim one directory. The
-- exclusive lock of the lock file is the operating system's: `FileLock` is what the code relies on
-- (platform_services/file_lock.py). A critical section under `_mu` and a call of the lock happen at
-- once; between them the other threads run.
pub mod Exclusive
pub mod Owned
use native.Mathlib.Decide.{ℕ_discrete}
use teleagent_collab.Common.{
  ℕ, ◌≡◌, ◌≢◌, Bool, true, false, Option, none, some, List, [], ◌∷◌, String, nat_eq, ◌==◌,
  if◌then◌else◌,
}
use teleagent_collab.Claim.{
  Request, Occupancy, Registry, empty_registry, Outcome, HandleUse, kept, closed, Second,
  first_section, new_occupancy, second_section, Released, release, force_release, drop_waiter,
}

-- A non-blocking exclusive lock. Only the handle that `acquire` gives owns it, until that handle is
-- unlocked; a refused `acquire` leaves the owner.
pub record FileLock : Type 1 where
  pub State : Type 0
  pub owner : State → Option ℕ
  pub acquire : State → State × Option ℕ
  pub unlock : ℕ → State → State
  pub close : ℕ → State → State
  pub acquired :
      (s : State) (h : ℕ)
      → (acquire s).1 ≡ some h
      → (owner s ≡ none) × (owner (acquire s).0 ≡ some h)
  pub refused : (s : State) → (acquire s).1 ≡ none → owner (acquire s).0 ≡ owner s

-- Where a thread is in `_try_acquire`: outside, before the lock, or between the lock and the second
-- critical section.
pub data Phase : Type 0 where
  idle : Phase
  wants : (process : ℕ) → Request → Phase
  locked : (process : ℕ) → Request → (handle : ℕ) → Occupancy → Phase

abbrev pub set_at {ℓ} : {V : Type ℓ} → ℕ → V → (ℕ → V) → ℕ → V
set_at k v f j = if j == k then v else f j

-- What a thread may do next. `releases` and `forces` are calls in process `p`.
pub data Action : Type 0 where
  enters : (t p : ℕ) → Request → Action
  locks : (now t : ℕ) → Action
  writes publishes : (t : ℕ) → Action
  releases : (p : ℕ) → (holder_id : String) → (force : Bool) → Action
  forces : (p : ℕ) → Action
  drops : (p : ℕ) → (holder_id : String) → Action

module _ (lock : FileLock) where
  pub record World : Type 0 where
    pub kernel : lock.State
    pub registry : ℕ → Registry
    pub phase : ℕ → Phase
    pub file : Option Occupancy

  -- A process's registry is new; nobody has locked the file.
  abbrev pub start : lock.State → Option Occupancy → World
  start k on_disk = record {
    kernel = k;
    registry = λ p. empty_registry;
    phase = λ t. idle;
    file = on_disk;
  }

  phase_after : ℕ → Request → Option Outcome → Phase
  phase_after p q none = wants p q
  phase_after p q (some _) = idle

  -- Thread `t` of process `p` enters the first critical section.
  unfoldable pub enter : ℕ → ℕ → Request → World → World
  unfolding phase_after
  enter t p q w =
      let (r, outcome) = first_section q (w.registry p) in
      record w {
        registry = set_at p r w.registry;
        phase = set_at t (phase_after p q outcome) w.phase;
      }

  lock_with : ℕ → ℕ → ℕ → Request → World → lock.State × Option ℕ → World
  lock_with now t p q w (k, none) = record w { kernel = k; phase = set_at t idle w.phase }
  lock_with now t p q w (k, some h) = record w {
    kernel = k;
    phase = set_at t (locked p q h (new_occupancy now q)) w.phase;
  }

  -- The thread tries the lock; a refusal ends the attempt.
  unfoldable pub try_lock : ℕ → ℕ → Phase → World → World
  unfolding lock_with
  try_lock now t (wants p q) w = lock_with now t p q w (lock.acquire w.kernel)
  try_lock now t idle w = w
  try_lock now t (locked p q h occ) w = w

  -- The thread writes the occupancy file; the write may also fail, and then does not happen.
  unfoldable pub write_file : Phase → World → World
  write_file (locked p q h occ) w = record w { file = some occ }
  write_file idle w = w
  write_file (wants p q) w = w

  used : HandleUse → ℕ → lock.State → lock.State
  used kept h k = k
  used closed h k = lock.close h k

  -- The thread enters the second critical section.
  unfoldable pub publish : ℕ → Phase → World → World
  unfolding used
  publish t (locked p q h occ) w =
      let s = second_section q h occ (w.registry p) in
      record w {
        kernel = used s.handle_use h w.kernel;
        registry = set_at p s.registry w.registry;
        phase = set_at t idle w.phase;
      }
  publish t idle w = w
  publish t (wants p q) w = w

  unlocked : Option ℕ → lock.State → lock.State
  unlocked none k = k
  unlocked (some h) k = lock.unlock h k

  unfoldable pub released : ℕ → Released → World → World
  unfolding unlocked
  released p r w = record w {
    kernel = unlocked r.unlocks w.kernel;
    registry = set_at p r.registry w.registry;
    file = if r.clears_file then none else w.file;
  }

  enter_if_idle : Phase → ℕ → ℕ → Request → World → World
  enter_if_idle idle t p q w = enter t p q w
  enter_if_idle (wants _ _) t p q w = w
  enter_if_idle (locked _ _ _ _) t p q w = w

  unfoldable pub act : Action → World → World
  unfolding enter_if_idle
  act (enters t p q) w = enter_if_idle (w.phase t) t p q w
  act (locks now t) w = try_lock now t (w.phase t) w
  act (writes t) w = write_file (w.phase t) w
  act (publishes t) w = publish t (w.phase t) w
  act (releases p hid force) w = released p (release hid force (w.registry p)) w
  act (forces p) w = released p (force_release (w.registry p)) w
  act (drops p hid) w = record w { registry = set_at p (drop_waiter hid (w.registry p)) w.registry }

  unfoldable pub run : List Action → World → World
  run [] w = w
  run (a ∷ rest) w = run rest (act a w)
