-- ===== src/Claim/Tests.antt =====
-- Claims at concrete inputs.
use native.Mathlib.Decide.{ℕ_discrete}
use teleagent_collab.Common.{
  ℕ, zero, suc, ◌≡◌, refl, inl, inr, arith, true, false, Option, none, some, List, [], ◌∷◌, String,
  string_eq, ◌==◌, nat_eq, if◌then◌else◌, strip, lower,
}
use teleagent_collab.Claim.{
  queue, Request, Occupancy, Registry, normalize_mode, first_section, second_section, release,
  new_occupancy, granted_to, blocked_for, empty_registry,
}
use teleagent_collab.Claim.World.{
  FileLock, Action, enters, locks, writes, publishes, run, act, start, enter, try_lock, write_file,
  publish,
}
use teleagent_collab.Claim.World.Owned.{has_holder}
use teleagent_collab.Claim.World.Exclusive.{run-one_holder}
use teleagent_collab.Claim.Counting.{Call, claims, call, tally, IsKept, IsHeldBy, counted-release}
use teleagent_collab.Claim.Counting as Counting
use teleagent_collab.Claim.Waiting.{Round, Ended, claim}
use teleagent_collab.Claim.Waiting.Ends.{claim-ends}
use teleagent_collab.Claim.Waiting.First.{conclusion, IsWaiting, claim-first}

abbrev lock_owner : Option ℕ × ℕ → Option ℕ
lock_owner (o, n) = o

abbrev lock_acquire : Option ℕ × ℕ → (Option ℕ × ℕ) × Option ℕ
lock_acquire (none, n) = ((some n, suc n), some n)
lock_acquire (some o, n) = ((some o, n), none)

abbrev lock_unlock : ℕ → Option ℕ × ℕ → Option ℕ × ℕ
lock_unlock h (none, n) = (none, n)
lock_unlock h (some o, n) = (if o == h then none else some o, n)

lock_acquired :
    (s : Option ℕ × ℕ) (h : ℕ)
    → (lock_acquire s).1 ≡ some h
    → (lock_owner s ≡ none) × (lock_owner (lock_acquire s).0 ≡ some h)
lock_acquired (none, n) h e = (refl, e)
lock_acquired (some o, n) h e = cc

lock_refused :
    (s : Option ℕ × ℕ) → (lock_acquire s).1 ≡ none → lock_owner (lock_acquire s).0 ≡ lock_owner s
lock_refused (none, n) e = cc
lock_refused (some o, n) e = refl

-- A lock whose handles are numbered
abbrev numbered_lock : FileLock
numbered_lock = record {
  State = Option ℕ × ℕ;
  owner = lock_owner;
  acquire = lock_acquire;
  unlock = lock_unlock;
  close = λ h s. s;
  acquired = lock_acquired;
  refused = lock_refused;
}

abbrev request : String → Request
request hid = record {
  holder_id = hid;
  job_name = "job";
  backend_id = "inprocess.local_v1";
  backend_instance_id = "";
  pid = 7;
  thread_id = 1;
  requested_at = 5;
  write_paths = "a.txt" ∷ [];
}

-- Two processes race for the directory, and the first to lock it wins.
abbrev race : List Action
race =
    enters 0 0 (request "a")
    ∷ enters 1 1 (request "b")
    ∷ locks 6 1
    ∷ locks 6 0
    ∷ writes 1
    ∷ publishes 1
    ∷ []

race_won :
    has_holder ((run numbered_lock race (start numbered_lock (none, 0) none)).registry 1) ≡ true
unfolding run act enter try_lock write_file publish first_section second_section ℕ_discrete
    string_eq
race_won = refl

race_lost :
    has_holder ((run numbered_lock race (start numbered_lock (none, 0) none)).registry 0) ≡ false
unfolding run act enter try_lock write_file publish first_section second_section ℕ_discrete
    string_eq
race_lost = refl

run-one_holder_example : ◌≡◌ {A = ℕ} 1 1
run-one_holder_example = run-one_holder numbered_lock (none, 0) none race 1 1 race_won race_won

abbrev occupancy_a : Occupancy
occupancy_a = new_occupancy 6 (request "a")

abbrev held_by_a : Registry
held_by_a = record { held = some occupancy_a; lock = some 3 }

abbrev nested : List Call
nested = claims (request "a") ∷ claims (request "b") ∷ Call.releases "b" ∷ Call.releases "a" ∷ []

nested-IsKept : IsKept "a" nested 1
unfolding IsKept string_eq
nested-IsKept = (omega arith, (omega arith, (omega arith, (omega arith, omega arith))))

held_by_a-IsHeldBy : IsHeldBy "a" 1 (some 3) held_by_a
unfolding new_occupancy
held_by_a-IsHeldBy = (occupancy_a, refl, refl, refl, refl)

tally-nested : tally "a" nested 1 ≡ 1
unfolding tally string_eq
tally-nested = refl

counted-release_example :
    release "a" false (Counting.run nested held_by_a)
    ≡ record { answer = true; registry = empty_registry; clears_file = true; unlocks = some 3 }
counted-release_example =
    (counted-release "a" (some 3) nested 1 held_by_a nested-IsKept held_by_a-IsHeldBy).1
      tally-nested

abbrev round_at : ℕ → Round
round_at zero = record {
  attempt = some (blocked_for (request "b") (some occupancy_a));
  now = 10;
  seen = none;
}
round_at (suc _) = record {
  attempt = some (granted_to (request "b") occupancy_a);
  now = 12;
  seen = none;
}

claim-ends_example : (e : Ended) × (claim "queue" 8 3 "b" round_at 2 ≡ some e)
claim-ends_example = claim-ends "queue" 8 3 "b" round_at 1 (inr (omega arith))

queue_mode : normalize_mode " Wait " ≡ queue
unfolding normalize_mode strip lower string_eq
queue_mode = refl

first_waits : IsWaiting 11 round_at 0 1
unfolding IsWaiting
first_waits = (refl, tt)

claim-first_example :
    claim " Wait " 8 3 "b" round_at 3
    ≡ some (conclusion true (granted_to (request "b") occupancy_a))
claim-first_example =
    claim-first " Wait " 8 3 "b" round_at 1 1 (granted_to (request "b") occupancy_a) queue_mode
      first_waits refl (inl refl)
