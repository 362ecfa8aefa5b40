-- ===== src/Claim/Counting.antt =====
-- execution_backend/workdir_claim.py: how many releases a holder's claims need, whatever the others
-- call between them.
use teleagent_collab.Common.{
  ℕ, keep, not, ◌+◌, ◌-◌, ◌≤◌, ◌≡◌, arith, true, false, Option, some, List, [], ◌∷◌, String,
  string_eq, ◌==◌, if◌then◌else◌,
}
use teleagent_collab.Claim.{
  Request, Occupancy, Registry, empty_registry, first_section, on_held, release, release_held,
  drop_waiter, rejoined, add_waiter,
}

-- The calls that are not forced
pub data Call : Type 0 where
  claims : Request → Call
  releases drops : (holder_id : String) → Call

unfoldable pub call : Call → Registry → Registry
call (claims q) r = (first_section q r).0
call (releases hid) r = (release hid false r).registry
call (drops hid) r = drop_waiter hid r

unfoldable pub run : List Call → Registry → Registry
run [] r = r
run (c ∷ cs) r = run cs (call c r)

-- What a call of somebody adds to the count of a holder
abbrev counted : String → Call → ℕ → ℕ
counted hid (claims q) n = if hid == q.holder_id then n + 1 else n
counted hid (releases h) n = if hid == h then n - 1 else n
counted hid (drops _) n = n

-- The holder's claims less its releases, when `n` stood before
unfoldable pub tally : String → List Call → ℕ → ℕ
tally hid [] n = n
tally hid (c ∷ cs) n = tally hid cs (counted hid c n)

-- The holder has not released all of its claims at any time.
unfoldable pub IsKept : String → List Call → ℕ → Type 0
IsKept hid [] n = 1 ≤ n
IsKept hid (c ∷ cs) n = (1 ≤ n) × IsKept hid cs (counted hid c n)

-- The directory is held by `hid`, with `n` claims and the lock `l`.
abbrev pub IsHeldBy : String → ℕ → Option ℕ → Registry → Type 0
IsHeldBy hid n l r =
    (occ : Occupancy) × (r.held ≡ some occ)
    × (occ.holder_id ≡ hid)
    × (occ.refcount ≡ n)
    × (r.lock ≡ l)

call-IsHeldBy :
    (hid : String) (l : Option ℕ) (c : Call) (n : ℕ) (r : Registry)
    → 1 ≤ counted hid c n
    → IsHeldBy hid n l r
    → IsHeldBy hid (counted hid c n) l (call c r)
unfolding call first_section on_held release release_held drop_waiter rejoined add_waiter
call-IsHeldBy hid l (claims q) n r pos (occ, h, o, k, e) =
    let own = rejoined q.write_paths occ in
    let other = add_waiter q occ in
    (
      if occ.holder_id == q.holder_id then own else other,
      ground arith,
      ground arith,
      ground arith,
      ground arith,
    )
call-IsHeldBy hid l (releases h') n r pos (occ, h, o, k, e) =
    let less : Occupancy = record occ { refcount = occ.refcount - 1 } in
    (
      if occ.holder_id == h' then less else occ,
      ground arith,
      ground arith,
      ground arith,
      ground arith,
    )
call-IsHeldBy hid l (drops h') n r pos (occ, h, o, k, e) = (
  record occ { waiters = keep (λ w. not (w.holder_id == h')) occ.waiters },
  ground arith,
  o,
  k,
  ground arith,
)

kept_now : (hid : String) (cs : List Call) (n : ℕ) → IsKept hid cs n → 1 ≤ n
unfolding IsKept
kept_now hid [] n h = h
kept_now hid (c ∷ cs) n (pos, kept) = pos

last_release :
    (hid : String) (l : Option ℕ) (n : ℕ) (r : Registry)
    → IsHeldBy hid n l r
    → n ≡ 1
    → release hid false r
      ≡ record { answer = true; registry = empty_registry; clears_file = true; unlocks = l }
unfolding release release_held
last_release hid l n r (occ, h, o, k, e) one = ground arith

run-IsHeldBy :
    (hid : String) (l : Option ℕ) (cs : List Call) (n : ℕ) (r : Registry)
    → IsKept hid cs n
    → IsHeldBy hid n l r
    → IsHeldBy hid (tally hid cs n) l (run cs r)
unfolding run tally IsKept
run-IsHeldBy hid l [] n r kept h = h
run-IsHeldBy hid l (c ∷ cs) n r (pos, kept) h =
    run-IsHeldBy hid l cs (counted hid c n) (call c r) kept
      (call-IsHeldBy hid l c n r (kept_now hid cs (counted hid c n) kept) h)

-- In a process where `hid` holds the directory with `n` claims, after any calls that are not forced
-- and among which its releases never reach its claims, it still holds it with the same lock; when
-- one claim is left, its next release empties the registry, clears the file and unlocks that lock.
pub counted-release :
    (hid : String) (l : Option ℕ) (cs : List Call) (n : ℕ) (r : Registry)
    → IsKept hid cs n
    → IsHeldBy hid n l r
    → IsHeldBy hid (tally hid cs n) l (run cs r)
      × (tally hid cs n ≡ 1
          → release hid false (run cs r)
            ≡ record { answer = true; registry = empty_registry; clears_file = true; unlocks = l })
counted-release hid l cs n r kept h =
    let after = run-IsHeldBy hid l cs n r kept h in
    (after, last_release hid l (tally hid cs n) (run cs r) after)
