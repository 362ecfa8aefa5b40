-- ===== src/Claim/World/Exclusive.antt =====
-- Which processes hold the directory, whatever the order of the threads' steps.
use native.Mathlib.Decide.{ℕ_discrete}
use teleagent_collab.Common.{
  ℕ, ◌≡◌, refl, ap, ◌∙◌, true, Option, some, List, string_eq, nat_eq, arith,
}
use teleagent_collab.Claim.{Occupancy}
use teleagent_collab.Claim.World.{FileLock, World, start, Action, run}
use teleagent_collab.Claim.World.Owned.{
  has_holder, Claimant, nobody, thread, process, IsOwned, run-IsOwned,
}

module _ (lock : FileLock) where
  one_holder :
      (w : World lock) (c : Claimant) (p q : ℕ)
      → IsOwned lock w c
      → has_holder (w.registry p) ≡ true
      → has_holder (w.registry q) ≡ true
      → p ≡ q
  one_holder w nobody p q (free, u) a b = absurd (ground (arith, free p))
  one_holder w (thread t) p q (g, free, u) a b = absurd (ground (arith, free p))
  one_holder w (process k) p q (g, o, others, u) a b = ground (arith, others p, others q)

  -- Whatever the order of the threads' steps from new registries, at most one process holds the
  -- directory.
  pub run-one_holder :
      (k : lock.State) (on_disk : Option Occupancy) (actions : List Action) (p q : ℕ)
      → has_holder ((run lock actions (start lock k on_disk)).registry p) ≡ true
      → has_holder ((run lock actions (start lock k on_disk)).registry q) ≡ true
      → p ≡ q
  run-one_holder k on_disk actions p q a b =
      let w = run lock actions (start lock k on_disk) in
      let (c, h) = run-IsOwned lock actions (start lock k on_disk) nobody (λ j. refl, λ j. refl) in
      one_holder w c p q h a b

  -- A process that holds the directory has the handle that owns the lock.
  holder_owns :
      (w : World lock) (c : Claimant) (p : ℕ)
      → IsOwned lock w c
      → has_holder (w.registry p) ≡ true
      → (h : ℕ) × ((w.registry p).lock ≡ some h) × (lock.owner w.kernel ≡ some h)
  holder_owns w nobody p (free, u) a = absurd (ground (arith, free p))
  holder_owns w (thread t) p (g, free, u) a = absurd (ground (arith, free p))
  holder_owns w (process k) p (g, (h, l, o), others, u) a = elim (ℕ_discrete p k) [
    | yes e ↦ (h, ap (λ j. (w.registry j).lock) e ∙ l, o)
    | no d ↦ absurd (ground (arith, others p d))
  ]

  -- After any steps from new registries, a process that holds the directory still has the handle
  -- that owns the lock file's lock, so the kernel refuses the other processes until its release.
  pub run-holder_owns :
      (k : lock.State) (on_disk : Option Occupancy) (actions : List Action) (p : ℕ)
      → has_holder ((run lock actions (start lock k on_disk)).registry p) ≡ true
      → (h : ℕ) × (((run lock actions (start lock k on_disk)).registry p).lock ≡ some h)
        × (lock.owner (run lock actions (start lock k on_disk)).kernel ≡ some h)
  run-holder_owns k on_disk actions p a =
      let w = run lock actions (start lock k on_disk) in
      let (c, h) = run-IsOwned lock actions (start lock k on_disk) nobody (λ j. refl, λ j. refl) in
      holder_owns w c p h a
