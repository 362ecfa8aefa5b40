-- ===== src/Claim/World/Owned.antt =====
-- Who has the directory, and that every step leaves it to one.
use teleagent_collab.Common.{
  ℕ, ◌≡◌, ◌≢◌, refl, ap, ◌∙◌, ◌⊎◌, inl, inr, Bool, true, false, Option, none, some, List, [], ◌∷◌,
  String, string_eq, nat_eq, arith,
}
use teleagent_collab.Claim.{
  Request, Occupancy, Registry, Outcome, kept, first_section, second_section, Released, release,
  release_held, force_release, drop_waiter, holder_of,
}
use teleagent_collab.Claim.World.{
  FileLock, Phase, idle, wants, locked, set_at, World, phase_after, enter, lock_with, try_lock,
  write_file, used, publish, unlocked, released, Action, enters, locks, writes, publishes, releases,
  forces, drops, enter_if_idle, act, run,
}

abbrev handle_of : Phase → Option ℕ
handle_of idle = none
handle_of (wants _ _) = none
handle_of (locked _ _ h _) = some h

-- Whether somebody holds the directory in a process
abbrev pub has_holder : Registry → Bool
has_holder r = elim r.held [ none ↦ false | some _ ↦ true ]

-- A change of a registry that keeps whether it is held, and its lock.
abbrev Keeps : Registry → Registry → Type 0
Keeps r r' = (has_holder r' ≡ has_holder r) × (r'.lock ≡ r.lock)

first_section-Keeps : (q : Request) (r : Registry) → Keeps r (first_section q r).0
unfolding first_section
first_section-Keeps q r = ground arith

drop_waiter-Keeps : (hid : String) (r : Registry) → Keeps r (drop_waiter hid r)
unfolding drop_waiter
drop_waiter-Keeps hid r = ground arith

-- Who has the directory: nobody, a thread between the lock and its second section, or a process.
pub data Claimant : Type 0 where
  nobody : Claimant
  thread process : ℕ → Claimant

module _ (lock : FileLock) where
  -- The claimant is the only one, and its handle owns the lock.
  abbrev pub IsOwned : World lock → Claimant → Type 0
  IsOwned w nobody =
      ((p : ℕ) → has_holder (w.registry p) ≡ false) × ((t : ℕ) → handle_of (w.phase t) ≡ none)
  IsOwned w (process k) =
      (has_holder (w.registry k) ≡ true)
      × ((h : ℕ) × ((w.registry k).lock ≡ some h) × (lock.owner w.kernel ≡ some h))
      × ((p : ℕ) → p ≢ k → has_holder (w.registry p) ≡ false)
      × ((t : ℕ) → handle_of (w.phase t) ≡ none)
  IsOwned w (thread k) =
      ((h : ℕ) × (handle_of (w.phase k) ≡ some h) × (lock.owner w.kernel ≡ some h))
      × ((p : ℕ) → has_holder (w.registry p) ≡ false)
      × ((t : ℕ) → t ≢ k → handle_of (w.phase t) ≡ none)

  -- A registry is changed and the rest stays.
  registry-IsOwned :
      (w : World lock) (c : Claimant) (p : ℕ) (r : Registry)
      → Keeps (w.registry p) r
      → IsOwned w c
      → IsOwned (record w { registry = set_at p r w.registry }) c
  registry-IsOwned w nobody p r (s, l) (free, u) = (λ k. ground (arith, free k, free p), u)
  registry-IsOwned w (process k) p r (s, l) (e, (h, lk, o), others, u) =
      (ground arith, (h, ground arith, o), λ j d. ground (arith, others j d), u)
  registry-IsOwned w (thread k) p r (s, l) (g, free, u) =
      (g, λ j. ground (arith, free j, free p), u)

  -- A phase that is not locked is changed to another such.
  phase-IsOwned :
      (w : World lock) (c : Claimant) (t : ℕ) (f : Phase)
      → handle_of (w.phase t) ≡ none
      → handle_of f ≡ none
      → IsOwned w c
      → IsOwned (record w { phase = set_at t f w.phase }) c
  phase-IsOwned w nobody t f a b (free, u) = (free, λ k. ground (arith, u k))
  phase-IsOwned w (process k) t f a b (g, o, others, u) = (g, o, others, λ j. ground (arith, u j))
  phase-IsOwned w (thread k) t f a b ((h, e, o), free, u) =
      ((h, ground arith, o), free, λ j d. ground (arith, u j d))

  kernel-IsOwned :
      (w : World lock) (c : Claimant) (k : lock.State)
      → lock.owner k ≡ lock.owner w.kernel
      → IsOwned w c
      → IsOwned (record w { kernel = k }) c
  kernel-IsOwned w nobody k e (free, u) = (free, u)
  kernel-IsOwned w (process p) k e (g, (h, lk, o), others, u) = (g, (h, lk, e ∙ o), others, u)
  kernel-IsOwned w (thread t) k e ((h, f, o), free, u) = ((h, f, e ∙ o), free, u)

  phase_after_unlocked :
      (p : ℕ) (q : Request) (o : Option Outcome) → handle_of (phase_after lock p q o) ≡ none
  unfolding phase_after
  phase_after_unlocked p q none = refl
  phase_after_unlocked p q (some x) = refl

  enter-IsOwned :
      (w : World lock) (c : Claimant) (t p : ℕ) (q : Request)
      → handle_of (w.phase t) ≡ none
      → IsOwned w c
      → IsOwned (enter lock t p q w) c
  unfolding enter
  enter-IsOwned w c t p q f h =
      let (r, o) = first_section q (w.registry p) in
      phase-IsOwned (record w { registry = set_at p r w.registry }) c t (phase_after lock p q o) f
        (phase_after_unlocked p q o)
        (registry-IsOwned w c p r (first_section-Keeps q (w.registry p)) h)

  -- With the lock's owner none, nobody has the directory.
  nobody_of_unowned :
      (w : World lock) (c : Claimant) → lock.owner w.kernel ≡ none → IsOwned w c → IsOwned w nobody
  nobody_of_unowned w nobody o h = h
  nobody_of_unowned w (process p) o (g, (h, lk, o'), others, u) = absurd (cc)
  nobody_of_unowned w (thread t) o ((h, f, o'), free, u) = absurd (cc)

  locked-IsOwned :
      (w : World lock) (c : Claimant) (now t p : ℕ) (q : Request) (res : lock.State × Option ℕ)
      → lock.acquire w.kernel ≡ res
      → handle_of (w.phase t) ≡ none
      → IsOwned w c
      → (c' : Claimant) × IsOwned (lock_with lock now t p q w res) c'
  unfolding lock_with
  locked-IsOwned w c now t p q (k, none) e f h = (
    c,
    phase-IsOwned (record w { kernel = k }) c t idle f refl
        (kernel-IsOwned w c k (ground (arith, lock.refused w.kernel)) h),
  )
  locked-IsOwned w c now t p q (k, some x) e f h =
      let (free, u) = nobody_of_unowned w c (ground (arith, lock.acquired w.kernel x)) h in
      (
        thread t,
        (
          (x, ground arith, ground (arith, lock.acquired w.kernel x)),
          free,
          λ j d. ground (arith, u j),
        ),
      )

  -- The second section in a process where nobody holds the directory
  second_section_free :
      (q : Request) (h : ℕ) (occ : Occupancy) (r : Registry)
      → has_holder r ≡ false
      → (has_holder (second_section q h occ r).registry ≡ true)
        × ((second_section q h occ r).registry.lock ≡ some h)
        × ((second_section q h occ r).handle_use ≡ kept)
  unfolding second_section
  second_section_free q h occ r e = ground arith

  publish-IsOwned :
      (w : World lock) (c : Claimant) (t : ℕ) (f : Phase)
      → w.phase t ≡ f
      → IsOwned w c
      → (c' : Claimant) × IsOwned (publish lock t f w) c'
  unfolding publish used
  publish-IsOwned w c t idle e h = (c, h)
  publish-IsOwned w c t (wants p q) e h = (c, h)
  publish-IsOwned w nobody t (locked p q x occ) e (free, u) = absurd (ground (arith, u t))
  publish-IsOwned w (process k) t (locked p q x occ) e (g, o, others, u) =
      absurd (ground (arith, u t))
  publish-IsOwned w (thread k) t (locked p q x occ) e ((y, g, o), free, u) =
      let (g', l, s) = second_section_free q x occ (w.registry p) (free p) in
      let kernel = ap (λ v. used lock v x w.kernel) s in
      (
        process p,
        (
          ground (arith, g'),
          (x, ground (arith, l), ground (arith, u t, kernel)),
          λ j d. ground (arith, free j),
          λ j. ground (arith, u j, u t),
        ),
      )

  -- A release that keeps the claim, or one that gives it up and unlocks
  release-Keeps :
      (hid : String) (force : Bool) (r : Registry)
      → (Keeps r (release hid force r).registry × ((release hid force r).unlocks ≡ none))
        ⊎ ((has_holder r ≡ true) × (has_holder (release hid force r).registry ≡ false))
  unfolding release release_held
  release-Keeps hid force r = ground arith

  -- Nobody is left when the process that has the directory gives it up.
  given_up-IsOwned :
      (w : World lock) (c : Claimant) (p : ℕ) (r : Registry) (k : lock.State)
      → has_holder (w.registry p) ≡ true
      → has_holder r ≡ false
      → IsOwned w c
      → IsOwned (record w { kernel = k; registry = set_at p r w.registry }) nobody
  given_up-IsOwned w nobody p r k held gone (free, u) = absurd (ground (arith, free p))
  given_up-IsOwned w (thread t) p r k held gone (g, free, u) = absurd (ground (arith, free p))
  given_up-IsOwned w (process m) p r k held gone (g, o, others, u) =
      (λ j. ground (arith, others j, others p), u)

  released-IsOwned :
      (w : World lock) (c : Claimant) (p : ℕ) (x : Released)
      → (Keeps (w.registry p) x.registry × (x.unlocks ≡ none))
        ⊎ ((has_holder (w.registry p) ≡ true) × (has_holder x.registry ≡ false))
      → IsOwned w c
      → (c' : Claimant) × IsOwned (released lock p x w) c'
  unfolding released
  released-IsOwned w c p x (inl (k, u)) h = (
    c,
    kernel-IsOwned (record w { registry = set_at p x.registry w.registry }) c
        (unlocked lock x.unlocks w.kernel) (ap (λ v. lock.owner (unlocked lock v w.kernel)) u)
        (registry-IsOwned w c p x.registry k h),
  )
  released-IsOwned w c p x (inr (held, gone)) h =
      (nobody, given_up-IsOwned w c p x.registry (unlocked lock x.unlocks w.kernel) held gone h)

  entered-IsOwned :
      (w : World lock) (c : Claimant) (t p : ℕ) (q : Request) (f : Phase)
      → w.phase t ≡ f
      → IsOwned w c
      → (c' : Claimant) × IsOwned (enter_if_idle lock f t p q w) c'
  unfolding enter_if_idle
  entered-IsOwned w c t p q idle e h = (c, enter-IsOwned w c t p q (ap handle_of e) h)
  entered-IsOwned w c t p q (wants p' q') e h = (c, h)
  entered-IsOwned w c t p q (locked p' q' x occ) e h = (c, h)

  tried-IsOwned :
      (w : World lock) (c : Claimant) (now t : ℕ) (f : Phase)
      → w.phase t ≡ f
      → IsOwned w c
      → (c' : Claimant) × IsOwned (try_lock lock now t f w) c'
  unfolding try_lock
  tried-IsOwned w c now t (wants p q) e h =
      locked-IsOwned w c now t p q (lock.acquire w.kernel) refl (ap handle_of e) h
  tried-IsOwned w c now t idle e h = (c, h)
  tried-IsOwned w c now t (locked p q x occ) e h = (c, h)

  file-IsOwned :
      (w : World lock) (c : Claimant) (file : Option Occupancy)
      → IsOwned w c
      → IsOwned (record w { file = file }) c
  file-IsOwned w nobody file h = h
  file-IsOwned w (thread t) file h = h
  file-IsOwned w (process p) file h = h

  written-IsOwned :
      (w : World lock) (c : Claimant) (f : Phase) → IsOwned w c → IsOwned (write_file lock f w) c
  unfolding write_file
  written-IsOwned w c (locked p q x occ) h = file-IsOwned w c (some occ) h
  written-IsOwned w c idle h = h
  written-IsOwned w c (wants p q) h = h

  act-IsOwned :
      (a : Action) (w : World lock) (c : Claimant)
      → IsOwned w c
      → (c' : Claimant) × IsOwned (act lock a w) c'
  unfolding act force_release
  act-IsOwned (enters t p q) w c h = entered-IsOwned w c t p q (w.phase t) refl h
  act-IsOwned (locks now t) w c h = tried-IsOwned w c now t (w.phase t) refl h
  act-IsOwned (writes t) w c h = (c, written-IsOwned w c (w.phase t) h)
  act-IsOwned (publishes t) w c h = publish-IsOwned w c t (w.phase t) refl h
  act-IsOwned (releases p hid force) w c h =
      released-IsOwned w c p (release hid force (w.registry p))
        (release-Keeps hid force (w.registry p)) h
  act-IsOwned (forces p) w c h =
      released-IsOwned w c p (force_release (w.registry p))
        (release-Keeps (holder_of (w.registry p).held) true (w.registry p)) h
  act-IsOwned (drops p hid) w c h = (
    c,
    registry-IsOwned w c p (drop_waiter hid (w.registry p)) (drop_waiter-Keeps hid (w.registry p))
        h,
  )

  pub run-IsOwned :
      (actions : List Action) (w : World lock) (c : Claimant)
      → IsOwned w c
      → (c' : Claimant) × IsOwned (run lock actions w) c'
  unfolding run
  run-IsOwned [] w c h = (c, h)
  run-IsOwned (a ∷ rest) w c h =
      let (c', h') = act-IsOwned a w c h in run-IsOwned rest (act lock a w) c' h'
