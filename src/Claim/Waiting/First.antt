-- ===== src/Claim/Waiting/First.antt =====
-- The round that ends the loop.
use teleagent_collab.Common.{
  ℕ, zero, suc, ◌⊎◌, sym, ap, subst, ◌∙◌, ◌+◌, ◌≤◌, ◌≡◌, refl, arith, Bool, true, false, Option,
  none, some, String, ltb,
}
use teleagent_collab.Claim.{queue, normalize_mode, granted, queued, Outcome}
use teleagent_collab.Claim.Waiting.{
  Ended, Round, ended, refused_round, outcome_round, one_round, claim_loop, claim,
}

-- A round that is refused before the deadline
abbrev waits : ℕ → Round → Bool
waits deadline round = elim round.attempt [
  | none ↦ false
  | some o ↦ elim o.status [ granted ↦ false | _ ↦ ltb round.now deadline ]
]

-- The `m` rounds from the `n`th are such.
unfoldable pub IsWaiting : ℕ → (ℕ → Round) → (n m : ℕ) → Type 0
IsWaiting deadline rounds n zero = Unit
IsWaiting deadline rounds n (suc m) =
    (waits deadline (rounds n) ≡ true) × IsWaiting deadline rounds (suc n) m

-- `queued_once` after some refused rounds
abbrev pub queued_after : Bool → ℕ → Bool
queued_after b zero = b
queued_after b (suc m) = true

-- What the loop ends with at an attempt that is granted or comes too late
unfoldable pub conclusion : Bool → Outcome → Ended
conclusion was_queued o = elim o.status [
  | granted ↦ record { outcome = record o { was_queued = was_queued }; drops_waiter = false }
  | _ ↦ ended queued o.requester_id o.occupancy true true
]

waiting_round :
    (deadline : ℕ) (hid : String) (b : Bool) (round : Round) (rest : Bool → Option Ended)
    → waits deadline round ≡ true
    → one_round queue deadline hid b round.attempt round rest ≡ rest true
unfolding one_round outcome_round refused_round
waiting_round deadline hid b round rest w = ground arith

last_round :
    (deadline : ℕ) (hid : String) (b : Bool) (round : Round) (rest : Bool → Option Ended)
    (o : Outcome)
    → round.attempt ≡ some o
    → (o.status ≡ granted) ⊎ (deadline ≤ round.now)
    → one_round queue deadline hid b round.attempt round rest ≡ some (conclusion b o)
unfolding one_round outcome_round refused_round conclusion
last_round deadline hid b round rest o e h = ground arith

queued_after-true : (m : ℕ) → queued_after true m ≡ true
queued_after-true zero = refl
queued_after-true (suc m) = refl

loop_concludes :
    (deadline : ℕ) (hid : String) (rounds : ℕ → Round) (fuel n m j f : ℕ) (b : Bool) (o : Outcome)
    → j ≡ n + m
    → f ≡ m + suc fuel
    → IsWaiting deadline rounds n m
    → (rounds j).attempt ≡ some o
    → (o.status ≡ granted) ⊎ (deadline ≤ (rounds j).now)
    → claim_loop queue deadline hid rounds f n b ≡ some (conclusion (queued_after b m) o)
unfolding claim_loop IsWaiting
loop_concludes deadline hid rounds fuel n m j zero b o e e' w a h = absurd (omega (arith, e'))
loop_concludes deadline hid rounds fuel n zero j (suc f) b o e e' w a h =
    let here : rounds n ≡ rounds j = ap rounds (omega (arith, e)) in
    last_round deadline hid b (rounds n) (claim_loop queue deadline hid rounds f (suc n)) o
      (ap (λ r. r.attempt) here ∙ a)
      (subst (λ r. (o.status ≡ granted) ⊎ (deadline ≤ r.now)) (sym here) h)
loop_concludes deadline hid rounds fuel n (suc m) j (suc f) b o e e' (w, ws) a h =
    waiting_round deadline hid b (rounds n) (claim_loop queue deadline hid rounds f (suc n)) w
    ∙ loop_concludes deadline hid rounds fuel (suc n) m j f true o (omega (arith, e))
        (omega (arith, e')) ws a h
    ∙ ap (λ c. some (conclusion c o)) (queued_after-true m)

-- A claim that waits ends at its first round whose attempt is granted or whose clock reading has
-- reached the deadline: granted, with `was_queued` when an earlier attempt was refused, or else
-- queued, with its entry taken back from the waiters. Any further fuel changes nothing.
pub claim-first :
    (mode : String) (start timeout : ℕ) (hid : String) (rounds : ℕ → Round) (fuel n : ℕ)
    (o : Outcome)
    → normalize_mode mode ≡ queue
    → IsWaiting (start + timeout) rounds 0 n
    → (rounds n).attempt ≡ some o
    → (o.status ≡ granted) ⊎ (start + timeout ≤ (rounds n).now)
    → claim mode start timeout hid rounds (n + suc fuel)
      ≡ some (conclusion (queued_after false n) o)
unfolding claim
claim-first mode start timeout hid rounds fuel n o m w a h =
    ap (λ k. claim_loop k (start + timeout) hid rounds (n + suc fuel) 0 false) m
    ∙ loop_concludes (start + timeout) hid rounds fuel 0 n n (n + suc fuel) false o (omega arith)
        refl w a h
