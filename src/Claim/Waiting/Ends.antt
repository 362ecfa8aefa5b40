-- ===== src/Claim/Waiting/Ends.antt =====
-- How many rounds the loop needs.
use teleagent_collab.Common.{
  ℕ, zero, suc, ◌⊎◌, inl, inr, subst, ◌+◌, ◌≤◌, ◌≡◌, refl, arith, Bool, true, false, Option, none,
  some, String,
}
use teleagent_collab.Claim.{Mode, block, queue, normalize_mode, Status, Outcome}
use teleagent_collab.Claim.Waiting.{
  Ended, Round, refused_round, outcome_round, lost_round, one_round, claim_loop, claim,
}

-- Whether there is a result
abbrev ends : Option Ended → Bool
ends none = false
ends (some _) = true

result_of : (m : Option Ended) → ends m ≡ true → (e : Ended) × (m ≡ some e)
result_of none h = cc
result_of (some e) h = (e, refl)

outcome_round-ends :
    (mode : Mode) (deadline : ℕ) (b : Bool) (o : Outcome) (status : Status) (round : Round)
    (rest : Option Ended)
    → (mode ≡ block) ⊎ (deadline ≤ round.now) ⊎ (ends rest ≡ true)
    → ends (outcome_round mode deadline b o status round rest) ≡ true
unfolding outcome_round refused_round
outcome_round-ends mode deadline b o status round rest h = ground arith

lost_round-ends :
    (mode : Mode) (deadline : ℕ) (hid : String) (round : Round) (rest : Option Ended)
    → (mode ≡ block) ⊎ (deadline ≤ round.now) ⊎ (ends rest ≡ true)
    → ends (lost_round mode deadline hid round rest) ≡ true
unfolding lost_round
lost_round-ends mode deadline hid round rest h = ground arith

one_round-ends :
    (mode : Mode) (deadline : ℕ) (hid : String) (b : Bool) (attempt : Option Outcome)
    (round : Round) (rest : Bool → Option Ended)
    → (mode ≡ block) ⊎ (deadline ≤ round.now) ⊎ ((b' : Bool) → ends (rest b') ≡ true)
    → ends (one_round mode deadline hid b attempt round rest) ≡ true
unfolding one_round
one_round-ends mode deadline hid b (some o) round rest h =
    outcome_round-ends mode deadline b o o.status round (rest true)
      (elim h [ inl e ↦ inl e | inr (inl le) ↦ inr (inl le) | inr (inr f) ↦ inr (inr (f true)) ])
one_round-ends mode deadline hid b none round rest h =
    lost_round-ends mode deadline hid round (rest b)
      (elim h [ inl e ↦ inl e | inr (inl le) ↦ inr (inl le) | inr (inr f) ↦ inr (inr (f b)) ])

queue_ends :
    (deadline : ℕ) (hid : String) (rounds : ℕ → Round) (fuel n m : ℕ) (b : Bool)
    → m ≡ n + fuel
    → deadline ≤ (rounds m).now
    → ends (claim_loop queue deadline hid rounds (suc fuel) n b) ≡ true
unfolding claim_loop
queue_ends deadline hid rounds zero n m b e le =
    one_round-ends queue deadline hid b (rounds n).attempt (rounds n)
      (claim_loop queue deadline hid rounds 0 (suc n))
      (inr (inl (subst (λ j. deadline ≤ (rounds j).now) (ground arith) le)))
queue_ends deadline hid rounds (suc k) n m b e le =
    one_round-ends queue deadline hid b (rounds n).attempt (rounds n)
      (claim_loop queue deadline hid rounds (suc k) (suc n))
      (inr (inr (λ b'. queue_ends deadline hid rounds k (suc n) m b' (omega (arith, e)) le)))

loop_ends :
    (mode : Mode) (deadline : ℕ) (hid : String) (rounds : ℕ → Round) (n : ℕ)
    → (mode ≡ block) ⊎ (deadline ≤ (rounds n).now)
    → ends (claim_loop mode deadline hid rounds (suc n) 0 false) ≡ true
unfolding claim_loop
loop_ends block deadline hid rounds n h =
    one_round-ends block deadline hid false (rounds 0).attempt (rounds 0)
      (claim_loop block deadline hid rounds n 1) (inl refl)
loop_ends queue deadline hid rounds n (inr le) =
    queue_ends deadline hid rounds n 0 n false (omega arith) le
loop_ends queue deadline hid rounds n (inl e) = absurd (cc)

-- When the clock has passed the deadline at the reading of the `n`th round, or the claim does not
-- wait, `claim` has returned after `n + 1` rounds.
pub claim-ends :
    (mode : String) (start timeout : ℕ) (hid : String) (rounds : ℕ → Round) (n : ℕ)
    → (normalize_mode mode ≡ block) ⊎ (start + timeout ≤ (rounds n).now)
    → (e : Ended) × (claim mode start timeout hid rounds (suc n) ≡ some e)
unfolding claim
claim-ends mode start timeout hid rounds n h =
    result_of (claim mode start timeout hid rounds (suc n))
      (loop_ends (normalize_mode mode) (start + timeout) hid rounds n h)
