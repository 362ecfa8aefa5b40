-- ===== src/Claim/Waiting.antt =====
-- execution_backend/workdir_claim.py: the loop of `claim`, which tries again until the deadline. The
-- outcomes of the attempts and the readings of the clock, one of each in a round, are the world's.
pub mod Ends
pub mod First
use teleagent_collab.Common.{
  ℕ, zero, suc, ◌⊎◌, inl, inr, sym, ap, subst, ◌∙◌, ◌+◌, ◌≤◌, ◌≡◌, refl, arith, Bool, true, false,
  Option, none, some, String, ltb, leb, if◌then◌else◌,
}
use teleagent_collab.Claim.{
  Mode, block, queue, normalize_mode, Occupancy, Status, granted, blocked, queued, Outcome,
}

-- What `claim` returns, and whether it took its entry back from the holder's waiters.
pub record Ended : Type 0 where
  pub outcome : Outcome
  pub drops_waiter : Bool

-- `none` of an attempt means that a race was lost and the claim is tried again.
pub record Round : Type 0 where
  pub attempt : Option Outcome
  pub now : ℕ
  pub seen : Option Occupancy

abbrev occupancy_or : Option Occupancy → Option Occupancy → Option Occupancy
occupancy_or none seen = seen
occupancy_or (some occ) seen = some occ

abbrev ended : Status → String → Option Occupancy → Bool → Bool → Ended
ended status requester_id occ was_queued drops = record {
  outcome = record {
    status = status;
    requester_id = requester_id;
    occupancy = occ;
    was_queued = was_queued;
  };
  drops_waiter = drops;
}

-- An attempt that was refused
refused_round : Mode → ℕ → Outcome → Round → Option Ended → Option Ended
refused_round block deadline o round rest =
    some (ended blocked o.requester_id (occupancy_or o.occupancy round.seen) o.was_queued false)
refused_round queue deadline o round rest =
    if leb deadline round.now
    then some (ended queued o.requester_id o.occupancy true true)
    else rest

outcome_round : Mode → ℕ → Bool → Outcome → Status → Round → Option Ended → Option Ended
unfolding refused_round
outcome_round mode deadline queued_once o granted round rest =
    some (record { outcome = record o { was_queued = queued_once }; drops_waiter = false })
outcome_round mode deadline queued_once o blocked round rest =
    refused_round mode deadline o round rest
outcome_round mode deadline queued_once o queued round rest =
    refused_round mode deadline o round rest

-- A lost race
lost_round : Mode → ℕ → String → Round → Option Ended → Option Ended
lost_round block deadline hid round rest = some (ended blocked hid round.seen false false)
lost_round queue deadline hid round rest =
    if leb deadline round.now then some (ended queued hid round.seen true false) else rest

-- The body of the loop. The race that was lost leaves `queued_once` as it was.
one_round : Mode → ℕ → String → Bool → Option Outcome → Round → (Bool → Option Ended) → Option Ended
unfolding outcome_round lost_round
one_round mode deadline hid queued_once (some o) round rest =
    outcome_round mode deadline queued_once o o.status round (rest true)
one_round mode deadline hid queued_once none round rest =
    lost_round mode deadline hid round (rest queued_once)

-- The first `fuel` rounds of the loop, from the `n`th; `none` when they did not end it.
unfoldable pub claim_loop : Mode → ℕ → String → (ℕ → Round) → (fuel n : ℕ) → Bool → Option Ended
unfolding one_round
claim_loop mode deadline hid rounds zero n queued_once = none
claim_loop mode deadline hid rounds (suc fuel) n queued_once =
    one_round mode deadline hid queued_once (rounds n).attempt (rounds n)
      (claim_loop mode deadline hid rounds fuel (suc n))

-- `claim`, from its first clock reading; a timeout that is negative or missing is 0.
unfoldable pub claim : String → ℕ → ℕ → String → (ℕ → Round) → (fuel : ℕ) → Option Ended
claim mode start timeout hid rounds fuel =
    claim_loop (normalize_mode mode) (start + timeout) hid rounds fuel 0 false
