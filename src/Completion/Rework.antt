-- ===== src/Completion/Rework.antt =====
-- completion.py: `ReworkBudget`. Times are exact nanoseconds in place of floats, and the clock readings
-- of one call are taken to be one reading.
use teleagent_collab.Common.{
  ℕ, ◌+◌, ◌-◌, min, Bool, true, false, not, ◌&&◌, List, [], ◌∷◌, ◌++◌, ltb, leb, if◌then◌else◌,
}

-- The lines of `notes`
pub data ReworkNote : Type 0 where
  rework_denied : ReworkNote
  rework_consumed : (used cap : ℕ) → ReworkNote

pub record ReworkBudget : Type 0 where
  pub wall_deadline : ℕ
  pub max_reworks : ℕ
  pub reworks_used : ℕ
  pub started_at : ℕ
  pub notes : List ReworkNote

unfoldable pub start : ℕ → ℕ → ℕ → ReworkBudget
start now timeout_sec max_reworks = record {
  wall_deadline = now + timeout_sec;
  max_reworks = max_reworks;
  reworks_used = 0;
  started_at = now;
  notes = [];
}

unfoldable pub remaining_sec : ℕ → ReworkBudget → ℕ
remaining_sec now b = b.wall_deadline - now

unfoldable pub exhausted_wall : ℕ → ReworkBudget → Bool
exhausted_wall now b = leb b.wall_deadline now

unfoldable pub can_rework : ℕ → ReworkBudget → Bool
unfolding exhausted_wall
can_rework now b = ltb b.reworks_used b.max_reworks && not (exhausted_wall now b)

unfoldable pub consume_rework : ℕ → ReworkBudget → ReworkBudget × Bool
unfolding can_rework
consume_rework now b =
    if not (can_rework now b)
    then (record b { notes = b.notes ++ rework_denied ∷ [] }, false)
    else (
      record b {
        reworks_used = b.reworks_used + 1;
        notes = b.notes ++ rework_consumed (b.reworks_used + 1) b.max_reworks ∷ [];
      },
      true,
    )

-- `desired_extra` is not negative here: the source replaces a negative one by 0.
unfoldable pub clamp_subdeadline : ℕ → ℕ → ReworkBudget → ℕ
clamp_subdeadline now desired_extra b = min (now + desired_extra) b.wall_deadline
