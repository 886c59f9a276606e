-- ===== src/Commands/Tracker/Ids.antt =====
-- GenerateCommandID of internal/commands/tracker.go.
use df_ai.Base.{arith, suc, zero, ℕ, ◌%◌, ◌+◌, ◌<◌, ◌^◌, ◌∙◌, ◌≡◌, ◌≢◌}
use df_ai.Commands.Tracker.{CommandTracker, generate_command_id}

-- The id of a call of GenerateCommandID after `n` others.
unfoldable pub nth_id : ℕ → CommandTracker → ℕ
unfolding generate_command_id
nth_id zero t = (generate_command_id t).0
nth_id (suc n) t = nth_id n (generate_command_id t).1

nth_id_lem : (n : ℕ) (t : CommandTracker) → nth_id n t ≡ (t.next_id + n + 1) % 2 ^ 32
unfolding nth_id
nth_id_lem zero t = omega arith
nth_id_lem (suc n) t = nth_id_lem n (generate_command_id t).1 ∙ omega arith

-- Of the ids that calls of GenerateCommandID give, two that are less than 2 ^ 32 calls apart
-- differ.
pub nth_id_distinct :
    (i j : ℕ) (t : CommandTracker) → i < j → j < i + 2 ^ 32 → nth_id i t ≢ nth_id j t
nth_id_distinct i j t lt near e = omega (arith, nth_id_lem i t, nth_id_lem j t)
