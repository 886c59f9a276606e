-- ===== src/Commands/Executor/Counts.antt =====
-- GetStats of internal/commands/tracker.go while the executor runs.
use df_ai.Base.{
  All, IsKeyed-All, List, [], arith, get_elem?, if◌then◌else◌, length, nat_key, refl, some, suc,
  zero, ℕ, ◌+◌, ◌∷◌, ◌≡◌,
}
use df_ai.Commands.Types.{
  Command, CommandStatus, command_acked, command_failed, command_pending, command_sent,
  command_timeout, same_command_status,
}
use df_ai.Commands.Tracker.{count_status, get_stats, new_command_tracker}
use df_ai.Commands.Executor.{Event, id_at, run_events}
use df_ai.Commands.Executor.Indexed.{new_command_tracker-IsIndexed, run_events-IsIndexed}

abbrev HasCell : List Command → ℕ → ℕ → Type 0
HasCell cells id p = (c : Command) × (get_elem? cells p ≡ some c)

id_at-HasCell : (cells : List Command) (id p : ℕ) → id_at p cells ≡ some id → HasCell cells id p
id_at-HasCell [] id p h = cc
id_at-HasCell (c ∷ cells) id zero h = (c, refl)
id_at-HasCell (c ∷ cells) id (suc p) h = id_at-HasCell cells id p h

one_more :
    (s : CommandStatus) (a b c d e : ℕ) {n : ℕ}
    → a + b + c + d + e ≡ n
    → (if same_command_status s command_pending then suc a else a)
        + (if same_command_status s command_sent then suc b else b)
        + (if same_command_status s command_acked then suc c else c)
        + (if same_command_status s command_timeout then suc d else d)
        + (if same_command_status s command_failed then suc e else e)
      ≡ suc n
one_more command_pending a b c d e h = omega arith
one_more s a b c d e h = omega arith

count_statuses :
    (cells : List Command) (m : List (ℕ × ℕ))
    → All (λ (entry : ℕ × ℕ). HasCell cells entry.0 entry.1) m
    → count_status command_pending cells m
        + count_status command_sent cells m
        + count_status command_acked cells m
        + count_status command_timeout cells m
        + count_status command_failed cells m
      ≡ length m
unfolding count_status
count_statuses cells [] h = refl
count_statuses cells ((id, p) ∷ m) h =
    let (c, found) = h.0 in rw found (one_more c.status _ _ _ _ _ (count_statuses cells m h.1))

-- Whatever the events of the executor were, the total of GetStats is the sum of its four counts and
-- of the number of commands that are not sent yet.
pub get_stats_lem :
    (es : List Event)
    → let t = run_events es new_command_tracker in
      let s = get_stats t in
      count_status command_pending t.cells t.commands + s.pending + s.acked + s.timeout + s.failed
      ≡ s.total
unfolding get_stats
get_stats_lem es =
    let t = run_events es new_command_tracker in
    let v = run_events-IsIndexed es new_command_tracker new_command_tracker-IsIndexed in
    count_statuses t.cells t.commands (
      IsKeyed-All (HasCell t.cells) t.commands v.keyed
        (λ id p e. id_at-HasCell t.cells id p (v.points id p e)))
