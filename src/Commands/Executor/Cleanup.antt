-- ===== src/Commands/Executor/Cleanup.antt =====
-- cleanupOldCommands of internal/commands/tracker.go while the executor runs.
use df_ai.Base.{
  ==_iff, Bool, Bool-cases, IsKeyed, List, Option, [], ap, arith, false, get_elem?, if◌then◌else◌,
  inl, inr, lookup, lookup-remove, nat_key, none, refl, same, some, ℕ, ℤ, ◌==◌, ◌∙◌, ◌∷◌, ◌≡◌,
}
use df_ai.Commands.Types.{Command}
use df_ai.Commands.Tracker.{
  at_pointer, clean_all, cleanup_old_commands, get_command, holds, is_old, new_command_tracker,
}
use df_ai.Commands.Executor.{Event, run_events}
use df_ai.Commands.Executor.Indexed.{new_command_tracker-IsIndexed, run_events-IsIndexed}

abbrev is_old_at : ℕ → ℤ → List Command → Option ℕ → Bool
is_old_at now max_age cells none = false
is_old_at now max_age cells (some p) = holds (is_old now max_age) (get_elem? cells p)

lookup-clean_all :
    (now : ℕ) (max_age : ℤ) (cells : List Command) (entries m : List (ℕ × ℕ)) (id : ℕ)
    → IsKeyed entries
    → lookup id (clean_all now max_age cells entries m).1
      ≡ (if is_old_at now max_age cells (lookup id entries) then none else lookup id m)
unfolding clean_all lookup
lookup-clean_all now max_age cells [] m id h = refl
lookup-clean_all now max_age cells ((j, p) ∷ entries) m id h =
    let after = (clean_all now max_age cells entries m).1 in
    let rest = lookup-clean_all now max_age cells entries m id h.1 in
    elim (Bool-cases (j == id)) [
      | inl same ↦
          let free : lookup id entries ≡ none = rw (← (==_iff j id).0 same) h.0 in
          ground (arith, lookup-remove j id after, rest, free)
      | inr other ↦ ground (arith, lookup-remove j id after, rest)
    ]

kept_at :
    (now : ℕ) (max_age : ℤ) (cells : List Command) (o : Option ℕ)
    → at_pointer cells (if is_old_at now max_age cells o then none else o)
      ≡ (if holds (is_old now max_age) (at_pointer cells o) then none else at_pointer cells o)
kept_at now max_age cells none = refl
kept_at now max_age cells (some p) =
    elim (Bool-cases (holds (is_old now max_age) (get_elem? cells p))) [
      | inl old ↦ rw old refl
      | inr recent ↦ rw recent refl
    ]

-- Whatever the events of the executor were, cleanupOldCommands takes away the command of an id
-- exactly if it is complete and its age is above the limit.
pub cleanup_old_commands_lem :
    (es : List Event) (now id : ℕ) (max_age : ℤ)
    → get_command (cleanup_old_commands now max_age (run_events es new_command_tracker)).1 id ≡ (
        if holds (is_old now max_age) (get_command (run_events es new_command_tracker) id)
        then none
        else get_command (run_events es new_command_tracker) id)
unfolding get_command cleanup_old_commands
cleanup_old_commands_lem es now id max_age =
    let t = run_events es new_command_tracker in
    let v = run_events-IsIndexed es new_command_tracker new_command_tracker-IsIndexed in
    ap (at_pointer t.cells) (lookup-clean_all now max_age t.cells t.commands t.commands id v.keyed)
    ∙ kept_at now max_age t.cells (lookup id t.commands)
