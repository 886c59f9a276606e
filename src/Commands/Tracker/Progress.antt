-- ===== src/Commands/Tracker/Progress.antt =====
-- CheckProgress and CalculateExpectedTiles of internal/commands/tracker.go, and UpdateStatus.
use mathlib.Core.Path.{subst}
use df_ai.Base.{
  Bool, List, Option, [], arith, false, if◌then◌else◌, lookup, ltb_ℤ, nat_key, negsuc, none, not,
  of_word, pos, refl, some, sub_ℕ, suc, sym, to_word, true, ℕ, ℤ, ◌%◌, ◌&&◌, ◌*◌, ◌+◌, ◌-◌, ◌^◌,
  ◌∷◌, ◌≡◌, ◌≢◌,
}
use df_ai.Protocol.Command.Areas.{Region}
use df_ai.Commands.Types.{
  Command, CommandStatus, PendingCommand, TaskStatus, task_completed, task_failed, task_in_progress,
  task_not_started, task_stalled,
}
use df_ai.Commands.Tracker.{CommandTracker, write_command}

abbrev pub same_task_status : TaskStatus → TaskStatus → Bool
same_task_status task_not_started task_not_started = true
same_task_status task_in_progress task_in_progress = true
same_task_status task_completed task_completed = true
same_task_status task_stalled task_stalled = true
same_task_status task_failed task_failed = true
same_task_status s t = false

-- 60 * time.Second
abbrev pub sixty_seconds : ℤ
sixty_seconds = pos 60000000000

-- A task of which some tiles, but not all, are completed.
abbrev pub progressing : ℕ → PendingCommand → PendingCommand
progressing now pc =
    if same_task_status pc.task_status task_not_started
    then record pc { task_status = task_in_progress; start_time = now; last_progress_time = now }
    else record pc { last_progress_time = now }

abbrev pub waits_too_long : ℕ → PendingCommand → Bool
waits_too_long now pc =
    same_task_status pc.task_status task_in_progress
    && ltb_ℤ sixty_seconds (sub_ℕ now pc.last_progress_time)

-- The checks, after the number of completed tiles is stored.
abbrev pub checked : ℕ → PendingCommand → TaskStatus × PendingCommand
checked now pc =
    if not (ltb_ℤ pc.completed_tiles pc.expected_tiles)
    then (task_completed, record pc { task_status = task_completed; last_progress_time = now })
    else if ltb_ℤ (pos 0) pc.completed_tiles
    then (task_in_progress, progressing now pc)
    else if waits_too_long now pc
    then (task_stalled, record pc { task_status = task_stalled })
    else (pc.task_status, pc)

abbrev pub check_command : ℕ → ℤ → PendingCommand → Option Command → TaskStatus × PendingCommand
check_command now completed pc none = (task_failed, pc)
check_command now completed pc (some c) = checked now (record pc { completed_tiles = completed })

unfoldable pub check_progress : ℕ → ℤ → PendingCommand → TaskStatus × PendingCommand
check_progress now completed pc = check_command now completed pc pc.command

-- The differences are in int16, the product in int.
abbrev pub span : ℤ → ℤ → ℤ
span from to =
    of_word (2 ^ 15) ((to_word (2 ^ 15) to + (2 ^ 16 - to_word (2 ^ 15) from) + 1) % 2 ^ 16)

infixl 70 ◌*ℤ◌
abbrev pub ◌*ℤ◌ : ℤ → ℤ → ℤ
pos m *ℤ pos n = pos (m * n)
pos m *ℤ negsuc n = sub_ℕ 0 (m * suc n)
negsuc m *ℤ pos n = sub_ℕ 0 (suc m * n)
negsuc m *ℤ negsuc n = pos (suc m * suc n)

unfoldable pub calculate_expected_tiles : Region → ℤ
calculate_expected_tiles r = (span r.x1 r.x2 *ℤ span r.y1 r.y2) *ℤ span r.z1 r.z2

unfoldable pub update_status : ℕ → CommandStatus → CommandTracker → Bool × CommandTracker
unfolding lookup
update_status id s t = elim (lookup id t.commands) [
  | none ↦ (false, t)
  | some p ↦ (true, write_command p (λ c. record c { status = s }) t)
]

-- Checks one after the other, with their times and the numbers of tiles.
unfoldable pub run_checks : List (ℕ × ℤ) → TaskStatus × PendingCommand → TaskStatus × PendingCommand
unfolding check_progress
run_checks [] last = last
run_checks (check ∷ checks) last = run_checks checks (check_progress check.0 check.1 last.1)

-- Numbers of tiles that do not fall below the number before.
abbrev pub IsGrowing : ℤ → List (ℕ × ℤ) → Type 0
IsGrowing least [] = Unit {0}
IsGrowing least (check ∷ checks) = (ltb_ℤ check.1 least ≡ false) × IsGrowing check.1 checks

-- A status other than stalled, and in progress only if some tiles are completed.
abbrev moves : TaskStatus → Bool → Bool
moves task_in_progress some_tiles = some_tiles
moves task_stalled some_tiles = false
moves s some_tiles = true

abbrev is_moving : PendingCommand → Bool
is_moving pc = moves pc.task_status (ltb_ℤ (pos 0) pc.completed_tiles)

abbrev has_moved : TaskStatus × PendingCommand → Bool
has_moved last = not (same_task_status last.0 task_stalled) && is_moving last.1

still_positive :
    (before after : ℤ)
    → ltb_ℤ after before ≡ false
    → ltb_ℤ (pos 0) before ≡ true
    → ltb_ℤ (pos 0) after ≡ true
still_positive before after grows h = ground arith

has_moved-checked :
    (s : TaskStatus) (now : ℕ) (before : ℤ) (pc : PendingCommand)
    → pc.task_status ≡ s
    → ltb_ℤ pc.completed_tiles before ≡ false
    → moves s (ltb_ℤ (pos 0) before) ≡ true
    → has_moved (checked now pc) ≡ true
has_moved-checked task_not_started now before pc e grows h = ground arith
has_moved-checked task_in_progress now before pc e grows h =
    let positive = still_positive before pc.completed_tiles grows h in ground (arith, positive)
has_moved-checked task_completed now before pc e grows h = ground arith
has_moved-checked task_stalled now before pc e grows h = ground arith
has_moved-checked task_failed now before pc e grows h = ground arith

has_moved-check_command :
    (now : ℕ) (completed : ℤ) (pc : PendingCommand) (c : Option Command)
    → ltb_ℤ completed pc.completed_tiles ≡ false
    → is_moving pc ≡ true
    → has_moved (check_command now completed pc c) ≡ true
has_moved-check_command now completed pc none grows h = h
has_moved-check_command now completed pc (some c) grows h =
    has_moved-checked pc.task_status now pc.completed_tiles
      (record pc { completed_tiles = completed }) refl grows h

not_below : (a b c : ℤ) → ltb_ℤ b a ≡ false → ltb_ℤ c b ≡ false → ltb_ℤ c a ≡ false
not_below a b c h k = ground arith

lower-IsGrowing :
    (a b : ℤ) (checks : List (ℕ × ℤ)) → ltb_ℤ b a ≡ false → IsGrowing b checks → IsGrowing a checks
lower-IsGrowing a b [] h g = g
lower-IsGrowing a b (check ∷ checks) h g = (not_below a b check.1 h g.0, g.1)

checked-completed_tiles :
    (now : ℕ) (pc : PendingCommand) → (checked now pc).1.completed_tiles ≡ pc.completed_tiles
checked-completed_tiles now pc = ground arith

command-IsGrowing :
    (now : ℕ) (completed : ℤ) (pc : PendingCommand) (c : Option Command) (checks : List (ℕ × ℤ))
    → ltb_ℤ completed pc.completed_tiles ≡ false
    → IsGrowing completed checks
    → IsGrowing (check_command now completed pc c).1.completed_tiles checks
command-IsGrowing now completed pc none checks h g =
    lower-IsGrowing pc.completed_tiles completed checks h g
command-IsGrowing now completed pc (some c) checks h g =
    subst (λ n. IsGrowing n checks)
      (sym (checked-completed_tiles now (record pc { completed_tiles = completed }))) g

has_moved-run_checks :
    (checks : List (ℕ × ℤ)) (last : TaskStatus × PendingCommand)
    → IsGrowing last.1.completed_tiles checks
    → has_moved last ≡ true
    → has_moved (run_checks checks last) ≡ true
unfolding run_checks check_progress
has_moved-run_checks [] last grows h = h
has_moved-run_checks (check ∷ checks) last grows h =
    has_moved-run_checks checks (check_progress check.0 check.1 last.1)
      (command-IsGrowing check.0 check.1 last.1 last.1.command checks grows.0 grows.1)
      (has_moved-check_command check.0 check.1 last.1 last.1.command grows.0 (ground (arith, h)))

-- For a task that is not started, checks with numbers of completed tiles that never fall, at any
-- times, never answer that the task is stalled.
pub run_checks_never_stalled :
    (pc : PendingCommand) (checks : List (ℕ × ℤ))
    → pc.task_status ≡ task_not_started
    → IsGrowing pc.completed_tiles checks
    → (run_checks checks (task_not_started, pc)).0 ≢ task_stalled
run_checks_never_stalled pc checks fresh grows e =
    let moved = has_moved-run_checks checks (task_not_started, pc) grows (rw (fresh) refl) in
    ground (arith, moved, e)
