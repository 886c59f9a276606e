-- ===== src/Plan/Executor.antt =====
-- internal/plan/executor.go: what the executor makes of a ready node by the answer to its command. The
-- command itself, which internal/commands sends, is known by its answer, and the texts of
-- fmt.Sprintf are a function of what they tell.
pub mod Outcome
pub mod Ready
pub mod Drain
use df_ai.Plan.Node.{Action, Node, Status, is_terminal, status_done, status_failed}
use df_ai.Plan.Dag.{Dag, mark_active, update}
use df_ai.Plan.Dag.Queries.{ready}
use df_ai.Commands.Types.{CommandResult}
use df_ai.Base.{
  Bool, List, Option, String, [], if◌then◌else◌, none, not, same, some, ℕ, ◌&&◌, ◌==◌, ◌∷◌,
}

-- What a call of the command executor returns.
pub data Reply : Type 0 where
  send_failed : String → Reply
  acknowledged : Option CommandResult → Reply

-- What the AlertStore of the world model answers: how many DismissAll dismisses, and which ids Dismiss finds.
pub record AlertAnswers : Type 0 where
  pub active_count : ℕ
  pub is_active : ℕ → Bool

-- The cases of the switch over Action.Type.
pub data ActionKind : Type 0 where
  dig_action : ActionKind
  build_action : ActionKind
  zone_action : ActionKind
  stockpile_action : ActionKind
  smooth_action : ActionKind
  unsuspend_action : ActionKind
  order_action : ActionKind
  chop_action : ActionKind
  gather_action : ActionKind
  dismiss_action : ActionKind
  wait_action : ActionKind
  unknown_action : ActionKind

abbrev pub action_names : List (String × ActionKind)
action_names =
    (100 ∷ 105 ∷ 103 ∷ [], dig_action)
    ∷ (98 ∷ 117 ∷ 105 ∷ 108 ∷ 100 ∷ [], build_action)
    ∷ (122 ∷ 111 ∷ 110 ∷ 101 ∷ [], zone_action)
    ∷ (115 ∷ 116 ∷ 111 ∷ 99 ∷ 107 ∷ 112 ∷ 105 ∷ 108 ∷ 101 ∷ [], stockpile_action)
    ∷ (115 ∷ 109 ∷ 111 ∷ 111 ∷ 116 ∷ 104 ∷ [], smooth_action)
    ∷ (117 ∷ 110 ∷ 115 ∷ 117 ∷ 115 ∷ 112 ∷ 101 ∷ 110 ∷ 100 ∷ [], unsuspend_action)
    ∷ (111 ∷ 114 ∷ 100 ∷ 101 ∷ 114 ∷ [], order_action)
    ∷ (99 ∷ 104 ∷ 111 ∷ 112 ∷ [], chop_action)
    ∷ (103 ∷ 97 ∷ 116 ∷ 104 ∷ 101 ∷ 114 ∷ [], gather_action)
    ∷ (100 ∷ 105 ∷ 115 ∷ 109 ∷ 105 ∷ 115 ∷ 115 ∷ [], dismiss_action)
    ∷ (119 ∷ 97 ∷ 105 ∷ 116 ∷ [], wait_action)
    ∷ []

unfoldable pub find_action : List (String × ActionKind) → String → ActionKind
find_action [] s = unknown_action
find_action (entry ∷ rest) s = if same s entry.0 then entry.1 else find_action rest s

unfoldable pub action_kind : String → ActionKind
unfolding find_action
action_kind s = find_action action_names s

-- What the result text of a node tells.
pub data Note : Type 0 where
  send_error : String → Note
  rejected : ActionKind → Option String → Note
  accepted : ActionKind → Action → Note
  dig_accepted : ℕ → Note
  dig_caveat : ℕ → String → Note
  all_dismissed : ℕ → Note
  one_dismissed : ℕ → Note
  alert_unknown : ℕ → Note
  no_alert_store : Note
  waited : Note
  unknown_type : String → Note

-- What the executor meets while it works on a node: the clock, the orders in which MarkActive and the
-- Update after it go through the map, the answer to the
-- command, the number of predictions written for a dig, the alerts, and the texts.
pub record World : Type 0 where
  pub now : ℕ
  pub order_before : List String
  pub order : List String
  pub reply : Reply
  pub predictions : ℕ
  pub alerts : Option AlertAnswers
  pub render : Note → String

abbrev pub end_as : Status → World → Note → Node → Node
end_as s w note n =
    if is_terminal n then n else record n { status = s; done_at = w.now; result = w.render note }

-- Executor.markDone
unfoldable pub note_done : World → String → Note → Dag → Dag
unfolding update is_terminal
note_done w id note d = (update w.order id (end_as status_done w note) d).1

-- Executor.markFailed
unfoldable pub note_failed : World → String → Note → Dag → Dag
unfolding update is_terminal
note_failed w id note d = (update w.order id (end_as status_failed w note) d).1

-- executeZone, executeBuild and the others whose acknowledgement ends the node.
unfoldable pub execute_acknowledged : World → Reply → ActionKind → Node → Dag → Dag
unfolding note_done note_failed
execute_acknowledged w (send_failed text) kind n d = note_failed w n.id (send_error text) d
execute_acknowledged w (acknowledged none) kind n d = note_failed w n.id (rejected kind none) d
execute_acknowledged w (acknowledged (some res)) kind n d =
    if res.success
    then note_done w n.id (accepted kind n.action) d
    else note_failed w n.id (rejected kind (some res.error_msg)) d

-- AckStatusPartial
abbrev pub status_partial : ℕ
status_partial = 0x01

abbrev pub predicted : World → Note → Node → Node
predicted w note n = record n { prediction_count = w.predictions; result = w.render note }

-- A dig stays active: its predictions decide.
unfoldable pub execute_dig : World → Reply → Node → Dag → Dag
unfolding note_failed update
execute_dig w (send_failed text) n d = note_failed w n.id (send_error text) d
execute_dig w (acknowledged none) n d = note_failed w n.id (rejected dig_action none) d
execute_dig w (acknowledged (some res)) n d =
    if not res.success && not (res.status == status_partial)
    then note_failed w n.id (rejected dig_action (some res.error_msg)) d
    else let note =
        if res.success
        then dig_accepted w.predictions
        else dig_caveat w.predictions res.error_msg in
      (update w.order n.id (predicted w note) d).1

-- An alert id of 0 stands for all alerts.
unfoldable pub execute_dismiss : World → Option AlertAnswers → Node → Dag → Dag
unfolding note_done note_failed
execute_dismiss w none n d = note_done w n.id no_alert_store d
execute_dismiss w (some store) n d =
    if n.action.alert_id == 0
    then note_done w n.id (all_dismissed store.active_count) d
    else (if store.is_active n.action.alert_id
        then note_done w n.id (one_dismissed n.action.alert_id) d
        else note_failed w n.id (alert_unknown n.action.alert_id) d)

unfoldable pub dispatch : World → ActionKind → Node → Dag → Dag
unfolding execute_dig execute_dismiss execute_acknowledged note_done note_failed
dispatch w dig_action n d = execute_dig w w.reply n d
dispatch w dismiss_action n d = execute_dismiss w w.alerts n d
dispatch w wait_action n d = note_done w n.id waited d
dispatch w unknown_action n d = note_failed w n.id (unknown_type n.action.kind) d
dispatch w kind n d = execute_acknowledged w w.reply kind n d

unfoldable pub execute_node : World → Node → Dag → Dag
unfolding mark_active dispatch action_kind
execute_node w n d =
    let (marked, after) = mark_active w.now w.order_before n.id d in
    if marked then dispatch w (action_kind n.action.kind) n after else after

-- The loop of drain; every node meets a world of its own.
unfoldable pub execute_all : (Node → World) → List Node → Dag → Dag
unfolding execute_node
execute_all worlds [] d = d
execute_all worlds (n ∷ ns) d = execute_all worlds ns (execute_node (worlds n) n d)

unfoldable pub drain : (Node → World) → Dag → Dag
unfolding execute_all
drain worlds d = execute_all worlds (ready d) d
