-- ===== src/Plan/Executor/Outcome.antt =====
-- The status that a node gets by the answer to its command, in internal/plan/executor.go.
use df_ai.Plan.Node.{Node, Status, is_terminal, status_active, status_done, status_failed}
use df_ai.Plan.Executor.{
  ActionKind, AlertAnswers, Note, Reply, World, acknowledged, dig_action, dismiss_action, dispatch,
  end_as, execute_acknowledged, execute_dig, execute_dismiss, note_done, note_failed, predicted,
  send_failed, status_partial, unknown_action, wait_action,
}
use df_ai.Plan.Dag.{Dag, update}
use df_ai.Base.{
  Bool-cases, Option, arith, if◌then◌else◌, inl, inr, none, refl, some, ℕ, ◌==◌, ◌||◌, ◌≡◌,
}
use df_ai.Plan.Dag.Settled.{IsMutator, is_transition}

unfoldable pub acknowledged_status : Reply → Status
acknowledged_status (send_failed text) = status_failed
acknowledged_status (acknowledged none) = status_failed
acknowledged_status (acknowledged (some res)) = if res.success then status_done else status_failed

unfoldable pub dig_status : Reply → Status
dig_status (send_failed text) = status_failed
dig_status (acknowledged none) = status_failed
dig_status (acknowledged (some res)) =
    if res.success || res.status == status_partial then status_active else status_failed

unfoldable pub dismiss_status : Option AlertAnswers → ℕ → Status
dismiss_status none id = status_done
dismiss_status (some store) id =
    if id == 0 || store.is_active id then status_done else status_failed

-- Failed if the command could not be sent or was rejected, active for a dig, and else done.
unfoldable pub outcome : ActionKind → World → Node → Status
unfolding acknowledged_status dig_status dismiss_status
outcome dig_action w n = dig_status w.reply
outcome dismiss_action w n = dismiss_status w.alerts n.action.alert_id
outcome wait_action w n = status_done
outcome unknown_action w n = status_failed
outcome kind w n = acknowledged_status w.reply

-- A dag that Update of the node made, after which an active node has the status.
unfoldable pub IsUpdateTo : World → Node → Dag → Status → Dag → Type 0
IsUpdateTo w n d s e =
    (f : Node → Node) × IsMutator f
    × (e ≡ (update w.order n.id f d).1)
    × ((m : Node) → m.status ≡ status_active → (f m).status ≡ s)

end_as-IsMutator : (w : World) (note : Note) → IsMutator (end_as status_done w note)
unfolding is_transition is_terminal
end_as-IsMutator w note n = ground arith

end_as_failed-IsMutator : (w : World) (note : Note) → IsMutator (end_as status_failed w note)
unfolding is_transition is_terminal
end_as_failed-IsMutator w note n = ground arith

predicted-IsMutator : (w : World) (note : Note) → IsMutator (predicted w note)
unfolding is_transition
predicted-IsMutator w note n = ground arith

ended :
    (s : Status) (w : World) (note : Note) (m : Node)
    → m.status ≡ status_active
    → (end_as s w note m).status ≡ s
unfolding is_terminal
ended s w note m h = rw h refl

note_done_lem :
    (w : World) (n : Node) (note : Note) (d : Dag)
    → IsUpdateTo w n d status_done (note_done w n.id note d)
unfolding IsUpdateTo note_done
note_done_lem w n note d =
    (end_as status_done w note, end_as-IsMutator w note, refl, ended status_done w note)

note_failed_lem :
    (w : World) (n : Node) (note : Note) (d : Dag)
    → IsUpdateTo w n d status_failed (note_failed w n.id note d)
unfolding IsUpdateTo note_failed
note_failed_lem w n note d =
    (end_as status_failed w note, end_as_failed-IsMutator w note, refl, ended status_failed w note)

predicted_lem :
    (w : World) (n : Node) (note : Note) (d : Dag)
    → IsUpdateTo w n d status_active (update w.order n.id (predicted w note) d).1
unfolding IsUpdateTo
predicted_lem w n note d = (predicted w note, predicted-IsMutator w note, refl, λ m h. h)

acknowledged_lem :
    (w : World) (r : Reply) (kind : ActionKind) (n : Node) (d : Dag)
    → IsUpdateTo w n d (acknowledged_status r) (execute_acknowledged w r kind n d)
unfolding execute_acknowledged acknowledged_status
acknowledged_lem w (send_failed text) kind n d = note_failed_lem w n _ d
acknowledged_lem w (acknowledged none) kind n d = note_failed_lem w n _ d
acknowledged_lem w (acknowledged (some res)) kind n d = elim (Bool-cases res.success) [
  | inl a ↦ rw (a, execute_acknowledged, acknowledged_status) (note_done_lem w n _ d)
  | inr a ↦ rw (a, execute_acknowledged, acknowledged_status) (note_failed_lem w n _ d)
]

dig_lem :
    (w : World) (r : Reply) (n : Node) (d : Dag)
    → IsUpdateTo w n d (dig_status r) (execute_dig w r n d)
unfolding execute_dig dig_status
dig_lem w (send_failed text) n d = note_failed_lem w n _ d
dig_lem w (acknowledged none) n d = note_failed_lem w n _ d
dig_lem w (acknowledged (some res)) n d = elim (Bool-cases res.success) [
  | inl a ↦ rw (a, execute_dig, dig_status) (predicted_lem w n _ d)
  | inr a ↦ elim (Bool-cases (res.status == status_partial)) [
    | inl b ↦ rw (a, b, execute_dig, dig_status) (predicted_lem w n _ d)
    | inr b ↦ rw (a, b, execute_dig, dig_status) (note_failed_lem w n _ d)
  ]
]

dismiss_lem :
    (w : World) (alerts : Option AlertAnswers) (n : Node) (d : Dag)
    → IsUpdateTo w n d (dismiss_status alerts n.action.alert_id) (execute_dismiss w alerts n d)
unfolding execute_dismiss dismiss_status
dismiss_lem w none n d = note_done_lem w n _ d
dismiss_lem w (some store) n d = elim (Bool-cases (n.action.alert_id == 0)) [
  | inl a ↦ rw (a, execute_dismiss, dismiss_status) (note_done_lem w n _ d)
  | inr a ↦ elim (Bool-cases (store.is_active n.action.alert_id)) [
    | inl b ↦ rw (a, b, execute_dismiss, dismiss_status) (note_done_lem w n _ d)
    | inr b ↦ rw (a, b, execute_dismiss, dismiss_status) (note_failed_lem w n _ d)
  ]
]

pub dispatch_lem :
    (w : World) (kind : ActionKind) (n : Node) (d : Dag)
    → IsUpdateTo w n d (outcome kind w n) (dispatch w kind n d)
unfolding dispatch outcome
dispatch_lem w dig_action n d = dig_lem w w.reply n d
dispatch_lem w dismiss_action n d = dismiss_lem w w.alerts n d
dispatch_lem w wait_action n d = note_done_lem w n _ d
dispatch_lem w unknown_action n d = note_failed_lem w n _ d
dispatch_lem w kind n d = acknowledged_lem w w.reply kind n d
