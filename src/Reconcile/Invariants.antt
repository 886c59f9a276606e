-- ===== src/Reconcile/Invariants.antt =====
-- A scan of internal/reconcile/reconciler.go and the invariants of what it works on.
use df_ai.Base.{Bool, List, Option, [], either_branch, false, if◌then◌else◌, ℕ, ◌∙◌, ◌∷◌, ◌≡◌}
use df_ai.Plan.Node.{Node}
use df_ai.Plan.Dag.{Dag, note_stall}
use df_ai.Plan.Dag.Queries.{active, stats}
use df_ai.Plan.Dag.Settled.{IsSettled}
use df_ai.World.Predicted.{PredictedState, TilePrediction, confirm, outstanding}
use df_ai.World.Predicted.Removal.{IsPredicted, confirm-IsPredicted}
use df_ai.Topology.Overlay.{TopologyOverlay}
use df_ai.Reconcile.Events.{EventBuffer, IsBounded, append, append-IsBounded}
use df_ai.Reconcile.Scan.{
  Config, Pass, Reconciler, confirm_matching, detect_stalls, is_confirmed, is_stalled, note_each,
  scan, stall_each, stall_event, update_node_counts,
}
use df_ai.Reconcile.Kept.{Visits, note_each-IsKept, stall_each-IsKept, update_node_counts-IsKept}

stall_each-IsBounded :
    (pass : Pass) (cfg : Config) (ns : List Node) (d : Dag) (b : EventBuffer)
    → IsBounded b
    → IsBounded (stall_each pass cfg ns d b).2
unfolding stall_each
stall_each-IsBounded pass cfg [] d b h = h
stall_each-IsBounded pass cfg (n ∷ ns) d b h =
    let stops = is_stalled cfg pass.now n in
    stall_each-IsBounded pass cfg ns
      (if stops then (note_stall pass.later (pass.keys d) n.id d).1 else d)
      (if stops then append (stall_event pass n) b else b)
      (either_branch IsBounded stops (append-IsBounded (stall_event pass n) b h) h)

confirm_matching-IsPredicted :
    (later : ℕ) (o : Option TopologyOverlay) (preds : List TilePrediction) (p : PredictedState)
    → IsPredicted p
    → IsPredicted (confirm_matching later o preds p).1
unfolding confirm_matching
confirm_matching-IsPredicted later o [] p h = h
confirm_matching-IsPredicted later o (pred ∷ preds) p h =
    confirm_matching-IsPredicted later o preds
      (if is_confirmed o pred then confirm later pred.coord p else (false, p)).1
      (either_branch (λ (r : Bool × PredictedState). IsPredicted r.1) (is_confirmed o pred)
        (confirm-IsPredicted later pred.coord p h) h)

-- Where the orders of the loops over the map of the plan visit every node, a pending node has a
-- dependency that is not done and all dependencies of a ready or active node are done, the counters
-- and the index of the predictions are right, and the event buffer is within its positive capacity,
-- all of this is so after a scan, and the plan has as many failed nodes as before.
pub scan_lem :
    (pass : Pass) (r : Reconciler)
    → Visits pass r.dag
    → IsSettled r.dag
    → IsPredicted r.predicted
    → IsBounded r.events
    → let q = scan pass r in
      IsSettled q.dag
      × IsPredicted q.predicted
      × IsBounded q.events
      × ((stats q.dag).failed ≡ (stats r.dag).failed)
unfolding scan detect_stalls
scan_lem pass r v s h b =
    let m =
      confirm_matching pass.later r.topology (pass.prediction_order (outstanding r.predicted))
        r.predicted in
    let noted = note_each pass (pass.id_order m.0) r.dag in
    let counted = update_node_counts pass m.1 noted in
    let one = note_each-IsKept pass (pass.id_order m.0) r.dag v in
    let two = update_node_counts-IsKept pass m.1 noted one.visits in
    let three = stall_each-IsKept pass r.cfg (active counted) counted r.events two.visits in
    (
      three.settled (two.settled (one.settled s)),
      confirm_matching-IsPredicted pass.later r.topology
          (pass.prediction_order (outstanding r.predicted)) r.predicted h,
      stall_each-IsBounded pass r.cfg (active counted) counted r.events b,
      three.failed ∙ two.failed ∙ one.failed,
    )
