-- ===== src/Reconcile/Tests.antt =====
-- The theorems on the reconciler at a plan of one node.
use df_ai.Base.{[], arith, pos, refl, some, string_key, ◌∷◌, ◌≡◌, ◌≤◌}
use df_ai.Plan.Node.{Node, status_active, status_done}
use df_ai.Plan.Dag.{Dag, all_deps_done, find}
use df_ai.Plan.Dag.Queries.{stats}
use df_ai.Plan.Dag.Settled.{IsSettled, agrees}
use df_ai.World.Predicted.{apply_changes, diverged, new_predicted_state, outstanding, select_status}
use df_ai.World.Predicted.Removal.{IsPredicted, apply_changes-IsPredicted}
use df_ai.Topology.Overlay.{empty_overlay}
use df_ai.Reconcile.Events.{
  DivergenceEvent, IsBounded, append_all, append_all-new_event_buffer, event_count, last_ones,
  new_event_buffer, reason_stalled,
}
use df_ai.Reconcile.Scan.{
  Pass, Reconciler, count_node, count_one, default_config, new_reconciler, scan, with_defaults,
}
use df_ai.Reconcile.Kept.{Visits}
use df_ai.Reconcile.Invariants.{scan_lem}
use df_ai.Reconcile.Done.{HasStatus, count_one_lem}

abbrev shaft : Node
shaft = record {
  id = 115 ∷ [];
  action = record {
    kind = 100 ∷ 105 ∷ 103 ∷ [];
    dig_type = [];
    build_type = 0;
    zone_type = 0;
    order_type = 0;
    quantity = 0;
    stockpile_groups = 0;
    smooth_type = 0;
    alert_id = 0;
    region = record { x1 = pos 1; y1 = pos 1; z1 = pos 0; x2 = pos 2; y2 = pos 1; z2 = pos 0 };
    description = [];
  };
  dependencies = [];
  status = status_active;
  created_at = 1;
  started_at = 2;
  done_at = 0;
  last_progress_at = 2;
  stall_noted_at = 0;
  result = [];
  prediction_count = 2;
  predictions_confirmed = 0;
  predictions_diverged = 0;
  committing_turn = 1;
}

abbrev site : Dag
site = record { nodes = shaft ∷ []; insert_order = shaft.id ∷ [] }

abbrev pass : Pass
pass = record {
  now = 100;
  later = 101;
  keys = λ e. shaft.id ∷ [];
  prediction_order = λ preds. preds;
  id_order = λ ids. ids;
  note_text = λ idle n. [];
  seconds = λ idle. pos 0;
}

site-Visits : Visits pass site
site-Visits e = (refl, tt)

site-IsSettled : IsSettled site
unfolding all_deps_done agrees
site-IsSettled = (refl, tt)

abbrev reconciler : Reconciler
reconciler = new_reconciler default_config new_predicted_state (some (empty_overlay 3 2 1)) site

no_changes : IsPredicted new_predicted_state
unfolding apply_changes
no_changes = apply_changes-IsPredicted []

empty-IsBounded : IsBounded reconciler.events
unfolding new_reconciler with_defaults new_event_buffer event_count
empty-IsBounded = record { positive = omega arith; fits = omega arith }

scan_lem_example :
    let q = scan pass reconciler in
    IsSettled q.dag
    × IsPredicted q.predicted
    × IsBounded q.events
    × ((stats q.dag).failed ≡ (stats reconciler.dag).failed)
unfolding new_reconciler
scan_lem_example = scan_lem pass reconciler site-Visits site-IsSettled no_changes empty-IsBounded

count_one_lem_example :
    HasStatus (count_one pass new_predicted_state shaft site) shaft.id status_done
unfolding find count_node outstanding diverged select_status
count_one_lem_example =
    count_one_lem pass new_predicted_state shaft site site-Visits refl refl (omega arith)

abbrev stall : DivergenceEvent
stall = record {
  coord = record { x = pos 1; y = pos 1; z = pos 0 };
  action = [];
  plan_node_id = shaft.id;
  predicted_at = 2;
  emitted_at = 100;
  reason = reason_stalled;
  idle_seconds = pos 0;
  predicted_flags = 0;
  observed_flags = 0;
  note = [];
}

append_all-new_event_buffer_example :
    let b = append_all (stall ∷ stall ∷ []) (new_event_buffer (pos 1)) in
    (b.events ≡ last_ones (new_event_buffer (pos 1)).capacity (stall ∷ stall ∷ []))
    × (event_count b ≤ (new_event_buffer (pos 1)).capacity)
append_all-new_event_buffer_example = append_all-new_event_buffer (pos 1) (stall ∷ stall ∷ [])
