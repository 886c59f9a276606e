-- ===== src/Reconcile/Scan.antt =====
-- internal/reconcile/reconciler.go, with a world model and a plan that are there. Times are numbers of
-- nanoseconds. A Pass is what a scan reads besides its state: the clock at its start and in the calls
-- that it makes, the orders in which the loops go through the maps of the nodes, of the predictions
-- and of the ids, the text of a stall, and the seconds of a duration.
use df_ai.Base.{
  Bool, List, Option, Result, String, [], err, false, if◌then◌else◌, is_listed, leb, ltb, ltb_ℤ,
  negsuc, none, not, of_word, ok, pos, pos_part, same, some, sub_ℕ, suc, to_word, ℕ, ℤ, ◌&&◌, ◌++◌,
  ◌+ℤ◌, ◌+◌, ◌-◌, ◌/◌, ◌==◌, ◌^◌, ◌||◌, ◌∷◌,
}
use df_ai.World.Coord.{Coord}
use df_ai.World.Predicted.{
  PredictedState, TilePrediction, confirm, diverged, outstanding, retire_confirmed_older_than,
}
use df_ai.Topology.Overlay.{TopologyOverlay, get_tile}
use df_ai.Plan.Node.{Action, Node}
use df_ai.Plan.Dag.{Dag, mark_done, note_progress, note_stall, update}
use df_ai.Plan.Dag.Queries.{active}
use df_ai.Reconcile.Events.{DivergenceEvent, EventBuffer, append, new_event_buffer, reason_stalled}

pub record Config : Type 0 where
  pub scan_every : ℤ
  pub retire_every : ℤ
  pub retain_confirmed : ℤ
  pub event_buffer_size : ℤ
  pub stall_threshold : ℤ
  pub stall_re_notify_interval : ℤ

abbrev pub default_config : Config
default_config = record {
  scan_every = pos 1500000000;
  retire_every = pos 60000000000;
  retain_confirmed = pos 300000000000;
  event_buffer_size = pos 128;
  stall_threshold = pos 90000000000;
  stall_re_notify_interval = pos 300000000000;
}

abbrev or_default : ℤ → ℤ → ℤ
or_default d c = if ltb_ℤ (pos 0) c then c else d

unfoldable pub with_defaults : Config → Config
with_defaults cfg = record {
  scan_every = or_default default_config.scan_every cfg.scan_every;
  retire_every = or_default default_config.retire_every cfg.retire_every;
  retain_confirmed = or_default default_config.retain_confirmed cfg.retain_confirmed;
  event_buffer_size = or_default default_config.event_buffer_size cfg.event_buffer_size;
  stall_threshold = or_default default_config.stall_threshold cfg.stall_threshold;
  stall_re_notify_interval =
      or_default default_config.stall_re_notify_interval cfg.stall_re_notify_interval;
}

-- `topology` is the field Observed.Topology of the world model, which may be nil.
pub record Reconciler : Type 0 where
  pub cfg : Config
  pub predicted : PredictedState
  pub topology : Option TopologyOverlay
  pub dag : Dag
  pub events : EventBuffer

unfoldable pub new_reconciler : Config → PredictedState → Option TopologyOverlay → Dag → Reconciler
unfolding with_defaults new_event_buffer
new_reconciler cfg predicted topology dag = record {
  cfg = with_defaults cfg;
  predicted = predicted;
  topology = topology;
  dag = dag;
  events = new_event_buffer (with_defaults cfg).event_buffer_size;
}

pub record Pass : Type 0 where
  pub now : ℕ
  pub later : ℕ
  pub keys : Dag → List String
  pub prediction_order : List TilePrediction → List TilePrediction
  pub id_order : List String → List String
  pub note_text : ℤ → Node → String
  pub seconds : ℤ → ℤ

abbrev opened : Result Bool → Bool
opened (ok floor) = floor
opened (err e) = false

unfoldable pub is_confirmed : Option TopologyOverlay → TilePrediction → Bool
unfolding get_tile
is_confirmed none pred = false
is_confirmed (some t) pred = opened (get_tile pred.coord.x pred.coord.y pred.coord.z t)

-- `progressedNodes[id] = struct{}{}`
abbrev add_id : String → List String → List String
add_id id ids = if same id [] || is_listed id ids then ids else id ∷ ids

-- The loop of step 1: the ids of the nodes that progressed, and the predictions.
unfoldable pub confirm_matching :
    ℕ → Option TopologyOverlay → List TilePrediction → PredictedState → List String × PredictedState
unfolding is_confirmed confirm
confirm_matching later topology [] p = ([], p)
confirm_matching later topology (pred ∷ preds) p =
    let (changed, q) =
      if is_confirmed topology pred then confirm later pred.coord p else (false, p) in
    let (ids, r) = confirm_matching later topology preds q in
    (if changed then add_id pred.plan_node_id ids else ids, r)

unfoldable pub note_each : Pass → List String → Dag → Dag
unfolding note_progress
note_each pass [] d = d
note_each pass (id ∷ ids) d = note_each pass ids (note_progress pass.later (pass.keys d) id d).1

-- The entry of a map of counts by plan node.
unfoldable pub count_node : String → List TilePrediction → ℕ
count_node id [] = 0
count_node id (pred ∷ preds) =
    let rest = count_node id preds in if same pred.plan_node_id id then suc rest else rest

abbrev pub with_counts : ℕ → ℕ → Node → Node
with_counts confirmed diverged n = record n {
  predictions_confirmed = confirmed;
  predictions_diverged = diverged;
}

-- The number that updateNodeCounts takes for confirmed, at least 0.
abbrev pub confirmed_count : PredictedState → Node → ℕ
confirmed_count p n =
    n.prediction_count - count_node n.id (outstanding p) - count_node n.id (diverged p)

-- The body of the loop of updateNodeCounts.
unfoldable pub count_one : Pass → PredictedState → Node → Dag → Dag
unfolding update mark_done count_node outstanding diverged
count_one pass p n d =
    let counted =
      (update (pass.keys d) n.id (with_counts (confirmed_count p n) (count_node n.id (diverged p)))
        d).1 in
    if n.prediction_count == 0
    then d
    else if leb n.prediction_count (confirmed_count p n)
    then (mark_done pass.later (pass.keys counted) n.id counted).1
    else counted

unfoldable pub count_each : Pass → PredictedState → List Node → Dag → Dag
unfolding count_one
count_each pass p [] d = d
count_each pass p (n ∷ ns) d = count_each pass p ns (count_one pass p n d)

unfoldable pub update_node_counts : Pass → PredictedState → Dag → Dag
unfolding count_each active
update_node_counts pass p d = count_each pass p (active d) d

-- `(a + b) / 2` in int16, which rounds to 0.
abbrev half : ℤ → ℤ
half (pos n) = pos (n / 2)
half (negsuc n) = if (n + 1) / 2 == 0 then pos 0 else negsuc ((n + 1) / 2 - 1)

abbrev middle : ℤ → ℤ → ℤ
middle a b = half (of_word (2 ^ 15) (to_word (2 ^ 15) (a +ℤ b)))

unfoldable pub centroid_of : Action → Coord
centroid_of a = record {
  x = middle a.region.x1 a.region.x2;
  y = middle a.region.y1 a.region.y2;
  z = middle a.region.z1 a.region.z2;
}

-- "dig"
abbrev dig_type_name : String
dig_type_name = 100 ∷ 105 ∷ 103 ∷ []

unfoldable pub describe_action : Action → String
describe_action a = if same a.kind dig_type_name then dig_type_name ++ (58 ∷ a.dig_type) else a.kind

-- Whether a node is to be noted as stalled.
unfoldable pub is_stalled : Config → ℕ → Node → Bool
is_stalled cfg now n =
    not (n.prediction_count == 0)
    && ltb n.predictions_confirmed n.prediction_count
    && not (ltb_ℤ (sub_ℕ now n.last_progress_at) cfg.stall_threshold)
    && not (
        not (n.stall_noted_at == 0)
        && ltb_ℤ (sub_ℕ now n.stall_noted_at) cfg.stall_re_notify_interval)

unfoldable pub stall_event : Pass → Node → DivergenceEvent
unfolding centroid_of describe_action
stall_event pass n = record {
  coord = centroid_of n.action;
  action = describe_action n.action;
  plan_node_id = n.id;
  predicted_at = n.started_at;
  emitted_at = pass.now;
  reason = reason_stalled;
  idle_seconds = pass.seconds (sub_ℕ pass.now n.last_progress_at);
  predicted_flags = 0;
  observed_flags = 0;
  note = pass.note_text (sub_ℕ pass.now n.last_progress_at) n;
}

-- The loop of detectStalls: how many events, the plan and the buffer.
unfoldable pub stall_each : Pass → Config → List Node → Dag → EventBuffer → ℕ × Dag × EventBuffer
unfolding is_stalled stall_event note_stall append
stall_each pass cfg [] d b = (0, d, b)
stall_each pass cfg (n ∷ ns) d b =
    let stops = is_stalled cfg pass.now n in
    let (emitted, d', b') =
      stall_each pass cfg ns (if stops then (note_stall pass.later (pass.keys d) n.id d).1 else d)
        (if stops then append (stall_event pass n) b else b) in
    (if stops then suc emitted else emitted, d', b')

unfoldable pub detect_stalls : Pass → Config → Dag → EventBuffer → ℕ × Dag × EventBuffer
unfolding stall_each active
detect_stalls pass cfg d b = stall_each pass cfg (active d) d b

unfoldable pub scan : Pass → Reconciler → Reconciler
unfolding confirm_matching note_each update_node_counts detect_stalls outstanding
scan pass r =
    let (ids, predicted) =
      confirm_matching pass.later r.topology (pass.prediction_order (outstanding r.predicted))
        r.predicted in
    let counted = update_node_counts pass predicted (note_each pass (pass.id_order ids) r.dag) in
    let (emitted, dag, events) = detect_stalls pass r.cfg counted r.events in
    record r { predicted = predicted; dag = dag; events = events }

unfoldable pub retire : ℕ → Reconciler → Reconciler
unfolding retire_confirmed_older_than
retire now r = record r {
  predicted = (retire_confirmed_older_than (now - pos_part r.cfg.retain_confirmed) r.predicted).1;
}
