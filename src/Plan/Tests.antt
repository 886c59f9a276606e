-- ===== src/Plan/Tests.antt =====
-- The theorems on plans at concrete plans.
use df_ai.Plan.Dag.{
  Dag, add, all_deps_done, change, find, is_done, mark_active, mark_done, new, promote,
  promote_newly_ready, put, update,
}
use df_ai.Plan.Dag.Steps.{
  Reachable, Reachable-IsSettled, Step, add_step, after, at_start, done_step,
}
use df_ai.Plan.Dag.Queries.{filter_by_status, filter_by_status-select, select}
use df_ai.Plan.Dag.Progress.{AllDone, any_workable, is_layered, progress}
use df_ai.Plan.Dag.Views.{backwards, recent, recent_lem}
use df_ai.Plan.Executor.{World, acknowledged, action_kind, drain, execute_node}
use df_ai.Plan.Executor.Outcome.{outcome}
use df_ai.Base.{List, String, [], false, map, none, pos, refl, some, take, true, ◌∷◌, ◌≡◌, ◌⊎◌}
use df_ai.Plan.Dag.Promotion.{Covers, promote_newly_ready_lem}
use df_ai.Plan.Dag.Settled.{IsSettled}
use df_ai.Plan.Node.{Action, Node, Region, is_terminal, status_done, status_pending, status_ready}
use df_ai.Plan.Dag.Terminal.{Step-terminal, mark_active_not_ready}
use df_ai.Plan.Executor.Drain.{drain-IsSettled}
use df_ai.Plan.Executor.Ready.{execute_node_lem}

abbrev no_region : Region
no_region = record { x1 = pos 0; y1 = pos 0; z1 = pos 0; x2 = pos 0; y2 = pos 0; z2 = pos 0 }

abbrev wait : Action
wait = record {
  kind = 119 ∷ [];
  dig_type = [];
  build_type = 0;
  zone_type = 0;
  order_type = 0;
  quantity = 0;
  stockpile_groups = 0;
  smooth_type = 0;
  alert_id = 0;
  region = no_region;
  description = [];
}

abbrev step_after : String → List String → Node
step_after id deps = record {
  id = id;
  action = wait;
  dependencies = deps;
  status = status_pending;
  created_at = 0;
  started_at = 0;
  done_at = 0;
  last_progress_at = 0;
  stall_noted_at = 0;
  result = [];
  prediction_count = 0;
  predictions_confirmed = 0;
  predictions_diverged = 0;
  committing_turn = 1;
}

abbrev dig : String
dig = 100 ∷ []

abbrev furnish : String
furnish = 102 ∷ []

abbrev one : Dag
one = add 5 (step_after dig []) new

abbrev two : Dag
two = add 6 (step_after furnish (dig ∷ [])) one

abbrev keys : List String
keys = furnish ∷ dig ∷ []

abbrev dug : Dag
dug = (mark_done 7 keys dig two).1

one-fresh : find furnish one.nodes ≡ none
unfolding find add put promote new all_deps_done
one-fresh = refl

two-Reachable : Reachable two
unfolding find new
two-Reachable =
    after (after at_start (add_step 5 (step_after dig []) new refl refl))
      (add_step 6 (step_after furnish (dig ∷ [])) one refl one-fresh)

two-Covers : Covers keys two.nodes
unfolding find add put promote new all_deps_done is_done
two-Covers = (refl, (refl, tt))

dug-Step : Step two dug
dug-Step = done_step 7 keys dig two two-Covers

dug-Reachable : Reachable dug
dug-Reachable = after two-Reachable dug-Step

Reachable-IsSettled_example : IsSettled dug
Reachable-IsSettled_example = Reachable-IsSettled dug dug-Reachable

two-layered : is_layered [] two.nodes ≡ true
unfolding add put promote new find
two-layered = refl

progress_example : AllDone two.nodes ⊎ (any_workable two.nodes ≡ true)
progress_example = progress two two-Reachable two-layered

promote_newly_ready_lem_example :
    promote_newly_ready keys two.nodes ≡ map (promote two.nodes) two.nodes
promote_newly_ready_lem_example = promote_newly_ready_lem keys two.nodes two-Covers

abbrev dug_node : Node
dug_node = record (step_after dig []) { created_at = 5; status = status_done; done_at = 7 }

dug-found : find dig dug.nodes ≡ some dug_node
unfolding find add put promote new all_deps_done is_done mark_done update change promote_newly_ready
    is_terminal
dug-found = refl

dug_node-is_terminal : is_terminal dug_node ≡ true
unfolding is_terminal
dug_node-is_terminal = refl

dug-Covers : Covers keys dug.nodes
unfolding find add put promote new all_deps_done is_done mark_done update change promote_newly_ready
    is_terminal
dug-Covers = (refl, (refl, tt))

abbrev later : Dag
later = (mark_done 9 keys furnish dug).1

later-Step : Step dug later
later-Step = done_step 9 keys furnish dug dug-Covers

Step-terminal_example : (m : Node) × (find dig later.nodes ≡ some m) × (m.status ≡ dug_node.status)
Step-terminal_example =
    Step-terminal dug later dig dug_node later-Step dug-found dug_node-is_terminal

mark_active_not_ready_example : mark_active 8 keys dig dug ≡ (true, dug)
mark_active_not_ready_example =
    mark_active_not_ready 8 keys dig dug_node dug dug-Reachable dug-Covers dug-found refl

filter_by_status-select_example :
    (filter_by_status (status_ready ∷ []) dug ≡ select (status_ready ∷ []) dug.nodes)
    × (dug.insert_order ≡ map Node.id dug.nodes)
filter_by_status-select_example = filter_by_status-select (status_ready ∷ []) dug dug-Reachable

recent_lem_example : recent (pos 1) dug ≡ take 1 (backwards [] dug.nodes)
recent_lem_example = recent_lem 1 dug dug-Reachable

abbrev pit : Node
pit = record (step_after dig []) {
  action = record wait { kind = 100 ∷ 105 ∷ 103 ∷ [] };
  created_at = 5;
  status = status_ready;
}

abbrev site : Dag
site = add 5 pit new

abbrev world : World
world = record {
  now = 8;
  order_before = dig ∷ [];
  order = dig ∷ [];
  reply = acknowledged (
      some (record {
        success = false;
        status = 1;
        error_msg = 33 ∷ [];
        response = none;
        duration = pos 0;
      }));
  predictions = 6;
  alerts = none;
  render = λ note. [];
}

site-Covers : Covers (dig ∷ []) site.nodes
unfolding find add put promote new all_deps_done
site-Covers = (refl, tt)

site-found : find pit.id site.nodes ≡ some pit
unfolding find add put promote new all_deps_done
site-found = refl

execute_node_lem_example :
    (m : Node) × (find pit.id (execute_node world pit site).nodes ≡ some m)
    × (m.status ≡ outcome (action_kind pit.action.kind) world pit)
execute_node_lem_example = execute_node_lem world pit site site-Covers site-Covers site-found refl

two-IsSettled : IsSettled two
two-IsSettled = Reachable-IsSettled two two-Reachable

abbrev two_world : Node → World
two_world n = record world { order_before = keys; order = keys }

drain-IsSettled_example : IsSettled (drain two_world two)
drain-IsSettled_example =
    drain-IsSettled two_world two (λ n. (two-Covers, two-Covers)) two-IsSettled
