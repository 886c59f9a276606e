-- ===== src/World/Tests.antt =====
-- The theorems on the predictions at concrete changes.
use df_ai.Base.{List, String, [], insert, lookup, none, pos, remove, string_key, ◌∷◌, ◌≡◌}
use df_ai.World.Coord.{Coord}
use df_ai.World.Predicted.{
  Change, TilePrediction, adjust_count, apply_change, apply_changes, confirm, confirms,
  forget_coord, get_prediction, new_predicted_state, note_coord, predict, prediction_outstanding,
  predicts, remove_by_plan_node, replace_existing, transition,
}
use df_ai.World.Predicted.Removal.{IsPredicted, apply_changes-IsPredicted, remove_by_plan_node_lem}

abbrev here : Coord
here = record { x = pos 1; y = pos 2; z = pos 3 }

abbrev dig_here : String → TilePrediction
dig_here id = record {
  coord = here;
  action = 100 ∷ 105 ∷ 103 ∷ [];
  predicted_flags = 1;
  predicted_tile = 0;
  plan_node_id = id;
  predicted_at_tick = 5;
  predicted_at = 0;
  estimate = record { tile_count = pos 1; material = 0; parallelism = pos 1 };
  status = prediction_outstanding;
  updated_at = 0;
  diverged_reason = [];
}

-- Node `b` takes the tile over from node `a`.
abbrev changes : List Change
changes =
    predicts 10 (dig_here (97 ∷ [])) ∷ confirms 11 here ∷ predicts 12 (dig_here (98 ∷ [])) ∷ []

apply_changes-IsPredicted_example : IsPredicted (apply_changes changes new_predicted_state)
apply_changes-IsPredicted_example = apply_changes-IsPredicted changes

remove_by_plan_node_lem_example :
    get_prediction here
      (remove_by_plan_node (98 ∷ []) (apply_changes changes new_predicted_state)).1
    ≡ none
unfolding apply_changes apply_change predict confirm transition replace_existing adjust_count
    forget_coord note_coord lookup insert remove get_prediction
remove_by_plan_node_lem_example = remove_by_plan_node_lem changes (98 ∷ []) here
