-- ===== src/World/Predicted/Removal.antt =====
-- RemoveByPlanNode of internal/worldmodel/predicted.go after any other operations.
use df_ai.Base.{
  Bool, Bool-cases, List, Option, String, [], ap, arith, false, if◌then◌else◌, inl, inr, lookup,
  lookup-remove, negsuc, none, pos, refl, remove, same, same_iff, same_sound, some, string_key, sym,
  tally, ℕ, ◌||◌, ◌∙◌, ◌∷◌, ◌≡◌,
}
use df_ai.World.Coord.{Coord, coord_key, same_coord, same_coord_iff}
use df_ai.World.Predicted.{
  Change, CoordSet, PredictedState, PredictionStatus, TilePrediction, apply_change, apply_changes,
  confirm, confirmed_prediction, confirms, diverged_prediction, drop_tile, get_prediction, is_nil,
  keys, mark_diverged, marks_diverged, new_predicted_state, prediction_outstanding, predicts,
  remove_by_plan_node, remove_each, remove_one, remove_set, removes_by_plan_node,
  retire_confirmed_older_than, retire_each, retires,
}
use df_ai.World.Predicted.Counts.{
  IsCounted, adjust_count-by_plan_node, confirm-IsCounted, counter, mark_diverged-IsCounted,
}
use df_ai.World.Predicted.Counts.Operations.{
  predict-IsCounted, remove_by_plan_node-IsCounted, remove_one_keeps,
  retire_confirmed_older_than-IsCounted, retire_one_keeps,
}
use df_ai.World.Predicted.Index.Predict.{predict-IsAgreed}
use df_ai.World.Predicted.Index.{
  IsAgreed, belongs, has_coord, has_coord-remove, retire_tile-IsAgreed, transition-IsAgreed,
}
use df_ai.Plan.Dag.{is_some}

abbrev is_among : Coord → List Coord → Bool
is_among d [] = false
is_among d (c ∷ cs) = same_coord c d || is_among d cs

is_among-keys : (d : Coord) (set : CoordSet) → is_among d (keys set) ≡ is_some (lookup d set)
unfolding lookup
is_among-keys d [] = refl
is_among-keys d ((c, u) ∷ set) = ground (arith, is_among-keys d set)

drop_tile-tiles :
    (c : Coord) (pred : TilePrediction) (p : PredictedState)
    → (drop_tile c pred p).tiles ≡ remove c p.tiles
unfolding drop_tile
drop_tile-tiles c pred p = refl

lookup-remove_one :
    (d : Coord) (cs : List Coord) (c : Coord) (o : Option TilePrediction) (p : PredictedState)
    → lookup c p.tiles ≡ o
    → ((q : PredictedState)
        → lookup d (remove_each cs q).1.tiles ≡ (if is_among d cs then none else lookup d q.tiles))
    → lookup d (remove_one (remove_each cs) c o p).1.tiles
      ≡ (if same_coord c d || is_among d cs then none else lookup d p.tiles)
lookup-remove_one d cs c none p found rest = rest p ∙ elim (Bool-cases (same_coord c d)) [
  | inl here ↦
      let gone : lookup d p.tiles ≡ none = rw (← (same_coord_iff c d).0 here) found in
      ground (arith, here, gone)
  | inr other ↦ ground (arith, other)
]
lookup-remove_one d cs c (some pred) p found rest =
    rest (drop_tile c pred p)
    ∙ ap (λ l. if is_among d cs then none else lookup d l) (drop_tile-tiles c pred p)
    ∙ ground (arith, lookup-remove c d p.tiles)

lookup-remove_each :
    (d : Coord) (cs : List Coord) (p : PredictedState)
    → lookup d (remove_each cs p).1.tiles ≡ (if is_among d cs then none else lookup d p.tiles)
unfolding remove_each
lookup-remove_each d [] p = refl
lookup-remove_each d (c ∷ cs) p =
    lookup-remove_one d cs c (lookup c p.tiles) p refl (lookup-remove_each d cs)

drop_tile-by_plan_node :
    (c : Coord) (pred : TilePrediction) (p : PredictedState)
    → (drop_tile c pred p).by_plan_node ≡ p.by_plan_node
unfolding drop_tile
drop_tile-by_plan_node c pred p = adjust_count-by_plan_node pred.status (negsuc 0) p

remove_each-by_plan_node :
    (m : List (String × CoordSet)) (cs : List Coord) (p : PredictedState)
    → p.by_plan_node ≡ m
    → (remove_each cs p).1.by_plan_node ≡ m
unfolding remove_each
remove_each-by_plan_node m [] p e = e
remove_each-by_plan_node m (c ∷ cs) p e =
    remove_one_keeps (λ q. q.by_plan_node ≡ m) (remove_each cs) c (lookup c p.tiles) p refl
      (remove_each-by_plan_node m cs) (λ pred found w. drop_tile-by_plan_node c pred p ∙ w) e

-- What RemoveByPlanNode leaves at a coordinate.
abbrev left : String → Option TilePrediction → Option TilePrediction
left id o = if belongs id o then none else o

remove_set_lem :
    (id : String) (o : Option CoordSet) (p : PredictedState) (d : Coord)
    → lookup id p.by_plan_node ≡ o
    → IsAgreed p
    → lookup d (remove_set id o p).1.tiles ≡ left id (lookup d p.tiles)
remove_set_lem id none p d found v = ground (arith, found, v id d)
remove_set_lem id (some set) p d found v =
    lookup-remove_each d (keys set) p ∙ ground (arith, is_among-keys d set, found, v id d)

belongs-left :
    (id j : String) (o : Option TilePrediction)
    → (if same id j then false else belongs j o) ≡ belongs j (left id o)
belongs-left id j none = ground arith
belongs-left id j (some e) = elim (Bool-cases (same id j)) [
  | inl it ↦
      let own = same_sound id j it in
      let nil : is_nil id ≡ is_nil j = ap is_nil own in
      let node : same e.plan_node_id id ≡ same e.plan_node_id j = ap (same e.plan_node_id) own in
      ground (arith, it, nil, node)
  | inr other ↦
      ground (arith, other, same_iff id j, same_iff e.plan_node_id id, same_iff e.plan_node_id j)
]

remove_set-IsAgreed :
    (id : String) (o : Option CoordSet) (p : PredictedState)
    → lookup id p.by_plan_node ≡ o
    → IsAgreed p
    → IsAgreed (remove_set id o p).1
remove_set-IsAgreed id none p found v = λ j d. v j d
remove_set-IsAgreed id (some set) p found v = λ j d.
    ap (λ m. has_coord d (lookup j (remove id m)))
      (remove_each-by_plan_node p.by_plan_node (keys set) p refl)
    ∙ has_coord-remove id j d p.by_plan_node
    ∙ ap (λ b. if same id j then false else b) (v j d)
    ∙ belongs-left id j (lookup d p.tiles)
    ∙ ap (belongs j) (sym (remove_set_lem id (some set) p d found v))

retire_each-IsAgreed :
    (cutoff : ℕ) (cs : List Coord) (p : PredictedState)
    → IsAgreed p
    → IsAgreed (retire_each cutoff cs p).1
unfolding retire_each
retire_each-IsAgreed cutoff [] p v = v
retire_each-IsAgreed cutoff (c ∷ cs) p v =
    retire_one_keeps IsAgreed cutoff (retire_each cutoff cs) c (lookup c p.tiles) p refl
      (retire_each-IsAgreed cutoff cs) (λ pred found w. retire_tile-IsAgreed c pred p found w) v

-- The counters are the numbers of predictions with each status, and the index has the coordinates
-- of each plan node.
pub record IsPredicted (p : PredictedState) : Type 0 where
  pub counts : IsCounted p
  pub index : IsAgreed p

apply_change-IsPredicted :
    (k : Change) (p : PredictedState) → IsPredicted p → IsPredicted (apply_change k p)
unfolding apply_change confirm mark_diverged remove_by_plan_node retire_confirmed_older_than
apply_change-IsPredicted (predicts now pred) p v = record {
  counts = predict-IsCounted now pred p v.counts;
  index = predict-IsAgreed now pred p v.counts v.index;
}
apply_change-IsPredicted (confirms now c) p v = record {
  counts = confirm-IsCounted now c p v.counts;
  index =
      transition-IsAgreed (confirmed_prediction now) (lookup c p.tiles) c p (λ pred. refl) refl
        v.index;
}
apply_change-IsPredicted (marks_diverged now c reason) p v = record {
  counts = mark_diverged-IsCounted now c reason p v.counts;
  index =
      transition-IsAgreed (diverged_prediction now reason) (lookup c p.tiles) c p (λ pred. refl)
        refl v.index;
}
apply_change-IsPredicted (removes_by_plan_node id) p v = record {
  counts = remove_by_plan_node-IsCounted id p v.counts;
  index = remove_set-IsAgreed id (lookup id p.by_plan_node) p refl v.index;
}
apply_change-IsPredicted (retires cutoff) p v = record {
  counts = retire_confirmed_older_than-IsCounted cutoff p v.counts;
  index = retire_each-IsAgreed cutoff (keys p.tiles) p v.index;
}

pub confirm-IsPredicted :
    (now : ℕ) (c : Coord) (p : PredictedState) → IsPredicted p → IsPredicted (confirm now c p).1
unfolding apply_change
confirm-IsPredicted now c p v = apply_change-IsPredicted (confirms now c) p v

apply_each-IsPredicted :
    (ks : List Change) (p : PredictedState) → IsPredicted p → IsPredicted (apply_changes ks p)
unfolding apply_changes
apply_each-IsPredicted [] p v = v
apply_each-IsPredicted (k ∷ ks) p v =
    apply_each-IsPredicted ks (apply_change k p) (apply_change-IsPredicted k p v)

none_counted : (s : PredictionStatus) → counter s new_predicted_state ≡ pos 0
none_counted prediction_outstanding = refl
none_counted s = refl

new-IsPredicted : IsPredicted new_predicted_state
unfolding lookup tally
new-IsPredicted = record {
  counts = record { keyed = tt; own = λ c pred e. cc; counted = none_counted };
  index = λ id c. refl;
}

-- After any calls of Predict, Confirm, MarkDiverged, RemoveByPlanNode and RetireConfirmedOlderThan
-- on a new overlay, the three counters are the numbers of the predictions of each status, each
-- prediction stands under its own coordinate, and the index by plan node has exactly the
-- coordinates of the predictions of each node with a nonempty id.
pub apply_changes-IsPredicted :
    (ks : List Change) → IsPredicted (apply_changes ks new_predicted_state)
apply_changes-IsPredicted ks = apply_each-IsPredicted ks new_predicted_state new-IsPredicted

-- On an overlay that was reached by any calls of its operations, RemoveByPlanNode removes the
-- prediction of a coordinate exactly if it belongs to the plan node and the id is not empty, and
-- keeps it otherwise.
pub remove_by_plan_node_lem :
    (ks : List Change) (id : String) (c : Coord)
    → get_prediction c (remove_by_plan_node id (apply_changes ks new_predicted_state)).1 ≡ (
        if belongs id (get_prediction c (apply_changes ks new_predicted_state))
        then none
        else get_prediction c (apply_changes ks new_predicted_state))
unfolding get_prediction remove_by_plan_node
remove_by_plan_node_lem ks id c =
    let p = apply_changes ks new_predicted_state in
    remove_set_lem id (lookup id p.by_plan_node) p c refl (apply_changes-IsPredicted ks).index
