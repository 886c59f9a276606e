-- ===== src/World/Predicted.antt =====
-- internal/worldmodel/predicted.go. The lock is not modelled: an operation is one step. A time is a
-- number, 0 the zero time, and the clock is an argument where the code calls time.Now.
pub mod Counts
pub mod Index
pub mod Removal
use df_ai.Base.{
  Bool, List, Option, String, [], false, if◌then◌else◌, insert, lookup, ltb, map, negsuc, none, not,
  pos, remove, same, some, string_key, suc, true, ℕ, ℤ, ◌+ℤ◌, ◌==◌, ◌||◌, ◌∷◌,
}
use df_ai.World.Coord.{Coord, coord_key}

pub data PredictionStatus : Type 0 where
  prediction_outstanding prediction_confirmed prediction_diverged : PredictionStatus

abbrev pub same_prediction : PredictionStatus → PredictionStatus → Bool
same_prediction prediction_outstanding prediction_outstanding = true
same_prediction prediction_confirmed prediction_confirmed = true
same_prediction prediction_diverged prediction_diverged = true
same_prediction s t = false

-- WorkEstimate of internal/worldmodel/work.go.
pub record WorkEstimate : Type 0 where
  pub tile_count : ℤ
  pub material : ℕ
  pub parallelism : ℤ

pub record TilePrediction : Type 0 where
  pub coord : Coord
  pub action : String
  pub predicted_flags : ℕ
  pub predicted_tile : ℕ
  pub plan_node_id : String
  pub predicted_at_tick : ℕ
  pub predicted_at : ℕ
  pub estimate : WorkEstimate
  pub status : PredictionStatus
  pub updated_at : ℕ
  pub diverged_reason : String

-- A set, as a map to the empty struct.
abbrev pub CoordSet : Type 0
CoordSet = List (Coord × Unit {0})

pub record PredictedState : Type 0 where
  pub tiles : List (Coord × TilePrediction)
  pub by_plan_node : List (String × CoordSet)
  pub outstanding_count : ℤ
  pub confirmed_count : ℤ
  pub diverged_count : ℤ

abbrev pub new_predicted_state : PredictedState
new_predicted_state = record {
  tiles = [];
  by_plan_node = [];
  outstanding_count = pos 0;
  confirmed_count = pos 0;
  diverged_count = pos 0;
}

unfoldable pub adjust_count : PredictionStatus → ℤ → PredictedState → PredictedState
adjust_count prediction_outstanding delta p = record p {
  outstanding_count = p.outstanding_count +ℤ delta;
}
adjust_count prediction_confirmed delta p = record p {
  confirmed_count = p.confirmed_count +ℤ delta;
}
adjust_count prediction_diverged delta p = record p { diverged_count = p.diverged_count +ℤ delta }

abbrev minus_one : ℤ
minus_one = negsuc 0

abbrev is_nil {ℓ} : {A : Type ℓ} → List A → Bool
is_nil [] = true
is_nil (x ∷ xs) = false

-- A plan node without coordinates has no entry.
abbrev store_set : String → CoordSet → List (String × CoordSet) → List (String × CoordSet)
store_set id set m = if is_nil set then remove id m else insert id set m

abbrev forget_in :
    String → Coord → List (String × CoordSet) → Option CoordSet → List (String × CoordSet)
forget_in id c m none = m
forget_in id c m (some set) = store_set id (remove c set) m

-- `delete(set, c)` for the set of a plan node, if it has one.
unfoldable pub forget_coord : String → Coord → List (String × CoordSet) → List (String × CoordSet)
unfolding lookup insert remove
forget_coord id c m = forget_in id c m (lookup id m)

abbrev set_of : Option CoordSet → CoordSet
set_of none = []
set_of (some set) = set

-- `set[pred.Coord] = struct{}{}` for the set of a plan node, which is made if there is none.
unfoldable pub note_coord : String → Coord → List (String × CoordSet) → List (String × CoordSet)
unfolding lookup insert
note_coord id c m = if is_nil id then m else insert id (insert c tt (set_of (lookup id m))) m

-- What Predict does about a prediction that is there already.
unfoldable pub replace_existing :
    Option TilePrediction → TilePrediction → PredictedState → PredictedState
unfolding adjust_count forget_coord
replace_existing none pred p = p
replace_existing (some existing) pred p =
    let q = adjust_count existing.status minus_one p in
    if same existing.plan_node_id pred.plan_node_id then q else record q {
      by_plan_node = forget_coord existing.plan_node_id existing.coord q.by_plan_node;
    }

-- The prediction as it is stored.
abbrev pub stamped : ℕ → TilePrediction → TilePrediction
stamped now pred = record pred {
  predicted_at = if pred.predicted_at == 0 then now else pred.predicted_at;
  status = prediction_outstanding;
  updated_at = now;
  diverged_reason = [];
}

unfoldable pub predict : ℕ → TilePrediction → PredictedState → PredictedState
unfolding replace_existing note_coord lookup insert
predict now pred p =
    let q = replace_existing (lookup pred.coord p.tiles) pred p in
    record q {
      tiles = insert pred.coord (stamped now pred) q.tiles;
      by_plan_node = note_coord pred.plan_node_id pred.coord q.by_plan_node;
      outstanding_count = q.outstanding_count +ℤ pos 1;
    }

unfoldable pub get_prediction : Coord → PredictedState → Option TilePrediction
unfolding lookup
get_prediction c p = lookup c p.tiles

-- Confirm and MarkDiverged: a transition of an outstanding prediction.
unfoldable pub transition :
    (TilePrediction → TilePrediction)
    → Option TilePrediction
    → Coord
    → PredictedState
    → Bool × PredictedState
unfolding adjust_count insert
transition change none c p = (false, p)
transition change (some pred) c p =
    if same_prediction pred.status prediction_outstanding
    then (
      true,
      adjust_count (change pred).status (pos 1) (record (adjust_count pred.status minus_one p) {
        tiles = insert c (change pred) p.tiles;
      }),
    )
    else (false, p)

abbrev pub confirmed_prediction : ℕ → TilePrediction → TilePrediction
confirmed_prediction now pred = record pred { status = prediction_confirmed; updated_at = now }

abbrev pub diverged_prediction : ℕ → String → TilePrediction → TilePrediction
diverged_prediction now reason pred = record pred {
  status = prediction_diverged;
  diverged_reason = reason;
  updated_at = now;
}

unfoldable pub confirm : ℕ → Coord → PredictedState → Bool × PredictedState
unfolding transition lookup
confirm now c p = transition (confirmed_prediction now) (lookup c p.tiles) c p

unfoldable pub mark_diverged : ℕ → Coord → String → PredictedState → Bool × PredictedState
unfolding transition lookup
mark_diverged now c reason p = transition (diverged_prediction now reason) (lookup c p.tiles) c p

-- `adjustCount(pred.Status, -1)` and `delete(p.tiles, c)`.
unfoldable pub drop_tile : Coord → TilePrediction → PredictedState → PredictedState
unfolding adjust_count remove
drop_tile c pred p = record (adjust_count pred.status minus_one p) { tiles = remove c p.tiles }

-- A round of the loop of RemoveByPlanNode, with the rounds after it.
abbrev pub remove_one :
    (PredictedState → ℕ × PredictedState)
    → Coord
    → Option TilePrediction
    → PredictedState
    → ℕ × PredictedState
remove_one rest c none p = rest p
remove_one rest c (some pred) p = let (n, q) = rest (drop_tile c pred p) in (suc n, q)

-- The loop of RemoveByPlanNode over the coordinates of the set.
unfoldable pub remove_each : List Coord → PredictedState → ℕ × PredictedState
unfolding drop_tile lookup
remove_each [] p = (0, p)
remove_each (c ∷ cs) p = remove_one (remove_each cs) c (lookup c p.tiles) p

abbrev pub keys {ℓ κ} : {K : Type ℓ} {V : Type κ} → List (K × V) → List K
keys {K = K} {V = V} m = map (λ (entry : K × V). entry.0) m

abbrev pub remove_set : String → Option CoordSet → PredictedState → ℕ × PredictedState
remove_set id none p = (0, p)
remove_set id (some set) p =
    let (n, q) = remove_each (keys set) p in
    (n, record q { by_plan_node = remove id q.by_plan_node })

unfoldable pub remove_by_plan_node : String → PredictedState → ℕ × PredictedState
unfolding remove_each lookup remove
remove_by_plan_node id p = remove_set id (lookup id p.by_plan_node) p

-- Whether RetireConfirmedOlderThan passes a prediction over.
abbrev pub stays : ℕ → TilePrediction → Bool
stays cutoff pred =
    not (same_prediction pred.status prediction_confirmed) || ltb cutoff pred.updated_at

abbrev pub retire_tile : Coord → TilePrediction → PredictedState → PredictedState
retire_tile c pred p =
    let q = drop_tile c pred p in
    record q { by_plan_node = forget_coord pred.plan_node_id c q.by_plan_node }

abbrev pub retire_one :
    ℕ
    → (PredictedState → ℕ × PredictedState)
    → Coord
    → Option TilePrediction
    → PredictedState
    → ℕ × PredictedState
retire_one cutoff rest c none p = rest p
retire_one cutoff rest c (some pred) p =
    let kept = rest p in
    let retired : ℕ × PredictedState = let (n, q) = rest (retire_tile c pred p) in (suc n, q) in
    if stays cutoff pred then kept else retired

-- The loop of RetireConfirmedOlderThan over the keys.
unfoldable pub retire_each : ℕ → List Coord → PredictedState → ℕ × PredictedState
unfolding drop_tile forget_coord lookup
retire_each cutoff [] p = (0, p)
retire_each cutoff (c ∷ cs) p = retire_one cutoff (retire_each cutoff cs) c (lookup c p.tiles) p

unfoldable pub retire_confirmed_older_than : ℕ → PredictedState → ℕ × PredictedState
unfolding retire_each
retire_confirmed_older_than cutoff p = retire_each cutoff (keys p.tiles) p

unfoldable pub select_status :
    PredictionStatus → List (Coord × TilePrediction) → List TilePrediction
select_status s [] = []
select_status s ((c, pred) ∷ m) =
    let rest = select_status s m in if same_prediction pred.status s then pred ∷ rest else rest

unfoldable pub outstanding : PredictedState → List TilePrediction
unfolding select_status
outstanding p = select_status prediction_outstanding p.tiles

unfoldable pub diverged : PredictedState → List TilePrediction
unfolding select_status
diverged p = select_status prediction_diverged p.tiles

-- The operations that change the state, in any order.
pub data Change : Type 0 where
  predicts : (now : ℕ) (pred : TilePrediction) → Change
  confirms : (now : ℕ) (c : Coord) → Change
  marks_diverged : (now : ℕ) (c : Coord) (reason : String) → Change
  removes_by_plan_node : (id : String) → Change
  retires : (cutoff : ℕ) → Change

unfoldable pub apply_change : Change → PredictedState → PredictedState
unfolding predict confirm mark_diverged remove_by_plan_node retire_confirmed_older_than
apply_change (predicts now pred) p = predict now pred p
apply_change (confirms now c) p = (confirm now c p).1
apply_change (marks_diverged now c reason) p = (mark_diverged now c reason p).1
apply_change (removes_by_plan_node id) p = (remove_by_plan_node id p).1
apply_change (retires cutoff) p = (retire_confirmed_older_than cutoff p).1

unfoldable pub apply_changes : List Change → PredictedState → PredictedState
unfolding apply_change
apply_changes [] p = p
apply_changes (k ∷ ks) p = apply_changes ks (apply_change k p)
