-- ===== src/World/Predicted/Counts/Operations.antt =====
-- The counters after the operations of internal/worldmodel/predicted.go.
use df_ai.Base.{
  Bool, List, Option, String, [], ap, either_branch, false, if◌then◌else◌, insert, insert-IsKeyed,
  lookup, nat_key, negsuc, none, one_if, pos, refl, remove, same, some, string_key, sym, tally,
  tally-insert, ℕ, ◌+ℤ◌, ◌+◌, ◌∙◌, ◌∷◌, ◌≡◌,
}
use df_ai.World.Coord.{Coord, coord_key}
use df_ai.World.Predicted.{
  CoordSet, PredictedState, PredictionStatus, TilePrediction, adjust_count, drop_tile, forget_coord,
  keys, note_coord, predict, prediction_outstanding, remove_by_plan_node, remove_each, remove_one,
  remove_set, replace_existing, retire_confirmed_older_than, retire_each, retire_one, retire_tile,
  same_prediction, stamped, stays,
}
use df_ai.World.Predicted.Counts.{
  IsCounted, adjust_count-tiles, retiled-IsCounted, counter, counter-adjust_count, counter_index,
  drop_tile-IsCounted, in_status, index-IsCounted, moved, own-insert,
}

-- What dropping a tile keeps, a round of the loop of RemoveByPlanNode keeps.
pub remove_one_keeps :
    (P : PredictedState → Type 0) (rest : PredictedState → ℕ × PredictedState) (c : Coord)
    (o : Option TilePrediction) (p : PredictedState)
    → lookup c p.tiles ≡ o
    → ((q : PredictedState) → P q → P (rest q).1)
    → ((pred : TilePrediction) → lookup c p.tiles ≡ some pred → P p → P (drop_tile c pred p))
    → P p
    → P (remove_one rest c o p).1
remove_one_keeps P rest c none p found keep dropped v = keep p v
remove_one_keeps P rest c (some pred) p found keep dropped v =
    keep (drop_tile c pred p) (dropped pred found v)

remove_each-IsCounted :
    (cs : List Coord) (p : PredictedState) → IsCounted p → IsCounted (remove_each cs p).1
unfolding remove_each
remove_each-IsCounted [] p v = v
remove_each-IsCounted (c ∷ cs) p v =
    remove_one_keeps IsCounted (remove_each cs) c (lookup c p.tiles) p refl
      (remove_each-IsCounted cs) (λ pred found w. drop_tile-IsCounted c pred p found w) v

remove_set-IsCounted :
    (id : String) (o : Option CoordSet) (p : PredictedState)
    → IsCounted p
    → IsCounted (remove_set id o p).1
remove_set-IsCounted id none p v = v
remove_set-IsCounted id (some set) p v =
    let q = (remove_each (keys set) p).1 in
    index-IsCounted q (remove id q.by_plan_node) (remove_each-IsCounted (keys set) p v)

pub remove_by_plan_node-IsCounted :
    (id : String) (p : PredictedState) → IsCounted p → IsCounted (remove_by_plan_node id p).1
unfolding remove_by_plan_node
remove_by_plan_node-IsCounted id p v = remove_set-IsCounted id (lookup id p.by_plan_node) p v

-- What retiring a confirmed tile keeps, a round of the loop of RetireConfirmedOlderThan keeps.
pub retire_one_keeps :
    (P : PredictedState → Type 0) (cutoff : ℕ) (rest : PredictedState → ℕ × PredictedState)
    (c : Coord) (o : Option TilePrediction) (p : PredictedState)
    → lookup c p.tiles ≡ o
    → ((q : PredictedState) → P q → P (rest q).1)
    → ((pred : TilePrediction) → lookup c p.tiles ≡ some pred → P p → P (retire_tile c pred p))
    → P p
    → P (retire_one cutoff rest c o p).1
retire_one_keeps P cutoff rest c none p found keep retired v = keep p v
retire_one_keeps P cutoff rest c (some pred) p found keep retired v =
    either_branch (λ (r : ℕ × PredictedState). P r.1) (stays cutoff pred) (keep p v)
      (keep (retire_tile c pred p) (retired pred found v))

retire_tile-IsCounted :
    (c : Coord) (pred : TilePrediction) (p : PredictedState)
    → lookup c p.tiles ≡ some pred
    → IsCounted p
    → IsCounted (retire_tile c pred p)
retire_tile-IsCounted c pred p found v =
    let q = drop_tile c pred p in
    index-IsCounted q (forget_coord pred.plan_node_id c q.by_plan_node)
      (drop_tile-IsCounted c pred p found v)

retire_each-IsCounted :
    (cutoff : ℕ) (cs : List Coord) (p : PredictedState)
    → IsCounted p
    → IsCounted (retire_each cutoff cs p).1
unfolding retire_each
retire_each-IsCounted cutoff [] p v = v
retire_each-IsCounted cutoff (c ∷ cs) p v =
    retire_one_keeps IsCounted cutoff (retire_each cutoff cs) c (lookup c p.tiles) p refl
      (retire_each-IsCounted cutoff cs) (λ pred found w. retire_tile-IsCounted c pred p found w) v

pub retire_confirmed_older_than-IsCounted :
    (cutoff : ℕ) (p : PredictedState)
    → IsCounted p
    → IsCounted (retire_confirmed_older_than cutoff p).1
unfolding retire_confirmed_older_than
retire_confirmed_older_than-IsCounted cutoff p v = retire_each-IsCounted cutoff (keys p.tiles) p v

-- Whether Predict takes a prediction off a counter.
abbrev taken_off : PredictionStatus → Option TilePrediction → Bool
taken_off s none = false
taken_off s (some existing) = in_status s existing

one_if_taken :
    (s : PredictionStatus) (o : Option TilePrediction)
    → one_if (in_status s) o ≡ (if taken_off s o then 1 else 0)
one_if_taken s none = refl
one_if_taken s (some existing) = refl

counter_stored :
    (s : PredictionStatus) (q : PredictedState) (m : List (Coord × TilePrediction))
    (index : List (String × CoordSet))
    → counter s (record q {
      tiles = m;
      by_plan_node = index;
      outstanding_count = q.outstanding_count +ℤ pos 1;
    })
      ≡ (if same_prediction prediction_outstanding s then counter s q +ℤ pos 1 else counter s q)
counter_stored prediction_outstanding q m index = refl
counter_stored s q m index = refl

pub replace_existing-tiles :
    (o : Option TilePrediction) (pred : TilePrediction) (p : PredictedState)
    → (replace_existing o pred p).tiles ≡ p.tiles
unfolding replace_existing
replace_existing-tiles none pred p = refl
replace_existing-tiles (some existing) pred p =
    either_branch (λ (q : PredictedState). q.tiles ≡ p.tiles)
      (same existing.plan_node_id pred.plan_node_id)
      (adjust_count-tiles existing.status (negsuc 0) p)
      (adjust_count-tiles existing.status (negsuc 0) p)

counter-replace_existing :
    (s : PredictionStatus) (o : Option TilePrediction) (pred : TilePrediction) (p : PredictedState)
    → counter s (replace_existing o pred p)
      ≡ (if taken_off s o then counter s p +ℤ negsuc 0 else counter s p)
unfolding replace_existing
counter-replace_existing s none pred p = refl
counter-replace_existing s (some existing) pred p =
    let q = adjust_count existing.status (negsuc 0) p in
    let e = counter-adjust_count existing.status s (negsuc 0) p in
    either_branch
      (λ (r : PredictedState).
        counter s r ≡ (if in_status s existing then counter s p +ℤ negsuc 0 else counter s p))
      (same existing.plan_node_id pred.plan_node_id) e
      (counter_index s q (forget_coord existing.plan_node_id existing.coord q.by_plan_node) ∙ e)

pub predict-IsCounted :
    (now : ℕ) (pred : TilePrediction) (p : PredictedState)
    → IsCounted p
    → IsCounted (predict now pred p)
unfolding predict
predict-IsCounted now pred p v =
    let c = pred.coord in
    let new = stamped now pred in
    let o = lookup c p.tiles in
    let q = replace_existing o pred p in
    let m = insert c new p.tiles in
    let index = note_coord pred.plan_node_id c q.by_plan_node in
    retiled-IsCounted (predict now pred p) m (ap (insert c new) (replace_existing-tiles o pred p))
      (insert-IsKeyed c new p.tiles v.keyed) (own-insert c new p.tiles refl v.own)
      (λ s.
        counter_stored s q (insert c new q.tiles) index
        ∙ ap (λ z. if same_prediction prediction_outstanding s then z +ℤ pos 1 else z)
            (counter-replace_existing s o pred p)
        ∙ moved (taken_off s o) (same_prediction prediction_outstanding s)
            (tally (in_status s) p.tiles) (tally (in_status s) m) (counter s p) (v.counted s)
            (ap (λ k. tally (in_status s) m + k) (sym (one_if_taken s o))
              ∙ tally-insert (in_status s) c new p.tiles))
