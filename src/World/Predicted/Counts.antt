-- ===== src/World/Predicted/Counts.antt =====
-- The counters of internal/worldmodel/predicted.go.
pub mod Operations
use mathlib.Core.Path.{subst}
use df_ai.Base.{
  Bool, Bool-cases, IsKeyed, List, Option, String, ap, arith, either_branch, if◌then◌else◌, inl,
  inr, insert, insert-IsKeyed, lookup, lookup-insert, lookup-remove, nat_key, negsuc, none, one_if,
  pos, refl, remove, remove-IsKeyed, some, string_key, sym, tally, tally-insert, tally-remove, ℕ, ℤ,
  ◌+ℤ◌, ◌+◌, ◌∙◌, ◌≡◌,
}
use df_ai.World.Coord.{Coord, coord_key, same_coord, same_coord_iff}
use df_ai.World.Predicted.{
  CoordSet, PredictedState, PredictionStatus, TilePrediction, adjust_count, confirm,
  confirmed_prediction, diverged_prediction, drop_tile, mark_diverged, prediction_confirmed,
  prediction_diverged, prediction_outstanding, same_prediction, transition,
}

abbrev pub in_status : PredictionStatus → TilePrediction → Bool
in_status s pred = same_prediction pred.status s

abbrev pub counter : PredictionStatus → PredictedState → ℤ
counter prediction_outstanding p = p.outstanding_count
counter prediction_confirmed p = p.confirmed_count
counter prediction_diverged p = p.diverged_count

-- Every prediction is stored once, at its own coordinate, and each counter is the number of the
-- predictions with its status.
pub record IsCounted (p : PredictedState) : Type 0 where
  pub keyed : IsKeyed p.tiles
  pub own : (c : Coord) (pred : TilePrediction) → lookup c p.tiles ≡ some pred → pred.coord ≡ c
  pub counted : (s : PredictionStatus) → counter s p ≡ pos (tally (in_status s) p.tiles)

pub adjust_count-tiles :
    (r : PredictionStatus) (d : ℤ) (p : PredictedState) → (adjust_count r d p).tiles ≡ p.tiles
unfolding adjust_count
adjust_count-tiles prediction_outstanding d p = refl
adjust_count-tiles r d p = refl

pub adjust_count-by_plan_node :
    (r : PredictionStatus) (d : ℤ) (p : PredictedState)
    → (adjust_count r d p).by_plan_node ≡ p.by_plan_node
unfolding adjust_count
adjust_count-by_plan_node prediction_outstanding d p = refl
adjust_count-by_plan_node r d p = refl

pub counter-adjust_count :
    (r s : PredictionStatus) (d : ℤ) (p : PredictedState)
    → counter s (adjust_count r d p)
      ≡ (if same_prediction r s then counter s p +ℤ d else counter s p)
unfolding adjust_count
counter-adjust_count prediction_outstanding prediction_outstanding d p = refl
counter-adjust_count prediction_confirmed prediction_outstanding d p = refl
counter-adjust_count prediction_diverged prediction_outstanding d p = refl
counter-adjust_count r s d p = refl

counter_tiles :
    (s : PredictionStatus) (p : PredictedState) (m : List (Coord × TilePrediction))
    → counter s (record p { tiles = m }) ≡ counter s p
counter_tiles prediction_outstanding p m = refl
counter_tiles s p m = refl

pub counter_index :
    (s : PredictionStatus) (p : PredictedState) (m : List (String × CoordSet))
    → counter s (record p { by_plan_node = m }) ≡ counter s p
counter_index prediction_outstanding p m = refl
counter_index s p m = refl

-- The arithmetic of a counter from which a prediction is taken, if it has the status.
less :
    (b : Bool) (n n' : ℕ) (z : ℤ)
    → z ≡ pos n
    → n' + (if b then 1 else 0) ≡ n
    → (if b then z +ℤ negsuc 0 else z) ≡ pos n'
unfolding ◌+ℤ◌
less b n n' z e h = ground arith

-- And of one from which one is taken and to which one is added.
pub moved :
    (b b' : Bool) (n n' : ℕ) (z : ℤ)
    → z ≡ pos n
    → n' + (if b then 1 else 0) ≡ n + (if b' then 1 else 0)
    → (if b' then (if b then z +ℤ negsuc 0 else z) +ℤ pos 1 else (if b then z +ℤ negsuc 0 else z))
      ≡ pos n'
unfolding ◌+ℤ◌
moved b b' n n' z e h = ground arith

pub drop_tile-IsCounted :
    (c : Coord) (pred : TilePrediction) (p : PredictedState)
    → lookup c p.tiles ≡ some pred
    → IsCounted p
    → IsCounted (drop_tile c pred p)
unfolding drop_tile
drop_tile-IsCounted c pred p found v = record {
  keyed = remove-IsKeyed c p.tiles v.keyed;
  own = λ d q e. v.own d q (ground (arith, lookup-remove c d p.tiles));
  counted = λ s.
      counter_tiles s (adjust_count pred.status (negsuc 0) p) (remove c p.tiles)
      ∙ counter-adjust_count pred.status s (negsuc 0) p
      ∙ less (in_status s pred) (tally (in_status s) p.tiles)
          (tally (in_status s) (remove c p.tiles)) (counter s p) (v.counted s)
          (ap (λ o. tally (in_status s) (remove c p.tiles) + one_if (in_status s) o) (sym found)
            ∙ tally-remove (in_status s) c p.tiles v.keyed);
}

-- The invariant, from facts about the tiles.
pub retiled-IsCounted :
    (q : PredictedState) (m : List (Coord × TilePrediction))
    → q.tiles ≡ m
    → IsKeyed m
    → ((c : Coord) (pred : TilePrediction) → lookup c m ≡ some pred → pred.coord ≡ c)
    → ((s : PredictionStatus) → counter s q ≡ pos (tally (in_status s) m))
    → IsCounted q
retiled-IsCounted q m e keyed own counted = record {
  keyed = subst (λ l. IsKeyed l) (sym e) keyed;
  own = λ c pred found. own c pred (ap (lookup c) (sym e) ∙ found);
  counted = λ s. counted s ∙ ap (λ l. pos (tally (in_status s) l)) (sym e);
}

pub own-insert :
    (c : Coord) (new : TilePrediction) (m : List (Coord × TilePrediction))
    → new.coord ≡ c
    → ((d : Coord) (pred : TilePrediction) → lookup d m ≡ some pred → pred.coord ≡ d)
    → (d : Coord) (pred : TilePrediction) → lookup d (insert c new m) ≡ some pred
    → pred.coord ≡ d
own-insert c new m at own d pred e = elim (Bool-cases (same_coord c d)) [
  | inl here ↦
      let it : new ≡ pred = ground (arith, lookup-insert c d new m) in
      ap (λ q. q.coord) (sym it) ∙ at ∙ (same_coord_iff c d).0 here
  | inr there ↦ own d pred (ground (arith, lookup-insert c d new m))
]

-- A prediction in the place of another, at the same coordinate.
replaced-IsCounted :
    (new : TilePrediction) (c : Coord) (p : PredictedState) (pred : TilePrediction)
    → new.coord ≡ c
    → lookup c p.tiles ≡ some pred
    → IsCounted p
    → IsCounted (
        adjust_count new.status
          (pos 1)
          (record (adjust_count pred.status (negsuc 0) p) { tiles = insert c new p.tiles }))
replaced-IsCounted new c p pred at found v =
    let taken = adjust_count pred.status (negsuc 0) p in
    let m = insert c new p.tiles in
    retiled-IsCounted (adjust_count new.status (pos 1) (record taken { tiles = m })) m
      (adjust_count-tiles new.status (pos 1) (record taken { tiles = m }))
      (insert-IsKeyed c new p.tiles v.keyed) (own-insert c new p.tiles at v.own)
      (λ s.
        counter-adjust_count new.status s (pos 1) (record taken { tiles = m })
        ∙ ap (λ z. if in_status s new then z +ℤ pos 1 else z)
            (counter_tiles s taken m ∙ counter-adjust_count pred.status s (negsuc 0) p)
        ∙ moved (in_status s pred) (in_status s new) (tally (in_status s) p.tiles)
            (tally (in_status s) m) (counter s p) (v.counted s)
            (ap (λ o. tally (in_status s) m + one_if (in_status s) o) (sym found)
              ∙ tally-insert (in_status s) c new p.tiles))

transition-IsCounted :
    (change : TilePrediction → TilePrediction) (o : Option TilePrediction) (c : Coord)
    (p : PredictedState)
    → ((pred : TilePrediction) → (change pred).coord ≡ pred.coord)
    → lookup c p.tiles ≡ o
    → IsCounted p
    → IsCounted (transition change o c p).1
unfolding transition
transition-IsCounted change none c p keeps found v = v
transition-IsCounted change (some pred) c p keeps found v =
    either_branch (λ (r : Bool × PredictedState). IsCounted r.1)
      (same_prediction pred.status prediction_outstanding)
      (replaced-IsCounted (change pred) c p pred (keeps pred ∙ v.own c pred found) found v) v

pub confirm-IsCounted :
    (now : ℕ) (c : Coord) (p : PredictedState) → IsCounted p → IsCounted (confirm now c p).1
unfolding confirm
confirm-IsCounted now c p v =
    transition-IsCounted (confirmed_prediction now) (lookup c p.tiles) c p (λ pred. refl) refl v

pub mark_diverged-IsCounted :
    (now : ℕ) (c : Coord) (reason : String) (p : PredictedState)
    → IsCounted p
    → IsCounted (mark_diverged now c reason p).1
unfolding mark_diverged
mark_diverged-IsCounted now c reason p v =
    transition-IsCounted (diverged_prediction now reason) (lookup c p.tiles) c p (λ pred. refl) refl
      v

-- A change of the index leaves the counts.
pub index-IsCounted :
    (p : PredictedState) (m : List (String × CoordSet))
    → IsCounted p
    → IsCounted (record p { by_plan_node = m })
index-IsCounted p m v =
    retiled-IsCounted (record p { by_plan_node = m }) p.tiles refl v.keyed v.own
      (λ s. counter_index s p m ∙ v.counted s)
