-- ===== src/World/Predicted/Index/Predict.antt =====
-- The index by plan node of internal/worldmodel/predicted.go under Predict.
use df_ai.Base.{
  Bool, Bool-cases, Option, String, ap, arith, false, if◌then◌else◌, inl, inr, insert, lookup,
  lookup-insert, negsuc, none, not, refl, same, same_iff, same_sound, some, string_key, sym, true,
  ℕ, ◌&&◌, ◌∙◌, ◌≡◌,
}
use df_ai.World.Coord.{Coord, coord_key, same_coord, same_coord_iff}
use df_ai.World.Predicted.{
  PredictedState, TilePrediction, forget_coord, is_nil, predict, replace_existing, stamped,
}
use df_ai.Plan.Dag.{new}
use df_ai.World.Predicted.Counts.Operations.{replace_existing-tiles}
use df_ai.World.Predicted.Counts.{IsCounted, adjust_count-by_plan_node}
use df_ai.World.Predicted.Index.{
  IsAgreed, belongs, has_coord, has_coord-forget_coord, has_coord-note_coord, is_indexed,
}

-- Whether Predict takes a coordinate from the set of a plan node.
abbrev is_stale : String → TilePrediction → Option TilePrediction → Bool
is_stale id pred none = false
is_stale id pred (some existing) =
    not (same existing.plan_node_id pred.plan_node_id) && same existing.plan_node_id id

replaced_index :
    (id : String) (d : Coord) (o : Option TilePrediction) (pred : TilePrediction)
    (p : PredictedState)
    → ((e : TilePrediction) → o ≡ some e → e.coord ≡ pred.coord)
    → has_coord d (lookup id (replace_existing o pred p).by_plan_node)
      ≡ (if is_stale id pred o && same_coord pred.coord d then false else is_indexed id d p)
unfolding replace_existing
replaced_index id d none pred p own = refl
replaced_index id d (some existing) pred p own =
    let index = adjust_count-by_plan_node existing.status (negsuc 0) p in
    elim (Bool-cases (same existing.plan_node_id pred.plan_node_id)) [
      | inl it ↦ rw it (ap (λ m. has_coord d (lookup id m)) index)
      | inr other ↦ rw other (
          ap (λ m. has_coord d (lookup id (forget_coord existing.plan_node_id existing.coord m)))
            index
          ∙ has_coord-forget_coord existing.plan_node_id id existing.coord d p.by_plan_node
          ∙ ap
              (λ c.
                if same existing.plan_node_id id && same_coord c d
                then false
                else is_indexed id d p)
              (own existing refl))
    ]

-- At the coordinate of the new prediction.
noted_here :
    (id : String) (pred : TilePrediction) (o : Option TilePrediction)
    → (if not (is_nil pred.plan_node_id) && same pred.plan_node_id id
        then true
        else (if is_stale id pred o then false else belongs id o))
      ≡ (not (is_nil id) && same pred.plan_node_id id)
noted_here id pred none = elim (Bool-cases (same pred.plan_node_id id)) [
  | inl it ↦
      let nil : is_nil pred.plan_node_id ≡ is_nil id =
        ap is_nil (same_sound pred.plan_node_id id it) in
      ground (arith, it, nil)
  | inr other ↦ ground (arith, other)
]
noted_here id pred (some e) = elim (Bool-cases (same pred.plan_node_id id)) [
  | inl it ↦
      let nil : is_nil pred.plan_node_id ≡ is_nil id =
        ap is_nil (same_sound pred.plan_node_id id it) in
      ground (arith, it, nil)
  | inr other ↦ ground (
    arith,
    other,
    same_iff e.plan_node_id id,
    same_iff e.plan_node_id pred.plan_node_id,
    same_iff pred.plan_node_id id,
  )
]

noted :
    (id : String) (d : Coord) (pred new : TilePrediction) (p : PredictedState)
    → new.plan_node_id ≡ pred.plan_node_id
    → IsAgreed p
    → (if not (is_nil pred.plan_node_id) && same pred.plan_node_id id && same_coord pred.coord d
        then true
        else (if is_stale id pred (lookup pred.coord p.tiles) && same_coord pred.coord d
            then false
            else is_indexed id d p))
      ≡ belongs id (lookup d (insert pred.coord new p.tiles))
noted id d pred new p same_node v = elim (Bool-cases (same_coord pred.coord d)) [
  | inl here ↦
      let place : lookup d p.tiles ≡ lookup pred.coord p.tiles =
        ap (λ e. lookup e p.tiles) (sym ((same_coord_iff pred.coord d).0 here)) in
      ground (
        arith,
        here,
        v id d,
        place,
        lookup-insert pred.coord d new p.tiles,
        noted_here id pred (lookup pred.coord p.tiles),
      )
  | inr other ↦ ground (arith, other, v id d, lookup-insert pred.coord d new p.tiles)
]

pub predict-IsAgreed :
    (now : ℕ) (pred : TilePrediction) (p : PredictedState)
    → IsCounted p
    → IsAgreed p
    → IsAgreed (predict now pred p)
unfolding predict
predict-IsAgreed now pred p k v id d =
    let c = pred.coord in
    let new = stamped now pred in
    let o = lookup c p.tiles in
    let q = replace_existing o pred p in
    has_coord-note_coord pred.plan_node_id id c d q.by_plan_node
    ∙ ap
        (λ b.
          if not (is_nil pred.plan_node_id) && same pred.plan_node_id id && same_coord c d
          then true
          else b)
        (replaced_index id d o pred p (λ e found. k.own c e found))
    ∙ noted id d pred new p refl v
    ∙ ap (λ l. belongs id (lookup d (insert c new l))) (sym (replace_existing-tiles o pred p))
