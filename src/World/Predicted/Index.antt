-- ===== src/World/Predicted/Index.antt =====
-- The index by plan node of internal/worldmodel/predicted.go.
pub mod Predict
use df_ai.Base.{
  Bool, Bool-cases, List, Option, String, [], ap, arith, either_branch, false, if◌then◌else◌, inl,
  inr, insert, lookup, lookup-insert, lookup-remove, negsuc, none, not, pos, refl, remove, same,
  same_sound, some, string_key, sym, true, ◌&&◌, ◌>>=◌, ◌∙◌, ◌∷◌, ◌≡◌,
}
use df_ai.World.Coord.{Coord, coord_key, same_coord, same_coord_iff}
use df_ai.World.Predicted.{
  CoordSet, PredictedState, TilePrediction, adjust_count, drop_tile, forget_coord, forget_in,
  is_nil, note_coord, prediction_outstanding, retire_tile, same_prediction, set_of, store_set,
  transition,
}
use df_ai.Plan.Dag.{change, is_some, new, put}
use df_ai.World.Predicted.Counts.{adjust_count-by_plan_node, adjust_count-tiles}

abbrev pub has_coord : Coord → Option CoordSet → Bool
has_coord c none = false
has_coord c (some set) = is_some (lookup c set)

-- Whether the index has a coordinate under a plan node.
abbrev pub is_indexed : String → Coord → PredictedState → Bool
is_indexed id c p = has_coord c (lookup id p.by_plan_node)

-- Whether a prediction is one of a plan node.
abbrev pub belongs : String → Option TilePrediction → Bool
belongs id none = false
belongs id (some pred) = not (is_nil id) && same pred.plan_node_id id

-- The index has a coordinate under a plan node where the prediction there is one of that node.
abbrev pub IsAgreed : PredictedState → Type 0
IsAgreed p = (id : String) (c : Coord) → is_indexed id c p ≡ belongs id (lookup c p.tiles)

pub has_coord-remove :
    (id j : String) (d : Coord) (m : List (String × CoordSet))
    → has_coord d (lookup j (remove id m)) ≡ (if same id j then false else has_coord d (lookup j m))
has_coord-remove id j d m = ground (arith, lookup-remove id j m)

has_coord-insert :
    (id j : String) (d : Coord) (set : CoordSet) (m : List (String × CoordSet))
    → has_coord d (lookup j (insert id set m))
      ≡ (if same id j then is_some (lookup d set) else has_coord d (lookup j m))
has_coord-insert id j d set m = ground (arith, lookup-insert id j set m)

has_coord-store_set :
    (id j : String) (d : Coord) (set : CoordSet) (m : List (String × CoordSet))
    → has_coord d (lookup j (store_set id set m))
      ≡ (if same id j then is_some (lookup d set) else has_coord d (lookup j m))
unfolding lookup
has_coord-store_set id j d [] m = has_coord-remove id j d m
has_coord-store_set id j d (x ∷ set) m = has_coord-insert id j d (x ∷ set) m

has_coord-forget_in :
    (id j : String) (c d : Coord) (m : List (String × CoordSet)) (o : Option CoordSet)
    → lookup id m ≡ o
    → has_coord d (lookup j (forget_in id c m o))
      ≡ (if same id j && same_coord c d then false else has_coord d (lookup j m))
has_coord-forget_in id j c d m none e = elim (Bool-cases (same id j)) [
  | inl it ↦ let gone : lookup j m ≡ none = rw (← same_sound id j it) e in ground (arith, it, gone)
  | inr other ↦ ground (arith, other)
]
has_coord-forget_in id j c d m (some set) e =
    has_coord-store_set id j d (remove c set) m ∙ elim (Bool-cases (same id j)) [
      | inl it ↦
          let kept : lookup j m ≡ some set = rw (← same_sound id j it) e in
          ground (arith, it, kept, lookup-remove c d set)
      | inr other ↦ ground (arith, other)
    ]

pub has_coord-forget_coord :
    (id j : String) (c d : Coord) (m : List (String × CoordSet))
    → has_coord d (lookup j (forget_coord id c m))
      ≡ (if same id j && same_coord c d then false else has_coord d (lookup j m))
unfolding forget_coord
has_coord-forget_coord id j c d m = has_coord-forget_in id j c d m (lookup id m) refl

set_of_lem : (d : Coord) (o : Option CoordSet) → is_some (lookup d (set_of o)) ≡ has_coord d o
unfolding lookup
set_of_lem d none = refl
set_of_lem d (some set) = refl

pub has_coord-note_coord :
    (id j : String) (c d : Coord) (m : List (String × CoordSet))
    → has_coord d (lookup j (note_coord id c m))
      ≡ (if not (is_nil id) && same id j && same_coord c d then true else has_coord d (lookup j m))
unfolding note_coord
has_coord-note_coord id j c d m = elim (Bool-cases (is_nil id)) [
  | inl nil ↦ ground (arith, nil)
  | inr named ↦
      let set = set_of (lookup id m) in
      let put = has_coord-insert id j d (insert c tt set) m in
      elim (Bool-cases (same id j)) [
        | inl it ↦
            let before : is_some (lookup d set) ≡ has_coord d (lookup j m) =
              rw (same_sound id j it) (set_of_lem d (lookup j m)) in
            ground (arith, named, it, before, put, lookup-insert c d tt set)
        | inr other ↦ ground (arith, named, other, put)
      ]
]

pub retire_tile-IsAgreed :
    (c : Coord) (pred : TilePrediction) (p : PredictedState)
    → lookup c p.tiles ≡ some pred
    → IsAgreed p
    → IsAgreed (retire_tile c pred p)
unfolding drop_tile
retire_tile-IsAgreed c pred p found v id d =
    let index = adjust_count-by_plan_node pred.status (negsuc 0) p in
    ap (λ m. has_coord d (lookup id (forget_coord pred.plan_node_id c m))) index
    ∙ has_coord-forget_coord pred.plan_node_id id c d p.by_plan_node
    ∙ elim (Bool-cases (same_coord c d)) [
      | inl here ↦
          let there : lookup d p.tiles ≡ some pred = rw (← (same_coord_iff c d).0 here) found in
          ground (arith, here, there, v id d, lookup-remove c d p.tiles)
      | inr other ↦ ground (arith, other, v id d, lookup-remove c d p.tiles)
    ]

replaced-IsAgreed :
    (new : TilePrediction) (c : Coord) (p : PredictedState) (pred : TilePrediction)
    → new.plan_node_id ≡ pred.plan_node_id
    → lookup c p.tiles ≡ some pred
    → IsAgreed p
    → IsAgreed (
        adjust_count new.status
          (pos 1)
          (record (adjust_count pred.status (negsuc 0) p) { tiles = insert c new p.tiles }))
replaced-IsAgreed new c p pred same_node found v id d =
    let taken = adjust_count pred.status (negsuc 0) p in
    let m = insert c new p.tiles in
    let index =
      adjust_count-by_plan_node new.status (pos 1) (record taken { tiles = m })
      ∙ adjust_count-by_plan_node pred.status (negsuc 0) p in
    let tiles = adjust_count-tiles new.status (pos 1) (record taken { tiles = m }) in
    ap (λ l. has_coord d (lookup id l)) index ∙ core ∙ ap (λ l. belongs id (lookup d l)) (sym tiles)
  where
    core : has_coord d (lookup id p.by_plan_node) ≡ belongs id (lookup d (insert c new p.tiles))
    core = elim (Bool-cases (same_coord c d)) [
      | inl here ↦
          let there : lookup d p.tiles ≡ some pred = rw (← (same_coord_iff c d).0 here) found in
          ground (arith, here, there, v id d, lookup-insert c d new p.tiles)
      | inr other ↦ ground (arith, other, v id d, lookup-insert c d new p.tiles)
    ]

pub transition-IsAgreed :
    (change : TilePrediction → TilePrediction) (o : Option TilePrediction) (c : Coord)
    (p : PredictedState)
    → ((pred : TilePrediction) → (change pred).plan_node_id ≡ pred.plan_node_id)
    → lookup c p.tiles ≡ o
    → IsAgreed p
    → IsAgreed (transition change o c p).1
unfolding transition
transition-IsAgreed change none c p keeps found v = v
transition-IsAgreed change (some pred) c p keeps found v =
    either_branch (λ (r : Bool × PredictedState). IsAgreed r.1)
      (same_prediction pred.status prediction_outstanding)
      (replaced-IsAgreed (change pred) c p pred (keeps pred) found v) v
