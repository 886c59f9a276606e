-- ===== src/Plan/Dag/Promotion.antt =====
-- The loop of promoteNewlyReadyLocked of internal/plan/dag.go, and the order in which it visits the
-- nodes.
use df_ai.Plan.Node.{Node, same_status, status_done}
use df_ai.Plan.Dag.{all_deps_done, change, find, is_done, promote, promote_newly_ready}
use df_ai.Base.{
  All, Bool, Bool-cases, List, String, [], ap, arith, false, if◌then◌else◌, inl, inr, is_listed,
  map, map-identity, map-map, map-pointwise, refl, same, sym, true, ◌∙◌, ◌∷◌, ◌≡◌,
}

-- A change that keeps the id.
abbrev pub KeepsId : (Node → Node) → Type 0
KeepsId f = (n : Node) → (f n).id ≡ n.id

-- A change after which as many nodes are done.
abbrev pub KeepsDone : (Node → Node) → Type 0
KeepsDone f = (n : Node) → same_status (f n).status status_done ≡ same_status n.status status_done

pub promote-id : (ns : List Node) → KeepsId (promote ns)
unfolding promote
promote-id ns n = ground arith

pub promote-status : (ns : List Node) → KeepsDone (promote ns)
unfolding promote
promote-status ns n = ground arith

unfoldable pub at : String → (Node → Node) → Node → Node
at id f n = if same n.id id then f n else n

pub change-map :
    (id : String) (f : Node → Node) (ns : List Node) → change id f ns ≡ map (at id f) ns
unfolding change at
change-map id f [] = refl
change-map id f (n ∷ ns) = ap (λ l. at id f n ∷ l) (change-map id f ns)

-- A node and the node after a change are done at the same time.
pub is_done-map :
    (f : Node → Node) (id : String) (ns : List Node)
    → KeepsId f
    → KeepsDone f
    → is_done (map f ns) id ≡ is_done ns id
unfolding is_done find
is_done-map f id [] keeps done = refl
is_done-map f id (n ∷ ns) keeps done =
    rw (keeps n, is_done)
      (elim (Bool-cases (same n.id id)) [
        | inl a ↦ rw (a, is_done) (done n)
        | inr a ↦ rw (a, is_done) (is_done-map f id ns keeps done)
      ])

pub all_deps_done-map :
    (f : Node → Node) (ids : List String) (ns : List Node)
    → KeepsId f
    → KeepsDone f
    → all_deps_done (map f ns) ids ≡ all_deps_done ns ids
unfolding all_deps_done
all_deps_done-map f [] ns keeps done = refl
all_deps_done-map f (id ∷ ids) ns keeps done =
    rw (is_done-map f id ns keeps done, all_deps_done-map f ids ns keeps done) refl

-- Promotion sees the same dependencies before and after such a change.
promote-map :
    (f : Node → Node) (ns : List Node) (n : Node)
    → KeepsId f
    → KeepsDone f
    → promote (map f ns) n ≡ promote ns n
unfolding promote
promote-map f ns n keeps done = rw (all_deps_done-map f n.dependencies ns keeps done) refl

promote-promote : (ns : List Node) (n : Node) → promote ns (promote ns n) ≡ promote ns n
unfolding promote
promote-promote ns n = ground arith

at-id : (id : String) (f : Node → Node) → KeepsId f → KeepsId (at id f)
unfolding at
at-id id f keeps n = elim (Bool-cases (same n.id id)) [ inl a ↦ rw a (keeps n) | inr a ↦ rw a refl ]

at-status : (id : String) (f : Node → Node) → KeepsDone f → KeepsDone (at id f)
unfolding at
at-status id f keeps n = elim (Bool-cases (same n.id id)) [
  | inl a ↦ rw a (keeps n)
  | inr a ↦ rw a refl
]

-- What the loop makes of a node.
listed_promote : List String → List Node → Node → Node
listed_promote order ns n = if is_listed n.id order then promote ns n else n

promoted_again :
    (b : Bool) (ns : List Node) (n : Node)
    → (if b then promote ns (promote ns n) else promote ns n) ≡ promote ns n
promoted_again true ns n = promote-promote ns n
promoted_again false ns n = refl

listed_step :
    (id : String) (order : List String) (ns : List Node) (n : Node)
    → listed_promote order (map (at id (promote ns)) ns) (at id (promote ns) n)
      ≡ listed_promote (id ∷ order) ns n
unfolding listed_promote at
listed_step id order ns n =
    let same_deps =
      promote-map (at id (promote ns)) ns (at id (promote ns) n)
        (at-id id (promote ns) (promote-id ns)) (at-status id (promote ns) (promote-status ns)) in
    rw (same_deps, at-id id (promote ns) (promote-id ns) n)
      (elim (Bool-cases (same n.id id)) [
        | inl a ↦ rw (a, at, listed_promote) (promoted_again (is_listed n.id order) ns n)
        | inr a ↦ rw (a, at, listed_promote) refl
      ])

promote_newly_ready-map :
    (order : List String) (ns : List Node)
    → promote_newly_ready order ns ≡ map (listed_promote order ns) ns
unfolding promote_newly_ready listed_promote
promote_newly_ready-map [] ns = sym (map-identity ns)
promote_newly_ready-map (id ∷ order) ns =
    ap (promote_newly_ready order) (change-map id (promote ns) ns)
    ∙ promote_newly_ready-map order (map (at id (promote ns)) ns)
    ∙ map-map _ _ ns
    ∙ map-pointwise _ _ ns (listed_step id order ns)

-- The order visits every node.
abbrev pub Covers : List String → List Node → Type 0
Covers order ns = All (λ n. is_listed n.id order ≡ true) ns

all_listed :
    (order : List String) (all ns : List Node)
    → Covers order ns
    → map (listed_promote order all) ns ≡ map (promote all) ns
unfolding listed_promote
all_listed order all [] h = refl
all_listed order all (n ∷ ns) h = rw (h.0, all_listed order all ns h.1) refl

-- The loop of promoteNewlyReadyLocked over the keys in any order that visits every node gives what
-- promoting all nodes at once by the statuses before the loop gives.
pub promote_newly_ready_lem :
    (order : List String) (ns : List Node)
    → Covers order ns
    → promote_newly_ready order ns ≡ map (promote ns) ns
promote_newly_ready_lem order ns h = promote_newly_ready-map order ns ∙ all_listed order ns ns h
