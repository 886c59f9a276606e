-- ===== src/Plan/Dag/Settled.antt =====
-- The dependencies of the nodes by their status, under Update of internal/plan/dag.go.
use df_ai.Plan.Node.{
  Node, Status, same_status, status_active, status_done, status_failed, status_pending,
  status_ready,
}
use df_ai.Plan.Dag.{
  Dag, all_deps_done, change, find, is_done, is_some, promote, promote_newly_ready, update,
}
use df_ai.Plan.Dag.Promotion.{
  Covers, KeepsId, all_deps_done-map, at, change-map, promote-id, promote-status,
  promote_newly_ready_lem,
}
use df_ai.Base.{
  All, Bool, Bool-cases, List, String, [], arith, if◌then◌else◌, inl, inr, map, not, refl, same,
  true, ◌&&◌, ◌∷◌, ◌≡◌,
}

-- What a status tells of the dependencies, which are all done or not.
unfoldable pub agrees : Status → Bool → Bool
agrees status_pending deps_done = not deps_done
agrees status_ready deps_done = deps_done
agrees status_active deps_done = deps_done
agrees other deps_done = true

abbrev pub AreSettled : List Node → List Node → Type 0
AreSettled all ns = All (λ n. agrees n.status (all_deps_done all n.dependencies) ≡ true) ns

abbrev pub IsSettled : Dag → Type 0
IsSettled d = AreSettled d.nodes d.nodes

-- The changes of a status that the mutators make.
unfoldable pub is_transition : Status → Status → Bool
is_transition status_ready status_active = true
is_transition status_pending status_done = true
is_transition status_ready status_done = true
is_transition status_active status_done = true
is_transition status_pending status_failed = true
is_transition status_ready status_failed = true
is_transition status_active status_failed = true
is_transition s t = same_status s t

-- A mutator that keeps the id and the dependencies and makes no other change of the status.
abbrev pub IsMutator : (Node → Node) → Type 0
IsMutator f =
    (n : Node)
    → ((f n).id ≡ n.id)
      × ((f n).dependencies ≡ n.dependencies)
      × (is_transition n.status (f n).status ≡ true)

abbrev pub MakesDone : (Node → Node) → Type 0
MakesDone f =
    (n : Node)
    → same_status n.status status_done ≡ true
    → same_status (f n).status status_done ≡ true

is_done_mono :
    (f : Node → Node) (id : String) (ns : List Node)
    → KeepsId f
    → MakesDone f
    → is_done ns id ≡ true
    → is_done (map f ns) id ≡ true
unfolding is_done find
is_done_mono f id [] keeps done h = h
is_done_mono f id (n ∷ ns) keeps done h = elim (Bool-cases (same n.id id)) [
  | inl a ↦ rw (keeps n, a, is_done) (done n (rw (a, is_done) at h))
  | inr a ↦ rw (keeps n, a, is_done) (is_done_mono f id ns keeps done (rw (a, is_done) at h))
]

all_deps_done_mono :
    (f : Node → Node) (ids : List String) (ns : List Node)
    → KeepsId f
    → MakesDone f
    → all_deps_done ns ids ≡ true
    → all_deps_done (map f ns) ids ≡ true
unfolding all_deps_done
all_deps_done_mono f [] ns keeps done h = h
all_deps_done_mono f (id ∷ ids) ns keeps done h =
    let one = is_done_mono f id ns keeps done in
    let others = all_deps_done_mono f ids ns keeps done in ground (arith, one, others)

-- A node after a transition, and then a promotion.
agrees-promoted :
    (s t : Status) (before after : Bool)
    → is_transition s t ≡ true
    → agrees s before ≡ true
    → (before ≡ true → after ≡ true)
    → agrees (if same_status t status_pending && after then status_ready else t) after ≡ true
unfolding agrees is_transition
agrees-promoted s t before after move h more = ground arith

pub promote-status_if :
    (ns : List Node) (n : Node)
    → (promote ns n).status ≡ (
        if same_status n.status status_pending && all_deps_done ns n.dependencies
        then status_ready
        else n.status)
unfolding promote
promote-status_if ns n = ground arith

pub promote-dependencies :
    (ns : List Node) (n : Node) → (promote ns n).dependencies ≡ n.dependencies
unfolding promote
promote-dependencies ns n = ground arith

unchanged : (s : Status) → is_transition s s ≡ true
unfolding is_transition
unchanged s = ground arith

still_done :
    (s t : Status)
    → is_transition s t ≡ true
    → same_status s status_done ≡ true
    → same_status t status_done ≡ true
unfolding is_transition
still_done s t move h = ground arith

pub at-IsMutator : (id : String) (f : Node → Node) → IsMutator f → IsMutator (at id f)
unfolding at is_transition
at-IsMutator id f h n = elim (Bool-cases (same n.id id)) [
  | inl a ↦ rw a (h n)
  | inr a ↦ rw a (refl, refl, unchanged n.status)
]

IsMutator-MakesDone : (f : Node → Node) → IsMutator f → MakesDone f
IsMutator-MakesDone f h n done = still_done n.status (f n).status (h n).2 done

module _ (f : Node → Node) (ns : List Node) (h : IsMutator f) where
  node_agrees :
      (n : Node)
      → agrees n.status (all_deps_done ns n.dependencies) ≡ true
      → agrees (promote (map f ns) (f n)).status (
          all_deps_done
            (map (promote (map f ns)) (map f ns))
            (promote (map f ns) (f n)).dependencies)
        ≡ true
  node_agrees n ok_before =
      rw
        (
          promote-dependencies (map f ns) (f n),
          all_deps_done-map (promote (map f ns)) (f n).dependencies (map f ns)
              (promote-id (map f ns)) (promote-status (map f ns)),
          promote-status_if (map f ns) (f n),
          (h n).1,
        )
        (agrees-promoted n.status (f n).status (all_deps_done ns n.dependencies)
          (all_deps_done (map f ns) n.dependencies) (h n).2 ok_before
          (all_deps_done_mono f n.dependencies ns (λ m. (h m).0) (IsMutator-MakesDone f h)))

  pub all_agree :
      (l : List Node)
      → AreSettled ns l
      → AreSettled (map (promote (map f ns)) (map f ns)) (map (promote (map f ns)) (map f l))
  all_agree [] s = tt
  all_agree (n ∷ l) s = (node_agrees n s.0, all_agree l s.1)

pub Covers-map :
    (order : List String) (f : Node → Node) (ns : List Node)
    → KeepsId f
    → Covers order ns
    → Covers order (map f ns)
Covers-map order f [] keeps h = tt
Covers-map order f (n ∷ ns) keeps h = (rw (keeps n) h.0, Covers-map order f ns keeps h.1)

pub updated_nodes :
    (order : List String) (id : String) (f : Node → Node) (ns : List Node)
    → KeepsId (at id f)
    → Covers order ns
    → promote_newly_ready order (change id f ns)
      ≡ map (promote (map (at id f) ns)) (map (at id f) ns)
updated_nodes order id f ns keeps covers =
    rw (change-map id f ns) (
      promote_newly_ready_lem order (map (at id f) ns) (Covers-map order (at id f) ns keeps covers))

-- What Update keeps for any mutator.
pub update-IsSettled :
    (order : List String) (id : String) (f : Node → Node) (d : Dag)
    → IsMutator f
    → Covers order d.nodes
    → IsSettled d
    → IsSettled (update order id f d).1
unfolding update
update-IsSettled order id f d h covers s =
    let g = at-IsMutator id f h in
    let nodes = updated_nodes order id f d.nodes (λ n. (g n).0) covers in
    elim (Bool-cases (is_some (find id d.nodes))) [
      | inl a ↦ rw (a, update) (rw nodes (all_agree (at id f) d.nodes g d.nodes s))
      | inr a ↦ rw (a, update) s
    ]
