-- ===== src/Plan/Executor/Ready.antt =====
-- executeNode of internal/plan/executor.go on a ready node.
use mathlib.Core.Option
use df_ai.Plan.Node.{Node, Status, same_status, status_active, status_pending, status_ready}
use df_ai.Plan.Executor.{ActionKind, World, action_kind, dispatch, execute_node}
use df_ai.Plan.Executor.Outcome.{
  IsUpdateTo, acknowledged_status, dig_status, dismiss_status, dispatch_lem, outcome,
}
use df_ai.Plan.Dag.{Dag, activate, find, is_some, mark_active, promote, update}
use df_ai.Plan.Dag.Promotion.{Covers, KeepsId, at, promote-id}
use df_ai.Base.{
  Bool, Bool-cases, List, String, ap, arith, false, if◌then◌else◌, inl, inr, map, refl, same,
  same_refl, some, true, ℕ, ◌&&◌, ◌∙◌, ◌≡◌,
}
use df_ai.Plan.Dag.Lookup.{find-map}
use df_ai.Plan.Dag.Settled.{
  Covers-map, IsMutator, IsSettled, at-IsMutator, promote-status_if, update-IsSettled,
  updated_nodes,
}
use df_ai.Plan.Dag.Steps.{activate-IsMutator}

stays :
    (s : Status) (deps_done : Bool)
    → same_status s status_pending ≡ false
    → (if same_status s status_pending && deps_done then status_ready else s) ≡ s
stays s deps_done h = ground arith

at_own_id : (id : String) (f : Node → Node) (n : Node) → n.id ≡ id → at id f n ≡ f n
unfolding at
at_own_id id f n e = let yes = ap (λ s. same s id) e ∙ same_refl id in rw yes refl

-- Update of the node at an id, to a status other than pending.
pub update_lem :
    (order : List String) (id : String) (f : Node → Node) (d : Dag) (n : Node)
    → IsMutator f
    → Covers order d.nodes
    → find id d.nodes ≡ some n
    → n.id ≡ id
    → same_status (f n).status status_pending ≡ false
    → ((update order id f d).0 ≡ true)
      × (m : Node) × (find id (update order id f d).1.nodes ≡ some m)
      × (m.id ≡ id)
      × (m.status ≡ (f n).status)
unfolding update
update_lem order id f d n h covers found own moved =
    let mutates = at-IsMutator id f h in
    let keeps : KeepsId (at id f) = λ m. (mutates m).0 in
    let all = map (at id f) d.nodes in
    let last = promote all (f n) in
    let nodes = updated_nodes order id f d.nodes keeps covers in
    let there =
      ap (find id) nodes
      ∙ find-map (promote all) id all (promote-id all)
      ∙ ap (Option.map (promote all))
          (find-map (at id f) id d.nodes keeps ∙ ap (Option.map (at id f)) found)
      ∙ ap (λ m. some (promote all m)) (at_own_id id f n own) in
    rw (found, update)
      (
        refl,
        last,
        there,
        promote-id all (f n) ∙ (h n).0 ∙ own,
        promote-status_if all (f n) ∙ stays (f n).status _ moved,
      )

pub update-Covers :
    (others order : List String) (id : String) (f : Node → Node) (d : Dag)
    → IsMutator f
    → Covers order d.nodes
    → Covers others d.nodes
    → Covers others (update order id f d).1.nodes
unfolding update
update-Covers others order id f d h covers c =
    let keeps : KeepsId (at id f) = λ m. (at-IsMutator id f h m).0 in
    let all = map (at id f) d.nodes in
    let mapped = Covers-map others (at id f) d.nodes keeps c in
    elim (Bool-cases (is_some (find id d.nodes))) [
      | inl a ↦
          rw (a, update)
            (rw (updated_nodes order id f d.nodes keeps covers)
              (Covers-map others (promote all) all (promote-id all) mapped))
      | inr a ↦ rw (a, update) c
    ]

activated : (now : ℕ) (n : Node) → n.status ≡ status_ready → (activate now n).status ≡ status_active
activated now n h = rw h refl

-- The outcomes are not pending.
outcome_moved :
    (kind : ActionKind) (w : World) (n : Node)
    → same_status (outcome kind w n) status_pending ≡ false
unfolding outcome acknowledged_status dig_status dismiss_status
outcome_moved kind w n = ground arith

marked_then :
    (w : World) (n : Node) (d : Dag)
    → (mark_active w.now w.order_before n.id d).0 ≡ true
    → execute_node w n d
      ≡ dispatch w (action_kind n.action.kind) n (mark_active w.now w.order_before n.id d).1
unfolding execute_node
marked_then w n d h = rw h refl

-- A ready node of a plan, which its id finds, is found after the executor has worked on it, in any
-- orders of the loop over the map that visit every node: failed if its command was not sent or has
-- no result, if it is a dig whose result has neither success nor the status PARTIAL, if it is
-- another command whose result has no success, the status PARTIAL included, if its type is unknown
-- or if its alert is not there; active if it is any other dig; and done otherwise.
pub execute_node_lem :
    (w : World) (n : Node) (d : Dag)
    → Covers w.order_before d.nodes
    → Covers w.order d.nodes
    → find n.id d.nodes ≡ some n
    → n.status ≡ status_ready
    → (m : Node) × (find n.id (execute_node w n d).nodes ≡ some m)
      × (m.status ≡ outcome (action_kind n.action.kind) w n)
unfolding mark_active IsUpdateTo
execute_node_lem w n d before covers found is_ready =
    let kind = action_kind n.action.kind in
    let mutates = activate-IsMutator w.now in
    let active_now = activated w.now n is_ready in
    let (answer, m, here, own, status) =
      update_lem w.order_before n.id (activate w.now) d n mutates before found refl
        (rw active_now refl) in
    let marked = (mark_active w.now w.order_before n.id d).1 in
    let covers' =
      update-Covers w.order w.order_before n.id (activate w.now) d mutates before covers in
    let (f, mut, same_dag, becomes) = dispatch_lem w kind n marked in
    let result = becomes m (status ∙ active_now) in
    let (_, last, there, _, final) =
      update_lem w.order n.id f marked m mut covers' here own
        (rw result (outcome_moved kind w n)) in
    (
      last,
      ap (λ e. find n.id e.nodes) (marked_then w n d answer ∙ same_dag) ∙ there,
      final ∙ result,
    )

-- What the work on one node keeps.
pub execute_node-IsSettled :
    (w : World) (n : Node) (d : Dag)
    → Covers w.order_before d.nodes
    → Covers w.order d.nodes
    → IsSettled d
    → IsSettled (execute_node w n d)
unfolding mark_active IsUpdateTo execute_node
execute_node-IsSettled w n d before covers s =
    let kind = action_kind n.action.kind in
    let mutates = activate-IsMutator w.now in
    let marked = (mark_active w.now w.order_before n.id d).1 in
    let settled = update-IsSettled w.order_before n.id (activate w.now) d mutates before s in
    let covers' =
      update-Covers w.order w.order_before n.id (activate w.now) d mutates before covers in
    let (f, mut, same_dag, becomes) = dispatch_lem w kind n marked in
    elim (Bool-cases (mark_active w.now w.order_before n.id d).0) [
      | inl a ↦
          rw (a, execute_node)
            (rw same_dag (update-IsSettled w.order n.id f marked mut covers' settled))
      | inr a ↦ rw (a, execute_node) settled
    ]
