-- ===== src/Plan/Executor/Drain.antt =====
-- A pass of the executor of internal/plan/executor.go over the ready nodes.
use df_ai.Plan.Node.{Node}
use df_ai.Plan.Executor.{World, action_kind, drain, execute_all, execute_node}
use df_ai.Plan.Executor.Ready.{execute_node-IsSettled, update-Covers}
use df_ai.Plan.Dag.{Dag, activate, mark_active}
use df_ai.Plan.Dag.Queries.{ready}
use df_ai.Base.{Bool-cases, List, String, [], inl, inr, ◌∷◌}
use df_ai.Plan.Dag.Promotion.{Covers}
use df_ai.Plan.Dag.Settled.{IsSettled}
use df_ai.Plan.Dag.Steps.{activate-IsMutator}
use df_ai.Plan.Executor.Outcome.{IsUpdateTo, dispatch_lem}

execute_node-Covers :
    (others : List String) (w : World) (n : Node) (d : Dag)
    → Covers w.order_before d.nodes
    → Covers w.order d.nodes
    → Covers others d.nodes
    → Covers others (execute_node w n d).nodes
unfolding mark_active IsUpdateTo execute_node
execute_node-Covers others w n d before covers c =
    let kind = action_kind n.action.kind in
    let mutates = activate-IsMutator w.now in
    let marked = (mark_active w.now w.order_before n.id d).1 in
    let kept = update-Covers others w.order_before n.id (activate w.now) d mutates before c in
    let covers' =
      update-Covers w.order w.order_before n.id (activate w.now) d mutates before covers in
    let (f, mut, same_dag, becomes) = dispatch_lem w kind n marked in
    elim (Bool-cases (mark_active w.now w.order_before n.id d).0) [
      | inl a ↦
          rw (a, execute_node)
            (rw same_dag (update-Covers others w.order n.id f marked mut covers' kept))
      | inr a ↦ rw (a, execute_node) kept
    ]

execute_all-IsSettled :
    (worlds : Node → World) (ns : List Node) (d : Dag)
    → ((n : Node) → Covers (worlds n).order_before d.nodes × Covers (worlds n).order d.nodes)
    → IsSettled d
    → IsSettled (execute_all worlds ns d)
unfolding execute_all
execute_all-IsSettled worlds [] d covers s = s
execute_all-IsSettled worlds (n ∷ ns) d covers s =
    let (before, order) = covers n in
    execute_all-IsSettled worlds ns (execute_node (worlds n) n d)
      (λ m. (
        execute_node-Covers (worlds m).order_before (worlds n) n d before order (covers m).0,
        execute_node-Covers (worlds m).order (worlds n) n d before order (covers m).1,
      ))
      (execute_node-IsSettled (worlds n) n d before order s)

-- Where a pending node of a plan has a dependency that is not done and all dependencies of a ready
-- or active node are done, this is still so after a pass of the executor over the ready nodes,
-- whatever the answers are and in any orders of the loop over the map that visit every node.
pub drain-IsSettled :
    (worlds : Node → World) (d : Dag)
    → ((n : Node) → Covers (worlds n).order_before d.nodes × Covers (worlds n).order d.nodes)
    → IsSettled d
    → IsSettled (drain worlds d)
unfolding drain
drain-IsSettled worlds d covers s = execute_all-IsSettled worlds (ready d) d covers s
