-- ===== src/Reconcile/Done.antt =====
-- When updateNodeCounts of internal/reconcile/reconciler.go marks a node as done.
use df_ai.Base.{
  Bool-cases, String, arith, false, if◌then◌else◌, inl, inr, leb, refl, some, ℕ, ◌+◌, ◌-◌, ◌<◌,
  ◌==◌, ◌∙◌, ◌≡◌,
}
use df_ai.Plan.Node.{
  Node, Status, is_terminal, same_status, status_active, status_done, status_pending,
}
use df_ai.Plan.Dag.{Dag, find, finish, mark_done, update}
use df_ai.Plan.Dag.Steps.{finish-IsMutator}
use df_ai.Plan.Executor.Ready.{update_lem}
use df_ai.World.Predicted.{PredictedState, diverged, outstanding}
use df_ai.Reconcile.Scan.{Pass, confirmed_count, count_node, count_one, with_counts}
use df_ai.Reconcile.Kept.{Visits, counted-IsMutator, update-IsKept}

-- The node that an id finds has a status.
abbrev pub HasStatus : Dag → String → Status → Type 0
HasStatus d id s = (m : Node) × (find id d.nodes ≡ some m) × (m.id ≡ id) × (m.status ≡ s)

active_is_not_pending : (s : Status) → s ≡ status_active → same_status s status_pending ≡ false
active_is_not_pending s e = rw (e) refl

finished : (now : ℕ) (m : Node) → m.status ≡ status_active → (finish now m).status ≡ status_done
unfolding is_terminal
finished now m e = rw (e) refl

-- All of the predictions count as confirmed.
all_confirmed : (total out div : ℕ) → 0 < total → leb total (total - out - div) ≡ (out + div == 0)
all_confirmed total out div positive = ground arith

mark_done_lem :
    (pass : Pass) (d : Dag) (id : String)
    → Visits pass d
    → HasStatus d id status_active
    → HasStatus (mark_done pass.later (pass.keys d) id d).1 id status_done
unfolding mark_done
mark_done_lem pass d id v (m, found, own, is_active) =
    let done = finished pass.later m is_active in
    let (answer, m', found', own', status') =
      update_lem (pass.keys d) id (finish pass.later) d m (finish-IsMutator pass.later) (v d) found
        own (rw (done) refl) in
    (m', found', own', status' ∙ done)

-- Where the orders of the loops visit every node, the step of updateNodeCounts for an active node
-- that its id finds and that has predictions leaves it found, done if none of its predictions is
-- outstanding or diverged, and active otherwise.
pub count_one_lem :
    (pass : Pass) (p : PredictedState) (n : Node) (d : Dag)
    → Visits pass d
    → find n.id d.nodes ≡ some n
    → n.status ≡ status_active
    → 0 < n.prediction_count
    → HasStatus (count_one pass p n d) n.id (
        if count_node n.id (outstanding p) + count_node n.id (diverged p) == 0
        then status_done
        else status_active)
unfolding count_one
count_one_lem pass p n d v found is_active positive =
    let c = confirmed_count p n in
    let out = count_node n.id (outstanding p) in
    let div = count_node n.id (diverged p) in
    let counted = (update (pass.keys d) n.id (with_counts c div) d).1 in
    let some_predictions : (n.prediction_count == 0) ≡ false = ground arith in
    let (answer, m, found', own, status) =
      update_lem (pass.keys d) n.id (with_counts c div) d n (counted-IsMutator c div) (v d) found
        refl (active_is_not_pending n.status is_active) in
    let still : HasStatus counted n.id status_active = (m, found', own, status ∙ is_active) in
    let visits =
      (update-IsKept pass n.id (with_counts c div) d (counted-IsMutator c div) (λ k. refl)
        v).visits in
    let test = all_confirmed n.prediction_count out div positive in
    elim (Bool-cases (out + div == 0)) [
      | inl all ↦
          rw (some_predictions, test ∙ all, all) (mark_done_lem pass counted n.id visits still)
      | inr rest ↦ rw (some_predictions, test ∙ rest, rest) still
    ]
