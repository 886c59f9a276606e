-- ===== src/Reconcile/Kept.antt =====
-- What a scan of internal/reconcile/reconciler.go keeps of the plan.
use df_ai.Base.{
  Bool, Bool-cases, List, String, [], ap, arith, either_branch, if◌then◌else◌, inl, inr, leb, map,
  refl, suc, sym, ℕ, ◌==◌, ◌∙◌, ◌∷◌, ◌≡◌,
}
use df_ai.Plan.Node.{
  Node, Stats, Status, is_terminal, same_status, status_active, status_done, status_failed,
  status_pending, status_ready,
}
use df_ai.Plan.Dag.{
  Dag, find, finish, is_some, mark_done, note_progress, note_stall, progressed, promote, stalled,
  update,
}
use df_ai.Plan.Dag.Queries.{active, count_in, stats, stats_of}
use df_ai.Plan.Dag.Promotion.{Covers, at}
use df_ai.Plan.Dag.Settled.{
  IsMutator, IsSettled, at-IsMutator, is_transition, update-IsSettled, updated_nodes,
}
use df_ai.Plan.Executor.Ready.{update-Covers}
use df_ai.World.Predicted.{PredictedState, diverged}
use df_ai.Reconcile.Events.{EventBuffer, append}
use df_ai.Reconcile.Scan.{
  Config, Pass, confirmed_count, count_each, count_node, count_one, is_stalled, note_each,
  stall_each, stall_event, update_node_counts, with_counts,
}
use df_ai.Plan.Dag.Steps.{finish-IsMutator, progressed-IsMutator, stalled-IsMutator}

abbrev is_failed : Node → Bool
is_failed n = same_status n.status status_failed

-- A change that makes no node failed and leaves the failed ones so.
abbrev KeepsFailed : (Node → Node) → Type 0
KeepsFailed f = (n : Node) → is_failed (f n) ≡ is_failed n

abbrev failed_in : List Node → ℕ
failed_in ns = (stats_of ns).failed

failed_in-cons :
    (n : Node) (ns : List Node)
    → failed_in (n ∷ ns) ≡ (if is_failed n then suc (failed_in ns) else failed_in ns)
unfolding stats_of
failed_in-cons n ns = counted n.status (stats_of ns)
  where
    counted :
        (s : Status) (c : Stats)
        → (count_in s c).failed ≡ (if same_status s status_failed then suc c.failed else c.failed)
    counted status_pending c = refl
    counted status_ready c = refl
    counted status_active c = refl
    counted status_done c = refl
    counted status_failed c = refl

failed_in-map :
    (f : Node → Node) (ns : List Node) → KeepsFailed f → failed_in (map f ns) ≡ failed_in ns
failed_in-map f [] h = refl
failed_in-map f (n ∷ ns) h =
    failed_in-cons (f n) (map f ns) ∙ rw (h n, failed_in-map f ns h) (sym (failed_in-cons n ns))

promote-KeepsFailed : (all : List Node) → KeepsFailed (promote all)
unfolding promote
promote-KeepsFailed all n = ground arith

at-KeepsFailed : (id : String) (f : Node → Node) → KeepsFailed f → KeepsFailed (at id f)
unfolding at
at-KeepsFailed id f h n = ground (arith, h n)

-- Every order that a pass uses visits every node.
abbrev pub Visits : Pass → Dag → Type 0
Visits pass d = (e : Dag) → Covers (pass.keys e) d.nodes

pub record IsKept (pass : Pass) (d q : Dag) : Type 0 where
  pub settled : IsSettled d → IsSettled q
  pub failed : (stats q).failed ≡ (stats d).failed
  pub visits : Visits pass q

unchanged-IsKept : (pass : Pass) (d : Dag) → Visits pass d → IsKept pass d d
unchanged-IsKept pass d v = record { settled = λ s. s; failed = refl; visits = v }

both-IsKept : (pass : Pass) (d e q : Dag) → IsKept pass d e → IsKept pass e q → IsKept pass d q
both-IsKept pass d e q h k = record {
  settled = λ s. k.settled (h.settled s);
  failed = k.failed ∙ h.failed;
  visits = k.visits;
}

update-failed :
    (order : List String) (id : String) (f : Node → Node) (d : Dag)
    → IsMutator f
    → KeepsFailed f
    → Covers order d.nodes
    → failed_in (update order id f d).1.nodes ≡ failed_in d.nodes
unfolding update
update-failed order id f d mutates fails covers =
    let g = at-IsMutator id f mutates in
    let all = map (at id f) d.nodes in
    let nodes = updated_nodes order id f d.nodes (λ n. (g n).0) covers in
    elim (Bool-cases (is_some (find id d.nodes))) [
      | inl a ↦
          rw (a, update)
            (ap failed_in nodes
              ∙ failed_in-map (promote all) all (promote-KeepsFailed all)
              ∙ failed_in-map (at id f) d.nodes (at-KeepsFailed id f fails))
      | inr a ↦ rw (a, update) refl
    ]

pub update-IsKept :
    (pass : Pass) (id : String) (f : Node → Node) (d : Dag)
    → IsMutator f
    → KeepsFailed f
    → Visits pass d
    → IsKept pass d (update (pass.keys d) id f d).1
unfolding stats
update-IsKept pass id f d mutates fails v = record {
  settled = update-IsSettled (pass.keys d) id f d mutates (v d);
  failed = update-failed (pass.keys d) id f d mutates fails (v d);
  visits = λ e. update-Covers (pass.keys e) (pass.keys d) id f d mutates (v d) (v e);
}

progressed-KeepsFailed : (now : ℕ) → KeepsFailed (progressed now)
progressed-KeepsFailed now n = ground arith

stalled-KeepsFailed : (now : ℕ) → KeepsFailed (stalled now)
stalled-KeepsFailed now n = ground arith

finish-KeepsFailed : (now : ℕ) → KeepsFailed (finish now)
unfolding is_terminal
finish-KeepsFailed now n = ground arith

pub counted-IsMutator : (confirmed diverged : ℕ) → IsMutator (with_counts confirmed diverged)
unfolding is_transition
counted-IsMutator confirmed diverged n = ground arith

pub note_each-IsKept :
    (pass : Pass) (ids : List String) (d : Dag)
    → Visits pass d
    → IsKept pass d (note_each pass ids d)
unfolding note_each note_progress
note_each-IsKept pass [] d v = unchanged-IsKept pass d v
note_each-IsKept pass (id ∷ ids) d v =
    let one =
      update-IsKept pass id (progressed pass.later) d (progressed-IsMutator pass.later)
        (progressed-KeepsFailed pass.later) v in
    let e = (note_progress pass.later (pass.keys d) id d).1 in
    both-IsKept pass d e (note_each pass ids e) one (note_each-IsKept pass ids e one.visits)

count_one-IsKept :
    (pass : Pass) (p : PredictedState) (n : Node) (d : Dag)
    → Visits pass d
    → IsKept pass d (count_one pass p n d)
unfolding count_one mark_done
count_one-IsKept pass p n d v =
    let c = confirmed_count p n in
    let k = count_node n.id (diverged p) in
    let counted = (update (pass.keys d) n.id (with_counts c k) d).1 in
    let one = update-IsKept pass n.id (with_counts c k) d (counted-IsMutator c k) (λ m. refl) v in
    let two =
      update-IsKept pass n.id (finish pass.later) counted (finish-IsMutator pass.later)
        (finish-KeepsFailed pass.later) one.visits in
    either_branch (IsKept pass d) (n.prediction_count == 0) (unchanged-IsKept pass d v) (
      either_branch (IsKept pass d) (leb n.prediction_count c)
        (both-IsKept pass d counted (mark_done pass.later (pass.keys counted) n.id counted).1 one
          two)
        one)

count_each-IsKept :
    (pass : Pass) (p : PredictedState) (ns : List Node) (d : Dag)
    → Visits pass d
    → IsKept pass d (count_each pass p ns d)
unfolding count_each
count_each-IsKept pass p [] d v = unchanged-IsKept pass d v
count_each-IsKept pass p (n ∷ ns) d v =
    let one = count_one-IsKept pass p n d v in
    let e = count_one pass p n d in
    both-IsKept pass d e (count_each pass p ns e) one (count_each-IsKept pass p ns e one.visits)

pub update_node_counts-IsKept :
    (pass : Pass) (p : PredictedState) (d : Dag)
    → Visits pass d
    → IsKept pass d (update_node_counts pass p d)
unfolding update_node_counts
update_node_counts-IsKept pass p d v = count_each-IsKept pass p (active d) d v

pub stall_each-IsKept :
    (pass : Pass) (cfg : Config) (ns : List Node) (d : Dag) (b : EventBuffer)
    → Visits pass d
    → IsKept pass d (stall_each pass cfg ns d b).1
unfolding stall_each note_stall
stall_each-IsKept pass cfg [] d b v = unchanged-IsKept pass d v
stall_each-IsKept pass cfg (n ∷ ns) d b v =
    let stops = is_stalled cfg pass.now n in
    let e = if stops then (note_stall pass.later (pass.keys d) n.id d).1 else d in
    let c = if stops then append (stall_event pass n) b else b in
    let one : IsKept pass d e =
      either_branch (IsKept pass d) stops
        (update-IsKept pass n.id (stalled pass.later) d (stalled-IsMutator pass.later)
          (stalled-KeepsFailed pass.later) v)
        (unchanged-IsKept pass d v) in
    both-IsKept pass d e (stall_each pass cfg ns e c).1 one
      (stall_each-IsKept pass cfg ns e c one.visits)
