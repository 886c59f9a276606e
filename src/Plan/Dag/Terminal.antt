-- ===== src/Plan/Dag/Terminal.antt =====
-- Done and failed nodes, and nodes that are not ready, under the steps of internal/plan/dag.go.
use mathlib.Core.Option
use df_ai.Plan.Node.{
  Node, Status, is_terminal, same_status, status_done, status_failed, status_pending, status_ready,
}
use df_ai.Plan.Dag.{Dag, activate, add, all_deps_done, find, is_some, mark_active, promote, update}
use df_ai.Plan.Dag.Promotion.{Covers, KeepsId, at, promote-id}
use df_ai.Plan.Dag.Settled.{
  AreSettled, IsMutator, agrees, at-IsMutator, is_transition, promote-status_if, updated_nodes,
}
use df_ai.Plan.Dag.Steps.{
  Reachable, Reachable-IsSettled, Step, activate-IsMutator, added, added_lem, put_fresh, stamp,
  step_elim,
}
use df_ai.Plan.Dag.Lookup.{FoundIn, Reachable-IsKeyed, find-append_some, find-map}
use df_ai.Base.{
  Bool, Bool-cases, List, String, [], ap, arith, false, if◌then◌else◌, inl, inr, map, none, refl,
  same, same_sound, some, sym, true, ℕ, ◌&&◌, ◌||◌, ◌∙◌, ◌∷◌, ◌≡◌,
}

-- The node at an id, if it is terminal, is at the id with the same status.
KeepsTerminal : Dag → Dag → Type 0
KeepsTerminal c d =
    (id : String) (n : Node)
    → find id c.nodes ≡ some n
    → is_terminal n ≡ true
    → (m : Node) × (find id d.nodes ≡ some m) × (m.status ≡ n.status)

terminal_status :
    (s t : Status) (deps_done : Bool)
    → is_transition s t ≡ true
    → (same_status s status_done || same_status s status_failed) ≡ true
    → (if same_status t status_pending && deps_done then status_ready else t) ≡ s
unfolding is_transition
terminal_status s t deps_done move h = ground arith

add-KeepsTerminal :
    (now : ℕ) (n : Node) (d : Dag)
    → n.status ≡ status_pending
    → find n.id d.nodes ≡ none
    → KeepsTerminal d (add now n d)
unfolding KeepsTerminal add added stamp
add-KeepsTerminal now n d p fresh id m found terminal =
    let new_id = (added_lem d.nodes now n p).0 in
    elim (Bool-cases (same n.id [])) [
      | inl a ↦ rw (a, add) (m, found, refl)
      | inr a ↦
          rw (a, add)
            (
              m,
              (rw (put_fresh (added d.nodes now n) d.nodes (rw new_id fresh))
                  (find-append_some id d.nodes (added d.nodes now n ∷ []) m found)),
              refl,
            )
    ]

update-KeepsTerminal :
    (order : List String) (id : String) (f : Node → Node) (d : Dag)
    → IsMutator f
    → Covers order d.nodes
    → KeepsTerminal d (update order id f d).1
unfolding KeepsTerminal update is_terminal
update-KeepsTerminal order id f d h covers at_id n found terminal =
    let g = at id f in
    let mutates = at-IsMutator id f h in
    let keeps : KeepsId g = λ n. (mutates n).0 in
    let all = map g d.nodes in
    elim (Bool-cases (is_some (find id d.nodes))) [
      | inl a ↦
          rw (a, update)
            (rw (updated_nodes order id f d.nodes keeps covers) (
              promote all (g n),
              find-map (promote all) at_id all (promote-id all)
                  ∙ ap (Option.map (promote all))
                      (find-map g at_id d.nodes keeps ∙ ap (Option.map g) found),
              promote-status_if all (g n)
                  ∙ terminal_status n.status (g n).status _ (mutates n).2 terminal,
            ))
      | inr a ↦ rw (a, update) (n, found, refl)
    ]

-- Where the id of a plan finds a done or failed node, it still finds a node of the same status
-- after any Add of a pending node with a fresh id and any Mark or Note operation.
pub Step-terminal :
    (c d : Dag) (id : String) (n : Node)
    → Step c d
    → find id c.nodes ≡ some n
    → is_terminal n ≡ true
    → (m : Node) × (find id d.nodes ≡ some m) × (m.status ≡ n.status)
unfolding KeepsTerminal
Step-terminal c d id n step =
    step_elim KeepsTerminal add-KeepsTerminal update-KeepsTerminal c d step id n

settled_promote :
    (all : List Node) (n : Node)
    → agrees n.status (all_deps_done all n.dependencies) ≡ true
    → promote all n ≡ n
unfolding agrees promote
settled_promote all n h = ground arith

promoted_nodes : (all ns : List Node) → AreSettled all ns → map (promote all) ns ≡ ns
promoted_nodes all [] h = refl
promoted_nodes all (n ∷ ns) h = rw (settled_promote all n h.0, promoted_nodes all ns h.1) refl

some_inj : (m n : Node) → some m ≡ some n → m ≡ n
some_inj m n h = cc

unmoved :
    (f : Node → Node) (id : String) (n : Node) (all ns : List Node)
    → FoundIn all ns
    → find id all ≡ some n
    → f n ≡ n
    → map (at id f) ns ≡ ns
unfolding at
unmoved f id n all [] found here fixed = refl
unmoved f id n all (m ∷ ns) found here fixed =
    let rest = unmoved f id n all ns found.1 here fixed in
    elim (Bool-cases (same m.id id)) [
      | inl a ↦
          (let mn =
              some_inj m n (sym found.0 ∙ ap (λ s. find s all) (same_sound m.id id a) ∙ here) in
            rw (a, at)
              (ap (λ x. x ∷ map (at id f) ns) (ap f mn ∙ fixed ∙ sym mn) ∙ ap (λ l. m ∷ l) rest))
      | inr a ↦ rw (a, at) (ap (λ l. m ∷ l) rest)
    ]

not_activated :
    (now : ℕ) (n : Node) → same_status n.status status_ready ≡ false → activate now n ≡ n
not_activated now n h = ground arith

-- On a plan that was reached by adding pending nodes with fresh ids and by the Mark and Note
-- operations, MarkActive of a node that is there but is not ready, with any order that visits every
-- node, changes nothing and answers true.
pub mark_active_not_ready :
    (now : ℕ) (order : List String) (id : String) (n : Node) (d : Dag)
    → Reachable d
    → Covers order d.nodes
    → find id d.nodes ≡ some n
    → same_status n.status status_ready ≡ false
    → mark_active now order id d ≡ (true, d)
unfolding mark_active update
mark_active_not_ready now order id n d h covers here idle =
    let mutates = at-IsMutator id (activate now) (activate-IsMutator now) in
    let keeps : KeepsId (at id (activate now)) = λ m. (mutates m).0 in
    let still =
      unmoved (activate now) id n d.nodes d.nodes (Reachable-IsKeyed d h) here
        (not_activated now n idle) in
    let same_nodes =
      updated_nodes order id (activate now) d.nodes keeps covers
      ∙ ap (λ ns. map (promote ns) ns) still
      ∙ promoted_nodes d.nodes d.nodes (Reachable-IsSettled d h) in
    rw (here, update) (ap (λ ns. (true, record d { nodes = ns })) same_nodes)
