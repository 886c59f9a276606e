-- ===== src/Plan/Dag/Steps.antt =====
-- Add, the Mark and the Note operations of internal/plan/dag.go as steps.
use df_ai.Plan.Node.{Node, is_terminal, same_status, status_done, status_pending, status_ready}
use df_ai.Plan.Dag.{
  Dag, activate, add, all_deps_done, fail_with, find, finish, is_done, mark_active, mark_done,
  mark_failed, new, note_progress, note_stall, progressed, promote, put, stalled, update,
}
use df_ai.Plan.Dag.Promotion.{Covers, promote-id}
use df_ai.Plan.Dag.Settled.{
  AreSettled, IsMutator, IsSettled, agrees, is_transition, promote-dependencies, promote-status_if,
  update-IsSettled,
}
use df_ai.Base.{
  Bool, Bool-cases, List, String, [], ap, arith, false, if◌then◌else◌, inl, inr, none, refl, same,
  true, ℕ, ◌++◌, ◌==◌, ◌∙◌, ◌∷◌, ◌≡◌,
}

pub put_fresh : (n : Node) (ns : List Node) → find n.id ns ≡ none → put n ns ≡ ns ++ (n ∷ [])
unfolding put find
put_fresh n [] h = refl
put_fresh n (m ∷ ms) h = elim (Bool-cases (same m.id n.id)) [
  | inl a ↦ let h' = rw (a, find) at h in cc
  | inr a ↦ rw (a, put) (ap (λ l. m ∷ l) (put_fresh n ms (rw (a, find) at h)))
]

is_done-append :
    (id : String) (ns : List Node) (n : Node)
    → same_status n.status status_done ≡ false
    → is_done (ns ++ (n ∷ [])) id ≡ is_done ns id
unfolding is_done find
is_done-append id [] n h = elim (Bool-cases (same n.id id)) [
  | inl a ↦ rw (a, is_done) h
  | inr a ↦ rw (a, is_done) refl
]
is_done-append id (m ∷ ms) n h = elim (Bool-cases (same m.id id)) [
  | inl a ↦ rw (a, is_done) refl
  | inr a ↦ rw (a, is_done) (is_done-append id ms n h)
]

all_deps_done-append :
    (ids : List String) (ns : List Node) (n : Node)
    → same_status n.status status_done ≡ false
    → all_deps_done (ns ++ (n ∷ [])) ids ≡ all_deps_done ns ids
unfolding all_deps_done
all_deps_done-append [] ns n h = refl
all_deps_done-append (id ∷ ids) ns n h =
    rw (is_done-append id ns n h, all_deps_done-append ids ns n h) refl

append-AreSettled :
    (ns l : List Node) (n : Node)
    → same_status n.status status_done ≡ false
    → AreSettled ns l
    → agrees n.status (all_deps_done ns n.dependencies) ≡ true
    → AreSettled (ns ++ (n ∷ [])) (l ++ (n ∷ []))
append-AreSettled ns [] n h s new_one =
    (rw (all_deps_done-append n.dependencies ns n h) new_one, tt)
append-AreSettled ns (m ∷ l) n h s new_one =
    (rw (all_deps_done-append m.dependencies ns n h) s.0, append-AreSettled ns l n h s.1 new_one)

unfoldable pub stamp : ℕ → Node → Node
stamp now n = if n.created_at == 0 then record n { created_at = now } else n

stamp_lem : (now : ℕ) (n : Node) → ((stamp now n).id ≡ n.id) × ((stamp now n).status ≡ n.status)
unfolding stamp
stamp_lem now n = elim (Bool-cases (n.created_at == 0)) [
  | inl a ↦ rw a (refl, refl)
  | inr a ↦ rw a (refl, refl)
]

unfoldable pub added : List Node → ℕ → Node → Node
unfolding stamp
added ns now n = promote ns (stamp now n)

fresh_status :
    (deps_done : Bool)
    → (same_status (if deps_done then status_ready else status_pending) status_done ≡ false)
      × (agrees (if deps_done then status_ready else status_pending) deps_done ≡ true)
unfolding agrees
fresh_status true = (refl, refl)
fresh_status false = (refl, refl)

pub added_lem :
    (ns : List Node) (now : ℕ) (n : Node)
    → n.status ≡ status_pending
    → ((added ns now n).id ≡ n.id)
      × (same_status (added ns now n).status status_done ≡ false)
      × (agrees (added ns now n).status (all_deps_done ns (added ns now n).dependencies) ≡ true)
unfolding added
added_lem ns now n h =
    let m = stamp now n in
    let (id, status) = stamp_lem now n in
    let (not_done, ok_new) = fresh_status (all_deps_done ns m.dependencies) in
    (
      promote-id ns m ∙ id,
      rw (promote-status_if ns m, status ∙ h) not_done,
      rw (promote-status_if ns m, promote-dependencies ns m, status ∙ h) ok_new,
    )

add-IsSettled :
    (now : ℕ) (n : Node) (d : Dag)
    → n.status ≡ status_pending
    → find n.id d.nodes ≡ none
    → IsSettled d
    → IsSettled (add now n d)
unfolding add added
add-IsSettled now n d p fresh s =
    let (id, not_done, ok_new) = added_lem d.nodes now n p in
    let appended = put_fresh (added d.nodes now n) d.nodes (rw id fresh) in
    elim (Bool-cases (same n.id [])) [
      | inl a ↦ rw (a, add) s
      | inr a ↦
          rw (a, add)
            (rw appended
              (append-AreSettled d.nodes d.nodes (added d.nodes now n) not_done s ok_new))
    ]

-- How the deliberator, the executor and the reconciler change a plan: they add pending nodes with
-- fresh ids, and change one node at a time.
pub data Step : Dag → Dag → Type 0 where
  add_step :
      (now : ℕ) (n : Node) (d : Dag)
      → n.status ≡ status_pending
      → find n.id d.nodes ≡ none
      → Step d (add now n d)
  active_step :
      (now : ℕ) (order : List String) (id : String) (d : Dag)
      → Covers order d.nodes
      → Step d (mark_active now order id d).1
  progress_step :
      (now : ℕ) (order : List String) (id : String) (d : Dag)
      → Covers order d.nodes
      → Step d (note_progress now order id d).1
  stall_step :
      (now : ℕ) (order : List String) (id : String) (d : Dag)
      → Covers order d.nodes
      → Step d (note_stall now order id d).1
  done_step :
      (now : ℕ) (order : List String) (id : String) (d : Dag)
      → Covers order d.nodes
      → Step d (mark_done now order id d).1
  failed_step :
      (now : ℕ) (order : List String) (id reason : String) (d : Dag)
      → Covers order d.nodes
      → Step d (mark_failed now order id reason d).1

pub data Reachable : Dag → Type 0 where
  at_start : Reachable new
  after : {c d : Dag} → Reachable c → Step c d → Reachable d

pub activate-IsMutator : (now : ℕ) → IsMutator (activate now)
unfolding is_transition
activate-IsMutator now n = ground arith

pub progressed-IsMutator : (now : ℕ) → IsMutator (progressed now)
unfolding is_transition
progressed-IsMutator now n = ground arith

pub stalled-IsMutator : (now : ℕ) → IsMutator (stalled now)
unfolding is_transition
stalled-IsMutator now n = ground arith

pub finish-IsMutator : (now : ℕ) → IsMutator (finish now)
unfolding is_transition is_terminal
finish-IsMutator now n = ground arith

fail_with-IsMutator : (now : ℕ) (reason : String) → IsMutator (fail_with now reason)
unfolding is_transition is_terminal
fail_with-IsMutator now reason n = ground arith

-- A step is an Add or an Update with a mutator.
pub step_elim :
    (P : Dag → Dag → Type 0)
    → ((now : ℕ) (n : Node) (d : Dag)
        → n.status ≡ status_pending
        → find n.id d.nodes ≡ none
        → P d (add now n d))
    → ((order : List String) (id : String) (f : Node → Node) (d : Dag)
        → IsMutator f
        → Covers order d.nodes
        → P d (update order id f d).1)
    → (c d : Dag) → Step c d
    → P c d
unfolding mark_active note_progress note_stall mark_done mark_failed
step_elim P on_add on_update _ _ (add_step now n d p fresh) = on_add now n d p fresh
step_elim P on_add on_update _ _ (active_step now order id d covers) =
    on_update order id (activate now) d (activate-IsMutator now) covers
step_elim P on_add on_update _ _ (progress_step now order id d covers) =
    on_update order id (progressed now) d (progressed-IsMutator now) covers
step_elim P on_add on_update _ _ (stall_step now order id d covers) =
    on_update order id (stalled now) d (stalled-IsMutator now) covers
step_elim P on_add on_update _ _ (done_step now order id d covers) =
    on_update order id (finish now) d (finish-IsMutator now) covers
step_elim P on_add on_update _ _ (failed_step now order id reason d covers) =
    on_update order id (fail_with now reason) d (fail_with-IsMutator now reason) covers

-- An invariant of the two kinds of step is one of the plans that they lead to.
pub reachable_elim :
    (P : Dag → Type 0)
    → P new
    → ((now : ℕ) (n : Node) (d : Dag)
        → n.status ≡ status_pending
        → find n.id d.nodes ≡ none
        → P d
        → P (add now n d))
    → ((order : List String) (id : String) (f : Node → Node) (d : Dag)
        → IsMutator f
        → Covers order d.nodes
        → P d
        → P (update order id f d).1)
    → (d : Dag) → Reachable d
    → P d
reachable_elim P start on_add on_update _ at_start = start
reachable_elim P start on_add on_update d (after {c} past step) =
    step_elim (λ c d. P c → P d) on_add on_update c d step
      (reachable_elim P start on_add on_update c past)

-- In a plan that starts empty and is changed by adding pending nodes with fresh ids and by the Mark
-- and Note operations, whatever the order of the loop over the map, a pending node has a dependency
-- that is not done, and all dependencies of a ready or active node are done.
pub Reachable-IsSettled : (d : Dag) → Reachable d → IsSettled d
unfolding new
Reachable-IsSettled = reachable_elim IsSettled tt add-IsSettled update-IsSettled
