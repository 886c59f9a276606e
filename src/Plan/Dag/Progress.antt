-- ===== src/Plan/Dag/Progress.antt =====
-- The nodes that there is work on, in a plan of internal/plan/dag.go whose dependencies go back in
-- the order of Add.
use df_ai.Plan.Node.{
  Node, Status, same_status, status_active, status_done, status_failed, status_ready,
}
use df_ai.Plan.Dag.{Dag, all_deps_done, find, is_done}
use df_ai.Plan.Dag.Settled.{AreSettled, agrees}
use df_ai.Plan.Dag.Lookup.{FoundIn, Reachable-IsKeyed}
use df_ai.Base.{
  All, Bool, Bool-cases, List, String, [], arith, false, if◌then◌else◌, inl, inr, is_listed, refl,
  same, same_sound, some, true, ◌||◌, ◌∷◌, ◌≡◌, ◌⊎◌,
}
use df_ai.Plan.Dag.Steps.{Reachable, Reachable-IsSettled}

-- The ids of which the first nodes of the list are done.
abbrev pub AllDone : List Node → Type 0
AllDone ns = All (λ n. same_status n.status status_done ≡ true) ns

abbrev pub all_listed_in : List String → List String → Bool
all_listed_in [] earlier = true
all_listed_in (id ∷ ids) earlier = if is_listed id earlier then all_listed_in ids earlier else false

-- Every dependency of a node is the id of a node that was added before it: `earlier` are the ids so far.
abbrev pub is_layered : List String → List Node → Bool
is_layered earlier [] = true
is_layered earlier (n ∷ ns) =
    if all_listed_in n.dependencies earlier then is_layered (n.id ∷ earlier) ns else false

-- The ids that `is_done` finds done.
DoneIds : List Node → List String → Type 0
DoneIds all earlier = (id : String) → is_listed id earlier ≡ true → is_done all id ≡ true

listed_deps_done :
    (all : List Node) (earlier ids : List String)
    → DoneIds all earlier
    → all_listed_in ids earlier ≡ true
    → all_deps_done all ids ≡ true
unfolding DoneIds all_deps_done
listed_deps_done all earlier [] done h = refl
listed_deps_done all earlier (id ∷ ids) done h =
    let here = done id in
    let others = listed_deps_done all earlier ids done in ground (arith, here, others)

-- Work that there is to do on a node, or that has failed.
unfoldable pub is_workable : Status → Bool
is_workable status_ready = true
is_workable status_active = true
is_workable status_failed = true
is_workable other = false

-- Among the nodes there is a workable one.
abbrev pub any_workable : List Node → Bool
any_workable [] = false
any_workable (n ∷ ns) = is_workable n.status || any_workable ns

not_done_workable :
    (s : Status) (deps : Bool)
    → agrees s deps ≡ true
    → deps ≡ true
    → same_status s status_done ≡ false
    → is_workable s ≡ true
unfolding agrees is_workable
not_done_workable s deps h d n = ground arith

found_done :
    (all : List Node) (n : Node)
    → find n.id all ≡ some n
    → same_status n.status status_done ≡ true
    → is_done all n.id ≡ true
unfolding is_done
found_done all n found done = rw (found, is_done) done

DoneIds-∷ :
    (all : List Node) (earlier : List String) (id : String)
    → DoneIds all earlier
    → is_done all id ≡ true
    → DoneIds all (id ∷ earlier)
unfolding DoneIds
DoneIds-∷ all earlier id done here other listed = elim (Bool-cases (same other id)) [
  | inl a ↦ rw (same_sound other id a) here
  | inr a ↦ done other (rw a at listed)
]

layered_head :
    (earlier : List String) (n : Node) (ns : List Node)
    → is_layered earlier (n ∷ ns) ≡ true
    → (all_listed_in n.dependencies earlier ≡ true) × (is_layered (n.id ∷ earlier) ns ≡ true)
layered_head earlier n ns h = ground arith

progress_from :
    (all ns : List Node) (earlier : List String)
    → DoneIds all earlier
    → FoundIn all ns
    → AreSettled all ns
    → is_layered earlier ns ≡ true
    → AllDone ns ⊎ (any_workable ns ≡ true)
progress_from all [] earlier done found settled layered = inl tt
progress_from all (n ∷ ns) earlier done found settled layered =
    let (deps, others) = layered_head earlier n ns layered in
    elim (Bool-cases (same_status n.status status_done)) [
      | inl a ↦
          elim (progress_from all ns (n.id ∷ earlier)
            (DoneIds-∷ all earlier n.id done (found_done all n found.0 a)) found.1 settled.1
            others) [ inl rest ↦ inl (a, rest) | inr rest ↦ inr (rw rest (ground arith)) ]
      | inr a ↦ inr (
          rw
            (not_done_workable n.status (all_deps_done all n.dependencies) settled.0
              (listed_deps_done all earlier n.dependencies done deps) a)
            refl)
    ]

no_ids_done : (all : List Node) → DoneIds all []
unfolding DoneIds
no_ids_done all id h = cc

-- In a plan that was reached by adding pending nodes with fresh ids and by the Mark and Note
-- operations, and in which every dependency is the id of a node added before, all nodes are done or
-- at least one is ready, active or failed.
pub progress :
    (d : Dag)
    → Reachable d
    → is_layered [] d.nodes ≡ true
    → AllDone d.nodes ⊎ (any_workable d.nodes ≡ true)
progress d h layered =
    progress_from d.nodes d.nodes [] (no_ids_done d.nodes) (Reachable-IsKeyed d h)
      (Reachable-IsSettled d h) layered
