-- ===== src/Plan/Dag/Lookup.antt =====
-- Lookups in the nodes of a plan of internal/plan/dag.go, under its operations.
use mathlib.Core.Option
use df_ai.Plan.Node.{Node, status_pending}
use df_ai.Plan.Dag.{Dag, add, find, is_some, new, promote, update}
use df_ai.Plan.Dag.Promotion.{Covers, KeepsId, at, promote-id}
use df_ai.Plan.Dag.Settled.{IsMutator, at-IsMutator, updated_nodes}
use df_ai.Plan.Dag.Steps.{Reachable, added, added_lem, put_fresh, reachable_elim, stamp}
use df_ai.Base.{
  All, Bool-cases, List, String, [], ap, inl, inr, map, none, refl, same, same_refl, some, ℕ, ◌++◌,
  ◌∙◌, ◌∷◌, ◌≡◌,
}

pub find-map :
    (f : Node → Node) (id : String) (ns : List Node)
    → KeepsId f
    → find id (map f ns) ≡ Option.map f (find id ns)
unfolding find
find-map f id [] keeps = refl
find-map f id (n ∷ ns) keeps =
    rw (ap (λ s. same s id) (keeps n)) (elim (Bool-cases (same n.id id)) [
      | inl a ↦ rw (a, find) refl
      | inr a ↦ rw (a, find) (find-map f id ns keeps)
    ])

-- A lookup of the id of each of the nodes finds it.
abbrev pub FoundIn : List Node → List Node → Type 0
FoundIn all ns = All (λ n. find n.id all ≡ some n) ns

FoundIn-map :
    (f : Node → Node) (all ns : List Node)
    → KeepsId f
    → FoundIn all ns
    → FoundIn (map f all) (map f ns)
FoundIn-map f all [] keeps h = tt
FoundIn-map f all (n ∷ ns) keeps h = (
  ap (λ s. find s (map f all)) (keeps n) ∙ find-map f n.id all keeps ∙ ap (Option.map f) h.0,
  FoundIn-map f all ns keeps h.1,
)

pub find-append_some :
    (id : String) (ns l : List Node) (n : Node) → find id ns ≡ some n → find id (ns ++ l) ≡ some n
unfolding find
find-append_some id [] l n h = cc
find-append_some id (m ∷ ns) l n h = elim (Bool-cases (same m.id id)) [
  | inl a ↦ rw (a, find) (rw (a, find) at h)
  | inr a ↦ rw (a, find) (find-append_some id ns l n (rw (a, find) at h))
]

find-append_none :
    (id : String) (ns l : List Node) → find id ns ≡ none → find id (ns ++ l) ≡ find id l
unfolding find
find-append_none id [] l h = refl
find-append_none id (m ∷ ns) l h = elim (Bool-cases (same m.id id)) [
  | inl a ↦ let h' = rw (a, find) at h in cc
  | inr a ↦ rw (a, find) (find-append_none id ns l (rw (a, find) at h))
]

FoundIn-append :
    (all ns : List Node) (n : Node)
    → FoundIn all ns
    → find n.id all ≡ none
    → FoundIn (all ++ (n ∷ [])) (ns ++ (n ∷ []))
unfolding find
FoundIn-append all [] n h fresh =
    (find-append_none n.id all (n ∷ []) fresh ∙ rw (same_refl n.id) refl, tt)
FoundIn-append all (m ∷ ns) n h fresh =
    (find-append_some m.id all (n ∷ []) m h.0, FoundIn-append all ns n h.1 fresh)

abbrev pub IsKeyed : Dag → Type 0
IsKeyed d = FoundIn d.nodes d.nodes

add-IsKeyed :
    (now : ℕ) (n : Node) (d : Dag)
    → n.status ≡ status_pending
    → find n.id d.nodes ≡ none
    → IsKeyed d
    → IsKeyed (add now n d)
unfolding add added stamp
add-IsKeyed now n d p fresh h =
    let id = (added_lem d.nodes now n p).0 in
    let fresh' : find (added d.nodes now n).id d.nodes ≡ none = rw id fresh in
    elim (Bool-cases (same n.id [])) [
      | inl a ↦ rw (a, add) h
      | inr a ↦
          rw (a, add)
            (rw (put_fresh (added d.nodes now n) d.nodes fresh')
              (FoundIn-append d.nodes d.nodes (added d.nodes now n) h fresh'))
    ]

update-IsKeyed :
    (order : List String) (id : String) (f : Node → Node) (d : Dag)
    → IsMutator f
    → Covers order d.nodes
    → IsKeyed d
    → IsKeyed (update order id f d).1
unfolding update
update-IsKeyed order id f d h covers k =
    let g = at id f in
    let keeps : KeepsId g = λ n. (at-IsMutator id f h n).0 in
    let all = map g d.nodes in
    elim (Bool-cases (is_some (find id d.nodes))) [
      | inl a ↦
          rw (a, update)
            (rw (updated_nodes order id f d.nodes keeps covers) (
              FoundIn-map (promote all) all all (promote-id all)
                (FoundIn-map g d.nodes d.nodes keeps k)))
      | inr a ↦ rw (a, update) k
    ]

pub Reachable-IsKeyed : (d : Dag) → Reachable d → IsKeyed d
unfolding new
Reachable-IsKeyed = reachable_elim IsKeyed tt add-IsKeyed update-IsKeyed
