-- ===== src/Plan/Dag/Views.antt =====
-- Recent and the views for the prompt of internal/plan/dag.go, and Status.String of
-- internal/plan/types.go.
use df_ai.Plan.Dag.Steps.{Reachable}
use df_ai.Plan.Node.{
  Node, Status, status_active, status_done, status_failed, status_pending, status_ready,
}
use df_ai.Plan.Dag.{Dag, find}
use df_ai.Plan.Dag.Queries.{Reachable-IsOrdered, filter_by_status, filter_ids, has_status}
use df_ai.Base.{
  Bool-cases, List, Option, String, [], ap, if◌then◌else◌, inl, inr, map, negsuc, none, pos, refl,
  same, some, suc, take, zero, ℕ, ℤ, ◌∙◌, ◌∷◌, ◌≡◌,
}
use df_ai.Plan.Dag.Lookup.{FoundIn, Reachable-IsKeyed}

unfoldable pub nodes_of : List Node → List String → List Node
nodes_of ns [] = []
nodes_of ns (id ∷ ids) =
    let rest = nodes_of ns ids in elim (find id ns) [ none ↦ rest | some n ↦ n ∷ rest ]

abbrev pub backwards : {A : Type 0} → List A → List A → List A
backwards acc [] = acc
backwards acc (x ∷ xs) = backwards (x ∷ acc) xs

-- The loop goes from the last id down, over at most as many as there are.
unfoldable pub recent : ℤ → Dag → List Node
unfolding nodes_of
recent (negsuc n) d = []
recent (pos n) d = nodes_of d.nodes (take n (backwards [] d.insert_order))

unfoldable pub status_string : Status → String
status_string status_pending = 112 ∷ 101 ∷ 110 ∷ 100 ∷ 105 ∷ 110 ∷ 103 ∷ []
status_string status_ready = 114 ∷ 101 ∷ 97 ∷ 100 ∷ 121 ∷ []
status_string status_active = 97 ∷ 99 ∷ 116 ∷ 105 ∷ 118 ∷ 101 ∷ []
status_string status_done = 100 ∷ 111 ∷ 110 ∷ 101 ∷ []
status_string status_failed = 102 ∷ 97 ∷ 105 ∷ 108 ∷ 101 ∷ 100 ∷ []

pub record PlanNodeView : Type 0 where
  pub id : String
  pub action : String
  pub target_tile : Option (ℤ × ℤ × ℤ)
  pub priority : ℕ
  pub status : String

-- "dig"
abbrev pub dig_kind : String
dig_kind = 100 ∷ 105 ∷ 103 ∷ []

unfoldable pub view : Node → PlanNodeView
unfolding status_string
view n = record {
  id = n.id;
  action = n.action.kind;
  target_tile =
      if same n.action.kind dig_kind
      then some (n.action.region.x1, n.action.region.y1, n.action.region.z1)
      else none;
  priority = 0;
  status = status_string n.status;
}

unfoldable pub view_ids : List Status → List Node → List String → List PlanNodeView
unfolding view
view_ids statuses ns [] = []
view_ids statuses ns (id ∷ ids) =
    let rest = view_ids statuses ns ids in
    elim (find id ns) [
      | none ↦ rest
      | some n ↦ if has_status statuses n then view n ∷ rest else rest
    ]

unfoldable pub view_by_status : List Status → Dag → List PlanNodeView
unfolding view_ids
view_by_status statuses d = view_ids statuses d.nodes d.insert_order

viewed :
    (statuses : List Status) (o : Option Node) (views : List PlanNodeView) (nodes : List Node)
    → views ≡ map view nodes
    → elim o as (λ x. List PlanNodeView) [
      | none ↦ views
      | some n ↦ if has_status statuses n then view n ∷ views else views
    ]
      ≡ map view (elim o as (λ x. List Node) [
        | none ↦ nodes
        | some n ↦ if has_status statuses n then n ∷ nodes else nodes
      ])
viewed statuses none views nodes h = h
viewed statuses (some n) views nodes h = elim (Bool-cases (has_status statuses n)) [
  | inl a ↦ rw a (ap (λ l. view n ∷ l) h)
  | inr a ↦ rw a h
]

view_ids-filter_ids :
    (statuses : List Status) (ns : List Node) (ids : List String)
    → view_ids statuses ns ids ≡ map view (filter_ids statuses ns ids)
unfolding view_ids filter_ids
view_ids-filter_ids statuses ns [] = refl
view_ids-filter_ids statuses ns (id ∷ ids) =
    viewed statuses (find id ns) _ _ (view_ids-filter_ids statuses ns ids)

-- The views by status are those of the nodes that the readers by status give, in the same order.
pub view_by_status-filter_by_status :
    (statuses : List Status) (d : Dag)
    → view_by_status statuses d ≡ map view (filter_by_status statuses d)
unfolding view_by_status filter_by_status
view_by_status-filter_by_status statuses d = view_ids-filter_ids statuses d.nodes d.insert_order

nodes_of-map : (all ns : List Node) → FoundIn all ns → nodes_of all (map Node.id ns) ≡ ns
unfolding nodes_of
nodes_of-map all [] h = refl
nodes_of-map all (n ∷ ns) h = rw (h.0, nodes_of) (ap (λ l. n ∷ l) (nodes_of-map all ns h.1))

take-map : (n : ℕ) (ns : List Node) → take n (map Node.id ns) ≡ map Node.id (take n ns)
take-map zero ns = refl
take-map (suc n) [] = refl
take-map (suc n) (m ∷ ns) = ap (λ l. m.id ∷ l) (take-map n ns)

backwards-map :
    (acc ns : List Node)
    → backwards (map Node.id acc) (map Node.id ns) ≡ map Node.id (backwards acc ns)
backwards-map acc [] = refl
backwards-map acc (n ∷ ns) = backwards-map (n ∷ acc) ns

FoundIn-take : (all : List Node) (n : ℕ) (ns : List Node) → FoundIn all ns → FoundIn all (take n ns)
FoundIn-take all zero ns h = tt
FoundIn-take all (suc n) [] h = tt
FoundIn-take all (suc n) (m ∷ ns) h = (h.0, FoundIn-take all n ns h.1)

FoundIn-backwards :
    (all acc ns : List Node) → FoundIn all acc → FoundIn all ns → FoundIn all (backwards acc ns)
FoundIn-backwards all acc [] a h = a
FoundIn-backwards all acc (n ∷ ns) a h = FoundIn-backwards all (n ∷ acc) ns (h.0, a) h.1

-- On a plan that was reached by adding pending nodes with fresh ids and by the Mark and Note
-- operations, Recent of a number that is not negative gives the nodes added last, at most as many
-- as the number, the newest first.
pub recent_lem : (n : ℕ) (d : Dag) → Reachable d → recent (pos n) d ≡ take n (backwards [] d.nodes)
unfolding recent
recent_lem n d h =
    let found =
      FoundIn-take d.nodes n (backwards [] d.nodes)
        (FoundIn-backwards d.nodes [] d.nodes tt (Reachable-IsKeyed d h)) in
    ap (λ ids. nodes_of d.nodes (take n (backwards [] ids))) (Reachable-IsOrdered d h)
    ∙ ap (λ ids. nodes_of d.nodes (take n ids)) (backwards-map [] d.nodes)
    ∙ ap (nodes_of d.nodes) (take-map n (backwards [] d.nodes))
    ∙ nodes_of-map d.nodes (take n (backwards [] d.nodes)) found
