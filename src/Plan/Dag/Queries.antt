-- ===== src/Plan/Dag/Queries.antt =====
-- The readers of internal/plan/dag.go: Ready, Active, Pending and Stats.
use df_ai.Plan.Node.{
  Node, Stats, Status, same_status, status_active, status_done, status_failed, status_pending,
  status_ready,
}
use df_ai.Plan.Dag.{Dag, add, find, is_some, new, promote, update}
use df_ai.Plan.Dag.Promotion.{Covers, KeepsId, at, promote-id}
use df_ai.Plan.Dag.Settled.{IsMutator, at-IsMutator, updated_nodes}
use df_ai.Plan.Dag.Steps.{Reachable, added, added_lem, put_fresh, reachable_elim, stamp}
use df_ai.Plan.Dag.Lookup.{FoundIn, Reachable-IsKeyed}
use df_ai.Base.{
  Bool, Bool-cases, List, String, [], ap, arith, false, if◌then◌else◌, inl, inr, length, map,
  map-map, map-pointwise, none, refl, same, some, suc, sym, ℕ, ◌++◌, ◌+◌, ◌||◌, ◌∙◌, ◌∷◌, ◌≡◌,
}

abbrev pub has_status : List Status → Node → Bool
has_status [] n = false
has_status (s ∷ ss) n = same_status n.status s || has_status ss n

-- The loop over insertOrder.
unfoldable pub filter_ids : List Status → List Node → List String → List Node
unfolding find
filter_ids statuses ns [] = []
filter_ids statuses ns (id ∷ ids) =
    let rest = filter_ids statuses ns ids in
    elim (find id ns) [ none ↦ rest | some n ↦ if has_status statuses n then n ∷ rest else rest ]

unfoldable pub filter_by_status : List Status → Dag → List Node
unfolding filter_ids
filter_by_status statuses d = filter_ids statuses d.nodes d.insert_order

unfoldable pub ready : Dag → List Node
unfolding filter_by_status
ready d = filter_by_status (status_ready ∷ []) d

unfoldable pub active : Dag → List Node
unfolding filter_by_status
active d = filter_by_status (status_active ∷ []) d

unfoldable pub pending : Dag → List Node
unfolding filter_by_status
pending d = filter_by_status (status_pending ∷ []) d

abbrev pub count_in : Status → Stats → Stats
count_in status_pending s = record s { pending = suc s.pending }
count_in status_ready s = record s { ready = suc s.ready }
count_in status_active s = record s { active = suc s.active }
count_in status_done s = record s { done = suc s.done }
count_in status_failed s = record s { failed = suc s.failed }

unfoldable pub stats_of : List Node → Stats
stats_of [] = record { pending = 0; ready = 0; active = 0; done = 0; failed = 0 }
stats_of (n ∷ ns) = count_in n.status (stats_of ns)

unfoldable pub stats : Dag → Stats
unfolding stats_of
stats d = stats_of d.nodes

-- The nodes that have one of the statuses, in their order.
abbrev pub select : List Status → List Node → List Node
select statuses [] = []
select statuses (n ∷ ns) =
    if has_status statuses n then n ∷ select statuses ns else select statuses ns

filter_ids-select :
    (statuses : List Status) (all ns : List Node)
    → FoundIn all ns
    → filter_ids statuses all (map Node.id ns) ≡ select statuses ns
unfolding filter_ids
filter_ids-select statuses all [] h = refl
filter_ids-select statuses all (n ∷ ns) h =
    rw (h.0, filter_ids-select statuses all ns h.1, filter_ids) refl

abbrev pub IsOrdered : Dag → Type 0
IsOrdered d = d.insert_order ≡ map Node.id d.nodes

map-append :
    (ns : List Node) (n : Node) → map Node.id (ns ++ (n ∷ [])) ≡ map Node.id ns ++ (n.id ∷ [])
map-append [] n = refl
map-append (m ∷ ns) n = ap (λ l. m.id ∷ l) (map-append ns n)

map-keeps : (f : Node → Node) (ns : List Node) → KeepsId f → map Node.id (map f ns) ≡ map Node.id ns
map-keeps f ns keeps = map-map Node.id f ns ∙ map-pointwise _ _ ns keeps

add-IsOrdered :
    (now : ℕ) (n : Node) (d : Dag)
    → n.status ≡ status_pending
    → find n.id d.nodes ≡ none
    → IsOrdered d
    → IsOrdered (add now n d)
unfolding add added stamp
add-IsOrdered now n d p fresh h =
    let id = (added_lem d.nodes now n p).0 in
    let new_node = added d.nodes now n in
    elim (Bool-cases (same n.id [])) [
      | inl a ↦ rw (a, add) h
      | inr a ↦
          rw (a, fresh, add)
            (ap (λ l. l ++ (n.id ∷ [])) h
              ∙ ap (λ s. map Node.id d.nodes ++ (s ∷ [])) (sym id)
              ∙ sym (map-append d.nodes new_node)
              ∙ ap (map Node.id)
                  (sym (put_fresh new_node d.nodes (ap (λ s. find s d.nodes) id ∙ fresh))))
    ]

update-IsOrdered :
    (order : List String) (id : String) (f : Node → Node) (d : Dag)
    → IsMutator f
    → Covers order d.nodes
    → IsOrdered d
    → IsOrdered (update order id f d).1
unfolding update
update-IsOrdered order id f d h covers o =
    let keeps : KeepsId (at id f) = λ n. (at-IsMutator id f h n).0 in
    let all = map (at id f) d.nodes in
    elim (Bool-cases (is_some (find id d.nodes))) [
      | inl a ↦
          rw (a, update)
            (o
              ∙ sym (map-keeps (at id f) d.nodes keeps)
              ∙ sym (map-keeps (promote all) all (promote-id all))
              ∙ ap (map Node.id) (sym (updated_nodes order id f d.nodes keeps covers)))
      | inr a ↦ rw (a, update) o
    ]

pub Reachable-IsOrdered : (d : Dag) → Reachable d → IsOrdered d
unfolding new
Reachable-IsOrdered = reachable_elim IsOrdered refl add-IsOrdered update-IsOrdered

-- On a plan that was reached by adding pending nodes with fresh ids and by the Mark and Note
-- operations, the readers by status give the nodes that have one of the statuses in the order of
-- the nodes, and the insertion order lists the id of each node once, in that order.
pub filter_by_status-select :
    (statuses : List Status) (d : Dag)
    → Reachable d
    → (filter_by_status statuses d ≡ select statuses d.nodes)
      × (d.insert_order ≡ map Node.id d.nodes)
unfolding filter_by_status
filter_by_status-select statuses d h = (
  ap (filter_ids statuses d.nodes) (Reachable-IsOrdered d h)
      ∙ filter_ids-select statuses d.nodes d.nodes (Reachable-IsKeyed d h),
  Reachable-IsOrdered d h,
)

count_ready :
    (s : Status) (counts : Stats) (n : Node) (l : List Node)
    → counts.ready ≡ length l
    → (count_in s counts).ready ≡ length (if same_status s status_ready || false then n ∷ l else l)
count_ready status_ready counts n l h = ap suc h
count_ready other counts n l h = h

count_total :
    (s : Status) (c : Stats)
    → let after = count_in s c in
      after.pending + after.ready + after.active + after.done + after.failed
      ≡ suc (c.pending + c.ready + c.active + c.done + c.failed)
count_total s c = ground arith

count_all :
    (ns : List Node)
    → ((stats_of ns).ready ≡ length (select (status_ready ∷ []) ns))
      × ((stats_of ns).pending
            + (stats_of ns).ready
            + (stats_of ns).active
            + (stats_of ns).done
            + (stats_of ns).failed
          ≡ length ns)
unfolding stats_of
count_all [] = (refl, refl)
count_all (n ∷ ns) =
    let others = count_all ns in
    (
      count_ready n.status (stats_of ns) n (select (status_ready ∷ []) ns) others.0,
      count_total n.status (stats_of ns) ∙ ap suc others.1,
    )

-- On a plan that was reached by adding pending nodes with fresh ids and by the Mark and Note
-- operations, Stats counts as many ready nodes as Ready gives, and its five counts add up to the
-- number of the nodes.
pub stats-ready :
    (d : Dag)
    → Reachable d
    → ((stats d).ready ≡ length (ready d))
      × ((stats d).pending + (stats d).ready + (stats d).active + (stats d).done + (stats d).failed
          ≡ length d.nodes)
unfolding stats ready
stats-ready d h =
    let counts = count_all d.nodes in
    (counts.0 ∙ ap length (sym (filter_by_status-select (status_ready ∷ []) d h).0), counts.1)
