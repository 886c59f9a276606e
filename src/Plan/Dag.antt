-- ===== src/Plan/Dag.antt =====
-- internal/plan/dag.go. The map of the nodes is the list of its values, no two with the same id; a loop
-- over the map takes the order in which it goes through the keys. The lock is not modelled, since an
-- operation is one step here, and so is a node that a caller changes after it has added it.
pub mod Promotion
pub mod Settled
pub mod Steps
pub mod Progress
pub mod Lookup
pub mod Terminal
pub mod Queries
pub mod Views
use df_ai.Plan.Node.{
  Node, is_terminal, same_status, status_active, status_done, status_failed, status_pending,
  status_ready,
}
use df_ai.Base.{
  Bool, List, Option, String, [], false, if◌then◌else◌, none, same, some, true, ℕ, ◌&&◌, ◌++◌, ◌==◌,
  ◌∷◌,
}

pub record Dag : Type 0 where
  pub nodes : List Node
  pub insert_order : List String

unfoldable pub new : Dag
new = record { nodes = []; insert_order = [] }

-- `d.nodes[id]`
unfoldable pub find : String → List Node → Option Node
find id [] = none
find id (n ∷ ns) = if same n.id id then some n else find id ns

abbrev pub is_some : {A : Type 0} → Option A → Bool
is_some none = false
is_some (some a) = true

-- `d.nodes[n.ID] = n`
unfoldable pub put : Node → List Node → List Node
put n [] = n ∷ []
put n (m ∷ ms) = let rest = put n ms in if same m.id n.id then n ∷ ms else m ∷ rest

-- A change of the node that the map holds at an id.
unfoldable pub change : String → (Node → Node) → List Node → List Node
change id f [] = []
change id f (n ∷ ns) = (if same n.id id then f n else n) ∷ change id f ns

unfoldable pub is_done : List Node → String → Bool
unfolding find
is_done ns id = elim (find id ns) [ none ↦ false | some n ↦ same_status n.status status_done ]

unfoldable pub all_deps_done : List Node → List String → Bool
unfolding is_done
all_deps_done ns [] = true
all_deps_done ns (id ∷ ids) = if is_done ns id then all_deps_done ns ids else false

-- The body of a loop, and of Add: a pending node of which all dependencies are done is ready.
unfoldable pub promote : List Node → Node → Node
unfolding all_deps_done
promote ns n =
    if same_status n.status status_pending && all_deps_done ns n.dependencies
    then record n { status = status_ready }
    else n

-- promoteNewlyReadyLocked, in any order of the keys: each step sees the nodes as the steps before it
-- left them.
unfoldable pub promote_newly_ready : List String → List Node → List Node
unfolding change promote
promote_newly_ready [] ns = ns
promote_newly_ready (id ∷ order) ns = promote_newly_ready order (change id (promote ns) ns)

-- Add, for a node that is not nil.
unfoldable pub add : ℕ → Node → Dag → Dag
unfolding find put promote
add now n d =
    if same n.id []
    then d
    else let stamped = if n.created_at == 0 then record n { created_at = now } else n in
      record {
        nodes = put (promote d.nodes stamped) d.nodes;
        insert_order =
            if is_some (find n.id d.nodes) then d.insert_order else d.insert_order ++ (n.id ∷ []);
      }

unfoldable pub get : String → Dag → Option Node
unfolding find
get id d = find id d.nodes

-- `order` is that of the loop in promoteNewlyReadyLocked.
unfoldable pub update : List String → String → (Node → Node) → Dag → Bool × Dag
unfolding find change promote_newly_ready
update order id f d =
    if is_some (find id d.nodes)
    then (true, record d { nodes = promote_newly_ready order (change id f d.nodes) })
    else (false, d)

abbrev pub activate : ℕ → Node → Node
activate now n =
    if same_status n.status status_ready
    then record n { status = status_active; started_at = now; last_progress_at = now }
    else n

unfoldable pub mark_active : ℕ → List String → String → Dag → Bool × Dag
unfolding update
mark_active now order id d = update order id (activate now) d

abbrev pub progressed : ℕ → Node → Node
progressed now n =
    if same_status n.status status_active
    then record n { last_progress_at = now; stall_noted_at = 0 }
    else n

unfoldable pub note_progress : ℕ → List String → String → Dag → Bool × Dag
unfolding update
note_progress now order id d = update order id (progressed now) d

abbrev pub stalled : ℕ → Node → Node
stalled now n = if same_status n.status status_active then record n { stall_noted_at = now } else n

unfoldable pub note_stall : ℕ → List String → String → Dag → Bool × Dag
unfolding update
note_stall now order id d = update order id (stalled now) d

abbrev pub finish : ℕ → Node → Node
finish now n = if is_terminal n then n else record n { status = status_done; done_at = now }

unfoldable pub mark_done : ℕ → List String → String → Dag → Bool × Dag
unfolding update is_terminal
mark_done now order id d = update order id (finish now) d

abbrev pub fail_with : ℕ → String → Node → Node
fail_with now reason n =
    if is_terminal n then n else record n { status = status_failed; result = reason; done_at = now }

unfoldable pub mark_failed : ℕ → List String → String → String → Dag → Bool × Dag
unfolding update is_terminal
mark_failed now order id reason d = update order id (fail_with now reason) d
