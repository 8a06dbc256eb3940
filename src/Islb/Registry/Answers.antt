-- ===== src/Islb/Registry/Answers.antt =====
-- What the registry of pkg/islb/registry.go answers after a history of actions.
use dion.Prelude.{
  Option, none, some, List, [], ◌∷◌, ◌≡◌, refl, ◌∙◌, arith, String, String-discrete, holds,
  if◌then◌else◌,
}
use dion.Prelude.GoMap.{
  GoMap, get, put, del, get-put, get-del, Distinct, put-Distinct, del-Distinct,
}
use dion.Islb.Registry.{
  Registered, Action, save, update, delete, other_action, Registry, new_registry,
  handle_node_action, is_asked, matching_nodes, handle_get_nodes, handle_node_actions,
}

-- The node of an identifier after a history, told without any map.
unfoldable pub known : String → List (Action × Registered) → Option Registered → Option Registered
known k [] o = o
known k ((save, node) ∷ rest) o =
    known k rest (if holds (String-discrete node.id k) then some node else o)
known k ((update, node) ∷ rest) o =
    known k rest (if holds (String-discrete node.id k) then some node else o)
known k ((delete, node) ∷ rest) o =
    known k rest (if holds (String-discrete node.id k) then none else o)
known k ((other_action, node) ∷ rest) o = known k rest o

-- The first node of an answer with an identifier.
unfoldable pub find_node : String → List Registered → Option Registered
find_node k [] = none
find_node k (node ∷ rest) =
    if holds (String-discrete node.id k) then some node else find_node k rest

abbrev pub if_asked : String → Option Registered → Option Registered
if_asked service none = none
if_asked service (some node) = if is_asked service node then some node else none

abbrev IsKeyed : GoMap String Registered → Type 0
IsKeyed [] = Unit
IsKeyed ((k, node) ∷ m) = (node.id ≡ k) × IsKeyed m

abbrev IsOk : Registry → Type 0
IsOk r = IsKeyed r.nodes × Distinct String-discrete r.nodes

put-IsKeyed :
    (node : Registered) (m : GoMap String Registered)
    → IsKeyed m
    → IsKeyed (put String-discrete node.id node m)
unfolding put
put-IsKeyed node [] h = (refl, tt)
put-IsKeyed node ((k, old) ∷ m) h = ground (arith, put-IsKeyed node m h.1, h.0)

del-IsKeyed :
    (k : String) (m : GoMap String Registered) → IsKeyed m → IsKeyed (del String-discrete k m)
unfolding del
del-IsKeyed k [] h = tt
del-IsKeyed k ((j, old) ∷ m) h = ground (arith, del-IsKeyed k m h.1, h.0)

action-IsOk :
    (action : Action) (node : Registered) (r : Registry)
    → IsOk r
    → IsOk (handle_node_action action node r)
unfolding handle_node_action
action-IsOk save node r h =
    (put-IsKeyed node r.nodes h.0, put-Distinct String-discrete node.id node r.nodes h.1)
action-IsOk update node r h =
    (put-IsKeyed node r.nodes h.0, put-Distinct String-discrete node.id node r.nodes h.1)
action-IsOk delete node r h =
    (del-IsKeyed node.id r.nodes h.0, del-Distinct String-discrete node.id r.nodes h.1)
action-IsOk other_action node r h = h

answered :
    (service k : String) (m : GoMap String Registered)
    → IsKeyed m
    → Distinct String-discrete m
    → find_node k (matching_nodes service m) ≡ if_asked service (get String-discrete k m)
unfolding find_node matching_nodes get
answered service k [] h d = refl
answered service k ((j, node) ∷ m) h d = ground (arith, answered service k m h.1 d.1, h.0, d.0)

actions-answered :
    (actions : List (Action × Registered)) (r : Registry) (service k : String)
    → IsOk r
    → find_node k (handle_get_nodes service (handle_node_actions actions r))
      ≡ if_asked service (known k actions (get String-discrete k r.nodes))
unfolding handle_node_actions known handle_get_nodes handle_node_action
actions-answered [] r service k h = answered service k r.nodes h.0 h.1
actions-answered ((save, node) ∷ rest) r service k h =
    actions-answered rest (handle_node_action save node r) service k (action-IsOk save node r h)
    ∙ ground (arith, get-put String-discrete k node.id node r.nodes)
actions-answered ((update, node) ∷ rest) r service k h =
    actions-answered rest (handle_node_action update node r) service k (action-IsOk update node r h)
    ∙ ground (arith, get-put String-discrete k node.id node r.nodes)
actions-answered ((delete, node) ∷ rest) r service k h =
    actions-answered rest (handle_node_action delete node r) service k (action-IsOk delete node r h)
    ∙ ground (arith, get-del String-discrete k node.id r.nodes)
actions-answered ((other_action, node) ∷ rest) r service k h = actions-answered rest r service k h

-- After any actions on a new registry, the answer for a service has under an identifier the node
-- that was saved or updated last, if it was not deleted since and is of the service, or the service
-- is the star; and else it has none.
pub handle_get_nodes-known :
    (actions : List (Action × Registered)) (service k : String)
    → find_node k (handle_get_nodes service (handle_node_actions actions new_registry))
      ≡ if_asked service (known k actions none)
unfolding new_registry get
handle_get_nodes-known actions service k = actions-answered actions new_registry service k (tt, tt)
