-- ===== src/Islb/Registry.antt =====
-- pkg/islb/registry.go: the nodes that the registry of discovery reports, and those that it gives out.
-- `Listen`, which calls the two handlers, comes from another repository.
pub mod Answers
use dion.Prelude.{
  Bool, true, false, ◌||◌, List, [], ◌∷◌, String, String-discrete, holds, if◌then◌else◌,
}
use dion.Prelude.GoMap.{GoMap, put, del}

-- `discovery.Node`: what `ID()` gives, and the service.
pub record Registered : Type 0 where
  pub id : String
  pub service : String

-- `discovery.Action`: the named values, and the rest.
pub data Action : Type 0 where
  save update delete other_action : Action

pub record Registry : Type 0 where
  pub nodes : GoMap String Registered

unfoldable pub new_registry : Registry
new_registry = record { nodes = [] }

unfoldable pub handle_node_action : Action → Registered → Registry → Registry
handle_node_action save node r = record { nodes = put String-discrete node.id node r.nodes }
handle_node_action update node r = record { nodes = put String-discrete node.id node r.nodes }
handle_node_action delete node r = record { nodes = del String-discrete node.id r.nodes }
handle_node_action other_action node r = r

-- The test of `handleGetNodes`.
unfoldable pub is_asked : String → Registered → Bool
is_asked service node =
    holds (String-discrete node.service service) || holds (String-discrete service "*")

unfoldable pub matching_nodes : String → GoMap String Registered → List Registered
matching_nodes service [] = []
matching_nodes service ((id, node) ∷ rest) =
    let more = matching_nodes service rest in if is_asked service node then node ∷ more else more

unfoldable pub handle_get_nodes : String → Registry → List Registered
handle_get_nodes service r = matching_nodes service r.nodes

unfoldable pub handle_node_actions : List (Action × Registered) → Registry → Registry
handle_node_actions [] r = r
handle_node_actions ((action, node) ∷ rest) r =
    handle_node_actions rest (handle_node_action action node r)
