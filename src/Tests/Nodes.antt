-- ===== src/Tests/Nodes.antt =====
-- Runs of pkg/islb/node.go, pkg/sxu/connpool.go, of the sender of pkg/isglb/service.go, and of
-- pkg/sxu/bridge/bridge.go. A client is the name of its peer.
use dion.Prelude.{
  ℕ, Bool, true, false, List, [], ◌∷◌, String, String-discrete, Bool-cases, holds, ◌≡◌, ◌⊎◌, refl,
  none, some,
}
use dion.Prelude.GoMap.{get, put, del}
use dion.Proto.{Message, ProceedTrack}
use dion.Util.Set.Index.{last_with}
use dion.Util.SetMap.Laws.{member}
use dion.Islb.Node.{
  Outside, Node, NodeInfo, node_up, node_down, new_node, handle_neighbor_nodes,
  nats_rpc_client_by_id, ConnPool, new_conn_pool, get_conn, pooled, connect,
  new_nats_rpc_client_with_id, find_client, find_neighbor, find_registered, close_streams, NodeCall,
  neighbor, asks, node_step, node_run,
}
use dion.Islb.Node.Pool.{get_conn_cases}
use dion.Islb.Node.Neighbors.{expected_neighbor, expected_client, node_run-expected}
use dion.Islb.Registry.{
  Registered, Action, save, delete, handle_get_nodes, handle_node_actions, new_registry,
}
use dion.Islb.Registry.Answers.{find_node, if_asked, known as known_node, handle_get_nodes-known}
use dion.Isglb.Sender.{SendEvent, takes, hands, new_sender, send_run}
use dion.Isglb.Sender.Latest.{taken, reached, send_run-reached}
use dion.Sxu.Bridge.{new_bridge, update_bridge, update_bridges}
use dion.Sxu.Bridge.Entrances.{has_entrance, update_bridge_cases}
use dion.Tests.Sets.{versioned}
use dion.Tests.Syncers.{ion}

abbrev outside : Outside
outside = record {
  Client = String;
  new_client = λ id. id;
  close_stream = λ c id. holds (String-discrete c id);
  lookup = λ service. some [];
  random_string = λ n. "name";
}

abbrev sfu_node : NodeInfo
sfu_node = record { nid = "n1"; service = "sfu" }

abbrev known : Node outside
known = handle_neighbor_nodes outside node_up sfu_node (new_node outside)

abbrev pool : ConnPool outside
pool = new_conn_pool outside known

got_conn : (get_conn outside "sfu" "n1" pool).0 ≡ some "n1"
unfolding get_conn pooled connect new_nats_rpc_client_with_id find_client find_neighbor
    new_conn_pool handle_neighbor_nodes new_node get put Bool-cases String-discrete
got_conn = refl

get_conn_cases_example :
    ((c : String) × ((get_conn outside "sfu" "n1" pool).0 ≡ some c)
      × (get_conn outside "sfu" "n1" (get_conn outside "sfu" "n1" pool).1
          ≡ (some c, (get_conn outside "sfu" "n1" pool).1)))
    ⊎ (((get_conn outside "sfu" "n1" pool).0 ≡ none)
        × ((get_conn outside "sfu" "n1" pool).1 ≡ pool))
get_conn_cases_example = get_conn_cases outside "sfu" "n1" pool

abbrev node_calls : List NodeCall
node_calls =
    neighbor node_up sfu_node ∷ asks "sfu" "n1" ∷ neighbor node_down sfu_node ∷ asks "sfu" "*" ∷ []

-- The client of the node that went down is gone.
calls_run :
    nats_rpc_client_by_id outside "name" (node_run outside (new_node outside) node_calls) ≡ none
unfolding node_run node_step nats_rpc_client_by_id close_streams new_nats_rpc_client_with_id
    find_client find_neighbor find_registered handle_neighbor_nodes new_node get put del Bool-cases
    String-discrete
calls_run = refl

node_run-expected_example :
    (get String-discrete "n1" (node_run outside (new_node outside) node_calls).neighbor_nodes
      ≡ expected_neighbor outside "n1" (new_node outside) node_calls none)
    × (nats_rpc_client_by_id outside "name" (node_run outside (new_node outside) node_calls)
        ≡ expected_client outside "name" (new_node outside) node_calls none)
node_run-expected_example = node_run-expected outside node_calls "n1" "name"

abbrev sends : List (SendEvent (String × ℕ))
sends = takes ("n1", 1) ∷ takes ("n1", 2) ∷ hands "n1" ∷ takes ("n2", 1) ∷ []

send_run-reached_example :
    reached versioned (send_run versioned (new_sender versioned) sends) "n1"
    ≡ last_with versioned "n1" (taken versioned [] sends)
send_run-reached_example = send_run-reached versioned sends "n1"

abbrev mixes : Message (ProceedTrack ion)
mixes = record { text = λ t. t.dst_session_id; clone = λ t. t; clone_lem = λ t. refl }

abbrev mix : String → List String → ProceedTrack ion
mix dst sids = record { dst_session_id = dst; procedure = "x"; src_session_id_list = sids }

abbrev takes_any : ProceedTrack ion → Bool
takes_any t = true

update_bridge_cases_example :
    let b =
      update_bridges mixes takes_any (mix "m" ("a" ∷ "b" ∷ []) ∷ []) (new_bridge mixes takes_any) in
    let (ok, after) = update_bridge mixes takes_any (mix "m" ("b" ∷ "c" ∷ [])) b in
    ((ok ≡ true)
      × (true ≡ true)
      × ((sid : String) → has_entrance after sid ≡ member String-discrete sid ("b" ∷ "c" ∷ [])))
    ⊎ ((ok ≡ false) × (true ≡ false) × (after ≡ b))
update_bridge_cases_example =
    update_bridge_cases mixes takes_any (mix "m" ("a" ∷ "b" ∷ []) ∷ []) (mix "m" ("b" ∷ "c" ∷ []))

abbrev actions : List (Action × Registered)
actions =
    (save, record { id = "n1"; service = "sfu" })
    ∷ (save, record { id = "n2"; service = "rtc" })
    ∷ (delete, record { id = "n2"; service = "rtc" })
    ∷ []

handle_get_nodes-known_example :
    find_node "n1" (handle_get_nodes "*" (handle_node_actions actions new_registry))
    ≡ if_asked "*" (known_node "n1" actions none)
handle_get_nodes-known_example = handle_get_nodes-known actions "*" "n1"
