-- ===== src/Islb/Node.antt =====
-- pkg/islb/node.go: the neighbours and the RPC clients of a node, and pkg/sxu/connpool.go: the pool
-- that finds a client again. The clients and the discovery service come from other repositories and
-- are parameters, with the random names of clients.
pub mod Pool
pub mod Neighbors
use dion.Prelude.{
  Bool, true, false, ◌&&◌, ◌||◌, Option, none, some, List, [], ◌∷◌, ℕ, ◌+◌, String, String-discrete,
  holds, if◌then◌else◌, is_some,
}
use dion.Prelude.GoMap.{GoMap, get, put, del}

-- `discovery.Node`, with the fields that are read.
pub record NodeInfo : Type 0 where
  pub nid : String
  pub service : String

-- `discovery.NodeState`: up, down, and the rest.
pub data NodeState : Type 0 where
  node_up node_down node_other : NodeState

abbrev pub fits_peer : String → String → Bool
fits_peer id peer = holds (String-discrete id peer) || holds (String-discrete peer "*")

abbrev pub peer_conns : Option (GoMap String String) → GoMap String String
peer_conns none = []
peer_conns (some pcl) = pcl

-- What the node calls: `nrpc.NewClient` with the node's own connection and name, `CloseStream` of a
-- client, `Get` of the discovery client, whose error is `none`, and `RandomString`.
pub record Outside : Type 1 where
  pub Client : Type 0
  pub new_client : String → Client
  pub close_stream : Client → String → Bool
  pub lookup : String → Option (List NodeInfo)
  pub random_string : ℕ → String

module _ (out : Outside) where
  open out use {Client, new_client, close_stream, lookup, random_string}

  -- `Node`; `drawn` counts the random names.
  pub record Node : Type 0 where
    pub neighbor_nodes : GoMap String NodeInfo
    pub clis : GoMap String Client
    pub drawn : ℕ

module _ (out : Outside) where
  open out use {Client, new_client, close_stream, lookup, random_string}

  unfoldable pub new_node : Node out
  new_node = record { neighbor_nodes = []; clis = []; drawn = 0 }

  -- The two loops that look for the peer; the last match stays.
  unfoldable pub find_neighbor :
      String → String → GoMap String NodeInfo → Option Client → Option Client
  find_neighbor service peer [] cli = cli
  find_neighbor service peer ((id, node) ∷ rest) cli = find_neighbor service peer rest (
      if holds (String-discrete node.service service) && fits_peer id peer
      then some (new_client id)
      else cli)

  unfoldable pub find_registered : String → List NodeInfo → Option Client → Option Client
  find_registered peer [] cli = cli
  find_registered peer (node ∷ rest) cli =
      find_registered peer rest
        (if fits_peer node.nid peer then some (new_client node.nid) else cli)

  -- `none` is an error: of the discovery client, of no node, or of no match.
  unfoldable pub find_client : String → String → Node out → Option Client
  find_client service peer n = elim (find_neighbor service peer n.neighbor_nodes none) [
    | some cli ↦ some cli
    | none ↦ elim (lookup service) [ none ↦ none | some nodes ↦ find_registered peer nodes none ]
  ]

  unfoldable pub new_nats_rpc_client_with_id :
      String → String → Node out → Option (Client × String) × Node out
  new_nats_rpc_client_with_id service peer n = elim (find_client service peer n) [
    | none ↦ (none, n)
    | some cli ↦
        let id = random_string n.drawn in
        (some (cli, id), record n { clis = put String-discrete id cli n.clis; drawn = n.drawn + 1 })
  ]

  unfoldable pub nats_rpc_client_by_id : String → Node out → Option Client
  nats_rpc_client_by_id id n = get String-discrete id n.clis

  -- The clients that a node's end leaves.
  unfoldable pub close_streams : String → GoMap String Client → GoMap String Client
  close_streams id [] = []
  close_streams id ((cid, cli) ∷ rest) =
      let more = close_streams id rest in if close_stream cli id then more else (cid, cli) ∷ more

  unfoldable pub handle_neighbor_nodes : NodeState → NodeInfo → Node out → Node out
  handle_neighbor_nodes node_up node n =
      if is_some (get String-discrete node.nid n.neighbor_nodes)
      then n
      else record n { neighbor_nodes = put String-discrete node.nid node n.neighbor_nodes }
  handle_neighbor_nodes node_down node n = record n {
    neighbor_nodes = del String-discrete node.nid n.neighbor_nodes;
    clis = close_streams node.nid n.clis;
  }
  handle_neighbor_nodes node_other node n = n

-- What a node meets: a change of a neighbour, or a call of `NewNatsRPCClientWithID`.
pub data NodeCall : Type 0 where
  neighbor : NodeState → NodeInfo → NodeCall
  asks : String → String → NodeCall

module _ (out : Outside) where
  unfoldable pub node_step : Node out → NodeCall → Node out
  node_step n (neighbor state node) = handle_neighbor_nodes out state node n
  node_step n (asks service peer) = (new_nats_rpc_client_with_id out service peer n).1

  unfoldable pub node_run : Node out → List NodeCall → Node out
  node_run n [] = n
  node_run n (c ∷ cs) = node_run (node_step n c) cs

-- `NRPCConnPool`: the names of clients by service and peer, with the node.
pub record ConnPool (out : Outside) : Type 0 where
  pub node : Node out
  pub conn_list : GoMap String (GoMap String String)

module _ (out : Outside) where
  open out use {Client}

  unfoldable pub new_conn_pool : Node out → ConnPool out
  new_conn_pool n = record { node = n; conn_list = [] }

  -- The client that the pool has for a service and a peer, if the node still has it.
  unfoldable pub pooled : String → String → ConnPool out → Option Client
  pooled service peer pool = elim (get String-discrete service pool.conn_list) [
    | none ↦ none
    | some pcl ↦ elim (get String-discrete peer pcl) [
      | none ↦ none
      | some cid ↦ nats_rpc_client_by_id out cid pool.node
    ]
  ]

  -- The end of `GetConn`: a new client, noted under its service and peer.
  unfoldable pub connect : String → String → ConnPool out → Option Client × ConnPool out
  connect service peer pool =
      let (made, node) = new_nats_rpc_client_with_id out service peer pool.node in
      elim made [
        | none ↦ (none, record pool { node = node })
        | some (conn, cid) ↦ (
          some conn,
          record {
            node = node;
            conn_list =
                put String-discrete service
                  (put String-discrete peer cid
                    (peer_conns (get String-discrete service pool.conn_list)))
                  pool.conn_list;
          },
        )
      ]

  unfoldable pub get_conn : String → String → ConnPool out → Option Client × ConnPool out
  get_conn service peer pool = elim (pooled service peer pool) [
    | some conn ↦ (some conn, pool)
    | none ↦ connect service peer pool
  ]
