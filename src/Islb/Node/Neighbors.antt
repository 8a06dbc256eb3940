-- ===== src/Islb/Node/Neighbors.antt =====
-- The neighbours and the clients of a node (pkg/islb/node.go), by what has happened to it.
use dion.Prelude.{
  Option, none, some, List, [], ◌∷◌, ◌≡◌, refl, arith, String, String-discrete, holds,
  if◌then◌else◌, is_some, Option-cases, Bool-cases, inl, inr,
}
use dion.Prelude.GoMap.{GoMap, get, get-put, get-del, Distinct, put-Distinct}
use dion.Islb.Node.{
  NodeInfo, node_up, node_down, node_other, Outside, Node, new_node, find_client,
  new_nats_rpc_client_with_id, nats_rpc_client_by_id, close_streams, handle_neighbor_nodes,
  NodeCall, neighbor, asks, node_step, node_run,
}

module _ (out : Outside) where
  open out use {Client, close_stream, random_string}

  -- What happened: a node came up or went down, or a client was made under a name.
  pub data NodeFact : Type 0 where
    came : NodeInfo → NodeFact
    went : String → NodeFact
    made : Client → String → NodeFact

module _ (out : Outside) where
  open out use {Client, close_stream, random_string}

  abbrev pub made_fact : Option (Client × String) → List (NodeFact out)
  made_fact none = []
  made_fact (some (cli, cid)) = made cli cid ∷ []

  abbrev pub fact_of : Node out → NodeCall → List (NodeFact out)
  fact_of n (neighbor node_up node) = came node ∷ []
  fact_of n (neighbor node_down node) = went node.nid ∷ []
  fact_of n (neighbor node_other node) = []
  fact_of n (asks service peer) = made_fact (new_nats_rpc_client_with_id out service peer n).0

  -- The first arrival of a node since it went down last.
  abbrev pub neighbor_after : String → NodeFact out → Option NodeInfo → Option NodeInfo
  neighbor_after id (came node) (some known) = some known
  neighbor_after id (came node) none =
      if holds (String-discrete node.nid id) then some node else none
  neighbor_after id (went nid) known = if holds (String-discrete nid id) then none else known
  neighbor_after id (made cli cid) known = known

  -- A client that closes a stream to the node is dropped.
  abbrev pub unless_closed : String → Option Client → Option Client
  unless_closed nid none = none
  unless_closed nid (some cli) = if close_stream cli nid then none else some cli

  -- The last client that was made under the name, unless a node went down since, to which it closed a
  -- stream.
  abbrev pub client_after : String → NodeFact out → Option Client → Option Client
  client_after cid (came node) known = known
  client_after cid (went nid) known = unless_closed nid known
  client_after cid (made cli name) known =
      if holds (String-discrete name cid) then some cli else known

  abbrev pub neighbor_after_all : String → List (NodeFact out) → Option NodeInfo → Option NodeInfo
  neighbor_after_all id [] known = known
  neighbor_after_all id (f ∷ fs) known = neighbor_after_all id fs (neighbor_after id f known)

  abbrev pub client_after_all : String → List (NodeFact out) → Option Client → Option Client
  client_after_all cid [] known = known
  client_after_all cid (f ∷ fs) known = client_after_all cid fs (client_after cid f known)

  -- The lookups after some calls, from those before them.
  unfoldable pub expected_neighbor :
      String → Node out → List NodeCall → Option NodeInfo → Option NodeInfo
  expected_neighbor id n [] known = known
  expected_neighbor id n (c ∷ cs) known =
      expected_neighbor id (node_step out n c) cs (neighbor_after_all id (fact_of n c) known)

  unfoldable pub expected_client : String → Node out → List NodeCall → Option Client → Option Client
  expected_client cid n [] known = known
  expected_client cid n (c ∷ cs) known =
      expected_client cid (node_step out n c) cs (client_after_all cid (fact_of n c) known)

module _ (out : Outside) where
  open out use {Client, close_stream, random_string}

  get-close_streams :
      (id cid : String) (m : GoMap String Client)
      → Distinct String-discrete m
      → get String-discrete cid (close_streams out id m)
        ≡ unless_closed out id (get String-discrete cid m)
  unfolding close_streams get
  get-close_streams id cid [] d = refl
  get-close_streams id cid ((j, cli) ∷ m) (e, d) = ground (arith, get-close_streams id cid m d)

  close_streams-Distinct :
      (id : String) (m : GoMap String Client)
      → Distinct String-discrete m
      → Distinct String-discrete (close_streams out id m)
  unfolding close_streams
  close_streams-Distinct id [] d = tt
  close_streams-Distinct id ((j, cli) ∷ m) (e, d) =
      ground (arith, close_streams-Distinct id m d, get-close_streams id j m d)

  node_step-Distinct :
      (n : Node out) (c : NodeCall)
      → Distinct String-discrete n.clis
      → Distinct String-discrete (node_step out n c).clis
  unfolding node_step handle_neighbor_nodes new_nats_rpc_client_with_id
  node_step-Distinct n (neighbor node_up node) d =
      elim (Bool-cases (is_some (get String-discrete node.nid n.neighbor_nodes))) [
        | inl e ↦ rw e d
        | inr e ↦ rw e d
      ]
  node_step-Distinct n (neighbor node_down node) d = close_streams-Distinct node.nid n.clis d
  node_step-Distinct n (neighbor node_other node) d = d
  node_step-Distinct n (asks service peer) d =
      elim (Option-cases (find_client out service peer n)) [
        | inl e ↦ ground arith
        | inr (cli, e) ↦
            ground (arith, put-Distinct String-discrete (random_string n.drawn) cli n.clis d)
      ]

  neighbor_step :
      (n : Node out) (c : NodeCall) (id : String)
      → get String-discrete id (node_step out n c).neighbor_nodes
        ≡ neighbor_after_all out id (fact_of out n c) (get String-discrete id n.neighbor_nodes)
  unfolding node_step handle_neighbor_nodes new_nats_rpc_client_with_id
  neighbor_step n (neighbor node_up node) id =
      ground (arith, get-put String-discrete id node.nid node n.neighbor_nodes)
  neighbor_step n (neighbor node_down node) id =
      ground (arith, get-del String-discrete id node.nid n.neighbor_nodes)
  neighbor_step n (neighbor node_other node) id = refl
  neighbor_step n (asks service peer) id = ground arith

  client_step :
      (n : Node out) (c : NodeCall) (cid : String)
      → Distinct String-discrete n.clis
      → nats_rpc_client_by_id out cid (node_step out n c)
        ≡ client_after_all out cid (fact_of out n c) (nats_rpc_client_by_id out cid n)
  unfolding node_step handle_neighbor_nodes new_nats_rpc_client_with_id nats_rpc_client_by_id
  client_step n (neighbor node_up node) cid d = ground arith
  client_step n (neighbor node_down node) cid d = get-close_streams node.nid cid n.clis d
  client_step n (neighbor node_other node) cid d = refl
  client_step n (asks service peer) cid d = elim (Option-cases (find_client out service peer n)) [
    | inl e ↦ ground arith
    | inr (cli, e) ↦ ground (arith, get-put String-discrete cid (random_string n.drawn) cli n.clis)
  ]

  run_neighbors :
      (n : Node out) (calls : List NodeCall) (id : String)
      → get String-discrete id (node_run out n calls).neighbor_nodes
        ≡ expected_neighbor out id n calls (get String-discrete id n.neighbor_nodes)
  unfolding node_run expected_neighbor
  run_neighbors n [] id = refl
  run_neighbors n (c ∷ cs) id =
      rw (run_neighbors (node_step out n c) cs id, neighbor_step n c id) refl

  run_clients :
      (n : Node out) (calls : List NodeCall) (cid : String)
      → Distinct String-discrete n.clis
      → nats_rpc_client_by_id out cid (node_run out n calls)
        ≡ expected_client out cid n calls (nats_rpc_client_by_id out cid n)
  unfolding node_run expected_client
  run_clients n [] cid d = refl
  run_clients n (c ∷ cs) cid d =
      rw (run_clients (node_step out n c) cs cid (node_step-Distinct n c d), client_step n c cid d)
        refl

  -- After any calls on a new node: a node is a neighbour exactly if it came up since it went down
  -- last, with the information of its first arrival since. A client is found under a name exactly if
  -- it was the last one made under it and, since, no node went down to which it closes a stream.
  pub node_run-expected :
      (calls : List NodeCall) (id cid : String)
      → (get String-discrete id (node_run out (new_node out) calls).neighbor_nodes
          ≡ expected_neighbor out id (new_node out) calls none)
        × (nats_rpc_client_by_id out cid (node_run out (new_node out) calls)
            ≡ expected_client out cid (new_node out) calls none)
  unfolding new_node nats_rpc_client_by_id get
  node_run-expected calls id cid =
      (run_neighbors (new_node out) calls id, run_clients (new_node out) calls cid tt)
