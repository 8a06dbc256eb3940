-- ===== src/Islb/Node/Pool.antt =====
-- `GetConn` of the pool (pkg/sxu/connpool.go), and what becomes of its clients.
use dion.Prelude.{
  none, some, ◌≡◌, ◌⊎◌, inl, inr, refl, arith, String, String-discrete, Option-cases,
}
use dion.Prelude.GoMap.{get, put, get-put}
use dion.Islb.Node.{
  Outside, ConnPool, find_client, new_nats_rpc_client_with_id, nats_rpc_client_by_id, pooled,
  connect, peer_conns, get_conn,
}

module _ (out : Outside) where
  open out use {Client}

  connect-pooled :
      (service peer : String) (pool : ConnPool out) (c : Client)
      → (connect out service peer pool).0 ≡ some c
      → pooled out service peer (connect out service peer pool).1 ≡ some c
  unfolding connect new_nats_rpc_client_with_id nats_rpc_client_by_id pooled
  connect-pooled service peer pool c h =
      elim (Option-cases (find_client out service peer pool.node)) [
        | inl e ↦ absurd (ground arith)
        | inr (cli, e) ↦
            let id = out.random_string pool.node.drawn in
            let pcl =
              put String-discrete peer id
                (peer_conns (get String-discrete service pool.conn_list)) in
            ground (
              arith,
              get-put String-discrete service service pcl pool.conn_list,
              get-put String-discrete peer peer id
                  (peer_conns (get String-discrete service pool.conn_list)),
              get-put String-discrete id id cli pool.node.clis,
            )
      ]

  connect_failed :
      (service peer : String) (pool : ConnPool out)
      → (connect out service peer pool).0 ≡ none
      → (connect out service peer pool).1 ≡ pool
  unfolding connect new_nats_rpc_client_with_id
  connect_failed service peer pool h =
      elim (Option-cases (find_client out service peer pool.node)) [
        | inl e ↦ ground arith
        | inr (cli, e) ↦ absurd (ground arith)
      ]

  -- `GetConn` that returns a connection has it in the pool: a second call returns the same one and
  -- changes nothing. `GetConn` that returns an error changes nothing either.
  pub get_conn_cases :
      (service peer : String) (pool : ConnPool out)
      → ((c : Client) × ((get_conn out service peer pool).0 ≡ some c)
          × (get_conn out service peer (get_conn out service peer pool).1
              ≡ (some c, (get_conn out service peer pool).1)))
        ⊎ (((get_conn out service peer pool).0 ≡ none)
            × ((get_conn out service peer pool).1 ≡ pool))
  unfolding get_conn
  get_conn_cases service peer pool = elim (Option-cases (pooled out service peer pool)) [
    | inr (c, e) ↦ inl (c, rw (get_conn, e) refl, ground arith)
    | inl e ↦ elim (Option-cases (connect out service peer pool).0) [
      | inl g ↦ inr (rw (get_conn, e) (g, connect_failed service peer pool g))
      | inr (c, g) ↦
          inl (c, rw (get_conn, e) g, ground (arith, connect-pooled service peer pool c g))
    ]
  ]
