-- ===== src/Sfu/Signal/Sessions.antt =====
-- The session events of a stream (pkg/sfu/service.go, pkg/sfu/tracker.go): the deferred calls of
-- `removeClient` undo those of `addClient`.
use mathlib.Core.List.{append-nil, append_assoc}
use dion.Prelude.{
  Bool, false, none, some, List, [], ◌∷◌, ◌++◌, ◌≡◌, ◌≢◌, subst, sym, ite, ℕ, ℕ_discrete, arith,
}
use dion.Prelude.GoMap.{get, put, del, get-put, get-del}
use dion.Proto.{ClientNeededSession}
use dion.Sxu.Syncer.{SessionEvent}
use dion.Sfu.Signal.{
  Stream, SignalInput, new_sfu_service, new_stream, signal_run, add_client, remove_client,
  remove_clients,
}
use dion.Sfu.Signal.Stable.{Streams, Names, Events, IsStable}
use dion.Sfu.Signal.Steps.{signal_run-Runs}

-- The sessions that a stream has added and not removed, the newest first, after some events: each
-- removal is of the session that was added last and is still there.
pub data Held (n : ℕ) : Events → List ClientNeededSession → Type 0 where
  no_events : Held n [] []
  adds :
      (ev : Events) (c : ClientNeededSession) (cs : List ClientNeededSession)
      → Held n ev cs
      → Held n (ev ++ add_client n c ∷ []) (c ∷ cs)
  removes :
      (ev : Events) (c : ClientNeededSession) (cs : List ClientNeededSession)
      → Held n ev (c ∷ cs)
      → Held n (ev ++ remove_client n c ∷ []) cs
  others :
      (ev : Events) (m : ℕ) (e : SessionEvent) (cs : List ClientNeededSession)
      → n ≢ m
      → Held n ev cs
      → Held n (ev ++ (m, e) ∷ []) cs

-- The sessions whose removal an open stream has deferred.
unfoldable pub clients_of : ℕ → Streams → List ClientNeededSession
clients_of n ss = elim (get ℕ_discrete n ss) [ some s ↦ s.clients | none ↦ [] ]

pub IsBalanced : Streams → Names → Events → Type 0
IsBalanced ss sigs ev = (n : ℕ) → Held n ev (clients_of n ss)

clients_of-put :
    (m n : ℕ) (s : Stream) (ss : Streams)
    → clients_of m (put ℕ_discrete n s ss) ≡ ite (ℕ_discrete n m) s.clients (clients_of m ss)
unfolding clients_of
clients_of-put m n s ss = ground (arith, get-put ℕ_discrete m n s ss)

clients_of-del :
    (m n : ℕ) (ss : Streams)
    → clients_of m (del ℕ_discrete n ss) ≡ ite (ℕ_discrete n m) [] (clients_of m ss)
unfolding clients_of
clients_of-del m n ss = ground (arith, get-del ℕ_discrete m n ss)

clients_of_absent : (n : ℕ) (ss : Streams) → get ℕ_discrete n ss ≡ none → clients_of n ss ≡ []
unfolding clients_of
clients_of_absent n ss q = ground (arith)

clients_of_present :
    (n : ℕ) (s : Stream) (ss : Streams) → get ℕ_discrete n ss ≡ some s → clients_of n ss ≡ s.clients
unfolding clients_of
clients_of_present n s ss q = ground (arith)

-- All deferred calls run.
remove_clients-Held :
    (n : ℕ) (cs : List ClientNeededSession) (ev : Events)
    → Held n ev cs
    → Held n (ev ++ remove_clients n cs) []
unfolding remove_clients
remove_clients-Held n [] ev h = subst (λ x. Held n x []) (sym (append-nil ev)) h
remove_clients-Held n (c ∷ cs) ev h =
    subst (λ x. Held n x []) (append_assoc ev (remove_client n c ∷ []) (remove_clients n cs))
      (remove_clients-Held n cs (ev ++ remove_client n c ∷ []) (removes ev c cs h))

remove_clients_other :
    (m n : ℕ) (cs ds : List ClientNeededSession) (ev : Events)
    → m ≢ n
    → Held m ev ds
    → Held m (ev ++ remove_clients n cs) ds
unfolding remove_clients
remove_clients_other m n [] ds ev d h = subst (λ x. Held m x ds) (sym (append-nil ev)) h
remove_clients_other m n (c ∷ cs) ds ev d h =
    subst (λ x. Held m x ds) (append_assoc ev (remove_client n c ∷ []) (remove_clients n cs))
      (remove_clients_other m n cs ds (ev ++ remove_client n c ∷ []) d
        (others ev n (remove_client n c).1 ds d h))

moved :
    (n : ℕ) (ev : Events) (cs ds : List ClientNeededSession) → cs ≡ ds → Held n ev cs → Held n ev ds
moved n ev cs ds e h = subst (Held n ev) e h

put_same :
    (n : ℕ) (s : Stream) (ss : Streams) (ev : Events)
    → Held n ev (clients_of n (put ℕ_discrete n s ss))
    → Held n ev s.clients
put_same n s ss ev h =
    moved n ev (clients_of n (put ℕ_discrete n s ss)) s.clients
      (ground (arith, clients_of-put n n s ss)) h

IsBalanced-IsStable : IsStable IsBalanced
unfolding IsBalanced
IsBalanced-IsStable = record {
  opened = λ n ss sigs ev q h m.
      moved m ev (clients_of m ss) (clients_of m (put ℕ_discrete n new_stream ss))
        (ground (arith, clients_of-put m n new_stream ss, clients_of_absent n ss q)) (h m);
  stays = λ n s ss sigs ev q h m.
      moved m ev (clients_of m ss) (clients_of m (put ℕ_discrete n s ss))
        (ground (arith, clients_of-put m n s ss, clients_of_present n s ss q)) (h m);
  named = λ n s t ss sigs ev c k h m.
      moved m ev (clients_of m (put ℕ_discrete n s ss)) (clients_of m (put ℕ_discrete n t ss))
        (ground (arith, c, clients_of-put m n s ss, clients_of-put m n t ss)) (h m);
  tracked = λ n c s ss sigs ev h m. elim (ℕ_discrete n m) [
    | yes e ↦
        subst
          (λ m.
            Held m (ev ++ add_client n c ∷ [])
              (clients_of m (put ℕ_discrete n (record s { clients = c ∷ s.clients }) ss)))
          e
          (moved n (ev ++ add_client n c ∷ []) (c ∷ s.clients)
            (clients_of n (put ℕ_discrete n (record s { clients = c ∷ s.clients }) ss))
            (ground (arith, clients_of-put n n (record s { clients = c ∷ s.clients }) ss))
            (adds ev c s.clients (put_same n s ss ev (h n))))
    | no d ↦
        moved m (ev ++ add_client n c ∷ []) (clients_of m (put ℕ_discrete n s ss))
          (clients_of m (put ℕ_discrete n (record s { clients = c ∷ s.clients }) ss))
          (ground (
            arith,
            clients_of-put m n s ss,
            clients_of-put m n (record s { clients = c ∷ s.clients }) ss,
          ))
          (others ev n (add_client n c).1 (clients_of m (put ℕ_discrete n s ss)) (λ q. d (sym q))
            (h m))
  ];
  registered = λ n s a ss sigs ev e h. h;
  ended = λ n s ss sigs ev h m. elim (ℕ_discrete n m) [
    | yes e ↦
        subst (λ m. Held m (ev ++ remove_clients n s.clients) (clients_of m (del ℕ_discrete n ss)))
          e
          (moved n (ev ++ remove_clients n s.clients) [] (clients_of n (del ℕ_discrete n ss))
            (ground (arith, clients_of-del n n ss))
            (remove_clients-Held n s.clients ev (put_same n s ss ev (h n))))
    | no d ↦
        moved m (ev ++ remove_clients n s.clients) (clients_of m (put ℕ_discrete n s ss))
          (clients_of m (del ℕ_discrete n ss))
          (ground (arith, clients_of-put m n s ss, clients_of-del m n ss))
          (remove_clients_other m n s.clients (clients_of m (put ℕ_discrete n s ss)) ev
            (λ q. d (sym q)) (h m))
  ];
}

nothing_held : (m : ℕ) → Held m [] (clients_of m [])
unfolding clients_of get
nothing_held m = no_events

-- In every state that the service reaches and has not crashed in, for every stream: its session
-- events add the sessions that it tracks and remove the newest one that is left each time, and those
-- that are left are the ones whose removal the stream has deferred; none, once it has returned.
pub signal_run-Held :
    (track_session : Bool) (es : List SignalInput) (n : ℕ)
    → (signal_run (new_sfu_service track_session) es).crashed ≡ false
    → Held n
        (signal_run (new_sfu_service track_session) es).session_ev
        (clients_of n (signal_run (new_sfu_service track_session) es).streams)
unfolding IsBalanced
signal_run-Held track_session es n c =
    signal_run-Runs IsBalanced IsBalanced-IsStable track_session es (λ m. nothing_held m) c n
