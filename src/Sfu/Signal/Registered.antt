-- ===== src/Sfu/Signal/Registered.antt =====
-- The names of `SFUService.sigs` (pkg/sfu/service.go): they lead to open streams.
use dion.Prelude.{
  Bool, false, Option, none, some, List, ◌∷◌, ◌≡◌, refl, ite, ℕ, ℕ_discrete, String,
  String-discrete, arith,
}
use dion.Prelude.GoMap.{get, put, del, get-put, get-del}
use dion.Sfu.Signal.{Stream, SignalInput, new_sfu_service, new_stream, signal_run}
use dion.Sfu.Signal.Stable.{Streams, Names, Events, without, IsStable}
use dion.Sfu.Signal.Steps.{signal_run-Runs}

-- The name of the peer of an open stream.
unfoldable pub name_of : ℕ → Streams → Option String
name_of n ss = elim (get ℕ_discrete n ss) [ some s ↦ s.peer | none ↦ none ]

-- Every name that is registered is the name of the open stream that it leads to.
pub IsRegistered : Streams → Names → Events → Type 0
IsRegistered ss sigs ev =
    (id : String) (n : ℕ) → get String-discrete id sigs ≡ some n → name_of n ss ≡ some id

name_of-put :
    (m n : ℕ) (s : Stream) (ss : Streams)
    → name_of m (put ℕ_discrete n s ss) ≡ ite (ℕ_discrete n m) s.peer (name_of m ss)
unfolding name_of
name_of-put m n s ss = ground (arith, get-put ℕ_discrete m n s ss)

name_of-del :
    (m n : ℕ) (ss : Streams)
    → name_of m (del ℕ_discrete n ss) ≡ ite (ℕ_discrete n m) none (name_of m ss)
unfolding name_of
name_of-del m n ss = ground (arith, get-del ℕ_discrete m n ss)

name_of_absent : (n : ℕ) (ss : Streams) → get ℕ_discrete n ss ≡ none → name_of n ss ≡ none
unfolding name_of
name_of_absent n ss q = ground (arith)

name_of_present :
    (n : ℕ) (s : Stream) (ss : Streams) → get ℕ_discrete n ss ≡ some s → name_of n ss ≡ s.peer
unfolding name_of
name_of_present n s ss q = ground (arith)

without_ended :
    (p : Option String) (n : ℕ) (s : Stream) (ss : Streams) (sigs : Names) (ev : Events)
    → s.peer ≡ p
    → IsRegistered (put ℕ_discrete n s ss) sigs ev
    → IsRegistered (del ℕ_discrete n ss) (without p sigs) ev
unfolding IsRegistered
without_ended none n s ss sigs ev e h id m q =
    ground (arith, h id m q, name_of-put m n s ss, name_of-del m n ss)
without_ended (some uid) n s ss sigs ev e h id m q =
    ground
      (arith, h id m, name_of-put m n s ss, name_of-del m n ss, get-del String-discrete id uid sigs)

IsRegistered-IsStable : IsStable IsRegistered
unfolding IsRegistered
IsRegistered-IsStable = record {
  opened = λ n ss sigs ev q h id m r.
      ground (arith, h id m r, name_of-put m n new_stream ss, name_of_absent n ss q);
  stays = λ n s ss sigs ev q h id m r.
      ground (arith, h id m r, name_of-put m n s ss, name_of_present n s ss q);
  named = λ n s t ss sigs ev c k h id m r.
      ground (arith, h id m r, k id, name_of-put m n s ss, name_of-put m n t ss);
  tracked = λ n c s ss sigs ev h id m r. ground (
    arith,
    h id m r,
    name_of-put m n s ss,
    name_of-put m n (record s { clients = c ∷ s.clients }) ss,
  );
  registered = λ n s a ss sigs ev e h id m r.
      ground (arith, h id m, name_of-put m n s ss, get-put String-discrete id a n sigs);
  ended = λ n s ss sigs ev h. without_ended s.peer n s ss sigs ev refl h;
}

-- In every state that the service reaches and has not crashed in: a name that is registered leads to
-- a stream that is open and whose peer has that name. So nothing is broadcast to a stream that has
-- returned.
pub signal_run-IsRegistered :
    (track_session : Bool) (es : List SignalInput) (id : String) (n : ℕ)
    → (signal_run (new_sfu_service track_session) es).crashed ≡ false
    → get String-discrete id (signal_run (new_sfu_service track_session) es).sigs ≡ some n
    → name_of n (signal_run (new_sfu_service track_session) es).streams ≡ some id
unfolding IsRegistered get
signal_run-IsRegistered track_session es id n c =
    signal_run-Runs IsRegistered IsRegistered-IsStable track_session es (λ id n e. absurd (cc)) c id
      n
