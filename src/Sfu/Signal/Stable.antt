-- ===== src/Sfu/Signal/Stable.antt =====
-- The changes of the streams, the names and the session events of `SFUService` (pkg/sfu/service.go).
use dion.Prelude.{
  Option, none, some, List, [], ◌∷◌, ◌++◌, ◌≡◌, ℕ, ℕ_discrete, String, String-discrete,
}
use dion.Prelude.GoMap.{GoMap, get, put, del}
use dion.Proto.{ClientNeededSession}
use dion.Sxu.Syncer.{SessionEvent}
use dion.Sfu.Replies.{}
use dion.Sfu.Signal.{Stream, new_stream, add_client, remove_clients}

abbrev pub Streams : Type 0
Streams = GoMap ℕ Stream

abbrev pub Names : Type 0
Names = GoMap String ℕ

abbrev pub Events : Type 0
Events = List (ℕ × SessionEvent)

-- The names without that of a stream that ends.
abbrev pub without : Option String → Names → Names
without none sigs = sigs
without (some uid) sigs = del String-discrete uid sigs

-- The changes that keep a property: a stream opens or ends, and a stream that is there gets a name,
-- a tracked session or a registration.
pub record IsStable (P : Streams → Names → Events → Type 0) : Type 0 where
  pub opened :
      (n : ℕ) (ss : Streams) (sigs : Names) (ev : Events)
      → get ℕ_discrete n ss ≡ none
      → P ss sigs ev
      → P (put ℕ_discrete n new_stream ss) sigs ev
  pub stays :
      (n : ℕ) (s : Stream) (ss : Streams) (sigs : Names) (ev : Events)
      → get ℕ_discrete n ss ≡ some s
      → P ss sigs ev
      → P (put ℕ_discrete n s ss) sigs ev
  pub named :
      (n : ℕ) (s t : Stream) (ss : Streams) (sigs : Names) (ev : Events)
      → s.clients ≡ t.clients
      → ((id : String) → s.peer ≡ some id → t.peer ≡ some id)
      → P (put ℕ_discrete n s ss) sigs ev
      → P (put ℕ_discrete n t ss) sigs ev
  pub tracked :
      (n : ℕ) (c : ClientNeededSession) (s : Stream) (ss : Streams) (sigs : Names) (ev : Events)
      → P (put ℕ_discrete n s ss) sigs ev
      → P
          (put ℕ_discrete n (record s { clients = c ∷ s.clients }) ss)
          sigs
          (ev ++ add_client n c ∷ [])
  pub registered :
      (n : ℕ) (s : Stream) (id : String) (ss : Streams) (sigs : Names) (ev : Events)
      → s.peer ≡ some id
      → P (put ℕ_discrete n s ss) sigs ev
      → P (put ℕ_discrete n s ss) (put String-discrete id n sigs) ev
  pub ended :
      (n : ℕ) (s : Stream) (ss : Streams) (sigs : Names) (ev : Events)
      → P (put ℕ_discrete n s ss) sigs ev
      → P (del ℕ_discrete n ss) (without s.peer sigs) (ev ++ remove_clients n s.clients)
