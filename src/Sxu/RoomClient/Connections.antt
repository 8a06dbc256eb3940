-- ===== src/Sxu/RoomClient/Connections.antt =====
-- The connections of a room's client (pkg/sxu/room/client.go).
use dion.Prelude.{
  Bool, true, false, Option, none, some, List, [], ◌∷◌, ◌++◌, ℕ, suc, ◌<◌, ◌≡◌, ◌⊎◌, refl, arith,
  ℕ_discrete, holds, ◌||◌, if◌then◌else◌, ◌&&◌, not,
}
use dion.Proto.{ClientNeededSession}
use dion.Util.Client.Contexts.{is_in, is_in-append}
use dion.Sxu.RoomClient.{
  RoomClient, new_room_client, Health, healthy, unhealthy, late, close_conn, reconnect_room,
  health_call, health_turn, keep_alive, RoomClientEvent, updates_session, refreshes, connects,
  closes, turns, fails_late, room_client_step, room_client_run,
}

is_in-close_conn :
    (n : ℕ) (conn : Option ℕ) (closed : List ℕ)
    → is_in n (close_conn conn closed)
      ≡ is_in n closed || elim conn [ none ↦ false | some m ↦ holds (ℕ_discrete m n) ]
unfolding is_in
is_in-close_conn n none closed = ground arith
is_in-close_conn n (some m) closed = ground (arith, is_in-append n closed (m ∷ []))

-- Every connection that was made is closed, but the current one, and no other number is closed.
abbrev pub IsClosed : Option ℕ → ℕ → List ℕ → Type 0
IsClosed conn next closed =
    (n : ℕ)
    → (n < next → (is_in n closed ≡ true) ⊎ (conn ≡ some n))
      × (is_in n closed ≡ true → n < next)
      × (conn ≡ some n → n < next)

-- The invariant of the connections, and a client that has one says that it is connected.
pub record IsSingle (c : RoomClient) : Type 0 where
  pub closed : IsClosed c.conn c.next c.closed
  pub connected : c.connected ≡ true → (n : ℕ) × (c.conn ≡ some n)

close_conn-IsClosed :
    (conn : Option ℕ) (next : ℕ) (closed : List ℕ)
    → IsClosed conn next closed
    → IsClosed conn next (close_conn conn closed)
close_conn-IsClosed none next closed i n = ground (arith, i n, is_in-close_conn n none closed)
close_conn-IsClosed (some m) next closed i n =
    ground (arith, i n, i m, is_in-close_conn n (some m) closed)

next-IsClosed :
    (conn : Option ℕ) (next : ℕ) (closed : List ℕ)
    → IsClosed conn next closed
    → IsClosed (some next) (suc next) (close_conn conn closed)
next-IsClosed none next closed i n = ground (arith, i n, is_in-close_conn n none closed)
next-IsClosed (some m) next closed i n =
    ground (arith, i n, i m, is_in-close_conn n (some m) closed)

reconnect_room-IsSingle :
    (found : Bool) (c : RoomClient) → IsSingle c → IsSingle (reconnect_room found c)
unfolding reconnect_room
reconnect_room-IsSingle false c i = record {
  closed = close_conn-IsClosed c.conn c.next c.closed i.closed;
  connected = i.connected;
}
reconnect_room-IsSingle true c i = record {
  closed = next-IsClosed c.conn c.next c.closed i.closed;
  connected = λ e. (c.next, refl);
}

health_call-IsSingle :
    (h : Health) (found again : Bool) (n : ℕ) (o : Option ClientNeededSession) (c : RoomClient)
    → IsSingle c
    → IsSingle (health_call h found again n o c)
health_call-IsSingle h found again n none c i = i
health_call-IsSingle healthy found again n (some s) c i = record {
  closed = i.closed;
  connected = i.connected;
}
health_call-IsSingle unhealthy found again n (some s) c i =
    reconnect_room-IsSingle found (record c { healths = c.healths ++ (n, s) ∷ [] })
      (record { closed = i.closed; connected = i.connected })
health_call-IsSingle late found again n (some s) c i =
    reconnect_room-IsSingle again (record c { healths = c.healths ++ (n, s) ∷ [] })
      (record { closed = i.closed; connected = i.connected })

health_turn-IsSingle :
    (h : Health) (found again : Bool) (o : Option ℕ) (c : RoomClient)
    → IsSingle c
    → IsSingle (health_turn h found again o c)
health_turn-IsSingle h found again none c i =
    reconnect_room-IsSingle again (reconnect_room found c) (reconnect_room-IsSingle found c i)
health_turn-IsSingle h found again (some n) c i = health_call-IsSingle h found again n c.session c i

either-IsSingle :
    (b : Bool) (x y : RoomClient) → IsSingle x → IsSingle y → IsSingle (if b then x else y)
either-IsSingle true x y i j = i
either-IsSingle false x y i j = j

room_client_step-IsSingle :
    (c : RoomClient) (e : RoomClientEvent) → IsSingle c → IsSingle (room_client_step c e)
unfolding room_client_step keep_alive
room_client_step-IsSingle c (updates_session s) i = record {
  closed = i.closed;
  connected = i.connected;
}
room_client_step-IsSingle c refreshes i = record { closed = i.closed; connected = i.connected }
room_client_step-IsSingle c connects i = record { closed = i.closed; connected = i.connected }
room_client_step-IsSingle c closes i = record { closed = i.closed; connected = i.connected }
room_client_step-IsSingle c (turns first h found again) i =
    let taken = record c { manual_reconnect = false } in
    let turn = health_turn h found again c.conn c in
    let manual = if c.manual_reconnect then reconnect_room found taken else turn in
    let stops = c.top_done && not (first && c.manual_reconnect) in
    either-IsSingle c.keeping (if stops then record c { keeping = false } else manual) c
      (either-IsSingle stops (record c { keeping = false }) manual
        (record { closed = i.closed; connected = i.connected })
        (either-IsSingle c.manual_reconnect (reconnect_room found taken) turn
          (reconnect_room-IsSingle found taken
            (record { closed = i.closed; connected = i.connected }))
          (health_turn-IsSingle h found again c.conn c i)))
      i
room_client_step-IsSingle c (fails_late found) i =
    either-IsSingle c.top_done c (reconnect_room found c) i (reconnect_room-IsSingle found c i)

run-IsSingle :
    (c : RoomClient) (es : List RoomClientEvent) → IsSingle c → IsSingle (room_client_run c es)
unfolding room_client_run
run-IsSingle c [] i = i
run-IsSingle c (e ∷ es) i = run-IsSingle (room_client_step c e) es (room_client_step-IsSingle c e i)

new_room_client-IsSingle : IsSingle new_room_client
unfolding new_room_client is_in
new_room_client-IsSingle = record { closed = λ n. ground arith; connected = λ e. absurd (cc) }

-- In every state that a room's client reaches: every connection that it made is closed, but the
-- current one, which may be closed too; only connections that were made are closed or current; and
-- if it says that it is connected, it has a current one.
pub room_client_run-IsSingle :
    (es : List RoomClientEvent) → IsSingle (room_client_run new_room_client es)
room_client_run-IsSingle es = run-IsSingle new_room_client es new_room_client-IsSingle
