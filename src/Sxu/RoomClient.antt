-- ===== src/Sxu/RoomClient.antt =====
-- pkg/sxu/room/client.go: `Client` of a room, with the connections that its factory makes, numbered
-- as they are made. A turn of `keepAlive` is one step, with what it meets.
pub mod Connections
use dion.Prelude.{
  Bool, true, false, Option, none, some, List, [], ◌∷◌, ◌++◌, ℕ, suc, if◌then◌else◌, ◌&&◌, not,
}
use dion.Proto.{ClientNeededSession}

-- `manual_reconnect` is whether the channel is full, `keeping` whether `keepAlive` runs; `closed` and
-- `healths` are the calls of `Close` and of `ClientHealth`.
pub record RoomClient : Type 0 where
  pub top_done : Bool
  pub session : Option ClientNeededSession
  pub connected : Bool
  pub keeping : Bool
  pub manual_reconnect : Bool
  pub conn : Option ℕ
  pub next : ℕ
  pub closed : List ℕ
  pub healths : List (ℕ × ClientNeededSession)

unfoldable pub new_room_client : RoomClient
new_room_client = record {
  top_done = false;
  session = none;
  connected = false;
  keeping = false;
  manual_reconnect = false;
  conn = none;
  next = 0;
  closed = [];
  healths = [];
}

-- What becomes of a call of `ClientHealth` in time: it is answered with `Ok`, or with an error or
-- without `Ok`, or it is not answered.
pub data Health : Type 0 where
  healthy unhealthy late : Health

abbrev pub close_conn : Option ℕ → List ℕ → List ℕ
close_conn none closed = closed
close_conn (some n) closed = closed ++ n ∷ []

-- What `reconnect` executes: whether the factory gives a connection. Else the old one, which is
-- closed, stays.
unfoldable pub reconnect_room : Bool → RoomClient → RoomClient
reconnect_room false c = record c { closed = close_conn c.conn c.closed }
reconnect_room true c = record c {
  closed = close_conn c.conn c.closed;
  conn = some c.next;
  next = suc c.next;
  keeping = true;
  connected = true;
}

-- The goroutine of a turn with a connection, and the wait for it. `found` is for the reconnect after
-- a failed call, and `again` for the one after the time is over.
abbrev pub health_call :
    Health → Bool → Bool → ℕ → Option ClientNeededSession → RoomClient → RoomClient
health_call h found again n none c = c
health_call healthy found again n (some s) c = record c { healths = c.healths ++ (n, s) ∷ [] }
health_call unhealthy found again n (some s) c =
    reconnect_room found (record c { healths = c.healths ++ (n, s) ∷ [] })
health_call late found again n (some s) c =
    reconnect_room again (record c { healths = c.healths ++ (n, s) ∷ [] })

-- Without a connection the operation is not called, nor its `cancel`: the turn waits until its time
-- is over, and reconnects again.
abbrev pub health_turn : Health → Bool → Bool → Option ℕ → RoomClient → RoomClient
health_turn h found again none c = reconnect_room again (reconnect_room found c)
health_turn h found again (some n) c = health_call h found again n c.session c

-- One turn of `keepAlive`, if it runs. Where a closed client also wants to reconnect, Go takes either
-- case: `manual_first` says which.
unfoldable pub keep_alive : Bool → Health → Bool → Bool → RoomClient → RoomClient
keep_alive manual_first h found again c =
    if c.keeping
    then (if c.top_done && not (manual_first && c.manual_reconnect)
        then record c { keeping = false }
        else (if c.manual_reconnect
            then reconnect_room found (record c { manual_reconnect = false })
            else health_turn h found again c.conn c))
    else c

-- `fails_late`: a call that was not answered in time fails.
pub data RoomClientEvent : Type 0 where
  updates_session : ClientNeededSession → RoomClientEvent
  refreshes connects closes : RoomClientEvent
  turns : Bool → Health → Bool → Bool → RoomClientEvent
  fails_late : Bool → RoomClientEvent

abbrev pub fail_late : Bool → RoomClient → RoomClient
fail_late found c = if c.top_done then c else reconnect_room found c

unfoldable pub room_client_step : RoomClient → RoomClientEvent → RoomClient
room_client_step c (updates_session s) = record c { session = some s }
room_client_step c refreshes = record c { manual_reconnect = true }
room_client_step c connects = record c { keeping = true }
room_client_step c closes = record c { top_done = true }
room_client_step c (turns manual_first h found again) = keep_alive manual_first h found again c
room_client_step c (fails_late found) = fail_late found c

unfoldable pub room_client_run : RoomClient → List RoomClientEvent → RoomClient
room_client_run c [] = c
room_client_run c (e ∷ es) = room_client_run (room_client_step c e) es
