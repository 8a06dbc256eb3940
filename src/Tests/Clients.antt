-- ===== src/Tests/Clients.antt =====
-- Runs of util/timer.go, util/client.go, pkg/sxu/room/service.go and pkg/sxu/rtc/receivers.go.
use dion.Prelude.{
  ℕ, true, false, List, [], ◌∷◌, Option, none, some, String, ◌≡◌, ◌≢◌, ◌⊎◌, ◌<◌, ◌++◌, ◌||◌, refl,
  ℕ_discrete, String-discrete,
}
use dion.Prelude.GoMap.{get, put, del}
use dion.Proto.{ClientNeededSession}
use dion.Util.Timer.{
  handler, unset, TimerEvent, updates, expires, takes, deletes, new_expire_set_map, find, store,
  handle_update, handle_delete, timer_case, timer_step, timer_run,
}
use dion.Util.Timer.Gone.{all_deletes, time_over, all_deletes-gone}
use dion.Sxu.Room.{
  new_room_service, room_run, touches, announces, expires_session, takes_session, deletes_session,
  removals, set_step, announce, room_step,
}
use dion.Sxu.Room.Told.{
  RoomCall, health, expires_call, takes_call, deletes_call, room_events, replay, alive,
}
use dion.Sxu.Room.Alive.{room_run-alive}
use dion.Util.Client.{
  UtilClient, new_util_client, ClientEvent, sends, reads, reconnects, connects, closes, client_run,
  sfu_send,
}
use dion.Isglb.Client.{Attempt, SyncMessage, send_sfu_status}
use dion.Isglb.Client.Sending.{Ends, is_given_up, send_sfu_status-Ends, send_sfu_status-returns}
use dion.Sxu.RoomClient.{
  RoomClientEvent, updates_session, refreshes, turns, fails_late, healthy, unhealthy, late,
  new_room_client, room_client_run, room_client_step, keep_alive, reconnect_room,
}
use dion.Sxu.RoomClient.Connections.{IsSingle, room_client_run-IsSingle}
use dion.Util.Client.Contexts.{IsLinked, client_run-IsLinked, sfu_send_cases}
use dion.Util.Client.Reconnect.{
  idle, added, Reconnecting, enters, does_add, ends, Others, reconnect_step, reconnect_steps,
  call_reconnect, first_call, reconnect_verified, reconnect_verified-adds,
}
use dion.Sfu.Messages.{
  Description, subscriber, publisher, ErrorCode, description_reply, trickle_reply, join_request,
}
use dion.Sfu.Replies.{answered}
use dion.Sfu.Requests.{rtc_join}
use dion.Sxu.Receivers.{
  Received, message, rtc_run, new_rtc, rtc_trickle, rtc_negotiate, rtc_handle, on_signal_handle,
}
use dion.Sxu.Receivers.Answered.{candidates_of, answers_of, rtc_run-answered}

abbrev timer_events : List (TimerEvent ℕ ℕ)
timer_events = updates 1 2 ∷ updates 1 3 ∷ expires 1 2 ∷ takes 1 2 ∷ updates 1 2 ∷ []

all_deletes-gone_example :
    let s =
      time_over ℕ_discrete ℕ_discrete 1 3
        (timer_run ℕ_discrete ℕ_discrete (new_expire_set_map handler) timer_events) in
    find ℕ_discrete ℕ_discrete 1 3 (timer_run ℕ_discrete ℕ_discrete s (all_deletes s.delete_ch)).m
    ≡ none
all_deletes-gone_example = all_deletes-gone ℕ_discrete ℕ_discrete timer_events 1 3

-- A value that is updated after its timer has expired goes away at once, though it was updated.
lost_update :
    (timer_run ℕ_discrete ℕ_discrete
      (new_expire_set_map handler)
      (updates 1 2 ∷ expires 1 2 ∷ takes 1 2 ∷ updates 1 2 ∷ deletes ∷ [])).m
    ≡ []
unfolding timer_run timer_step timer_case handle_update handle_delete find store get put del
    ℕ_discrete new_expire_set_map
lost_update = refl

-- Without a handler the first deletion crashes.
no_handler :
    (timer_run ℕ_discrete ℕ_discrete
      (new_expire_set_map unset)
      (updates 1 2 ∷ expires 1 2 ∷ takes 1 2 ∷ deletes ∷ [])).crashed
    ≡ true
unfolding timer_run timer_step timer_case handle_update handle_delete find store get put del
    ℕ_discrete new_expire_set_map
no_handler = refl

abbrev session : ClientNeededSession
session = record { session = "s"; user = "u" }

abbrev room_calls : List RoomCall
room_calls = health session ∷ expires_call "u" "s" ∷ takes_call "u" "s" ∷ deletes_call ∷ []

room_run-alive_example :
    replay "u" "s" false (room_run new_room_service (room_events room_calls)).event_ch
    ≡ alive "u" "s" (room_run new_room_service (room_events room_calls)).set
room_run-alive_example = room_run-alive room_calls "u" "s"

-- A session that expires between the two halves of a call_reconnect is announced after its removal.
late_announcement :
    let r = room_run new_room_service (
      touches session
      ∷ expires_session "u" "s"
      ∷ takes_session "u" "s"
      ∷ deletes_session
      ∷ announces session
      ∷ []) in
    (replay "u" "s" false r.event_ch ≡ true) × (alive "u" "s" r.set ≡ false)
unfolding room_run room_step set_step announce removals new_room_service replay timer_step
    timer_case handle_update handle_delete find store get put del String-discrete new_expire_set_map
late_announcement = (refl, refl)

abbrev client_events : List (ClientEvent String String)
client_events =
    connects
    ∷ reads true none
    ∷ sends true "a" none
    ∷ reads false (some "b")
    ∷ sends false "c" (some "lost")
    ∷ reads true none
    ∷ closes
    ∷ []

client_run-IsLinked_example : IsLinked (client_run new_util_client client_events)
client_run-IsLinked_example = client_run-IsLinked client_events

abbrev client : UtilClient String String
client = client_run new_util_client (reconnects true ∷ [])

sfu_send_cases_example :
    (((sfu_send true "a" none client).1 ≡ none)
      × ((n : ℕ) × (client.stream ≡ some n)
          × ((sfu_send true "a" none client).0.sent ≡ client.sent ++ (n, "a") ∷ [])))
    ⊎ (((sfu_send true "a" none client).1 ≢ none)
        × ((sfu_send true "a" none client).0.sent ≡ client.sent))
sfu_send_cases_example = sfu_send_cases true "a" none client

-- A body has added to the counter before `Reconnect` is called, which waits for it and calls again;
-- the counter wraps around.
abbrev reconnecting : Reconnecting
reconnecting = record { phase = added; times = 4294967295; adds = 4294967295 }

abbrev others : Others
others = record {
  before_first = [];
  first = ends ∷ [];
  before_second = enters ∷ [];
  second = does_add ∷ ends ∷ [];
}

first_idle : (first_call others reconnecting).phase ≡ idle
unfolding first_call call_reconnect reconnect_steps reconnect_step
first_idle = refl

second_idle :
    (call_reconnect others.second
      (reconnect_steps (first_call others reconnecting) others.before_second)).phase
    ≡ idle
unfolding first_call call_reconnect reconnect_steps reconnect_step
second_idle = refl

reconnect_verified-adds_example : reconnecting.adds < (reconnect_verified others reconnecting).adds
reconnect_verified-adds_example = reconnect_verified-adds others reconnecting first_idle second_idle

abbrev parse : String → String
parse init = init

abbrev error_text : Option (ErrorCode × String) → String
error_text none = "<nil>"
error_text (some (code, reason)) = reason

abbrev offer : Description
offer = record { sdp = "v=0"; kind = "offer" }

abbrev answer : Description
answer = record { sdp = "v=1"; kind = "answer" }

abbrev received : List Received
received =
    message (description_reply subscriber offer) (answered answer) none
    ∷ message (trickle_reply "c1" subscriber) (answered answer) none
    ∷ message (trickle_reply "c2" publisher) (answered answer) none
    ∷ []

received_runs : (rtc_run parse error_text "s" "u" none none received).returned ≡ none
unfolding rtc_run on_signal_handle rtc_handle rtc_negotiate rtc_trickle new_rtc String-discrete
received_runs = refl

rtc_run-answered_example :
    ((rtc_run parse error_text "s" "u" none none received).added ≡ candidates_of parse received)
    × ((rtc_run parse error_text "s" "u" none none received).sent
        ≡ join_request (rtc_join "s" "u") ∷ answers_of received)
    × ((rtc_run parse error_text "s" "u" none none received).closed ≡ false)
rtc_run-answered_example =
    rtc_run-answered parse error_text "s" "u" none none received received_runs

abbrev good : Attempt
good = record { closed = false; superseded = false; made = true; result = none }

abbrev failing : Attempt
failing = record { closed = false; superseded = false; made = false; result = some "lost" }

abbrev sync_client : UtilClient (SyncMessage String ℕ) String
sync_client = new_util_client

send_sfu_status-Ends_example :
    Ends "status"
      (sync_client.top_done || is_given_up (failing ∷ good ∷ good ∷ []))
      sync_client
      (send_sfu_status "status" (failing ∷ good ∷ good ∷ []) sync_client)
send_sfu_status-Ends_example =
    send_sfu_status-Ends "status" (failing ∷ good ∷ good ∷ []) sync_client

send_sfu_status-returns_example :
    (send_sfu_status "status" ((failing ∷ []) ++ good ∷ good ∷ failing ∷ []) sync_client).1 ≡ true
send_sfu_status-returns_example =
    send_sfu_status-returns "status" (failing ∷ []) good good (failing ∷ []) sync_client
      (refl, refl) (refl, refl)

abbrev room_client_events : List RoomClientEvent
room_client_events =
    updates_session session
    ∷ RoomClientEvent.connects
    ∷ turns false healthy true false
    ∷ turns false unhealthy false true
    ∷ turns false late true true
    ∷ fails_late true
    ∷ refreshes
    ∷ turns false healthy true true
    ∷ refreshes
    ∷ RoomClientEvent.closes
    ∷ turns true healthy true true
    ∷ turns false healthy true true
    ∷ []

room_client_run-IsSingle_example : IsSingle (room_client_run new_room_client room_client_events)
room_client_run-IsSingle_example = room_client_run-IsSingle room_client_events

-- The first turn makes a connection, closes it when the time is over, and makes another one.
first_turn :
    let c =
      room_client_run new_room_client
        (RoomClientEvent.connects ∷ turns false healthy true true ∷ []) in
    (c.closed ≡ 0 ∷ []) × (c.conn ≡ some 1)
unfolding room_client_run room_client_step keep_alive new_room_client reconnect_room
first_turn = (refl, refl)
