-- ===== src/Tests/Signals.antt =====
-- Runs of pkg/sfu: a service with two streams, and the two kinds of clients.
use dion.Prelude.{
  ℕ, true, false, Bool, List, [], ◌∷◌, Option, none, some, String, ◌≡◌, refl, ℕ_discrete,
  String-discrete, ◌++◌, holds,
}
use dion.Prelude.GoMap.{GoMap, get, put, del}
use dion.Proto.{ClientNeededSession}
use dion.Sfu.Messages.{
  Description, TrackInfo, publisher, subscriber, ErrorCode, Reply, join_reply, description_reply,
  trickle_reply,
}
use dion.Sfu.Replies.{
  answered, joined, JoinAnswers, is_set, join_replies, welcome, answer_join, existing_tracks,
  peer_after,
}
use dion.Sfu.Requests.{client_join, rtc_join}
use dion.Sfu.Signal.{
  SfuService, SignalInput, SignalEvent, opens, joins, settles, closes, eof, new_sfu_service,
  new_stream, broadcast, add_client, remove_clients, has_track, left_down_tracks, leave, finish,
  settle, is_tracked, track_client, join, handle, signal_step, signal_run,
}
use dion.Sfu.Signal.Registered.{name_of, signal_run-IsRegistered}
use dion.Sfu.Signal.Sessions.{Held, clients_of, signal_run-Held}
use dion.Sfu.Tracked.{track_client_cases}
use dion.Sfu.Candidates.{PeerConnection, Keeps, new_handler, subscriber_run, publisher_run}
use dion.Sfu.Candidates.InOrder.{
  IsInOrder, candidates_for, replies, subscriber_run-IsInOrder, publisher_run-IsInOrder,
}
use dion.Sxu.Peer.{
  PeerEvent, candidate, offers, new_bridge_peer, peer_run, peer_step, on_ice_candidate, on_offer,
  add_until_broken,
}
use dion.Sfu.Connections.{
  SubscriberEvent, PublisherEvent, new_link, subscriber_links, publisher_links, publisher_step,
}
use dion.Sfu.Connections.Tidy.{is_closed}
use dion.Sfu.Connections.Closed.{Tidy, subscriber_links-Tidy, publisher_links_cases}

abbrev description : Description
description = record { sdp = "v=0"; kind = "offer" }

abbrev answer_description : Description
answer_description = record { sdp = "v=0"; kind = "answer" }

abbrev track : TrackInfo
track = record { id = "video"; kind = "video"; stream_id = "cam"; muted = false; layer = "f" }

abbrev join_answers : String → JoinAnswers
join_answers id = record {
  result = joined id;
  error_sent = none;
  publishes = true;
  answer = answered answer_description;
  peers = [];
}

abbrev input : ℕ → SignalEvent → SignalInput
input n e = record { stream = n; event = e; downs = [] }

abbrev join_as : String → SignalEvent
join_as uid = joins (client_join "s" uid [] (some description)) (join_answers uid)

abbrev inputs : List SignalInput
inputs =
    input 0 opens
    ∷ input 0 (join_as "a")
    ∷ input 1 opens
    ∷ input 1 (join_as "b")
    ∷ input 0 (settles (track ∷ []))
    ∷ input 1 (closes eof)
    ∷ []

abbrev final : SfuService
final = signal_run (new_sfu_service true) inputs

final_runs : final.crashed ≡ false
unfolding new_sfu_service broadcast remove_clients has_track left_down_tracks leave finish settle
    is_tracked track_client join handle signal_step signal_run get put del is_set join_replies
    welcome answer_join existing_tracks peer_after client_join String-discrete ℕ_discrete
final_runs = refl

final_sigs : get String-discrete "a" final.sigs ≡ some 0
unfolding new_sfu_service broadcast remove_clients has_track left_down_tracks leave finish settle
    is_tracked track_client join handle signal_step signal_run get put del is_set join_replies
    welcome answer_join existing_tracks peer_after client_join String-discrete ℕ_discrete
final_sigs = refl

signal_run-IsRegistered_example : name_of 0 final.streams ≡ some "a"
signal_run-IsRegistered_example = signal_run-IsRegistered true inputs "a" 0 final_runs final_sigs

signal_run-Held_example : Held 1 final.session_ev (clients_of 1 final.streams)
signal_run-Held_example = signal_run-Held true inputs 1 final_runs

-- The name of a second stream of the same user is deleted by the first one, when that ends.
twice_sigs :
    (signal_run (new_sfu_service true) (
      input 0 opens
      ∷ input 0 (join_as "a")
      ∷ input 1 opens
      ∷ input 1 (join_as "a")
      ∷ input 0 (closes eof)
      ∷ [])).sigs
    ≡ []
unfolding new_sfu_service broadcast remove_clients has_track left_down_tracks leave finish settle
    is_tracked track_client join handle signal_step signal_run get put del is_set join_replies
    welcome answer_join existing_tracks peer_after client_join String-discrete ℕ_discrete
twice_sigs = refl

abbrev config : GoMap String String
config = ("NoPublish", "true") ∷ []

abbrev service : SfuService
service = new_sfu_service true

service_tracks : service.track_session ≡ true
unfolding new_sfu_service
service_tracks = refl

track_client_cases_example :
    (track_client 0 (client_join "s" "u" config none) new_stream service ≡ (
      record new_stream { clients = record { session = "s"; user = "u" } ∷ [] },
      record service {
        session_ev = service.session_ev ++ add_client 0 (record { session = "s"; user = "u" }) ∷ [];
      },
    ))
    × (track_client 0 (rtc_join "s" "u") new_stream service ≡ (new_stream, service))
track_client_cases_example =
    track_client_cases 0 "s" "u" config none new_stream service service_tracks

abbrev take_description : Bool → Bool → Bool × Option String
take_description true s = (s, some "empty")
take_description false s = (true, none)

-- A connection whose state is whether a description is set; an empty one is refused.
abbrev connection : PeerConnection Bool String
connection = record {
  described = λ s. s;
  set_remote = λ d s. take_description (holds (String-discrete d.sdp "")) s;
  add_candidate = λ c s. (s, none);
  create_answer = λ s. (s, answered answer_description);
  set_local = λ d s. (s, none);
}

take_description_refused :
    (b s : Bool) (e : String) → (take_description b s).1 ≡ some e → (take_description b s).0 ≡ s
take_description_refused true s e q = refl
take_description_refused false s e q = absurd (cc)

connection-Keeps : Keeps connection
connection-Keeps = record {
  added = λ c s. refl;
  refused = λ d s e q. take_description_refused (holds (String-discrete d.sdp "")) s e q;
}

abbrev error_text : Option (ErrorCode × String) → String
error_text none = "<nil>"
error_text (some (code, reason)) = reason

abbrev messages : List (Reply × Option String)
messages =
    (trickle_reply "c1" subscriber, none)
    ∷ (trickle_reply "c2" publisher, none)
    ∷ (description_reply subscriber description, none)
    ∷ (trickle_reply "c3" subscriber, none)
    ∷ []

abbrev parse : String → String
parse init = init

subscriber_run-IsInOrder_example :
    IsInOrder connection connection-Keeps
      (subscriber_run connection parse error_text (new_handler false) messages)
      (candidates_for parse subscriber (replies messages))
subscriber_run-IsInOrder_example =
    subscriber_run-IsInOrder connection connection-Keeps parse error_text false messages

abbrev answers : List Reply
answers =
    trickle_reply "c1" publisher
    ∷ join_reply true none (some (publisher, answer_description))
    ∷ trickle_reply "c2" publisher
    ∷ []

publisher_run-IsInOrder_example :
    IsInOrder connection connection-Keeps
      (publisher_run connection parse error_text (new_handler false) answers)
      (candidates_for parse publisher answers)
publisher_run-IsInOrder_example =
    publisher_run-IsInOrder connection connection-Keeps parse error_text false answers

abbrev session : ClientNeededSession
session = record { session = "s"; user = "u" }

abbrev subscriber_events : List SubscriberEvent
subscriber_events =
    SubscriberEvent.switches session
    ∷ SubscriberEvent.reconnects true
    ∷ SubscriberEvent.joins none
    ∷ SubscriberEvent.reconnects false
    ∷ SubscriberEvent.reconnects true
    ∷ []

subscriber_links-Tidy_example : Tidy (subscriber_links new_link subscriber_events)
subscriber_links-Tidy_example = subscriber_links-Tidy subscriber_events

abbrev publisher_events : List PublisherEvent
publisher_events =
    PublisherEvent.switches session
    ∷ PublisherEvent.reconnects true true
    ∷ PublisherEvent.joins 0 (answered description) none none
    ∷ []

publisher_links_cases_example :
    Tidy (publisher_links new_link publisher_events)
    × (is_closed
          (publisher_links new_link publisher_events).next
          (publisher_links
            (publisher_step
              (publisher_links new_link publisher_events)
              (PublisherEvent.reconnects true false))
            publisher_events).calls
        ≡ false)
publisher_links_cases_example =
    publisher_links_cases publisher_events publisher_events (tt, (refl, (tt, tt)))

abbrev peer_events : List (PeerEvent String)
peer_events =
    candidate "c1" subscriber
    ∷ candidate "c2" publisher
    ∷ offers description none
    ∷ candidate "c3" subscriber
    ∷ []

-- What the run hands over: the candidate that waited for the offer, and the one after it.
peer_events_run :
    ((peer_run connection (new_bridge_peer false) peer_events).broken ≡ false)
    × ((peer_run connection (new_bridge_peer false) peer_events).added ≡ "c1" ∷ "c3" ∷ [])
unfolding peer_run peer_step on_ice_candidate on_offer add_until_broken new_bridge_peer
    String-discrete
peer_events_run = (refl, refl)
