-- ===== src/Sfu/Signal.antt =====
-- pkg/sfu/service.go and pkg/sfu/tracker.go: `SFUService` with all its streams, one `Signal` each, as
-- a step function over what the streams receive. An event names its stream; every stream has a
-- number, and a stream that has returned is gone. After a nil pointer the process has crashed.
pub mod Stable
pub mod Steps
pub mod Registered
pub mod Sessions
use dion.Prelude.{
  Bool, true, false, Option, none, some, List, [], ◌∷◌, ◌++◌, ℕ, ℕ_discrete, String,
  String-discrete, holds, ◌&&◌, if◌then◌else◌, is_some,
}
use dion.Prelude.GoMap.{GoMap, get, put, del}
use dion.Proto.{ClientNeededSession}
use dion.Sxu.Syncer.{SessionEvent, session_add, session_remove}
use dion.Sfu.Messages.{
  Description, TrackInfo, Target, publisher, subscriber, TrackEventState, track_add, track_remove,
  Reply, trickle_reply, description_reply, track_event, subscription_reply, JoinRequest, SdpType,
  SubscriptionInfo,
}
use dion.Sfu.Replies.{
  GrpcError, received, Outcome, goes_on, panics, returns, Answer, JoinAnswers, PeerResult, is_set,
  peer_after, join_replies, describe, trickle,
}
use dion.Sfu.Subscribe.{DownCall, removes, Publishing, subscribe_all}

-- The variables of one `Signal`: the name of the peer once it has a session, the tracks that were
-- broadcast, the deferred calls of `removeClient`, newest first, and the name under which the next
-- tracks are broadcast, while `once` is unused.
pub record Stream : Type 0 where
  pub peer : Option String
  pub tracks_info : List TrackInfo
  pub clients : List ClientNeededSession
  pub armed : Option String

-- `SFUService` with its streams, and what they did: the session events and their streams, what
-- `sig.Send` was given, the calls of ion-sfu, and what the calls of `Signal` returned.
pub record SfuService : Type 0 where
  pub track_session : Bool
  pub crashed : Bool
  pub streams : GoMap ℕ Stream
  pub sigs : GoMap String ℕ
  pub session_ev : List (ℕ × SessionEvent)
  pub out : List (ℕ × Reply)
  pub down_calls : List (ℕ × DownCall)
  pub returned : List (ℕ × Option GrpcError)

-- What ends the loop: the error of `Recv` or of the connection, or an empty request.
pub data Closing : Type 0 where
  eof canceled empty : Closing
  fails : String → Closing

-- What a stream meets, with the answers of ion-sfu and of the tested calls of `Send`. `settles`: the
-- published tracks 800 ms after the first one, while the stream is open and has not joined again.
-- The flags of `subscribes` are whether the peer has a publisher and a subscriber.
pub data SignalEvent : Type 0 where
  opens : SignalEvent
  joins : JoinRequest → JoinAnswers → SignalEvent
  describes : SdpType → Answer → PeerResult → Option String → SignalEvent
  trickles : Option String → PeerResult → Option String → SignalEvent
  subscribes : List Publishing → List SubscriptionInfo → Bool → Bool → SignalEvent
  other_request : SignalEvent
  candidate : String → Target → SignalEvent
  peer_offer : Description → SignalEvent
  settles : List TrackInfo → SignalEvent
  closes : Closing → SignalEvent

-- An event of a stream, with the names of the down tracks that its peer has by then.
pub record SignalInput : Type 0 where
  pub stream : ℕ
  pub event : SignalEvent
  pub downs : List String

unfoldable pub new_sfu_service : Bool → SfuService
new_sfu_service track_session = record {
  track_session = track_session;
  crashed = false;
  streams = [];
  sigs = [];
  session_ev = [];
  out = [];
  down_calls = [];
  returned = [];
}

abbrev pub new_stream : Stream
new_stream = record { peer = none; tracks_info = []; clients = []; armed = none }

-- `BroadcastTrackEvent`: to every other name.
unfoldable pub broadcast :
    String → List TrackInfo → TrackEventState → GoMap String ℕ → List (ℕ × Reply)
broadcast uid tracks state [] = []
broadcast uid tracks state ((id, sig) ∷ rest) =
    let more = broadcast uid tracks state rest in
    if holds (String-discrete id uid) then more else (sig, track_event uid tracks state) ∷ more

abbrev pub to : ℕ → List Reply → List (ℕ × Reply)
to n [] = []
to n (r ∷ rs) = (n, r) ∷ to n rs

-- `addClient` and `removeClient`
abbrev pub add_client : ℕ → ClientNeededSession → ℕ × SessionEvent
add_client n c = (n, record { session = c; state = session_add })

abbrev pub remove_client : ℕ → ClientNeededSession → ℕ × SessionEvent
remove_client n c = (n, record { session = c; state = session_remove })

unfoldable pub remove_clients : ℕ → List ClientNeededSession → List (ℕ × SessionEvent)
remove_clients n [] = []
remove_clients n (c ∷ cs) = remove_client n c ∷ remove_clients n cs

unfoldable pub has_track : String → List TrackInfo → Bool
has_track id [] = false
has_track id (t ∷ rest) = if holds (String-discrete id t.id) then true else has_track id rest

-- The down tracks that are removed at the end, those of the tracks that were broadcast. The loop
-- removes one once for each equal name in `tracks_info`; the names of a stream's tracks differ.
unfoldable pub left_down_tracks : ℕ → List TrackInfo → List String → List (ℕ × DownCall)
left_down_tracks n infos [] = []
left_down_tracks n infos (id ∷ rest) =
    let more = left_down_tracks n infos rest in
    if has_track id infos then (n, removes id) ∷ more else more

-- Nothing is broadcast where there are no tracks.
abbrev pub farewell : String → List TrackInfo → GoMap String ℕ → List (ℕ × Reply)
farewell uid [] sigs = []
farewell uid (t ∷ ts) sigs = broadcast uid (t ∷ ts) track_remove sigs

-- The deferred function at the top of `Signal`.
unfoldable pub leave : ℕ → Option String → Stream → List String → SfuService → SfuService
leave n none s downs w = w
leave n (some uid) s downs w =
    let rest = del String-discrete uid w.sigs in
    record w {
      sigs = rest;
      out = w.out ++ farewell uid s.tracks_info rest;
      down_calls = w.down_calls ++ left_down_tracks n s.tracks_info downs;
    }

-- `Signal` returns: the deferred calls, the last one first, and the stream is gone.
unfoldable pub finish : ℕ → Stream → Option GrpcError → List String → SfuService → SfuService
finish n s e downs w =
    let v = leave n s.peer s downs w in
    record v {
      streams = del ℕ_discrete n v.streams;
      session_ev = v.session_ev ++ remove_clients n s.clients;
      returned = v.returned ++ (n, e) ∷ [];
    }

-- A case of the loop is over.
unfoldable pub settle : ℕ → List String → Outcome → Stream → SfuService → SfuService
settle n downs goes_on s w = record w { streams = put ℕ_discrete n s w.streams }
settle n downs panics s w = record w { crashed = true }
settle n downs (returns e) s w = finish n s e downs w

abbrev pub send : ℕ → List Reply → SfuService → SfuService
send n replies w = record w { out = w.out ++ to n replies }

-- Whether the session of a join is tracked.
unfoldable pub is_tracked : Bool → JoinRequest → Bool
is_tracked track_session req = track_session && is_set "IsClient" req.config

unfoldable pub track_client : ℕ → JoinRequest → Stream → SfuService → Stream × SfuService
track_client n req s w =
    if is_tracked w.track_session req
    then (let c : ClientNeededSession = record { session = req.sid; user = req.uid } in
        (
          record s { clients = c ∷ s.clients },
          record w { session_ev = w.session_ev ++ add_client n c ∷ [] },
        ))
    else (s, w)

-- `s.sigs[peer.ID()] = sig`, at the end of a join.
abbrev pub register : Outcome → Option String → ℕ → SfuService → SfuService
register goes_on (some id) n w = record w { sigs = put String-discrete id n w.sigs }
register goes_on none n w = w
register panics id n w = w
register (returns e) id n w = w

unfoldable pub join : ℕ → List String → JoinRequest → JoinAnswers → Stream → SfuService → SfuService
join n downs req ans s w =
    let (t, v) = track_client n req s w in
    let id = peer_after s.peer ans.result in
    let (o, replies) = join_replies id req ans in
    settle n downs o
      (record t { peer = id; armed = if ans.publishes then some req.uid else t.armed })
      (register o id n (send n replies v))

-- The broadcast of the tracks that a stream publishes.
abbrev pub publish : ℕ → Option String → List TrackInfo → Stream → SfuService → SfuService
publish n none tracks s w = w
publish n (some uid) [] s w = record w {
  streams = put ℕ_discrete n (record s { armed = none }) w.streams;
}
publish n (some uid) (t ∷ ts) s w = record w {
  streams =
      put ℕ_discrete n (record s { tracks_info = s.tracks_info ++ t ∷ ts; armed = none }) w.streams;
  out = w.out ++ broadcast uid (t ∷ ts) track_add w.sigs;
}

-- The result of `Signal` where its loop ends.
unfoldable pub closing_error : Closing → Option GrpcError
closing_error eof = none
closing_error canceled = none
closing_error empty = none
closing_error (fails e) = some (received e)

-- The replies of a case that changes no other state, with its outcome.
abbrev pub reply : ℕ → List String → Outcome × List Reply → Stream → SfuService → SfuService
reply n downs (o, replies) s w = settle n downs o s (send n replies w)

abbrev pub down : ℕ → List DownCall → List (ℕ × DownCall)
down n [] = []
down n (c ∷ cs) = (n, c) ∷ down n cs

abbrev pub subscribed : ℕ → List DownCall × Bool → Stream → SfuService → SfuService
subscribed n (cs, true) s w =
    settle n [] panics s (record w { down_calls = w.down_calls ++ down n cs })
subscribed n (cs, false) s w =
    reply n [] (goes_on, subscription_reply true none ∷ []) s
      (record w { down_calls = w.down_calls ++ down n cs })

-- The peer that has a subscriber.
abbrev pub subscriber_of : Bool → Option String → Option String
subscriber_of true peer = peer
subscriber_of false peer = none

-- An event of a stream that is open, with the down tracks of its peer.
unfoldable pub handle : ℕ → List String → SignalEvent → Stream → SfuService → SfuService
handle n downs opens s w = w
handle n downs (joins req ans) s w = join n downs req ans s w
handle n downs (describes kind a result sent) s w = reply n downs (describe kind a result sent) s w
handle n downs (trickles parsed result sent) s w = reply n downs (trickle parsed result sent) s w
handle n downs (subscribes peers infos own has) s w =
    subscribed n (subscribe_all own (subscriber_of has s.peer) peers downs infos) s w
handle n downs other_request s w = w
handle n downs (candidate init target) s w = send n (trickle_reply init target ∷ []) w
handle n downs (peer_offer d) s w = send n (description_reply subscriber d ∷ []) w
handle n downs (settles tracks) s w = publish n s.armed tracks s w
handle n downs (closes c) s w = finish n s (closing_error c) downs w

abbrev pub open_stream : ℕ → SignalEvent → SfuService → SfuService
open_stream n opens w = record w { streams = put ℕ_discrete n new_stream w.streams }
open_stream n e w = w

abbrev pub handle_at : Option Stream → ℕ → List String → SignalEvent → SfuService → SfuService
handle_at none n downs e w = open_stream n e w
handle_at (some s) n downs e w = handle n downs e s w

unfoldable pub signal_step : SfuService → SignalInput → SfuService
signal_step w i =
    if w.crashed
    then w
    else handle_at (get ℕ_discrete i.stream w.streams) i.stream i.downs i.event w

unfoldable pub signal_run : SfuService → List SignalInput → SfuService
signal_run w [] = w
signal_run w (e ∷ es) = signal_run (signal_step w e) es
