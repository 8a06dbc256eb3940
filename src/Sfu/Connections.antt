-- ===== src/Sfu/Connections.antt =====
-- pkg/sfu/subscriber.go and pkg/sfu/publisher.go: what `NewSubscriber` and `NewPublisher` do when the
-- client has reconnected, with the peer connection that they keep for the next time. Connections are
-- numbered as they are made; WebRTC's answers come with the events.
pub mod Tidy
pub mod Closed
use dion.Prelude.{
  Bool, true, false, Option, none, some, List, [], ◌∷◌, ◌++◌, ℕ, suc, String, if◌then◌else◌,
}
use dion.Prelude.GoMap.{GoMap}
use dion.Proto.{ClientNeededSession}
use dion.Sfu.Messages.{Description, Request}
use dion.Sfu.Replies.{Answer, answered, refuses}
use dion.Sfu.Requests.{send_join}

-- The calls: of a connection, of `refresh`, and the join that is given to `Send`. `takes_tracks` is
-- `NeedTrack`, and `installs` is the handler of messages of a connection.
pub data LinkCall : Type 0 where
  closes installs takes_tracks describes : ℕ → LinkCall
  refreshes : LinkCall
  sends : Request → LinkCall

-- The session that is wanted, `lastPeerConnection`, the number of the next connection, and the
-- calls. A join without a session is a nil pointer.
pub record Link : Type 0 where
  pub session : Option ClientNeededSession
  pub last : Option ℕ
  pub next : ℕ
  pub calls : List LinkCall
  pub crashed : Bool

unfoldable pub new_link : Link
new_link = record { session = none; last = none; next = 0; calls = []; crashed = false }

abbrev pub switch_session : ClientNeededSession → Link → Link
switch_session session l = record l { session = some session }

abbrev pub close_last : Option ℕ → List LinkCall → List LinkCall
close_last none calls = calls
close_last (some n) calls = calls ++ closes n ∷ []

-- The callback of `NewSubscriber`: whether there is a new connection.
unfoldable pub subscriber_reconnected : Bool → Link → Link
subscriber_reconnected false l = record l { calls = close_last l.last l.calls ++ refreshes ∷ [] }
subscriber_reconnected true l = record l {
  last = some l.next;
  next = suc l.next;
  calls = close_last l.last l.calls ++ installs l.next ∷ [];
}

abbrev pub refresh_on : Option String → List LinkCall
refresh_on none = []
refresh_on (some e) = refreshes ∷ []

abbrev pub join_request_of :
    ClientNeededSession → GoMap String String → Option Description → Request
join_request_of s config offer = send_join s.session s.user config offer

abbrev pub join_session :
    GoMap String String
    → Option Description
    → Option String
    → Option ClientNeededSession
    → Link
    → Link
join_session config offer result none l = record l { crashed = true }
join_session config offer result (some s) l = record l {
  calls = l.calls ++ sends (join_request_of s config offer) ∷ refresh_on result;
}

-- The goroutine of `NewSubscriber`, with the error of `SendJoin`.
unfoldable pub subscriber_joins : Option String → Link → Link
subscriber_joins result l = join_session (("NoPublish", "true") ∷ []) none result l.session l

-- The callback of `NewPublisher`: whether there is a new connection, and whether it takes the
-- tracks. Where it does not, it is not kept.
unfoldable pub publisher_reconnected : Bool → Bool → Link → Link
publisher_reconnected false takes l = record l {
  calls = close_last l.last l.calls ++ refreshes ∷ [];
}
publisher_reconnected true false l = record l {
  next = suc l.next;
  calls = close_last l.last l.calls ++ installs l.next ∷ takes_tracks l.next ∷ refreshes ∷ [];
}
publisher_reconnected true true l = record l {
  last = some l.next;
  next = suc l.next;
  calls = close_last l.last l.calls ++ installs l.next ∷ takes_tracks l.next ∷ [];
}

-- The goroutine of `NewPublisher` for a connection: the offer, the error of `SetLocalDescription`,
-- and that of `SendJoin`.
unfoldable pub publisher_joins : ℕ → Answer → Option String → Option String → Link → Link
publisher_joins n (refuses e) described result l = record l { calls = l.calls ++ refreshes ∷ [] }
publisher_joins n (answered offer) (some e) result l = record l {
  calls = l.calls ++ describes n ∷ refreshes ∷ [];
}
publisher_joins n (answered offer) none result l =
    join_session (("NoSubscribe", "true") ∷ []) (some offer) result l.session
      (record l { calls = l.calls ++ describes n ∷ [] })

-- What a subscriber meets; `SwitchSession` and `Switch` also make the client reconnect.
pub data SubscriberEvent : Type 0 where
  switches : ClientNeededSession → SubscriberEvent
  reconnects : Bool → SubscriberEvent
  joins : Option String → SubscriberEvent

pub data PublisherEvent : Type 0 where
  switches : ClientNeededSession → PublisherEvent
  reconnects : Bool → Bool → PublisherEvent
  joins : ℕ → Answer → Option String → Option String → PublisherEvent

unfoldable pub subscriber_step : Link → SubscriberEvent → Link
subscriber_step l (switches s) = switch_session s l
subscriber_step l (reconnects made) = subscriber_reconnected made l
subscriber_step l (joins result) = subscriber_joins result l

unfoldable pub publisher_step : Link → PublisherEvent → Link
publisher_step l (switches s) = switch_session s l
publisher_step l (reconnects made takes) = publisher_reconnected made takes l
publisher_step l (joins n offer described result) = publisher_joins n offer described result l

unfoldable pub subscriber_links : Link → List SubscriberEvent → Link
subscriber_links l [] = l
subscriber_links l (e ∷ es) = subscriber_links (subscriber_step l e) es

unfoldable pub publisher_links : Link → List PublisherEvent → Link
publisher_links l [] = l
publisher_links l (e ∷ es) = publisher_links (publisher_step l e) es
