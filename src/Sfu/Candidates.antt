-- ===== src/Sfu/Candidates.antt =====
-- pkg/sfu/negotiate.go, pkg/sfu/trickle.go and the handlers of messages of pkg/sfu/subscriber.go and
-- pkg/sfu/publisher.go. The peer connection of WebRTC, `json.Unmarshal` of a candidate and
-- `String()` of an error are parameters, and what `SendAnswer` returns comes with the message.
pub mod InOrder
use dion.Prelude.{
  Bool, true, false, Option, none, some, List, [], ◌∷◌, ◌++◌, ℕ, suc, ◌≡◌, String, String-discrete,
  holds, if◌then◌else◌,
}
use dion.Sfu.Messages.{
  Description, Target, publisher, subscriber, ErrorCode, Reply, join_reply, description_reply,
  trickle_reply, track_event, subscription_reply, error_reply, unknown_reply, Request,
}
use dion.Sfu.Replies.{Answer, answered, refuses}
use dion.Sfu.Requests.{send_answer}

-- `webrtc.PeerConnection`, in a state: whether `CurrentRemoteDescription` is set, and the methods
-- that are called, with the error that they return.
pub record PeerConnection (S C : Type 0) : Type 0 where
  pub described : S → Bool
  pub set_remote : Description → S → S × Option String
  pub add_candidate : C → S → S × Option String
  pub create_answer : S → S × Answer
  pub set_local : Description → S → S × Option String

-- A candidate, and a description that is refused, leave the description that is set.
pub record Keeps {S C : Type 0} (conn : PeerConnection S C) : Type 0 where
  pub added : (c : C) (s : S) → conn.described (conn.add_candidate c s).0 ≡ conn.described s
  pub refused :
      (d : Description) (s : S) (e : String)
      → (conn.set_remote d s).1 ≡ some e
      → conn.described (conn.set_remote d s).0 ≡ conn.described s

-- What a handler of messages comes to; a nil pointer is a panic.
pub data Handled : Type 0 where
  handled panics : Handled
  fails : String → Handled

abbrev pub error_or : Option String → Handled
error_or none = handled
error_or (some e) = fails e

-- The connection with `candidates`, the calls of `AddICECandidate`, the answers that were given to
-- `SendAnswer`, and the calls of `refresh`.
pub record Handler (S C : Type 0) : Type 0 where
  pub pc : S
  pub candidates : List C
  pub added : List C
  pub sent : List Request
  pub refreshes : ℕ

unfoldable pub new_handler : {S C : Type 0} → S → Handler S C
new_handler pc = record { pc = pc; candidates = []; added = []; sent = []; refreshes = 0 }

-- The wrapper of `newMsgHandler`.
abbrev pub refreshed : {S C : Type 0} → Handler S C × Handled → Handler S C
refreshed (h, handled) = h
refreshed (h, panics) = h
refreshed (h, fails e) = record h { refreshes = suc h.refreshes }

module _ {S C : Type 0} (conn : PeerConnection S C) where
  -- The loop over the candidates that wait; the errors are ignored.
  unfoldable pub add_each : List C → S → S
  add_each [] pc = pc
  add_each (c ∷ cs) pc = add_each cs (conn.add_candidate c pc).0

  abbrev pub add_waiting : S → Handler S C → Handler S C
  add_waiting pc h = record h {
    pc = add_each h.candidates pc;
    candidates = [];
    added = h.added ++ h.candidates;
  }

  -- `trickle`, for a candidate with the target that it wants.
  abbrev pub add_or_wait : Bool → C → Handler S C → Handler S C
  add_or_wait false c h = record h { candidates = h.candidates ++ c ∷ [] }
  add_or_wait true c h = record h { pc = (conn.add_candidate c h.pc).0; added = h.added ++ c ∷ [] }

  unfoldable pub subscriber_trickle : C → Target → Handler S C → Handler S C
  subscriber_trickle c publisher h = h
  subscriber_trickle c subscriber h = add_or_wait (conn.described h.pc) c h

  unfoldable pub publisher_trickle : C → Target → Handler S C → Handler S C
  publisher_trickle c subscriber h = h
  publisher_trickle c publisher h = add_or_wait (conn.described h.pc) c h

  -- From `SetLocalDescription` on.
  abbrev pub answer_set :
      Option String → Description → S × Option String → Handler S C → Handler S C × Handled
  answer_set result answer (pc, some e) h = (record h { pc = pc }, fails e)
  answer_set result answer (pc, none) h =
      (record h { pc = pc; sent = h.sent ++ send_answer answer ∷ [] }, error_or result)

  -- From `CreateAnswer` on.
  abbrev pub answer_made : Option String → S × Answer → Handler S C → Handler S C × Handled
  answer_made result (pc, refuses e) h = (record h { pc = pc }, fails e)
  answer_made result (pc, answered d) h = answer_set result d (conn.set_local d pc) h

  abbrev pub offer_set : Option String → S × Option String → Handler S C → Handler S C × Handled
  offer_set result (pc, some e) h = (record h { pc = pc }, fails e)
  offer_set result (pc, none) h =
      let v = add_waiting pc h in answer_made result (conn.create_answer v.pc) v

  -- `Subscriber.negotiate`
  unfoldable pub subscriber_negotiate :
      Option String → Description → Handler S C → Handler S C × Handled
  subscriber_negotiate result sdp h = offer_set result (conn.set_remote sdp h.pc) h

  abbrev pub description_set : S × Option String → Handler S C → Handler S C × Handled
  description_set (pc, some e) h = (record h { pc = pc }, fails e)
  description_set (pc, none) h = (add_waiting pc h, handled)

  -- `Publisher.negotiate`
  unfoldable pub publisher_negotiate : Description → Handler S C → Handler S C × Handled
  publisher_negotiate sdp h = description_set (conn.set_remote sdp h.pc) h

  module _ (parse : String → C) (error_text : Option (ErrorCode × String) → String) where
    -- `Subscriber.msgHandler`
    unfoldable pub subscriber_handle : Reply → Option String → Handler S C → Handler S C × Handled
    subscriber_handle (join_reply true err d) result h = (h, handled)
    subscriber_handle (join_reply false err d) result h = (h, fails (error_text err))
    subscriber_handle (description_reply target d) result h =
        let offered = subscriber_negotiate result d h in
        if holds (String-discrete d.kind "offer") then offered else (h, handled)
    subscriber_handle (trickle_reply init target) result h =
        (subscriber_trickle (parse init) target h, handled)
    subscriber_handle (track_event uid tracks state) result h = (h, handled)
    subscriber_handle (subscription_reply true err) result h = (h, handled)
    subscriber_handle (subscription_reply false err) result h = (h, fails (error_text err))
    subscriber_handle (error_reply code reason) result h =
        (h, fails (error_text (some (code, reason))))
    subscriber_handle unknown_reply result h = (h, fails "Unknown RTC type!!!! ")

    -- The two tests of an answer in `Publisher.msgHandler`.
    abbrev pub take_answer : Description → Handler S C → Handler S C × Handled
    take_answer d h =
        let answered = publisher_negotiate d h in
        if holds (String-discrete d.kind "answer") then answered else (h, handled)

    -- `Publisher.msgHandler`
    unfoldable pub publisher_handle : Reply → Handler S C → Handler S C × Handled
    publisher_handle (join_reply true err none) h = (h, panics)
    publisher_handle (join_reply true err (some (target, d))) h = take_answer d h
    publisher_handle (join_reply false err d) h = (h, fails (error_text err))
    publisher_handle (description_reply target d) h = take_answer d h
    publisher_handle (trickle_reply init target) h =
        (publisher_trickle (parse init) target h, handled)
    publisher_handle (track_event uid tracks state) h = (h, handled)
    publisher_handle (subscription_reply success err) h = (h, handled)
    publisher_handle (error_reply code reason) h = (h, fails (error_text (some (code, reason))))
    publisher_handle unknown_reply h = (h, fails "Unknown RTC type!!!! ")

    -- The messages that one stream of a subscriber receives.
    unfoldable pub subscriber_run : Handler S C → List (Reply × Option String) → Handler S C
    subscriber_run h [] = h
    subscriber_run h ((r, result) ∷ rest) =
        subscriber_run (refreshed (subscriber_handle r result h)) rest

    -- The messages that one stream of a publisher receives.
    unfoldable pub publisher_run : Handler S C → List Reply → Handler S C
    publisher_run h [] = h
    publisher_run h (r ∷ rest) = publisher_run (refreshed (publisher_handle r h)) rest
