-- ===== src/Sfu/Requests.antt =====
-- pkg/sfu/send.go, and the requests of pkg/sxu/rtc/senders.go: what is sent, before the stream takes
-- it. `json.Marshal` of a candidate is an argument: its text, or an error.
use Prim.Native.String.{◌++◌ as ◌++s◌}
use dion.Prelude.{true, false, Option, none, some, List, [], ◌∷◌, String, String-discrete}
use dion.Prelude.GoMap.{GoMap, put}
use dion.Sxu.Rtc.{SubscribeInfo}
use dion.Sfu.Messages.{
  Description, Target, publisher, subscriber, ErrorCode, internal_error, Reply, join_reply,
  description_reply, trickle_reply, error_reply, JoinRequest, SubscriptionInfo, Request,
  join_request, description_request, trickle_request, subscription_request,
}

-- What `json.Marshal` gives.
pub data Marshalled : Type 0 where
  text fails : String → Marshalled

-- The description of an offer in a join.
abbrev pub join_description : Option Description → Option Description
join_description none = none
join_description (some offer) = some (record { sdp = offer.sdp; kind = "offer" })

unfoldable pub client_join :
    String → String → GoMap String String → Option Description → JoinRequest
client_join sid uid config offer = record {
  sid = sid;
  uid = uid;
  config = put String-discrete "IsClient" "true" config;
  description = join_description offer;
}

-- `Client.SendJoin`
abbrev pub send_join : String → String → GoMap String String → Option Description → Request
send_join sid uid config offer = join_request (client_join sid uid config offer)

-- `Client.SendTrickle`, by which `Subscriber` and `Publisher` send under their own target. A
-- candidate that has no text is not sent.
unfoldable pub send_trickle : Marshalled → Target → Option Request
send_trickle (text init) target = some (trickle_request init target)
send_trickle (fails e) target = none

-- `Subscriber.SendAnswer`
unfoldable pub send_answer : Description → Request
send_answer d = description_request subscriber (record { sdp = d.sdp; kind = "answer" })

-- `Signaller.SendJoinError`
unfoldable pub send_join_error : ErrorCode × String → Reply
send_join_error err = join_reply false (some err) none

-- `Signaller.SendJoinSuccess`
unfoldable pub send_join_success : Description → Reply
send_join_success d = join_reply true none (some (publisher, d))

-- `Signaller.SendError`
unfoldable pub send_error : ErrorCode → String → Reply
send_error code reason = error_reply code reason

-- `Signaller.SendTrickle`: an error takes the place of a candidate that has no text.
unfoldable pub reply_trickle : Marshalled → Target → Reply
reply_trickle (text init) target = trickle_reply init target
reply_trickle (fails e) target =
    send_error internal_error ("unmarshal ice candidate error:  " ++s e)

-- `Signaller.SendOffer`
unfoldable pub send_offer : Description → Reply
send_offer d = description_reply subscriber d

-- `RTC.SendJoin` of pkg/sxu/rtc/senders.go
unfoldable pub rtc_join : String → String → JoinRequest
rtc_join sid uid = record {
  sid = sid;
  uid = uid;
  config = ("NoPublish", "true") ∷ ("NoSubscribe", "false") ∷ ("NoAutoSubscribe", "false") ∷ [];
  description = none;
}

unfoldable pub subscriptions : List SubscribeInfo → List SubscriptionInfo
subscriptions [] = []
subscriptions (t ∷ rest) =
    record { track_id = t.track_id; mute = t.mute; subscribe = t.subscribe; layer = t.layer }
    ∷ subscriptions rest

-- `RTC.Subscribe`: nothing is sent for no tracks.
unfoldable pub rtc_subscribe : List SubscribeInfo → Option Request
rtc_subscribe [] = none
rtc_subscribe (t ∷ rest) = some (subscription_request (subscriptions (t ∷ rest)))
