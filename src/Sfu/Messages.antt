-- ===== src/Sfu/Messages.antt =====
-- The messages of pkg/sfu/service.go and pkg/sfu/client.go. They come from proto/rtc of another
-- repository; these are the fields that the code reads and writes. An error is its text.
use dion.Prelude.{Bool, Option, List, String}
use dion.Prelude.GoMap.{GoMap}

-- `rtc.SessionDescription`, with the type as text.
pub record Description : Type 0 where
  pub sdp : String
  pub kind : String

pub record TrackInfo : Type 0 where
  pub id : String
  pub kind : String
  pub stream_id : String
  pub muted : Bool
  pub layer : String

-- `rtc.Target`
pub data Target : Type 0 where
  publisher subscriber : Target

pub data TrackEventState : Type 0 where
  track_add track_remove : TrackEventState

-- The error codes that are used; their numbers are the library's.
pub data ErrorCode : Type 0 where
  internal_error unsupported_media_type : ErrorCode

-- `rtc.Reply`: the payloads that the service sends. The first argument of the replies to a join and to a subscription is `Success`.
pub data Reply : Type 0 where
  join_reply : Bool → Option (ErrorCode × String) → Option (Target × Description) → Reply
  description_reply : Target → Description → Reply
  trickle_reply : String → Target → Reply
  track_event : String → List TrackInfo → TrackEventState → Reply
  subscription_reply : Bool → Option (ErrorCode × String) → Reply
  error_reply : ErrorCode → String → Reply
  unknown_reply : Reply

-- `rtc.JoinRequest`
pub record JoinRequest : Type 0 where
  pub sid : String
  pub uid : String
  pub config : GoMap String String
  pub description : Option Description

-- What `webrtc.NewSDPType` makes of the type of a description.
pub data SdpType : Type 0 where
  offer answer other_type : SdpType

-- `rtc.Subscription`
pub record SubscriptionInfo : Type 0 where
  pub track_id : String
  pub mute : Bool
  pub subscribe : Bool
  pub layer : String

-- `rtc.Request`, and requests with a payload of no known type.
pub data Request : Type 0 where
  join_request : JoinRequest → Request
  description_request : Target → Description → Request
  trickle_request : String → Target → Request
  subscription_request : List SubscriptionInfo → Request
  unknown_request : Request
