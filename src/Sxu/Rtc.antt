-- ===== src/Sxu/Rtc.antt =====
-- pkg/sxu/rtc/tracksame.go: when a wanted list of subscriptions is asked of the remote SFU. The peer
-- connection is a parameter of `rtc_update`: its publisher's tracks, if it has one.
pub mod Layers
use dion.Prelude.{
  Bool, true, false, Option, none, some, List, [], ◌∷◌, String, String-discrete, holds,
  if◌then◌else◌,
}
use dion.Prelude.GoMap.{GoMap, get, put}
use dion.Proto.{Subscription, Layer, q, h, f}

-- `webrtc.TrackRemote`, with the two methods that are called.
pub record TrackRemote : Type 0 where
  pub id : String
  pub rid : String

-- `Subscription` of pkg/sxu/rtc, as it is sent.
pub record SubscribeInfo : Type 0 where
  pub track_id : String
  pub mute : Bool
  pub subscribe : Bool
  pub layer : String

-- What `Update` comes to: an error, nothing, or a call of `Subscribe`.
pub data UpdateOutcome : Type 0 where
  peer_not_start untouched : UpdateOutcome
  subscribes : List SubscribeInfo → UpdateOutcome

abbrev pub layers : Layer → String
layers q = "q"
layers h = "h"
layers f = "f"

unfoldable pub track_same : Subscription → TrackRemote → Bool
track_same t1 t2 =
    if holds (String-discrete t1.track_id t2.id)
    then holds (String-discrete (layers t1.layer) t2.rid)
    else false

unfoldable pub subscribe_infos : List Subscription → List SubscribeInfo
subscribe_infos [] = []
subscribe_infos (track ∷ rest) =
    (record {
      track_id = track.track_id;
      mute = track.mute;
      subscribe = true;
      layer = layers track.layer;
    })
    ∷ subscribe_infos rest

-- `temp`
unfoldable pub tracks_by_id : List TrackRemote → GoMap String TrackRemote → GoMap String TrackRemote
tracks_by_id [] m = m
tracks_by_id (t ∷ rest) m = tracks_by_id rest (put String-discrete t.id t m)

unfoldable pub all_same : GoMap String TrackRemote → List Subscription → Bool
all_same temp [] = true
all_same temp (sub ∷ rest) =
    let more = all_same temp rest in
    elim (get String-discrete sub.track_id temp) [
      | none ↦ more
      | some t ↦ if track_same sub t then more else false
    ]

unfoldable pub rtc_update : Option (List TrackRemote) → List Subscription → UpdateOutcome
rtc_update none tracks = peer_not_start
rtc_update (some published) tracks =
    if all_same (tracks_by_id published []) tracks
    then untouched
    else subscribes (subscribe_infos tracks)
