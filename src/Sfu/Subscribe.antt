-- ===== src/Sfu/Subscribe.antt =====
-- pkg/sfu/service.go: the case of a subscription, with the tracks of the other peers and the down
-- tracks of this one as ion-sfu has them. A method of a nil down track is a nil pointer.
use dion.Prelude.{
  Bool, true, false, Option, none, some, List, [], ◌∷◌, ◌++◌, ℕ, String, String-discrete, holds,
  ◌&&◌, if◌then◌else◌,
}
use dion.Sfu.Messages.{SubscriptionInfo}

-- A published track, and whether `AddDownTrack` would succeed for it.
pub record RemoteTrack : Type 0 where
  pub track_id : String
  pub rid : String
  pub addable : Bool

-- Another peer: its name, and its published tracks if it publishes.
pub record Publishing : Type 0 where
  pub id : String
  pub published : Option (List RemoteTrack)

-- The calls of ion-sfu. `switches` is an unmute with the layer that is switched to.
pub data DownCall : Type 0 where
  adds removes : String → DownCall
  switches : String → ℕ → DownCall
  negotiates : DownCall

-- The layer of `SwitchSpatialLayer`.
unfoldable pub spatial_layer : String → Option ℕ
spatial_layer layer =
    if holds (String-discrete layer "f")
    then some 2
    else (if holds (String-discrete layer "h")
        then some 1
        else (if holds (String-discrete layer "q") then some 0 else none))

-- The calls of a loop, and whether it ended by a nil pointer.
abbrev pub Calls : Type 0
Calls = List DownCall × Bool

-- One loop after another; the second one is not reached after a nil pointer.
abbrev pub then_calls : Calls → Calls → Calls
then_calls (xs, true) (ys, b) = (xs, true)
then_calls (xs, false) (ys, b) = (xs ++ ys, b)

abbrev pub switch_layer : SubscriptionInfo → Bool → Option ℕ → Calls
switch_layer info addable none = (adds info.track_id ∷ [], false)
switch_layer info true (some n) = (adds info.track_id ∷ switches info.track_id n ∷ [], false)
switch_layer info false (some n) = (adds info.track_id ∷ [], true)

-- A track that fits: the down track is added by the router of the peer's own publisher, which is nil
-- for a peer that does not publish, and is unmuted and switched for a known layer.
unfoldable pub add_down_track : Bool → SubscriptionInfo → RemoteTrack → Calls
add_down_track true info track = switch_layer info track.addable (spatial_layer info.layer)
add_down_track false info track = ([], true)

unfoldable pub add_tracks : Bool → SubscriptionInfo → List RemoteTrack → Calls
add_tracks own info [] = ([], false)
add_tracks own info (track ∷ rest) =
    let more = add_tracks own info rest in
    if holds (String-discrete track.track_id info.track_id)
      && holds (String-discrete track.rid info.layer)
    then then_calls (add_down_track own info track) more
    else more

unfoldable pub add_from_peers : Bool → String → SubscriptionInfo → List Publishing → Calls
add_from_peers own me info [] = ([], false)
add_from_peers own me info (p ∷ rest) =
    let more = add_from_peers own me info rest in
    if holds (String-discrete p.id me) then more else elim p.published [
      | none ↦ more
      | some tracks ↦ then_calls (add_tracks own info tracks) more
    ]

unfoldable pub remove_down_tracks : SubscriptionInfo → List String → List DownCall
remove_down_tracks info [] = []
remove_down_tracks info (down ∷ rest) =
    let more = remove_down_tracks info rest in
    if holds (String-discrete down info.track_id) then removes down ∷ more else more

unfoldable pub subscribe_each :
    Bool → String → List Publishing → List String → List SubscriptionInfo → Calls
subscribe_each own me peers downs [] = ([], false)
subscribe_each own me peers downs (info ∷ rest) =
    then_calls
      (if info.subscribe
        then add_from_peers own me info peers
        else (remove_down_tracks info downs, false))
      (subscribe_each own me peers downs rest)

-- `needNegotiate` is set with every call.
abbrev pub negotiate_after : List DownCall → List DownCall
negotiate_after [] = []
negotiate_after (c ∷ cs) = (c ∷ cs) ++ negotiates ∷ []

-- The case of a subscription: `own` is whether the peer has a publisher, and `me` is the peer with a
-- subscriber, if there is one.
unfoldable pub subscribe_all :
    Bool → Option String → List Publishing → List String → List SubscriptionInfo → Calls
subscribe_all own none peers downs infos = ([], false)
subscribe_all own (some me) peers downs infos =
    let (cs, crashed) = subscribe_each own me peers downs infos in
    if crashed then (cs, true) else (negotiate_after cs, false)
