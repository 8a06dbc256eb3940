-- ===== src/Sxu/Rtc/Layers.antt =====
-- When pkg/sxu/rtc/tracksame.go subscribes anew.
use dion.Prelude.{
  true, false, Option, none, some, List, [], ◌∷◌, ◌≡◌, ◌≢◌, ◌⊎◌, inl, inr, refl, sym, arith, String,
  String-discrete, holds, if◌then◌else◌, Option-cases, All,
}
use dion.Prelude.GoMap.{GoMap, get, put, get-put}
use dion.Proto.{Subscription}
use dion.Sxu.Rtc.{
  TrackRemote, peer_not_start, untouched, subscribes, layers, track_same, subscribe_infos,
  tracks_by_id, all_same, rtc_update,
}

-- The last published track with an identifier.
unfoldable pub last_track : String → List TrackRemote → Option TrackRemote
last_track k [] = none
last_track k (t ∷ rest) = elim (last_track k rest) [
  | some u ↦ some u
  | none ↦ if holds (String-discrete t.id k) then some t else none
]

-- The subscription is for a track that is published, in another layer than the published one.
abbrev pub Differs : List TrackRemote → Subscription → Type 0
Differs published sub =
    (t : TrackRemote) × (last_track sub.track_id published ≡ some t) × (t.rid ≢ layers sub.layer)

-- The track is not published, or in the layer of the subscription.
abbrev pub Fits : List TrackRemote → Subscription → Type 0
Fits published sub =
    (t : TrackRemote) → last_track sub.track_id published ≡ some t → t.rid ≡ layers sub.layer

abbrev either : Option TrackRemote → Option TrackRemote → Option TrackRemote
either none o = o
either (some t) o = some t

get-tracks_by_id :
    (k : String) (list : List TrackRemote) (m : GoMap String TrackRemote)
    → get String-discrete k (tracks_by_id list m)
      ≡ either (last_track k list) (get String-discrete k m)
unfolding tracks_by_id last_track
get-tracks_by_id k [] m = refl
get-tracks_by_id k (t ∷ rest) m = ground (
  arith,
  get-tracks_by_id k rest (put String-discrete t.id t m),
  get-put String-discrete k t.id t m,
)

last_track-id :
    (k : String) (list : List TrackRemote) (t : TrackRemote) → last_track k list ≡ some t → t.id ≡ k
unfolding last_track
last_track-id k [] t h = cc
last_track-id k (u ∷ rest) t h = ground (arith, last_track-id k rest t)

found :
    (k : String) (published : List TrackRemote)
    → get String-discrete k (tracks_by_id published []) ≡ last_track k published
unfolding get
found k published = ground (arith, get-tracks_by_id k published [])

all_same_cases :
    (published : List TrackRemote) (subs : List Subscription)
    → ((all_same (tracks_by_id published []) subs ≡ true) × All (Fits published) subs)
      ⊎ ((all_same (tracks_by_id published []) subs ≡ false)
          × ((sub : Subscription) × Differs published sub))
unfolding all_same track_same
all_same_cases published [] = inl (refl, tt)
all_same_cases published (sub ∷ rest) = elim (all_same_cases published rest) [
  | inr (e, w) ↦ inr (ground (arith, e), w)
  | inl (e, all) ↦ elim (Option-cases (last_track sub.track_id published)) [
    | inl g ↦ inl (ground (arith, e, g, found sub.track_id published), (λ t p. ground arith, all))
    | inr (t, g) ↦ elim (String-discrete (layers sub.layer) t.rid) [
      | yes p ↦ inl (
        ground (
          arith,
          e,
          g,
          found sub.track_id published,
          last_track-id sub.track_id published t g,
          p,
        ),
        (λ u r. ground arith, all),
      )
      | no n ↦
          inr (ground (arith, e, g, found sub.track_id published, n), (sub, (t, g, λ r. n (sym r))))
    ]
  ]
]

-- Without a publisher `Update` is an error. With one it does nothing if each wanted subscription is
-- for a track that is not published or is published in the wanted layer, and it subscribes to the
-- list if there is one for a track that is published in another layer.
pub rtc_update_cases :
    (publisher : Option (List TrackRemote)) (subs : List Subscription)
    → ((publisher ≡ none) × (rtc_update publisher subs ≡ peer_not_start))
      ⊎ ((published : List TrackRemote) × (publisher ≡ some published)
          × (((rtc_update publisher subs ≡ untouched) × All (Fits published) subs)
              ⊎ ((rtc_update publisher subs ≡ subscribes (subscribe_infos subs))
                  × ((sub : Subscription) × Differs published sub))))
unfolding rtc_update
rtc_update_cases none subs = inl (refl, refl)
rtc_update_cases (some published) subs = elim (all_same_cases published subs) [
  | inl (e, all) ↦ inr (published, refl, inl (rw e refl, all))
  | inr (e, w) ↦ inr (published, refl, inr (rw e refl, w))
]
