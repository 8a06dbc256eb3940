-- ===== src/Sfu/Tracked.antt =====
-- Which joins an SFU tracks: pkg/sfu/service.go with those of pkg/sfu/send.go and
-- pkg/sxu/rtc/senders.go.
use dion.Prelude.{true, false, Option, [], ◌∷◌, ◌++◌, ◌≡◌, refl, arith, ℕ, String, String-discrete}
use dion.Prelude.GoMap.{GoMap, get, get-put_self}
use dion.Sfu.Messages.{Description, JoinRequest}
use dion.Sfu.Replies.{is_set}
use dion.Sfu.Requests.{client_join, rtc_join}
use dion.Sfu.Signal.{Stream, SfuService, add_client, is_tracked, track_client}

is_set-client_join :
    (sid uid : String) (config : GoMap String String) (offer : Option Description)
    → is_set "IsClient" (client_join sid uid config offer).config ≡ true
unfolding is_set client_join String-discrete
is_set-client_join sid uid config offer =
    rw (get-put_self String-discrete "IsClient" "true" config, is_set) refl

is_set-rtc_join : (sid uid : String) → is_set "IsClient" (rtc_join sid uid).config ≡ false
unfolding is_set rtc_join get String-discrete
is_set-rtc_join sid uid = refl

track_client_added :
    (n : ℕ) (req : JoinRequest) (s : Stream) (w : SfuService)
    → is_tracked w.track_session req ≡ true
    → track_client n req s w ≡ (
      record s { clients = record { session = req.sid; user = req.uid } ∷ s.clients },
      record w {
        session_ev =
            w.session_ev ++ add_client n (record { session = req.sid; user = req.uid }) ∷ [];
      },
    )
unfolding track_client
track_client_added n req s w e = rw e refl

track_client_untouched :
    (n : ℕ) (req : JoinRequest) (s : Stream) (w : SfuService)
    → is_tracked w.track_session req ≡ false
    → track_client n req s w ≡ (s, w)
unfolding track_client
track_client_untouched n req s w e = rw e refl

-- A service that tracks sessions adds the session of every join that a client of pkg/sfu sends,
-- whatever it is configured with, and defers its removal; it does nothing for the joins of an RTC
-- object of pkg/sxu/rtc.
pub track_client_cases :
    (n : ℕ) (sid uid : String) (config : GoMap String String) (offer : Option Description)
    (s : Stream) (w : SfuService)
    → w.track_session ≡ true
    → (track_client n (client_join sid uid config offer) s w ≡ (
      record s { clients = record { session = sid; user = uid } ∷ s.clients },
      record w {
        session_ev = w.session_ev ++ add_client n (record { session = sid; user = uid }) ∷ [];
      },
    ))
      × (track_client n (rtc_join sid uid) s w ≡ (s, w))
unfolding is_tracked client_join
track_client_cases n sid uid config offer s w e = (
  track_client_added n (client_join sid uid config offer) s w
      (ground (arith, is_set-client_join sid uid config offer)),
  track_client_untouched n (rtc_join sid uid) s w (ground (arith, is_set-rtc_join sid uid)),
)
