-- ===== src/Sfu/Signal/Steps.antt =====
-- What every event does to the streams, the names and the session events of `SFUService`
-- (pkg/sfu/service.go): a property of these three that a few changes keep holds in every state.
use dion.Prelude.{
  Bool, true, false, Option, none, some, List, [], ◌∷◌, ◌++◌, ◌≡◌, refl, subst, arith, ℕ,
  ℕ_discrete, String, if◌then◌else◌, Bool-cases, Option-cases, inl, inr,
}
use dion.Prelude.GoMap.{get, put, del}
use dion.Sfu.Messages.{JoinRequest, TrackInfo}
use dion.Sfu.Replies.{
  GrpcError, Outcome, goes_on, panics, returns, JoinAnswers, JoinResult, joined, refused_known,
  refused, peer_after, join_replies, describe, trickle,
}
use dion.Sfu.Subscribe.{DownCall, subscribe_all}
use dion.Sfu.Signal.{
  Stream, SfuService, SignalEvent, SignalInput, opens, joins, describes, trickles, subscribes,
  other_request, candidate, peer_offer, settles, closes, remove_clients, leave, finish, settle,
  send, is_tracked, track_client, register, join, publish, closing_error, subscribed, subscriber_of,
  handle, open_stream, handle_at, signal_step, signal_run, new_sfu_service,
}
use dion.Sfu.Signal.Stable.{Streams, Names, Events, without, IsStable}

-- What `peer.ID()` names, it names after another join.
keeps_name :
    (p : Option String) (r : JoinResult) (id : String) → p ≡ some id → peer_after p r ≡ some id
unfolding peer_after
keeps_name (some a) r id e = e
keeps_name none (joined a) id e = absurd (cc)
keeps_name none (refused_known a known) id e = absurd (cc)
keeps_name none (refused a known) id e = absurd (cc)

module _ (P : Streams → Names → Events → Type 0) (stable : IsStable P) where
  -- The property, in a process that runs.
  abbrev pub Runs : SfuService → Type 0
  Runs w = w.crashed ≡ false → P w.streams w.sigs w.session_ev

  -- The property, where a stream is about to be stored.
  abbrev At : ℕ → Stream → SfuService → Type 0
  At n s w = P (put ℕ_discrete n s w.streams) w.sigs w.session_ev

  finish-Runs :
      (n : ℕ) (s : Stream) (e : Option GrpcError) (downs : List String) (w : SfuService)
      → At n s w
      → Runs (finish n s e downs w)
  unfolding finish leave
  finish-Runs n s e downs w h = elim (Option-cases s.peer) [
    | inl q ↦
        (let g = stable.ended n s w.streams w.sigs w.session_ev h in
          rw q (λ c.
            subst
              (λ p.
                P (del ℕ_discrete n w.streams) (without p w.sigs)
                  (w.session_ev ++ remove_clients n s.clients))
              q g))
    | inr (uid, q) ↦
        (let g = stable.ended n s w.streams w.sigs w.session_ev h in
          rw q (λ c.
            subst
              (λ p.
                P (del ℕ_discrete n w.streams) (without p w.sigs)
                  (w.session_ev ++ remove_clients n s.clients))
              q g))
  ]

  settle-Runs :
      (n : ℕ) (downs : List String) (o : Outcome) (s : Stream) (w : SfuService)
      → At n s w
      → Runs (settle n downs o s w)
  unfolding settle
  settle-Runs n downs goes_on s w h = λ c. h
  settle-Runs n downs panics s w h = λ c. absurd (cc)
  settle-Runs n downs (returns e) s w h = finish-Runs n s e downs w h

  register-At :
      (n : ℕ) (o : Outcome) (p : Option String) (s : Stream) (w : SfuService)
      → s.peer ≡ p
      → At n s w
      → At n s (register o p n w)
  register-At n goes_on none s w e h = h
  register-At n goes_on (some id) s w e h =
      stable.registered n s id w.streams w.sigs w.session_ev e h
  register-At n panics p s w e h = h
  register-At n (returns err) p s w e h = h

  track_client-At :
      (n : ℕ) (req : JoinRequest) (s : Stream) (w : SfuService)
      → At n s w
      → At n (track_client n req s w).0 (track_client n req s w).1
  unfolding track_client
  track_client-At n req s w h = elim (Bool-cases (is_tracked w.track_session req)) [
    | inl q ↦ rw q (
        stable.tracked n (record { session = req.sid; user = req.uid }) s w.streams w.sigs
          w.session_ev h)
    | inr q ↦ rw q h
  ]

  track_client-peer :
      (n : ℕ) (req : JoinRequest) (s : Stream) (w : SfuService)
      → (track_client n req s w).0.peer ≡ s.peer
  unfolding track_client
  track_client-peer n req s w = ground arith

  join-Runs :
      (n : ℕ) (downs : List String) (req : JoinRequest) (ans : JoinAnswers) (s : Stream)
      (w : SfuService)
      → At n s w
      → Runs (join n downs req ans s w)
  unfolding join
  join-Runs n downs req ans s w h =
      let tv = track_client n req s w in
      let id = peer_after s.peer ans.result in
      let t = record tv.0 {
        peer = id;
        armed = if ans.publishes then some req.uid else tv.0.armed;
      } in
      let o = (join_replies id req ans).0 in
      settle-Runs n downs o t (register o id n (send n (join_replies id req ans).1 tv.1)) (
        register-At n o id t (send n (join_replies id req ans).1 tv.1) refl (
          stable.named n tv.0 t tv.1.streams tv.1.sigs tv.1.session_ev refl
            (λ a e. keeps_name s.peer ans.result a (ground (arith, track_client-peer n req s w)))
            (track_client-At n req s w h)))

  publish-Runs :
      (n : ℕ) (p : Option String) (tracks : List TrackInfo) (s : Stream) (w : SfuService)
      → At n s w
      → Runs w
      → Runs (publish n p tracks s w)
  publish-Runs n none tracks s w h g = g
  publish-Runs n (some uid) [] s w h g = λ c.
      stable.named n s (record s { armed = none }) w.streams w.sigs w.session_ev refl (λ id e. e) h
  publish-Runs n (some uid) (t ∷ ts) s w h g = λ c.
      stable.named n s (record s { tracks_info = s.tracks_info ++ t ∷ ts; armed = none }) w.streams
        w.sigs w.session_ev refl (λ id e. e) h

  subscribed-Runs :
      (n : ℕ) (calls : List DownCall × Bool) (s : Stream) (w : SfuService)
      → At n s w
      → Runs (subscribed n calls s w)
  unfolding settle
  subscribed-Runs n (cs, true) s w h = λ c. absurd (cc)
  subscribed-Runs n (cs, false) s w h = λ c. h

  handle-Runs :
      (n : ℕ) (downs : List String) (e : SignalEvent) (s : Stream) (w : SfuService)
      → At n s w
      → Runs w
      → Runs (handle n downs e s w)
  unfolding handle
  handle-Runs n downs opens s w h g = g
  handle-Runs n downs (joins req ans) s w h g = join-Runs n downs req ans s w h
  handle-Runs n downs (describes kind a result sent) s w h g =
      settle-Runs n downs (describe kind a result sent).0 s
        (send n (describe kind a result sent).1 w) h
  handle-Runs n downs (trickles parsed result sent) s w h g =
      settle-Runs n downs (trickle parsed result sent).0 s (send n (trickle parsed result sent).1 w)
        h
  handle-Runs n downs (subscribes peers infos own has) s w h g =
      subscribed-Runs n (subscribe_all own (subscriber_of has s.peer) peers downs infos) s w h
  handle-Runs n downs other_request s w h g = g
  handle-Runs n downs (candidate init target) s w h g = g
  handle-Runs n downs (peer_offer d) s w h g = g
  handle-Runs n downs (settles tracks) s w h g = publish-Runs n s.armed tracks s w h g
  handle-Runs n downs (closes c) s w h g = finish-Runs n s (closing_error c) downs w h

  open_stream-Runs :
      (n : ℕ) (e : SignalEvent) (w : SfuService)
      → get ℕ_discrete n w.streams ≡ none
      → Runs w
      → Runs (open_stream n e w)
  open_stream-Runs n opens w q g = λ c. stable.opened n w.streams w.sigs w.session_ev q (g c)
  open_stream-Runs n (joins req ans) w q g = g
  open_stream-Runs n (describes kind a result sent) w q g = g
  open_stream-Runs n (trickles parsed result sent) w q g = g
  open_stream-Runs n (subscribes peers infos own has) w q g = g
  open_stream-Runs n other_request w q g = g
  open_stream-Runs n (candidate init target) w q g = g
  open_stream-Runs n (peer_offer d) w q g = g
  open_stream-Runs n (settles tracks) w q g = g
  open_stream-Runs n (closes c) w q g = g

  handle_at-Runs :
      (o : Option Stream) (n : ℕ) (downs : List String) (e : SignalEvent) (w : SfuService)
      → get ℕ_discrete n w.streams ≡ o
      → w.crashed ≡ false
      → Runs w
      → Runs (handle_at o n downs e w)
  handle_at-Runs none n downs e w q c g = open_stream-Runs n e w q g
  handle_at-Runs (some s) n downs e w q c g =
      handle-Runs n downs e s w (stable.stays n s w.streams w.sigs w.session_ev q (g c)) g

  unless_crashed :
      (b : Bool) (w v : SfuService)
      → w.crashed ≡ b
      → Runs w
      → (w.crashed ≡ false → Runs v)
      → Runs (if b then w else v)
  unless_crashed true w v q g h = g
  unless_crashed false w v q g h = h q

  signal_step-Runs : (w : SfuService) (i : SignalInput) → Runs w → Runs (signal_step w i)
  unfolding signal_step
  signal_step-Runs w i g =
      let o = get ℕ_discrete i.stream w.streams in
      unless_crashed w.crashed w (handle_at o i.stream i.downs i.event w) refl g
        (λ q. handle_at-Runs o i.stream i.downs i.event w refl q g)

  run-Runs : (w : SfuService) (es : List SignalInput) → Runs w → Runs (signal_run w es)
  unfolding signal_run
  run-Runs w [] g = g
  run-Runs w (e ∷ es) g = run-Runs (signal_step w e) es (signal_step-Runs w e g)

  pub signal_run-Runs :
      (track_session : Bool) (es : List SignalInput)
      → P [] [] []
      → Runs (signal_run (new_sfu_service track_session) es)
  unfolding new_sfu_service
  signal_run-Runs track_session es h = run-Runs (new_sfu_service track_session) es (λ c. h)
