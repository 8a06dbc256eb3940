-- ===== src/Sxu/Syncer/Reach.antt =====
-- What holds in every state that the syncer's loop (pkg/sxu/syncer/syncer.go) reaches, and what a
-- received status comes to.
use mathlib.Core.Option
use dion.Prelude.{
  Bool, true, false, Option, none, some, List, [], ◌∷◌, ◌≡◌, ◌⊎◌, refl, sym, ap, subst, ◌∙◌, arith,
  String, if◌then◌else◌, Bool-cases, inl, inr, All,
}
use dion.Prelude.GoMap.{get}
use dion.Proto.{Ion, SfuStatus}
use dion.Util.Set.{Item, Lawful, DisorderSet, new_set, update, is_same}
use dion.Util.Set.Index.{find, last_with}
use dion.Util.Set.Diff.{DistinctKeys}
use dion.Util.Set.Update.{Matches, update-Matches}
use dion.Util.Set.Replay.{view, get-view}
use dion.Util.Set.Sorted.{sort-IsAscending}
use dion.Util.Items.{same_text}
use dion.Sxu.Router.{Router, new_router, perform}
use dion.Sxu.Router.Told.{told}
use dion.Sxu.Syncer.{
  Formats, Syncer, SessionEvent, SyncerEvent, delivers, fetches, takes_session, takes_status,
  takes_send, clients_by, forwards_by, proceeds_by, new_syncer, notify_sfu_status, sync_forward,
  sync_proceed, sync_status, take_session, take_status, take_send, on_sfu_status_recv, main_step,
  main_run, current_status,
}
use dion.Sxu.Syncer.Sync.{
  IsFollowed, update-IsFollowed, forwards-Lawful, proceeds-Lawful, HasDistinct, IsInStep,
  sync_status-IsInStep, handle_session_event-IsInStep,
}

-- A watchdog that was told what is asked for: none if nothing is, else one that was told a track
-- that compares the same.
abbrev pub Obeys : {A : Type 0} → Item A → Option A → Option A → Type 0
Obeys item o none = o ≡ none
Obeys item o (some a) = (b : _) × (o ≡ some b) × (item.compare b a ≡ true)

perform-Obeys :
    {A : Type 0} (item : Item A) (law : Lawful item) (set : DisorderSet A) (r : Router A)
    (list : List A)
    → DistinctKeys item list
    → IsFollowed item law set r
    → (k : String)
    → Obeys item (told item law (perform item (update item set list).1 r) k) (last_with item k list)
perform-Obeys item law set r list d h k =
    rw
      (
        (update-IsFollowed item law set r list d h).follows k,
        get-view item k (update item set list).0.index,
      )
      (obeyed (last_with item k list) (update-Matches item law set list h.kept.distinct k))
  where
    obeyed :
        (o : Option _)
        → Matches item (find k (update item set list).0.index) o
        → Obeys item (Option.map (λ t. t.value) (find k (update item set list).0.index)) o
    obeyed none m = ground arith
    obeyed (some a) (t, e, c) = (t.value, ap (Option.map (λ t. t.value)) e, c)

module _ {ion : Ion} (formats : Formats ion) where
  open formats use {node_message}

  -- A status that is delivered names no track twice.
  abbrev pub IsFit : SyncerEvent ion → Type 0
  IsFit (delivers st) = HasDistinct formats st
  IsFit (fetches event) = Unit
  IsFit takes_session = Unit
  IsFit takes_status = Unit
  IsFit takes_send = Unit

  take_session-IsInStep :
      (events : List SessionEvent) (s : Syncer ion)
      → IsInStep formats s
      → IsInStep formats (take_session formats events s)
  take_session-IsInStep [] s h = h
  take_session-IsInStep (event ∷ rest) s h =
      handle_session_event-IsInStep formats event (record s { session_event_ch = rest })
        (record {
          clients = h.clients;
          forwards = h.forwards;
          proceeds = h.proceeds;
          waiting = h.waiting;
        })

  take_status-IsInStep :
      (o : Option (SfuStatus ion)) (s : Syncer ion)
      → s.status_recv_ch ≡ o
      → IsInStep formats s
      → IsInStep formats (take_status formats o s)
  take_status-IsInStep none s e h = h
  take_status-IsInStep (some st) s e h =
      sync_status-IsInStep formats st (record s { status_recv_ch = none }) (h.waiting st e)
        (record {
          clients = h.clients;
          forwards = h.forwards;
          proceeds = h.proceeds;
          waiting = λ x q. absurd (cc);
        })

  take_send-IsInStep :
      (b : Bool) (s : Syncer ion) → IsInStep formats s → IsInStep formats (take_send formats b s)
  take_send-IsInStep false s h = h
  take_send-IsInStep true s h = record {
    clients = h.clients;
    forwards = h.forwards;
    proceeds = h.proceeds;
    waiting = h.waiting;
  }

  step-IsInStep :
      (s : Syncer ion) (e : SyncerEvent ion)
      → IsFit e
      → IsInStep formats s
      → IsInStep formats (main_step formats s e)
  unfolding main_step on_sfu_status_recv
  step-IsInStep s (delivers st) d h = record {
    clients = h.clients;
    forwards = h.forwards;
    proceeds = h.proceeds;
    waiting = λ x q. (let p : st ≡ x = ground arith in subst (HasDistinct formats) p d);
  }
  step-IsInStep s (fetches event) d h = record {
    clients = h.clients;
    forwards = h.forwards;
    proceeds = h.proceeds;
    waiting = h.waiting;
  }
  step-IsInStep s takes_session d h = take_session-IsInStep s.session_event_ch s h
  step-IsInStep s takes_status d h = take_status-IsInStep s.status_recv_ch s refl h
  step-IsInStep s takes_send d h = take_send-IsInStep s.status_send_ch s h

  run-IsInStep :
      (s : Syncer ion) (es : List (SyncerEvent ion))
      → All IsFit es
      → IsInStep formats s
      → IsInStep formats (main_run formats s es)
  unfolding main_run
  run-IsInStep s [] d h = h
  run-IsInStep s (e ∷ es) d h =
      run-IsInStep (main_step formats s e) es d.1 (step-IsInStep s e d.0 h)

  new_syncer-IsInStep : (desc : ion.Node) → IsInStep formats (new_syncer formats desc)
  unfolding new_syncer new_router new_set view get
  new_syncer-IsInStep desc = record {
    clients = record { distinct = tt; keyed = tt };
    forwards = record {
      kept = record { distinct = tt; keyed = tt };
      filed = λ k f e. absurd (cc);
      follows = λ k. refl;
    };
    proceeds = record {
      kept = record { distinct = tt; keyed = tt };
      filed = λ k f e. absurd (cc);
      follows = λ k. refl;
    };
    waiting = λ st e. absurd (cc);
  }

  -- In every state that the syncer reaches, where no delivered status names a track twice: its
  -- three sets have one entry for each key, and under every key a router has a watchdog exactly if
  -- the set beside it has a track, which the watchdog was told last.
  pub main_run-IsInStep :
      (desc : ion.Node) (es : List (SyncerEvent ion))
      → All IsFit es
      → IsInStep formats (main_run formats (new_syncer formats desc) es)
  main_run-IsInStep desc es d =
      run-IsInStep (new_syncer formats desc) es d (new_syncer-IsInStep desc)

  -- The status is about this SFU and has the clients that it has.
  abbrev pub accepts : SfuStatus ion → Syncer ion → Bool
  accepts st s =
      if same_text (node_message.text st.sfu) (node_message.text s.desc_sfu)
      then is_same (clients_by formats) s.client_set st.clients
      else false

  -- A status that names no track twice, in a state that the syncer reaches. It is accepted if it is
  -- about this SFU and has the clients of the client set: then, under every key, each router has a
  -- watchdog exactly if the status has a track, and it was told a track that compares the same; the
  -- clients stay. Or it is refused: then the syncer only wants to send its own status.
  pub sync_status_cases :
      (st : SfuStatus ion) (s : Syncer ion)
      → HasDistinct formats st
      → IsInStep formats s
      → ((accepts st s ≡ true)
          × ((k : String)
              → Obeys
                  (forwards_by formats)
                  (told
                    (forwards_by formats)
                    (forwards-Lawful formats)
                    (sync_status formats st s).forward_router
                    k)
                  (last_with (forwards_by formats) k st.forward_tracks))
          × ((k : String)
              → Obeys
                  (proceeds_by formats)
                  (told
                    (proceeds_by formats)
                    (proceeds-Lawful formats)
                    (sync_status formats st s).proceed_router
                    k)
                  (last_with (proceeds_by formats) k st.proceed_tracks))
          × ((sync_status formats st s).client_set ≡ s.client_set))
        ⊎ ((accepts st s ≡ false) × (sync_status formats st s ≡ record s { status_send_ch = true }))
  unfolding sync_status sync_forward sync_proceed notify_sfu_status
  sync_status_cases st s d h =
      elim (Bool-cases (same_text (node_message.text st.sfu) (node_message.text s.desc_sfu))) [
        | inl e ↦ elim (Bool-cases (is_same (clients_by formats) s.client_set st.clients)) [
          | inl g ↦ inl (
              rw (e, g)
                (
                  refl,
                  perform-Obeys (forwards_by formats) (forwards-Lawful formats) s.forward_track_set
                      s.forward_router st.forward_tracks d.0 h.forwards,
                  perform-Obeys (proceeds_by formats) (proceeds-Lawful formats) s.proceed_track_set
                      s.proceed_router st.proceed_tracks d.1 h.proceeds,
                  refl,
                ))
          | inr g ↦ inr (rw (e, g) (refl, refl))
        ]
        | inr e ↦ inr (rw e (refl, refl))
      ]

  -- What the syncer reports is what its routers do: in a state that it reaches, the status that it
  -- would send names, under every key, the track that the router's watchdog was told last, and none
  -- where there is no watchdog.
  pub current_status-told :
      (s : Syncer ion) (k : String)
      → IsInStep formats s
      → (last_with (forwards_by formats) k (current_status formats s).forward_tracks
          ≡ told (forwards_by formats) (forwards-Lawful formats) s.forward_router k)
        × (last_with (proceeds_by formats) k (current_status formats s).proceed_tracks
            ≡ told (proceeds_by formats) (proceeds-Lawful formats) s.proceed_router k)
  unfolding current_status
  current_status-told s k h = (
    (sort-IsAscending (forwards_by formats) (forwards-Lawful formats) s.forward_track_set k
          h.forwards.kept).1
        ∙ sym (h.forwards.follows k),
    (sort-IsAscending (proceeds_by formats) (proceeds-Lawful formats) s.proceed_track_set k
          h.proceeds.kept).1
        ∙ sym (h.proceeds.follows k),
  )
