-- ===== src/Tests/Syncers.antt =====
-- Runs of util/set.go's Sort, of pkg/sxu/forward.go and of pkg/sxu/syncer/syncer.go. A node is a
-- text, and messages are told apart by one field.
use dion.Prelude.{
  ℕ, true, false, List, [], ◌∷◌, String, String-discrete, Bool-cases, ◌≡◌, ◌⊎◌, refl, arith, All,
}
use dion.Prelude.GoMap.{get, put}
use dion.Proto.{Ion, SfuStatus, ClientNeededSession}
use dion.Util.Set.{DisorderSet, update, new_set_from_list, add_all, add, new_set}
use dion.Util.Set.Index.{last_with}
use dion.Util.Set.Diff.{listed}
use dion.Util.Set.Replay.{view}
use dion.Util.Set.Invariant.{Inv}
use dion.Sxu.Router.{new_router, perform}
use dion.Sxu.Router.Told.{IsFiled, Follows, told, perform-update}
use dion.Sxu.Syncer.{
  Formats, Syncer, SyncerEvent, delivers, fetches, takes_session, takes_status, takes_send,
  session_add, new_syncer, main_run, sync_status, current_status, forwards_by, proceeds_by,
}
use dion.Sxu.Syncer.Sync.{HasDistinct, IsInStep, forwards-Lawful, proceeds-Lawful}
use dion.Sxu.Syncer.Reach.{
  IsFit, Obeys, accepts, main_run-IsInStep, sync_status_cases, current_status-told,
}
use dion.Tests.Sets.{
  versioned, versioned-Lawful, three, incoming, three-IsWf, incoming-DistinctKeys,
}

three-Inv : Inv versioned three
unfolding new_set_from_list add_all add new_set put Bool-cases String-discrete
three-Inv = record { distinct = three-IsWf; keyed = (refl, (refl, (refl, tt))) }

abbrev turned : DisorderSet (String × ℕ)
turned = new_set_from_list versioned (("c", 1) ∷ ("a", 1) ∷ ("b", 1) ∷ [])

turned-Inv : Inv versioned turned
unfolding new_set_from_list add_all add new_set put get Bool-cases String-discrete
turned-Inv = record { distinct = (refl, (refl, (refl, tt))); keyed = (refl, (refl, (refl, tt))) }

same_items :
    (k : String)
    → get String-discrete k (view versioned three.index)
      ≡ get String-discrete k (view versioned turned.index)
unfolding new_set_from_list add_all add new_set put Bool-cases String-discrete view get
same_items k = ground arith

perform-update_example :
    IsFiled versioned versioned-Lawful
      (perform versioned (update versioned new_set incoming).1 new_router)
    × Follows versioned versioned-Lawful
        (perform versioned (update versioned new_set incoming).1 new_router)
        (view versioned (update versioned new_set incoming).0.index)
unfolding new_set new_router view get
perform-update_example =
    perform-update versioned versioned-Lawful new_set incoming new_router tt tt
      incoming-DistinctKeys (λ k g e. absurd (cc)) (λ k. refl)

abbrev pub ion : Ion
ion = record { Node = String; nid = λ n. n; service = λ n. "sxu"; Any = String }

abbrev formats : Formats ion
formats = record {
  client_format = λ user session. session;
  forward_format = λ nid session. session;
  client_message = record { text = λ c. c.session; clone = λ c. c; clone_lem = λ c. refl };
  forward_message = record {
    text = λ t. t.local_session_id;
    clone = λ t. t;
    clone_lem = λ t. refl;
  };
  proceed_message = record { text = λ t. t.dst_session_id; clone = λ t. t; clone_lem = λ t. refl };
  node_message = record { text = λ n. n; clone = λ n. n; clone_lem = λ n. refl };
}

abbrev client : ClientNeededSession
client = record { session = "room"; user = "ann" }

abbrev wanted : SfuStatus ion
wanted = record {
  sfu = "here";
  forward_tracks =
      (record { src = "there"; remote_session_id = "room"; local_session_id = "room"; tracks = [] })
      ∷ (record {
        src = "there";
        remote_session_id = "hall";
        local_session_id = "hall";
        tracks = [];
      })
      ∷ [];
  proceed_tracks =
      (record { dst_session_id = "mix"; procedure = "x"; src_session_id_list = "room" ∷ [] }) ∷ [];
  clients = client ∷ [];
}

wanted-HasDistinct : HasDistinct formats wanted
unfolding listed Bool-cases String-discrete
wanted-HasDistinct = ((refl, (refl, tt)), (refl, tt))

abbrev events : List (SyncerEvent ion)
events =
    takes_send
    ∷ delivers wanted
    ∷ takes_status
    ∷ fetches (record { session = client; state = session_add })
    ∷ takes_session
    ∷ takes_send
    ∷ delivers wanted
    ∷ takes_status
    ∷ []

abbrev synced : Syncer ion
synced = main_run formats (new_syncer formats "here") events

events-IsFit : All (IsFit formats) events
events-IsFit = (tt, (wanted-HasDistinct, (tt, (tt, (tt, (tt, (wanted-HasDistinct, (tt, tt))))))))

main_run-IsInStep_example : IsInStep formats synced
main_run-IsInStep_example = main_run-IsInStep formats "here" events events-IsFit

sync_status_cases_example :
    ((accepts formats wanted synced ≡ true)
      × ((k : String)
          → Obeys
              (forwards_by formats)
              (told
                (forwards_by formats)
                (forwards-Lawful formats)
                (sync_status formats wanted synced).forward_router
                k)
              (last_with (forwards_by formats) k wanted.forward_tracks))
      × ((k : String)
          → Obeys
              (proceeds_by formats)
              (told
                (proceeds_by formats)
                (proceeds-Lawful formats)
                (sync_status formats wanted synced).proceed_router
                k)
              (last_with (proceeds_by formats) k wanted.proceed_tracks))
      × ((sync_status formats wanted synced).client_set ≡ synced.client_set))
    ⊎ ((accepts formats wanted synced ≡ false)
        × (sync_status formats wanted synced ≡ record synced { status_send_ch = true }))
sync_status_cases_example =
    sync_status_cases formats wanted synced wanted-HasDistinct
      (main_run-IsInStep formats "here" events events-IsFit)

current_status-told_example :
    (last_with (forwards_by formats) "hall" (current_status formats synced).forward_tracks
      ≡ told (forwards_by formats) (forwards-Lawful formats) synced.forward_router "hall")
    × (last_with (proceeds_by formats) "hall" (current_status formats synced).proceed_tracks
        ≡ told (proceeds_by formats) (proceeds-Lawful formats) synced.proceed_router "hall")
current_status-told_example =
    current_status-told formats synced "hall" (main_run-IsInStep formats "here" events events-IsFit)
