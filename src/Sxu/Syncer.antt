-- ===== src/Sxu/Syncer.antt =====
-- pkg/sxu/syncer/syncer.go: the loop `main` of the syncer, with what it keeps, over the events that
-- it and the goroutines around it meet. The client of isglb is the list of what it was sent.
pub mod Sync
pub mod Reach
use dion.Prelude.{
  Bool, true, false, Option, none, some, List, [], ◌∷◌, ◌++◌, ℕ, ◌≡◌, String, String-discrete,
  holds, if◌then◌else◌,
}
use dion.Proto.{Ion, Message, ClientNeededSession, ForwardTrack, ProceedTrack, SfuStatus}
use dion.Util.Set.{Item, DisorderSet, Changes, new_set, add, remove, update, is_same}
use dion.Util.Set.Sort.{sort}
use dion.Util.Items.{client_item, forward_item, proceed_item, same_text}
use dion.Sxu.Router.{Router, new_router, perform}

-- What the syncer takes from the protobuf library, and from `fmt.Sprintf`.
pub record Formats (ion : Ion) : Type 0 where
  pub client_format : String → String → String
  pub forward_format : String → String → String
  pub client_message : Message ClientNeededSession
  pub forward_message : Message (ForwardTrack ion)
  pub proceed_message : Message (ProceedTrack ion)
  pub node_message : Message ion.Node

-- `SessionEvent_State`, an int32 with two named values.
pub data SessionState : Type 0 where
  session_add session_remove : SessionState
  session_other : ℕ → SessionState

pub record SessionEvent : Type 0 where
  pub session : ClientNeededSession
  pub state : SessionState

-- `ISGLBSyncer`: the channels of capacity 1 are an option and a flag; the queue of session events
-- is a list, whose capacity only delays the fetcher.
pub record Syncer (ion : Ion) : Type 0 where
  pub desc_sfu : ion.Node
  pub forward_router : Router (ForwardTrack ion)
  pub proceed_router : Router (ProceedTrack ion)
  pub client_set : DisorderSet ClientNeededSession
  pub forward_track_set : DisorderSet (ForwardTrack ion)
  pub proceed_track_set : DisorderSet (ProceedTrack ion)
  pub status_recv_ch : Option (SfuStatus ion)
  pub status_send_ch : Bool
  pub session_event_ch : List SessionEvent
  pub sent : List (SfuStatus ion)

-- `delivers`: the client of isglb calls `OnSFUStatusRecv`. `fetches`: `sessionFetcher` pushes an
-- event. The others are the cases of the `select` of `main`.
pub data SyncerEvent (ion : Ion) : Type 0 where
  delivers : SfuStatus ion → SyncerEvent ion
  fetches : SessionEvent → SyncerEvent ion
  takes_session takes_status takes_send : SyncerEvent ion

module _ {ion : Ion} (formats : Formats ion) where
  open formats use {
    client_format, forward_format, client_message, forward_message, proceed_message, node_message,
  }

  abbrev pub clients_by : Item ClientNeededSession
  clients_by = client_item client_format client_message

  abbrev pub forwards_by : Item (ForwardTrack ion)
  forwards_by = forward_item ion forward_format forward_message

  abbrev pub proceeds_by : Item (ProceedTrack ion)
  proceeds_by = proceed_item ion proceed_message

  -- `NewSFUStatusSyncer`: the first status is sent unasked.
  unfoldable pub new_syncer : ion.Node → Syncer ion
  new_syncer desc = record {
    desc_sfu = desc;
    forward_router = new_router;
    proceed_router = new_router;
    client_set = new_set;
    forward_track_set = new_set;
    proceed_track_set = new_set;
    status_recv_ch = none;
    status_send_ch = true;
    session_event_ch = [];
    sent = [];
  }

  -- A full channel already holds the wish to send.
  unfoldable pub notify_sfu_status : Syncer ion → Syncer ion
  notify_sfu_status s = record s { status_send_ch = true }

  unfoldable pub sync_forward : List (ForwardTrack ion) → Syncer ion → Syncer ion
  sync_forward list s =
      let (set, c) = update forwards_by s.forward_track_set list in
      record s { forward_track_set = set; forward_router = perform forwards_by c s.forward_router }

  unfoldable pub sync_proceed : List (ProceedTrack ion) → Syncer ion → Syncer ion
  sync_proceed list s =
      let (set, c) = update proceeds_by s.proceed_track_set list in
      record s { proceed_track_set = set; proceed_router = perform proceeds_by c s.proceed_router }

  unfoldable pub sync_status : SfuStatus ion → Syncer ion → Syncer ion
  sync_status st s =
      if same_text (node_message.text st.sfu) (node_message.text s.desc_sfu)
      then (if is_same clients_by s.client_set st.clients
          then sync_proceed st.proceed_tracks (sync_forward st.forward_tracks s)
          else notify_sfu_status s)
      else notify_sfu_status s

  -- The `switch` of `handleSessionEvent`.
  unfoldable pub handle_state : SessionState → ClientNeededSession → Syncer ion → Syncer ion
  handle_state session_add c s =
      notify_sfu_status (record s { client_set = add clients_by s.client_set c })
  handle_state session_remove c s =
      notify_sfu_status (record s { client_set = remove clients_by s.client_set c })
  handle_state (session_other n) c s = s

  unfoldable pub handle_session_event : SessionEvent → Syncer ion → Syncer ion
  handle_session_event event s = handle_state event.state event.session s

  -- The status that `main` sends.
  unfoldable pub current_status : Syncer ion → SfuStatus ion
  current_status s = record {
    sfu = node_message.clone s.desc_sfu;
    forward_tracks = sort forwards_by s.forward_track_set;
    proceed_tracks = sort proceeds_by s.proceed_track_set;
    clients = sort clients_by s.client_set;
  }

  -- `SessionEvent.Clone`
  unfoldable pub clone_event : SessionEvent → SessionEvent
  clone_event event = record { session = client_message.clone event.session; state = event.state }

  -- `OnSFUStatusRecv`: an older status that waits gives way.
  unfoldable pub on_sfu_status_recv : SfuStatus ion → Syncer ion → Syncer ion
  on_sfu_status_recv st s = record s { status_recv_ch = some st }

  abbrev pub take_session : List SessionEvent → Syncer ion → Syncer ion
  take_session [] s = s
  take_session (event ∷ rest) s = handle_session_event event (record s { session_event_ch = rest })

  abbrev pub take_status : Option (SfuStatus ion) → Syncer ion → Syncer ion
  take_status none s = s
  take_status (some st) s = sync_status st (record s { status_recv_ch = none })

  abbrev pub take_send : Bool → Syncer ion → Syncer ion
  take_send false s = s
  take_send true s = record s { status_send_ch = false; sent = s.sent ++ current_status s ∷ [] }

  -- A case of the `select` whose channel is empty is not taken.
  unfoldable pub main_step : Syncer ion → SyncerEvent ion → Syncer ion
  main_step s (delivers st) = on_sfu_status_recv st s
  main_step s (fetches event) = record s {
    session_event_ch = s.session_event_ch ++ clone_event event ∷ [];
  }
  main_step s takes_session = take_session s.session_event_ch s
  main_step s takes_status = take_status s.status_recv_ch s
  main_step s takes_send = take_send s.status_send_ch s

  unfoldable pub main_run : Syncer ion → List (SyncerEvent ion) → Syncer ion
  main_run s [] = s
  main_run s (e ∷ es) = main_run (main_step s e) es
