-- ===== src/Sxu/Syncer/Sync.antt =====
-- What the parts of the syncer's loop (pkg/sxu/syncer/syncer.go) keep.
use dion.Prelude.{some, List, ◌≡◌, Bool-cases, inl, inr}
use dion.Proto.{Ion, ClientNeededSession, SfuStatus}
use dion.Util.Set.{Item, Lawful, DisorderSet, add, remove, update, is_same}
use dion.Util.Set.Diff.{DistinctKeys}
use dion.Util.Set.Replay.{view}
use dion.Util.Set.Invariant.{Inv, apply, adds, removes, updates, apply-Inv}
use dion.Util.Items.{same_text}
use dion.Util.Items.Laws.{client_item-Lawful, forward_item-Lawful, proceed_item-Lawful}
use dion.Sxu.Router.{Router, perform}
use dion.Sxu.Router.Told.{IsFiled, Follows, perform-update}
use dion.Sxu.Syncer.{
  Formats, Syncer, SessionState, SessionEvent, session_add, session_remove, session_other,
  clients_by, forwards_by, proceeds_by, notify_sfu_status, sync_forward, sync_proceed, sync_status,
  handle_state, handle_session_event,
}

-- A set, and a router whose watchdogs were told its items.
pub record IsFollowed {A : Type 0} (item : Item A) (law : Lawful item) (set : DisorderSet A)
    (r : Router A) : Type 0 where
  pub kept : Inv item set
  pub filed : IsFiled item law r
  pub follows : Follows item law r (view item set.index)

pub update-IsFollowed :
    {A : Type 0} (item : Item A) (law : Lawful item) (set : DisorderSet A) (r : Router A)
    (list : List A)
    → DistinctKeys item list
    → IsFollowed item law set r
    → IsFollowed item law (update item set list).0 (perform item (update item set list).1 r)
unfolding apply
update-IsFollowed item law set r list d h =
    let p = perform-update item law set list r h.kept.distinct h.kept.keyed d h.filed h.follows in
    record { kept = apply-Inv item law set (updates list) h.kept; filed = p.0; follows = p.1 }

module _ {ion : Ion} (formats : Formats ion) where
  open formats use {
    client_format, forward_format, client_message, forward_message, proceed_message, node_message,
  }

  abbrev pub clients-Lawful : Lawful (clients_by formats)
  clients-Lawful = client_item-Lawful client_format client_message

  abbrev pub forwards-Lawful : Lawful (forwards_by formats)
  forwards-Lawful = forward_item-Lawful ion forward_format forward_message

  abbrev pub proceeds-Lawful : Lawful (proceeds_by formats)
  proceeds-Lawful = proceed_item-Lawful ion proceed_message

  -- The status names no forward track and no proceed track twice.
  abbrev pub HasDistinct : SfuStatus ion → Type 0
  HasDistinct st =
      DistinctKeys (forwards_by formats) st.forward_tracks
      × DistinctKeys (proceeds_by formats) st.proceed_tracks

  -- The sets are well formed, the routers follow them, and a waiting status names no track twice.
  pub record IsInStep (s : Syncer ion) : Type 0 where
    pub clients : Inv (clients_by formats) s.client_set
    pub forwards :
        IsFollowed (forwards_by formats) forwards-Lawful s.forward_track_set s.forward_router
    pub proceeds :
        IsFollowed (proceeds_by formats) proceeds-Lawful s.proceed_track_set s.proceed_router
    pub waiting : (st : SfuStatus ion) → s.status_recv_ch ≡ some st → HasDistinct st

  pub notify-IsInStep : (s : Syncer ion) → IsInStep s → IsInStep (notify_sfu_status formats s)
  unfolding notify_sfu_status
  notify-IsInStep s h = record {
    clients = h.clients;
    forwards = h.forwards;
    proceeds = h.proceeds;
    waiting = h.waiting;
  }

  sync_tracks-IsInStep :
      (st : SfuStatus ion) (s : Syncer ion)
      → HasDistinct st
      → IsInStep s
      → IsInStep (sync_proceed formats st.proceed_tracks (sync_forward formats st.forward_tracks s))
  unfolding sync_forward sync_proceed
  sync_tracks-IsInStep st s d h = record {
    clients = h.clients;
    forwards =
        update-IsFollowed (forwards_by formats) forwards-Lawful s.forward_track_set s.forward_router
          st.forward_tracks d.0 h.forwards;
    proceeds =
        update-IsFollowed (proceeds_by formats) proceeds-Lawful s.proceed_track_set s.proceed_router
          st.proceed_tracks d.1 h.proceeds;
    waiting = h.waiting;
  }

  pub sync_status-IsInStep :
      (st : SfuStatus ion) (s : Syncer ion)
      → HasDistinct st
      → IsInStep s
      → IsInStep (sync_status formats st s)
  unfolding sync_status
  sync_status-IsInStep st s d h =
      elim (Bool-cases (same_text (node_message.text st.sfu) (node_message.text s.desc_sfu))) [
        | inl e ↦ elim (Bool-cases (is_same (clients_by formats) s.client_set st.clients)) [
          | inl g ↦ rw (e, g) (sync_tracks-IsInStep st s d h)
          | inr g ↦ rw (e, g) (notify-IsInStep s h)
        ]
        | inr e ↦ rw e (notify-IsInStep s h)
      ]

  handle_state-IsInStep :
      (state : SessionState) (c : ClientNeededSession) (s : Syncer ion)
      → IsInStep s
      → IsInStep (handle_state formats state c s)
  unfolding handle_state apply
  handle_state-IsInStep session_add c s h =
      notify-IsInStep (record s { client_set = add (clients_by formats) s.client_set c })
        (record {
          clients = apply-Inv (clients_by formats) clients-Lawful s.client_set (adds c) h.clients;
          forwards = h.forwards;
          proceeds = h.proceeds;
          waiting = h.waiting;
        })
  handle_state-IsInStep session_remove c s h =
      notify-IsInStep (record s { client_set = remove (clients_by formats) s.client_set c })
        (record {
          clients =
              apply-Inv (clients_by formats) clients-Lawful s.client_set (removes c) h.clients;
          forwards = h.forwards;
          proceeds = h.proceeds;
          waiting = h.waiting;
        })
  handle_state-IsInStep (session_other n) c s h = h

  pub handle_session_event-IsInStep :
      (event : SessionEvent) (s : Syncer ion)
      → IsInStep s
      → IsInStep (handle_session_event formats event s)
  unfolding handle_session_event
  handle_session_event-IsInStep event s h = handle_state-IsInStep event.state event.session s h
