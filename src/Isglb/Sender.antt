-- ===== src/Isglb/Sender.antt =====
-- pkg/isglb/service.go: `routineSFUStatusSend`, which hands the statuses for one stream to a goroutine
-- for each node, over a channel of capacity 1 whose older status gives way. The end of the stream
-- and the errors of `Send` are left out.
pub mod Latest
use dion.Prelude.{Option, none, some, List, [], ◌∷◌, ◌++◌, String, String-discrete}
use dion.Prelude.GoMap.{GoMap, get, put}
use dion.Util.Set.{Item}

-- `latestStatusChs`, and what was handed to `sig.Send`, oldest first.
pub record Sender (S : Type 0) : Type 0 where
  pub latest_status_chs : GoMap String (Option S)
  pub handed : List S

-- `takes`: the routine takes a status from `sendCh`. `hands`: the goroutine of a node takes from its
-- channel and sends.
pub data SendEvent (S : Type 0) : Type 0 where
  takes : S → SendEvent S
  hands : String → SendEvent S

module _ {S : Type 0} (item : Item S) where
  open item use {key}

  unfoldable pub new_sender : Sender S
  new_sender = record { latest_status_chs = []; handed = [] }

  -- A channel is made for a node without one; then the status is pushed, in place of one that waits.
  unfoldable pub take_latest : S → Sender S → Sender S
  take_latest s w = record w {
    latest_status_chs = put String-discrete (key s) (some s) w.latest_status_chs;
  }

  unfoldable pub hand_over : Option (Option S) → String → Sender S → Sender S
  hand_over none nid w = w
  hand_over (some none) nid w = w
  hand_over (some (some s)) nid w = record {
    latest_status_chs = put String-discrete nid none w.latest_status_chs;
    handed = w.handed ++ s ∷ [];
  }

  unfoldable pub send_step : Sender S → SendEvent S → Sender S
  send_step w (takes s) = take_latest s w
  send_step w (hands nid) = hand_over (get String-discrete nid w.latest_status_chs) nid w

  unfoldable pub send_run : Sender S → List (SendEvent S) → Sender S
  send_run w [] = w
  send_run w (e ∷ es) = send_run (send_step w e) es
