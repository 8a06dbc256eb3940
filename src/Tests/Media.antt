-- ===== src/Tests/Media.antt =====
-- Runs of pkg/sxu/rtc/tracksame.go, algorithms/impl/stupid.go and util/lock.go.
use dion.Prelude.{false, List, [], ◌∷◌, String, ◌≡◌, ◌⊎◌, none, some, All, refl}
use dion.Proto.{Ion, Subscription, SfuStatus, f}
use dion.Sxu.Rtc.{TrackRemote, peer_not_start, untouched, subscribes, subscribe_infos, rtc_update}
use dion.Sxu.Rtc.Layers.{Differs, Fits, rtc_update_cases}
use dion.Util.Lock.{
  WaitEvent, does_op, op_returns, parent_ends, new_single_wait_exec, wait_run, wait_step, do_wait,
  begin_op, end_wait, end_parent,
}
use dion.Util.Lock.Wait.{is_ended, run_and_wait, Tracks, wait_run-Tracks}

abbrev published : List TrackRemote
published = (record { id = "video"; rid = "q" }) ∷ []

abbrev subs : List Subscription
subs = (record { track_id = "video"; mute = false; layer = f }) ∷ []

rtc_update_cases_example :
    ((some published ≡ none) × (rtc_update (some published) subs ≡ peer_not_start))
    ⊎ ((ts : List TrackRemote) × (some published ≡ some ts)
        × (((rtc_update (some published) subs ≡ untouched) × All (Fits ts) subs)
            ⊎ ((rtc_update (some published) subs ≡ subscribes (subscribe_infos subs))
                × ((sub : Subscription) × Differs ts sub))))
rtc_update_cases_example = rtc_update_cases (some published) subs

-- A node is its name here, and its service is rtc.
abbrev named : Ion
named = record { Node = String; nid = λ n. n; service = λ n. "rtc"; Any = String }

abbrev statuses : List (SfuStatus named)
statuses = (record { sfu = "n1"; forward_tracks = []; proceed_tracks = []; clients = [] }) ∷ []

-- A call waits for the first operation; after the end of the parent two run together.
abbrev execs : List WaitEvent
execs = does_op ∷ does_op ∷ op_returns ∷ does_op ∷ does_op ∷ parent_ends ∷ does_op ∷ []

execs_run :
    ((wait_run (new_single_wait_exec false) execs).running ≡ 2)
    × ((wait_run (new_single_wait_exec false) execs).waiting ≡ 0)
unfolding wait_run wait_step do_wait begin_op end_wait end_parent new_single_wait_exec
execs_run = (refl, refl)

wait_run-Tracks_example :
    Tracks
      (is_ended false execs)
      (run_and_wait false (0, 0) execs)
      (wait_run (new_single_wait_exec false) execs)
wait_run-Tracks_example = wait_run-Tracks false execs
