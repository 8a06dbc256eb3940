-- ===== src/Algorithms/Stupid.antt =====
-- algorithms/impl/stupid.go: every SFU is to forward the test stream of the stupid service, whose
-- names are in config/proto.go. The algorithm changes the statuses that it is given in place.
pub mod Added
use dion.Prelude.{
  Bool, true, false, ◌&&◌, ◌||◌, Option, none, some, List, [], ◌∷◌, ◌++◌, String, String-discrete,
  holds, if◌then◌else◌,
}
use dion.Proto.{Ion, ForwardTrack, SfuStatus}

-- config/proto.go
abbrev pub service_stupid : String
service_stupid = "rtc"

abbrev pub service_name_stupid : String
service_name_stupid = "stupid"

abbrev pub service_session_stupid : String
service_session_stupid = "stupid"

module _ {ion : Ion} (stupid_node : ion.Node) where
  open ion use {nid, service}

  -- The test of the inner loop.
  unfoldable pub is_stupid : ForwardTrack ion → Bool
  is_stupid track =
      holds (String-discrete (service track.src) service_stupid)
      && (holds (String-discrete (nid track.src) service_name_stupid)
          && holds (String-discrete track.remote_session_id service_session_stupid))

  unfoldable pub has_stupid : List (ForwardTrack ion) → Bool
  has_stupid [] = false
  has_stupid (track ∷ rest) = is_stupid track || has_stupid rest

  -- One round of the outer loop. `stupid_node` is the node that is made from the two names.
  unfoldable pub add_stupid : SfuStatus ion → SfuStatus ion
  add_stupid n = if has_stupid n.forward_tracks then n else record n {
    forward_tracks =
        n.forward_tracks
        ++ (record {
          src = stupid_node;
          remote_session_id = service_session_stupid;
          local_session_id = service_session_stupid;
          tracks = [];
        })
          ∷ [];
  }

  unfoldable pub update_sfu_status : List (SfuStatus ion) → List (SfuStatus ion)
  update_sfu_status [] = []
  update_sfu_status (n ∷ rest) = add_stupid n ∷ update_sfu_status rest
