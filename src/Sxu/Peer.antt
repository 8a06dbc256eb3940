-- ===== src/Sxu/Peer.antt =====
-- pkg/sxu/bridge/common.go and pkg/sxu/bridge/bridgesub.go: the candidates that a bridge's subscriber
-- hands from its local peer to its peer connection, and its answers to offers. The connection is a
-- parameter; what the local peer says to an answer comes with the offer.
pub mod Handed
pub mod Stored
use dion.Prelude.{String, Bool, true, false, Option, none, some, List, [], ◌∷◌, ◌++◌}
use dion.Sfu.Messages.{Description, Target, publisher, subscriber}
use dion.Sfu.Replies.{Answer, answered, refuses}
use dion.Sfu.Candidates.{PeerConnection}

-- The connection, `pcCand`, the calls of `AddICECandidate`, the answers that were given to the local
-- peer, and whether `OnBroken` was called.
pub record BridgePeer (S C : Type 0) : Type 0 where
  pub pc : S
  pub pc_cand : List C
  pub added : List C
  pub answers : List Description
  pub broken : Bool

unfoldable pub new_bridge_peer : {S C : Type 0} → S → BridgePeer S C
new_bridge_peer pc = record { pc = pc; pc_cand = []; added = []; answers = []; broken = false }

-- What the local peer calls: `OnIceCandidate`, and `OnOffer` with the error for the answer.
pub data PeerEvent (C : Type 0) : Type 0 where
  candidate : C → Target → PeerEvent C
  offers : Description → Option String → PeerEvent C

module _ {S C : Type 0} (conn : PeerConnection S C) where
  abbrev pub add_call : C → BridgePeer S C → BridgePeer S C
  add_call c p = record p { pc = (conn.add_candidate c p.pc).0; added = p.added ++ c ∷ [] }

  abbrev pub break_on : Option String → BridgePeer S C → BridgePeer S C → BridgePeer S C
  break_on none p more = more
  break_on (some e) p more = record p { broken = true }

  -- The loops over the candidates: the first error ends them.
  unfoldable pub add_until_broken : List C → BridgePeer S C → BridgePeer S C
  add_until_broken [] p = p
  add_until_broken (c ∷ cs) p =
      let v = add_call c p in
      let more = add_until_broken cs v in break_on (conn.add_candidate c p.pc).1 v more

  abbrev pub add_stored : List C → BridgePeer S C → BridgePeer S C
  add_stored cs p = add_until_broken cs (record p { pc_cand = [] })

  abbrev pub store_or_add : Bool → C → BridgePeer S C → BridgePeer S C
  store_or_add false c p = record p { pc_cand = p.pc_cand ++ c ∷ [] }
  store_or_add true c p = add_stored (p.pc_cand ++ c ∷ []) p

  -- The callback of `setOnICECandidateForPeer`, with the target of a subscriber.
  unfoldable pub on_ice_candidate : C → Target → BridgePeer S C → BridgePeer S C
  on_ice_candidate c publisher p = p
  on_ice_candidate c subscriber p = store_or_add (conn.described p.pc) c p

  abbrev pub answer_peer :
      Option String → Description → S × Option String → BridgePeer S C → BridgePeer S C
  answer_peer result d (pc, some e) p = record p { pc = pc; broken = true }
  answer_peer (some e) d (pc, none) p = record p {
    pc = pc;
    answers = p.answers ++ d ∷ [];
    broken = true;
  }
  answer_peer none d (pc, none) p = record p { pc = pc; answers = p.answers ++ d ∷ [] }

  abbrev pub answer_bridge : Option String → S × Answer → BridgePeer S C → BridgePeer S C
  answer_bridge result (pc, refuses e) p = record p { pc = pc; broken = true }
  answer_bridge result (pc, answered d) p = answer_peer result d (conn.set_local d pc) p

  -- The candidates are added, and the answer is made whatever became of them.
  abbrev pub bridge_offered : Option String → S × Option String → BridgePeer S C → BridgePeer S C
  bridge_offered result (pc, some e) p = record p { pc = pc; broken = true }
  bridge_offered result (pc, none) p =
      let v = add_stored p.pc_cand (record p { pc = pc }) in
      answer_bridge result (conn.create_answer v.pc) v

  -- `OnOffer` of `subscribe`
  unfoldable pub on_offer : Description → Option String → BridgePeer S C → BridgePeer S C
  on_offer d result p = bridge_offered result (conn.set_remote d p.pc) p

  unfoldable pub peer_step : BridgePeer S C → PeerEvent C → BridgePeer S C
  peer_step p (candidate c target) = on_ice_candidate c target p
  peer_step p (offers d result) = on_offer d result p

  unfoldable pub peer_run : BridgePeer S C → List (PeerEvent C) → BridgePeer S C
  peer_run p [] = p
  peer_run p (e ∷ es) = peer_run (peer_step p e) es
