-- ===== src/Sxu/Peer/Handed.antt =====
-- The candidates of a bridge's subscriber (pkg/sxu/bridge/common.go).
use mathlib.Core.List.{append-nil}
use dion.Prelude.{false, List, [], ◌∷◌, ◌++◌, ◌≡◌, sym, subst}
use dion.Sfu.Messages.{publisher, subscriber}
use dion.Sfu.Candidates.{PeerConnection}
use dion.Sxu.Peer.{BridgePeer, PeerEvent, candidate, offers}

-- The candidate of a call, if it is for a subscriber.
abbrev pub candidate_from : {C : Type 0} → PeerEvent C → List C
candidate_from (candidate c publisher) = []
candidate_from (candidate c subscriber) = c ∷ []
candidate_from (offers d result) = []

unfoldable pub candidates_from : {C : Type 0} → List (PeerEvent C) → List C
candidates_from [] = []
candidates_from (e ∷ es) = candidate_from e ++ candidates_from es

module _ {S C : Type 0} (conn : PeerConnection S C) where
  -- Unless it is broken, the connection was given what came, in order, but for what is stored.
  abbrev pub IsHanded : BridgePeer S C → List C → Type 0
  IsHanded p seen = p.broken ≡ false → p.added ++ p.pc_cand ≡ seen

  -- What the loop gives to the connection, unless it breaks.
  abbrev Gives : List C → BridgePeer S C → BridgePeer S C → Type 0
  Gives cs p v =
      v.broken ≡ false → (p.broken ≡ false) × (v.added ≡ p.added ++ cs) × (v.pc_cand ≡ p.pc_cand)

  unchanged : (p : BridgePeer S C) (seen : List C) → IsHanded p seen → IsHanded p (seen ++ [])
  unchanged p seen h = subst (IsHanded p) (sym (append-nil seen)) h
