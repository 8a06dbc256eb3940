-- ===== src/Algorithms/Stupid/Added.antt =====
-- What the stupid algorithm (algorithms/impl/stupid.go) asks for, and that it then rests.
use dion.Prelude.{true, ◌||◌, List, [], ◌∷◌, ◌++◌, ◌≡◌, refl, arith, Bool-cases, inl, inr, All}
use dion.Proto.{Ion, ForwardTrack, SfuStatus}
use dion.Algorithms.Stupid.{
  service_stupid, service_name_stupid, service_session_stupid, is_stupid, has_stupid, add_stupid,
  update_sfu_status,
}

module _ {ion : Ion} (stupid_node : ion.Node) where
  has_stupid-append :
      (xs ys : List (ForwardTrack ion))
      → has_stupid stupid_node (xs ++ ys) ≡ has_stupid stupid_node xs || has_stupid stupid_node ys
  unfolding has_stupid
  has_stupid-append [] ys = refl
  has_stupid-append (x ∷ xs) ys = ground (arith, has_stupid-append xs ys)

  module _ (named : ion.nid stupid_node ≡ service_name_stupid)
      (served : ion.service stupid_node ≡ service_stupid) where
    added :
        (n : SfuStatus ion)
        → has_stupid stupid_node (add_stupid stupid_node n).forward_tracks ≡ true
    unfolding add_stupid has_stupid is_stupid
    added n = elim (Bool-cases (has_stupid stupid_node n.forward_tracks)) [
      | inl e ↦ ground arith
      | inr e ↦
          let track : ForwardTrack ion = record {
            src = stupid_node;
            remote_session_id = service_session_stupid;
            local_session_id = service_session_stupid;
            tracks = [];
          } in
          ground (arith, has_stupid-append n.forward_tracks (track ∷ []), named, served)
    ]

    rests :
        (n : SfuStatus ion)
        → has_stupid stupid_node n.forward_tracks ≡ true
        → add_stupid stupid_node n ≡ n
    unfolding add_stupid
    rests n h = rw h refl

    -- For a node with the names of the stupid service: every status that the algorithm wants has the
    -- test stream, and it wants nothing more of statuses that are as it wants them.
    pub update_sfu_status_twice :
        (list : List (SfuStatus ion))
        → All
            (λ n. has_stupid stupid_node n.forward_tracks ≡ true)
            (update_sfu_status stupid_node list)
          × (update_sfu_status stupid_node (update_sfu_status stupid_node list)
              ≡ update_sfu_status stupid_node list)
    unfolding update_sfu_status
    update_sfu_status_twice [] = (tt, refl)
    update_sfu_status_twice (n ∷ rest) =
        let (h, e) = update_sfu_status_twice rest in
        ((added n, h), ground (arith, rests (add_stupid stupid_node n) (added n), e))
