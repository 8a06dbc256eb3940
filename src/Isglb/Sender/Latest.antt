-- ===== src/Isglb/Sender/Latest.antt =====
-- The latest status of a node is never lost by `routineSFUStatusSend` (pkg/isglb/service.go).
use dion.Prelude.{
  Option, none, some, List, [], ◌∷◌, ◌++◌, ◌≡◌, refl, ◌∙◌, arith, String, String-discrete, holds,
  if◌then◌else◌,
}
use dion.Prelude.GoMap.{get, get-put}
use dion.Util.Set.{Item}
use dion.Util.Set.Index.{last_with}
use dion.Isglb.Sender.{
  Sender, SendEvent, takes, hands, new_sender, take_latest, hand_over, send_step, send_run,
}

module _ {S : Type 0} (item : Item S) where
  open item use {key}

  -- The status that waits for a node, or else the last one that was handed over for it.
  abbrev newest : Option (Option S) → Option S → Option S
  newest none o = o
  newest (some none) o = o
  newest (some (some s)) o = some s

  abbrev pub reached : Sender S → String → Option S
  reached w k = newest (get String-discrete k w.latest_status_chs) (last_with item k w.handed)

  -- The statuses of the events, oldest first, after those before.
  unfoldable pub taken : List S → List (SendEvent S) → List S
  taken before [] = before
  taken before (takes s ∷ es) = taken (before ++ s ∷ []) es
  taken before (hands nid ∷ es) = taken before es

  last_with-append :
      (k : String) (list : List S) (s : S)
      → last_with item k (list ++ s ∷ [])
        ≡ (if holds (String-discrete (key s) k) then some s else last_with item k list)
  unfolding last_with
  last_with-append k [] s = ground arith
  last_with-append k (a ∷ rest) s = ground (arith, last_with-append k rest s)

  -- A status that waits for a node is the node's.
  abbrev IsSorted : Sender S → Type 0
  IsSorted w =
      (k : String) (s : S) → get String-discrete k w.latest_status_chs ≡ some (some s) → key s ≡ k

  take_latest-reached :
      (s : S) (w : Sender S) (k : String)
      → reached (take_latest item s w) k
        ≡ (if holds (String-discrete (key s) k) then some s else reached w k)
  unfolding take_latest
  take_latest-reached s w k =
      ground (arith, get-put String-discrete k (key s) (some s) w.latest_status_chs)

  take_latest-IsSorted : (s : S) (w : Sender S) → IsSorted w → IsSorted (take_latest item s w)
  unfolding take_latest
  take_latest-IsSorted s w h k t e =
      ground (arith, get-put String-discrete k (key s) (some s) w.latest_status_chs, h k t)

  hand_over-reached :
      (o : Option (Option S)) (nid : String) (w : Sender S) (k : String)
      → get String-discrete nid w.latest_status_chs ≡ o
      → IsSorted w
      → reached (hand_over item o nid w) k ≡ reached w k
  unfolding hand_over
  hand_over-reached none nid w k e h = refl
  hand_over-reached (some none) nid w k e h = refl
  hand_over-reached (some (some s)) nid w k e h = ground (
    arith,
    get-put String-discrete k nid none w.latest_status_chs,
    last_with-append k w.handed s,
    h nid s e,
  )

  hand_over-IsSorted :
      (o : Option (Option S)) (nid : String) (w : Sender S)
      → IsSorted w
      → IsSorted (hand_over item o nid w)
  unfolding hand_over
  hand_over-IsSorted none nid w h k t e = h k t e
  hand_over-IsSorted (some none) nid w h k t e = h k t e
  hand_over-IsSorted (some (some s)) nid w h k t e =
      ground (arith, get-put String-discrete k nid none w.latest_status_chs, h k t)

  run-reached :
      (es : List (SendEvent S)) (w : Sender S) (before : List S) (k : String)
      → IsSorted w
      → reached w k ≡ last_with item k before
      → reached (send_run item w es) k ≡ last_with item k (taken before es)
  unfolding send_run send_step taken
  run-reached [] w before k h e = e
  run-reached (takes s ∷ es) w before k h e =
      run-reached es (take_latest item s w) (before ++ s ∷ []) k (take_latest-IsSorted s w h)
        (ground (arith, take_latest-reached s w k, last_with-append k before s, e))
  run-reached (hands nid ∷ es) w before k h e =
      run-reached es (hand_over item (get String-discrete nid w.latest_status_chs) nid w) before k
        (hand_over-IsSorted (get String-discrete nid w.latest_status_chs) nid w h)
        (hand_over-reached (get String-discrete nid w.latest_status_chs) nid w k refl h ∙ e)

  -- After any events, the last status that was taken for a node waits to be sent to it, or nothing
  -- waits and it is the last one that was handed over for the node.
  pub send_run-reached :
      (es : List (SendEvent S)) (k : String)
      → reached (send_run item (new_sender item) es) k ≡ last_with item k (taken [] es)
  unfolding new_sender get last_with
  send_run-reached es k = run-reached es (new_sender item) [] k (λ j s e. absurd (cc)) refl
