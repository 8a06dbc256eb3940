-- ===== src/Sxu/Router.antt =====
-- pkg/sxu/forward.go and pkg/sxu/proceed.go: the routers, which keep a watchdog for each track.
-- Both files have the same code over another item, so the model is written once, over `Item`.
-- A watchdog is shared by reference and shows here as the parameter it was given last; the map
-- holds structs by value.
pub mod Told
use dion.Prelude.{
  Bool, true, false, Option, none, some, List, [], ◌∷◌, ◌++◌, ◌≡◌, String, String-discrete, holds,
  if◌then◌else◌,
}
use dion.Prelude.GoMap.{GoMap, get, put, del}
use dion.Proto.{Ion, Message, ForwardTrack, ProceedTrack}
use dion.Util.Set.{Item, ReplaceTuple, Changes}
use dion.Util.Items.{forward_item, proceed_item}

-- What a watchdog was told by `Watch` and `Update`.
pub record Dog (A : Type 0) : Type 0 where
  pub param : A

-- `forwarding` and `proceeding`
pub record Forwarding (A : Type 0) : Type 0 where
  pub dog : Dog A
  pub track : A

-- `ForwardRouter` and `ProceedRouter`, with the watchdogs that were told to leave.
pub record Router (A : Type 0) : Type 0 where
  pub forwardings : GoMap String (Forwarding A)
  pub left : List (Dog A)

module _ {A : Type 0} where
  unfoldable pub new_router : Router A
  new_router = record { forwardings = []; left = [] }

module _ {A : Type 0} (item : Item A) where
  open item use {key, clone}

  -- The assignment to `proc.Track` changes the copy that was read from the map, so the entry keeps
  -- its track; the watchdog is told.
  unfoldable pub replace_track : A → A → Router A → Router A
  replace_track old_track new_track r =
      if holds (String-discrete (key old_track) (key new_track))
      then elim (get String-discrete (key old_track) r.forwardings) [
        | none ↦ r
        | some proc ↦ record r {
          forwardings =
              put String-discrete (key old_track)
                (record proc { dog = record { param = clone new_track } }) r.forwardings;
        }
      ]
      else r

  unfoldable pub start_track : A → Router A → Router A
  start_track track r = elim (get String-discrete (key track) r.forwardings) [
    | some proc ↦ replace_track proc.track track r
    | none ↦ record r {
      forwardings =
          put String-discrete (key track)
            (record { dog = record { param = clone track }; track = clone track }) r.forwardings;
    }
  ]

  unfoldable pub stop_track : A → Router A → Router A
  stop_track track r = elim (get String-discrete (key track) r.forwardings) [
    | some proc ↦ record {
      forwardings = del String-discrete (key track) r.forwardings;
      left = r.left ++ proc.dog ∷ [];
    }
    | none ↦ r
  ]

  -- The three loops of the syncer over the results of one `Update`.
  unfoldable pub stop_all : List A → Router A → Router A
  stop_all [] r = r
  stop_all (a ∷ rest) r = stop_all rest (stop_track a r)

  unfoldable pub replace_all : List (ReplaceTuple A) → Router A → Router A
  replace_all [] r = r
  replace_all (t ∷ rest) r = replace_all rest (replace_track t.old t.new r)

  unfoldable pub start_all : List A → Router A → Router A
  start_all [] r = r
  start_all (a ∷ rest) r = start_all rest (start_track a r)

  unfoldable pub perform : Changes A → Router A → Router A
  perform c r = start_all c.added (replace_all c.replaced (stop_all c.deleted r))

-- The methods of `ProceedRouter`, over their item.
module _ {ion : Ion} (m : Message (ProceedTrack ion)) where
  abbrev pub new_proceed_router : Router (ProceedTrack ion)
  new_proceed_router = new_router

  abbrev pub start_proceed_track :
      ProceedTrack ion → Router (ProceedTrack ion) → Router (ProceedTrack ion)
  start_proceed_track = start_track (proceed_item ion m)

  abbrev pub stop_proceed_track :
      ProceedTrack ion → Router (ProceedTrack ion) → Router (ProceedTrack ion)
  stop_proceed_track = stop_track (proceed_item ion m)

  abbrev pub replace_proceed_track :
      ProceedTrack ion → ProceedTrack ion → Router (ProceedTrack ion) → Router (ProceedTrack ion)
  replace_proceed_track = replace_track (proceed_item ion m)
