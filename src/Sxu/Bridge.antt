-- ===== src/Sxu/Bridge.antt =====
-- pkg/sxu/bridge/bridge.go: `Update` and `Remove` of a bridge, which keeps an entrance for each source
-- session. The processor is a parameter: whether it takes a procedure. The methods have a value
-- receiver: the map of entrances is shared, and what is assigned to a field is lost.
pub mod Entrances
use dion.Prelude.{
  Bool, true, false, Option, none, some, List, [], ◌∷◌, ◌++◌, String, String-discrete, holds,
  if◌then◌else◌, is_some,
}
use dion.Prelude.GoMap.{GoMap, get, put, keys}
use dion.Proto.{Ion, Message, ProceedTrack}

-- `Bridge`, with the sessions whose entrances were told to leave. An entrance is a watchdog.
pub record Bridge (ion : Ion) : Type 0 where
  pub track : Option (ProceedTrack ion)
  pub entrances : GoMap String (Unit {0})
  pub left : List String

-- `if _, ok := b.entrances[sid]; !ok`, over the source sessions.
unfoldable pub create_missing : List String → GoMap String (Unit {0}) → GoMap String (Unit {0})
create_missing [] m = m
create_missing (sid ∷ rest) m =
    create_missing rest
      (if is_some (get String-discrete sid m) then m else put String-discrete sid tt m)

-- `sidSet`
unfoldable pub sid_set : List String → GoMap String Bool → GoMap String Bool
sid_set [] m = m
sid_set (sid ∷ rest) m = sid_set rest (put String-discrete sid true m)

-- The loop that removes entrances, with those that leave.
unfoldable pub remove_deprecated :
    GoMap String Bool → GoMap String (Unit {0}) → GoMap String (Unit {0}) × List String
remove_deprecated set [] = ([], [])
remove_deprecated set ((sid, e) ∷ rest) =
    let (kept, gone) = remove_deprecated set rest in
    if is_some (get String-discrete sid set) then ((sid, e) ∷ kept, gone) else (kept, sid ∷ gone)

module _ {ion : Ion} (message : Message (ProceedTrack ion))
    (update_procedure : ProceedTrack ion → Bool) where
  unfoldable pub new_bridge : Bridge ion
  new_bridge = record { track = none; entrances = []; left = [] }

  -- The check of the session, which `b.track != nil` guards.
  unfoldable pub other_session : Option (ProceedTrack ion) → ProceedTrack ion → Bool
  other_session none track = false
  other_session (some old) track =
      if holds (String-discrete old.dst_session_id track.dst_session_id) then false else true

  unfoldable pub update_entrances : List String → Bridge ion → Bridge ion
  update_entrances sids b =
      let (kept, gone) = remove_deprecated (sid_set sids []) (create_missing sids b.entrances) in
      record b { entrances = kept; left = b.left ++ gone }

  -- The first component is false where an error is returned.
  unfoldable pub update_bridge : ProceedTrack ion → Bridge ion → Bool × Bridge ion
  update_bridge param b =
      let track = message.clone param in
      if other_session b.track track
      then (false, b)
      else (if update_procedure track
          then (true, update_entrances track.src_session_id_list b)
          else (false, b))

  unfoldable pub remove_bridge : Bridge ion → Bridge ion
  remove_bridge b = record b { entrances = []; left = b.left ++ keys b.entrances }

  unfoldable pub update_bridges : List (ProceedTrack ion) → Bridge ion → Bridge ion
  update_bridges [] b = b
  update_bridges (param ∷ rest) b = update_bridges rest (update_bridge param b).1
