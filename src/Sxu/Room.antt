-- ===== src/Sxu/Room.antt =====
-- pkg/sxu/room/service.go: the sessions of the clients that say that they are alive, and the events
-- that `FetchSessionEvent` takes, in the order in which they are pushed. `ClientHealth` is two
-- steps, between which other things may happen.
pub mod Told
pub mod Alive
use dion.Prelude.{Bool, true, false, List, [], ◌∷◌, ◌++◌, String, String-discrete}
use dion.Proto.{ClientNeededSession}
use dion.Sxu.Syncer.{SessionEvent, session_add, session_remove}
use dion.Util.Timer.{
  handler, ExpireSetMap, TimerEvent, updates, expires, takes, deletes, new_expire_set_map,
  timer_step,
}

pub record RoomService : Type 0 where
  pub set : ExpireSetMap String String
  pub event_ch : List SessionEvent

-- `touches` and `announces` are the two halves of `ClientHealth`; the others are those of the map.
pub data RoomEvent : Type 0 where
  touches announces : ClientNeededSession → RoomEvent
  expires_session takes_session : String → String → RoomEvent
  deletes_session : RoomEvent

-- `NewService`, whose map has a handler.
unfoldable pub new_room_service : RoomService
new_room_service = record { set = new_expire_set_map handler; event_ch = [] }

-- The handler of `NewService`, for each of its calls.
unfoldable pub removals : List (String × String) → List SessionEvent
removals [] = []
removals ((user, session) ∷ rest) =
    record { session = record { session = session; user = user }; state = session_remove }
    ∷ removals rest

-- A step of the map, with the calls of the handler that it makes.
unfoldable pub set_step : TimerEvent String String → RoomService → RoomService
set_step e r =
    let s = timer_step String-discrete String-discrete (record r.set { deleted = [] }) e in
    record { set = s; event_ch = r.event_ch ++ removals s.deleted }

unfoldable pub announce : ClientNeededSession → RoomService → RoomService
announce session r = record r {
  event_ch = r.event_ch ++ record { session = session; state = session_add } ∷ [];
}

unfoldable pub room_step : RoomService → RoomEvent → RoomService
room_step r (touches session) = set_step (updates session.user session.session) r
room_step r (announces session) = announce session r
room_step r (expires_session user session) = set_step (expires user session) r
room_step r (takes_session user session) = set_step (takes user session) r
room_step r deletes_session = set_step deletes r

unfoldable pub room_run : RoomService → List RoomEvent → RoomService
room_run r [] = r
room_run r (e ∷ es) = room_run (room_step r e) es
