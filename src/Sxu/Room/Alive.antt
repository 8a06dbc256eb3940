-- ===== src/Sxu/Room/Alive.antt =====
-- The events of the room service (pkg/sxu/room/service.go) and the sessions that it keeps.
use dion.Prelude.{
  false, List, [], ◌∷◌, ◌++◌, ◌≡◌, refl, sym, ap, ◌∙◌, subst, arith, String, String-discrete,
}
use dion.Prelude.GoMap.{get}
use dion.Proto.{ClientNeededSession}
use dion.Sxu.Syncer.{session_add}
use dion.Util.Timer.{
  ExpireSetMap, TimerEvent, updates, expires, takes, deletes, new_expire_set_map, reset_or_new,
  find, handle_update, timer_case,
}
use dion.Util.Timer.Find.{find-store}
use dion.Util.Timer.Expiry.{IsKept, timer_case-IsKept, timer_step-case, new_expire_set_map-IsKept}
use dion.Sxu.Room.{RoomService, new_room_service, removals, set_step, announce, room_step, room_run}
use dion.Sxu.Room.Told.{
  RoomCall, health, expires_call, takes_call, deletes_call, room_events, replay, replay-append,
  alive, TellsOf, expire_timer-told, take_timer-told, take_delete-told,
}

-- The events say which sessions the map has, and the map is as `Util.Timer` keeps it.
pub record IsTold (r : RoomService) : Type 0 where
  pub kept : IsKept String-discrete String-discrete r.set
  pub told : (u s : String) → replay u s false r.event_ch ≡ alive u s r.set

-- The map before a step, whose calls of the handler are counted from nothing.
abbrev cleared : RoomService → ExpireSetMap String String
cleared r = record r.set { deleted = [] }

cleared-IsKept : (r : RoomService) → IsTold r → IsKept String-discrete String-discrete (cleared r)
cleared-IsKept r i = record { sound = i.kept.sound; told = i.kept.told; runs = i.kept.runs }

-- A step by which the removals tell what is gone.
removals-IsTold :
    (new : ExpireSetMap String String) (r : RoomService)
    → IsKept String-discrete String-discrete new
    → TellsOf (cleared r) new
    → IsTold r
    → IsTold (record { set = new; event_ch = r.event_ch ++ removals new.deleted })
removals-IsTold new r k t i = record {
  kept = k;
  told = λ u s.
      replay-append u s false r.event_ch (removals new.deleted)
      ∙ ap (λ b. replay u s b (removals new.deleted)) (i.told u s)
      ∙ t u s;
}

set_step-IsTold :
    (e : TimerEvent String String) (r : RoomService)
    → TellsOf (cleared r) (timer_case String-discrete String-discrete e (cleared r))
    → IsTold r
    → IsTold (set_step e r)
unfolding set_step
set_step-IsTold e r t i =
    subst (λ new. IsTold (record { set = new; event_ch = r.event_ch ++ removals new.deleted }))
      (sym (timer_step-case String-discrete String-discrete (cleared r) e i.kept.runs))
      (removals-IsTold (timer_case String-discrete String-discrete e (cleared r)) r
        (timer_case-IsKept String-discrete String-discrete e (cleared r) (cleared-IsKept r i)) t i)

-- A session that was touched and announced.
announced :
    (c : ClientNeededSession) (r : RoomService)
    → IsTold r
    → IsTold (
        announce c (record {
          set = handle_update String-discrete String-discrete c.user c.session (cleared r);
          event_ch = r.event_ch ++ [];
        }))
unfolding announce handle_update replay timer_case
announced c r i = record {
  kept =
      timer_case-IsKept String-discrete String-discrete (updates c.user c.session) (cleared r)
        (cleared-IsKept r i);
  told = λ u s. ground (
    arith,
    i.told u s,
    replay-append u s false (r.event_ch ++ []) (record { session = c; state = session_add } ∷ []),
    replay-append u s false r.event_ch [],
    find-store String-discrete String-discrete u c.user s c.session
        (reset_or_new (find String-discrete String-discrete c.user c.session r.set.m)) r.set.m,
  );
}

health-IsTold :
    (c : ClientNeededSession) (r : RoomService)
    → IsTold r
    → IsTold (announce c (set_step (updates c.user c.session) r))
unfolding set_step timer_case handle_update removals
health-IsTold c r i =
    subst
      (λ new.
        IsTold (announce c (record { set = new; event_ch = r.event_ch ++ removals new.deleted })))
      (sym (
        timer_step-case String-discrete String-discrete (cleared r) (updates c.user c.session)
          i.kept.runs))
      (announced c r i)

calls-IsTold :
    (r : RoomService) (calls : List RoomCall) → IsTold r → IsTold (room_run r (room_events calls))
unfolding room_run room_events room_step timer_case
calls-IsTold r [] i = i
calls-IsTold r (health c ∷ rest) i =
    calls-IsTold (announce c (set_step (updates c.user c.session) r)) rest (health-IsTold c r i)
calls-IsTold r (expires_call u s ∷ rest) i = calls-IsTold (set_step (expires u s) r) rest (
    set_step-IsTold (expires u s) r
      (expire_timer-told (find String-discrete String-discrete u s r.set.m) u s (cleared r) refl
        refl)
      i)
calls-IsTold r (takes_call u s ∷ rest) i = calls-IsTold (set_step (takes u s) r) rest (
    set_step-IsTold (takes u s) r
      (take_timer-told (find String-discrete String-discrete u s r.set.m) u s (cleared r) refl refl)
      i)
calls-IsTold r (deletes_call ∷ rest) i =
    calls-IsTold (set_step deletes r) rest
      (set_step-IsTold deletes r (take_delete-told r.set.delete_ch (cleared r) refl i.kept.told) i)

new_room_service-IsTold : IsTold new_room_service
unfolding new_room_service new_expire_set_map replay find get
new_room_service-IsTold = record {
  kept = new_expire_set_map-IsKept String-discrete String-discrete;
  told = λ u s. refl;
}

-- Where nothing comes between the two halves of a call of `ClientHealth`: in every state that the
-- room service reaches, a session of a user is one that the events add and do not remove after
-- that, exactly if the map has it.
pub room_run-alive :
    (calls : List RoomCall) (user session : String)
    → replay user session false (room_run new_room_service (room_events calls)).event_ch
      ≡ alive user session (room_run new_room_service (room_events calls)).set
room_run-alive calls user session =
    (calls-IsTold new_room_service calls new_room_service-IsTold).told user session
