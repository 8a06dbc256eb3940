-- ===== src/Sxu/Room/Told.antt =====
-- What the events of the room service tell (pkg/sxu/room/service.go), step by step of the map.
use dion.Prelude.{
  Bool, true, false, Option, none, some, List, [], ◌∷◌, ◌++◌, ◌≡◌, refl, arith, String,
  String-discrete, is_some, if◌then◌else◌,
}
use dion.Prelude.GoMap.{GoMap, get, del}
use dion.Proto.{ClientNeededSession}
use dion.Sxu.Syncer.{SessionEvent, SessionState, session_add, session_remove, session_other}
use dion.Util.Timer.{
  Timer, OnDeleted, unset, empty, handler, ExpireSetMap, expire, is_due, taken, find, store,
  keep_set, tell, delete_from, handle_delete, expire_timer, take_timer, take_delete,
}
use dion.Util.Timer.Find.{same, find-store, find-keep_set}
use dion.Sxu.Room.{
  RoomEvent, touches, announces, expires_session, takes_session, deletes_session, removals,
}

-- What happens to the service, with a call of `ClientHealth` at once.
pub data RoomCall : Type 0 where
  health : ClientNeededSession → RoomCall
  expires_call takes_call : String → String → RoomCall
  deletes_call : RoomCall

unfoldable pub room_events : List RoomCall → List RoomEvent
room_events [] = []
room_events (health s ∷ rest) = touches s ∷ announces s ∷ room_events rest
room_events (expires_call u s ∷ rest) = expires_session u s ∷ room_events rest
room_events (takes_call u s ∷ rest) = takes_session u s ∷ room_events rest
room_events (deletes_call ∷ rest) = deletes_session ∷ room_events rest

abbrev pub is_add : SessionState → Bool
is_add session_add = true
is_add session_remove = false
is_add (session_other n) = false

-- Whether a session was added last, from the events and from what was so before them.
unfoldable pub replay : String → String → Bool → List SessionEvent → Bool
replay u s b [] = b
replay u s b (e ∷ es) =
    replay u s
      (if same String-discrete String-discrete e.session.user e.session.session u s
        then is_add e.state
        else b)
      es

pub replay-append :
    (u s : String) (b : Bool) (xs ys : List SessionEvent)
    → replay u s b (xs ++ ys) ≡ replay u s (replay u s b xs) ys
unfolding replay
replay-append u s b [] ys = refl
replay-append u s b (e ∷ xs) ys =
    replay-append u s
      (if same String-discrete String-discrete e.session.user e.session.session u s
        then is_add e.state
        else b)
      xs ys

-- Whether the map has a session.
abbrev pub alive : String → String → ExpireSetMap String String → Bool
alive u s set = is_some (find String-discrete String-discrete u s set.m)

-- The removals of a step of the map say which of its sessions are gone.
abbrev pub TellsOf : ExpireSetMap String String → ExpireSetMap String String → Type 0
TellsOf old new = (u s : String) → replay u s (alive u s old) (removals new.deleted) ≡ alive u s new

pub expire_timer-told :
    (o : Option Timer) (k v : String) (set : ExpireSetMap String String)
    → find String-discrete String-discrete k v set.m ≡ o
    → set.deleted ≡ []
    → TellsOf set (expire_timer String-discrete String-discrete o k v set)
unfolding removals replay
expire_timer-told none k v set e d u s = ground arith
expire_timer-told (some t) k v set e d u s =
    ground (arith, find-store String-discrete String-discrete u k s v (expire t) set.m)

pub take_timer-told :
    (o : Option Timer) (k v : String) (set : ExpireSetMap String String)
    → find String-discrete String-discrete k v set.m ≡ o
    → set.deleted ≡ []
    → TellsOf set (take_timer String-discrete String-discrete o k v set)
unfolding removals replay
take_timer-told none k v set e d u s = ground arith
take_timer-told (some t) k v set e d u s = due-told (is_due t)
  where
    due-told :
        (b : Bool)
        → let new =
            if b
            then record set {
              m = store String-discrete String-discrete k v (taken t) set.m;
              delete_ch = set.delete_ch ++ (k, v) ∷ [];
            }
            else set in
          replay u s (alive u s set) (removals new.deleted) ≡ alive u s new
    due-told true =
        ground (arith, find-store String-discrete String-discrete u k s v (taken t) set.m)
    due-told false = ground arith

pub delete_from-told :
    (o : Option (GoMap String Timer)) (k v : String) (rest : List (String × String))
    (set : ExpireSetMap String String)
    → get String-discrete k set.m ≡ o
    → set.deleted ≡ []
    → set.on_deleted ≡ handler
    → TellsOf set
        (delete_from String-discrete String-discrete o k v (record set { delete_ch = rest }))
unfolding removals replay
delete_from-told none k v rest set e d h u s = ground arith
delete_from-told (some inner) k v rest set e d h u s = told set.on_deleted h
  where
    told :
        (o : OnDeleted)
        → o ≡ handler
        → let new = tell String-discrete String-discrete o k v (record set {
          m = keep_set String-discrete String-discrete k (del String-discrete v inner) set.m;
          delete_ch = rest;
        }) in
          replay u s (alive u s set) (removals new.deleted) ≡ alive u s new
    told unset q = absurd (cc)
    told empty q = absurd (cc)
    told handler q = ground (
      arith,
      find-keep_set String-discrete String-discrete u k s v inner (del String-discrete v inner)
          set.m e refl,
    )

pub take_delete-told :
    (ch : List (String × String)) (set : ExpireSetMap String String)
    → set.deleted ≡ []
    → set.on_deleted ≡ handler
    → TellsOf set (take_delete String-discrete String-discrete ch set)
unfolding removals replay handle_delete
take_delete-told [] set d h u s = ground arith
take_delete-told ((k, v) ∷ rest) set d h u s =
    delete_from-told (get String-discrete k set.m) k v rest set refl d h u s
