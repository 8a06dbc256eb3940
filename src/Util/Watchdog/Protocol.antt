-- ===== src/Util/Watchdog/Protocol.antt =====
-- How the watchdog's goroutine (util/watchdog.go) treats its doors.
use dion.Prelude.{
  Bool, true, false, Option, none, some, List, [], ◌∷◌, ◌++◌, ◌≡◌, ◌⊎◌, inl, inr, refl, ap, ◌∙◌,
  Bool-cases,
}
use dion.Util.Watchdog.{
  DoorCall, new_door, remove, remove_fake, lock, repair, update, Phase, idle, buying, locking,
  waiting, exited, WatchDog, Market, sold, closed, closed_with_fake, DogEvent, watches, updates,
  leaves, breaks, buys, locks, sees_leave, repairs, takes_update, new_watch_dog, call, retry, watch,
  buy, lock_door, see_leave, keep_or_remove, repair_door, update_door, dog_step, dog_run,
}

-- One door at a time: bought, locked, and then repaired, updated and locked again until removed.
pub data DoorState : Type 0 where
  no_door fresh locked : DoorState

unfoldable pub next : {P : Type 0} → DoorState → DoorCall P → Option DoorState
next no_door new_door = some fresh
next no_door remove_fake = some no_door
next no_door remove = none
next no_door (lock p) = none
next no_door (repair p) = none
next no_door (update p) = none
next fresh (lock p) = some locked
next fresh new_door = none
next fresh remove_fake = none
next fresh remove = none
next fresh (repair p) = none
next fresh (update p) = none
next locked (lock p) = some locked
next locked (repair p) = some locked
next locked (update p) = some locked
next locked remove = some no_door
next locked new_door = none
next locked remove_fake = none

-- The state of the door after the calls, or none if a call was out of place.
unfoldable pub door_after : {P : Type 0} → Option DoorState → List (DoorCall P) → Option DoorState
door_after none cs = none
door_after (some d) [] = some d
door_after (some d) (c ∷ cs) = door_after (next d c) cs

door_after-append :
    {P : Type 0} (o : Option DoorState) (cs : List (DoorCall P)) (c : DoorCall P)
    → door_after o (cs ++ c ∷ []) ≡ door_after (door_after o cs) (c ∷ [])
unfolding door_after
door_after-append none cs c = refl
door_after-append (some d) [] c = refl
door_after-append (some d) (b ∷ cs) c = door_after-append (next d b) cs c

-- The states of the door at a phase: there is none outside of a round.
abbrev pub Stands : Phase → Option DoorState → Type 0
Stands idle o = o ≡ some no_door
Stands buying o = o ≡ some no_door
Stands locking o = (o ≡ some fresh) ⊎ (o ≡ some locked)
Stands waiting o = o ≡ some locked
Stands exited o = o ≡ some no_door

module _ {P : Type 0} (clone : P → P) where
  abbrev pub door : WatchDog P → Option DoorState
  door w = door_after (some no_door) w.calls

  abbrev pub IsOrderly : WatchDog P → Type 0
  IsOrderly w = Stands w.phase (door w)

  door-call :
      (c : DoorCall P) (w : WatchDog P) (d e : DoorState)
      → door w ≡ some d
      → next d c ≡ some e
      → door (call clone c w) ≡ some e
  unfolding door_after
  door-call c w d e h n =
      door_after-append (some no_door) w.calls c
      ∙ ap (λ o. door_after o (c ∷ [])) h
      ∙ ap (λ o. door_after {P = P} o []) n

  retry-IsOrderly : (w : WatchDog P) → door w ≡ some no_door → IsOrderly (retry clone w)
  unfolding retry
  retry-IsOrderly w h = elim (Bool-cases w.cancelled) [ inl e ↦ rw e h | inr e ↦ rw e h ]

  watch-IsOrderly :
      (ph : Phase) (p : P) (w : WatchDog P)
      → w.phase ≡ ph
      → IsOrderly w
      → IsOrderly (watch clone ph p w)
  unfolding watch
  watch-IsOrderly idle p w e h = rw e at h
  watch-IsOrderly buying p w e h = h
  watch-IsOrderly locking p w e h = h
  watch-IsOrderly waiting p w e h = h
  watch-IsOrderly exited p w e h = h

  buy-IsOrderly :
      (ph : Phase) (r : Market) (w : WatchDog P)
      → w.phase ≡ ph
      → IsOrderly w
      → IsOrderly (buy clone ph r w)
  unfolding buy next
  buy-IsOrderly idle r w e h = h
  buy-IsOrderly buying sold w e h = inl (door-call new_door w no_door fresh (rw e at h) refl)
  buy-IsOrderly buying closed w e h = retry-IsOrderly w (rw e at h)
  buy-IsOrderly buying closed_with_fake w e h =
      retry-IsOrderly (call clone remove_fake w)
        (door-call remove_fake w no_door no_door (rw e at h) refl)
  buy-IsOrderly locking r w e h = h
  buy-IsOrderly waiting r w e h = h
  buy-IsOrderly exited r w e h = h

  locked_after :
      (p : P) (w : WatchDog P)
      → w.phase ≡ locking
      → IsOrderly w
      → door (call clone (lock p) w) ≡ some locked
  unfolding next
  locked_after p w e h = elim (rw e at h) [
    | inl d ↦ door-call (lock p) w fresh locked d refl
    | inr d ↦ door-call (lock p) w locked locked d refl
  ]

  lock_door-IsOrderly :
      (ph : Phase) (ok : Bool) (w : WatchDog P)
      → w.phase ≡ ph
      → IsOrderly w
      → IsOrderly (lock_door clone ph ok w)
  unfolding lock_door next
  lock_door-IsOrderly idle ok w e h = h
  lock_door-IsOrderly buying ok w e h = h
  lock_door-IsOrderly locking true w e h = locked_after (clone w.param) w e h
  lock_door-IsOrderly locking false w e h =
      let v = call clone (lock (clone w.param)) w in
      retry-IsOrderly (call clone remove v)
        (door-call remove v locked no_door (locked_after (clone w.param) w e h) refl)
  lock_door-IsOrderly waiting ok w e h = h
  lock_door-IsOrderly exited ok w e h = h

  see_leave-IsOrderly :
      (ph : Phase) (b : Bool) (w : WatchDog P)
      → w.phase ≡ ph
      → IsOrderly w
      → IsOrderly (see_leave clone ph b w)
  unfolding see_leave next
  see_leave-IsOrderly waiting true w e h = door-call remove w locked no_door (rw e at h) refl
  see_leave-IsOrderly waiting false w e h = h
  see_leave-IsOrderly idle b w e h = h
  see_leave-IsOrderly buying b w e h = h
  see_leave-IsOrderly locking b w e h = h
  see_leave-IsOrderly exited b w e h = h

  keep_or_remove-IsOrderly :
      (ok : Bool) (w : WatchDog P) → door w ≡ some locked → IsOrderly (keep_or_remove clone ok w)
  unfolding keep_or_remove next
  keep_or_remove-IsOrderly true w h = inr h
  keep_or_remove-IsOrderly false w h = door-call remove w locked no_door h refl

  repair_door-IsOrderly :
      (ph : Phase) (b ok : Bool) (w : WatchDog P)
      → w.phase ≡ ph
      → IsOrderly w
      → IsOrderly (repair_door clone ph b ok w)
  unfolding repair_door next
  repair_door-IsOrderly waiting true ok w e h =
      let v = record w { broken_ch = false } in
      keep_or_remove-IsOrderly ok (call clone (repair (clone w.param)) v)
        (door-call (repair (clone w.param)) v locked locked (rw e at h) refl)
  repair_door-IsOrderly waiting false ok w e h = h
  repair_door-IsOrderly idle b ok w e h = h
  repair_door-IsOrderly buying b ok w e h = h
  repair_door-IsOrderly locking b ok w e h = h
  repair_door-IsOrderly exited b ok w e h = h

  update_door-IsOrderly :
      (ph : Phase) (o : Option P) (ok : Bool) (w : WatchDog P)
      → w.phase ≡ ph
      → IsOrderly w
      → IsOrderly (update_door clone ph o ok w)
  unfolding update_door next
  update_door-IsOrderly waiting (some p) ok w e h =
      let v = record w { param = p; update_ch = none } in
      keep_or_remove-IsOrderly ok (call clone (update (clone p)) v)
        (door-call (update (clone p)) v locked locked (rw e at h) refl)
  update_door-IsOrderly waiting none ok w e h = h
  update_door-IsOrderly idle o ok w e h = h
  update_door-IsOrderly buying o ok w e h = h
  update_door-IsOrderly locking o ok w e h = h
  update_door-IsOrderly exited o ok w e h = h

  step-IsOrderly : (w : WatchDog P) (e : DogEvent P) → IsOrderly w → IsOrderly (dog_step clone w e)
  unfolding dog_step
  step-IsOrderly w (watches p) h = watch-IsOrderly w.phase p w refl h
  step-IsOrderly w (updates p) h = h
  step-IsOrderly w leaves h = h
  step-IsOrderly w breaks h = h
  step-IsOrderly w (buys r) h = buy-IsOrderly w.phase r w refl h
  step-IsOrderly w (locks ok) h = lock_door-IsOrderly w.phase ok w refl h
  step-IsOrderly w sees_leave h = see_leave-IsOrderly w.phase w.cancelled w refl h
  step-IsOrderly w (repairs ok) h = repair_door-IsOrderly w.phase w.broken_ch ok w refl h
  step-IsOrderly w (takes_update ok) h = update_door-IsOrderly w.phase w.update_ch ok w refl h

  run-IsOrderly :
      (w : WatchDog P) (es : List (DogEvent P)) → IsOrderly w → IsOrderly (dog_run clone w es)
  unfolding dog_run
  run-IsOrderly w [] h = h
  run-IsOrderly w (e ∷ es) h = run-IsOrderly (dog_step clone w e) es (step-IsOrderly w e h)

  -- However doors, callers and the choices of `select` behave: the calls of the watchdog buy one
  -- door at a time, lock it before they repair or update it, and remove it once; and while it has not
  -- started, buys, or has returned, every door that it bought is removed.
  pub dog_run-IsOrderly :
      (zero_value : P) (es : List (DogEvent P))
      → IsOrderly (dog_run clone (new_watch_dog clone zero_value) es)
  unfolding new_watch_dog door_after
  dog_run-IsOrderly zero_value es = run-IsOrderly (new_watch_dog clone zero_value) es refl
