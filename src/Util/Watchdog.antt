-- ===== src/Util/Watchdog.antt =====
-- util/watchdog.go: `WatchDogWithUnblockedDoor`, the goroutine that buys, locks, repairs and removes
-- doors. What a door answers, and which case of a `select` is taken, comes with the event; the calls
-- that the goroutine makes are written down, oldest first.
pub mod Protocol
use dion.Prelude.{Bool, true, false, Option, none, some, List, [], ◌∷◌, ◌++◌, if◌then◌else◌}

-- The calls of `House` and `UnblockedDoor`. `remove_fake` is a `Remove` of a door that came with an
-- error.
pub data DoorCall (P : Type 0) : Type 0 where
  new_door remove remove_fake : DoorCall P
  lock repair update : P → DoorCall P

-- Where `watch` stands: not started, before `NewDoor`, before `Lock`, at the last `select`, returned.
pub data Phase : Type 0 where
  idle buying locking waiting exited : Phase

-- `WatchDogWithUnblockedDoor`, with the variables of `watch`: the two channels of capacity 1, and
-- whether the context is done.
pub record WatchDog (P : Type 0) : Type 0 where
  pub phase : Phase
  pub param : P
  pub update_ch : Option P
  pub broken_ch : Bool
  pub cancelled : Bool
  pub calls : List (DoorCall P)

-- What `NewDoor` answers.
pub data Market : Type 0 where
  sold closed closed_with_fake : Market

-- The first four come from outside; the others are the goroutine's own steps, with the answers.
pub data DogEvent (P : Type 0) : Type 0 where
  watches updates : P → DogEvent P
  leaves breaks : DogEvent P
  buys : Market → DogEvent P
  locks : Bool → DogEvent P
  sees_leave : DogEvent P
  repairs takes_update : Bool → DogEvent P

module _ {P : Type 0} (clone : P → P) where
  unfoldable pub new_watch_dog : P → WatchDog P
  new_watch_dog zero_value = record {
    phase = idle;
    param = zero_value;
    update_ch = none;
    broken_ch = false;
    cancelled = false;
    calls = [];
  }

  abbrev pub call : DoorCall P → WatchDog P → WatchDog P
  call c w = record w { calls = w.calls ++ c ∷ [] }

  -- `select` on the context alone: return, or the next round with no door.
  unfoldable pub retry : WatchDog P → WatchDog P
  retry w = record w { phase = if w.cancelled then exited else buying }

  -- `once` lets only the first `Watch` start the goroutine.
  unfoldable pub watch : Phase → P → WatchDog P → WatchDog P
  watch idle p w = record w { param = clone p; phase = buying }
  watch buying p w = record w { param = clone p }
  watch locking p w = record w { param = clone p }
  watch waiting p w = record w { param = clone p }
  watch exited p w = record w { param = clone p }

  unfoldable pub buy : Phase → Market → WatchDog P → WatchDog P
  buy idle r w = w
  buy buying sold w = record (call new_door w) { phase = locking }
  buy buying closed w = retry w
  buy buying closed_with_fake w = retry (call remove_fake w)
  buy locking r w = w
  buy waiting r w = w
  buy exited r w = w

  unfoldable pub lock_door : Phase → Bool → WatchDog P → WatchDog P
  lock_door idle ok w = w
  lock_door buying ok w = w
  lock_door locking true w = record (call (lock (clone w.param)) w) { phase = waiting }
  lock_door locking false w = retry (call remove (call (lock (clone w.param)) w))
  lock_door waiting ok w = w
  lock_door exited ok w = w

  -- The three cases of the last `select`, each for a channel that is ready.
  unfoldable pub see_leave : Phase → Bool → WatchDog P → WatchDog P
  see_leave waiting true w = record (call remove w) { phase = exited }
  see_leave waiting false w = w
  see_leave idle b w = w
  see_leave buying b w = w
  see_leave locking b w = w
  see_leave exited b w = w

  -- After a door's answer in the last `select`: the next round, with the door or without it.
  unfoldable pub keep_or_remove : Bool → WatchDog P → WatchDog P
  keep_or_remove true w = record w { phase = locking }
  keep_or_remove false w = record (call remove w) { phase = buying }

  unfoldable pub repair_door : Phase → Bool → Bool → WatchDog P → WatchDog P
  repair_door waiting true ok w =
      keep_or_remove ok (call (repair (clone w.param)) (record w { broken_ch = false }))
  repair_door waiting false ok w = w
  repair_door idle b ok w = w
  repair_door buying b ok w = w
  repair_door locking b ok w = w
  repair_door exited b ok w = w

  unfoldable pub update_door : Phase → Option P → Bool → WatchDog P → WatchDog P
  update_door waiting (some p) ok w =
      keep_or_remove ok (call (update (clone p)) (record w { param = p; update_ch = none }))
  update_door waiting none ok w = w
  update_door idle o ok w = w
  update_door buying o ok w = w
  update_door locking o ok w = w
  update_door exited o ok w = w

  -- `Update` replaces a parameter that still waits; `OnBroken` is dropped if one waits.
  unfoldable pub dog_step : WatchDog P → DogEvent P → WatchDog P
  dog_step w (watches p) = watch w.phase p w
  dog_step w (updates p) = record w { update_ch = some (clone p) }
  dog_step w leaves = record w { cancelled = true }
  dog_step w breaks = record w { broken_ch = true }
  dog_step w (buys r) = buy w.phase r w
  dog_step w (locks ok) = lock_door w.phase ok w
  dog_step w sees_leave = see_leave w.phase w.cancelled w
  dog_step w (repairs ok) = repair_door w.phase w.broken_ch ok w
  dog_step w (takes_update ok) = update_door w.phase w.update_ch ok w

  unfoldable pub dog_run : WatchDog P → List (DogEvent P) → WatchDog P
  dog_run w [] = w
  dog_run w (e ∷ es) = dog_run (dog_step w e) es
