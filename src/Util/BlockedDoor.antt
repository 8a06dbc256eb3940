-- ===== src/Util/BlockedDoor.antt =====
-- util/blockeddoor.go: `WatchDogWithBlockedDoor` and its `routine`. As in Util/Watchdog, answers and
-- choices come with the event. The methods of the watchdog have a value receiver, so that what they
-- assign to its fields is lost when they return; contexts are numbers.
pub mod Contexts
pub mod Updates
use dion.Prelude.{
  Bool, true, false, Option, none, some, List, [], ◌∷◌, ◌++◌, ℕ, ◌+◌, ℕ_discrete, is_some,
  if◌then◌else◌,
}
use dion.Prelude.GoMap.{GoMap, get, put}

-- The value: its context stands for `ctx` and `cancel`.
pub record BlockedDog : Type 0 where
  pub ctx : ℕ

-- The contexts that are done, the first context not yet made, the routines with their parameter and
-- context, and `updateCh`.
pub record Kennel (P : Type 0) : Type 0 where
  pub done : GoMap ℕ (Unit {0})
  pub fresh_ctx : ℕ
  pub routines : List (P × ℕ)
  pub update_ch : Option P

pub data DogCall (P : Type 0) : Type 0 where
  watch_call update_call : P → DogCall P
  leave_call : DogCall P

module _ {P : Type 0} (clone : P → P) where
  -- `NewWatchDogWithBlockedDoor`: the first context is cancelled at once.
  unfoldable pub new_blocked_dog : BlockedDog × Kennel P
  new_blocked_dog = (
    record { ctx = 0 },
    record { done = (0, tt) ∷ []; fresh_ctx = 1; routines = []; update_ch = none },
  )

  unfoldable pub watch_blocked : BlockedDog → P → Kennel P → Kennel P
  watch_blocked u p k =
      if is_some (get ℕ_discrete u.ctx k.done)
      then record k { fresh_ctx = k.fresh_ctx + 1; routines = (clone p, k.fresh_ctx) ∷ k.routines }
      else k

  unfoldable pub update_blocked : BlockedDog → P → Kennel P → Kennel P
  update_blocked u p k = record k { update_ch = some (clone p) }

  unfoldable pub leave_blocked : BlockedDog → Kennel P → Kennel P
  leave_blocked u k = record k { done = put ℕ_discrete u.ctx tt k.done }

  unfoldable pub dog_call : BlockedDog → Kennel P → DogCall P → Kennel P
  dog_call u k (watch_call p) = watch_blocked u p k
  dog_call u k (update_call p) = update_blocked u p k
  dog_call u k leave_call = leave_blocked u k

  unfoldable pub dog_calls : BlockedDog → Kennel P → List (DogCall P) → Kennel P
  dog_calls u k [] = k
  dog_calls u k (c ∷ cs) = dog_calls u (dog_call u k c) cs

-- Where `routine` stands: at the first `select`, before `NewDoor`, in the inner loop, returned.
pub data RoutinePhase : Type 0 where
  checking opening serving returned : RoutinePhase

-- The variables of `routine`, its channels, and the parameter that the door works with: that of
-- `BLock`, or of the last `Update` that it took.
pub record Routine (P : Type 0) : Type 0 where
  pub phase : RoutinePhase
  pub param : P
  pub update_ch : Option P
  pub retry_ch : Option P
  pub err_ch : Bool
  pub cancelled : Bool
  pub applied : P
  pub removed : ℕ

-- `pushes`: `Update` of the watchdog. `cancels`: its context is done. `ends`: `BLock` returns. The
-- others are the routine's own steps.
pub data RoutineEvent (P : Type 0) : Type 0 where
  pushes : P → RoutineEvent P
  cancels ends checks : RoutineEvent P
  opens : Bool → RoutineEvent P
  takes_err takes_done takes_update : RoutineEvent P
  takes_retry : Bool → RoutineEvent P

module _ {P : Type 0} (clone : P → P) where
  unfoldable pub new_routine : P → Option P → Routine P
  new_routine init waiting = record {
    phase = checking;
    param = clone init;
    update_ch = waiting;
    retry_ch = none;
    err_ch = false;
    cancelled = false;
    applied = clone init;
    removed = 0;
  }

  unfoldable pub check_done : RoutinePhase → Routine P → Routine P
  check_done checking w = record w { phase = if w.cancelled then returned else opening }
  check_done opening w = w
  check_done serving w = w
  check_done returned w = w

  -- `NewDoor`, then `BLock` in a goroutine of its own, with new channels.
  unfoldable pub open_door : RoutinePhase → Bool → Routine P → Routine P
  open_door opening true w = record w {
    phase = serving;
    applied = clone w.param;
    retry_ch = none;
    err_ch = false;
  }
  open_door opening false w = record w { phase = if w.cancelled then returned else checking }
  open_door checking ok w = w
  open_door serving ok w = w
  open_door returned ok w = w

  unfoldable pub take_err : RoutinePhase → Bool → Routine P → Routine P
  take_err serving true w = record w { phase = checking }
  take_err serving false w = w
  take_err checking b w = w
  take_err opening b w = w
  take_err returned b w = w

  unfoldable pub take_done : RoutinePhase → Bool → Routine P → Routine P
  take_done serving true w = record w { phase = returned; removed = w.removed + 1 }
  take_done serving false w = w
  take_done checking b w = w
  take_done opening b w = w
  take_done returned b w = w

  unfoldable pub take_update : RoutinePhase → Option P → Routine P → Routine P
  take_update serving (some p) w = record w { param = p; update_ch = none; retry_ch = some p }
  take_update serving none w = w
  take_update checking o w = w
  take_update opening o w = w
  take_update returned o w = w

  -- The parameter taken from `retryCh` gives way to one in `updateCh`; else the door is updated, and
  -- an error puts it back.
  unfoldable pub use_retry : Option P → P → Bool → Routine P → Routine P
  use_retry (some p) q ok w = record w { param = p; update_ch = none; retry_ch = some p }
  use_retry none q true w = record w { param = q; retry_ch = none; applied = q }
  use_retry none q false w = record w { param = q; retry_ch = some q }

  unfoldable pub take_retry : RoutinePhase → Option P → Bool → Routine P → Routine P
  take_retry serving (some q) ok w = use_retry w.update_ch q ok w
  take_retry serving none ok w = w
  take_retry checking o ok w = w
  take_retry opening o ok w = w
  take_retry returned o ok w = w

  unfoldable pub routine_step : Routine P → RoutineEvent P → Routine P
  routine_step w (pushes p) = record w { update_ch = some (clone p) }
  routine_step w cancels = record w { cancelled = true }
  routine_step w ends = record w { err_ch = true }
  routine_step w checks = check_done w.phase w
  routine_step w (opens ok) = open_door w.phase ok w
  routine_step w takes_err = take_err w.phase w.err_ch w
  routine_step w takes_done = take_done w.phase w.cancelled w
  routine_step w takes_update = take_update w.phase w.update_ch w
  routine_step w (takes_retry ok) = take_retry w.phase w.retry_ch ok w

  unfoldable pub routine_run : Routine P → List (RoutineEvent P) → Routine P
  routine_run w [] = w
  routine_run w (e ∷ es) = routine_run (routine_step w e) es
