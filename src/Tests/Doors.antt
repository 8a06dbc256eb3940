-- ===== src/Tests/Doors.antt =====
-- Runs of util/watchdog.go and util/blockeddoor.go, with numbers for parameters.
use dion.Prelude.{ℕ, true, false, List, [], ◌∷◌, ◌≡◌, refl, none, All, length, ℕ_discrete}
use dion.Prelude.GoMap.{get}
use dion.Util.Watchdog.{
  DogEvent, watches, updates, leaves, breaks, buys, locks, sees_leave, repairs, takes_update, sold,
  closed, new_door, remove, lock, repair, update, dog_run, new_watch_dog, dog_step, watch, buy,
  retry, lock_door, see_leave, keep_or_remove, repair_door, update_door,
}
use dion.Util.Watchdog.Protocol.{IsOrderly, dog_run-IsOrderly}
use dion.Util.BlockedDoor.{
  DogCall, watch_call, update_call, leave_call, new_blocked_dog, dog_calls, RoutineEvent, pushes,
  cancels, ends, checks, opens, takes_err, takes_done, takes_retry, new_routine, routine_run,
}
use dion.Util.BlockedDoor as Blocked
use dion.Util.BlockedDoor.Contexts.{dog_calls-routines}
use dion.Util.BlockedDoor.Contexts as Contexts
use dion.Util.BlockedDoor.Updates.{wanted, IsKept, routine_run-IsKept}

abbrev dog_events : List (DogEvent ℕ)
dog_events =
    watches 5
    ∷ buys closed
    ∷ buys sold
    ∷ locks true
    ∷ breaks
    ∷ repairs true
    ∷ updates 6
    ∷ locks true
    ∷ takes_update false
    ∷ buys sold
    ∷ leaves
    ∷ locks true
    ∷ sees_leave
    ∷ []

dog_calls_run :
    (dog_run (λ p. p) (new_watch_dog (λ p. p) 0) dog_events).calls
    ≡ new_door ∷ lock 5 ∷ repair 5 ∷ lock 5 ∷ update 6 ∷ remove ∷ new_door ∷ lock 6 ∷ remove ∷ []
unfolding dog_run new_watch_dog dog_step watch buy retry lock_door see_leave keep_or_remove
    repair_door update_door
dog_calls_run = refl

dog_run-IsOrderly_example :
    IsOrderly (λ p. p) (dog_run (λ p. p) (new_watch_dog (λ p. p) 0) dog_events)
dog_run-IsOrderly_example = dog_run-IsOrderly (λ p. p) 0 dog_events

abbrev same : ℕ → ℕ
same p = p

abbrev calls : List (DogCall ℕ)
calls = watch_call 5 ∷ update_call 6 ∷ leave_call ∷ watch_call 7 ∷ leave_call ∷ []

dog_calls-routines_example :
    let (u, k) = new_blocked_dog same in
    (length (dog_calls same u k calls).routines ≡ Contexts.watches same calls)
    × All
        (λ r. get ℕ_discrete r.1 (dog_calls same u k calls).done ≡ none)
        (dog_calls same u k calls).routines
dog_calls-routines_example = dog_calls-routines same calls

abbrev routine_events : List (RoutineEvent ℕ)
routine_events =
    checks
    ∷ opens true
    ∷ pushes 6
    ∷ Blocked.takes_update
    ∷ takes_retry false
    ∷ pushes 7
    ∷ takes_retry true
    ∷ takes_retry true
    ∷ ends
    ∷ takes_err
    ∷ cancels
    ∷ checks
    ∷ []

routine_run-IsKept_example :
    IsKept same
      (λ p. refl)
      (wanted same (λ p. refl) 5 routine_events)
      (routine_run same (new_routine same 5 none) routine_events)
routine_run-IsKept_example = routine_run-IsKept same (λ p. refl) 5 routine_events
