-- ===== src/Util/Timer.antt =====
-- util/timer.go: `ExpireSetMap`, with its loop and the goroutines of its timers as a step function.
-- When a timer expires is left open: that is an event. A timer keeps what Go's did before 1.23, which
-- go.mod asks for: `Reset` does not empty the channel. `Update` waits until it was handled, so it is
-- one step. Blocking on the 64 places of `deleteCh` is not modelled.
pub mod Find
pub mod Expiry
pub mod Gone
use dion.Prelude.{Bool, true, false, Option, none, some, List, [], ◌∷◌, ◌++◌, ◌&&◌, if◌then◌else◌}
use dion.Prelude.GoMap.{GoMap, get, put, del}

-- A timer: whether it is started, whether its channel is full, and whether its goroutine waits.
pub record Timer : Type 0 where
  pub armed : Bool
  pub full : Bool
  pub waiting : Bool

-- What `onDeleted` holds.
pub data OnDeleted : Type 0 where
  unset empty handler : OnDeleted

-- `ExpireSetMap`, with the calls of the handler. `crashed` is the failed type assertion of a value
-- that was never stored.
pub record ExpireSetMap (K V : Type 0) : Type 0 where
  pub m : GoMap K (GoMap V Timer)
  pub delete_ch : List (K × V)
  pub on_deleted : OnDeleted
  pub deleted : List (K × V)
  pub crashed : Bool

pub data TimerEvent (K V : Type 0) : Type 0 where
  updates expires takes : K → V → TimerEvent K V
  deletes : TimerEvent K V

unfoldable pub new_expire_set_map : {K V : Type 0} → OnDeleted → ExpireSetMap K V
new_expire_set_map on_deleted = record {
  m = [];
  delete_ch = [];
  on_deleted = on_deleted;
  deleted = [];
  crashed = false;
}

-- `newTimer`, with its goroutine started.
abbrev pub new_timer : Timer
new_timer = record { armed = true; full = false; waiting = true }

abbrev pub reset_timer : Timer → Timer
reset_timer t = record t { armed = true }

abbrev pub reset_or_new : Option Timer → Timer
reset_or_new none = new_timer
reset_or_new (some t) = reset_timer t

-- The time of a timer is over.
abbrev pub expire : Timer → Timer
expire t = if t.armed then record t { armed = false; full = true } else t

-- Whether the goroutine of a timer goes on, and the timer after that.
abbrev pub is_due : Timer → Bool
is_due t = t.waiting && t.full

abbrev pub taken : Timer → Timer
taken t = record t { full = false; waiting = false }

module _ {K V : Type 0} (key_discrete : Discrete K) (value_discrete : Discrete V) where
  abbrev pub set_of : Option (GoMap V Timer) → GoMap V Timer
  set_of none = []
  set_of (some set) = set

  -- `m[key][value]`
  unfoldable pub find : K → V → GoMap K (GoMap V Timer) → Option Timer
  find k v m = get value_discrete v (set_of (get key_discrete k m))

  -- `m[key][value] = timer`, with a new set where there is none.
  unfoldable pub store : K → V → Timer → GoMap K (GoMap V Timer) → GoMap K (GoMap V Timer)
  store k v t m = put key_discrete k (put value_discrete v t (set_of (get key_discrete k m))) m

  unfoldable pub handle_update : K → V → ExpireSetMap K V → ExpireSetMap K V
  handle_update k v s = record s { m = store k v (reset_or_new (find k v s.m)) s.m }

  -- A set without values is deleted.
  abbrev pub keep_set : K → GoMap V Timer → GoMap K (GoMap V Timer) → GoMap K (GoMap V Timer)
  keep_set k [] m = del key_discrete k m
  keep_set k (e ∷ set) m = put key_discrete k (e ∷ set) m

  abbrev pub tell : OnDeleted → K → V → ExpireSetMap K V → ExpireSetMap K V
  tell unset k v s = record s { crashed = true }
  tell empty k v s = s
  tell handler k v s = record s { deleted = s.deleted ++ (k, v) ∷ [] }

  abbrev pub delete_from : Option (GoMap V Timer) → K → V → ExpireSetMap K V → ExpireSetMap K V
  delete_from none k v s = s
  delete_from (some set) k v s =
      tell s.on_deleted k v (record s { m = keep_set k (del value_discrete v set) s.m })

  unfoldable pub handle_delete : K → V → ExpireSetMap K V → ExpireSetMap K V
  handle_delete k v s = delete_from (get key_discrete k s.m) k v s

  -- The time of a timer is over, if it is there.
  abbrev pub expire_timer : Option Timer → K → V → ExpireSetMap K V → ExpireSetMap K V
  expire_timer none k v s = s
  expire_timer (some t) k v s = record s { m = store k v (expire t) s.m }

  -- The goroutine of a timer, in `newTimer`.
  abbrev pub take_timer : Option Timer → K → V → ExpireSetMap K V → ExpireSetMap K V
  take_timer none k v s = s
  take_timer (some t) k v s =
      if is_due t
      then record s { m = store k v (taken t) s.m; delete_ch = s.delete_ch ++ (k, v) ∷ [] }
      else s

  abbrev pub take_delete : List (K × V) → ExpireSetMap K V → ExpireSetMap K V
  take_delete [] s = s
  take_delete ((k, v) ∷ rest) s = handle_delete k v (record s { delete_ch = rest })

  -- `Start`, one case of its `select` at a time, and the goroutines.
  unfoldable pub timer_case : TimerEvent K V → ExpireSetMap K V → ExpireSetMap K V
  timer_case (updates k v) s = handle_update k v s
  timer_case (expires k v) s = expire_timer (find k v s.m) k v s
  timer_case (takes k v) s = take_timer (find k v s.m) k v s
  timer_case deletes s = take_delete s.delete_ch s

  unfoldable pub timer_step : ExpireSetMap K V → TimerEvent K V → ExpireSetMap K V
  timer_step s e = let next = timer_case e s in if s.crashed then s else next

  unfoldable pub timer_run : ExpireSetMap K V → List (TimerEvent K V) → ExpireSetMap K V
  timer_run s [] = s
  timer_run s (e ∷ es) = timer_run (timer_step s e) es
