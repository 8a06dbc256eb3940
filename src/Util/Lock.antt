-- ===== src/Util/Lock.antt =====
-- util/lock.go: executors, over the calls and returns of their operations.
pub mod Single
pub mod Wait
use dion.Prelude.{
  Bool, true, false, Option, none, some, List, [], ◌∷◌, ℕ, zero, suc, ◌+◌, if◌then◌else◌,
}

-- A call of `Do`, or the return of an operation.
pub data ExecEvent : Type 0 where
  does returns : ExecEvent

-- `SingleExec`: the token in the channel `running`, with the operations that run and those begun.
pub record SingleExec : Type 0 where
  pub token : Bool
  pub running : ℕ
  pub begun : ℕ

unfoldable pub new_single_exec : SingleExec
new_single_exec = record { token = true; running = 0; begun = 0 }

-- `do`: without the token the call does nothing.
unfoldable pub do_single : Bool → SingleExec → SingleExec
do_single true l = record { token = false; running = l.running + 1; begun = l.begun + 1 }
do_single false l = l

-- An operation that runs ends and gives the token back.
unfoldable pub end_single : ℕ → SingleExec → SingleExec
end_single zero l = l
end_single (suc n) l = record l { token = true; running = n }

unfoldable pub exec_step : SingleExec → ExecEvent → SingleExec
exec_step l does = do_single l.token l
exec_step l returns = end_single l.running l

unfoldable pub exec_run : SingleExec → List ExecEvent → SingleExec
exec_run l [] = l
exec_run l (e ∷ es) = exec_run (exec_step l e) es

-- `SingleLatestExec`: how many contexts were made, and those that were cancelled, by number.
pub record SingleLatestExec : Type 0 where
  pub cancel_last : Option ℕ
  pub made : ℕ
  pub cancelled : List ℕ

unfoldable pub new_single_latest_exec : SingleLatestExec
new_single_latest_exec = record { cancel_last = none; made = 0; cancelled = [] }

abbrev pub cancel_to : Option ℕ → List ℕ → List ℕ
cancel_to none cs = cs
cancel_to (some c) cs = c ∷ cs

unfoldable pub do_latest : SingleLatestExec → SingleLatestExec
do_latest l = record {
  cancel_last = some l.made;
  made = l.made + 1;
  cancelled = cancel_to l.cancel_last l.cancelled;
}

unfoldable pub do_latests : ℕ → SingleLatestExec → SingleLatestExec
do_latests zero l = l
do_latests (suc n) l = do_latests n (do_latest l)

-- What a `SingleWaitExec` meets: a call of `Do`, the return of an operation, or the end of the context
-- that `NewSingleWaitExec` was given.
pub data WaitEvent : Type 0 where
  does_op op_returns parent_ends : WaitEvent

-- The context of the operation that `SingleWaitExec` began last: none yet, not done, or done.
pub data WaitState : Type 0 where
  unused busy done : WaitState

-- `SingleWaitExec`: whether the embedded context is done, and `ctx`, with the calls that wait and the
-- operations that run.
pub record SingleWaitExec : Type 0 where
  pub parent_done : Bool
  pub ctx : WaitState
  pub waiting : ℕ
  pub running : ℕ

unfoldable pub new_single_wait_exec : Bool → SingleWaitExec
new_single_wait_exec ended = record { parent_done = ended; ctx = unused; waiting = 0; running = 0 }

-- `context.WithCancel(l)`: a context that is done from the beginning if the parent is.
abbrev pub with_cancel : Bool → WaitState
with_cancel true = done
with_cancel false = busy

-- The call makes a context and runs its operation.
unfoldable pub begin_op : SingleWaitExec → SingleWaitExec
begin_op l = record l { ctx = with_cancel l.parent_done; running = l.running + 1 }

-- `Do`: the call runs its operation, or waits for the context of the one that was begun last.
unfoldable pub do_wait : WaitState → SingleWaitExec → SingleWaitExec
do_wait unused l = begin_op l
do_wait done l = begin_op l
do_wait busy l = record l { waiting = l.waiting + 1 }

-- An operation returns and its context is cancelled: whoever waits goes on. If several run, all their
-- contexts are done already.
unfoldable pub end_wait : ℕ → SingleWaitExec → SingleWaitExec
end_wait zero l = l
end_wait (suc n) l = record l { ctx = done; waiting = 0; running = n }

-- The parent is done, and with it the context of an operation: whoever waits goes on, while the
-- operation still runs.
abbrev pub with_parent : WaitState → WaitState
with_parent unused = unused
with_parent busy = done
with_parent done = done

unfoldable pub end_parent : SingleWaitExec → SingleWaitExec
end_parent l = record l { parent_done = true; ctx = with_parent l.ctx; waiting = 0 }

unfoldable pub wait_step : SingleWaitExec → WaitEvent → SingleWaitExec
wait_step l does_op = do_wait l.ctx l
wait_step l op_returns = end_wait l.running l
wait_step l parent_ends = end_parent l

unfoldable pub wait_run : SingleWaitExec → List WaitEvent → SingleWaitExec
wait_run l [] = l
wait_run l (e ∷ es) = wait_run (wait_step l e) es
