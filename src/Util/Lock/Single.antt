-- ===== src/Util/Lock/Single.antt =====
-- How many operations of the executors of util/lock.go run.
use dion.Prelude.{
  Bool, true, false, none, some, List, [], ◌∷◌, ℕ, zero, suc, ◌+◌, ◌≡◌, refl, arith, ℕ_discrete,
  ltb, if◌then◌else◌, ◌-◌,
}
use dion.Util.SetMap.Laws.{member}
use dion.Util.Lock.{
  ExecEvent, does, returns, SingleExec, new_single_exec, do_single, end_single, exec_step, exec_run,
  SingleLatestExec, new_single_latest_exec, do_latest, do_latests,
}

-- The token is in the channel, or the one operation that runs has it.
abbrev pub IsSingle : SingleExec → Type 0
IsSingle l = l.running ≡ (if l.token then 0 else 1)

step-IsSingle : (l : SingleExec) (e : ExecEvent) → IsSingle l → IsSingle (exec_step l e)
unfolding exec_step do_single end_single
step-IsSingle l does h = go l.token refl
  where
    go : (b : Bool) → l.token ≡ b → IsSingle (do_single b l)
    go true e = ground arith
    go false e = h
step-IsSingle l returns h = go l.running refl
  where
    go : (n : ℕ) → l.running ≡ n → IsSingle (end_single n l)
    go zero e = h
    go (suc n) e = ground arith

run-IsSingle : (l : SingleExec) (es : List ExecEvent) → IsSingle l → IsSingle (exec_run l es)
unfolding exec_run
run-IsSingle l [] h = h
run-IsSingle l (e ∷ es) h = run-IsSingle (exec_step l e) es (step-IsSingle l e h)

-- Whatever calls and returns there are: an operation of a `SingleExec` runs exactly if the token is
-- taken, and never two.
pub exec_run-IsSingle : (es : List ExecEvent) → IsSingle (exec_run new_single_exec es)
unfolding new_single_exec
exec_run-IsSingle es = run-IsSingle new_single_exec es refl

-- All contexts but the last one made are cancelled.
abbrev pub IsLatest : SingleLatestExec → Type 0
IsLatest l =
    ((c : ℕ) → member ℕ_discrete c l.cancelled ≡ ltb (c + 1) l.made)
    × (l.cancel_last ≡ (if ltb 0 l.made then some (l.made - 1) else none))

IsLatest-step : (l : SingleLatestExec) → IsLatest l → IsLatest (do_latest l)
unfolding do_latest member
IsLatest-step l (c, k) = (λ x. ground (arith, c x, k), ground arith)

IsLatest-run : (n : ℕ) (l : SingleLatestExec) → IsLatest l → IsLatest (do_latests n l)
unfolding do_latests
IsLatest-run zero l h = h
IsLatest-run (suc n) l h = IsLatest-run n (do_latest l) (IsLatest-step l h)

-- After any number of calls of a `SingleLatestExec`, the contexts of all operations but the last
-- one are cancelled, and that of the last one is not.
pub do_latests-IsLatest : (n : ℕ) → IsLatest (do_latests n new_single_latest_exec)
unfolding new_single_latest_exec member
do_latests-IsLatest n = IsLatest-run n new_single_latest_exec (λ c. ground arith, ground arith)
