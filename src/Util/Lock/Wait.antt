-- ===== src/Util/Lock/Wait.antt =====
-- `SingleWaitExec` of util/lock.go: who runs and who waits.
use dion.Prelude.{Bool, true, false, List, [], ◌∷◌, ℕ, zero, suc, ◌≡◌, ◌≢◌, refl, sym, subst, arith}
use dion.Util.Lock.{
  WaitEvent, does_op, op_returns, parent_ends, WaitState, unused, busy, done, SingleWaitExec,
  new_single_wait_exec, begin_op, do_wait, end_wait, end_parent, with_parent, wait_step, wait_run,
}

-- A call runs its operation if none runs or the parent is done, else it waits: the operations that
-- run and the calls that wait after it.
abbrev pub after_call : Bool → ℕ → ℕ → ℕ × ℕ
after_call true r w = (suc r, w)
after_call false zero w = (suc zero, w)
after_call false (suc r) w = (suc r, suc w)

-- When an operation returns, nobody waits any longer.
abbrev pub after_return : ℕ → ℕ → ℕ × ℕ
after_return zero w = (zero, w)
after_return (suc r) w = (r, zero)

-- The operations that run and the calls that wait, from whether the parent is done and how many there
-- are.
unfoldable pub run_and_wait : Bool → ℕ × ℕ → List WaitEvent → ℕ × ℕ
run_and_wait b p [] = p
run_and_wait b p (does_op ∷ es) = run_and_wait b (after_call b p.0 p.1) es
run_and_wait b p (op_returns ∷ es) = run_and_wait b (after_return p.0 p.1) es
run_and_wait b p (parent_ends ∷ es) = run_and_wait true (p.0, zero) es

abbrev pub is_ended : Bool → List WaitEvent → Bool
is_ended b [] = b
is_ended b (does_op ∷ es) = is_ended b es
is_ended b (op_returns ∷ es) = is_ended b es
is_ended b (parent_ends ∷ es) = is_ended true es

-- Until the parent is done, one operation runs while the context is not done, and otherwise none runs
-- and no call waits; after that the context is none or done, and no call waits.
abbrev pub IsWaited : Bool → WaitState → ℕ → ℕ → Type 0
IsWaited false unused r w = (r ≡ 0) × (w ≡ 0)
IsWaited false busy r w = r ≡ 1
IsWaited false done r w = (r ≡ 0) × (w ≡ 0)
IsWaited true ctx r w = (ctx ≢ busy) × (w ≡ 0)

-- The executor has this many operations and calls, and is as above.
abbrev pub Tracks : Bool → ℕ × ℕ → SingleWaitExec → Type 0
Tracks b p l =
    (l.parent_done ≡ b) × (l.running ≡ p.0) × (l.waiting ≡ p.1) × IsWaited b l.ctx p.0 p.1

do_wait-Tracks :
    (b : Bool) (ctx : WaitState) (r w : ℕ) (l : SingleWaitExec)
    → l.ctx ≡ ctx
    → Tracks b (r, w) l
    → Tracks b (after_call b r w) (do_wait ctx l)
unfolding do_wait begin_op
do_wait-Tracks false unused r w l e (p, q, k, h) = ground arith
do_wait-Tracks false busy r w l e (p, q, k, h) = ground arith
do_wait-Tracks false done r w l e (p, q, k, h) = ground arith
do_wait-Tracks true unused r w l e (p, q, k, h) = ground arith
do_wait-Tracks true busy r w l e (p, q, k, h) = ground arith
do_wait-Tracks true done r w l e (p, q, k, h) = ground arith

one_left : (ctx : WaitState) (n w : ℕ) → IsWaited false ctx (suc n) w → n ≡ 0
one_left unused n w h = absurd (ground (arith, h.0))
one_left busy n w h = ground arith
one_left done n w h = absurd (ground (arith, h.0))

end_wait-Tracks :
    (b : Bool) (n w : ℕ) (l : SingleWaitExec)
    → l.running ≡ n
    → Tracks b (n, w) l
    → Tracks b (after_return n w) (end_wait n l)
unfolding end_wait
end_wait-Tracks b zero w l e h = h
end_wait-Tracks false (suc n) w l e (p, q, k, h) = (p, refl, refl, (one_left l.ctx n w h, refl))
end_wait-Tracks true (suc n) w l e (p, q, k, h) = (p, refl, refl, (λ x. absurd (cc), refl))

end_parent-Tracks :
    (b : Bool) (ctx : WaitState) (r w : ℕ) (l : SingleWaitExec)
    → l.ctx ≡ ctx
    → Tracks b (r, w) l
    → Tracks true (r, zero) (end_parent l)
unfolding end_parent
end_parent-Tracks b ctx r w l e (p, q, k, h) = (refl, q, refl, (not_busy l.ctx, refl))
  where
    not_busy : (x : WaitState) → with_parent x ≢ busy
    not_busy unused y = absurd (cc)
    not_busy busy y = absurd (cc)
    not_busy done y = absurd (cc)

steps-Tracks :
    (b : Bool) (p : ℕ × ℕ) (l : SingleWaitExec) (es : List WaitEvent)
    → Tracks b p l
    → Tracks (is_ended b es) (run_and_wait b p es) (wait_run l es)
unfolding wait_run wait_step run_and_wait
steps-Tracks b p l [] h = h
steps-Tracks b p l (does_op ∷ es) h =
    steps-Tracks b (after_call b p.0 p.1) (do_wait l.ctx l) es
      (do_wait-Tracks b l.ctx p.0 p.1 l refl h)
steps-Tracks b p l (op_returns ∷ es) h =
    steps-Tracks b (after_return p.0 p.1) (end_wait l.running l) es (
      subst (λ x. Tracks b (after_return p.0 p.1) (end_wait x l)) (sym h.1)
        (end_wait-Tracks b p.0 p.1 l h.1 h))
steps-Tracks b p l (parent_ends ∷ es) h =
    steps-Tracks true (p.0, zero) (end_parent l) es (end_parent-Tracks b l.ctx p.0 p.1 l refl h)

-- Whatever calls, returns and ends of the parent there are: exactly those operations of a
-- `SingleWaitExec` run that were begun because none ran or the parent was done, and have not returned;
-- and exactly those calls wait that met one and whose context is not done. Until the parent is done,
-- one operation runs while the context is not done, and otherwise none; after that no call waits.
pub wait_run-Tracks :
    (ended : Bool) (es : List WaitEvent)
    → Tracks
        (is_ended ended es)
        (run_and_wait ended (0, 0) es)
        (wait_run (new_single_wait_exec ended) es)
unfolding new_single_wait_exec
wait_run-Tracks true es =
    steps-Tracks true (0, 0) (new_single_wait_exec true) es
      (refl, refl, refl, (λ x. absurd (cc), refl))
wait_run-Tracks false es =
    steps-Tracks false (0, 0) (new_single_wait_exec false) es (refl, refl, refl, (refl, refl))
