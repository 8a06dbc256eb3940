-- ===== src/Util/BlockedDoor/Updates.antt =====
-- Which parameter the `routine` of util/blockeddoor.go works with.
use dion.Prelude.{
  Bool, true, false, Option, none, some, List, [], ◌∷◌, ◌≡◌, ◌⊎◌, inl, inr, refl, ap, ◌∙◌, arith,
  Bool-cases,
}
use dion.Util.BlockedDoor.{
  RoutinePhase, checking, opening, serving, returned, Routine, RoutineEvent, pushes, cancels, ends,
  checks, opens, takes_err, takes_done, takes_update, takes_retry, new_routine, check_done,
  open_door, take_err, take_done, take_update, use_retry, take_retry, routine_step, routine_run,
}

module _ {P : Type 0} (clone : P → P) (clone_lem : (p : P) → clone p ≡ p) where
  -- The parameter that was given last.
  unfoldable pub wanted : P → List (RoutineEvent P) → P
  wanted p [] = p
  wanted p (pushes q ∷ es) = wanted q es
  wanted p (cancels ∷ es) = wanted p es
  wanted p (ends ∷ es) = wanted p es
  wanted p (checks ∷ es) = wanted p es
  wanted p (opens ok ∷ es) = wanted p es
  wanted p (takes_err ∷ es) = wanted p es
  wanted p (takes_done ∷ es) = wanted p es
  wanted p (takes_update ∷ es) = wanted p es
  wanted p (takes_retry ok ∷ es) = wanted p es

  -- At the door, a parameter is applied or waits to be tried again.
  abbrev pub IsServed : RoutinePhase → Option P → P → P → Type 0
  IsServed serving retry applied param = ((retry ≡ none) × (applied ≡ param)) ⊎ (retry ≡ some param)
  IsServed checking retry applied param = Unit
  IsServed opening retry applied param = Unit
  IsServed returned retry applied param = Unit

  -- A parameter waits in `updateCh`, or the routine has it.
  abbrev pub IsKept : P → Routine P → Type 0
  IsKept p w =
      ((w.update_ch ≡ some p) ⊎ ((w.update_ch ≡ none) × (w.param ≡ p)))
      × IsServed w.phase w.retry_ch w.applied w.param

  checked :
      (ph : RoutinePhase) (p : P) (w : Routine P)
      → w.phase ≡ ph
      → IsKept p w
      → IsKept p (check_done clone ph w)
  unfolding check_done
  checked checking p w e h = elim (Bool-cases w.cancelled) [
    | inl c ↦ rw c (h.0, tt)
    | inr c ↦ rw c (h.0, tt)
  ]
  checked opening p w e h = h
  checked serving p w e h = h
  checked returned p w e h = h

  opened :
      (ph : RoutinePhase) (ok : Bool) (p : P) (w : Routine P)
      → w.phase ≡ ph
      → IsKept p w
      → IsKept p (open_door clone ph ok w)
  unfolding open_door
  opened opening true p w e h = (h.0, inl (refl, clone_lem w.param))
  opened opening false p w e h = elim (Bool-cases w.cancelled) [
    | inl c ↦ rw c (h.0, tt)
    | inr c ↦ rw c (h.0, tt)
  ]
  opened checking ok p w e h = h
  opened serving ok p w e h = h
  opened returned ok p w e h = h

  err_taken :
      (ph : RoutinePhase) (b : Bool) (p : P) (w : Routine P)
      → IsKept p w
      → IsKept p (take_err clone ph b w)
  unfolding take_err
  err_taken serving true p w h = (h.0, tt)
  err_taken serving false p w h = h
  err_taken checking b p w h = h
  err_taken opening b p w h = h
  err_taken returned b p w h = h

  done_taken :
      (ph : RoutinePhase) (b : Bool) (p : P) (w : Routine P)
      → IsKept p w
      → IsKept p (take_done clone ph b w)
  unfolding take_done
  done_taken serving true p w h = (h.0, tt)
  done_taken serving false p w h = h
  done_taken checking b p w h = h
  done_taken opening b p w h = h
  done_taken returned b p w h = h

  -- The waiting parameter becomes the routine's, and is to be tried.
  update_used :
      (p q : P) (w : Routine P)
      → w.phase ≡ serving
      → w.update_ch ≡ some q
      → IsKept p w
      → IsKept p (record w { param = q; update_ch = none; retry_ch = some q })
  update_used p q w e u h =
      (inr (refl, elim h.0 [ inl x ↦ ground arith | inr x ↦ ground (arith, x.0) ]), rw e (inr refl))

  update_taken :
      (ph : RoutinePhase) (o : Option P) (p : P) (w : Routine P)
      → w.phase ≡ ph
      → w.update_ch ≡ o
      → IsKept p w
      → IsKept p (take_update clone ph o w)
  unfolding take_update
  update_taken serving (some q) p w e u h = update_used p q w e u h
  update_taken serving none p w e u h = h
  update_taken checking o p w e u h = h
  update_taken opening o p w e u h = h
  update_taken returned o p w e u h = h

  -- What waits in `retryCh` is the routine's parameter.
  retried :
      (p q : P) (w : Routine P) → w.phase ≡ serving → w.retry_ch ≡ some q → IsKept p w → q ≡ w.param
  retried p q w e r h = elim (rw e at h.1) [ inl x ↦ ground (arith, x.0) | inr x ↦ ground arith ]

  retry_used :
      (o : Option P) (p q : P) (ok : Bool) (w : Routine P)
      → w.phase ≡ serving
      → w.retry_ch ≡ some q
      → w.update_ch ≡ o
      → IsKept p w
      → IsKept p (use_retry clone o q ok w)
  unfolding use_retry
  retry_used (some x) p q ok w e r u h = update_used p x w e u h
  retry_used none p q true w e r u h = (
    inr (u, elim h.0 [ inl x ↦ ground arith | inr x ↦ retried p q w e r h ∙ x.1 ]),
    rw e (inl (refl, refl)),
  )
  retry_used none p q false w e r u h = (
    inr (u, elim h.0 [ inl x ↦ ground arith | inr x ↦ retried p q w e r h ∙ x.1 ]),
    rw e (inr refl),
  )

  retry_taken :
      (ph : RoutinePhase) (o : Option P) (p : P) (ok : Bool) (w : Routine P)
      → w.phase ≡ ph
      → w.retry_ch ≡ o
      → IsKept p w
      → IsKept p (take_retry clone ph o ok w)
  unfolding take_retry
  retry_taken serving (some q) p ok w e r h = retry_used w.update_ch p q ok w e r refl h
  retry_taken serving none p ok w e r h = h
  retry_taken checking o p ok w e r h = h
  retry_taken opening o p ok w e r h = h
  retry_taken returned o p ok w e r h = h

  run-IsKept :
      (p : P) (w : Routine P) (es : List (RoutineEvent P))
      → IsKept p w
      → IsKept (wanted p es) (routine_run clone w es)
  unfolding routine_run routine_step wanted
  run-IsKept p w [] h = h
  run-IsKept p w (pushes q ∷ es) h =
      run-IsKept q (record w { update_ch = some (clone q) }) es (inl (ap some (clone_lem q)), h.1)
  run-IsKept p w (cancels ∷ es) h = run-IsKept p (record w { cancelled = true }) es h
  run-IsKept p w (ends ∷ es) h = run-IsKept p (record w { err_ch = true }) es h
  run-IsKept p w (checks ∷ es) h =
      run-IsKept p (check_done clone w.phase w) es (checked w.phase p w refl h)
  run-IsKept p w (opens ok ∷ es) h =
      run-IsKept p (open_door clone w.phase ok w) es (opened w.phase ok p w refl h)
  run-IsKept p w (takes_err ∷ es) h =
      run-IsKept p (take_err clone w.phase w.err_ch w) es (err_taken w.phase w.err_ch p w h)
  run-IsKept p w (takes_done ∷ es) h =
      run-IsKept p (take_done clone w.phase w.cancelled w) es (done_taken w.phase w.cancelled p w h)
  run-IsKept p w (takes_update ∷ es) h =
      run-IsKept p (take_update clone w.phase w.update_ch w) es
        (update_taken w.phase w.update_ch p w refl refl h)
  run-IsKept p w (takes_retry ok ∷ es) h =
      run-IsKept p (take_retry clone w.phase w.retry_ch ok w) es
        (retry_taken w.phase w.retry_ch p ok w refl refl h)

  -- No parameter is lost: after any events on a new routine, the parameter that was given last
  -- waits in `updateCh`, or is the routine's own; and while the routine serves a door, its own
  -- parameter is what the door works with, or waits in `retryCh` to be tried again.
  pub routine_run-IsKept :
      (init : P) (es : List (RoutineEvent P))
      → IsKept (wanted init es) (routine_run clone (new_routine clone init none) es)
  unfolding new_routine
  routine_run-IsKept init es =
      run-IsKept init (new_routine clone init none) es (inr (refl, clone_lem init), tt)
