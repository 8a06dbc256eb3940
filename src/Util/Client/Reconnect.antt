-- ===== src/Util/Client/Reconnect.antt =====
-- `Reconnect` of util/client.go, among other goroutines: what `reconnectExec` executes is entered,
-- adds to the 32 bit counter, and ends; nobody enters before it has ended. Whoever calls `reconnect`
-- meanwhile waits for the end and executes nothing. The client is not closed meanwhile: its end also
-- ends the contexts of `reconnectExec`.
use dion.Prelude.{
  Bool, true, false, List, [], ◌∷◌, ℕ, suc, ◌<◌, ◌≤◌, ◌≡◌, refl, sym, subst, arith, ltb,
}
use dion.Util.Client.{add_uint32}

-- Where the body of `reconnect` is, if it runs.
pub data ReconnectPhase : Type 0 where
  idle entered added : ReconnectPhase

-- The counter; `adds` counts its additions without the wrap-around.
pub record Reconnecting : Type 0 where
  pub phase : ReconnectPhase
  pub times : ℕ
  pub adds : ℕ

-- A step of another goroutine.
pub data Step : Type 0 where
  enters does_add ends : Step

abbrev pub add : ReconnectPhase → Reconnecting → Reconnecting
add p r = record r { phase = p; times = add_uint32 r.times; adds = suc r.adds }

unfoldable pub reconnect_step : Step → ReconnectPhase → Reconnecting → Reconnecting
reconnect_step enters idle r = record r { phase = entered }
reconnect_step does_add entered r = add added r
reconnect_step ends added r = record r { phase = idle }
reconnect_step e p r = r

unfoldable pub reconnect_steps : Reconnecting → List Step → Reconnecting
reconnect_steps r [] = r
reconnect_steps r (e ∷ es) = reconnect_steps (reconnect_step e r.phase r) es

-- A call_reconnect of `reconnect`: it executes the body, or others go on until it has ended.
abbrev pub wait_or_add : ReconnectPhase → List Step → Reconnecting → Reconnecting
wait_or_add idle waits r = add idle r
wait_or_add entered waits r = reconnect_steps r waits
wait_or_add added waits r = reconnect_steps r waits

unfoldable pub call_reconnect : List Step → Reconnecting → Reconnecting
call_reconnect waits r = wait_or_add r.phase waits r

-- What other goroutines do during `Reconnect`: before the first call_reconnect, while it waits, before the
-- second one, and while that waits.
pub record Others : Type 0 where
  pub before_first : List Step
  pub first : List Step
  pub before_second : List Step
  pub second : List Step

-- The state after the first call_reconnect, when `after` is loaded, and after `Reconnect`, which `before` was
-- loaded for.
unfoldable pub first_call : Others → Reconnecting → Reconnecting
first_call o r = call_reconnect o.first (reconnect_steps r o.before_first)

abbrev pub again : Bool → Others → Reconnecting → Reconnecting
again true o r = r
again false o r = call_reconnect o.second (reconnect_steps r o.before_second)

unfoldable pub reconnect_verified : Others → Reconnecting → Reconnecting
reconnect_verified o r = again (ltb r.times (first_call o r).times) o (first_call o r)

-- The counter only grows, and as long as it does not grow it stays.
abbrev Grown : Reconnecting → Reconnecting → Type 0
Grown r s = (r.adds ≤ s.adds) × (s.adds ≡ r.adds → s.times ≡ r.times)

reconnect_step-Grown :
    (e : Step) (p : ReconnectPhase) (r : Reconnecting) → Grown r (reconnect_step e p r)
unfolding reconnect_step
reconnect_step-Grown enters idle r = ground arith
reconnect_step-Grown enters entered r = ground arith
reconnect_step-Grown enters added r = ground arith
reconnect_step-Grown does_add idle r = ground arith
reconnect_step-Grown does_add entered r = ground arith
reconnect_step-Grown does_add added r = ground arith
reconnect_step-Grown ends idle r = ground arith
reconnect_step-Grown ends entered r = ground arith
reconnect_step-Grown ends added r = ground arith

reconnect_steps-Grown : (r : Reconnecting) (es : List Step) → Grown r (reconnect_steps r es)
unfolding reconnect_steps
reconnect_steps-Grown r [] = ground arith
reconnect_steps-Grown r (e ∷ es) =
    ground (
      arith,
      reconnect_step-Grown e r.phase r,
      reconnect_steps-Grown (reconnect_step e r.phase r) es,
    )

wait_or_add-Grown :
    (p : ReconnectPhase) (waits : List Step) (r : Reconnecting) → Grown r (wait_or_add p waits r)
wait_or_add-Grown idle waits r = ground arith
wait_or_add-Grown entered waits r = reconnect_steps-Grown r waits
wait_or_add-Grown added waits r = reconnect_steps-Grown r waits

-- What was seen idle, with a count, and has gone on since then.
abbrev Seen : ℕ → ReconnectPhase → ℕ → Type 0
Seen a idle n = a ≤ n
Seen a entered n = a ≤ n
Seen a added n = a < n

-- What was seen while the body ran that was entered since then, and has gone on.
abbrev Entered : ℕ → ReconnectPhase → ℕ → Type 0
Entered a idle n = a < n
Entered a entered n = a ≤ n
Entered a added n = a < n

reconnect_step-Seen :
    (a : ℕ) (e : Step) (p : ReconnectPhase) (r : Reconnecting)
    → r.phase ≡ p
    → Seen a p r.adds
    → Seen a (reconnect_step e p r).phase (reconnect_step e p r).adds
unfolding reconnect_step
reconnect_step-Seen a enters idle r q h = h
reconnect_step-Seen a enters entered r q h = subst (λ x. Seen a x r.adds) (sym q) h
reconnect_step-Seen a enters added r q h = subst (λ x. Seen a x r.adds) (sym q) h
reconnect_step-Seen a does_add idle r q h = subst (λ x. Seen a x r.adds) (sym q) h
reconnect_step-Seen a does_add entered r q h = ground arith
reconnect_step-Seen a does_add added r q h = subst (λ x. Seen a x r.adds) (sym q) h
reconnect_step-Seen a ends idle r q h = subst (λ x. Seen a x r.adds) (sym q) h
reconnect_step-Seen a ends entered r q h = subst (λ x. Seen a x r.adds) (sym q) h
reconnect_step-Seen a ends added r q h = ground arith

reconnect_step-Entered :
    (a : ℕ) (e : Step) (p : ReconnectPhase) (r : Reconnecting)
    → r.phase ≡ p
    → Entered a p r.adds
    → Entered a (reconnect_step e p r).phase (reconnect_step e p r).adds
unfolding reconnect_step
reconnect_step-Entered a enters idle r q h = ground arith
reconnect_step-Entered a enters entered r q h = subst (λ x. Entered a x r.adds) (sym q) h
reconnect_step-Entered a enters added r q h = subst (λ x. Entered a x r.adds) (sym q) h
reconnect_step-Entered a does_add idle r q h = subst (λ x. Entered a x r.adds) (sym q) h
reconnect_step-Entered a does_add entered r q h = ground arith
reconnect_step-Entered a does_add added r q h = subst (λ x. Entered a x r.adds) (sym q) h
reconnect_step-Entered a ends idle r q h = subst (λ x. Entered a x r.adds) (sym q) h
reconnect_step-Entered a ends entered r q h = subst (λ x. Entered a x r.adds) (sym q) h
reconnect_step-Entered a ends added r q h = h

reconnect_steps-Seen :
    (a : ℕ) (r : Reconnecting) (es : List Step)
    → Seen a r.phase r.adds
    → Seen a (reconnect_steps r es).phase (reconnect_steps r es).adds
unfolding reconnect_steps
reconnect_steps-Seen a r [] h = h
reconnect_steps-Seen a r (e ∷ es) h =
    reconnect_steps-Seen a (reconnect_step e r.phase r) es
      (reconnect_step-Seen a e r.phase r refl h)

reconnect_steps-Entered :
    (a : ℕ) (r : Reconnecting) (es : List Step)
    → Entered a r.phase r.adds
    → Entered a (reconnect_steps r es).phase (reconnect_steps r es).adds
unfolding reconnect_steps
reconnect_steps-Entered a r [] h = h
reconnect_steps-Entered a r (e ∷ es) h =
    reconnect_steps-Entered a (reconnect_step e r.phase r) es
      (reconnect_step-Entered a e r.phase r refl h)

-- A second call_reconnect, after an idle state: when it has ended, the counter has grown.
second-grows :
    (a : ℕ) (p : ReconnectPhase) (waits : List Step) (r : Reconnecting)
    → r.phase ≡ p
    → Seen a p r.adds
    → (wait_or_add p waits r).phase ≡ idle
    → a < (wait_or_add p waits r).adds
second-grows a idle waits r q h i = ground arith
second-grows a entered waits r q h i =
    subst (λ x. Entered a x (reconnect_steps r waits).adds) i
      (reconnect_steps-Entered a r waits (subst (λ x. Entered a x r.adds) (sym q) h))
second-grows a added waits r q h i =
    subst (λ x. Entered a x (reconnect_steps r waits).adds) i
      (reconnect_steps-Entered a r waits (subst (λ x. Entered a x r.adds) (sym q) h))

-- Whatever other goroutines do, where each call_reconnect of `reconnect` that waits does so until the body has
-- ended: between the beginning and the end of `Reconnect` there is an addition to the counter, so a
-- reconnect whose stream is made after `Reconnect` was called. This holds where the counter wraps
-- around, too.
pub reconnect_verified-adds :
    (o : Others) (r : Reconnecting)
    → (first_call o r).phase ≡ idle
    → (call_reconnect o.second (reconnect_steps (first_call o r) o.before_second)).phase ≡ idle
    → r.adds < (reconnect_verified o r).adds
unfolding reconnect_verified call_reconnect first_call
reconnect_verified-adds o r i j = grows (ltb r.times (first_call o r).times) refl
  where
    s0 : Reconnecting
    s0 = reconnect_steps r o.before_first

    s : Reconnecting
    s = call_reconnect o.first s0

    grown : Grown r s
    grown =
        ground
          (arith, reconnect_steps-Grown r o.before_first, wait_or_add-Grown s0.phase o.first s0)

    t : Reconnecting
    t = reconnect_steps s o.before_second

    at_idle : Seen s.adds idle s.adds
    at_idle = ground arith

    seen : Seen s.adds t.phase t.adds
    seen =
        reconnect_steps-Seen s.adds s o.before_second
          (subst (λ x. Seen s.adds x s.adds) (sym i) at_idle)

    grows : (b : Bool) → ltb r.times s.times ≡ b → r.adds < (again b o s).adds
    grows true e = ground (arith, grown)
    grows false e = ground (arith, grown, second-grows s.adds t.phase o.second t refl seen j)
