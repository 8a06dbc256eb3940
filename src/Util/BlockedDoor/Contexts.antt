-- ===== src/Util/BlockedDoor/Contexts.antt =====
-- The contexts of `WatchDogWithBlockedDoor` (util/blockeddoor.go) through its methods.
use dion.Prelude.{
  true, none, List, [], ◌∷◌, ℕ, ◌+◌, ◌<◌, ◌≡◌, arith, ℕ_discrete, is_some, All, length,
}
use dion.Prelude.GoMap.{GoMap, get, get-put}
use dion.Util.BlockedDoor.{
  BlockedDog, Kennel, DogCall, watch_call, update_call, leave_call, new_blocked_dog, watch_blocked,
  update_blocked, leave_blocked, dog_call, dog_calls,
}

module _ {P : Type 0} (clone : P → P) where
  -- The calls of `Watch` in a history.
  unfoldable pub watches : List (DogCall P) → ℕ
  watches [] = 0
  watches (watch_call p ∷ cs) = watches cs + 1
  watches (update_call p ∷ cs) = watches cs
  watches (leave_call ∷ cs) = watches cs

  -- Only context 0 is done, and the routines have other ones.
  abbrev IsRunning : Kennel P → Type 0
  IsRunning k =
      (0 < k.fresh_ctx)
      × (is_some (get ℕ_discrete 0 k.done) ≡ true)
      × ((c : ℕ) → 0 < c → get ℕ_discrete c k.done ≡ none)
      × All (λ r. 0 < r.1) k.routines

  abbrev dog : BlockedDog
  dog = record { ctx = 0 }

  call-IsRunning : (k : Kennel P) (c : DogCall P) → IsRunning k → IsRunning (dog_call clone dog k c)
  unfolding dog_call watch_blocked update_blocked leave_blocked
  call-IsRunning k (watch_call p) (f, z, d, r) = rw z (ground arith, z, d, (f, r))
  call-IsRunning k (update_call p) h = h
  call-IsRunning k leave_call (f, z, d, r) = (
    f,
    ground (arith, get-put ℕ_discrete 0 0 tt k.done),
    λ c p. ground (arith, get-put ℕ_discrete c 0 tt k.done, d c p),
    r,
  )

  calls-IsRunning :
      (k : Kennel P) (cs : List (DogCall P))
      → IsRunning k
      → IsRunning (dog_calls clone dog k cs)
        × (length (dog_calls clone dog k cs).routines ≡ watches cs + length k.routines)
  unfolding dog_calls dog_call watches watch_blocked update_blocked leave_blocked
  calls-IsRunning k [] h = (h, ground arith)
  calls-IsRunning k (watch_call p ∷ cs) h =
      let (a, b) =
        calls-IsRunning (dog_call clone dog k (watch_call p)) cs
          (call-IsRunning k (watch_call p) h) in
      (a, ground (arith, b, h.1))
  calls-IsRunning k (update_call p ∷ cs) h =
      calls-IsRunning (dog_call clone dog k (update_call p)) cs h
  calls-IsRunning k (leave_call ∷ cs) h =
      calls-IsRunning (dog_call clone dog k leave_call) cs (call-IsRunning k leave_call h)

  running_routines :
      (done : GoMap ℕ (Unit {0})) (rs : List (P × ℕ))
      → ((c : ℕ) → 0 < c → get ℕ_discrete c done ≡ none)
      → All (λ r. 0 < r.1) rs
      → All (λ r. get ℕ_discrete r.1 done ≡ none) rs
  running_routines done [] d h = tt
  running_routines done ((p, c) ∷ rs) d h = (d c h.0, running_routines done rs d h.1)

  -- After any calls on a new watchdog: every `Watch` has started a routine of its own, and the
  -- context of no routine is done, whatever `Leave` was called.
  pub dog_calls-routines :
      (cs : List (DogCall P))
      → let (u, k) = new_blocked_dog clone in
        (length (dog_calls clone u k cs).routines ≡ watches cs)
        × All
            (λ r. get ℕ_discrete r.1 (dog_calls clone u k cs).done ≡ none)
            (dog_calls clone u k cs).routines
  unfolding new_blocked_dog get
  dog_calls-routines cs =
      let k : Kennel P = record {
        done = (0, tt) ∷ [];
        fresh_ctx = 1;
        routines = [];
        update_ch = none;
      } in
      let (h, n) = calls-IsRunning k cs (ground arith, ground arith, (λ c p. ground arith), tt) in
      (
        ground (arith, n),
        running_routines (dog_calls clone dog k cs).done (dog_calls clone dog k cs).routines h.2
            h.3,
      )
