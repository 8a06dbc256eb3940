-- ===== src/Util/Timer/Expiry.antt =====
-- What becomes of the values of an `ExpireSetMap` (util/timer.go).
use dion.Prelude.{
  subst, Bool, true, false, Option, none, some, List, [], ◌∷◌, ◌++◌, ℕ, suc, ◌+◌, ◌≡◌, refl, sym,
  arith, ◌||◌, if◌then◌else◌,
}
use dion.Prelude.GoMap.{GoMap, get, del}
use dion.Util.Timer.{
  Timer, OnDeleted, unset, empty, handler, ExpireSetMap, TimerEvent, updates, expires, takes,
  deletes, new_expire_set_map, new_timer, reset_timer, reset_or_new, expire, is_due, taken, find,
  store, handle_update, keep_set, tell, delete_from, handle_delete, expire_timer, take_timer,
  take_delete, timer_case, timer_step, timer_run,
}
use dion.Util.Timer.Find.{same, find-store, find-keep_set}

-- The deletions that a timer has asked for, by the state that it is in.
abbrev pub asked : Option Timer → ℕ
asked none = 0
asked (some t) = if t.waiting then 0 else 1

-- The goroutine of a timer, while it waits, will not wait for ever.
abbrev pub ends_wait : Option Timer → Bool
ends_wait none = true
ends_wait (some t) = if t.waiting then t.armed || t.full else true

module _ {K V : Type 0} (key_discrete : Discrete K) (value_discrete : Discrete V) where
  abbrev pub look : K → V → GoMap K (GoMap V Timer) → Option Timer
  look = find key_discrete value_discrete

  -- How often a deletion waits in the queue.
  unfoldable pub pending : K → V → List (K × V) → ℕ
  pending k v [] = 0
  pending k v ((j, u) ∷ rest) =
      let n = pending k v rest in if same key_discrete value_discrete j u k v then suc n else n

  pending-append :
      (k : K) (v : V) (xs ys : List (K × V))
      → pending k v (xs ++ ys) ≡ pending k v xs + pending k v ys
  unfolding pending
  pending-append k v [] ys = ground arith
  pending-append k v ((j, u) ∷ xs) ys = ground (arith, pending-append k v xs ys)

  -- For every value: a deletion waits in the queue once if the goroutine of its timer has ended, and
  -- never else; and a goroutine that waits has a timer that is started or a channel that is full.
  abbrev pub IsSound : GoMap K (GoMap V Timer) → List (K × V) → Type 0
  IsSound m ch =
      (k : K) (v : V) → (pending k v ch ≡ asked (look k v m)) × (ends_wait (look k v m) ≡ true)

  -- The same, in a state that has not crashed and has a handler.
  pub record IsKept (s : ExpireSetMap K V) : Type 0 where
    pub sound : IsSound s.m s.delete_ch
    pub told : s.on_deleted ≡ handler
    pub runs : s.crashed ≡ false

  -- A timer takes the place of another one, and asks for as many deletions.
  store-IsSound :
      (k : K) (v : V) (t : Timer) (m : GoMap K (GoMap V Timer)) (ch : List (K × V))
      → asked (some t) ≡ asked (look k v m)
      → ends_wait (some t) ≡ true
      → IsSound m ch
      → IsSound (store key_discrete value_discrete k v t m) ch
  store-IsSound k v t m ch a w i j u =
      ground (arith, i j u, i k v, find-store key_discrete value_discrete j k u v t m)

  -- The goroutine of a timer ends.
  taken-IsSound :
      (k : K) (v : V) (t : Timer) (m : GoMap K (GoMap V Timer)) (ch : List (K × V))
      → look k v m ≡ some t
      → t.waiting ≡ true
      → IsSound m ch
      → IsSound (store key_discrete value_discrete k v (taken t) m) (ch ++ (k, v) ∷ [])
  unfolding pending
  taken-IsSound k v t m ch e w i j u = ground (
    arith,
    i j u,
    i k v,
    pending-append j u ch ((k, v) ∷ []),
    find-store key_discrete value_discrete j k u v (taken t) m,
  )

  updated-IsSound :
      (o : Option Timer) (k : K) (v : V) (m : GoMap K (GoMap V Timer)) (ch : List (K × V))
      → look k v m ≡ o
      → IsSound m ch
      → IsSound (store key_discrete value_discrete k v (reset_or_new o) m) ch
  updated-IsSound none k v m ch e i = store-IsSound k v new_timer m ch (ground arith) refl i
  updated-IsSound (some t) k v m ch e i =
      store-IsSound k v (reset_timer t) m ch (ground arith) (ground arith) i

  pub handle_update-IsKept :
      (k : K) (v : V) (s : ExpireSetMap K V)
      → IsKept s
      → IsKept (handle_update key_discrete value_discrete k v s)
  unfolding handle_update
  handle_update-IsKept k v s i = record {
    sound = updated-IsSound (look k v s.m) k v s.m s.delete_ch refl i.sound;
    told = i.told;
    runs = i.runs;
  }

  expire_timer-IsKept :
      (o : Option Timer) (k : K) (v : V) (s : ExpireSetMap K V)
      → look k v s.m ≡ o
      → IsKept s
      → IsKept (expire_timer key_discrete value_discrete o k v s)
  expire_timer-IsKept none k v s e i = i
  expire_timer-IsKept (some t) k v s e i = record {
    sound =
        store-IsSound k v (expire t) s.m s.delete_ch (ground arith) (ground (arith, i.sound k v))
          i.sound;
    told = i.told;
    runs = i.runs;
  }

  when_due-IsKept :
      (b : Bool) (t : Timer) (k : K) (v : V) (s : ExpireSetMap K V)
      → look k v s.m ≡ some t
      → is_due t ≡ b
      → IsKept s
      → IsKept (
          if b
          then record s {
            m = store key_discrete value_discrete k v (taken t) s.m;
            delete_ch = s.delete_ch ++ (k, v) ∷ [];
          }
          else s)
  when_due-IsKept true t k v s e d i = record {
    sound = taken-IsSound k v t s.m s.delete_ch e (ground arith) i.sound;
    told = i.told;
    runs = i.runs;
  }
  when_due-IsKept false t k v s e d i = i

  take_timer-IsKept :
      (o : Option Timer) (k : K) (v : V) (s : ExpireSetMap K V)
      → look k v s.m ≡ o
      → IsKept s
      → IsKept (take_timer key_discrete value_discrete o k v s)
  take_timer-IsKept none k v s e i = i
  take_timer-IsKept (some t) k v s e i = when_due-IsKept (is_due t) t k v s e refl i

  -- A deletion is taken from the queue.
  deleted-IsSound :
      (k : K) (v : V) (set : GoMap V Timer) (m : GoMap K (GoMap V Timer)) (rest : List (K × V))
      → get key_discrete k m ≡ some set
      → IsSound m ((k, v) ∷ rest)
      → IsSound (keep_set key_discrete value_discrete k (del value_discrete v set) m) rest
  unfolding pending
  deleted-IsSound k v set m rest e i j u = ground (
    arith,
    i j u,
    i k v,
    find-keep_set key_discrete value_discrete j k u v set (del value_discrete v set) m e refl,
  )

  -- What waits in the queue is there.
  present :
      (k : K) (v : V) (m : GoMap K (GoMap V Timer)) (rest : List (K × V))
      → get key_discrete k m ≡ none
      → IsSound m ((k, v) ∷ rest)
      → ⊥
  unfolding pending find get
  present k v m rest e i = ground (arith, i k v)

  tell-IsKept :
      (o : OnDeleted) (k : K) (v : V) (s : ExpireSetMap K V)
      → o ≡ handler
      → IsKept s
      → IsKept (tell key_discrete value_discrete o k v s)
  tell-IsKept unset k v s e i = absurd (cc)
  tell-IsKept empty k v s e i = i
  tell-IsKept handler k v s e i = record { sound = i.sound; told = i.told; runs = i.runs }

  pub delete_from-IsKept :
      (o : Option (GoMap V Timer)) (k : K) (v : V) (rest : List (K × V)) (s : ExpireSetMap K V)
      → get key_discrete k s.m ≡ o
      → s.delete_ch ≡ (k, v) ∷ rest
      → IsKept s
      → IsKept (delete_from key_discrete value_discrete o k v (record s { delete_ch = rest }))
  delete_from-IsKept none k v rest s e q i =
      absurd (present k v s.m rest e (subst (IsSound s.m) q i.sound))
  delete_from-IsKept (some set) k v rest s e q i =
      tell-IsKept s.on_deleted k v
        (record s {
          m = keep_set key_discrete value_discrete k (del value_discrete v set) s.m;
          delete_ch = rest;
        })
        i.told
        (record {
          sound = deleted-IsSound k v set s.m rest e (subst (IsSound s.m) q i.sound);
          told = i.told;
          runs = i.runs;
        })

  pub take_delete-IsKept :
      (ch : List (K × V)) (s : ExpireSetMap K V)
      → s.delete_ch ≡ ch
      → IsKept s
      → IsKept (take_delete key_discrete value_discrete ch s)
  unfolding handle_delete
  take_delete-IsKept [] s q i = i
  take_delete-IsKept ((k, v) ∷ rest) s q i =
      delete_from-IsKept (get key_discrete k s.m) k v rest s refl q i

  pub timer_case-IsKept :
      (e : TimerEvent K V) (s : ExpireSetMap K V)
      → IsKept s
      → IsKept (timer_case key_discrete value_discrete e s)
  unfolding timer_case
  timer_case-IsKept (updates k v) s i = handle_update-IsKept k v s i
  timer_case-IsKept (expires k v) s i = expire_timer-IsKept (look k v s.m) k v s refl i
  timer_case-IsKept (takes k v) s i = take_timer-IsKept (look k v s.m) k v s refl i
  timer_case-IsKept deletes s i = take_delete-IsKept s.delete_ch s refl i

  -- In a state that has not crashed the step is that of the case.
  pub timer_step-case :
      (s : ExpireSetMap K V) (e : TimerEvent K V)
      → s.crashed ≡ false
      → timer_step key_discrete value_discrete s e ≡ timer_case key_discrete value_discrete e s
  unfolding timer_step
  timer_step-case s e r = unless s.crashed s (timer_case key_discrete value_discrete e s) r
    where
      unless : (b : Bool) (x y : ExpireSetMap K V) → b ≡ false → (if b then x else y) ≡ y
      unless true x y p = absurd (cc)
      unless false x y p = refl

  pub run-IsKept :
      (s : ExpireSetMap K V) (es : List (TimerEvent K V))
      → IsKept s
      → IsKept (timer_run key_discrete value_discrete s es)
  unfolding timer_run
  run-IsKept s [] i = i
  run-IsKept s (e ∷ es) i =
      run-IsKept (timer_step key_discrete value_discrete s e) es
        (subst IsKept (sym (timer_step-case s e i.runs)) (timer_case-IsKept e s i))

  pub new_expire_set_map-IsKept : IsKept (new_expire_set_map handler)
  unfolding new_expire_set_map pending find get
  new_expire_set_map-IsKept = record { sound = λ k v. (refl, refl); told = refl; runs = refl }

  -- In every state that a map with a handler reaches, and for every value: the map has not crashed;
  -- a deletion of the value waits in the queue exactly once if the goroutine of its timer has ended,
  -- and none does else; and a goroutine that waits has a timer that is started or has expired.
  pub timer_run-IsKept :
      (es : List (TimerEvent K V))
      → IsKept (timer_run key_discrete value_discrete (new_expire_set_map handler) es)
  timer_run-IsKept es = run-IsKept (new_expire_set_map handler) es new_expire_set_map-IsKept
