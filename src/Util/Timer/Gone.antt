-- ===== src/Util/Timer/Gone.antt =====
-- A value that is not updated goes away (util/timer.go).
use dion.Prelude.{
  subst, Bool, true, false, Option, none, some, List, [], ◌∷◌, ◌++◌, ◌≡◌, refl, sym, ap, ◌∙◌, arith,
  if◌then◌else◌,
}
use dion.Prelude.GoMap.{GoMap, get, del}
use dion.Util.Timer.{
  Timer, OnDeleted, unset, empty, handler, ExpireSetMap, TimerEvent, expires, takes, deletes,
  new_expire_set_map, expire, is_due, taken, find, store, keep_set, tell, delete_from,
  handle_delete, expire_timer, take_timer, take_delete, timer_case, timer_step, timer_run,
}
use dion.Util.Timer.Find.{find-store, find-keep_set}
use dion.Util.Timer.Expiry.{
  asked, ends_wait, look, pending, IsKept, timer_case-IsKept, timer_step-case, timer_run-IsKept,
  run-IsKept,
}

-- A value that is gone, or whose goroutine has asked for the deletion.
abbrev pub is_doomed : Option Timer → Bool
is_doomed none = true
is_doomed (some t) = if t.waiting then false else true

-- The queue, handled to its end.
unfoldable pub all_deletes : {K V : Type 0} → List (K × V) → List (TimerEvent K V)
all_deletes [] = []
all_deletes (x ∷ rest) = deletes ∷ all_deletes rest

module _ {K V : Type 0} (key_discrete : Discrete K) (value_discrete : Discrete V) where
  is_doomed-delete :
      (o : Option (GoMap V Timer)) (j k : K) (u v : V) (rest : List (K × V)) (s : ExpireSetMap K V)
      → get key_discrete k s.m ≡ o
      → is_doomed (look key_discrete value_discrete j u s.m) ≡ true
      → is_doomed (
          look key_discrete value_discrete j u
            (delete_from key_discrete value_discrete o k v (record s { delete_ch = rest })).m)
        ≡ true
  is_doomed-delete none j k u v rest s e d = d
  is_doomed-delete (some set) j k u v rest s e d = told s.on_deleted
    where
      told :
          (o : OnDeleted)
          → is_doomed (
              look key_discrete value_discrete j u
                (tell key_discrete value_discrete o k v (record s {
                  m = keep_set key_discrete value_discrete k (del value_discrete v set) s.m;
                  delete_ch = rest;
                })).m)
            ≡ true
      told unset = ground (
        arith,
        find-keep_set key_discrete value_discrete j k u v set (del value_discrete v set) s.m e refl,
      )
      told empty = ground (
        arith,
        find-keep_set key_discrete value_discrete j k u v set (del value_discrete v set) s.m e refl,
      )
      told handler = ground (
        arith,
        find-keep_set key_discrete value_discrete j k u v set (del value_discrete v set) s.m e refl,
      )

  queue-delete :
      (o : Option (GoMap V Timer)) (k : K) (v : V) (rest : List (K × V)) (s : ExpireSetMap K V)
      → (delete_from key_discrete value_discrete o k v (record s { delete_ch = rest })).delete_ch
        ≡ rest
  queue-delete none k v rest s = refl
  queue-delete (some set) k v rest s = told s.on_deleted
    where
      told :
          (o : OnDeleted)
          → (tell key_discrete value_discrete o k v (record s {
            m = keep_set key_discrete value_discrete k (del value_discrete v set) s.m;
            delete_ch = rest;
          })).delete_ch
            ≡ rest
      told unset = refl
      told empty = refl
      told handler = refl

  -- The queue is handled, and a value whose deletion was asked for is gone.
  drained :
      (ch : List (K × V)) (j : K) (u : V) (s : ExpireSetMap K V)
      → s.delete_ch ≡ ch
      → IsKept key_discrete value_discrete s
      → is_doomed (look key_discrete value_discrete j u s.m) ≡ true
      → look key_discrete value_discrete j u
          (timer_run key_discrete value_discrete s (all_deletes ch)).m
        ≡ none
  unfolding timer_run all_deletes timer_case handle_delete pending
  drained [] j u s q i d =
      gone (look key_discrete value_discrete j u s.m) d
        (sym (i.sound j u).0 ∙ ap (pending key_discrete value_discrete j u) q)
    where
      gone : (o : Option Timer) → is_doomed o ≡ true → asked o ≡ 0 → o ≡ none
      gone none e z = refl
      gone (some t) e z = ground (arith)
  drained ((k, v) ∷ rest) j u s q i d =
      let c =
        timer_step-case key_discrete value_discrete s deletes i.runs
        ∙ ap (λ l. take_delete key_discrete value_discrete l s) q in
      let o = get key_discrete k s.m in
      drained rest j u (timer_step key_discrete value_discrete s deletes)
        (ap (λ x. x.delete_ch) c ∙ queue-delete o k v rest s)
        (subst (IsKept key_discrete value_discrete)
          (sym (timer_step-case key_discrete value_discrete s deletes i.runs))
          (timer_case-IsKept key_discrete value_discrete deletes s i))
        (subst (λ x. is_doomed (look key_discrete value_discrete j u x.m) ≡ true) (sym c)
          (is_doomed-delete o j k u v rest s refl d))

  -- What the timer and its goroutine do once the time is over.
  abbrev pub time_over : K → V → ExpireSetMap K V → ExpireSetMap K V
  time_over k v s = timer_run key_discrete value_discrete s (expires k v ∷ takes k v ∷ [])

  -- The goroutine of a timer would not wait now.
  abbrev is_ready : Option Timer → Bool
  is_ready none = true
  is_ready (some t) = if t.waiting then t.full else true

  expire_timer-ready :
      (o : Option Timer) (k : K) (v : V) (s : ExpireSetMap K V)
      → look key_discrete value_discrete k v s.m ≡ o
      → ends_wait o ≡ true
      → is_ready (
          look key_discrete value_discrete k v (expire_timer key_discrete value_discrete o k v s).m)
        ≡ true
  expire_timer-ready none k v s e w = ground arith
  expire_timer-ready (some t) k v s e w =
      ground (arith, find-store key_discrete value_discrete k k v v (expire t) s.m)

  due-doomed :
      (b : Bool) (t : Timer) (k : K) (v : V) (s : ExpireSetMap K V)
      → look key_discrete value_discrete k v s.m ≡ some t
      → is_due t ≡ b
      → is_ready (some t) ≡ true
      → is_doomed (
          look key_discrete value_discrete k v
            (if b
              then record s {
                m = store key_discrete value_discrete k v (taken t) s.m;
                delete_ch = s.delete_ch ++ (k, v) ∷ [];
              }
              else s).m)
        ≡ true
  due-doomed true t k v s e d r =
      ground (arith, find-store key_discrete value_discrete k k v v (taken t) s.m)
  due-doomed false t k v s e d r = ground (arith)

  take_timer-doomed :
      (o : Option Timer) (k : K) (v : V) (s : ExpireSetMap K V)
      → look key_discrete value_discrete k v s.m ≡ o
      → is_ready o ≡ true
      → is_doomed
          (look key_discrete value_discrete k v (take_timer key_discrete value_discrete o k v s).m)
        ≡ true
  take_timer-doomed none k v s e r = ground arith
  take_timer-doomed (some t) k v s e r = due-doomed (is_due t) t k v s e refl r

  time_over-doomed :
      (k : K) (v : V) (s : ExpireSetMap K V)
      → IsKept key_discrete value_discrete s
      → is_doomed (look key_discrete value_discrete k v (time_over k v s).m) ≡ true
  unfolding timer_run timer_case
  time_over-doomed k v s i =
      let step = timer_step key_discrete value_discrete in
      let first = timer_step-case key_discrete value_discrete s (expires k v) i.runs in
      let v1 = step s (expires k v) in
      let kept = run-IsKept key_discrete value_discrete s (expires k v ∷ []) i in
      let second = timer_step-case key_discrete value_discrete v1 (takes k v) kept.runs in
      let ready =
        subst (λ x. is_ready (look key_discrete value_discrete k v x.m) ≡ true) (sym first)
          (expire_timer-ready (look key_discrete value_discrete k v s.m) k v s refl
            (i.sound k v).1) in
      subst (λ x. is_doomed (look key_discrete value_discrete k v x.m) ≡ true) (sym second)
        (take_timer-doomed (look key_discrete value_discrete k v v1.m) k v v1 refl ready)

  -- In every state that a map with a handler reaches: if the time of a value is over and its
  -- goroutine goes on, then the value is gone once the queue of deletions was handled to its end.
  pub all_deletes-gone :
      (es : List (TimerEvent K V)) (k : K) (v : V)
      → let s =
          time_over k v (timer_run key_discrete value_discrete (new_expire_set_map handler) es) in
        find key_discrete value_discrete k v
          (timer_run key_discrete value_discrete s (all_deletes s.delete_ch)).m
        ≡ none
  all_deletes-gone es k v =
      let s = timer_run key_discrete value_discrete (new_expire_set_map handler) es in
      let i = timer_run-IsKept key_discrete value_discrete es in
      drained (time_over k v s).delete_ch k v (time_over k v s) refl
        (run-IsKept key_discrete value_discrete s (expires k v ∷ takes k v ∷ []) i)
        (time_over-doomed k v s i)
