-- ===== src/Util/Timer/Find.antt =====
-- The lookups of an `ExpireSetMap` (util/timer.go) after a change.
use dion.Prelude.{Bool, none, some, [], ◌∷◌, ◌≡◌, holds, ◌&&◌, if◌then◌else◌, arith}
use dion.Prelude.GoMap.{GoMap, get, put, del, get-put, get-del}
use dion.Util.Timer.{Timer, set_of, find, store, keep_set}

module _ {K V : Type 0} (key_discrete : Discrete K) (value_discrete : Discrete V) where
  -- Two places are the same.
  abbrev pub same : K → V → K → V → Bool
  same j u k v = holds (key_discrete j k) && holds (value_discrete u v)

  pub find-store :
      (j k : K) (u v : V) (t : Timer) (m : GoMap K (GoMap V Timer))
      → find key_discrete value_discrete j u (store key_discrete value_discrete k v t m)
        ≡ (if same k v j u then some t else find key_discrete value_discrete j u m)
  unfolding find store
  find-store j k u v t m = ground (
    arith,
    get-put key_discrete j k
        (put value_discrete v t (set_of key_discrete value_discrete (get key_discrete k m))) m,
    get-put value_discrete u v t (set_of key_discrete value_discrete (get key_discrete k m)),
  )

  pub find-keep_set :
      (j k : K) (u v : V) (set rest : GoMap V Timer) (m : GoMap K (GoMap V Timer))
      → get key_discrete k m ≡ some set
      → del value_discrete v set ≡ rest
      → find key_discrete value_discrete j u (keep_set key_discrete value_discrete k rest m)
        ≡ (if same k v j u then none else find key_discrete value_discrete j u m)
  unfolding find get
  find-keep_set j k u v set [] m e q =
      ground (arith, get-del key_discrete j k m, get-del value_discrete u v set)
  find-keep_set j k u v set (x ∷ rest) m e q =
      ground (arith, get-put key_discrete j k (x ∷ rest) m, get-del value_discrete u v set)
