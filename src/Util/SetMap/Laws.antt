-- ===== src/Util/SetMap/Laws.antt =====
-- What `Add`, `Remove` and `Exists` of `SetMap` (util/setmap.go) say about a pair.
use dion.Prelude.{
  Bool, false, not, ◌&&◌, ◌||◌, none, some, List, [], ◌∷◌, ◌≡◌, refl, arith, holds, is_some,
  if◌then◌else◌, Option-cases, inl, inr,
}
use dion.Prelude.GoMap.{get, put, del, keys, get-put, get-del}
use dion.Util.SetMap.{
  GoSet, SetMap, add, store_or_drop, remove, exists, get_set, remove_each, drop_key,
}

-- Whether a list has the element.
unfoldable pub member : {K : Type 0} → Discrete K → K → List K → Bool
member dec k [] = false
member dec k (j ∷ rest) = holds (dec j k) || member dec k rest

module _ {K V : Type 0} (dec_k : Discrete K) (dec_v : Discrete V) where
  -- After `Add` exactly the new pair and the old ones are there.
  pub exists-add :
      (s : SetMap K V) (key k : K) (value v : V)
      → exists dec_k dec_v (add dec_k dec_v s key value) k v
        ≡ (holds (dec_k key k) && holds (dec_v value v)) || exists dec_k dec_v s k v
  unfolding exists add get
  exists-add s key k value v = elim (Option-cases (get dec_k key s.m)) [
    | inl e ↦ rw (e, add) (ground (arith, get-put dec_k k key ((value, tt) ∷ []) s.m))
    | inr (set, e) ↦
        rw (e, add)
          (ground
            (arith, get-put dec_k k key (put dec_v value tt set) s.m, get-put dec_v v value tt set))
  ]

  exists-store_or_drop :
      (s : SetMap K V) (key k : K) (v : V) (set : GoSet V)
      → exists dec_k dec_v (store_or_drop dec_k dec_v s key set) k v
        ≡ (if holds (dec_k key k) then is_some (get dec_v v set) else exists dec_k dec_v s k v)
  unfolding exists store_or_drop get
  exists-store_or_drop s key k v [] = ground (arith, get-del dec_k k key s.m)
  exists-store_or_drop s key k v (e ∷ set) = ground (arith, get-put dec_k k key (e ∷ set) s.m)

  -- After `Remove` every pair but the removed one is as before.
  pub exists-remove :
      (s : SetMap K V) (key k : K) (value v : V)
      → exists dec_k dec_v (remove dec_k dec_v s key value) k v
        ≡ not (holds (dec_k key k) && holds (dec_v value v)) && exists dec_k dec_v s k v
  unfolding exists remove
  exists-remove s key k value v = elim (Option-cases (get dec_k key s.m)) [
    | inl e ↦ rw (e, remove) (ground arith)
    | inr (set, e) ↦
        rw (e, remove)
          (ground (
            arith,
            exists-store_or_drop s key k v (del dec_v value set),
            get-del dec_v v value set,
          ))
  ]

  pub exists-remove_each :
      (s : SetMap K V) (ks : List K) (k : K) (value v : V)
      → exists dec_k dec_v (remove_each dec_k dec_v s ks value) k v
        ≡ not (member dec_k k ks && holds (dec_v value v)) && exists dec_k dec_v s k v
  unfolding remove_each member
  exists-remove_each s [] k value v = refl
  exists-remove_each s (key ∷ rest) k value v = ground (
    arith,
    exists-remove_each (remove dec_k dec_v s key value) rest k value v,
    exists-remove s key k value v,
  )

  pub exists-drop_key :
      (s : SetMap K V) (key k : K) (v : V)
      → exists dec_k dec_v (drop_key dec_k dec_v s key) k v
        ≡ not (holds (dec_k key k)) && exists dec_k dec_v s k v
  unfolding exists drop_key
  exists-drop_key s key k v = ground (arith, get-del dec_k k key s.m)

  -- `GetSet` lists the values of the key.
  pub member-keys : (v : V) (set : GoSet V) → member dec_v v (keys set) ≡ is_some (get dec_v v set)
  unfolding member get
  member-keys v [] = refl
  member-keys v ((w, u) ∷ set) = ground (arith, member-keys v set)

  pub member-get_set :
      (s : SetMap K V) (k : K) (v : V)
      → member dec_v v (get_set dec_k dec_v s k) ≡ exists dec_k dec_v s k v
  unfolding get_set exists member
  member-get_set s k v = elim (Option-cases (get dec_k k s.m)) [
    | inl e ↦ rw (e, get_set, exists) refl
    | inr (set, e) ↦ rw (e, get_set, exists) (member-keys v set)
  ]

  pub exists_of_none :
      (s : SetMap K V) (k : K) (v : V) → get dec_k k s.m ≡ none → exists dec_k dec_v s k v ≡ false
  unfolding exists
  exists_of_none s k v e = rw (e, exists)

  pub exists_of_some :
      (s : SetMap K V) (k : K) (v : V) (set : GoSet V)
      → get dec_k k s.m ≡ some set
      → exists dec_k dec_v s k v ≡ is_some (get dec_v v set)
  unfolding exists
  exists_of_some s k v set e = rw (e, exists)
