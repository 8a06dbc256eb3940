-- ===== src/Util/SetMap/Unique.antt =====
-- `GetUniqueKeys` and `GetUniqueValues` (util/setmap.go).
use dion.Prelude.{
  Bool, true, false, ◌&&◌, some, List, [], ◌∷◌, ◌≡◌, ◌≢◌, ◌↔◌, refl, sym, ap, subst, ◌∙◌, arith,
  ite, is_some, Option-cases, inl, inr, All, length, ltb,
}
use dion.Prelude.GoMap.{GoMap, get, put, del, keys, Distinct, put-Distinct, del-Distinct}
use dion.Util.SetMap.{
  GoSet, SetMap, SetMapaMteS, add, remove, store_or_drop, exists, get_set, remove_each, drop_key,
  new_set_map, new_relation, add_pair, remove_pair, remove_key, remove_value, lonely_values,
  get_unique_keys, get_unique_values,
}
use dion.Util.SetMap.Laws.{member, member-keys, exists_of_none, exists_of_some}
use dion.Util.SetMap.Relation.{
  Call, adds, removes, removes_key, removes_value, Agrees, apply, run, new_relation-Agrees,
  run-Agrees,
}

module _ {K V : Type 0} (dec_k : Discrete K) (dec_v : Discrete V) where
  -- Every stored set has each value once.
  abbrev pub IsTidyMap : GoMap K (GoSet V) → Type 0
  IsTidyMap = All (λ e. Distinct dec_v e.1)

  abbrev pub IsTidy : SetMap K V → Type 0
  IsTidy s = IsTidyMap s.m

  put-IsTidy :
      (k : K) (set : GoSet V) (m : GoMap K (GoSet V))
      → Distinct dec_v set
      → IsTidyMap m
      → IsTidyMap (put dec_k k set m)
  unfolding put
  put-IsTidy k set [] d t = (d, tt)
  put-IsTidy k set ((j, old) ∷ m) d t =
      elim (dec_k j k) as (λ b. IsTidyMap (ite b ((j, set) ∷ m) ((j, old) ∷ put dec_k k set m))) [
        | yes p ↦ (d, t.1)
        | no p ↦ (t.0, put-IsTidy k set m d t.1)
      ]

  del-IsTidy : (k : K) (m : GoMap K (GoSet V)) → IsTidyMap m → IsTidyMap (del dec_k k m)
  unfolding del
  del-IsTidy k [] t = tt
  del-IsTidy k ((j, old) ∷ m) t =
      elim (dec_k j k) as (λ b. IsTidyMap (ite b (del dec_k k m) ((j, old) ∷ del dec_k k m))) [
        | yes p ↦ del-IsTidy k m t.1
        | no p ↦ (t.0, del-IsTidy k m t.1)
      ]

  get-IsTidy :
      (k : K) (m : GoMap K (GoSet V)) (set : GoSet V)
      → IsTidyMap m
      → get dec_k k m ≡ some set
      → Distinct dec_v set
  unfolding get
  get-IsTidy k [] set t e = absurd (cc)
  get-IsTidy k ((j, old) ∷ m) set t e = elim (dec_k j k) [
    | yes p ↦ subst (Distinct dec_v) (ground arith) t.0
    | no p ↦ get-IsTidy k m set t.1 (ground arith)
  ]

  add-IsTidy : (s : SetMap K V) (k : K) (v : V) → IsTidy s → IsTidy (add dec_k dec_v s k v)
  unfolding add get
  add-IsTidy s k v t = elim (Option-cases (get dec_k k s.m)) [
    | inl e ↦ rw (e, add) (put-IsTidy k _ s.m (refl, tt) t)
    | inr (set, e) ↦
        rw (e, add) (put-IsTidy k _ s.m (put-Distinct dec_v v tt set (get-IsTidy k s.m set t e)) t)
  ]

  store_or_drop-IsTidy :
      (s : SetMap K V) (k : K) (set : GoSet V)
      → Distinct dec_v set
      → IsTidy s
      → IsTidy (store_or_drop dec_k dec_v s k set)
  unfolding store_or_drop
  store_or_drop-IsTidy s k [] d t = del-IsTidy k s.m t
  store_or_drop-IsTidy s k (e ∷ set) d t = put-IsTidy k (e ∷ set) s.m d t

  remove-IsTidy : (s : SetMap K V) (k : K) (v : V) → IsTidy s → IsTidy (remove dec_k dec_v s k v)
  unfolding remove
  remove-IsTidy s k v t = elim (Option-cases (get dec_k k s.m)) [
    | inl e ↦ rw (e, remove) t
    | inr (set, e) ↦
        rw (e, remove)
          (store_or_drop-IsTidy s k (del dec_v v set)
            (del-Distinct dec_v v set (get-IsTidy k s.m set t e)) t)
  ]

  remove_each-IsTidy :
      (s : SetMap K V) (ks : List K) (v : V) → IsTidy s → IsTidy (remove_each dec_k dec_v s ks v)
  unfolding remove_each
  remove_each-IsTidy s [] v t = t
  remove_each-IsTidy s (k ∷ rest) v t =
      remove_each-IsTidy (remove dec_k dec_v s k v) rest v (remove-IsTidy s k v t)

  drop_key-IsTidy : (s : SetMap K V) (k : K) → IsTidy s → IsTidy (drop_key dec_k dec_v s k)
  unfolding drop_key
  drop_key-IsTidy s k t = del-IsTidy k s.m t

  -- A set without double entries has one entry at most exactly when all its values are the same.
  one_value :
      (v : V) (set : GoSet V)
      → Distinct dec_v set
      → is_some (get dec_v v set) ≡ true
      → (ltb (length (keys set)) 2 ≡ true) ↔ ((w : V) → is_some (get dec_v w set) ≡ true → w ≡ v)
  unfolding get
  one_value v [] d h = cc
  one_value v ((w, u) ∷ []) d h = ((λ _ x e. ground arith), (λ _. refl))
  one_value v ((w, u) ∷ (x, u') ∷ set) d h =
      ((λ e. absurd (ground arith)), (λ all. absurd (ground (arith, all w, all x))))

  one_partner :
      (s : SetMap K V) (k : K) (v : V)
      → IsTidy s
      → exists dec_k dec_v s k v ≡ true
      → (ltb (length (get_set dec_k dec_v s k)) 2 ≡ true)
        ↔ ((w : V) → exists dec_k dec_v s k w ≡ true → w ≡ v)
  unfolding get_set exists
  one_partner s k v t h = elim (Option-cases (get dec_k k s.m)) [
    | inl e ↦ cc (rw (e, exists) at h)
    | inr (set, e) ↦
        rw (e, get_set, exists) (one_value v set (get-IsTidy k s.m set t e) (rw (e, exists) at h))
  ]

module _ {K V : Type 0} (dec_k : Discrete K) (dec_v : Discrete V) where
  member-lonely_values :
      (s : SetMap V K) (v : V) (vs : List V)
      → member dec_v v (lonely_values dec_k dec_v s vs)
        ≡ member dec_v v vs && ltb (length (get_set dec_v dec_k s v)) 2
  unfolding lonely_values member
  member-lonely_values s v [] = refl
  member-lonely_values s v (w ∷ rest) = ground (arith, member-lonely_values s v rest)

  pub member-get_unique_values :
      (r : SetMapaMteS K V) (k : K) (v : V)
      → member dec_v v (get_unique_values dec_k dec_v r k)
        ≡ exists dec_k dec_v r.forward k v && ltb (length (get_set dec_v dec_k r.reverse v)) 2
  unfolding get_unique_values member
  member-get_unique_values r k v = elim (Option-cases (get dec_k k r.forward.m)) [
    | inl e ↦ rw (e, get_unique_values) (rw (exists_of_none dec_k dec_v r.forward k v e))
    | inr (set, e) ↦
        rw (e, get_unique_values)
          (rw (exists_of_some dec_k dec_v r.forward k v set e, ← member-keys dec_k dec_v v set)
            (member-lonely_values r.reverse v (keys set)))
  ]

  abbrev pub IsTidyBoth : SetMapaMteS K V → Type 0
  IsTidyBoth r = IsTidy dec_k dec_v r.forward × IsTidy dec_v dec_k r.reverse

  pub apply-IsTidy :
      (r : SetMapaMteS K V) (c : Call K V) → IsTidyBoth r → IsTidyBoth (apply dec_k dec_v r c)
  unfolding apply add_pair remove_pair remove_key remove_value
  apply-IsTidy r (adds k v) t =
      (add-IsTidy dec_k dec_v r.forward k v t.0, add-IsTidy dec_v dec_k r.reverse v k t.1)
  apply-IsTidy r (removes k v) t =
      (remove-IsTidy dec_k dec_v r.forward k v t.0, remove-IsTidy dec_v dec_k r.reverse v k t.1)
  apply-IsTidy r (removes_key k) t = elim (Option-cases (get dec_k k r.forward.m)) [
    | inl e ↦ rw (e, remove_key) t
    | inr (set, e) ↦
        rw (e, remove_key)
          (
            drop_key-IsTidy dec_k dec_v r.forward k t.0,
            remove_each-IsTidy dec_v dec_k r.reverse (keys set) k t.1,
          )
  ]
  apply-IsTidy r (removes_value v) t = elim (Option-cases (get dec_v v r.reverse.m)) [
    | inl e ↦ rw (e, remove_value) t
    | inr (set, e) ↦
        rw (e, remove_value)
          (
            remove_each-IsTidy dec_k dec_v r.forward (keys set) v t.0,
            drop_key-IsTidy dec_v dec_k r.reverse v t.1,
          )
  ]

  pub run-IsTidy :
      (r : SetMapaMteS K V) (cs : List (Call K V))
      → IsTidyBoth r
      → IsTidyBoth (run dec_k dec_v r cs)
  unfolding run
  run-IsTidy r [] t = t
  run-IsTidy r (c ∷ cs) t = run-IsTidy (apply dec_k dec_v r c) cs (apply-IsTidy r c t)

  both_true : (a b : Bool) → a && b ≡ true → (a ≡ true) × (b ≡ true)
  both_true true b h = (refl, h)
  both_true false b h = absurd (cc)

  pub new_relation-IsTidy : IsTidyBoth (new_relation dec_k dec_v)
  unfolding new_relation new_set_map
  new_relation-IsTidy = (tt, tt)

  unique_iff :
      (r : SetMapaMteS K V) (k : K) (v : V)
      → Agrees dec_k dec_v r
      → IsTidyBoth r
      → (member dec_v v (get_unique_values dec_k dec_v r k) ≡ true) ↔ (
          (exists dec_k dec_v r.forward k v ≡ true)
          × ((j : K) → exists dec_k dec_v r.forward j v ≡ true → j ≡ k))
  unique_iff r k v g t = (forth, back)
    where
      m :
          member dec_v v (get_unique_values dec_k dec_v r k)
          ≡ exists dec_k dec_v r.forward k v && ltb (length (get_set dec_v dec_k r.reverse v)) 2
      m = member-get_unique_values r k v

      forth :
          member dec_v v (get_unique_values dec_k dec_v r k) ≡ true
          → (exists dec_k dec_v r.forward k v ≡ true)
            × ((j : K) → exists dec_k dec_v r.forward j v ≡ true → j ≡ k)
      forth h =
          let (here, few) = both_true _ _ (sym m ∙ h) in
          (
            here,
            λ j e. (one_partner dec_v dec_k r.reverse v k t.1 (g k v ∙ here)).0 few j (g j v ∙ e),
          )

      back :
          (exists dec_k dec_v r.forward k v ≡ true)
            × ((j : K) → exists dec_k dec_v r.forward j v ≡ true → j ≡ k)
          → member dec_v v (get_unique_values dec_k dec_v r k) ≡ true
      back (here, only) =
          let few =
            (one_partner dec_v dec_k r.reverse v k t.1 (g k v ∙ here)).1
              (λ j e. only j (sym (g j v) ∙ e)) in
          m ∙ rw (here, few)

  -- After any calls on a new relation, `GetUniqueValues` lists exactly the values of the key that
  -- no other key has.
  pub get_unique_values_iff :
      (cs : List (Call K V)) (k : K) (v : V)
      → let r = run dec_k dec_v (new_relation dec_k dec_v) cs in
        (member dec_v v (get_unique_values dec_k dec_v r k) ≡ true) ↔ (
          (exists dec_k dec_v r.forward k v ≡ true)
          × ((j : K) → exists dec_k dec_v r.forward j v ≡ true → j ≡ k))
  get_unique_values_iff cs k v =
      unique_iff (run dec_k dec_v (new_relation dec_k dec_v) cs) k v
        (run-Agrees dec_k dec_v (new_relation dec_k dec_v) cs (new_relation-Agrees dec_k dec_v))
        (run-IsTidy (new_relation dec_k dec_v) cs new_relation-IsTidy)

module _ {K V : Type 0} (dec_k : Discrete K) (dec_v : Discrete V) where
  unique_keys-flip :
      (r : SetMapaMteS K V) (v : V)
      → get_unique_keys dec_k dec_v r v
        ≡ get_unique_values dec_v dec_k (record { forward = r.reverse; reverse = r.forward }) v
  unfolding get_unique_keys get_unique_values
  unique_keys-flip r v = refl

  -- A key that `GetUniqueKeys` lists has no other value.
  pub get_unique_keys_cases :
      (r : SetMapaMteS K V) (k : K) (v : V)
      → Agrees dec_k dec_v r
      → IsTidyBoth dec_k dec_v r
      → member dec_k k (get_unique_keys dec_k dec_v r v) ≡ true
      → (w : V) → exists dec_k dec_v r.forward k w ≡ true
      → w ≡ v
  get_unique_keys_cases r k v g t h w e =
      ((unique_iff dec_v dec_k (record { forward = r.reverse; reverse = r.forward }) v k
            (λ a b. sym (g b a)) (t.1, t.0)).0
          (sym (ap (member dec_k k) (unique_keys-flip r v)) ∙ h)).1
        w (g k w ∙ e)

  -- After any calls on a new relation, `GetUniqueKeys` lists exactly the keys of the value that
  -- have no other value.
  pub get_unique_keys_iff :
      (cs : List (Call K V)) (k : K) (v : V)
      → let r = run dec_k dec_v (new_relation dec_k dec_v) cs in
        (member dec_k k (get_unique_keys dec_k dec_v r v) ≡ true) ↔ (
          (exists dec_v dec_k r.reverse v k ≡ true)
          × ((w : V) → exists dec_v dec_k r.reverse w k ≡ true → w ≡ v))
  get_unique_keys_iff cs k v =
      let r = run dec_k dec_v (new_relation dec_k dec_v) cs in
      let g =
        run-Agrees dec_k dec_v (new_relation dec_k dec_v) cs (new_relation-Agrees dec_k dec_v) in
      let t =
        run-IsTidy dec_k dec_v (new_relation dec_k dec_v) cs (new_relation-IsTidy dec_k dec_v) in
      rw (unique_keys-flip r v) (
        unique_iff dec_v dec_k (record { forward = r.reverse; reverse = r.forward }) v k
          (λ a b. sym (g b a)) (t.1, t.0))

  -- What `GetUniqueKeys` tests, and, for a key that it leaves out, a value other than the one asked.
  pub member-get_unique_keys :
      (r : SetMapaMteS K V) (k : K) (v : V)
      → member dec_k k (get_unique_keys dec_k dec_v r v)
        ≡ exists dec_v dec_k r.reverse v k && ltb (length (get_set dec_k dec_v r.forward k)) 2
  member-get_unique_keys r k v = rw (unique_keys-flip r v) (
      member-get_unique_values dec_v dec_k (record { forward = r.reverse; reverse = r.forward }) v
        k)

  other_in_set :
      (v : V) (set : GoSet V)
      → Distinct dec_v set
      → ltb (length (keys set)) 2 ≡ false
      → (w : V) × (w ≢ v) × (is_some (get dec_v w set) ≡ true)
  unfolding get
  other_in_set v [] d h = cc
  other_in_set v ((w, u) ∷ []) d h = absurd (cc)
  other_in_set v ((w, u) ∷ (x, u') ∷ set) d h = elim (dec_v w v) [
    | no n ↦ (w, n, ground arith)
    | yes p ↦ (x, λ q. ground arith, ground arith)
  ]

  get_set_of_some :
      (s : SetMap K V) (k : K) (set : GoSet V)
      → get dec_k k s.m ≡ some set
      → get_set dec_k dec_v s k ≡ keys set
  unfolding get_set
  get_set_of_some s k set e = rw (e, get_set)

  second_false : (a b : Bool) → a ≡ true → a && b ≡ false → b ≡ false
  second_false true b h k = k
  second_false false b h k = cc

  pub other_value :
      (r : SetMapaMteS K V) (k : K) (v : V)
      → Agrees dec_k dec_v r
      → IsTidyBoth dec_k dec_v r
      → exists dec_k dec_v r.forward k v ≡ true
      → member dec_k k (get_unique_keys dec_k dec_v r v) ≡ false
      → (w : V) × (w ≢ v) × (exists dec_k dec_v r.forward k w ≡ true)
  unfolding get_set exists
  other_value r k v g t here out = elim (Option-cases (get dec_k k r.forward.m)) [
    | inl e ↦ cc (rw (e, exists) at here)
    | inr (set, e) ↦
        let few =
          rw (get_set_of_some r.forward k set e) at
            (second_false _ _ (g k v ∙ here) (sym (member-get_unique_keys r k v) ∙ out)) in
        let (w, n, m) = other_in_set v set (get-IsTidy dec_k dec_v k r.forward.m set t.0 e) few in
        (w, n, rw (exists, e) m)
  ]
