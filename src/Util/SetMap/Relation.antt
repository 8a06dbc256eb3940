-- ===== src/Util/SetMap/Relation.antt =====
-- `SetMapaMteS` (util/setmap.go) is a relation: the two directions agree, and each operation
-- changes the pairs that it means to change.
use dion.Prelude.{
  Bool, false, not, ◌&&◌, ◌||◌, List, [], ◌∷◌, ◌≡◌, refl, sym, ap, ◌∙◌, arith, holds, Option-cases,
  inl, inr,
}
use dion.Prelude.GoMap.{get, keys}
use dion.Util.SetMap.{
  SetMapaMteS, exists, new_set_map, new_relation, add_pair, remove_pair, remove_key, remove_value,
}
use dion.Util.SetMap.Laws.{
  exists-add, exists-remove, exists-remove_each, exists-drop_key, member-keys, exists_of_none,
  exists_of_some,
}

pub data Call (K V : Type 0) : Type 0 where
  adds removes : K → V → Call K V
  removes_key : K → Call K V
  removes_value : V → Call K V

module _ {K V : Type 0} (dec_k : Discrete K) (dec_v : Discrete V) where
  unfoldable pub related : SetMapaMteS K V → K → V → Bool
  related r k v = exists dec_k dec_v r.forward k v

  -- The reverse map has a pair exactly when the forward map has it.
  abbrev pub Agrees : SetMapaMteS K V → Type 0
  Agrees r = (k : K) (v : V) → exists dec_v dec_k r.reverse v k ≡ exists dec_k dec_v r.forward k v

  unfoldable pub apply : SetMapaMteS K V → Call K V → SetMapaMteS K V
  apply r (adds k v) = add_pair dec_k dec_v r k v
  apply r (removes k v) = remove_pair dec_k dec_v r k v
  apply r (removes_key k) = remove_key dec_k dec_v r k
  apply r (removes_value v) = remove_value dec_k dec_v r v

  -- Which pairs are related after a call, from those related before it.
  unfoldable pub expected : Call K V → K → V → Bool → Bool
  expected (adds key value) k v before = (holds (dec_k key k) && holds (dec_v value v)) || before
  expected (removes key value) k v before =
      not (holds (dec_k key k) && holds (dec_v value v)) && before
  expected (removes_key key) k v before = not (holds (dec_k key k)) && before
  expected (removes_value value) k v before = not (holds (dec_v value v)) && before

  remove_key_cases :
      (r : SetMapaMteS K V) (key k : K) (v : V)
      → Agrees r
      → (exists dec_k dec_v (remove_key dec_k dec_v r key).forward k v
          ≡ not (holds (dec_k key k)) && exists dec_k dec_v r.forward k v)
        × (exists dec_v dec_k (remove_key dec_k dec_v r key).reverse v k
            ≡ not (holds (dec_k key k)) && exists dec_v dec_k r.reverse v k)
  unfolding remove_key
  remove_key_cases r key k v g = elim (Option-cases (get dec_k key r.forward.m)) [
    | inl e ↦
        rw (e, remove_key)
          (ground (arith, g k v, g key v, exists_of_none dec_k dec_v r.forward key v e))
    | inr (set, e) ↦
        rw (e, remove_key)
          (
            exists-drop_key dec_k dec_v r.forward key k v,
            ground (
              arith,
              exists-remove_each dec_v dec_k r.reverse (keys set) v key k,
              member-keys dec_k dec_v v set,
              g k v,
              exists_of_some dec_k dec_v r.forward key v set e,
            ),
          )
  ]

  -- The same relation, read from the other side.
  abbrev flip : SetMapaMteS K V → SetMapaMteS V K
  flip r = record { forward = r.reverse; reverse = r.forward }

  remove_value-flip :
      (r : SetMapaMteS K V) (value : V)
      → flip (remove_value dec_k dec_v r value) ≡ remove_key dec_v dec_k (flip r) value
  unfolding remove_value remove_key
  remove_value-flip r value = ground arith

module _ {K V : Type 0} (dec_k : Discrete K) (dec_v : Discrete V) where
  pub apply_cases :
      (r : SetMapaMteS K V) (c : Call K V) (k : K) (v : V)
      → Agrees dec_k dec_v r
      → (exists dec_k dec_v (apply dec_k dec_v r c).forward k v
          ≡ expected dec_k dec_v c k v (exists dec_k dec_v r.forward k v))
        × (exists dec_v dec_k (apply dec_k dec_v r c).reverse v k
            ≡ expected dec_k dec_v c k v (exists dec_v dec_k r.reverse v k))
  unfolding apply expected add_pair remove_pair
  apply_cases r (adds key value) k v g = (
    exists-add dec_k dec_v r.forward key k value v,
    exists-add dec_v dec_k r.reverse value v key k ∙ ground arith,
  )
  apply_cases r (removes key value) k v g = (
    exists-remove dec_k dec_v r.forward key k value v,
    exists-remove dec_v dec_k r.reverse value v key k ∙ ground arith,
  )
  apply_cases r (removes_key key) k v g = remove_key_cases dec_k dec_v r key k v g
  apply_cases r (removes_value value) k v g =
      let (p, q) =
        remove_key_cases dec_v dec_k (flip dec_k dec_v r) value v k (λ a b. sym (g b a)) in
      let e = remove_value-flip dec_k dec_v r value in
      (
        ap (λ x. exists dec_k dec_v x.reverse k v) e ∙ q,
        ap (λ x. exists dec_v dec_k x.forward v k) e ∙ p,
      )

  -- Every call keeps the two directions in agreement.
  pub apply-Agrees :
      (r : SetMapaMteS K V) (c : Call K V)
      → Agrees dec_k dec_v r
      → Agrees dec_k dec_v (apply dec_k dec_v r c)
  apply-Agrees r c g k v =
      let (p, q) = apply_cases r c k v g in q ∙ ap (expected dec_k dec_v c k v) (g k v) ∙ sym p

  unfoldable pub run : SetMapaMteS K V → List (Call K V) → SetMapaMteS K V
  run r [] = r
  run r (c ∷ cs) = run (apply dec_k dec_v r c) cs

  -- The pairs that a history of calls leaves related, told without any map.
  unfoldable pub expected_all : List (Call K V) → K → V → Bool → Bool
  expected_all [] k v before = before
  expected_all (c ∷ cs) k v before = expected_all cs k v (expected dec_k dec_v c k v before)

  pub run-Agrees :
      (r : SetMapaMteS K V) (cs : List (Call K V))
      → Agrees dec_k dec_v r
      → Agrees dec_k dec_v (run r cs)
  unfolding run
  run-Agrees r [] g = g
  run-Agrees r (c ∷ cs) g = run-Agrees (apply dec_k dec_v r c) cs (apply-Agrees r c g)

  related-run :
      (r : SetMapaMteS K V) (cs : List (Call K V)) (k : K) (v : V)
      → Agrees dec_k dec_v r
      → related dec_k dec_v (run r cs) k v ≡ expected_all cs k v (related dec_k dec_v r k v)
  unfolding run expected_all related
  related-run r [] k v g = refl
  related-run r (c ∷ cs) k v g =
      related-run (apply dec_k dec_v r c) cs k v (apply-Agrees r c g)
      ∙ ap (expected_all cs k v) (apply_cases r c k v g).0

  pub new_relation_empty :
      (k : K) (v : V)
      → (exists dec_k dec_v (new_relation dec_k dec_v).forward k v ≡ false)
        × (exists dec_v dec_k (new_relation dec_k dec_v).reverse v k ≡ false)
  unfolding new_relation new_set_map exists get
  new_relation_empty k v = (refl, refl)

  pub new_relation-Agrees : Agrees dec_k dec_v (new_relation dec_k dec_v)
  new_relation-Agrees k v = (new_relation_empty k v).1 ∙ sym (new_relation_empty k v).0

  -- After any calls on a new relation, the related pairs are those that the calls tell, looked up
  -- from either side: `Add` relates a pair, `Remove` takes it back, `RemoveKey` and `RemoveValue`
  -- take back all pairs of the key and of the value.
  pub run-expected :
      (cs : List (Call K V)) (k : K) (v : V)
      → (exists dec_k dec_v (run (new_relation dec_k dec_v) cs).forward k v
          ≡ expected_all cs k v false)
        × (exists dec_v dec_k (run (new_relation dec_k dec_v) cs).reverse v k
            ≡ expected_all cs k v false)
  unfolding related
  run-expected cs k v =
      let g = new_relation-Agrees in
      let p = related-run (new_relation dec_k dec_v) cs k v g in
      let q = ap (expected_all cs k v) (new_relation_empty k v).0 in
      (p ∙ q, run-Agrees (new_relation dec_k dec_v) cs g k v ∙ p ∙ q)
