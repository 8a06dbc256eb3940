-- ===== src/Util/Set/Invariant.antt =====
-- The invariant of `DisorderSet` (util/set.go), through every operation that changes it.
use dion.Prelude.{
  false, List, [], ◌∷◌, ◌≡◌, ◌≢◌, refl, ap, String, String-discrete, arith, Option, none, some,
}
use dion.Prelude.GoMap.{GoMap, get, put, del, put-Distinct, del-Distinct, get-put, get-del}
use dion.Util.Set.{
  Item, Lawful, ItemTuple, DisorderSet, Scan, reset, sweep, visit, scan, start, add, remove, update,
  exist, new_set,
}
use dion.Util.Set.Index.{IsWf, find, settle, visit-index}
use dion.Util.Set.Update.{update-IsWf}
use dion.Util.Set.Replay.{IsKeyed}

-- One entry for each key, and every value under its own key.
pub record Inv {A : Type 0} (item : Item A) (s : DisorderSet A) : Type 0 where
  pub distinct : IsWf s
  pub keyed : IsKeyed item s.index

-- The calls that change a set.
pub data Call (A : Type 0) : Type 0 where
  adds removes : A → Call A
  updates : List A → Call A

module _ {A : Type 0} (item : Item A) where
  open item use {key, clone}

  put-IsKeyed :
      (k : String) (t : ItemTuple A) (m : GoMap String (ItemTuple A))
      → key t.value ≡ k
      → IsKeyed item m
      → IsKeyed item (put String-discrete k t m)
  unfolding put
  put-IsKeyed k t [] e h = (e, tt)
  put-IsKeyed k t ((j, u) ∷ m) e h = ground (arith, put-IsKeyed k t m e h.1)

  del-IsKeyed :
      (k : String) (m : GoMap String (ItemTuple A))
      → IsKeyed item m
      → IsKeyed item (del String-discrete k m)
  unfolding del
  del-IsKeyed k [] h = tt
  del-IsKeyed k ((j, u) ∷ m) h = ground (arith, del-IsKeyed k m h.1)

  reset-IsKeyed : (m : GoMap String (ItemTuple A)) → IsKeyed item m → IsKeyed item (reset m)
  unfolding reset
  reset-IsKeyed [] h = tt
  reset-IsKeyed ((j, u) ∷ m) h = (h.0, reset-IsKeyed m h.1)

  sweep-IsKeyed : (m : GoMap String (ItemTuple A)) → IsKeyed item m → IsKeyed item (sweep m).0
  unfolding sweep
  sweep-IsKeyed [] h = tt
  sweep-IsKeyed ((j, u) ∷ m) h = ground (arith, sweep-IsKeyed m h.1)

  find-IsKeyed :
      (k : String) (m : GoMap String (ItemTuple A)) (t : ItemTuple A)
      → IsKeyed item m
      → find k m ≡ some t
      → key t.value ≡ k
  unfolding get
  find-IsKeyed k [] t h e = cc
  find-IsKeyed k ((j, u) ∷ m) t h e = ground (arith, find-IsKeyed k m t h.1)

  settle-key :
      Lawful item
      → (o : Option (ItemTuple A)) (a : A) → ((t : ItemTuple A) → o ≡ some t → key t.value ≡ key a)
      → key (settle item o a).value ≡ key a
  unfolding settle
  settle-key law none a h = ap key (law.clone_lem a)
  settle-key law (some t) a h = ground (arith, law.clone_lem a, h t refl)

  scan-IsKeyed :
      Lawful item
      → (st : Scan A) (list : List A) → IsKeyed item st.index
      → IsKeyed item (scan item st list).index
  unfolding scan
  scan-IsKeyed law st [] h = h
  scan-IsKeyed law st (a ∷ rest) h = scan-IsKeyed law (visit item st a) rest (
      rw (visit-index item st a) (
        put-IsKeyed (key a) _ st.index
          (settle-key law (find (key a) st.index) a (λ t e. find-IsKeyed (key a) st.index t h e))
          h))

  unfoldable pub apply : DisorderSet A → Call A → DisorderSet A
  apply s (adds a) = add item s a
  apply s (removes a) = remove item s a
  apply s (updates list) = (update item s list).0

  unfoldable pub apply_all : DisorderSet A → List (Call A) → DisorderSet A
  apply_all s [] = s
  apply_all s (c ∷ cs) = apply_all (apply s c) cs

  pub apply-Inv : Lawful item → (s : DisorderSet A) (c : Call A) → Inv item s → Inv item (apply s c)
  unfolding apply add remove
  apply-Inv law s (adds a) h = record {
    distinct = put-Distinct String-discrete (key a) _ s.index h.distinct;
    keyed = put-IsKeyed (key a) _ s.index (ap key (law.clone_lem a)) h.keyed;
  }
  apply-Inv law s (removes a) h = record {
    distinct = del-Distinct String-discrete (key a) s.index h.distinct;
    keyed = del-IsKeyed (key a) s.index h.keyed;
  }
  apply-Inv law s (updates list) h = record {
    distinct = update-IsWf item s list h.distinct;
    keyed =
        unfold update start in
        sweep-IsKeyed _ (scan-IsKeyed law (start item s) list (reset-IsKeyed s.index h.keyed));
  }

  apply_all-Inv :
      Lawful item
      → (s : DisorderSet A) (cs : List (Call A)) → Inv item s
      → Inv item (apply_all s cs)
  unfolding apply_all
  apply_all-Inv law s [] h = h
  apply_all-Inv law s (c ∷ cs) h = apply_all-Inv law (apply s c) cs (apply-Inv law s c h)

  -- Any calls of `Add`, `Del` and `Update` on a new set keep one entry for each key, and every
  -- value under its own key.
  pub new_set-Inv : Lawful item → (cs : List (Call A)) → Inv item (apply_all new_set cs)
  unfolding new_set
  new_set-Inv law cs = apply_all-Inv law new_set cs (record { distinct = tt; keyed = tt })

  -- `Exist` of an item with the key of the added one answers as `Compare` of the two after `Add`, and
  -- false after `Del`; for an item with another key it answers as before both.
  pub exist-add-remove :
      Lawful item
      → (s : DisorderSet A) (a b : A)
      → (key a ≡ key b
          → (exist item (add item s a) b ≡ item.compare a b)
            × (exist item (remove item s a) b ≡ false))
        × (key a ≢ key b
            → (exist item (add item s a) b ≡ exist item s b)
              × (exist item (remove item s a) b ≡ exist item s b))
  unfolding exist add remove
  exist-add-remove law s a b =
      let p =
        get-put String-discrete (key b) (key a) (record { value = clone a; checked = false })
          s.index in
      let q = get-del String-discrete (key b) (key a) s.index in
      ((λ e. ground (arith, p, q, law.clone_lem a)), (λ n. ground (arith, p, q, law.clone_lem a)))
