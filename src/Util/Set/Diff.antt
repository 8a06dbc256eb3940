-- ===== src/Util/Set/Diff.antt =====
-- The three results of `Update` (util/set.go), in closed form.
use dion.Prelude.{
  Bool, true, false, ◌||◌, Option, none, some, List, [], ◌∷◌, ◌++◌, ◌≡◌, refl, sym, ◌∙◌, String,
  String-discrete, arith, if◌then◌else◌, holds,
}
use mathlib.Core.List.{append-nil, append_assoc}
use dion.Prelude.GoMap.{GoMap, get, put, Distinct}
use dion.Util.Set.{
  Item, ItemTuple, ReplaceTuple, DisorderSet, Scan, reset, sweep, visit, scan, start, update,
}
use dion.Util.Set.Index.{
  IsWf, find, settle, visit-index, get-visit, get-reset, visit-Distinct, reset-Distinct,
}

module _ {A : Type 0} (item : Item A) where
  open item use {key, compare, clone}

  -- Some item of the list has the key.
  unfoldable pub listed : String → List A → Bool
  listed k [] = false
  listed k (a ∷ rest) = holds (String-discrete (key a) k) || listed k rest

  -- The values of the index whose key the list does not name.
  unfoldable pub unlisted : GoMap String (ItemTuple A) → List A → List A
  unlisted [] list = []
  unlisted ((k, t) ∷ m) list =
      let rest = unlisted m list in if listed k list then rest else t.value ∷ rest

  -- The unmarked ones among them.
  unfoldable pub gone : GoMap String (ItemTuple A) → List A → List A
  gone [] list = []
  gone ((k, t) ∷ m) list =
      let rest = gone m list in if t.checked || listed k list then rest else t.value ∷ rest

  pub sweep-gone : (m : GoMap String (ItemTuple A)) → (sweep m).1 ≡ gone m []
  unfolding sweep gone listed
  sweep-gone [] = refl
  sweep-gone ((k, t) ∷ m) = ground (arith, sweep-gone m)

  pub gone-reset :
      (m : GoMap String (ItemTuple A)) (list : List A) → gone (reset m) list ≡ unlisted m list
  unfolding reset gone unlisted
  gone-reset [] list = refl
  gone-reset ((k, t) ∷ m) list = ground (arith, gone-reset m list)

  gone_absent :
      (m : GoMap String (ItemTuple A)) (a : A) (list : List A)
      → find (key a) m ≡ none
      → gone m (a ∷ list) ≡ gone m list
  unfolding gone listed get
  gone_absent [] a list h = refl
  gone_absent ((k, t) ∷ m) a list h = ground (arith, gone_absent m a list)

  pub gone-put :
      (m : GoMap String (ItemTuple A)) (a : A) (t : ItemTuple A) (list : List A)
      → t.checked ≡ true
      → Distinct String-discrete m
      → gone (put String-discrete (key a) t m) list ≡ gone m (a ∷ list)
  unfolding gone listed put
  gone-put [] a t list c d = ground arith
  gone-put ((k, u) ∷ m) a t list c d =
      ground (arith, gone-put m a t list c d.1, gone_absent m a list)

  settle-checked : (o : Option (ItemTuple A)) (a : A) → (settle item o a).checked ≡ true
  unfolding settle
  settle-checked none a = refl
  settle-checked (some t) a = refl

  gone-scan :
      (st : Scan A) (list : List A)
      → Distinct String-discrete st.index
      → gone (scan item st list).index [] ≡ gone st.index list
  unfolding scan
  gone-scan st [] d = refl
  gone-scan st (a ∷ rest) d =
      gone-scan (visit item st a) rest (visit-Distinct item st a d)
      ∙ rw (visit-index item st a) (
          gone-put st.index a (settle item (find (key a) st.index) a) rest
            (settle-checked (find (key a) st.index) a) d)

  -- `Update` reports as deleted exactly the values whose key the list does not name.
  pub update-deleted :
      (s : DisorderSet A) (list : List A)
      → IsWf s
      → (update item s list).1.deleted ≡ unlisted s.index list
  unfolding update start
  update-deleted s list d =
      sweep-gone (scan item (start item s) list).index
      ∙ gone-scan (start item s) list (reset-Distinct s.index d)
      ∙ gone-reset s.index list

  -- The items whose key the index lacks.
  unfoldable pub absent : GoMap String (ItemTuple A) → List A → List A
  absent m [] = []
  absent m (a ∷ rest) =
      let as_ = absent m rest in elim (find (key a) m) [ none ↦ a ∷ as_ | some t ↦ as_ ]

  -- The items whose key holds a value that compares different, with that value.
  unfoldable pub differing : GoMap String (ItemTuple A) → List A → List (ReplaceTuple A)
  differing m [] = []
  differing m (a ∷ rest) =
      let ds = differing m rest in
      elim (find (key a) m) [
        | none ↦ ds
        | some t ↦ if compare t.value a then ds else (record { old = t.value; new = a }) ∷ ds
      ]

  -- No two items of the list have one key.
  abbrev pub DistinctKeys : List A → Type 0
  DistinctKeys [] = Unit
  DistinctKeys (a ∷ rest) = (listed (key a) rest ≡ false) × DistinctKeys rest

  -- The two maps have the same values at the keys of the list.
  abbrev Agree : GoMap String (ItemTuple A) → GoMap String (ItemTuple A) → List A → Type 0
  Agree m n [] = Unit
  Agree m n (a ∷ rest) = (find (key a) m ≡ find (key a) n) × Agree m n rest

  Agree-visit :
      (st : Scan A) (n : GoMap String (ItemTuple A)) (a : A) (rest : List A)
      → listed (key a) rest ≡ false
      → Agree st.index n rest
      → Agree (visit item st a).index n rest
  unfolding listed
  Agree-visit st n a [] h g = tt
  Agree-visit st n a (b ∷ rest) h g =
      ground (arith, get-visit item (key b) st a, Agree-visit st n a rest)

  visit-added :
      (st : Scan A) (a : A) → (visit item st a).added ≡ st.added ++ absent st.index (a ∷ [])
  unfolding visit absent
  visit-added st a = ground (arith, append-nil st.added)

  visit-replaced :
      (st : Scan A) (a : A)
      → (visit item st a).replaced ≡ st.replaced ++ differing st.index (a ∷ [])
  unfolding visit differing
  visit-replaced st a = ground (arith, append-nil st.replaced)

  absent-cons :
      (m n : GoMap String (ItemTuple A)) (a : A) (rest : List A)
      → find (key a) m ≡ find (key a) n
      → absent m (a ∷ []) ++ absent n rest ≡ absent n (a ∷ rest)
  unfolding absent
  absent-cons m n a rest h = ground arith

  differing-cons :
      (m n : GoMap String (ItemTuple A)) (a : A) (rest : List A)
      → find (key a) m ≡ find (key a) n
      → differing m (a ∷ []) ++ differing n rest ≡ differing n (a ∷ rest)
  unfolding differing
  differing-cons m n a rest h = ground arith

  scan-changes :
      (st : Scan A) (n : GoMap String (ItemTuple A)) (list : List A)
      → DistinctKeys list
      → Agree st.index n list
      → ((scan item st list).added ≡ st.added ++ absent n list)
        × ((scan item st list).replaced ≡ st.replaced ++ differing n list)
  unfolding scan absent differing
  scan-changes st n [] d g = (sym (append-nil _), sym (append-nil _))
  scan-changes st n (a ∷ rest) d g =
      let ih = scan-changes (visit item st a) n rest d.1 (Agree-visit st n a rest d.0 g.1) in
      (
        ih.0 ∙ rw (visit-added st a, append_assoc, absent-cons st.index n a rest g.0),
        ih.1 ∙ rw (visit-replaced st a, append_assoc, differing-cons st.index n a rest g.0),
      )

  absent-reset :
      (m : GoMap String (ItemTuple A)) (list : List A) → absent (reset m) list ≡ absent m list
  unfolding absent
  absent-reset m [] = refl
  absent-reset m (a ∷ rest) = ground (arith, get-reset (key a) m, absent-reset m rest)

  differing-reset :
      (m : GoMap String (ItemTuple A)) (list : List A) → differing (reset m) list ≡ differing m list
  unfolding differing
  differing-reset m [] = refl
  differing-reset m (a ∷ rest) = ground (arith, get-reset (key a) m, differing-reset m rest)

  Agree-self : (m : GoMap String (ItemTuple A)) (list : List A) → Agree m m list
  Agree-self m [] = tt
  Agree-self m (a ∷ rest) = (refl, Agree-self m rest)

  -- For a well-formed set and a list with distinct keys, the three results of `Update` are: the
  -- items whose key is new, the values whose key the list lacks, and, where the key is there with
  -- a value that compares different, the pair of that value and the new item.
  pub update-changes :
      (s : DisorderSet A) (list : List A)
      → IsWf s
      → DistinctKeys list
      → (update item s list).1 ≡ record {
        added = absent s.index list;
        deleted = unlisted s.index list;
        replaced = differing s.index list;
      }
  unfolding update start
  update-changes s list w d =
      let h =
        scan-changes (start item s) (reset s.index) list d (Agree-self (reset s.index) list) in
      let new = h.0 ∙ absent-reset s.index list in
      let changed = h.1 ∙ differing-reset s.index list in
      let lost = update-deleted s list w in
      λ i. record { added = new i; deleted = lost i; replaced = changed i }
