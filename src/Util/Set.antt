-- ===== src/Util/Set.antt =====
-- util/set.go: `DisorderSet`, a set of items by key that reports how an incoming list differs from
-- it. Pointers to `itemTuple` are map values here, and a write through one is a `put`.
pub mod Index
pub mod Diff
pub mod Same
pub mod Update
pub mod Replay
pub mod Invariant
pub mod Sort
pub mod Sorted
use dion.Prelude.{
  Bool, true, false, Option, none, some, List, [], ◌∷◌, ◌++◌, ◌≡◌, String, String-discrete,
  if◌then◌else◌,
}
use dion.Prelude.GoMap.{GoMap, get, put, del}

-- The interface `DisorderSetItem`.
pub record Item (A : Type 0) : Type 0 where
  pub key : A → String
  pub compare : A → A → Bool
  pub clone : A → A

-- What the comments of the interface promise: a clone is a copy, and an item is the same as itself.
pub record Lawful {A : Type 0} (item : Item A) : Type 0 where
  pub clone_lem : (a : A) → item.clone a ≡ a
  pub compare_refl : (a : A) → item.compare a a ≡ true

pub record ItemTuple (A : Type 0) : Type 0 where
  pub value : A
  pub checked : Bool

pub record DisorderSet (A : Type 0) : Type 0 where
  pub index : GoMap String (ItemTuple A)

pub record ReplaceTuple (A : Type 0) : Type 0 where
  pub old : A
  pub new : A

-- The three results of `Update`.
pub record Changes (A : Type 0) : Type 0 where
  pub added : List A
  pub deleted : List A
  pub replaced : List (ReplaceTuple A)

-- The index and the named results while the first loop of `Update` runs.
pub record Scan (A : Type 0) : Type 0 where
  pub index : GoMap String (ItemTuple A)
  pub added : List A
  pub replaced : List (ReplaceTuple A)

module _ {A : Type 0} where
  unfoldable pub new_set : DisorderSet A
  new_set = record { index = [] }

  unfoldable pub reset : GoMap String (ItemTuple A) → GoMap String (ItemTuple A)
  reset [] = []
  reset ((k, t) ∷ m) = (k, record t { checked = false }) ∷ reset m

  -- The second loop of `Update`: unchecked tuples leave the index and are reported.
  unfoldable pub sweep : GoMap String (ItemTuple A) → GoMap String (ItemTuple A) × List A
  sweep [] = ([], [])
  sweep ((k, t) ∷ m) =
      let (rest, gone) = sweep m in
      if t.checked then ((k, t) ∷ rest, gone) else (rest, t.value ∷ gone)

  -- The last loop of `IsSame`.
  unfoldable pub all_checked : GoMap String (ItemTuple A) → Bool
  all_checked [] = true
  all_checked ((k, t) ∷ m) = let rest = all_checked m in if t.checked then rest else false

module _ {A : Type 0} (item : Item A) where
  open item use {key, compare, clone}

  unfoldable pub add : DisorderSet A → A → DisorderSet A
  add s a = record {
    index = put String-discrete (key a) (record { value = clone a; checked = false }) s.index;
  }

  unfoldable pub remove : DisorderSet A → A → DisorderSet A
  remove s a = record { index = del String-discrete (key a) s.index }

  unfoldable pub exist : DisorderSet A → A → Bool
  exist s a = elim (get String-discrete (key a) s.index) [
    | some t ↦ compare t.value a
    | none ↦ false
  ]

  -- One round of the first loop of `Update`.
  unfoldable pub visit : Scan A → A → Scan A
  visit st a = elim (get String-discrete (key a) st.index) [
    | some t ↦
        if compare t.value a
        then record st {
          index = put String-discrete (key a) (record t { checked = true }) st.index;
        }
        else record {
          index = put String-discrete (key a) (record { value = clone a; checked = true }) st.index;
          added = st.added;
          replaced = st.replaced ++ (record { old = t.value; new = a }) ∷ [];
        }
    | none ↦ record {
      index = put String-discrete (key a) (record { value = clone a; checked = true }) st.index;
      added = st.added ++ a ∷ [];
      replaced = st.replaced;
    }
  ]

  unfoldable pub scan : Scan A → List A → Scan A
  scan st [] = st
  scan st (a ∷ rest) = scan (visit st a) rest

  unfoldable pub start : DisorderSet A → Scan A
  start s = record { index = reset s.index; added = []; replaced = [] }

  unfoldable pub update : DisorderSet A → List A → DisorderSet A × Changes A
  update s list =
      let st = scan (start s) list in
      let (kept, gone) = sweep st.index in
      (record { index = kept }, record { added = st.added; deleted = gone; replaced = st.replaced })

  -- The first loop of `IsSame`: `none` is its `return false`. The marks made so far stay in the
  -- index, which nothing reads before the next `reset`.
  unfoldable pub mark_all :
      GoMap String (ItemTuple A) → List A → Option (GoMap String (ItemTuple A))
  mark_all m [] = some m
  mark_all m (a ∷ rest) = elim (get String-discrete (key a) m) [
    | some t ↦ elim (compare t.value a) [
      | true ↦ mark_all (put String-discrete (key a) (record t { checked = true }) m) rest
      | false ↦ none
    ]
    | none ↦ none
  ]

  unfoldable pub is_same : DisorderSet A → List A → Bool
  is_same s list = elim (mark_all (reset s.index) list) [ some m ↦ all_checked m | none ↦ false ]

  -- `NewDisorderSetFromList`
  unfoldable pub add_all : DisorderSet A → List A → DisorderSet A
  add_all s [] = s
  add_all s (a ∷ rest) = add_all (add s a) rest

  unfoldable pub new_set_from_list : List A → DisorderSet A
  unfolding new_set
  new_set_from_list list = add_all new_set list
