-- ===== src/Util/Set/Sort.antt =====
-- `Sort` (util/set.go): the clones of the items, in the order of their keys. The sort is by
-- insertion; Go's sort.Sort leaves its method open, and the keys of a set are different.
use dion.Prelude.{List, [], ◌∷◌, String, if◌then◌else◌}
use dion.Prelude.Order.{text_before}
use dion.Prelude.GoMap.{GoMap}
use dion.Util.Set.{Item, ItemTuple, DisorderSet}

module _ {A : Type 0} (item : Item A) where
  open item use {key, clone}

  -- The list before `sort.Sort`.
  unfoldable pub gather : GoMap String (ItemTuple A) → List A
  gather [] = []
  gather ((k, t) ∷ m) = clone t.value ∷ gather m

  unfoldable pub insert : A → List A → List A
  insert a [] = a ∷ []
  insert a (b ∷ rest) =
      let more = insert a rest in if text_before (key b) (key a) then b ∷ more else a ∷ b ∷ rest

  unfoldable pub insert_all : List A → List A
  insert_all [] = []
  insert_all (a ∷ rest) = insert a (insert_all rest)

  unfoldable pub sort : DisorderSet A → List A
  sort s = insert_all (gather s.index)
