-- ===== src/Util/Set/Update.antt =====
-- `Update` (util/set.go): the set after the call, and the call repeated.
use mathlib.Core.Option
use dion.Prelude.{
  true, false, Option, none, some, List, [], ◌∷◌, ◌≡◌, refl, subst, ◌∙◌, String, arith, All,
}
use dion.Prelude.GoMap.{GoMap, get}
use dion.Util.Set.{Item, Lawful, ItemTuple, DisorderSet, scan, start, update, exist, is_same}
use dion.Util.Set.Index.{
  IsWf, find, unchecked, swept, last_with, Settled, scan-Settled, get-reset, get-sweep,
  reset-Distinct, scan-Distinct, sweep-Distinct,
}
use dion.Util.Set.Diff.{listed, unlisted, absent, differing, DistinctKeys, update-changes}
use dion.Util.Set.Same.{is_same_iff}

module _ {A : Type 0} (item : Item A) where
  open item use {key, compare, clone}

  -- `Update` keeps the index free of double keys.
  pub update-IsWf : (s : DisorderSet A) (list : List A) → IsWf s → IsWf (update item s list).0
  unfolding update start
  update-IsWf s list w =
      sweep-Distinct _ (scan-Distinct item (start item s) list (reset-Distinct s.index w))

  -- What the set holds under a key after `Update`: nothing if the list does not name the key, else
  -- a value that compares the same as the last item of the list with that key.
  abbrev pub Matches : Option (ItemTuple A) → Option A → Type 0
  Matches o none = o ≡ none
  Matches o (some a) = (t : ItemTuple A) × (o ≡ some t) × (compare t.value a ≡ true)

  swept-Matches :
      (before after : Option (ItemTuple A)) (o : Option A)
      → Settled item (Option.map unchecked before) o after
      → Matches (swept after) o
  swept-Matches none after none h = ground arith
  swept-Matches (some t) after none h = ground arith
  swept-Matches before after (some a) (t, e, c, same) = (t, ground arith, same)

  -- After `Update` the set holds, for every key, what the list says: nothing under a key that the
  -- list does not name, and else a value that compares the same as the last item with that key.
  pub update-Matches :
      Lawful item
      → (s : DisorderSet A) (list : List A) → IsWf s
      → (k : String) → Matches (find k (update item s list).0.index) (last_with item k list)
  unfolding update start
  update-Matches law s list w k =
      let m = (scan item (start item s) list).index in
      rw (get-sweep k m (scan-Distinct item (start item s) list (reset-Distinct s.index w))) (
        swept-Matches (find k s.index) (find k m) (last_with item k list)
          (rw (get-reset k s.index) at (scan-Settled item law k (start item s) list)))

  pub last_with_unlisted :
      (k : String) (list : List A) → listed item k list ≡ false → last_with item k list ≡ none
  unfolding listed last_with
  last_with_unlisted k [] h = refl
  last_with_unlisted k (a ∷ rest) h = ground (arith, last_with_unlisted k rest)

  pub unlisted-last_with :
      (k : String) (list : List A) → last_with item k list ≡ none → listed item k list ≡ false
  unfolding listed last_with
  unlisted-last_with k [] h = refl
  unlisted-last_with k (a ∷ rest) h = ground (arith, unlisted-last_with k rest)

  pub unlisted_covered :
      (m : GoMap String (ItemTuple A)) (list : List A)
      → ((k : String) → listed item k list ≡ false → find k m ≡ none)
      → unlisted item m list ≡ []
  unfolding unlisted get
  unlisted_covered [] list h = refl
  unlisted_covered ((k, t) ∷ m) list h =
      let tail : (j : String) → listed item j list ≡ false → find j m ≡ none =
        λ j e. tail_none j k t m (h j e) in
      ground (arith, h k, unlisted_covered m list tail)
    where
      tail_none :
          (j k : String) (t : ItemTuple A) (m : GoMap String (ItemTuple A))
          → find j ((k, t) ∷ m) ≡ none
          → find j m ≡ none
      tail_none j k t m e = ground arith

  -- Each item of the list is the last one with its key.
  abbrev Last : List A → List A → Type 0
  Last list [] = Unit
  Last list (a ∷ rest) = (last_with item (key a) list ≡ some a) × Last list rest

  Last-cons :
      (b : A) (list rest : List A)
      → listed item (key b) list ≡ false
      → Last list rest
      → Last (b ∷ list) rest
  unfolding last_with
  Last-cons b list [] h l = tt
  Last-cons b list (a ∷ rest) h l = (ground (arith, l.0), Last-cons b list rest h l.1)

  DistinctKeys-Last : (list : List A) → DistinctKeys item list → Last list list
  unfolding last_with
  DistinctKeys-Last [] d = tt
  DistinctKeys-Last (a ∷ rest) d = (
    ground (arith, last_with_unlisted (key a) rest d.0),
    Last-cons a rest rest d.0 (DistinctKeys-Last rest d.1),
  )

  exist_of_Matches :
      (s : DisorderSet A) (list rest : List A)
      → ((k : String) → Matches (find k s.index) (last_with item k list))
      → Last list rest
      → All (λ a. exist item s a ≡ true) rest
  unfolding exist
  exist_of_Matches s list [] h l = tt
  exist_of_Matches s list (a ∷ rest) h l =
      let (t, e, c) = subst (Matches (find (key a) s.index)) l.0 (h (key a)) in
      (rw (e, exist) c, exist_of_Matches s list rest h l.1)

  -- After `Update` with a list of distinct keys, `IsSame` finds the set the same as the list.
  pub is_same-update :
      Lawful item
      → (s : DisorderSet A) (list : List A) → IsWf s
      → DistinctKeys item list
      → is_same item (update item s list).0 list ≡ true
  is_same-update law s list w d =
      let h = update-Matches law s list w in
      (is_same_iff item (update item s list).0 list (update-IsWf s list w)).1 (
        exist_of_Matches (update item s list).0 list list h (DistinctKeys-Last list d),
        unlisted_covered _ list (λ k e.
            subst (Matches (find k (update item s list).0.index)) (last_with_unlisted k list e)
              (h k)),
      )

  absent-exist :
      (s : DisorderSet A) (list : List A)
      → All (λ a. exist item s a ≡ true) list
      → (absent item s.index list ≡ []) × (differing item s.index list ≡ [])
  unfolding exist absent differing
  absent-exist s [] p = (refl, refl)
  absent-exist s (a ∷ rest) p = ground (arith, absent-exist s rest)

  -- `Update` reports no change when `IsSame` holds, for a list with distinct keys; so a second
  -- `Update` with the same list reports none.
  pub update_of_is_same :
      (s : DisorderSet A) (list : List A)
      → IsWf s
      → DistinctKeys item list
      → is_same item s list ≡ true
      → (update item s list).1 ≡ record { added = []; deleted = []; replaced = [] }
  update_of_is_same s list w d same =
      let (p, q) = (is_same_iff item s list w).0 same in
      let (e, f) = absent-exist s list p in
      update-changes item s list w d ∙ λ i. record { added = e i; deleted = q i; replaced = f i }

  pub update_twice :
      Lawful item
      → (s : DisorderSet A) (list : List A) → IsWf s
      → DistinctKeys item list
      → (update item (update item s list).0 list).1
        ≡ record { added = []; deleted = []; replaced = [] }
  update_twice law s list w d =
      update_of_is_same (update item s list).0 list (update-IsWf s list w) d
        (is_same-update law s list w d)
