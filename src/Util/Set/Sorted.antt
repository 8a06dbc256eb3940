-- ===== src/Util/Set/Sorted.antt =====
-- `Sort` (util/set.go): its list is in order, holds the items of the set, and does not depend on the
-- order in which Go walks the map.
use dion.Prelude.{
  true, false, ◌||◌, none, some, List, [], ◌∷◌, ◌≡◌, ◌≢◌, refl, sym, ◌∙◌, arith, String,
  String-discrete, holds, is_some, if◌then◌else◌, Bool-cases, inl, inr, All,
}
use dion.Prelude.Order.{
  text_before, text_before_irreflexive, text_before_transitive, text_before_total,
}
use dion.Prelude.GoMap.{GoMap, get}
use dion.Util.Set.{Item, Lawful, ItemTuple, DisorderSet}
use dion.Util.Set.Index.{IsWf, find, last_with}
use dion.Util.Set.Diff.{listed}
use dion.Util.Set.Replay.{IsKeyed, view}
use dion.Util.Set.Update.{last_with_unlisted}
use dion.Util.Set.Invariant.{Inv}
use dion.Util.Set.Sort.{gather, insert, insert_all, sort}

module _ {A : Type 0} (item : Item A) where
  open item use {key, clone}

  abbrev pub Above : String → List A → Type 0
  Above k = All (λ b. text_before k (key b) ≡ true)

  -- The keys increase strictly.
  abbrev pub IsAscending : List A → Type 0
  IsAscending [] = Unit
  IsAscending (a ∷ rest) = Above (key a) rest × IsAscending rest

  Above-insert :
      (k : String) (a : A) (list : List A)
      → text_before k (key a) ≡ true
      → Above k list
      → Above k (insert item a list)
  unfolding insert
  Above-insert k a [] e h = (e, tt)
  Above-insert k a (b ∷ rest) e h = elim (Bool-cases (text_before (key b) (key a))) [
    | inl g ↦ rw (insert, g) (h.0, Above-insert k a rest e h.1)
    | inr g ↦ rw (insert, g) (e, h)
  ]

  Above-trans :
      (j k : String) (list : List A) → text_before j k ≡ true → Above k list → Above j list
  Above-trans j k [] e h = tt
  Above-trans j k (b ∷ rest) e h =
      (text_before_transitive j k (key b) e h.0, Above-trans j k rest e h.1)

  insert-IsAscending :
      (a : A) (list : List A)
      → listed item (key a) list ≡ false
      → IsAscending list
      → IsAscending (insert item a list)
  unfolding insert listed
  insert-IsAscending a [] n h = (tt, tt)
  insert-IsAscending a (b ∷ rest) n h = elim (Bool-cases (text_before (key b) (key a))) [
    | inl g ↦
        rw (insert, g)
          (Above-insert (key b) a rest g h.0, insert-IsAscending a rest (ground arith) h.1)
    | inr g ↦
        let e = text_before_total (key b) (key a) (ground arith) g in
        rw (insert, g) ((e, Above-trans (key a) (key b) rest e h.0), h)
  ]

  listed-insert :
      (k : String) (a : A) (list : List A)
      → listed item k (insert item a list) ≡ holds (String-discrete (key a) k) || listed item k list
  unfolding insert listed
  listed-insert k a [] = refl
  listed-insert k a (b ∷ rest) = ground (arith, listed-insert k a rest)

  last_with-insert :
      (k : String) (a : A) (list : List A)
      → listed item (key a) list ≡ false
      → last_with item k (insert item a list)
        ≡ (if holds (String-discrete (key a) k) then some a else last_with item k list)
  unfolding insert last_with listed
  last_with-insert k a [] n = ground arith
  last_with-insert k a (b ∷ rest) n =
      ground (arith, last_with-insert k a rest, last_with_unlisted item (key a) rest)

  listed-insert_all :
      (k : String) (list : List A) → listed item k (insert_all item list) ≡ listed item k list
  unfolding insert_all listed
  listed-insert_all k [] = refl
  listed-insert_all k (a ∷ rest) =
      ground (arith, listed-insert k a (insert_all item rest), listed-insert_all k rest)

  module _ (law : Lawful item) where
    listed-gather :
        (k : String) (m : GoMap String (ItemTuple A))
        → IsKeyed item m
        → listed item k (gather item m) ≡ is_some (find k m)
    unfolding gather listed get
    listed-gather k [] h = refl
    listed-gather k ((j, t) ∷ m) h = ground (arith, listed-gather k m h.1, law.clone_lem t.value)

    -- What sorting the items of an index yields.
    sorted :
        (m : GoMap String (ItemTuple A)) (k : String)
        → IsWf (record { index = m })
        → IsKeyed item m
        → IsAscending (insert_all item (gather item m))
          × (last_with item k (insert_all item (gather item m))
              ≡ get String-discrete k (view item m))
    unfolding gather insert_all view get last_with
    sorted [] k d h = (tt, refl)
    sorted ((j, t) ∷ m) k d h =
        let (up, same) = sorted m k d.1 h.1 in
        let rest = insert_all item (gather item m) in
        let n : listed item (key (clone t.value)) rest ≡ false = ground (
          arith,
          listed-insert_all j (gather item m),
          listed-gather j m h.1,
          law.clone_lem t.value,
        ) in
        (
          insert-IsAscending (clone t.value) rest n up,
          ground (arith, last_with-insert k (clone t.value) rest n, same, law.clone_lem t.value),
        )

    unlisted-Above : (k : String) (list : List A) → Above k list → listed item k list ≡ false
    unfolding listed
    unlisted-Above k [] h = refl
    unlisted-Above k (b ∷ rest) h =
        ground (arith, unlisted-Above k rest h.1, text_before_irreflexive k)

    absent-Above : (k : String) (list : List A) → Above k list → last_with item k list ≡ none
    absent-Above k list h = last_with_unlisted item k list (unlisted-Above k list h)

    last_with_head :
        (a : A) (rest : List A) → Above (key a) rest → last_with item (key a) (a ∷ rest) ≡ some a
    unfolding last_with
    last_with_head a rest h = ground (arith, absent-Above (key a) rest h)

    heads_differ :
        (a b : A) (xs ys : List A)
        → IsAscending (a ∷ xs)
        → IsAscending (b ∷ ys)
        → text_before (key a) (key b) ≡ true
        → last_with item (key a) (a ∷ xs) ≢ last_with item (key a) (b ∷ ys)
    heads_differ a b xs ys h g e q =
        let p = absent-Above (key a) (b ∷ ys) (e, Above-trans (key a) (key b) ys e g.0) in
        cc (last_with_head a xs h.0, p, q)

    same_head :
        (a b : A) (xs ys : List A)
        → IsAscending (a ∷ xs)
        → IsAscending (b ∷ ys)
        → ((k : String) → last_with item k (a ∷ xs) ≡ last_with item k (b ∷ ys))
        → key a ≡ key b
    same_head a b xs ys h g same = elim (String-discrete (key a) (key b)) [
      | yes p ↦ p
      | no n ↦ elim (Bool-cases (text_before (key a) (key b))) [
        | inl e ↦ absurd (heads_differ a b xs ys h g e (same (key a)))
        | inr e ↦ absurd (
            heads_differ b a ys xs g h (text_before_total (key a) (key b) n e) (sym (same (key b))))
      ]
    ]

    same_tail :
        (a b : A) (xs ys : List A) (k : String)
        → Above (key a) xs
        → Above (key b) ys
        → key a ≡ key b
        → last_with item k (a ∷ xs) ≡ last_with item k (b ∷ ys)
        → last_with item k xs ≡ last_with item k ys
    unfolding last_with
    same_tail a b xs ys k h g e same =
        ground (arith, absent-Above (key a) xs h, absent-Above (key b) ys g, same, e)

    -- An ascending list is known by its lookups.
    ascending_unique :
        (xs ys : List A)
        → IsAscending xs
        → IsAscending ys
        → ((k : String) → last_with item k xs ≡ last_with item k ys)
        → xs ≡ ys
    unfolding last_with
    ascending_unique [] [] h g same = refl
    ascending_unique [] (b ∷ ys) h g same = absurd (cc (same (key b), last_with_head b ys g.0))
    ascending_unique (a ∷ xs) [] h g same = absurd (cc (same (key a), last_with_head a xs h.0))
    ascending_unique (a ∷ xs) (b ∷ ys) h g same =
        let e = same_head a b xs ys h g same in
        let q : a ≡ b =
          ground (arith, same (key a), last_with_head a xs h.0, last_with_head b ys g.0, e) in
        let t = ascending_unique xs ys h.1 g.1 (λ k. same_tail a b xs ys k h.0 g.0 e (same k)) in cc

    -- `Sort` of a set with one entry for each key lists its items with strictly increasing keys, and
    -- under every key the list has the item that the set has.
    pub sort-IsAscending :
        (s : DisorderSet A) (k : String)
        → Inv item s
        → IsAscending (sort item s)
          × (last_with item k (sort item s) ≡ get String-discrete k (view item s.index))
    unfolding sort
    sort-IsAscending s k h = sorted s.index k h.distinct h.keyed

    -- Two sets with the same item under every key have the same `Sort`, whatever the order in which
    -- their maps are walked.
    pub sort_unique :
        (s t : DisorderSet A)
        → Inv item s
        → Inv item t
        → ((k : String)
            → get String-discrete k (view item s.index) ≡ get String-discrete k (view item t.index))
        → sort item s ≡ sort item t
    sort_unique s t h g same =
        ascending_unique (sort item s) (sort item t) (sort-IsAscending s "" h).0
          (sort-IsAscending t "" g).0
          (λ k. (sort-IsAscending s k h).1 ∙ same k ∙ sym (sort-IsAscending t k g).1)
