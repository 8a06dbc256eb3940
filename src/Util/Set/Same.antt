-- ===== src/Util/Set/Same.antt =====
-- `IsSame` and `Exist` (util/set.go): when a list describes the same items as the set.
use dion.Prelude.{
  Bool, true, false, none, some, List, [], ◌∷◌, ◌≡◌, ◌↔◌, refl, sym, ◌∙◌, String, String-discrete,
  arith, All, inl, inr, Option-cases,
}
use dion.Prelude.GoMap.{GoMap, put, Distinct, get-put, put-Distinct}
use dion.Util.Set.{Item, ItemTuple, DisorderSet, reset, all_checked, mark_all, is_same, exist}
use dion.Util.Set.Index.{IsWf, find, get-reset, reset-Distinct}
use dion.Util.Set.Diff.{listed, unlisted, gone, gone-put, gone-reset}

module _ {A : Type 0} (item : Item A) where
  open item use {key, compare}

  -- The index holds a value under the item's key that compares the same.
  present : GoMap String (ItemTuple A) → A → Bool
  present m a = elim (find (key a) m) [ none ↦ false | some t ↦ compare t.value a ]

  abbrev AllPresent : GoMap String (ItemTuple A) → List A → Type 0
  AllPresent m [] = Unit {0}
  AllPresent m (a ∷ rest) = (present m a ≡ true) × AllPresent m rest

  all_checked-gone :
      (m : GoMap String (ItemTuple A)) → (all_checked m ≡ true) ↔ (gone item m [] ≡ [])
  unfolding all_checked gone listed
  all_checked-gone [] = ((λ _. refl), (λ _. refl))
  all_checked-gone ((k, t) ∷ m) = ground (arith, all_checked-gone m)

  -- Marking a tuple changes no answer of `present`.
  present-put :
      (m : GoMap String (ItemTuple A)) (a b : A) (t : ItemTuple A)
      → find (key a) m ≡ some t
      → present (put String-discrete (key a) (record t { checked = true }) m) b ≡ present m b
  unfolding present
  present-put m a b t h =
      ground (arith, get-put String-discrete (key b) (key a) (record t { checked = true }) m)

  AllPresent-put :
      (m : GoMap String (ItemTuple A)) (a : A) (t : ItemTuple A) (list : List A)
      → find (key a) m ≡ some t
      → AllPresent (put String-discrete (key a) (record t { checked = true }) m) list
        ↔ AllPresent m list
  AllPresent-put m a t [] h = ((λ u. u), (λ u. u))
  AllPresent-put m a t (b ∷ list) h =
      let ih = AllPresent-put m a t list h in
      let e = present-put m a b t h in ((λ p. (sym e ∙ p.0, ih.0 p.1)), (λ p. (e ∙ p.0, ih.1 p.1)))

  mark_all-gone :
      (m n : GoMap String (ItemTuple A)) (list : List A)
      → Distinct String-discrete m
      → mark_all item m list ≡ some n
      → (gone item n [] ≡ gone item m list) × AllPresent m list
  unfolding mark_all present
  mark_all-gone m n [] d h = ground arith
  mark_all-gone m n (a ∷ list) d h = elim (Option-cases (find (key a) m)) [
    | inl e ↦ ground arith
    | inr (t, e) ↦
        let u = record t { checked = true } in
        let m' = put String-discrete (key a) u m in
        ground (
          arith,
          mark_all-gone m' n list (put-Distinct String-discrete (key a) u m d),
          gone-put item m a u list refl d,
          (AllPresent-put m a t list e).0,
        )
  ]

  mark_all-present :
      (m : GoMap String (ItemTuple A)) (list : List A)
      → AllPresent m list
      → (n : GoMap String (ItemTuple A)) × (mark_all item m list ≡ some n)
  unfolding mark_all present
  mark_all-present m [] p = (m, refl)
  mark_all-present m (a ∷ list) p = elim (Option-cases (find (key a) m)) [
    | inl e ↦ ground arith
    | inr (t, e) ↦
        let m' = put String-discrete (key a) (record t { checked = true }) m in
        let ih = mark_all-present m' list ((AllPresent-put m a t list e).1 p.1) in
        (ih.0, ground (arith, ih.1))
  ]

  AllPresent-reset :
      (s : DisorderSet A) (list : List A)
      → AllPresent (reset s.index) list ↔ All (λ a. exist item s a ≡ true) list
  unfolding present exist
  AllPresent-reset s [] = ((λ u. u), (λ u. u))
  AllPresent-reset s (a ∷ list) = ground (arith, get-reset (key a) s.index, AllPresent-reset s list)

  -- `IsSame` answers true exactly when every item of the list exists in the set, and the set has
  -- no key that the list does not name.
  pub is_same_iff :
      (s : DisorderSet A) (list : List A)
      → IsWf s
      → (is_same item s list ≡ true)
        ↔ (All (λ a. exist item s a ≡ true) list × (unlisted item s.index list ≡ []))
  unfolding is_same
  is_same_iff s list w = (forth, back)
    where
      m : GoMap String (ItemTuple A)
      m = reset s.index

      d : Distinct String-discrete m
      d = reset-Distinct s.index w

      forth :
          (elim (mark_all item m list) as (λ _. Bool) [ some n ↦ all_checked n | none ↦ false ])
            ≡ true
          → All (λ a. exist item s a ≡ true) list × (unlisted item s.index list ≡ [])
      forth h = elim (Option-cases (mark_all item m list)) [
        | inl e ↦ cc (rw e at h)
        | inr (n, e) ↦
            let (g, p) = mark_all-gone m n list d e in
            (
              (AllPresent-reset s list).0 p,
              sym (gone-reset item s.index list) ∙ sym g ∙ (all_checked-gone n).0 (rw e at h),
            )
      ]

      back :
          All (λ a. exist item s a ≡ true) list × (unlisted item s.index list ≡ [])
          → (elim (mark_all item m list) as (λ _. Bool) [ some n ↦ all_checked n | none ↦ false ])
            ≡ true
      back (p, q) =
          let (n, e) = mark_all-present m list ((AllPresent-reset s list).1 p) in
          rw e (
            (all_checked-gone n).1
              ((mark_all-gone m n list d e).0 ∙ gone-reset item s.index list ∙ q))
