-- ===== src/Util/Set/Index.antt =====
-- Well-formed indexes of util/set.go: how one key fares under `reset`, `visit`, `scan`, `sweep`.
use mathlib.Core.Option
use mathlib.Core.Logic.{if_pos, if_neg}
use dion.Prelude.{
  true, false, Option, none, some, List, [], ◌∷◌, ◌≡◌, refl, String, String-discrete, arith, ite,
  inl, inr, if◌then◌else◌, Option-cases,
}
use dion.Prelude.GoMap.{GoMap, get, put, Distinct, get-put, put-Distinct}
use dion.Util.Set.{Item, Lawful, ItemTuple, DisorderSet, Scan, reset, sweep, visit, scan}

abbrev pub IsWf : {A : Type 0} → DisorderSet A → Type 0
IsWf s = Distinct String-discrete s.index

module _ {A : Type 0} where
  abbrev pub unchecked : ItemTuple A → ItemTuple A
  unchecked t = record t { checked = false }

  abbrev pub find : String → GoMap String (ItemTuple A) → Option (ItemTuple A)
  find k m = get String-discrete k m

  pub get-reset :
      (k : String) (m : GoMap String (ItemTuple A))
      → find k (reset m) ≡ Option.map unchecked (find k m)
  unfolding get reset
  get-reset k [] = refl
  get-reset k ((j, t) ∷ m) = ground (arith, get-reset k m)

  pub reset-Distinct :
      (m : GoMap String (ItemTuple A))
      → Distinct String-discrete m
      → Distinct String-discrete (reset m)
  unfolding reset
  reset-Distinct [] d = tt
  reset-Distinct ((k, t) ∷ m) d = ground (arith, reset-Distinct m d.1, get-reset k m)

  -- What a sweep leaves of a tuple.
  abbrev pub swept : Option (ItemTuple A) → Option (ItemTuple A)
  swept none = none
  swept (some t) = if t.checked then some t else none

  pub get-sweep :
      (k : String) (m : GoMap String (ItemTuple A))
      → Distinct String-discrete m
      → find k (sweep m).0 ≡ swept (find k m)
  unfolding get sweep
  get-sweep k [] d = refl
  get-sweep k ((j, t) ∷ m) d = ground (arith, get-sweep k m d.1)

  pub sweep-Distinct :
      (m : GoMap String (ItemTuple A))
      → Distinct String-discrete m
      → Distinct String-discrete (sweep m).0
  unfolding sweep
  sweep-Distinct [] d = tt
  sweep-Distinct ((k, t) ∷ m) d = ground (arith, sweep-Distinct m d.1, get-sweep k m d.1)

module _ {A : Type 0} (item : Item A) where
  open item use {key, compare, clone}

  -- What a visit by an item does to the tuple of its key.
  unfoldable pub settle : Option (ItemTuple A) → A → ItemTuple A
  settle none a = record { value = clone a; checked = true }
  settle (some t) a = record {
    value = if compare t.value a then t.value else clone a;
    checked = true;
  }

  pub visit-index :
      (st : Scan A) (a : A)
      → (visit item st a).index
        ≡ put String-discrete (key a) (settle (find (key a) st.index) a) st.index
  unfolding visit settle
  visit-index st a = ground arith

  pub get-visit :
      (k : String) (st : Scan A) (a : A)
      → find k (visit item st a).index
        ≡ ite (String-discrete (key a) k) (some (settle (find k st.index) a)) (find k st.index)
  get-visit k st a = rw (visit-index st a) (
      ground (arith, get-put String-discrete k (key a) (settle (find (key a) st.index) a) st.index))

  pub visit-Distinct :
      (st : Scan A) (a : A)
      → Distinct String-discrete st.index
      → Distinct String-discrete (visit item st a).index
  visit-Distinct st a d = rw (visit-index st a) (put-Distinct String-discrete (key a) _ st.index d)

  pub scan-Distinct :
      (st : Scan A) (list : List A)
      → Distinct String-discrete st.index
      → Distinct String-discrete (scan item st list).index
  unfolding scan
  scan-Distinct st [] d = d
  scan-Distinct st (a ∷ rest) d = scan-Distinct (visit item st a) rest (visit-Distinct st a d)

  -- The last item of a list that has the key.
  unfoldable pub last_with : String → List A → Option A
  last_with k [] = none
  last_with k (a ∷ rest) = elim (last_with k rest) [
    | some b ↦ some b
    | none ↦ ite (String-discrete (key a) k) (some a) none
  ]

  -- The tuple is marked and holds an item that compares the same as the one asked for.
  abbrev pub Holds : Option (ItemTuple A) → A → Type 0
  Holds o a = (t : ItemTuple A) × (o ≡ some t) × (t.checked ≡ true) × (compare t.value a ≡ true)

  abbrev pub Settled : Option (ItemTuple A) → Option A → Option (ItemTuple A) → Type 0
  Settled before none after = after ≡ before
  Settled before (some a) after = Holds after a

  settle-Holds : Lawful item → (o : Option (ItemTuple A)) (a : A) → Holds (some (settle o a)) a
  unfolding settle
  settle-Holds law none a =
      (settle none a, refl, refl, ground (arith, law.clone_lem a, law.compare_refl a))
  settle-Holds law (some t) a =
      (settle (some t) a, refl, refl, ground (arith, law.clone_lem a, law.compare_refl a))

  -- After the scan a key that the list names holds the last item with it; any other is untouched.
  pub scan-Settled :
      Lawful item
      → (k : String) (st : Scan A) (list : List A)
      → Settled (find k st.index) (last_with k list) (find k (scan item st list).index)
  unfolding scan last_with
  scan-Settled law k st [] = refl
  scan-Settled law k st (a ∷ rest) =
      let h = scan-Settled law k (visit item st a) rest in
      elim (Option-cases (last_with k rest)) [
        | inr (b, e) ↦ rw (e, last_with) (rw e at h)
        | inl e ↦
            rw (e, last_with)
              (elim (String-discrete (key a) k) [
                | yes p ↦
                    rw (if_pos _ p)
                      (rw (rw e at h, get-visit k st a, if_pos _ p) (settle-Holds law _ a))
                | no p ↦ rw (if_neg _ p) (rw (rw e at h, get-visit k st a, if_neg _ p) refl)
              ])
      ]
