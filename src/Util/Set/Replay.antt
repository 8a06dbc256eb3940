-- ===== src/Util/Set/Replay.antt =====
-- A consumer that keeps a map of its own by applying the results of `Update` (util/set.go), in the
-- order of pkg/sxu/syncer/syncer.go: first what is deleted, then what is replaced, then what is new.
use mathlib.Core.Option
use dion.Prelude.{
  Bool, false, not, ◌&&◌, Option, none, some, List, [], ◌∷◌, ◌≡◌, refl, sym, ◌∙◌, String,
  String-discrete, arith, if◌then◌else◌, is_some,
}
use dion.Prelude.GoMap.{GoMap, get, put, del, get-put, get-del}
use dion.Util.Set.{
  Item, Lawful, ItemTuple, ReplaceTuple, DisorderSet, Scan, Changes, sweep, scan, visit, start,
  update,
}
use dion.Util.Set.Index.{
  IsWf, find, unchecked, swept, settle, last_with, get-visit, get-reset, get-sweep, reset-Distinct,
  scan-Distinct,
}
use dion.Util.Set.Diff.{listed, unlisted, absent, differing, DistinctKeys, update-changes}
use dion.Util.Set.Update.{last_with_unlisted, unlisted-last_with}

module _ {A : Type 0} (item : Item A) where
  open item use {key, compare, clone}

  unfoldable pub del_all : List A → GoMap String A → GoMap String A
  del_all [] v = v
  del_all (a ∷ rest) v = del_all rest (del String-discrete (key a) v)

  unfoldable pub put_all : List A → GoMap String A → GoMap String A
  put_all [] v = v
  put_all (a ∷ rest) v = put_all rest (put String-discrete (key a) a v)

  unfoldable pub news : List (ReplaceTuple A) → List A
  news [] = []
  news (r ∷ rest) = r.new ∷ news rest

  unfoldable pub replay : Changes A → GoMap String A → GoMap String A
  replay c v = put_all c.added (put_all (news c.replaced) (del_all c.deleted v))

  -- The items of an index, by key.
  unfoldable pub view : GoMap String (ItemTuple A) → GoMap String A
  view [] = []
  view ((k, t) ∷ m) = (k, t.value) ∷ view m

  -- Every value stands under its own key.
  abbrev pub IsKeyed : GoMap String (ItemTuple A) → Type 0
  IsKeyed [] = Unit
  IsKeyed ((k, t) ∷ m) = (key t.value ≡ k) × IsKeyed m

  pub get-view :
      (k : String) (m : GoMap String (ItemTuple A))
      → get String-discrete k (view m) ≡ Option.map (λ t. t.value) (find k m)
  unfolding get view
  get-view k [] = refl
  get-view k ((j, t) ∷ m) = ground (arith, get-view k m)

  pub get-del_all :
      (k : String) (xs : List A) (v : GoMap String A)
      → get String-discrete k (del_all xs v)
        ≡ (if listed item k xs then none else get String-discrete k v)
  unfolding del_all listed
  get-del_all k [] v = refl
  get-del_all k (a ∷ rest) v = ground (
    arith,
    get-del_all k rest (del String-discrete (key a) v),
    get-del String-discrete k (key a) v,
  )

  abbrev or_else : Option A → Option A → Option A
  or_else (some a) o = some a
  or_else none o = o

  get-put_all :
      (k : String) (xs : List A) (v : GoMap String A)
      → get String-discrete k (put_all xs v)
        ≡ or_else (last_with item k xs) (get String-discrete k v)
  unfolding put_all last_with
  get-put_all k [] v = refl
  get-put_all k (a ∷ rest) v = ground (
    arith,
    get-put_all k rest (put String-discrete (key a) a v),
    get-put String-discrete k (key a) a v,
  )

  pub listed-unlisted :
      (k : String) (m : GoMap String (ItemTuple A)) (list : List A)
      → IsKeyed m
      → listed item k (unlisted item m list) ≡ is_some (find k m) && not (listed item k list)
  unfolding listed unlisted get
  listed-unlisted k [] list h = refl
  listed-unlisted k ((j, t) ∷ m) list h = ground (arith, listed-unlisted k m list h.1)

  last_with-absent :
      (k : String) (m : GoMap String (ItemTuple A)) (list : List A)
      → last_with item k (absent item m list)
        ≡ (if is_some (find k m) then none else last_with item k list)
  unfolding absent last_with
  last_with-absent k m [] = ground arith
  last_with-absent k m (a ∷ rest) = ground (arith, last_with-absent k m rest)

  abbrev if_different : Option (ItemTuple A) → Option A → Option A
  if_different (some t) (some a) = if compare t.value a then none else some a
  if_different o p = none

  last_with-differing :
      (k : String) (m : GoMap String (ItemTuple A)) (list : List A)
      → DistinctKeys item list
      → last_with item k (news (differing item m list))
        ≡ if_different (find k m) (last_with item k list)
  unfolding differing last_with news
  last_with-differing k m [] d = ground arith
  last_with-differing k m (a ∷ rest) d =
      ground (arith, last_with-differing k m rest d.1, last_with_unlisted item (key a) rest d.0)

  -- What a key holds after the scan of a list of distinct keys.
  abbrev settled : Option (ItemTuple A) → Option A → Option (ItemTuple A)
  settled o none = o
  settled o (some a) = some (settle item o a)

  scan-settled :
      (k : String) (st : Scan A) (list : List A)
      → DistinctKeys item list
      → find k (scan item st list).index ≡ settled (find k st.index) (last_with item k list)
  unfolding scan last_with
  scan-settled k st [] d = refl
  scan-settled k st (a ∷ rest) d = ground (
    arith,
    scan-settled k (visit item st a) rest d.1,
    get-visit item k st a,
    last_with_unlisted item (key a) rest d.0,
  )

  -- The final comparison at one key, over what the two sides hold there.
  key_agrees :
      Lawful item
      → (o : Option (ItemTuple A)) (p : Option A) (named : Bool) → (p ≡ none → named ≡ false)
      → (named ≡ false → p ≡ none)
      → or_else (if is_some o then none else p) (
          or_else
            (if_different o p)
            (if is_some o && not named then none else Option.map (λ t. t.value) o))
        ≡ Option.map (λ t. t.value) (swept (settled (Option.map unchecked o) p))
  unfolding settle
  key_agrees law none none named f g = ground arith
  key_agrees law none (some a) named f g = ground (arith, law.clone_lem a)
  key_agrees law (some t) none named f g = ground (arith, f refl)
  key_agrees law (some t) (some a) named f g = ground (arith, law.clone_lem a)

  replay-changes :
      (m : GoMap String (ItemTuple A)) (list : List A) (k : String)
      → IsKeyed m
      → DistinctKeys item list
      → get String-discrete k (
          replay
            (record {
              added = absent item m list;
              deleted = unlisted item m list;
              replaced = differing item m list;
            })
            (view m))
        ≡ or_else (if is_some (find k m) then none else last_with item k list) (
            or_else (if_different (find k m) (last_with item k list)) (
              if is_some (find k m) && not (listed item k list)
              then none
              else Option.map (λ t. t.value) (find k m)))
  unfolding replay
  replay-changes m list k kd d = rw (
    get-put_all,
    get-put_all,
    get-del_all,
    get-view,
    last_with-absent,
    last_with-differing k m list d,
    listed-unlisted k m list kd,
  )

  get-view-update :
      (s : DisorderSet A) (list : List A)
      → IsWf s
      → DistinctKeys item list
      → (k : String)
      → get String-discrete k (view (update item s list).0.index)
        ≡ Option.map
            (λ t. t.value)
            (swept (settled (Option.map unchecked (find k s.index)) (last_with item k list)))
  unfolding update start
  get-view-update s list w d k =
      let m = (scan item (start item s) list).index in
      rw (
        get-view k (sweep m).0,
        get-sweep k m (scan-Distinct item (start item s) list (reset-Distinct s.index w)),
        scan-settled k (start item s) list d,
        get-reset k s.index,
      )

  -- A consumer that starts with the items of a well-formed set and applies the results of `Update`,
  -- for a list with distinct keys, ends with the items of the updated set, under every key.
  pub replay-update :
      Lawful item
      → (s : DisorderSet A) (list : List A) → IsWf s
      → IsKeyed s.index
      → DistinctKeys item list
      → (k : String)
      → get String-discrete k (replay (update item s list).1 (view s.index))
        ≡ get String-discrete k (view (update item s list).0.index)
  replay-update law s list w kd d k =
      let m = s.index in
      rw (update-changes item s list w d, replay-changes m list k kd d)
        (key_agrees law (find k m) (last_with item k list) (listed item k list)
            (unlisted-last_with item k list) (last_with_unlisted item k list)
          ∙ sym (get-view-update s list w d k))
