-- ===== src/Util/Items/Laws.antt =====
-- The items of util/stringimpl.go, util/pbimpl.go and util/nodeimpl.go keep the promises of the
-- interface `DisorderSetItem`.
use dion.Prelude.{
  true, false, Option, none, some, List, [], ◌∷◌, ◌≡◌, refl, ap, ◌∙◌, String, String-discrete,
  arith, All, Option-cases, inl, inr,
}
use dion.Prelude.GoMap.{get, get-put, put-Distinct}
use dion.Proto.{Ion, ClientNeededSession, ForwardTrack, ProceedTrack, SfuStatus, Message}
use dion.Util.Set.{
  Item, Lawful, ItemTuple, DisorderSet, add, add_all, new_set, new_set_from_list, is_same, exist,
}
use dion.Util.Set.Index.{IsWf, find, last_with}
use dion.Util.Set.Diff.{listed}
use dion.Util.Set.Same.{is_same_iff}
use dion.Util.Set.Update.{last_with_unlisted, unlisted-last_with, unlisted_covered}
use dion.Util.Items.{
  same_text, string_item, client_item, forward_item, proceed_compare, proceed_item, status_item,
}

same_text_refl : (s : String) → same_text s s ≡ true
same_text_refl s = ground arith

pub string_item-Lawful : Lawful string_item
string_item-Lawful = record { clone_lem = λ s. refl; compare_refl = same_text_refl }

pub client_item-Lawful :
    (format : String → String → String) (m : Message ClientNeededSession)
    → Lawful (client_item format m)
client_item-Lawful format m = record {
  clone_lem = m.clone_lem;
  compare_refl = λ c. same_text_refl (m.text c);
}

module _ {A : Type 0} (item : Item A) where
  open item use {key, clone}

  abbrev added : Option (ItemTuple A) → Option A → Option (ItemTuple A)
  added o none = o
  added o (some a) = some (record { value = clone a; checked = false })

  find-add_all :
      (k : String) (s : DisorderSet A) (list : List A)
      → find k (add_all item s list).index ≡ added (find k s.index) (last_with item k list)
  unfolding add_all add last_with
  find-add_all k s [] = refl
  find-add_all k s (a ∷ rest) = ground (
    arith,
    find-add_all k (add item s a) rest,
    get-put String-discrete k (key a) (record { value = clone a; checked = false }) s.index,
  )

  add_all-IsWf : (s : DisorderSet A) (list : List A) → IsWf s → IsWf (add_all item s list)
  unfolding add_all add
  add_all-IsWf s [] w = w
  add_all-IsWf s (a ∷ rest) w =
      add_all-IsWf (add item s a) rest (put-Distinct String-discrete (key a) _ s.index w)

  last_with_key : (k : String) (list : List A) (b : A) → last_with item k list ≡ some b → key b ≡ k
  unfolding last_with
  last_with_key k [] b h = cc
  last_with_key k (a ∷ rest) b h = ground (arith, last_with_key k rest b)

-- The last string of a list with some text is that text.
last_with_string :
    (a : String) (list : List String)
    → listed string_item a list ≡ true
    → last_with string_item a list ≡ some a
last_with_string a list h = elim (Option-cases (last_with string_item a list)) [
  | inl e ↦ cc (unlisted-last_with string_item a list e)
  | inr (b, e) ↦ e ∙ ap some (last_with_key string_item a list b e)
]

abbrev Listed : List String → List String → Type 0
Listed list = All (λ a. listed string_item a list ≡ true)

Listed-cons : (b : String) (list rest : List String) → Listed list rest → Listed (b ∷ list) rest
unfolding listed
Listed-cons b list [] h = tt
Listed-cons b list (a ∷ rest) h = (ground arith, Listed-cons b list rest h.1)

Listed-self : (list : List String) → Listed list list
unfolding listed
Listed-self [] = tt
Listed-self (a ∷ rest) = (ground arith, Listed-cons a rest rest (Listed-self rest))

find_new :
    (k : String) (list : List String)
    → find k (new_set_from_list string_item list).index
      ≡ added string_item none (last_with string_item k list)
unfolding new_set_from_list get
find_new k list = find-add_all string_item k new_set list

exist_new :
    (list rest : List String)
    → Listed list rest
    → All (λ a. exist string_item (new_set_from_list string_item list) a ≡ true) rest
unfolding exist
exist_new list [] h = tt
exist_new list (a ∷ rest) h = (
  rw (exist, find_new a list, last_with_string a list h.0) (same_text_refl a),
  exist_new list rest h.1,
)

-- The set of a list of strings is the same as the list, double strings or not.
pub is_same_new :
    (list : List String) → is_same string_item (new_set_from_list string_item list) list ≡ true
is_same_new list = (is_same_iff string_item (new_set_from_list string_item list) list new-IsWf).1 (
  exist_new list list (Listed-self list),
  unlisted_covered string_item _ list (λ k e.
      find_new k list ∙ ap (added string_item none) (last_with_unlisted string_item k list e)),
)
  where
    new-IsWf : IsWf (new_set_from_list string_item list)
    new-IsWf = unfold new_set_from_list in add_all-IsWf string_item new_set list tt

module _ (ion : Ion) where
  pub forward_item-Lawful :
      (format : String → String → String) (m : Message (ForwardTrack ion))
      → Lawful (forward_item ion format m)
  forward_item-Lawful format m = record {
    clone_lem = m.clone_lem;
    compare_refl = λ t. same_text_refl (m.text t);
  }

  -- A proceed track compares the same as itself, also where its source list has double entries.
  pub proceed_item-Lawful : (m : Message (ProceedTrack ion)) → Lawful (proceed_item ion m)
  unfolding proceed_compare
  proceed_item-Lawful m = record {
    clone_lem = m.clone_lem;
    compare_refl = λ t. rw (is_same_new t.src_session_id_list) (same_text_refl (m.text t));
  }

  pub status_item-Lawful : (m : Message (SfuStatus ion)) → Lawful (status_item ion m)
  status_item-Lawful m = record {
    clone_lem = m.clone_lem;
    compare_refl = λ s. same_text_refl (m.text s);
  }
