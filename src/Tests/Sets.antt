-- ===== src/Tests/Sets.antt =====
-- Runs of util/set.go and util/setmap.go. An item here is a name with a version.
use dion.Prelude.{
  ℕ, true, ◌==◌, ◌&&◌, List, [], ◌∷◌, String, String-discrete, Bool-cases, holds, ◌≡◌, refl, arith,
  ◌↔◌, All,
}
use dion.Prelude.GoMap.{get, put, del}
use dion.Util.Set.{
  Item, Lawful, DisorderSet, add, exist, remove, update, is_same, new_set_from_list, scan, visit,
  start, reset, sweep, mark_all, all_checked, add_all,
}
use dion.Util.Set.Index.{IsWf, find, last_with}
use dion.Util.Set.Diff.{unlisted, absent, differing, listed, DistinctKeys, update-changes}
use dion.Util.Set.Same.{is_same_iff}
use dion.Util.Set.Update.{Matches, update-Matches}
use dion.Util.Set.Replay.{replay, view, replay-update}
use dion.Util.Set.Invariant.{Call, adds, removes, updates}

abbrev pub versioned : Item (String × ℕ)
versioned = record {
  key = λ a. a.0;
  compare = λ a b. holds (String-discrete a.0 b.0) && a.1 == b.1;
  clone = λ a. a;
}

pub versioned-Lawful : Lawful versioned
versioned-Lawful = record { clone_lem = λ a. refl; compare_refl = λ a. ground arith }

abbrev before : List (String × ℕ)
before = ("a", 1) ∷ ("b", 1) ∷ ("c", 1) ∷ []

abbrev pub incoming : List (String × ℕ)
incoming = ("b", 2) ∷ ("c", 1) ∷ ("d", 1) ∷ []

abbrev pub three : DisorderSet (String × ℕ)
three = new_set_from_list versioned before

program : Unit {0}
unfolding get put del add exist remove update is_same new_set_from_list scan visit start reset sweep
    mark_all all_checked add_all String-discrete Bool-cases
program = tt

update_run : (update versioned three incoming).1 ≡ record {
  added = ("d", 1) ∷ [];
  deleted = ("a", 1) ∷ [];
  replaced = (record { old = ("b", 1); new = ("b", 2) }) ∷ [];
}
unfolding program
update_run = refl

pub three-IsWf : IsWf three
unfolding program
three-IsWf = (refl, (refl, (refl, tt)))

pub incoming-DistinctKeys : DistinctKeys versioned incoming
unfolding program listed
incoming-DistinctKeys = (refl, (refl, (refl, tt)))

update-changes_example : (update versioned three incoming).1 ≡ record {
  added = absent versioned three.index incoming;
  deleted = unlisted versioned three.index incoming;
  replaced = differing versioned three.index incoming;
}
update-changes_example = update-changes versioned three incoming three-IsWf incoming-DistinctKeys

update-Matches_example :
    Matches versioned
      (find "b" (update versioned three incoming).0.index)
      (last_with versioned "b" incoming)
update-Matches_example = update-Matches versioned versioned-Lawful three incoming three-IsWf "b"

is_same_iff_example : (is_same versioned three incoming ≡ true) ↔ (
    All (λ a. exist versioned three a ≡ true) incoming
    × (unlisted versioned three.index incoming ≡ []))
is_same_iff_example = is_same_iff versioned three incoming three-IsWf

replay-update_example :
    get String-discrete "b"
      (replay versioned (update versioned three incoming).1 (view versioned three.index))
    ≡ get String-discrete "b" (view versioned (update versioned three incoming).0.index)
unfolding program
replay-update_example =
    replay-update versioned versioned-Lawful three incoming three-IsWf (refl, (refl, (refl, tt)))
      incoming-DistinctKeys "b"

abbrev history : List (Call (String × ℕ))
history = adds ("a", 1) ∷ removes ("a", 2) ∷ updates incoming ∷ updates before ∷ []
