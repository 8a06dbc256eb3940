-- ===== src/Util/SetMap.antt =====
-- util/setmap.go: `SetMap`, a map to sets, and `SetMapaMteS`, a many-to-many relation kept as two
-- of them, one for each direction.
pub mod Laws
pub mod Relation
pub mod Unique
use dion.Prelude.{
  Bool, true, false, Option, none, some, List, [], ◌∷◌, ◌++◌, ℕ, ltb, is_some, if◌then◌else◌,
  length,
}
use dion.Prelude.GoMap.{GoMap, get, put, del, keys}

-- `map[V]struct{}`
abbrev pub GoSet : Type 0 → Type 0
GoSet V = GoMap V (Unit {0})

pub record SetMap (K V : Type 0) : Type 0 where
  pub m : GoMap K (GoSet V)

module _ {K V : Type 0} (dec_k : Discrete K) (dec_v : Discrete V) where
  unfoldable pub new_set_map : SetMap K V
  new_set_map = record { m = [] }

  unfoldable pub add : SetMap K V → K → V → SetMap K V
  add s key value = elim (get dec_k key s.m) [
    | some set ↦ record { m = put dec_k key (put dec_v value tt set) s.m }
    | none ↦ record { m = put dec_k key ((value, tt) ∷ []) s.m }
  ]

  -- What `Remove` does with the set of the key, once the value is deleted from it.
  store_or_drop : SetMap K V → K → GoSet V → SetMap K V
  store_or_drop s key [] = record { m = del dec_k key s.m }
  store_or_drop s key (e ∷ set) = record { m = put dec_k key (e ∷ set) s.m }

  unfoldable pub remove : SetMap K V → K → V → SetMap K V
  unfolding store_or_drop
  remove s key value = elim (get dec_k key s.m) [
    | some set ↦ store_or_drop s key (del dec_v value set)
    | none ↦ s
  ]

  unfoldable pub exists : SetMap K V → K → V → Bool
  exists s key value = elim (get dec_k key s.m) [
    | some set ↦ is_some (get dec_v value set)
    | none ↦ false
  ]

  -- Go's `nil` slice and an empty one are both `[]`.
  unfoldable pub get_set : SetMap K V → K → List V
  get_set s key = elim (get dec_k key s.m) [ some set ↦ keys set | none ↦ [] ]

  -- `for key := range set { m.Remove(key, value) }`
  unfoldable pub remove_each : SetMap K V → List K → V → SetMap K V
  remove_each s [] value = s
  remove_each s (key ∷ rest) value = remove_each (remove s key value) rest value

  -- `delete(m.m, key)`
  unfoldable pub drop_key : SetMap K V → K → SetMap K V
  drop_key s key = record { m = del dec_k key s.m }

pub record SetMapaMteS (K V : Type 0) : Type 0 where
  pub forward : SetMap K V
  pub reverse : SetMap V K

module _ {K V : Type 0} (dec_k : Discrete K) (dec_v : Discrete V) where
  unfoldable pub new_relation : SetMapaMteS K V
  new_relation = record { forward = new_set_map dec_k dec_v; reverse = new_set_map dec_v dec_k }

  unfoldable pub add_pair : SetMapaMteS K V → K → V → SetMapaMteS K V
  add_pair r key value = record {
    forward = add dec_k dec_v r.forward key value;
    reverse = add dec_v dec_k r.reverse value key;
  }

  unfoldable pub remove_pair : SetMapaMteS K V → K → V → SetMapaMteS K V
  remove_pair r key value = record {
    forward = remove dec_k dec_v r.forward key value;
    reverse = remove dec_v dec_k r.reverse value key;
  }

  unfoldable pub remove_value : SetMapaMteS K V → V → SetMapaMteS K V
  remove_value r value = elim (get dec_v value r.reverse.m) [
    | some set ↦ record {
      forward = remove_each dec_k dec_v r.forward (keys set) value;
      reverse = drop_key dec_v dec_k r.reverse value;
    }
    | none ↦ r
  ]

  unfoldable pub remove_key : SetMapaMteS K V → K → SetMapaMteS K V
  remove_key r key = elim (get dec_k key r.forward.m) [
    | some set ↦ record {
      forward = drop_key dec_k dec_v r.forward key;
      reverse = remove_each dec_v dec_k r.reverse (keys set) key;
    }
    | none ↦ r
  ]

  unfoldable pub get_keys : SetMapaMteS K V → V → List K
  get_keys r value = get_set dec_v dec_k r.reverse value

  -- The loops of `GetUniqueValues` and `GetUniqueKeys`: those with at most one partner.
  unfoldable pub lonely_values : SetMap V K → List V → List V
  lonely_values s [] = []
  lonely_values s (value ∷ rest) =
      let more = lonely_values s rest in
      if ltb (length (get_set dec_v dec_k s value)) 2 then value ∷ more else more

  unfoldable pub get_unique_values : SetMapaMteS K V → K → List V
  get_unique_values r key = elim (get dec_k key r.forward.m) [
    | some set ↦ lonely_values r.reverse (keys set)
    | none ↦ []
  ]

module _ {K V : Type 0} (dec_k : Discrete K) (dec_v : Discrete V) where
  unfoldable pub get_unique_keys : SetMapaMteS K V → V → List K
  get_unique_keys r value = elim (get dec_v value r.reverse.m) [
    | some set ↦ lonely_values dec_v dec_k r.forward (keys set)
    | none ↦ []
  ]
