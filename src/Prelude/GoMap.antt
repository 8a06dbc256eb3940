-- ===== src/Prelude/GoMap.antt =====
-- A Go map as an association list. The order of the list stands for the order in which `range`
-- happens to visit the entries, which Go leaves open.
use mathlib.Core.Path.{◌≡◌, refl}
use mathlib.Core.Logic.{ite, ◌≢◌}
use mathlib.Core.Option.{Option, none, some}
use mathlib.Core.List.{List, [], ◌∷◌, map}
use native.Mathlib.Omega.{arith}

abbrev pub GoMap {ℓ} : Type ℓ → Type ℓ → Type ℓ
GoMap K V = List (K × V)

abbrev pub keys {ℓ} : {K V : Type ℓ} → GoMap K V → List K
keys = map (λ e. e.0)

abbrev pub values {ℓ} : {K V : Type ℓ} → GoMap K V → List V
values = map (λ e. e.1)

module _ {ℓ} {K V : Type ℓ} (dec : Discrete K) where
  -- `m[k]`, with the flag of the two-valued form
  unfoldable pub get : K → GoMap K V → Option V
  get k [] = none
  get k ((j, v) ∷ m) = ite (dec j k) (some v) (get k m)

  -- `m[k] = v`
  unfoldable pub put : K → V → GoMap K V → GoMap K V
  put k v [] = (k, v) ∷ []
  put k v ((j, w) ∷ m) = ite (dec j k) ((j, v) ∷ m) ((j, w) ∷ put k v m)

  -- `delete(m, k)`
  unfoldable pub del : K → GoMap K V → GoMap K V
  del k [] = []
  del k ((j, w) ∷ m) = ite (dec j k) (del k m) ((j, w) ∷ del k m)

  pub get-put :
      (j k : K) (v : V) (m : GoMap K V) → get j (put k v m) ≡ ite (dec k j) (some v) (get j m)
  unfolding get put
  get-put j k v [] = refl
  get-put j k v ((i, w) ∷ m) = ground (arith, get-put j k v m)

  pub get-del : (j k : K) (m : GoMap K V) → get j (del k m) ≡ ite (dec k j) none (get j m)
  unfolding get del
  get-del j k [] = ground arith
  get-del j k ((i, w) ∷ m) = ground (arith, get-del j k m)

  pub get-put_self : (k : K) (v : V) (m : GoMap K V) → get k (put k v m) ≡ some v
  get-put_self k v m = ground (arith, get-put k k v m)

  pub get-put_ne : (j k : K) (v : V) (m : GoMap K V) → k ≢ j → get j (put k v m) ≡ get j m
  get-put_ne j k v m h = ground (arith, get-put j k v m)

  pub get-del_self : (k : K) (m : GoMap K V) → get k (del k m) ≡ none
  get-del_self k m = ground (arith, get-del k k m)

  pub get-del_ne : (j k : K) (m : GoMap K V) → k ≢ j → get j (del k m) ≡ get j m
  get-del_ne j k m h = ground (arith, get-del j k m)

  -- No key stands twice.
  abbrev pub Distinct : GoMap K V → Type ℓ
  Distinct [] = Unit
  Distinct ((k, v) ∷ m) = (get k m ≡ none) × Distinct m

  pub put-Distinct : (k : K) (v : V) (m : GoMap K V) → Distinct m → Distinct (put k v m)
  unfolding get put
  put-Distinct k v [] d = (refl, tt)
  put-Distinct k v ((j, w) ∷ m) d = ground (arith, put-Distinct k v m d.1, get-put j k v m)

  pub del-Distinct : (k : K) (m : GoMap K V) → Distinct m → Distinct (del k m)
  unfolding get del
  del-Distinct k [] d = tt
  del-Distinct k ((j, w) ∷ m) d = ground (arith, del-Distinct k m d.1, get-del j k m)
