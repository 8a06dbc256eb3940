-- ===== src/Prelude/Order.antt =====
-- The order of texts by their bytes, as Go's `strings.Compare` has it.
use Prim.Native.Nat.{Ordering}
use Prim.Native.String.{String, [], ◌∷◌, compare}
use Prim.Native.String.compare
use mathlib.Core.Path.{◌≡◌}
use mathlib.Core.Logic.{◌≢◌}
use mathlib.Core.Bool.{Bool, true, false}
use native.Mathlib.Omega.{arith}
use text.Mathlib.TextEquality.{path_by_compare}
use text.Mathlib.TextPositions.{compare_refl}

-- `strings.Compare(s, t) < 0`
unfoldable pub text_before : String → String → Bool
text_before s t = elim (compare s t) [ Ordering.lt ↦ true | _ ↦ false ]

before-compare : (s t : String) → text_before s t ≡ true → compare s t ≡ Ordering.lt
unfolding text_before
before-compare s t h = ground arith

compare_trans :
    (s t u : String)
    → compare s t ≡ Ordering.lt
    → compare t u ≡ Ordering.lt
    → compare s u ≡ Ordering.lt
compare_trans [] [] u h g = absurd (ground (arith, compare.nil-nil))
compare_trans [] (d ∷ t) [] h g = absurd (ground (arith, compare.cons-nil d t))
compare_trans [] (d ∷ t) (e ∷ u) h g = compare.nil-cons e u
compare_trans (c ∷ s) [] u h g = absurd (ground (arith, compare.cons-nil c s))
compare_trans (c ∷ s) (d ∷ t) [] h g = absurd (ground (arith, compare.cons-nil d t))
compare_trans (c ∷ s) (d ∷ t) (e ∷ u) h g = ground (
  arith,
  compare.cons-cons c d s t,
  compare.cons-cons d e t u,
  compare.cons-cons c e s u,
  compare_trans s t u,
)

compare_total : (s t : String) → compare s t ≡ Ordering.gt → compare t s ≡ Ordering.lt
compare_total [] [] h = absurd (ground (arith, compare.nil-nil))
compare_total [] (d ∷ t) h = absurd (ground (arith, compare.nil-cons d t))
compare_total (c ∷ s) [] h = compare.nil-cons c s
compare_total (c ∷ s) (d ∷ t) h =
    ground (arith, compare.cons-cons c d s t, compare.cons-cons d c t s, compare_total s t)

pub text_before_irreflexive : (s : String) → text_before s s ≡ false
unfolding text_before
text_before_irreflexive s = ground (arith, compare_refl s)

pub text_before_transitive :
    (s t u : String) → text_before s t ≡ true → text_before t u ≡ true → text_before s u ≡ true
unfolding text_before
text_before_transitive s t u h g =
    ground (arith, compare_trans s t u (before-compare s t h) (before-compare t u g))

pub text_before_total : (s t : String) → s ≢ t → text_before s t ≡ false → text_before t s ≡ true
unfolding text_before
text_before_total s t n h = ground (arith, compare_total s t, path_by_compare s t)
