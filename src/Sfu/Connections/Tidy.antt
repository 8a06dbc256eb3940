-- ===== src/Sfu/Connections/Tidy.antt =====
-- The changes of the peer connections that leave them tidy (pkg/sfu/subscriber.go, pkg/sfu/publisher.go).
use dion.Prelude.{
  Bool, true, false, Option, none, some, List, [], ◌∷◌, ◌++◌, ℕ, suc, ◌<◌, ◌≡◌, ◌≢◌, ◌⊎◌, refl,
  arith, ℕ_discrete, holds, ◌||◌,
}
use dion.Sfu.Connections.{
  LinkCall, closes, installs, takes_tracks, describes, refreshes, sends, close_last,
}

abbrev pub closing : ℕ → LinkCall → Bool
closing n (closes m) = holds (ℕ_discrete m n)
closing n (installs m) = false
closing n (takes_tracks m) = false
closing n (describes m) = false
closing n refreshes = false
closing n (sends r) = false

-- Whether a connection was closed.
unfoldable pub is_closed : ℕ → List LinkCall → Bool
is_closed n [] = false
is_closed n (c ∷ cs) = closing n c || is_closed n cs

pub is_closed-append :
    (n : ℕ) (xs ys : List LinkCall) → is_closed n (xs ++ ys) ≡ is_closed n xs || is_closed n ys
unfolding is_closed
is_closed-append n [] ys = refl
is_closed-append n (c ∷ xs) ys = ground (arith, is_closed-append n xs ys)

-- Only `lastPeerConnection` is closed.
pub is_closed-close_last :
    (n : ℕ) (p : Option ℕ) (calls more : List LinkCall)
    → is_closed n more ≡ false
    → is_closed n (close_last p calls ++ more)
      ≡ is_closed n calls || elim p [ none ↦ false | some m ↦ holds (ℕ_discrete m n) ]
unfolding is_closed
is_closed-close_last n none calls more e = ground (arith, is_closed-append n calls more)
is_closed-close_last n (some m) calls more e = ground (
  arith,
  is_closed-append n (calls ++ closes m ∷ []) more,
  is_closed-append n calls (closes m ∷ []),
)

abbrev pub IsQuiet : List LinkCall → Type 0
IsQuiet more = (n : ℕ) → is_closed n more ≡ false

-- Every connection but the last one is closed, and only connections that were made are.
abbrev pub IsTidy : Option ℕ → ℕ → List LinkCall → Type 0
IsTidy last next calls =
    (n : ℕ)
    → (n < next → (is_closed n calls ≡ true) ⊎ (last ≡ some n))
      × (is_closed n calls ≡ true → n < next)
      × (last ≡ some n → n < next)

-- A connection that was made, is not the last one and was not closed.
abbrev pub IsAbandoned : ℕ → Option ℕ → ℕ → List LinkCall → Type 0
IsAbandoned n last next calls = (n < next) × (last ≢ some n) × (is_closed n calls ≡ false)

pub quiet-IsTidy :
    (last : Option ℕ) (next : ℕ) (calls more : List LinkCall)
    → IsQuiet more
    → IsTidy last next calls
    → IsTidy last next (calls ++ more)
quiet-IsTidy last next calls more q t n = ground (arith, t n, q n, is_closed-append n calls more)

pub again-IsTidy :
    (last : Option ℕ) (next : ℕ) (calls more : List LinkCall)
    → IsQuiet more
    → IsTidy last next calls
    → IsTidy last next (close_last last calls ++ more)
again-IsTidy none next calls more q t n =
    ground (arith, t n, is_closed-close_last n none calls more (q n))
again-IsTidy (some m) next calls more q t n =
    ground (arith, t n, is_closed-close_last n (some m) calls more (q n))

pub fresh-IsTidy :
    (last : Option ℕ) (next : ℕ) (calls more : List LinkCall)
    → IsQuiet more
    → IsTidy last next calls
    → IsTidy (some next) (suc next) (close_last last calls ++ more)
fresh-IsTidy none next calls more q t n =
    ground (arith, t n, is_closed-close_last n none calls more (q n))
fresh-IsTidy (some m) next calls more q t n =
    ground (arith, t n, t m, is_closed-close_last n (some m) calls more (q n))

pub close_last-IsAbandoned :
    (n : ℕ) (last : Option ℕ) (next : ℕ) (calls more : List LinkCall)
    → IsQuiet more
    → IsAbandoned n last next calls
    → is_closed n (close_last last calls ++ more) ≡ false
close_last-IsAbandoned n none next calls more q t =
    ground (arith, is_closed-close_last n none calls more (q n))
close_last-IsAbandoned n (some m) next calls more q t =
    ground (arith, is_closed-close_last n (some m) calls more (q n))

pub quiet-IsAbandoned :
    (n : ℕ) (last : Option ℕ) (next : ℕ) (calls more : List LinkCall)
    → IsQuiet more
    → IsAbandoned n last next calls
    → IsAbandoned n last next (calls ++ more)
quiet-IsAbandoned n last next calls more q t = ground (arith, q n, is_closed-append n calls more)
