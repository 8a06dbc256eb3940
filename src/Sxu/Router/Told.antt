-- ===== src/Sxu/Router/Told.antt =====
-- What the watchdogs of a router (pkg/sxu/forward.go, pkg/sxu/proceed.go) were told, after the
-- changes that one `Update` of util/set.go reports.
use mathlib.Core.Option
use dion.Prelude.{
  true, ◌&&◌, Option, none, some, List, [], ◌∷◌, ◌≡◌, ◌∙◌, arith, String, String-discrete, holds,
  is_some, if◌then◌else◌, Option-cases, Bool-cases, inl, inr, All,
}
use dion.Prelude.GoMap.{GoMap, get, put, del, get-put, get-del}
use dion.Util.Set.{Item, Lawful, ItemTuple, ReplaceTuple, DisorderSet, Changes, update}
use dion.Util.Set.Index.{IsWf, find}
use dion.Util.Set.Diff.{listed, unlisted, differing, DistinctKeys, update-changes}
use dion.Util.Set.Replay.{
  del_all, put_all, news, replay, view, IsKeyed, get-view, get-del_all, listed-unlisted,
  replay-update,
}
use dion.Sxu.Router.{
  Forwarding, Router, replace_track, start_track, stop_track, stop_all, replace_all, start_all,
  perform,
}

module _ {A : Type 0} (item : Item A) (law : Lawful item) where
  open item use {key, clone}

  -- What the watchdog of a key was told last, if there is one.
  abbrev pub told : Router A → String → Option A
  told r k = Option.map (λ f. f.dog.param) (get String-discrete k r.forwardings)

  -- Each track stands under its own key.
  abbrev pub IsFiled : Router A → Type 0
  IsFiled r =
      (k : String) (f : Forwarding A)
      → get String-discrete k r.forwardings ≡ some f
      → key f.track ≡ k

  told-stop_track :
      (a : A) (r : Router A) (k : String)
      → told (stop_track item a r) k
        ≡ (if holds (String-discrete (key a) k) then none else told r k)
  unfolding stop_track
  told-stop_track a r k = ground (arith, get-del String-discrete k (key a) r.forwardings)

  stop_track-IsFiled : (a : A) (r : Router A) → IsFiled r → IsFiled (stop_track item a r)
  unfolding stop_track
  stop_track-IsFiled a r h k f e =
      ground (arith, get-del String-discrete k (key a) r.forwardings, h k f)

  -- The watchdog of the key, if there is one, is told the new track.
  told-replace_track :
      (a b : A) (r : Router A) (k : String)
      → key a ≡ key b
      → told (replace_track item a b r) k
        ≡ (if holds (String-discrete (key b) k) && is_some (told r k) then some b else told r k)
  unfolding replace_track
  told-replace_track a b r k e = elim (Option-cases (get String-discrete (key a) r.forwardings)) [
    | inl g ↦ ground arith
    | inr (f, g) ↦ ground (
      arith,
      get-put String-discrete k (key a) (record f { dog = record { param = clone b } })
          r.forwardings,
      law.clone_lem b,
    )
  ]

  replace_track-IsFiled : (a b : A) (r : Router A) → IsFiled r → IsFiled (replace_track item a b r)
  unfolding replace_track
  replace_track-IsFiled a b r h k f e =
      elim (Option-cases (get String-discrete (key a) r.forwardings)) [
        | inl g ↦ ground (arith, h k f)
        | inr (p, g) ↦ ground (
          arith,
          get-put String-discrete k (key a) (record p { dog = record { param = clone b } })
              r.forwardings,
          h k f,
          h (key a) p g,
        )
      ]

  told-start_track :
      (a : A) (r : Router A) (k : String)
      → IsFiled r
      → told (start_track item a r) k
        ≡ (if holds (String-discrete (key a) k) then some a else told r k)
  unfolding start_track
  told-start_track a r k h = elim (Option-cases (get String-discrete (key a) r.forwardings)) [
    | inl g ↦ ground (
      arith,
      get-put String-discrete k (key a)
          (record { dog = record { param = clone a }; track = clone a }) r.forwardings,
      law.clone_lem a,
    )
    | inr (f, g) ↦ ground (arith, told-replace_track f.track a r k (h (key a) f g))
  ]

  start_track-IsFiled : (a : A) (r : Router A) → IsFiled r → IsFiled (start_track item a r)
  unfolding start_track
  start_track-IsFiled a r h k f e =
      elim (Option-cases (get String-discrete (key a) r.forwardings)) [
        | inl g ↦ ground (
          arith,
          get-put String-discrete k (key a)
              (record { dog = record { param = clone a }; track = clone a }) r.forwardings,
          law.clone_lem a,
          h k f,
        )
        | inr (p, g) ↦ replace_track-IsFiled p.track a r h k f (rw (start_track, g) at e)
      ]

  -- The router's watchdogs were told the items of a map, key by key.
  abbrev pub Follows : Router A → GoMap String A → Type 0
  Follows r v = (k : String) → told r k ≡ get String-discrete k v

  stop_all-Follows :
      (as_ : List A) (r : Router A) (v : GoMap String A)
      → IsFiled r
      → Follows r v
      → IsFiled (stop_all item as_ r) × Follows (stop_all item as_ r) (del_all item as_ v)
  unfolding stop_all del_all
  stop_all-Follows [] r v h f = (h, f)
  stop_all-Follows (a ∷ rest) r v h f =
      stop_all-Follows rest (stop_track item a r) (del String-discrete (key a) v)
        (stop_track-IsFiled a r h)
        (λ k. ground (arith, told-stop_track a r k, get-del String-discrete k (key a) v, f k))

  -- A replacement keeps the key, and the map has an item under it.
  abbrev pub IsHeld : GoMap String A → ReplaceTuple A → Type 0
  IsHeld v t = (key t.old ≡ key t.new) × (is_some (get String-discrete (key t.new) v) ≡ true)

  put-IsHeld :
      (a : A) (ts : List (ReplaceTuple A)) (v : GoMap String A)
      → All (IsHeld v) ts
      → All (IsHeld (put String-discrete (key a) a v)) ts
  put-IsHeld a [] v h = tt
  put-IsHeld a (t ∷ rest) v h = (
    (h.0.0, ground (arith, get-put String-discrete (key t.new) (key a) a v, h.0.1)),
    put-IsHeld a rest v h.1,
  )

  replace_all-Follows :
      (ts : List (ReplaceTuple A)) (r : Router A) (v : GoMap String A)
      → All (IsHeld v) ts
      → IsFiled r
      → Follows r v
      → IsFiled (replace_all item ts r)
        × Follows (replace_all item ts r) (put_all item (news item ts) v)
  unfolding replace_all put_all news
  replace_all-Follows [] r v d h f = (h, f)
  replace_all-Follows (t ∷ rest) r v d h f =
      replace_all-Follows rest (replace_track item t.old t.new r)
        (put String-discrete (key t.new) t.new v) (put-IsHeld t.new rest v d.1)
        (replace_track-IsFiled t.old t.new r h)
        (λ k. ground (
          arith,
          told-replace_track t.old t.new r k d.0.0,
          get-put String-discrete k (key t.new) t.new v,
          d.0.1,
          f k,
        ))

  start_all-Follows :
      (as_ : List A) (r : Router A) (v : GoMap String A)
      → IsFiled r
      → Follows r v
      → IsFiled (start_all item as_ r) × Follows (start_all item as_ r) (put_all item as_ v)
  unfolding start_all put_all
  start_all-Follows [] r v h f = (h, f)
  start_all-Follows (a ∷ rest) r v h f =
      start_all-Follows rest (start_track item a r) (put String-discrete (key a) a v)
        (start_track-IsFiled a r h)
        (λ k. ground (arith, told-start_track a r k h, get-put String-discrete k (key a) a v, f k))

  -- The router follows a consumer of the changes, where every replacement has something to replace.
  pub perform-Follows :
      (c : Changes A) (r : Router A) (v : GoMap String A)
      → All (IsHeld (del_all item c.deleted v)) c.replaced
      → IsFiled r
      → Follows r v
      → IsFiled (perform item c r) × Follows (perform item c r) (replay item c v)
  unfolding perform replay
  perform-Follows c r v d h f =
      let (h1, f1) = stop_all-Follows c.deleted r v h f in
      let (h2, f2) =
        replace_all-Follows c.replaced (stop_all item c.deleted r) (del_all item c.deleted v) d h1
          f1 in
      start_all-Follows c.added (replace_all item c.replaced (stop_all item c.deleted r))
        (put_all item (news item c.replaced) (del_all item c.deleted v)) h2 f2

  get-IsKeyed :
      (m : GoMap String (ItemTuple A)) (k : String) (t : ItemTuple A)
      → IsKeyed item m
      → find k m ≡ some t
      → key t.value ≡ k
  unfolding get
  get-IsKeyed [] k t h e = cc
  get-IsKeyed ((j, u) ∷ m) k t h e = ground (arith, get-IsKeyed m k t h.1)

  differing-IsHeld :
      (m : GoMap String (ItemTuple A)) (list rest : List A)
      → IsKeyed item m
      → All (λ a. listed item (key a) list ≡ true) rest
      → All (IsHeld (del_all item (unlisted item m list) (view item m))) (differing item m rest)
  unfolding differing
  differing-IsHeld m list [] h l = tt
  differing-IsHeld m list (a ∷ rest) h l =
      let more = differing-IsHeld m list rest h l.1 in
      elim (Option-cases (find (key a) m)) [
        | inl e ↦ rw (differing, e) more
        | inr (t, e) ↦ elim (Bool-cases (item.compare t.value a)) [
          | inl g ↦ rw (differing, e, g) more
          | inr g ↦
              rw (differing, e, g)
                (
                  (
                    get-IsKeyed m (key a) t h e,
                    ground (
                      arith,
                      get-del_all item (key a) (unlisted item m list) (view item m),
                      get-view item (key a) m,
                      listed-unlisted item (key a) m list h,
                      l.0,
                    ),
                  ),
                  more,
                )
        ]
      ]

  listed-cons :
      (a : A) (list rest : List A)
      → All (λ b. listed item (key b) list ≡ true) rest
      → All (λ b. listed item (key b) (a ∷ list) ≡ true) rest
  unfolding listed
  listed-cons a list [] h = tt
  listed-cons a list (b ∷ rest) h = (ground arith, listed-cons a list rest h.1)

  listed_self : (list : List A) → All (λ a. listed item (key a) list ≡ true) list
  unfolding listed
  listed_self [] = tt
  listed_self (a ∷ rest) = (ground arith, listed-cons a rest rest (listed_self rest))

  -- A router that was told the items of a set, and performs the changes that `Update` of the set
  -- reports for a list of distinct keys, has been told the items of the updated set: under every
  -- key there is a watchdog exactly if the set has an item, and it was told that item last.
  pub perform-update :
      (s : DisorderSet A) (list : List A) (r : Router A)
      → IsWf s
      → IsKeyed item s.index
      → DistinctKeys item list
      → IsFiled r
      → Follows r (view item s.index)
      → IsFiled (perform item (update item s list).1 r)
        × Follows (perform item (update item s list).1 r) (view item (update item s list).0.index)
  perform-update s list r w kd d h f =
      let c = update-changes item s list w d in
      let (h', f') =
        perform-Follows (update item s list).1 r (view item s.index)
          (rw c (differing-IsHeld s.index list list kd (listed_self list))) h f in
      (h', λ k. f' k ∙ replay-update item law s list w kd d k)
