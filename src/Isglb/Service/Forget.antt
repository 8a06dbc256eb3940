-- ===== src/Isglb/Service/Forget.antt =====
-- A stream that ends (pkg/isglb/service.go): which streams and statuses the tables keep.
use dion.Prelude.{
  Bool, true, false, not, ◌&&◌, none, List, [], ◌∷◌, ◌≡◌, ◌≢◌, ◌⊎◌, refl, ap, subst, ◌∙◌, arith,
  String, String-discrete, holds, is_some, if◌then◌else◌, Bool-cases, inl, inr,
}
use dion.Prelude.GoMap.{GoMap, get, del, get-del, Distinct, del-Distinct}
use dion.Proto.{Message}
use dion.Util.Set.{Item}
use dion.Util.SetMap.{SetMapaMteS, exists, get_unique_keys, remove_key}
use dion.Util.SetMap.Laws.{member}
use dion.Util.SetMap.Relation.{
  removes_key, removes_value, Agrees, apply, expected, apply_cases, apply-Agrees,
}
use dion.Util.SetMap.Unique.{IsTidyBoth, apply-IsTidy, get_unique_keys_cases, other_value}
use dion.Isglb.Service.{Table, forget_key, forget_keys, forget_sig}

-- Every status stands under its own node.
abbrev pub IsFiled : {S : Type 0} → Item S → GoMap String S → Type 0
IsFiled item [] = Unit
IsFiled item ((nid, s) ∷ m) = (item.key s ≡ nid) × IsFiled item m

-- The invariant of the tables: the two directions of `WhereToSend` agree, and a node has a stored
-- status exactly if it has a stream.
pub record Inv {S R Sig : Type 0} (item : Item S) (sig_discrete : Discrete Sig) (t : Table S R Sig)
    : Type 0 where
  pub agrees : Agrees String-discrete sig_discrete t.where_to_send
  pub tidy : IsTidyBoth String-discrete sig_discrete t.where_to_send
  pub filed : IsFiled item t.latest_status
  pub distinct : Distinct String-discrete t.latest_status
  pub has_stream :
      (nid : String)
      → is_some (get String-discrete nid t.latest_status) ≡ true
      → (sig : Sig) × (exists String-discrete sig_discrete t.where_to_send.forward nid sig ≡ true)
  pub has_status :
      (nid : String) (sig : Sig)
      → exists String-discrete sig_discrete t.where_to_send.forward nid sig ≡ true
      → is_some (get String-discrete nid t.latest_status) ≡ true

module _ {S R Sig : Type 0} (item : Item S) (report_message : Message R)
    (sig_discrete : Discrete Sig) where
  abbrev pub streams : Table S R Sig → String → Sig → Bool
  streams t nid sig = exists String-discrete sig_discrete t.where_to_send.forward nid sig

  abbrev Relation : Table S R Sig → Type 0
  Relation t =
      Agrees String-discrete sig_discrete t.where_to_send
      × IsTidyBoth String-discrete sig_discrete t.where_to_send

  abbrev relation_of : Table S R Sig → SetMapaMteS String Sig
  relation_of t = t.where_to_send

  forget_key-relation :
      (nid : String) (t : Table S R Sig)
      → relation_of (forget_key item report_message sig_discrete nid t)
        ≡ remove_key String-discrete sig_discrete t.where_to_send nid
  unfolding forget_key
  forget_key-relation nid t = ground arith

  forget_key-Relation :
      (nid : String) (t : Table S R Sig)
      → Relation t
      → Relation (forget_key item report_message sig_discrete nid t)
  unfolding apply
  forget_key-Relation nid t (g, y) = rw (forget_key-relation nid t) (
    apply-Agrees String-discrete sig_discrete t.where_to_send (removes_key nid) g,
    apply-IsTidy String-discrete sig_discrete t.where_to_send (removes_key nid) y,
  )

  forget_key-streams :
      (nid : String) (t : Table S R Sig) (k : String) (sig : Sig)
      → Relation t
      → streams (forget_key item report_message sig_discrete nid t) k sig
        ≡ not (holds (String-discrete nid k)) && streams t k sig
  unfolding apply expected
  forget_key-streams nid t k sig (g, y) =
      rw (forget_key-relation nid t)
        (apply_cases String-discrete sig_discrete t.where_to_send (removes_key nid) k sig g).0

  -- Dropping a key that is not there changes no lookup.
  forget_key-latest :
      (nid : String) (t : Table S R Sig) (k : String)
      → get String-discrete k (forget_key item report_message sig_discrete nid t).latest_status
        ≡ (if holds (String-discrete nid k) then none else get String-discrete k t.latest_status)
  unfolding forget_key
  forget_key-latest nid t k = ground (arith, get-del String-discrete k nid t.latest_status)

  forget_keys-Relation :
      (ks : List String) (t : Table S R Sig)
      → Relation t
      → Relation (forget_keys item report_message sig_discrete ks t)
  unfolding forget_keys
  forget_keys-Relation [] t h = h
  forget_keys-Relation (nid ∷ rest) t h =
      forget_keys-Relation rest (forget_key item report_message sig_discrete nid t)
        (forget_key-Relation nid t h)

  forget_keys-streams :
      (ks : List String) (t : Table S R Sig) (k : String) (sig : Sig)
      → Relation t
      → streams (forget_keys item report_message sig_discrete ks t) k sig
        ≡ not (member String-discrete k ks) && streams t k sig
  unfolding forget_keys member
  forget_keys-streams [] t k sig h = refl
  forget_keys-streams (nid ∷ rest) t k sig h = ground (
    arith,
    forget_keys-streams rest (forget_key item report_message sig_discrete nid t) k sig
        (forget_key-Relation nid t h),
    forget_key-streams nid t k sig h,
  )

  forget_keys-latest :
      (ks : List String) (t : Table S R Sig) (k : String)
      → get String-discrete k (forget_keys item report_message sig_discrete ks t).latest_status
        ≡ (if member String-discrete k ks then none else get String-discrete k t.latest_status)
  unfolding forget_keys member
  forget_keys-latest [] t k = refl
  forget_keys-latest (nid ∷ rest) t k = ground (
    arith,
    forget_keys-latest rest (forget_key item report_message sig_discrete nid t) k,
    forget_key-latest nid t k,
  )

  -- The nodes that a stream's end makes unreachable.
  abbrev lost : Sig → Table S R Sig → List String
  lost sig t = get_unique_keys String-discrete sig_discrete t.where_to_send sig

  forget_sig-Relation :
      (sig : Sig) (t : Table S R Sig)
      → Relation t
      → Relation (forget_sig item report_message sig_discrete sig t)
  unfolding forget_sig apply
  forget_sig-Relation sig t h =
      let u = forget_keys item report_message sig_discrete (lost sig t) t in
      let (g, y) = forget_keys-Relation (lost sig t) t h in
      (
        apply-Agrees String-discrete sig_discrete u.where_to_send (removes_value sig) g,
        apply-IsTidy String-discrete sig_discrete u.where_to_send (removes_value sig) y,
      )

  -- A stream that ends keeps no node, and no other pair is lost but those of nodes that it alone had.
  forget_sig-streams :
      (sig : Sig) (t : Table S R Sig) (k : String) (v : Sig)
      → Relation t
      → streams (forget_sig item report_message sig_discrete sig t) k v
        ≡ not (holds (sig_discrete sig v))
          && (not (member String-discrete k (lost sig t)) && streams t k v)
  unfolding forget_sig apply expected
  forget_sig-streams sig t k v h =
      let u = forget_keys item report_message sig_discrete (lost sig t) t in
      (apply_cases String-discrete sig_discrete u.where_to_send (removes_value sig) k v
        (forget_keys-Relation (lost sig t) t h).0).0
      ∙ ap (λ b. not (holds (sig_discrete sig v)) && b) (forget_keys-streams (lost sig t) t k v h)

  forget_sig-latest :
      (sig : Sig) (t : Table S R Sig) (k : String)
      → get String-discrete k (forget_sig item report_message sig_discrete sig t).latest_status ≡ (
          if member String-discrete k (lost sig t)
          then none
          else get String-discrete k t.latest_status)
  unfolding forget_sig
  forget_sig-latest sig t k = forget_keys-latest (lost sig t) t k

  del-IsFiled :
      (nid : String) (m : GoMap String S)
      → IsFiled item m
      → IsFiled item (del String-discrete nid m)
  unfolding del
  del-IsFiled nid [] h = tt
  del-IsFiled nid ((k, s) ∷ m) h = ground (arith, del-IsFiled nid m h.1)

  abbrev Stored : GoMap String S → Type 0
  Stored m = IsFiled item m × Distinct String-discrete m

  forget_key-Stored :
      (nid : String) (t : Table S R Sig)
      → Stored t.latest_status
      → Stored (forget_key item report_message sig_discrete nid t).latest_status
  unfolding forget_key
  forget_key-Stored nid t (f, d) =
      elim (Bool-cases (is_some (get String-discrete nid t.latest_status))) [
        | inl e ↦
            rw e (
              del-IsFiled nid t.latest_status f,
              del-Distinct String-discrete nid t.latest_status d,
            )
        | inr e ↦ rw e (f, d)
      ]

  forget_keys-Stored :
      (ks : List String) (t : Table S R Sig)
      → Stored t.latest_status
      → Stored (forget_keys item report_message sig_discrete ks t).latest_status
  unfolding forget_keys
  forget_keys-Stored [] t h = h
  forget_keys-Stored (nid ∷ rest) t h =
      forget_keys-Stored rest (forget_key item report_message sig_discrete nid t)
        (forget_key-Stored nid t h)

  abbrev relation_holds : (t : Table S R Sig) → Inv item sig_discrete t → Relation t
  relation_holds t v = (v.agrees, v.tidy)

  -- When a stream ends, a node either keeps its status, and then has another stream, or it has
  -- lost its status, and then had no other stream.
  pub forget_sig_cases :
      (sig : Sig) (t : Table S R Sig) (nid : String)
      → Inv item sig_discrete t
      → ((get String-discrete nid (forget_sig item report_message sig_discrete sig t).latest_status
            ≡ get String-discrete nid t.latest_status)
          × ((w : Sig) × (w ≢ sig) × (streams t nid w ≡ true)))
        ⊎ ((get String-discrete nid
                (forget_sig item report_message sig_discrete sig t).latest_status
              ≡ none)
            × ((w : Sig) → streams t nid w ≡ true → w ≡ sig))
  forget_sig_cases sig t nid v = elim (Bool-cases (member String-discrete nid (lost sig t))) [
    | inl e ↦ inr (ground (arith, forget_sig-latest sig t nid), only_lost e)
    | inr e ↦
        kept e (Bool-cases (is_some (get String-discrete nid t.latest_status)))
          (Bool-cases (streams t nid sig))
  ]
    where
      only_lost :
          member String-discrete nid (lost sig t) ≡ true
          → (w : Sig) → streams t nid w ≡ true
          → w ≡ sig
      only_lost e =
          (get_unique_keys_cases String-discrete sig_discrete t.where_to_send nid sig v.agrees
            v.tidy e)

      kept :
          member String-discrete nid (lost sig t) ≡ false
          → (is_some (get String-discrete nid t.latest_status) ≡ true)
            ⊎ (is_some (get String-discrete nid t.latest_status) ≡ false)
          → (streams t nid sig ≡ true) ⊎ (streams t nid sig ≡ false)
          → ((get String-discrete nid
                  (forget_sig item report_message sig_discrete sig t).latest_status
                ≡ get String-discrete nid t.latest_status)
              × ((w : Sig) × (w ≢ sig) × (streams t nid w ≡ true)))
            ⊎ ((get String-discrete nid
                    (forget_sig item report_message sig_discrete sig t).latest_status
                  ≡ none)
                × ((w : Sig) → streams t nid w ≡ true → w ≡ sig))
      kept e (inl there) (inl here) = inl (
        ground (arith, forget_sig-latest sig t nid),
        other_value String-discrete sig_discrete t.where_to_send nid sig v.agrees v.tidy here e,
      )
      kept e (inl there) (inr away) =
          let (w, h) = v.has_stream nid there in
          inl (
            ground (arith, forget_sig-latest sig t nid),
            (w, λ p. cc (subst (λ x. streams t nid x ≡ true) p h), h),
          )
      kept e (inr gone) _ =
          inr (ground (arith, forget_sig-latest sig t nid), λ w h. cc (v.has_status nid w h))

  forget_sig-has_stream :
      (sig : Sig) (t : Table S R Sig) (nid : String)
      → Inv item sig_discrete t
      → is_some (
          get String-discrete nid (forget_sig item report_message sig_discrete sig t).latest_status)
        ≡ true
      → (w : Sig) × (streams (forget_sig item report_message sig_discrete sig t) nid w ≡ true)
  forget_sig-has_stream sig t nid v e = elim (forget_sig_cases sig t nid v) [
    | inl (_, (w, n, hw)) ↦ (
      w,
      ground (
        arith,
        forget_sig-streams sig t nid w (relation_holds t v),
        forget_sig-latest sig t nid,
        n,
      ),
    )
    | inr (gone, _) ↦ cc (ap is_some gone)
  ]

  forget_sig-has_status :
      (sig : Sig) (t : Table S R Sig) (nid : String) (w : Sig)
      → Inv item sig_discrete t
      → streams (forget_sig item report_message sig_discrete sig t) nid w ≡ true
      → is_some (
          get String-discrete nid (forget_sig item report_message sig_discrete sig t).latest_status)
        ≡ true
  forget_sig-has_status sig t nid w v e = ground (
    arith,
    forget_sig-streams sig t nid w (relation_holds t v),
    forget_sig-latest sig t nid,
    v.has_status nid w,
  )

  pub forget_sig-Inv :
      (sig : Sig) (t : Table S R Sig)
      → Inv item sig_discrete t
      → Inv item sig_discrete (forget_sig item report_message sig_discrete sig t)
  forget_sig-Inv sig t v =
      let h = forget_sig-Relation sig t (relation_holds t v) in
      record {
        agrees = h.0;
        tidy = h.1;
        filed = (unfold forget_sig in (forget_keys-Stored (lost sig t) t (v.filed, v.distinct)).0);
        distinct =
            (unfold forget_sig in (forget_keys-Stored (lost sig t) t (v.filed, v.distinct)).1);
        has_stream = λ nid e. forget_sig-has_stream sig t nid v e;
        has_status = λ nid w e. forget_sig-has_status sig t nid w v e;
      }
