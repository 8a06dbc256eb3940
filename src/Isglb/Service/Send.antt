-- ===== src/Isglb/Service/Send.antt =====
-- The sending loop of pkg/isglb/service.go: what is sent, to whom, and what is remembered of it.
use mathlib.Core.List.{append-nil, append_assoc}
use dion.Prelude.{
  true, false, Option, none, some, List, [], ◌∷◌, ◌++◌, ◌≡◌, refl, sym, ap, ◌∙◌, arith, String,
  String-discrete, is_some, if◌then◌else◌, Option-cases, Bool-cases, inl, inr, All,
}
use dion.Prelude.GoMap.{GoMap, get, put, get-put, Distinct, put-Distinct}
use dion.Proto.{Message}
use dion.Util.Set.{Item, Lawful}
use dion.Util.SetMap.{SetMapaMteS, exists, get_set}
use dion.Util.SetMap.Laws.{member, member-get_set}
use dion.Isglb.Service.{unchanged, open_head, send_target, send_one, send_each, expected_dict}
use dion.Isglb.Service.Forget.{IsFiled}

pub put-IsFiled :
    {S : Type 0} (item : Item S) (nid : String) (s : S) (m : GoMap String S)
    → item.key s ≡ nid
    → IsFiled item m
    → IsFiled item (put String-discrete nid s m)
unfolding put
put-IsFiled item nid s [] e h = (e, tt)
put-IsFiled item nid s ((k, u) ∷ m) e h = ground (arith, put-IsFiled item nid s m e h.1)

pub get-IsFiled :
    {S : Type 0} (item : Item S) (nid : String) (m : GoMap String S) (s : S)
    → IsFiled item m
    → get String-discrete nid m ≡ some s
    → item.key s ≡ nid
unfolding get
get-IsFiled item nid [] s h e = cc
get-IsFiled item nid ((k, u) ∷ m) s h e = ground (arith, get-IsFiled item nid m s h.1)

module _ {S : Type 0} (item : Item S) where
  open item use {key, clone}

  pub expected_dict-IsFiled :
      Lawful item
      → (list : List S) (d : GoMap String S) → IsFiled item d
      → IsFiled item (expected_dict item list d)
  unfolding expected_dict
  expected_dict-IsFiled law [] d f = f
  expected_dict-IsFiled law (s ∷ rest) d f =
      expected_dict-IsFiled law rest (put String-discrete (key s) (clone s) d)
        (put-IsFiled item (key s) (clone s) d (ap key (law.clone_lem s)) f)

  pub expected_dict-Distinct :
      (list : List S) (d : GoMap String S)
      → Distinct String-discrete d
      → Distinct String-discrete (expected_dict item list d)
  unfolding expected_dict
  expected_dict-Distinct [] d g = g
  expected_dict-Distinct (s ∷ rest) d g =
      expected_dict-Distinct rest (put String-discrete (key s) (clone s) d)
        (put-Distinct String-discrete (key s) (clone s) d g)

module _ {Sig : Type 0} (sig_discrete : Discrete Sig) (chs : GoMap Sig (Unit {0})) where
  open_head-member :
      (sig : Sig) (sigs : List Sig)
      → open_head sig_discrete chs sigs ≡ some sig
      → (member sig_discrete sig sigs ≡ true) × (is_some (get sig_discrete sig chs) ≡ true)
  unfolding member
  open_head-member sig [] e = absurd (cc)
  open_head-member sig (x ∷ rest) e = ground arith

  -- The first stream of a node, with an open channel, belongs to the node.
  pub send_target-exists :
      (r : SetMapaMteS String Sig) (nid : String) (sig : Sig)
      → send_target sig_discrete r chs nid ≡ some sig
      → (exists String-discrete sig_discrete r.forward nid sig ≡ true)
        × (is_some (get sig_discrete sig chs) ≡ true)
  unfolding send_target
  send_target-exists r nid sig h =
      let (m, o) = open_head-member sig (get_set String-discrete sig_discrete r.forward nid) h in
      (sym (member-get_set String-discrete sig_discrete r.forward nid sig) ∙ m, o)

module _ {S R Sig : Type 0} (item : Item S) (report_message : Message R)
    (sig_discrete : Discrete Sig) (r : SetMapaMteS String Sig) (chs : GoMap Sig (Unit {0})) where
  open item use {key, compare}

  -- What is to be sent, entry by entry, judged by the statuses that are stored beforehand.
  unfoldable pub outgoing : GoMap String S → GoMap String S → List (Sig × S)
  outgoing latest [] = []
  outgoing latest ((nid, s) ∷ rest) =
      let more = outgoing latest rest in
      if unchanged item latest nid s
      then more
      else elim (send_target sig_discrete r chs nid) [ none ↦ more | some sig ↦ (sig, s) ∷ more ]

  outgoing-put :
      (latest m : GoMap String S) (nid : String) (s : S)
      → get String-discrete nid m ≡ none
      → outgoing (put String-discrete nid s latest) m ≡ outgoing latest m
  unfolding outgoing unchanged get
  outgoing-put latest [] nid s h = refl
  outgoing-put latest ((k, u) ∷ m) nid s h =
      ground (arith, outgoing-put latest m nid s, get-put String-discrete k nid s latest)

  -- What a key's status becomes: what is sent for it, or what it was.
  unfoldable pub remembered : GoMap String S → GoMap String S → String → Option S
  remembered latest dict nid = elim (get String-discrete nid dict) [
    | none ↦ get String-discrete nid latest
    | some s ↦
        if unchanged item latest nid s
        then get String-discrete nid latest
        else elim (send_target sig_discrete r chs nid) [
          | none ↦ get String-discrete nid latest
          | some sig ↦ some s
        ]
  ]

  outgoing-cons :
      (nid : String) (s : S) (latest dict : GoMap String S)
      → outgoing latest ((nid, s) ∷ dict) ≡ (
          if unchanged item latest nid s
          then outgoing latest dict
          else elim (send_target sig_discrete r chs nid) [
            | none ↦ outgoing latest dict
            | some sig ↦ (sig, s) ∷ outgoing latest dict
          ])
  unfolding outgoing
  outgoing-cons nid s latest dict = refl

  send_one-out :
      (nid : String) (s : S) (latest dict : GoMap String S) (out : List (Sig × S))
      → get String-discrete nid dict ≡ none
      → (send_one item report_message sig_discrete r chs nid s (latest, out)).1
          ++ outgoing (send_one item report_message sig_discrete r chs nid s (latest, out)).0 dict
        ≡ out ++ outgoing latest ((nid, s) ∷ dict)
  unfolding send_one
  send_one-out nid s latest dict out h = elim (Option-cases (send_target sig_discrete r chs nid)) [
    | inl f ↦ ground (arith, outgoing-cons nid s latest dict)
    | inr (sig, f) ↦ ground (
      arith,
      outgoing-cons nid s latest dict,
      outgoing-put latest dict nid s,
      append_assoc out ((sig, s) ∷ []) (outgoing latest dict),
    )
  ]

  -- The loop sends what `outgoing` says.
  pub send_each-out :
      (latest dict : GoMap String S) (out : List (Sig × S))
      → Distinct String-discrete dict
      → (send_each item report_message sig_discrete r chs dict (latest, out)).1
        ≡ out ++ outgoing latest dict
  unfolding send_each outgoing
  send_each-out latest [] out d = sym (append-nil out)
  send_each-out latest ((nid, s) ∷ rest) out d =
      let (latest', out') = send_one item report_message sig_discrete r chs nid s (latest, out) in
      send_each-out latest' rest out' d.1 ∙ send_one-out nid s latest rest out d.0

  send_one-latest :
      (nid : String) (s : S) (latest dict : GoMap String S) (out : List (Sig × S)) (k : String)
      → get String-discrete nid dict ≡ none
      → remembered (send_one item report_message sig_discrete r chs nid s (latest, out)).0 dict k
        ≡ remembered latest ((nid, s) ∷ dict) k
  unfolding send_one remembered get unchanged
  send_one-latest nid s latest dict out k h = ground (arith, get-put String-discrete k nid s latest)

  -- After the loop a node has the status that was sent for it, or the one that it had.
  pub send_each-latest :
      (latest dict : GoMap String S) (out : List (Sig × S)) (k : String)
      → Distinct String-discrete dict
      → get String-discrete k
          (send_each item report_message sig_discrete r chs dict (latest, out)).0
        ≡ remembered latest dict k
  unfolding send_each remembered get
  send_each-latest latest [] out k d = refl
  send_each-latest latest ((nid, s) ∷ rest) out k d =
      let (latest', out') = send_one item report_message sig_discrete r chs nid s (latest, out) in
      send_each-latest latest' rest out' k d.1 ∙ send_one-latest nid s latest rest out k d.0

  abbrev Stored : GoMap String S → Type 0
  Stored m = IsFiled item m × Distinct String-discrete m

  send_one-Stored :
      (nid : String) (s : S) (latest : GoMap String S) (out : List (Sig × S))
      → key s ≡ nid
      → Stored latest
      → Stored (send_one item report_message sig_discrete r chs nid s (latest, out)).0
  unfolding send_one
  send_one-Stored nid s latest out e h =
      ground
        (arith, put-IsFiled item nid s latest e h.0, put-Distinct String-discrete nid s latest h.1)

  pub send_each-Stored :
      (latest dict : GoMap String S) (out : List (Sig × S))
      → IsFiled item dict
      → Stored latest
      → Stored (send_each item report_message sig_discrete r chs dict (latest, out)).0
  unfolding send_each
  send_each-Stored latest [] out f h = h
  send_each-Stored latest ((nid, s) ∷ rest) out f h =
      let (latest', out') = send_one item report_message sig_discrete r chs nid s (latest, out) in
      send_each-Stored latest' rest out' f.1 (send_one-Stored nid s latest out f.0 h)

  remembered_sent :
      (latest dict : GoMap String S) (nid : String) (s : S) (sig : Sig)
      → get String-discrete nid dict ≡ some s
      → unchanged item latest nid s ≡ false
      → send_target sig_discrete r chs nid ≡ some sig
      → remembered latest dict nid ≡ some s
  unfolding remembered
  remembered_sent latest dict nid s sig h e g = ground arith

  -- An entry of a map without double keys is what a lookup finds.
  abbrev FoundIn : GoMap String S → GoMap String S → Type 0
  FoundIn dict = All (λ e. get String-discrete e.0 dict ≡ some e.1)

  FoundIn-cons :
      (nid : String) (s : S) (dict m : GoMap String S)
      → get String-discrete nid dict ≡ none
      → FoundIn dict m
      → FoundIn ((nid, s) ∷ dict) m
  unfolding get
  FoundIn-cons nid s dict [] h f = tt
  FoundIn-cons nid s dict ((k, u) ∷ m) h f = (ground (arith, f.0), FoundIn-cons nid s dict m h f.1)

  FoundIn-self : (dict : GoMap String S) → Distinct String-discrete dict → FoundIn dict dict
  unfolding get
  FoundIn-self [] d = tt
  FoundIn-self ((nid, s) ∷ m) d = (ground arith, FoundIn-cons nid s m m d.0 (FoundIn-self m d.1))

  -- What is right about one sent status: it goes to a stream of its own node whose channel is open,
  -- it differs from what the table held, and it is what the table holds of the node afterwards.
  abbrev pub IsDue : GoMap String S → (String → Option S) → Sig × S → Type 0
  IsDue latest after (sig, s) =
      (exists String-discrete sig_discrete r.forward (key s) sig ≡ true)
      × (is_some (get sig_discrete sig chs) ≡ true)
      × (unchanged item latest (key s) s ≡ false)
      × (after (key s) ≡ some s)

  outgoing-IsDue :
      (latest dict m : GoMap String S)
      → IsFiled item m
      → FoundIn dict m
      → All (IsDue latest (remembered latest dict)) (outgoing latest m)
  unfolding outgoing
  outgoing-IsDue latest dict [] f h = tt
  outgoing-IsDue latest dict ((nid, s) ∷ m) f h =
      let rest = outgoing-IsDue latest dict m f.1 h.1 in
      elim (Bool-cases (unchanged item latest nid s)) [
        | inl e ↦ rw e rest
        | inr e ↦ elim (Option-cases (send_target sig_discrete r chs nid)) [
          | inl g ↦ rw e (rw g rest)
          | inr (sig, g) ↦
              let (x, o) = send_target-exists sig_discrete chs r nid sig g in
              rw e (
                rw g (
                  (rw f.0 x, o, rw f.0 e, rw f.0 (remembered_sent latest dict nid s sig h.0 e g)),
                  rest,
                ))
        ]
      ]

  -- Everything that one round of sending sends is due.
  pub send_each-IsDue :
      (latest dict : GoMap String S)
      → IsFiled item dict
      → Distinct String-discrete dict
      → All (IsDue latest (remembered latest dict)) (outgoing latest dict)
  send_each-IsDue latest dict f d = outgoing-IsDue latest dict dict f (FoundIn-self dict d)

  quiet :
      (latest dict m : GoMap String S)
      → Lawful item
      → FoundIn dict m
      → (after : GoMap String S)
      → ((nid : String) → get String-discrete nid after ≡ remembered latest dict nid)
      → outgoing after m ≡ []
  unfolding outgoing remembered unchanged
  quiet latest dict [] law h after q = refl
  quiet latest dict ((nid, s) ∷ m) law h after q =
      ground (arith, quiet latest dict m law h.1 after q, h.0, q nid, law.compare_refl s)

  -- A second round with the same expected statuses sends nothing.
  pub send_each_twice :
      (latest dict : GoMap String S)
      → Lawful item
      → Distinct String-discrete dict
      → outgoing (send_each item report_message sig_discrete r chs dict (latest, [])).0 dict ≡ []
  send_each_twice latest dict law d =
      quiet latest dict dict law (FoundIn-self dict d)
        (send_each item report_message sig_discrete r chs dict (latest, [])).0
        (λ nid. send_each-latest latest dict [] nid d)
