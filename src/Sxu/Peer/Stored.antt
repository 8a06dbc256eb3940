-- ===== src/Sxu/Peer/Stored.antt =====
-- The candidates that a bridge's subscriber stores (pkg/sxu/bridge/common.go), and when.
use dion.Prelude.{
  String, Bool, true, false, Option, none, some, List, [], ◌∷◌, ◌++◌, ◌≡◌, refl, sym, ap, ◌∙◌,
}
use dion.Sfu.Messages.{Description, publisher, subscriber}
use dion.Sfu.Replies.{Answer, answered, refuses}
use dion.Sfu.Candidates.{PeerConnection, Keeps}
use dion.Sxu.Peer.{
  BridgePeer, PeerEvent, candidate, offers, add_call, break_on, add_until_broken, add_stored,
  store_or_add, on_ice_candidate, answer_peer, answer_bridge, bridge_offered, on_offer, peer_step,
  peer_run,
}

unfoldable pub has_offer : {C : Type 0} → List (PeerEvent C) → Bool
has_offer [] = false
has_offer (candidate c target ∷ es) = has_offer es
has_offer (offers d result ∷ es) = true

module _ {S C : Type 0} (conn : PeerConnection S C) where
  -- Where a description is set, nothing is stored.
  abbrev pub IsEmptied : BridgePeer S C → Type 0
  IsEmptied p = conn.described p.pc ≡ true → p.pc_cand ≡ []

  break_on-pc_cand :
      (o : Option String) (p more : BridgePeer S C)
      → more.pc_cand ≡ p.pc_cand
      → (break_on conn o p more).pc_cand ≡ p.pc_cand
  break_on-pc_cand none p more e = e
  break_on-pc_cand (some x) p more e = refl

  add_until_broken-pc_cand :
      (cs : List C) (p : BridgePeer S C) → (add_until_broken conn cs p).pc_cand ≡ p.pc_cand
  unfolding add_until_broken
  add_until_broken-pc_cand [] p = refl
  add_until_broken-pc_cand (c ∷ cs) p =
      break_on-pc_cand (conn.add_candidate c p.pc).1 (add_call conn c p)
        (add_until_broken conn cs (add_call conn c p))
        (add_until_broken-pc_cand cs (add_call conn c p))

  store_or_add-IsEmptied :
      (b : Bool) (c : C) (p : BridgePeer S C)
      → conn.described p.pc ≡ b
      → IsEmptied (store_or_add conn b c p)
  store_or_add-IsEmptied false c p q = λ d. absurd (cc)
  store_or_add-IsEmptied true c p q =
      λ d. add_until_broken-pc_cand (p.pc_cand ++ c ∷ []) (record p { pc_cand = [] })

  answer_peer-pc_cand :
      (result : Option String) (d : Description) (r : S × Option String) (p : BridgePeer S C)
      → (answer_peer conn result d r p).pc_cand ≡ p.pc_cand
  answer_peer-pc_cand result d (pc, some x) p = refl
  answer_peer-pc_cand (some y) d (pc, none) p = refl
  answer_peer-pc_cand none d (pc, none) p = refl

  answer_bridge-pc_cand :
      (result : Option String) (r : S × Answer) (p : BridgePeer S C)
      → (answer_bridge conn result r p).pc_cand ≡ p.pc_cand
  answer_bridge-pc_cand result (pc, refuses x) p = refl
  answer_bridge-pc_cand result (pc, answered d) p =
      answer_peer-pc_cand result d (conn.set_local d pc) p

  bridge_offered-IsEmptied :
      Keeps conn
      → (result : Option String) (d : Description) (r : S × Option String) (p : BridgePeer S C)
      → conn.set_remote d p.pc ≡ r
      → IsEmptied p
      → IsEmptied (bridge_offered conn result r p)
  bridge_offered-IsEmptied keeps result d (pc, some x) p q h e =
      h (sym (keeps.refused d p.pc x (ap (λ r. r.1) q)) ∙ ap (λ r. conn.described r.0) q ∙ e)
  bridge_offered-IsEmptied keeps result d (pc, none) p q h e =
      let v = add_stored conn p.pc_cand (record p { pc = pc }) in
      answer_bridge-pc_cand result (conn.create_answer v.pc) v
      ∙ add_until_broken-pc_cand p.pc_cand (record p { pc = pc; pc_cand = [] })

  peer_step-IsEmptied :
      Keeps conn
      → (e : PeerEvent C) (p : BridgePeer S C) → IsEmptied p
      → IsEmptied (peer_step conn p e)
  unfolding peer_step on_ice_candidate on_offer
  peer_step-IsEmptied keeps (candidate c publisher) p h = h
  peer_step-IsEmptied keeps (candidate c subscriber) p h =
      store_or_add-IsEmptied (conn.described p.pc) c p refl
  peer_step-IsEmptied keeps (offers d result) p h =
      bridge_offered-IsEmptied keeps result d (conn.set_remote d p.pc) p refl h

  pub run-IsEmptied :
      Keeps conn
      → (es : List (PeerEvent C)) (p : BridgePeer S C) → IsEmptied p
      → IsEmptied (peer_run conn p es)
  unfolding peer_run
  run-IsEmptied keeps [] p h = h
  run-IsEmptied keeps (e ∷ es) p h =
      run-IsEmptied keeps es (peer_step conn p e) (peer_step-IsEmptied keeps e p h)

  -- A connection without a description that was given nothing.
  abbrev pub IsUntouched : BridgePeer S C → Type 0
  IsUntouched p = (conn.described p.pc ≡ false) × (p.added ≡ [])

  store_or_add-IsUntouched :
      (b : Bool) (c : C) (p : BridgePeer S C)
      → conn.described p.pc ≡ b
      → IsUntouched p
      → IsUntouched (store_or_add conn b c p)
  store_or_add-IsUntouched false c p q h = h
  store_or_add-IsUntouched true c p q (d, a) = absurd (cc)

  pub run-IsUntouched :
      (es : List (PeerEvent C)) (p : BridgePeer S C)
      → has_offer es ≡ false
      → IsUntouched p
      → IsUntouched (peer_run conn p es)
  unfolding peer_run peer_step on_ice_candidate has_offer
  run-IsUntouched [] p e h = h
  run-IsUntouched (candidate c publisher ∷ es) p e h = run-IsUntouched es p e h
  run-IsUntouched (candidate c subscriber ∷ es) p e h =
      run-IsUntouched es (store_or_add conn (conn.described p.pc) c p) e
        (store_or_add-IsUntouched (conn.described p.pc) c p refl h)
  run-IsUntouched (offers d result ∷ es) p e h = absurd (cc)
